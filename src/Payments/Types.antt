-- ===== src/Payments/Types.antt =====
-- The data of the payments contract: types.rs, errors.rs, and `EventConfig`, `EventPrivacyConfig`
-- and `DataKey` of storage.rs in contracts/payments/src. The token contract is a parameter. The
-- event log is newest first.
use zicket_contract.Base.{
  ℕ, ◌≡◌, ◌==◌, ◌&&◌, if◌then◌else◌, Bool, Option, some, List, Address, Symbol, Bytes,
}
use zicket_contract.Base.Int.{ℤ, pos, ◌+ℤ◌, ◌-ℤ◌}
use zicket_contract.CommonUtils.Splits.{Splits}
use zicket_contract.PrivacyUtils.{PrivacyLevel, MaskedAddress}

pub data EventStatus : Type 0 where
  upcoming active completed cancelled postponed : EventStatus

pub data PaymentStatus : Type 0 where
  held released refunded disputed : PaymentStatus

pub data PaymentPrivacy : Type 0 where
  anonymous private standard : PaymentPrivacy

pub record EscrowMetadata : Type 0 where
  pub organizer : Address
  pub event_end_time : ℕ
  pub auto_released : Bool

pub record PaymentRecord : Type 0 where
  pub payment_id : ℕ
  pub event_id : Symbol
  pub payer : Option Address
  pub hashed_wallet : Option Bytes
  pub stealth_delivery_key : Option Bytes
  pub nullifier_commitment : Option Bytes
  pub amount : ℤ
  pub token : Address
  pub status : PaymentStatus
  pub paid_at : ℕ
  pub privacy_level : PaymentPrivacy
  pub refunded_amount : ℤ
  pub zk_email_commitment : Option Bytes

pub record Ticket : Type 0 where
  pub ticket_id : ℕ
  pub event_id : Symbol
  pub owner : Option Address
  pub hashed_owner : Option Bytes
  pub nullifier_commitment : Option Bytes
  pub payment_id : ℕ
  pub privacy_level : PaymentPrivacy

pub record WithdrawalRecord : Type 0 where
  pub amount : ℤ
  pub timestamp : ℕ
  pub organizer : Address

pub record DisputeRecord : Type 0 where
  pub ticket_id : ℕ
  pub event_id : Symbol
  pub payment_id : ℕ
  pub reason_code : ℕ
  pub raised_at_ledger : ℕ

-- The base amount of the shares of a split event, fixed at its first withdrawal.
pub record SplitSettlement : Type 0 where
  pub token : Address
  pub net_distributable : ℤ

pub data FlagResolution : Type 0 where
  release_to_recipient reassign_to_primary : FlagResolution

pub record ResaleListing : Type 0 where
  pub price : ℤ
  pub seller : Address

pub record EventPrivacyConfig : Type 0 where
  pub allow_anonymous : Bool
  pub requires_verification : Bool

pub record EventConfig : Type 0 where
  pub organizer : Address
  pub payout_token : Address
  pub allow_anonymous : Bool
  pub requires_verification : Bool
  pub max_tickets_per_user : ℕ
  pub max_supply : ℕ
  pub sold_count : ℕ
  pub event_start_ledger : ℕ
  pub event_end_ledger : ℕ
  pub withdrawal_delay_ledgers : ℕ
  pub admin_delay_extension_ledgers : ℕ
  pub cancel_ledger : Option ℕ
  pub withdrawable_ratio_bps : Option ℕ
  pub organizer_withdrawn : Bool
  pub resale_royalty_bps : ℕ
  pub max_resale_price : Option ℤ
  pub allow_free_ticket_transfer : Bool

-- The errors that the modelled entry points return.
pub data PaymentError : Type 0 where
  payment_not_found ticket_not_found unauthorized payment_already_processed : PaymentError
  invalid_amount not_initialized payment_already_refunded no_revenue : PaymentError
  anonymous_payments_disabled verification_required unauthorized_withdrawal : PaymentError
  invalid_organizer invalid_payout_token event_not_active event_not_completed : PaymentError
  refund_not_allowed escrow_not_expired escrow_already_released escrow_not_configured : PaymentError
  no_platform_revenue duplicate_request max_tickets_reached event_sold_out : PaymentError
  nonce_required contract_paused transfer_failed invalid_split_config : PaymentError
  missing_nullifier_commitment missing_stealth_delivery_key privacy_level_mismatch : PaymentError
  dispute_window_closed dispute_already_exists dispute_not_found dispute_expired : PaymentError
  invalid_dispute_reason active_disputes revenue_invariant_violated : PaymentError
  event_not_postponed postponement_window_closed splits_not_configured : PaymentError
  not_a_split_recipient recipient_flagged split_already_withdrawn : PaymentError
  recipient_not_flagged invalid_fee_bps commitment_not_allowed : PaymentError
  commitment_already_set unsupported_version accounting_mismatch : PaymentError

pub data PaymentEvent : Type 0 where
  -- payment, event, payer, amount, token, time
  payment_received : ℕ → Symbol → MaskedAddress → ℤ → Address → ℕ → PaymentEvent
  payment_refunded : ℕ → Symbol → MaskedAddress → ℤ → Address → ℕ → PaymentEvent
  -- payment, event, email hash, time
  receipt_requested : ℕ → Symbol → Option Bytes → ℕ → PaymentEvent
  -- ticket, event, owner, payment, time
  ticket_issued : ℕ → Symbol → MaskedAddress → ℕ → ℕ → PaymentEvent
  -- event, organizer, amount, token, to, time
  revenue_withdrawn : Symbol → MaskedAddress → ℤ → Address → Address → ℕ → PaymentEvent
  -- event, fee, organizer's amount, token, time
  platform_fee_collected : Symbol → ℤ → ℤ → Address → ℕ → PaymentEvent
  -- event, amount, token, to, time
  platform_revenue_withdrawn : Symbol → ℤ → Address → Address → ℕ → PaymentEvent
  -- event, organizer, amount, time
  escrow_auto_released : Symbol → Address → ℤ → ℕ → PaymentEvent
  -- administrator, old fee, new fee, time
  platform_fee_updated : Address → ℕ → ℕ → ℕ → PaymentEvent
  -- event, recipient, who flagged it, time
  cohost_flagged : Symbol → Address → Address → ℕ → PaymentEvent
  -- event, recipient, whether the recipient gets the share, amount, time
  flagged_share_resolved : Symbol → Address → Bool → ℤ → ℕ → PaymentEvent
  -- payment, event, time
  receipt_commitment_bound : ℕ → Symbol → ℕ → PaymentEvent
  -- event, ticket, payment, reason, time
  dispute_raised : Symbol → ℕ → ℕ → ℕ → ℕ → PaymentEvent
  -- event, ticket, whether it was refunded, time
  dispute_resolved : Symbol → ℕ → Bool → ℕ → PaymentEvent
  -- event, ticket, time
  dispute_timed_out : Symbol → ℕ → ℕ → PaymentEvent

-- The token interface, `soroban_sdk::token::Client`, over the state `T` of all token contracts.
pub record Token (T : Type 0) : Type 0 where
  -- `transfer(from, to, amount)` of a token; `none` where it fails.
  pub transfer : T → Address → Address → Address → ℤ → Option T
  pub balance : T → Address → Address → ℤ

-- What the contract relies on: a transfer moves the amount and no other balance.
pub record TokenLaws {T : Type 0} (token : Token T) : Type 0 where
  pub moves :
      (t t' : T) (a from to : Address) (amount : ℤ)
      → token.transfer t a from to amount ≡ some t'
      → (b h : Address)
      → token.balance t' b h
        ≡ token.balance t b h
          -ℤ (if b == a && h == from then amount else pos 0)
          +ℤ (if b == a && h == to then amount else pos 0)

-- A field for each variant of `DataKey` that the modelled entry points use, the state of the tokens,
-- and the events that were published.
pub record Store (T : Type 0) : Type 0 where
  pub admin : Option Address
  pub accepted_token : Option Address
  pub event_contract : Option Address
  pub event_privacy : Symbol → Option EventPrivacyConfig
  pub event_config : Symbol → Option EventConfig
  pub payments : ℕ → Option PaymentRecord
  pub tickets : ℕ → Option Ticket
  pub event_revenue : Symbol → Option ℤ
  pub event_token_revenue : Symbol → Address → Option ℤ
  pub supported_token : Address → Option Bool
  pub event_status : Symbol → Option EventStatus
  pub event_payment : Symbol → ℕ → Option Bool
  pub owner_ticket : Address → ℕ → Option ℕ
  pub payer_payment : Address → ℕ → Option Bool
  pub withdrawal_record : Symbol → ℕ → Option WithdrawalRecord
  pub withdrawal_count : Symbol → Option ℕ
  pub event_token : Symbol → Address → Option Bool
  pub event_token_index : Symbol → ℕ → Option Address
  pub event_token_count : Symbol → Option ℕ
  pub next_payment_id : Option ℕ
  pub next_ticket_id : Option ℕ
  pub platform_fee_bps : Option ℕ
  pub platform_wallet : Option Address
  pub platform_revenue : Symbol → Option ℤ
  pub emission_privacy : Symbol → Option PrivacyLevel
  pub escrow_meta : Symbol → Option EscrowMetadata
  pub processed_nonce : Address → ℕ → Option Bool
  pub user_event_tickets : Symbol → Address → Option ℕ
  pub paused : Option Bool
  pub postpone_deadline : Symbol → Option ℕ
  pub event_splits : Symbol → Option Splits
  pub split_settlement : Symbol → Option SplitSettlement
  pub split_withdrawn : Symbol → Address → Option ℤ
  pub split_flagged : Symbol → Address → Option Bool
  pub resale_listing : ℕ → Option ResaleListing
  pub ticket_contract : Option Address
  pub contract_version : Option ℕ
  pub legacy_event_payments : Symbol → Option (List ℕ)
  pub processed_nonce_hash : Bytes → ℕ → Option Bool
  pub user_event_tickets_hash : Symbol → Bytes → Option ℕ
  pub spent_nullifier : Bytes → Option Bool
  pub dispute : ℕ → Option DisputeRecord
  pub event_disputes : Symbol → Option (List ℕ)
  pub total_payments : Symbol → Option ℤ
  pub total_refunds : Symbol → Option ℤ
  pub total_withdrawn : Symbol → Option ℤ
  pub event_payment_index : Symbol → ℕ → Option ℕ
  pub event_payments_count : Symbol → Option ℕ
  pub payer_payment_index : Address → ℕ → Option ℕ
  pub payer_payments_count : Address → Option ℕ
  pub event_token_volume : Symbol → Address → Option ℤ
  pub total_token_refunds : Symbol → Address → Option ℤ
  pub total_token_withdrawn : Symbol → Address → Option ℤ
  pub owner_ticket_index : Address → ℕ → Option ℕ
  pub owner_tickets_count : Address → Option ℕ
  pub tokens : T
  pub events : List PaymentEvent
