-- ===== src/Event/Types.antt =====
-- The data of the event contract: types.rs, errors.rs, events.rs and the `DataKey` of storage.rs in
-- contracts/event/src, with the two contracts that it calls. The event log is newest first.
use zicket_contract.Base.{ℕ, Bool, Option, List, [], ◌∷◌, true, false, Address, Symbol, Bytes}
use zicket_contract.Base.Int.{ℤ}
use zicket_contract.CommonUtils.Splits.{Splits}
use zicket_contract.PrivacyUtils.{PrivacyLevel, MaskedAddress}
use zicket_contract.Ticket
use zicket_contract.Payments

-- `String`, as its bytes
abbrev pub Text : Type 0
Text = List ℕ

abbrev pub is_empty : {A : Type 0} → List A → Bool
is_empty [] = true
is_empty (_ ∷ _) = false

pub data ZkClaimType : Type 0 where
  any age location citizenship : ZkClaimType

pub record ZkPassportClaim : Type 0 where
  pub claim_type : ZkClaimType
  pub proof : Bytes
  pub nullifier : Bytes
  pub expiry_ledger : ℕ

pub record AnonymousTicketClaim : Type 0 where
  pub proof : Bytes
  pub nullifier : Bytes
  pub ticket_commitment : Bytes
  pub expiry_ledger : ℕ

pub record ZkVerificationConfig : Type 0 where
  pub required_claim_type : ZkClaimType
  pub enabled : Bool

pub data EventStatus : Type 0 where
  upcoming active completed cancelled postponed : EventStatus

pub record TicketTier : Type 0 where
  pub tier_id : ℕ
  pub name : Text
  pub price : ℤ
  pub capacity : ℕ
  pub sold : ℕ
  pub reserved : ℕ

pub record TicketTierParams : Type 0 where
  pub name : Text
  pub price : ℤ
  pub capacity : ℕ

pub record Event : Type 0 where
  pub event_id : Symbol
  pub organizer : Address
  pub payout_token : Address
  pub name : Text
  pub description : Text
  pub venue : Text
  pub event_date : ℕ
  pub allow_anonymous : Bool
  pub requires_verification : Bool
  pub tiers : List TicketTier
  pub status : EventStatus
  pub created_at : ℕ
  pub privacy_level : PrivacyLevel
  pub max_tickets_per_user : ℕ
  pub max_supply : ℕ
  pub sold_count : ℕ
  pub event_start_ledger : ℕ
  pub event_end_ledger : ℕ
  pub withdrawal_delay_ledgers : ℕ
  pub revenue_splits : Splits
  pub resale_royalty_bps : ℕ
  pub max_resale_price : Option ℤ
  pub allow_free_ticket_transfer : Bool

pub record CreateEventParams : Type 0 where
  pub organizer : Address
  pub payout_token : Address
  pub event_id : Symbol
  pub name : Text
  pub description : Text
  pub venue : Text
  pub event_date : ℕ
  pub initial_tiers : List TicketTierParams
  pub allow_anonymous : Bool
  pub requires_verification : Bool
  pub privacy_level : PrivacyLevel
  pub max_tickets_per_user : ℕ
  pub event_start_ledger : ℕ
  pub event_end_ledger : ℕ
  pub withdrawal_delay_ledgers : ℕ
  pub revenue_splits : Splits
  pub resale_royalty_bps : ℕ
  pub max_resale_price : Option ℤ
  pub allow_free_ticket_transfer : Bool

pub record UpdateEventParams : Type 0 where
  pub organizer : Address
  pub event_id : Symbol
  pub name : Option Text
  pub description : Option Text
  pub venue : Option Text
  pub event_date : Option ℕ
  pub allow_anonymous : Option Bool
  pub requires_verification : Option Bool
  pub max_tickets_per_user : Option ℕ
  pub resale_royalty_bps : Option ℕ
  pub max_resale_price : Option ℤ
  pub allow_free_ticket_transfer : Option Bool

pub record Reservation : Type 0 where
  pub tier_id : ℕ
  pub expires_at : ℕ

pub record PostponementInfo : Type 0 where
  pub new_date_ledger : ℕ
  pub choice_deadline_ledger : ℕ

pub record ClaimSettings : Type 0 where
  pub max_free_claims : ℕ
  pub cooldown_secs : ℕ

pub record AnonClaimSettings : Type 0 where
  pub max_anon_claims_per_window : ℕ
  pub anon_window_size : ℕ

pub record AnonWindowState : Type 0 where
  pub window_index : ℕ
  pub count : ℕ

pub data EventError : Type 0 where
  event_not_found event_already_exists invalid_status_transition unauthorized : EventError
  invalid_input event_not_active invalid_event_date invalid_ticket_count : EventError
  invalid_price event_not_updatable event_sold_out already_registered : EventError
  tier_not_found tier_sold_out contract_links_not_configured refund_failed : EventError
  reservation_not_found reservation_expired invalid_organizer invalid_payout_token : EventError
  migration_failed unsupported_version unauthorized_private_access : EventError
  privacy_violation claim_limit_exceeded claim_cooldown_active : EventError
  anon_commitment_reused anon_claim_window_full anonymous_claims_not_enabled : EventError
  postponement_window_too_short invalid_postponement_date : EventError
  max_postponements_reached postponement_window_open event_not_postponed : EventError
  no_refundable_ticket invalid_revenue_split zk_proof_expired : EventError
  zk_nullifier_reused zk_verification_required zk_proof_invalid : EventError
  zk_claim_type_mismatch payment_privacy_unsupported anonymous_proof_expired : EventError
  anonymous_proof_invalid anonymous_claim_verifier_not_configured : EventError
  anonymous_nullifier_reused anonymous_claim_verifier_already_configured : EventError
  anonymous_proof_expiry_too_far : EventError

pub data EventLog : Type 0 where
  -- event, organizer, name, venue, date, tiers, time
  event_created : Symbol → MaskedAddress → Text → Text → ℕ → ℕ → ℕ → EventLog
  -- event, name, description, venue, date, time
  event_updated : Symbol → Text → Text → Text → ℕ → ℕ → EventLog
  -- event, old status, new status, time
  event_status_changed : Symbol → EventStatus → EventStatus → ℕ → EventLog
  -- event, organizer, time
  event_cancelled : Symbol → MaskedAddress → ℕ → EventLog
  -- event, new date, choice deadline, postponements, time
  event_postponed : Symbol → ℕ → ℕ → ℕ → ℕ → EventLog
  -- event, start, end, time
  event_resumed : Symbol → ℕ → ℕ → ℕ → EventLog
  -- event, attendee, tier, tickets sold, time
  event_registration : Symbol → MaskedAddress → ℕ → ℕ → ℕ → EventLog
  -- event, tier, tickets sold, time
  anon_event_registration : Symbol → ℕ → ℕ → ℕ → EventLog
  -- event, claim type, tier, tickets sold, time
  zk_verified_attendance : Symbol → ZkClaimType → ℕ → ℕ → ℕ → EventLog

-- A field for each variant of `DataKey` that an entry point uses.
pub record Store : Type 0 where
  pub event : Symbol → Option Event
  pub registration : Symbol → Address → Option Bool
  pub reservation : Symbol → Address → Option Reservation
  pub admin : Option Address
  pub ticket_contract : Option Address
  pub payments_contract : Option Address
  pub event_privacy : Symbol → Option PrivacyLevel
  pub contract_version : Option ℕ
  pub free_claim_count : Symbol → Address → Option ℕ
  pub last_free_claim : Symbol → Address → Option ℕ
  pub event_claim_settings : Symbol → Option ClaimSettings
  pub postponement : Symbol → Option PostponementInfo
  pub postpone_count : Symbol → Option ℕ
  pub event_anon_window : Symbol → Option AnonWindowState
  pub event_anon_settings : Symbol → Option AnonClaimSettings
  pub anonymous_claim_verifier : Option Address
  pub anonymous_nullifier : Symbol → Bytes → Option Bytes
  pub zk_nullifier : Symbol → Bytes → Option Bool
  pub zk_verification_config : Symbol → Option ZkVerificationConfig
  pub event_attendee_index : Symbol → ℕ → Option Address
  pub event_attendees_count : Symbol → Option ℕ
  pub events : List EventLog

-- The storage of the event contract with those of the two contracts that it calls.
pub record World (T : Type 0) : Type 0 where
  pub event : Store
  pub tickets : Ticket.Types.Store
  pub payments : Payments.Types.Store T
