-- ===== src/Payments/Admin.antt =====
-- The configuration of contracts/payments/src/lib.rs: `initialize`, the setters, what the event
-- contract synchronises, the receipt commitments and the migrations.
use zicket_contract.Base.{
  ltb, ◌==◌, if◌then◌else◌, ◌>>=◌, ◌>>◌, err_if, ok_or, unwrap_or, is_some, add_u32, ok, err,
  Address, Symbol, Bytes, update, update₂, require_auth, Env, length, collect, ℕ, ◌+◌, Bool, true,
  false, ◌&&◌, not, Option, none, some, List, [], ◌∷◌,
}
use zicket_contract.Base.Int.{ℤ, pos, ◌+ℤ◌, ltb_ℤ}
use zicket_contract.PrivacyUtils.{PrivacyLevel}
use zicket_contract.Payments.Types.{
  EventStatus, PaymentRecord, WithdrawalRecord, EventConfig, Token, Store, unauthorized,
  not_initialized, invalid_organizer, invalid_payout_token, invalid_fee_bps, commitment_not_allowed,
  commitment_already_set, unsupported_version, accounting_mismatch, platform_fee_updated,
  receipt_commitment_bound,
}
use zicket_contract.Payments.Storage
use zicket_contract.Payments.Storage.{
  Call, publish, get_admin, is_paused, is_supported_token, get_event_privacy, set_event_config,
  get_next_payment_id, get_next_ticket_id, save_payment, get_payment, update_payment, save_ticket,
  get_ticket, add_owner_ticket_map, add_event_payment, add_payer_payment, has_nonce, set_nonce,
  has_nonce_hash, set_nonce_hash, has_nullifier, mark_nullifier_spent, get_user_event_tickets,
  increment_user_event_tickets, get_user_event_tickets_hash, increment_user_event_tickets_hash,
  increment_event_sold_count,
}
use zicket_contract.Payments.Accounts.{
  get_event_tokens, add_event_token, add_total_token_volume, add_total_token_refunds,
  add_total_token_withdrawn,
}
use zicket_contract.Payments.Purchase.{require_not_paused}
use zicket_contract.Payments.Refunds.{is_refunded}
use zicket_contract.Payments.Disputes.{validate_revenue_invariant}

-- What `sync_event_config` is given of an event.
pub record EventTerms : Type 0 where
  pub organizer : Address
  pub payout_token : Address
  pub allow_anonymous : Bool
  pub requires_verification : Bool
  pub max_tickets_per_user : ℕ
  pub max_supply : ℕ
  pub event_start_ledger : ℕ
  pub event_end_ledger : ℕ
  pub withdrawal_delay_ledgers : ℕ
  pub resale_royalty_bps : ℕ
  pub max_resale_price : Option ℤ
  pub allow_free_ticket_transfer : Bool

-- The configuration of an event that had none.
abbrev pub fresh_config : EventTerms → EventConfig
fresh_config terms = record {
  organizer = terms.organizer;
  payout_token = terms.payout_token;
  allow_anonymous = terms.allow_anonymous;
  requires_verification = terms.requires_verification;
  max_tickets_per_user = terms.max_tickets_per_user;
  max_supply = terms.max_supply;
  sold_count = 0;
  event_start_ledger = terms.event_start_ledger;
  event_end_ledger = terms.event_end_ledger;
  withdrawal_delay_ledgers = terms.withdrawal_delay_ledgers;
  admin_delay_extension_ledgers = 0;
  cancel_ledger = none;
  withdrawable_ratio_bps = none;
  organizer_withdrawn = false;
  resale_royalty_bps = terms.resale_royalty_bps;
  max_resale_price = terms.max_resale_price;
  allow_free_ticket_transfer = terms.allow_free_ticket_transfer;
}

-- The configuration that `sync_event_config` stores: what payments alone knows is kept.
unfoldable pub merged_config : EventTerms → Option EventConfig → Call EventConfig
merged_config terms none = ok (fresh_config terms)
merged_config terms (some existing) = do
  err_if (not (existing.organizer == terms.organizer)) invalid_organizer
  err_if (not (existing.payout_token == terms.payout_token)) invalid_payout_token
  ok (record (fresh_config terms) {
    sold_count = existing.sold_count;
    admin_delay_extension_ledgers = existing.admin_delay_extension_ledgers;
    cancel_ledger = existing.cancel_ledger;
    withdrawable_ratio_bps = existing.withdrawable_ratio_bps;
    organizer_withdrawn = existing.organizer_withdrawn;
  })

-- Whether the payer on record is this one.
abbrev pub is_payer : Option Address → Address → Bool
is_payer none payer = false
is_payer (some stored) payer = stored == payer

-- `payment.zk_email_commitment == Some(candidate)`
abbrev pub is_commitment : Option Bytes → Bytes → Bool
is_commitment none candidate = false
is_commitment (some stored) candidate = stored == candidate

-- The total of a withdrawal history.
unfoldable pub withdrawn_loop : ℤ → List WithdrawalRecord → ℤ
withdrawn_loop total [] = total
withdrawn_loop total (entry ∷ entries) = withdrawn_loop (total +ℤ entry.amount) entries

module _ {T : Type 0} where
  abbrev pub is_initialized : Store T → Bool
  is_initialized s = is_some s.admin && is_some s.accepted_token && is_some s.event_contract

  unfoldable pub initialize : Address → Address → ℕ → Address → Address → Store T → Call (Store T)
  initialize admin token platform_fee_bps platform_wallet event_contract s =
      if is_initialized s
      then ok s
      else (err_if (ltb 10000 platform_fee_bps) invalid_fee_bps
          >> ok (record s {
            admin = some admin;
            accepted_token = some token;
            platform_fee_bps = some platform_fee_bps;
            platform_wallet = some platform_wallet;
            event_contract = some event_contract;
          }))

  unfoldable pub get_accepted_token : Store T → Call Address
  get_accepted_token s = ok_or s.accepted_token not_initialized

  -- `admin.require_auth()` after the test that `admin` is the stored administrator.
  unfoldable pub require_admin : Env → Address → Store T → Call (Unit {0})
  unfolding get_admin
  require_admin env admin s = do
    stored_admin ← get_admin s
    err_if (not (admin == stored_admin)) unauthorized
    require_auth env admin

  unfoldable pub add_supported_token : Env → Address → Address → Store T → Call (Store T)
  unfolding get_admin
  add_supported_token env admin token s = do
    require_auth env admin
    current_admin ← get_admin s
    err_if (not (current_admin == admin)) unauthorized
    ok (record s { supported_token = update s.supported_token token (some true) })

  unfoldable pub set_paused : Env → Address → Bool → Store T → Call (Store T)
  unfolding require_admin
  set_paused env admin paused s = do
    require_admin env admin s
    ok (record s { paused = some paused })

  unfoldable pub set_event_status : Env → Address → Symbol → EventStatus → Store T → Call (Store T)
  unfolding require_not_paused require_admin Storage.set_event_status
  set_event_status env admin event_id status s = do
    require_not_paused s
    require_admin env admin s
    ok (Storage.set_event_status event_id status s)

  unfoldable pub set_platform_fee : Env → ℕ → Address → Store T → Call (Store T)
  unfolding require_not_paused get_admin
  set_platform_fee env fee_bps wallet s = do
    require_not_paused s
    admin ← get_admin s
    require_auth env admin
    err_if (ltb 10000 fee_bps) invalid_fee_bps
    let old_bps = unwrap_or s.platform_fee_bps 0
    ok (
        publish (platform_fee_updated admin old_bps fee_bps env.timestamp)
          (record s { platform_fee_bps = some fee_bps; platform_wallet = some wallet }))

  -- The entry point that sets the privacy of an event's emissions.
  unfoldable pub set_event_privacy :
      Env → Address → Symbol → PrivacyLevel → Store T → Call (Store T)
  unfolding require_not_paused require_admin
  set_event_privacy env admin event_id level s = do
    require_not_paused s
    require_admin env admin s
    ok (record s { emission_privacy = update s.emission_privacy event_id (some level) })

  unfoldable pub set_ticket_contract : Env → Address → Address → Store T → Call (Store T)
  unfolding require_admin
  set_ticket_contract env admin ticket_contract s = do
    require_admin env admin s
    ok (record s { ticket_contract = some ticket_contract })

  -- What the calls of the event contract begin with.
  unfoldable pub require_event_contract : Env → Address → Store T → Call (Unit {0})
  unfolding require_not_paused
  require_event_contract env event_contract s = do
    require_not_paused s
    stored ← ok_or s.event_contract not_initialized
    err_if (not (event_contract == stored)) unauthorized
    require_auth env event_contract

  unfoldable pub sync_event_privacy :
      Env → Address → Symbol → Bool → Bool → Store T → Call (Store T)
  unfolding require_event_contract
  sync_event_privacy env event_contract event_id allow_anonymous requires_verification s = do
    require_event_contract env event_contract s
    ok (record s {
      event_privacy = update s.event_privacy event_id (
          some (record {
            allow_anonymous = allow_anonymous;
            requires_verification = requires_verification;
          }));
    })

  unfoldable pub sync_event_config : Env → Address → Symbol → EventTerms → Store T → Call (Store T)
  unfolding require_event_contract get_accepted_token merged_config set_event_config
  sync_event_config env event_contract event_id terms s = do
    require_event_contract env event_contract s
    accepted_token ← get_accepted_token s
    err_if (not (terms.payout_token == accepted_token)) invalid_payout_token
    config ← merged_config terms (s.event_config event_id)
    ok (set_event_config event_id config s)

  unfoldable pub bind_email_commitment : Env → Address → ℕ → Bytes → Store T → Call (Store T)
  unfolding require_not_paused get_payment update_payment
  bind_email_commitment env payer payment_id commitment s = do
    require_not_paused s
    require_auth env payer
    payment ← get_payment payment_id s
    err_if (not (is_payer payment.payer payer)) unauthorized
    err_if (is_refunded payment.status) commitment_not_allowed
    err_if (is_some payment.zk_email_commitment) commitment_already_set
    t ← update_payment (record payment { zk_email_commitment = some commitment }) s
    ok (publish (receipt_commitment_bound payment_id payment.event_id env.timestamp) t)

  unfoldable pub get_payment_commitment : ℕ → Store T → Call (Option Bytes)
  unfolding get_payment
  get_payment_commitment payment_id s = do
    payment ← get_payment payment_id s
    ok payment.zk_email_commitment

  unfoldable pub verify_email_commitment : ℕ → Bytes → Store T → Call Bool
  unfolding get_payment
  verify_email_commitment payment_id candidate s = do
    payment ← get_payment payment_id s
    ok (is_commitment payment.zk_email_commitment candidate)

  -- `migrate`, which returns the new version.
  unfoldable pub migrate : Env → Address → Store T → Call (ℕ × Store T)
  unfolding require_not_paused get_admin
  migrate env admin s = do
    require_not_paused s
    require_auth env admin
    current_admin ← get_admin s
    err_if (not (current_admin == admin)) unauthorized
    let current_version = unwrap_or s.contract_version 1
    new_version ← add_u32 current_version 1
    err_if (ltb 2 current_version) unsupported_version
    ok (new_version, record s { contract_version = some new_version })

  -- The accounts of one legacy payment, where it is stored.
  abbrev migrate_accounts : Symbol → Option PaymentRecord → Store T → Call (ℤ × ℤ × Store T)
  migrate_accounts event_id none s = ok (pos 0, pos 0, s)
  migrate_accounts event_id (some payment) s = do
    t ←
        add_event_token event_id payment.token
          (add_total_token_volume event_id payment.token payment.amount s)
    ok (
      payment.amount,
      payment.refunded_amount,
      (if ltb_ℤ (pos 0) payment.refunded_amount
          then add_total_token_refunds event_id payment.token payment.refunded_amount t
          else t),
    )

  -- The loop of `migrate_event` from index `i`: the totals so far are payments and refunds.
  unfoldable pub migrate_loop : List ℕ → ℕ → Symbol → ℤ → ℤ → Store T → Call (ℤ × ℤ × Store T)
  unfolding add_event_token add_total_token_volume add_total_token_refunds
  migrate_loop [] i event_id total_payments total_refunds s = ok (total_payments, total_refunds, s)
  migrate_loop (payment_id ∷ ids) i event_id total_payments total_refunds s =
      let t = record s {
        event_payment_index = update₂ s.event_payment_index event_id i (some payment_id);
      } in
      migrate_accounts event_id (t.payments payment_id) t >>= λ r.
      migrate_loop ids (i + 1) event_id (total_payments +ℤ r.0) (total_refunds +ℤ r.1) r.2

  unfoldable pub get_withdrawal_history : Symbol → Store T → List WithdrawalRecord
  unfolding collect
  get_withdrawal_history event_id s =
      collect (s.withdrawal_record event_id) (unwrap_or (s.withdrawal_count event_id) 0)

  -- What a migrated event has withdrawn is booked under its only token.
  unfoldable pub migrate_withdrawn : Symbol → ℤ → List Address → Store T → Call (Store T)
  unfolding add_total_token_withdrawn
  migrate_withdrawn event_id total [] s = ok s
  migrate_withdrawn event_id total (token ∷ []) s =
      ok (if ltb_ℤ (pos 0) total then add_total_token_withdrawn event_id token total s else s)
  migrate_withdrawn event_id total (token ∷ other ∷ tokens) s =
      if ltb_ℤ (pos 0) total then err accounting_mismatch else ok s

  unfoldable pub migrate_event : Env → Token T → Address → Symbol → Store T → Call (Store T)
  unfolding require_not_paused get_admin migrate_loop get_withdrawal_history withdrawn_loop
      get_event_tokens migrate_withdrawn validate_revenue_invariant
  migrate_event env token admin event_id s = do
    require_not_paused s
    require_auth env admin
    current_admin ← get_admin s
    err_if (not (current_admin == admin)) unauthorized
    let legacy_payments = unwrap_or (s.legacy_event_payments event_id) []
    r ← migrate_loop legacy_payments 0 event_id (pos 0) (pos 0) s
    let total_withdrawn = withdrawn_loop (pos 0) (get_withdrawal_history event_id r.2)
    let t : Store T = r.2
    let u = record t {
      event_payments_count = update t.event_payments_count event_id (some (length legacy_payments));
      total_payments = update t.total_payments event_id (some r.0);
      total_refunds = update t.total_refunds event_id (some r.1);
      total_withdrawn = update t.total_withdrawn event_id (some total_withdrawn);
    }
    v ← migrate_withdrawn event_id total_withdrawn (get_event_tokens event_id u) u
    validate_revenue_invariant env token event_id
        (record v { legacy_event_payments = update v.legacy_event_payments event_id none })
