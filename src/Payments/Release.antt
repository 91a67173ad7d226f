-- ===== src/Payments/Release.antt =====
-- `set_event_end_time`, `release_if_expired`, `withdraw_revenue`, `withdraw_all_tokens` and
-- `extend_withdrawal_delay` of contracts/payments/src/lib.rs.
use zicket_contract.Base.{
  ltb, ◌==◌, if◌then◌else◌, ◌>>=◌, ◌>>◌, err_if, ok_or, unwrap_or, add_u32, ok, Address, Symbol,
  update, require_auth, Env, ℕ, Bool, true, false, not, Option, none, some, List, [], ◌∷◌,
}
use zicket_contract.Base.Int.{ℤ, pos, ◌+ℤ◌, ◌-ℤ◌, ltb_ℤ, leb_ℤ, of_bps}
use zicket_contract.Payments.Types.{
  EscrowMetadata, EventConfig, Token, Store, unauthorized, payment_already_processed,
  invalid_amount, not_initialized, no_revenue, invalid_organizer, event_not_active,
  event_not_completed, escrow_not_expired, escrow_already_released, escrow_not_configured,
  escrow_auto_released,
}
use zicket_contract.Payments.Storage.{Call, publish, get_admin, set_event_config}
use zicket_contract.Payments.Accounts.{
  get_event_tokens, get_event_token_revenue, set_event_token_revenue, get_event_revenue,
  set_event_revenue, add_total_withdrawn, add_total_token_withdrawn, add_withdrawal_record,
}
use zicket_contract.Payments.Purchase.{require_not_paused}
use zicket_contract.Payments.Refunds.{pay, is_postponed}
use zicket_contract.Payments.Disputes.{validate_revenue_invariant}
use zicket_contract.Payments.Withdrawals.{
  is_completed, ensure_no_splits, collect_fee, record_withdrawal,
}

-- "The event has not ended": the configuration's part of the test of `release_if_expired`.
abbrev pub before_end : Env → Option EventConfig → Bool
before_end env none = false
before_end env (some config) = ltb env.sequence config.event_end_ledger

-- The latch that `withdraw` and `withdraw_revenue` share.
abbrev pub is_latched : Option EventConfig → Bool
is_latched none = false
is_latched (some config) = config.organizer_withdrawn

module _ {T : Type 0} where
  unfoldable pub set_escrow_meta : Symbol → EscrowMetadata → Store T → Store T
  set_escrow_meta event_id meta s = record s {
    escrow_meta = update s.escrow_meta event_id (some meta);
  }

  unfoldable pub set_event_end_time :
      Env → Address → Symbol → Address → ℕ → Store T → Call (Store T)
  unfolding require_not_paused get_admin set_escrow_meta
  set_event_end_time env admin event_id organizer event_end_time s = do
    require_not_paused s
    stored_admin ← get_admin s
    err_if (not (admin == stored_admin)) unauthorized
    require_auth env admin
    ok (
        set_escrow_meta event_id
          (record { organizer = organizer; event_end_time = event_end_time; auto_released = false })
          s)

  -- The accounts of a token's whole revenue that is paid out.
  unfoldable pub book_drain : Symbol → Address → ℤ → Store T → Store T
  unfolding set_event_token_revenue get_event_revenue set_event_revenue add_total_withdrawn
      add_total_token_withdrawn
  book_drain event_id token total s =
      let t = set_event_token_revenue event_id token (pos 0) s in
      let u = set_event_revenue event_id (get_event_revenue event_id t -ℤ total) t in
      add_total_token_withdrawn event_id token total (add_total_withdrawn event_id total u)

  -- A turn of the loop of `release_if_expired`, with the total so far.
  unfoldable pub release_token :
      Env → Token T → Symbol → Address → Address → ℤ → Store T → Call (ℤ × Store T)
  unfolding get_event_token_revenue pay book_drain add_withdrawal_record
  release_token env token event_id organizer asset total s =
      let token_total = get_event_token_revenue event_id asset s in
      if ltb_ℤ (pos 0) token_total
      then (pay token asset env.current_contract_address organizer token_total s >>= λ t.
          add_withdrawal_record event_id
            (record { amount = token_total; timestamp = env.timestamp; organizer = organizer })
            (book_drain event_id asset token_total t)
          >>= λ u. ok (total +ℤ token_total, u))
      else ok (total, s)

  unfoldable pub release_loop :
      List Address → Env → Token T → Symbol → Address → ℤ → Store T → Call (ℤ × Store T)
  unfolding release_token
  release_loop [] env token event_id organizer total s = ok (total, s)
  release_loop (asset ∷ assets) env token event_id organizer total s =
      release_token env token event_id organizer asset total s >>= λ r.
      release_loop assets env token event_id organizer r.0 r.1

  unfoldable pub release_if_expired : Env → Token T → Symbol → Store T → Call (Store T)
  unfolding require_not_paused validate_revenue_invariant get_event_tokens release_loop
      set_escrow_meta
  release_if_expired env token event_id s = do
    require_not_paused s
    ensure_no_splits event_id s
    meta ← ok_or (s.escrow_meta event_id) escrow_not_configured
    err_if meta.auto_released escrow_already_released
    err_if (is_postponed (s.event_status event_id)) event_not_active
    err_if (ltb env.timestamp meta.event_end_time) escrow_not_expired
    err_if (before_end env (s.event_config event_id)) escrow_not_expired
    t ← validate_revenue_invariant env token event_id s
    r ← release_loop (get_event_tokens event_id t) env token event_id meta.organizer (pos 0) t
    ok (
        publish (escrow_auto_released event_id meta.organizer r.0 env.timestamp)
          (set_escrow_meta event_id (record meta { auto_released = true }) r.1))

  -- "Latch the event as settled", where it has a configuration.
  unfoldable pub latch : Symbol → Option EventConfig → Store T → Store T
  unfolding set_event_config
  latch event_id none s = s
  latch event_id (some config) s =
      set_event_config event_id (record config { organizer_withdrawn = true }) s

  -- The accounts of `withdraw_revenue` after its transfer.
  unfoldable pub book_settlement : Env → Symbol → Address → ℤ → ℤ → Store T → Store T
  unfolding collect_fee set_event_token_revenue get_event_revenue set_event_revenue
      add_total_withdrawn add_total_token_withdrawn
  book_settlement env event_id token revenue organizer_amount s =
      let t = collect_fee env event_id (revenue -ℤ organizer_amount) organizer_amount token s in
      let u = set_event_token_revenue event_id token (pos 0) t in
      let v = set_event_revenue event_id (get_event_revenue event_id u -ℤ revenue) u in
      add_total_token_withdrawn event_id token organizer_amount
        (add_total_withdrawn event_id organizer_amount v)

  unfoldable pub withdraw_revenue : Env → Token T → Symbol → Address → Store T → Call (Store T)
  unfolding require_not_paused get_admin validate_revenue_invariant get_event_token_revenue pay
      book_settlement latch record_withdrawal
  withdraw_revenue env token event_id to s = do
    require_not_paused s
    admin ← get_admin s
    require_auth env admin
    ensure_no_splits event_id s
    err_if (is_postponed (s.event_status event_id)) event_not_active
    let config = s.event_config event_id
    err_if (is_latched config) payment_already_processed
    t ← validate_revenue_invariant env token event_id s
    token_address ← ok_or t.accepted_token not_initialized
    let revenue = get_event_token_revenue event_id token_address t
    err_if (leb_ℤ revenue (pos 0)) invalid_amount
    let fee_amount = of_bps revenue (unwrap_or t.platform_fee_bps 0)
    let organizer_amount = revenue -ℤ fee_amount
    u ← pay token token_address env.current_contract_address to organizer_amount t
    record_withdrawal env event_id to organizer_amount token_address (
        latch event_id config
          (book_settlement env event_id token_address revenue organizer_amount u))

  -- A turn of the loop of `withdraw_all_tokens`, with `has_revenue`.
  unfoldable pub drain_token :
      Env → Token T → Symbol → Address → Address → Bool → Store T → Call (Bool × Store T)
  unfolding get_event_token_revenue pay book_drain record_withdrawal
  drain_token env token event_id organizer asset has_revenue s =
      let revenue = get_event_token_revenue event_id asset s in
      if ltb_ℤ (pos 0) revenue
      then (pay token asset env.current_contract_address organizer revenue s >>= λ t.
          record_withdrawal env event_id organizer revenue asset
            (book_drain event_id asset revenue t)
          >>= λ u. ok (true, u))
      else ok (has_revenue, s)

  unfoldable pub drain_loop :
      List Address → Env → Token T → Symbol → Address → Bool → Store T → Call (Bool × Store T)
  unfolding drain_token
  drain_loop [] env token event_id organizer has_revenue s = ok (has_revenue, s)
  drain_loop (asset ∷ assets) env token event_id organizer has_revenue s =
      drain_token env token event_id organizer asset has_revenue s >>= λ r.
      drain_loop assets env token event_id organizer r.0 r.1

  unfoldable pub withdraw_all_tokens : Env → Token T → Address → Symbol → Store T → Call (Store T)
  unfolding require_not_paused validate_revenue_invariant get_event_tokens drain_loop
  withdraw_all_tokens env token organizer event_id s = do
    require_not_paused s
    require_auth env organizer
    ensure_no_splits event_id s
    err_if (not (is_completed (s.event_status event_id))) event_not_completed
    t ← validate_revenue_invariant env token event_id s
    r ← drain_loop (get_event_tokens event_id t) env token event_id organizer false t
    err_if (not r.0) no_revenue
    ok r.1

  unfoldable pub extend_withdrawal_delay : Env → Address → Symbol → ℕ → Store T → Call (Store T)
  unfolding get_admin set_event_config
  extend_withdrawal_delay env admin event_id additional_ledgers s = do
    stored_admin ← get_admin s
    err_if (not (admin == stored_admin)) unauthorized
    require_auth env admin
    config ← ok_or (s.event_config event_id) invalid_organizer
    delay ← add_u32 config.admin_delay_extension_ledgers additional_ledgers
    ok (set_event_config event_id (record config { admin_delay_extension_ledgers = delay }) s)
