-- ===== src/Payments/Splits.antt =====
-- The revenue splits of an event in contracts/payments/src/lib.rs. A stored split is the list of
-- recipients with their basis points, which is also its public form.
use zicket_contract.Base.{
  ltb, ◌==◌, if◌then◌else◌, ◌>>=◌, ◌>>◌, err_if, ok_or, unwrap_or, is_some, ok, err, Address,
  Symbol, update, update₂, require_auth, Env, length, ℕ, Bool, true, false, ◌||◌, not, none, some,
  [], ◌∷◌,
}
use zicket_contract.Base.Int.{ℤ, pos, ◌-ℤ◌, ltb_ℤ, leb_ℤ, of_bps}
use zicket_contract.CommonUtils.Splits.{
  Splits, checked_add, has_recipient, find_recipient_basis_points, calculate_recipient_share,
}
use zicket_contract.Payments.Types.{
  SplitSettlement, FlagResolution, Token, Store, release_to_recipient, reassign_to_primary,
  unauthorized, not_initialized, no_revenue, invalid_organizer, invalid_split_config,
  active_disputes, splits_not_configured, not_a_split_recipient, recipient_flagged,
  split_already_withdrawn, recipient_not_flagged, cohost_flagged, flagged_share_resolved,
}
use zicket_contract.Payments.Storage.{Call, publish, get_admin}
use zicket_contract.Payments.Accounts.{
  get_event_token_revenue, set_event_token_revenue, get_event_revenue, set_event_revenue,
  add_total_withdrawn, add_total_token_withdrawn, get_event_disputes, add_withdrawal_record,
}
use zicket_contract.Payments.Purchase.{require_not_paused}
use zicket_contract.Payments.Refunds.{pay, is_cancelled}
use zicket_contract.Payments.Disputes.{validate_revenue_invariant}
use zicket_contract.Payments.Withdrawals.{
  is_empty, withdrawable_now, collect_cancellation_organizer_pool, collect_fee, record_withdrawal,
}

-- The loop of `sync_revenue_splits`: the entries before `i`, the sum so far, and those from `i`.
unfoldable pub sync_loop : Splits → ℕ → Splits → Call ℕ
sync_loop seen total [] = ok total
sync_loop seen total ((recipient, bps) ∷ rest) =
    err_if (bps == 0) invalid_split_config
    >> ok_or (checked_add total bps) invalid_split_config
    >>= λ total'.
        err_if (has_recipient recipient seen) invalid_split_config
        >> sync_loop ((recipient, bps) ∷ seen) total' rest

-- `splits.get(0)` of a stored split.
abbrev pub primary_of : Splits → Call Address
primary_of [] = err splits_not_configured
primary_of ((primary, _) ∷ rest) = ok primary

-- The tests of `sync_revenue_splits` on the split itself.
unfoldable pub check_split : Splits → Address → Call (Unit {0})
unfolding sync_loop
check_split [] organizer = err invalid_split_config
check_split ((primary, bps) ∷ rest) organizer = do
  err_if (not (primary == organizer)) invalid_split_config
  total ← sync_loop [] 0 ((primary, bps) ∷ rest)
  err_if (not (total == 10000)) invalid_split_config

-- `recipient_share`: the organizer is the first recipient.
unfoldable pub recipient_share : Splits → Address → ℤ → ℤ
recipient_share [] who net = pos 0
recipient_share ((organizer, bps) ∷ rest) who net =
    calculate_recipient_share ((organizer, bps) ∷ rest) who organizer net

module _ {T : Type 0} where
  unfoldable pub get_splits : Symbol → Store T → Splits
  get_splits event_id s = unwrap_or (s.event_splits event_id) []

  unfoldable pub get_split_withdrawn : Symbol → Address → Store T → ℤ
  get_split_withdrawn event_id recipient s =
      unwrap_or (s.split_withdrawn event_id recipient) (pos 0)

  unfoldable pub set_split_withdrawn : Symbol → Address → ℤ → Store T → Store T
  set_split_withdrawn event_id recipient amount s = record s {
    split_withdrawn = update₂ s.split_withdrawn event_id recipient (some amount);
  }

  unfoldable pub is_split_flagged : Symbol → Address → Store T → Bool
  is_split_flagged event_id recipient s = unwrap_or (s.split_flagged event_id recipient) false

  unfoldable pub set_split_flagged : Symbol → Address → Bool → Store T → Store T
  set_split_flagged event_id recipient flagged s = record s {
    split_flagged = update₂ s.split_flagged event_id recipient (some flagged);
  }

  unfoldable pub set_split_settlement : Symbol → SplitSettlement → Store T → Store T
  set_split_settlement event_id settlement s = record s {
    split_settlement = update s.split_settlement event_id (some settlement);
  }

  unfoldable pub sync_revenue_splits : Env → Address → Symbol → Splits → Store T → Call (Store T)
  unfolding require_not_paused check_split
  sync_revenue_splits env event_contract event_id splits s = do
    require_not_paused s
    stored ← ok_or s.event_contract not_initialized
    err_if (not (event_contract == stored)) unauthorized
    require_auth env event_contract
    err_if (is_some (s.event_splits event_id)) invalid_split_config
    err_if (length splits == 0 || ltb 5 (length splits)) invalid_split_config
    config ← ok_or (s.event_config event_id) invalid_organizer
    check_split splits config.organizer
    ok (record s { event_splits = update s.event_splits event_id (some splits) })

  -- `total_to_withdraw` of `ensure_split_settled`.
  unfoldable pub split_total : Symbol → Address → ℕ → Store T → Call ℤ
  unfolding get_event_token_revenue collect_cancellation_organizer_pool
  split_total event_id token ratio s =
      if is_cancelled (s.event_status event_id)
      then ok (collect_cancellation_organizer_pool event_id token ratio s)
      else (let total = get_event_token_revenue event_id token s in
          err_if (leb_ℤ total (pos 0)) no_revenue >> ok (of_bps total ratio))

  -- "Move the distributable funds out of the held-payment accounting."
  unfoldable pub move_distributable : Symbol → Address → ℕ → ℤ → Store T → Store T
  unfolding get_event_token_revenue set_event_token_revenue get_event_revenue set_event_revenue
  move_distributable event_id token ratio amount s =
      let t =
        set_event_token_revenue event_id token
          (if ratio == 10000 then pos 0 else get_event_token_revenue event_id token s -ℤ amount)
          s in
      set_event_revenue event_id (get_event_revenue event_id t -ℤ amount) t

  -- `ensure_split_settled` where nothing is settled yet.
  unfoldable pub settle_split : Env → Token T → Symbol → Store T → Call (SplitSettlement × Store T)
  unfolding withdrawable_now validate_revenue_invariant get_event_disputes split_total
      move_distributable collect_fee set_split_settlement
  settle_split env token event_id s = do
    config ← ok_or (s.event_config event_id) invalid_organizer
    ratio ← withdrawable_now env (s.event_status event_id) config
    t ← validate_revenue_invariant env token event_id s
    err_if (not (is_empty (get_event_disputes event_id t))) active_disputes
    let payout_token = config.payout_token
    total ← split_total event_id payout_token ratio t
    err_if (leb_ℤ total (pos 0)) no_revenue
    let fee_amount = of_bps total (unwrap_or t.platform_fee_bps 0)
    let net = total -ℤ fee_amount
    err_if (leb_ℤ net (pos 0)) no_revenue
    let u =
        collect_fee env event_id fee_amount net payout_token
          (move_distributable event_id payout_token ratio total t)
    let settlement : SplitSettlement = record { token = payout_token; net_distributable = net }
    ok (settlement, set_split_settlement event_id settlement u)

  unfoldable pub ensure_split_settled :
      Env → Token T → Symbol → Store T → Call (SplitSettlement × Store T)
  unfolding settle_split
  ensure_split_settled env token event_id s = elim (s.split_settlement event_id) [
    | some settlement ↦ ok (settlement, s)
    | none ↦ settle_split env token event_id s
  ]

  unfoldable pub withdraw_split : Env → Token T → Address → Symbol → Store T → Call (Store T)
  unfolding require_not_paused get_splits is_split_flagged get_split_withdrawn ensure_split_settled
      recipient_share pay set_split_withdrawn add_total_withdrawn add_total_token_withdrawn
      record_withdrawal
  withdraw_split env token recipient event_id s = do
    require_not_paused s
    require_auth env recipient
    let splits = get_splits event_id s
    err_if (length splits == 0) splits_not_configured
    err_if (not (is_some (find_recipient_basis_points splits recipient))) not_a_split_recipient
    err_if (is_split_flagged event_id recipient s) recipient_flagged
    err_if (ltb_ℤ (pos 0) (get_split_withdrawn event_id recipient s)) split_already_withdrawn
    r ← ensure_split_settled env token event_id s
    let share = recipient_share splits recipient r.0.net_distributable
    err_if (leb_ℤ share (pos 0)) no_revenue
    t ← pay token r.0.token env.current_contract_address recipient share r.1
    record_withdrawal env event_id recipient share r.0.token (
        add_total_token_withdrawn event_id r.0.token share
          (add_total_withdrawn event_id share (set_split_withdrawn event_id recipient share t)))

  unfoldable pub flag_cohost : Env → Address → Symbol → Address → Store T → Call (Store T)
  unfolding require_not_paused get_splits get_split_withdrawn set_split_flagged
  flag_cohost env primary_organizer event_id recipient s = do
    require_not_paused s
    let splits = get_splits event_id s
    primary ← primary_of splits
    err_if (not (primary_organizer == primary)) unauthorized
    require_auth env primary_organizer
    err_if (recipient == primary) unauthorized
    err_if (not (is_some (find_recipient_basis_points splits recipient))) not_a_split_recipient
    err_if (ltb_ℤ (pos 0) (get_split_withdrawn event_id recipient s)) split_already_withdrawn
    ok (
        publish (cohost_flagged event_id recipient primary_organizer env.timestamp)
          (set_split_flagged event_id recipient true s))

  -- The `ReassignToPrimary` arm of `resolve_flagged_share`.
  unfoldable pub reassign_share :
      Env → Token T → Symbol → Address → Splits → Store T → Call (Store T)
  unfolding get_split_withdrawn ensure_split_settled recipient_share pay set_split_withdrawn
      set_split_flagged add_total_withdrawn add_total_token_withdrawn add_withdrawal_record
  reassign_share env token event_id recipient splits s = do
    err_if (ltb_ℤ (pos 0) (get_split_withdrawn event_id recipient s)) split_already_withdrawn
    r ← ensure_split_settled env token event_id s
    primary ← primary_of splits
    let share = recipient_share splits recipient r.0.net_distributable
    err_if (leb_ℤ share (pos 0)) no_revenue
    t ← pay token r.0.token env.current_contract_address primary share r.1
    let u =
        set_split_flagged event_id recipient false (set_split_withdrawn event_id recipient share t)
    v ←
        add_withdrawal_record event_id
          (record { amount = share; timestamp = env.timestamp; organizer = primary })
          (add_total_token_withdrawn event_id r.0.token share
            (add_total_withdrawn event_id share u))
    ok (publish (flagged_share_resolved event_id recipient false share env.timestamp) v)

  unfoldable pub resolve_flagged_share :
      Env → Token T → Symbol → Address → FlagResolution → Store T → Call (Store T)
  unfolding require_not_paused get_admin get_splits is_split_flagged set_split_flagged
      reassign_share
  resolve_flagged_share env token event_id recipient resolution s = do
    require_not_paused s
    admin ← get_admin s
    require_auth env admin
    let splits = get_splits event_id s
    err_if (length splits == 0) splits_not_configured
    err_if (not (is_some (find_recipient_basis_points splits recipient))) not_a_split_recipient
    err_if (not (is_split_flagged event_id recipient s)) recipient_not_flagged
    elim resolution [
      | release_to_recipient ↦ ok (
          publish (flagged_share_resolved event_id recipient true (pos 0) env.timestamp)
            (set_split_flagged event_id recipient false s))
      | reassign_to_primary ↦ reassign_share env token event_id recipient splits s
    ]
