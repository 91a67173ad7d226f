-- ===== src/Payments/Withdrawals.antt =====
-- `withdraw`, `withdraw_token`, `withdraw_platform_revenue`, `cancel_event`, `postpone_event` and
-- `resume_event` of contracts/payments/src/lib.rs.
use zicket_contract.Base.{
  ℕ, ◌-◌, ◌*◌, ◌/◌, Bool, true, false, Option, none, some, List, [], ◌∷◌, ltb, leb, ◌==◌, not, ok,
  err, ◌>>=◌, ◌>>◌, err_if, ok_or, is_some, unwrap_or, add_u32, if◌then◌else◌, Env, require_auth,
  Address, Symbol, update,
}
use zicket_contract.Base.Int.{ℤ, pos, ◌+ℤ◌, ◌-ℤ◌, leb_ℤ, ltb_ℤ, of_bps}
use zicket_contract.PrivacyUtils.{standard, mask_address}
use zicket_contract.Payments.Types.{
  EventStatus, active, completed, cancelled, postponed, EventConfig, invalid_split_config,
  unauthorized, invalid_organizer, unauthorized_withdrawal, no_revenue, no_platform_revenue,
  escrow_not_expired, event_not_completed, active_disputes, not_initialized, event_not_postponed,
  revenue_withdrawn, platform_fee_collected, platform_revenue_withdrawn, Token, Store,
}
use zicket_contract.Payments.Storage.{Call, publish, get_admin, set_event_config, set_event_status}
use zicket_contract.Payments.Accounts.{
  get_event_token_revenue, set_event_token_revenue, get_event_revenue, set_event_revenue,
  get_total_token_volume, add_total_withdrawn, add_total_token_withdrawn, get_event_disputes,
  add_withdrawal_record,
}
use zicket_contract.Payments.Purchase.{require_not_paused}
use zicket_contract.Payments.Refunds.{pay, is_cancelled, is_postponed}
use zicket_contract.Payments.Disputes.{validate_revenue_invariant}

abbrev pub min_dispute_window_ledgers : ℕ
min_dispute_window_ledgers = 100

abbrev pub is_empty : List ℕ → Bool
is_empty [] = true
is_empty (x ∷ xs) = false

abbrev pub is_completed : Option EventStatus → Bool
is_completed (some completed) = true
is_completed _ = false

-- `withdrawable_ratio_bps` of `cancel_event`.
unfoldable pub cancellation_ratio : ℕ → EventConfig → ℕ
cancellation_ratio current_ledger config =
    if ltb current_ledger config.event_start_ledger
    then 0
    else if leb config.event_end_ledger current_ledger
    then 10000
    else (let elapsed = current_ledger - config.event_start_ledger in
        let total = config.event_end_ledger - config.event_start_ledger in
        if total == 0 then 10000 else elapsed * 10000 / total)

-- The `match` of `withdraw` on the event's status: the ratio that can be withdrawn now.
unfoldable pub withdrawable_now : Env → Option EventStatus → EventConfig → Call ℕ
withdrawable_now env (some completed) config = do
  end ← add_u32 config.event_end_ledger config.withdrawal_delay_ledgers
  unlock_ledger ← add_u32 end config.admin_delay_extension_ledgers
  err_if (ltb env.sequence unlock_ledger) escrow_not_expired
  ok 10000
withdrawable_now env (some cancelled) config = do
  cancel_ledger ← ok_or config.cancel_ledger event_not_completed
  min_dispute_unlock ← add_u32 cancel_ledger min_dispute_window_ledgers
  err_if (ltb env.sequence min_dispute_unlock) escrow_not_expired
  ratio ← ok_or config.withdrawable_ratio_bps event_not_completed
  err_if (ratio == 0) no_revenue
  ok ratio
withdrawable_now env _ config = err event_not_completed

module _ {T : Type 0} where
  abbrev pub ensure_no_splits : Symbol → Store T → Call (Unit {0})
  ensure_no_splits event_id s = err_if (is_some (s.event_splits event_id)) invalid_split_config

  unfoldable pub cancel_event : Env → Symbol → Address → Store T → Call (Store T)
  unfolding cancellation_ratio set_event_config set_event_status
  cancel_event env event_id organizer s = do
    event_contract ← ok_or s.event_contract not_initialized
    require_auth env event_contract
    config ← ok_or (s.event_config event_id) invalid_organizer
    err_if (not (config.organizer == organizer)) unauthorized
    ok (
        set_event_status event_id cancelled (
          set_event_config event_id
            (record config {
              cancel_ledger = some env.sequence;
              withdrawable_ratio_bps = some (cancellation_ratio env.sequence config);
            })
            s))

  unfoldable pub postpone_event : Env → Symbol → Address → ℕ → Store T → Call (Store T)
  unfolding require_not_paused set_event_status
  postpone_event env event_id organizer choice_deadline_ledger s = do
    require_not_paused s
    event_contract ← ok_or s.event_contract not_initialized
    require_auth env event_contract
    config ← ok_or (s.event_config event_id) invalid_organizer
    err_if (not (config.organizer == organizer)) unauthorized
    let t = set_event_status event_id postponed s
    ok (record t {
      postpone_deadline = update t.postpone_deadline event_id (some choice_deadline_ledger);
    })

  unfoldable pub resume_event : Env → Symbol → Address → Store T → Call (Store T)
  unfolding require_not_paused set_event_status
  resume_event env event_id organizer s = do
    require_not_paused s
    event_contract ← ok_or s.event_contract not_initialized
    require_auth env event_contract
    config ← ok_or (s.event_config event_id) invalid_organizer
    err_if (not (config.organizer == organizer)) unauthorized
    err_if (not (is_postponed (s.event_status event_id))) event_not_postponed
    let t = set_event_status event_id active s
    ok (record t { postpone_deadline = update t.postpone_deadline event_id none })

  -- The disputed volume of `collect_cancellation_organizer_pool`.
  unfoldable pub disputed_volume : List ℕ → ℤ → Address → Store T → ℤ
  disputed_volume [] total token s = total
  disputed_volume (ticket_id ∷ tids) total token s =
      let amount : ℤ = elim (s.dispute ticket_id) [
        | none ↦ pos 0
        | some dispute ↦ elim (s.payments dispute.payment_id) [
          | none ↦ pos 0
          | some payment ↦ if payment.token == token then payment.amount else pos 0
        ]
      ] in
      disputed_volume tids (total +ℤ amount) token s

  unfoldable pub collect_cancellation_organizer_pool : Symbol → Address → ℕ → Store T → ℤ
  unfolding get_total_token_volume get_event_disputes disputed_volume
  collect_cancellation_organizer_pool event_id token withdrawable_ratio_bps s =
      of_bps
        (get_total_token_volume event_id token s
          -ℤ disputed_volume (get_event_disputes event_id s) (pos 0) token s)
        withdrawable_ratio_bps

  -- `total_to_withdraw` of `withdraw`.
  unfoldable pub total_to_withdraw : Symbol → Address → ℕ → Store T → Call ℤ
  unfolding get_event_token_revenue collect_cancellation_organizer_pool
  total_to_withdraw event_id token ratio s =
      if is_cancelled (s.event_status event_id)
      then (let total = collect_cancellation_organizer_pool event_id token ratio s in
          err_if (leb_ℤ total (pos 0)) no_revenue >> ok total)
      else (let total = get_event_token_revenue event_id token s in
          err_if (leb_ℤ total (pos 0)) no_revenue
          >> err_if (leb_ℤ (of_bps total ratio) (pos 0)) no_revenue
          >> ok (of_bps total ratio))

  unfoldable pub collect_fee : Env → Symbol → ℤ → ℤ → Address → Store T → Store T
  collect_fee env event_id fee_amount organizer_amount token s =
      if ltb_ℤ (pos 0) fee_amount
      then publish (platform_fee_collected event_id fee_amount organizer_amount token env.timestamp)
          (record s {
            platform_revenue =
                update s.platform_revenue event_id
                  (some (unwrap_or (s.platform_revenue event_id) (pos 0) +ℤ fee_amount));
          })
      else s

  unfoldable pub reduce_revenue : Symbol → Address → ℕ → ℤ → Store T → Store T
  unfolding get_event_token_revenue set_event_token_revenue get_event_revenue set_event_revenue
  reduce_revenue event_id token ratio amount s =
      if ratio == 10000
      then set_event_token_revenue event_id token (pos 0) s
      else (let t =
            set_event_token_revenue event_id token
              (get_event_token_revenue event_id token s -ℤ amount) s in
          set_event_revenue event_id (get_event_revenue event_id t -ℤ amount) t)

  -- The end of `withdraw` and of `withdraw_token`: the record and the event of a withdrawal.
  unfoldable pub record_withdrawal : Env → Symbol → Address → ℤ → Address → Store T → Call (Store T)
  unfolding add_withdrawal_record mask_address
  record_withdrawal env event_id organizer amount token s = do
    t ←
        add_withdrawal_record event_id
          (record { amount = amount; timestamp = env.timestamp; organizer = organizer }) s
    ok (
        publish
          (revenue_withdrawn event_id
            (mask_address env organizer (unwrap_or (s.emission_privacy event_id) standard)) amount
            token organizer env.timestamp)
          t)

  unfoldable pub withdraw : Env → Token T → Address → Symbol → Store T → Call (Store T)
  unfolding require_not_paused withdrawable_now validate_revenue_invariant get_event_disputes
      get_event_token_revenue total_to_withdraw pay collect_fee reduce_revenue add_total_withdrawn
      add_total_token_withdrawn set_event_config record_withdrawal
  withdraw env token organizer event_id s = do
    require_not_paused s
    require_auth env organizer
    ensure_no_splits event_id s
    config ← ok_or (s.event_config event_id) invalid_organizer
    err_if (not (organizer == config.organizer)) unauthorized_withdrawal
    err_if config.organizer_withdrawn no_revenue
    ratio ← withdrawable_now env (s.event_status event_id) config
    t ← validate_revenue_invariant env token event_id s
    err_if (not (is_empty (get_event_disputes event_id t))) active_disputes
    let payout_token = config.payout_token
    err_if (leb_ℤ (get_event_token_revenue event_id payout_token t) (pos 0)) no_revenue
    total ← total_to_withdraw event_id payout_token ratio t
    let fee_amount = of_bps total (unwrap_or t.platform_fee_bps 0)
    let organizer_amount = total -ℤ fee_amount
    u ← pay token payout_token env.current_contract_address config.organizer organizer_amount t
    let v =
        reduce_revenue event_id payout_token ratio total
          (collect_fee env event_id fee_amount organizer_amount payout_token u)
    let w =
        set_event_config event_id (record config { organizer_withdrawn = true })
          (add_total_token_withdrawn event_id payout_token organizer_amount
            (add_total_withdrawn event_id organizer_amount v))
    record_withdrawal env event_id config.organizer organizer_amount payout_token w

  unfoldable pub withdraw_token :
      Env → Token T → Address → Symbol → Address → Store T → Call (Store T)
  unfolding require_not_paused validate_revenue_invariant get_event_token_revenue pay
      set_event_token_revenue get_event_revenue set_event_revenue add_total_withdrawn
      add_total_token_withdrawn record_withdrawal
  withdraw_token env token organizer event_id token_address s = do
    require_not_paused s
    require_auth env organizer
    ensure_no_splits event_id s
    err_if (not (is_completed (s.event_status event_id))) event_not_completed
    t ← validate_revenue_invariant env token event_id s
    let total = get_event_token_revenue event_id token_address t
    err_if (leb_ℤ total (pos 0)) no_revenue
    u ← pay token token_address env.current_contract_address organizer total t
    let v = set_event_token_revenue event_id token_address (pos 0) u
    let w = set_event_revenue event_id (get_event_revenue event_id v -ℤ total) v
    record_withdrawal env event_id organizer total token_address (
        add_total_token_withdrawn event_id token_address total
          (add_total_withdrawn event_id total w))

  unfoldable pub withdraw_platform_revenue : Env → Token T → Symbol → Store T → Call (Store T)
  unfolding require_not_paused get_admin pay add_total_token_withdrawn
  withdraw_platform_revenue env token event_id s = do
    require_not_paused s
    admin ← get_admin s
    require_auth env admin
    let platform_revenue = unwrap_or (s.platform_revenue event_id) (pos 0)
    err_if (leb_ℤ platform_revenue (pos 0)) no_platform_revenue
    platform_wallet ← ok_or s.platform_wallet not_initialized
    token_address ← ok_or s.accepted_token not_initialized
    t ← pay token token_address env.current_contract_address platform_wallet platform_revenue s
    let u = add_total_token_withdrawn event_id token_address platform_revenue t
    ok (
        publish
          (platform_revenue_withdrawn event_id platform_revenue token_address platform_wallet
            env.timestamp)
          (record u { platform_revenue = update u.platform_revenue event_id (some (pos 0)) }))
