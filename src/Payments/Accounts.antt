-- ===== src/Payments/Accounts.antt =====
-- The accounts of contracts/payments/src/storage.rs: revenue, volumes, refunds, withdrawals and
-- the disputes of an event.
use zicket_contract.Base.{
  ℕ, true, none, some, List, [], ◌∷◌, if◌then◌else◌, ok, ◌>>=◌, unwrap_or, is_some, add_u32,
  Address, Symbol, update, update₂, collect,
}
use zicket_contract.Base.Int.{ℤ, pos, ◌+ℤ◌}
use zicket_contract.Payments.Types.{WithdrawalRecord, DisputeRecord, Store}
use zicket_contract.Payments.Storage.{Call}

module _ {T : Type 0} where
  unfoldable pub get_event_tokens : Symbol → Store T → List Address
  unfolding collect
  get_event_tokens event_id s =
      collect (s.event_token_index event_id) (unwrap_or (s.event_token_count event_id) 0)

  unfoldable pub add_event_token : Symbol → Address → Store T → Call (Store T)
  add_event_token event_id token s =
      if is_some (s.event_token event_id token)
      then ok s
      else let count = unwrap_or (s.event_token_count event_id) 0 in
        add_u32 count 1 >>= λ next. ok (record s {
          event_token = update₂ s.event_token event_id token (some true);
          event_token_index = update₂ s.event_token_index event_id count (some token);
          event_token_count = update s.event_token_count event_id (some next);
        })

  unfoldable pub get_event_token_revenue : Symbol → Address → Store T → ℤ
  get_event_token_revenue event_id token s =
      unwrap_or (s.event_token_revenue event_id token) (pos 0)

  unfoldable pub set_event_token_revenue : Symbol → Address → ℤ → Store T → Store T
  set_event_token_revenue event_id token amount s = record s {
    event_token_revenue = update₂ s.event_token_revenue event_id token (some amount);
  }

  unfoldable pub add_event_token_revenue : Symbol → Address → ℤ → Store T → Store T
  unfolding get_event_token_revenue set_event_token_revenue
  add_event_token_revenue event_id token amount s =
      set_event_token_revenue event_id token (get_event_token_revenue event_id token s +ℤ amount) s

  -- The loop of `get_event_revenue`.
  unfoldable pub revenue_loop : List Address → ℤ → Symbol → Store T → ℤ
  unfolding get_event_token_revenue
  revenue_loop [] total event_id s = total
  revenue_loop (token ∷ tokens) total event_id s =
      revenue_loop tokens (total +ℤ get_event_token_revenue event_id token s) event_id s

  unfoldable pub get_event_revenue : Symbol → Store T → ℤ
  unfolding get_event_tokens revenue_loop
  get_event_revenue event_id s = revenue_loop (get_event_tokens event_id s) (pos 0) event_id s

  unfoldable pub set_event_revenue : Symbol → ℤ → Store T → Store T
  set_event_revenue event_id amount s = record s {
    event_revenue = update s.event_revenue event_id (some amount);
  }

  unfoldable pub add_event_revenue : Symbol → ℤ → Store T → Store T
  unfolding get_event_revenue set_event_revenue
  add_event_revenue event_id amount s =
      set_event_revenue event_id (get_event_revenue event_id s +ℤ amount) s

  unfoldable pub get_total_payments : Symbol → Store T → ℤ
  get_total_payments event_id s = unwrap_or (s.total_payments event_id) (pos 0)

  unfoldable pub add_total_payments : Symbol → ℤ → Store T → Store T
  unfolding get_total_payments
  add_total_payments event_id amount s = record s {
    total_payments =
        update s.total_payments event_id (some (get_total_payments event_id s +ℤ amount));
  }

  unfoldable pub get_total_refunds : Symbol → Store T → ℤ
  get_total_refunds event_id s = unwrap_or (s.total_refunds event_id) (pos 0)

  unfoldable pub add_total_refunds : Symbol → ℤ → Store T → Store T
  unfolding get_total_refunds
  add_total_refunds event_id amount s = record s {
    total_refunds = update s.total_refunds event_id (some (get_total_refunds event_id s +ℤ amount));
  }

  unfoldable pub get_total_withdrawn : Symbol → Store T → ℤ
  get_total_withdrawn event_id s = unwrap_or (s.total_withdrawn event_id) (pos 0)

  unfoldable pub add_total_withdrawn : Symbol → ℤ → Store T → Store T
  unfolding get_total_withdrawn
  add_total_withdrawn event_id amount s = record s {
    total_withdrawn =
        update s.total_withdrawn event_id (some (get_total_withdrawn event_id s +ℤ amount));
  }

  unfoldable pub get_total_token_volume : Symbol → Address → Store T → ℤ
  get_total_token_volume event_id token s = unwrap_or (s.event_token_volume event_id token) (pos 0)

  unfoldable pub add_total_token_volume : Symbol → Address → ℤ → Store T → Store T
  unfolding get_total_token_volume
  add_total_token_volume event_id token amount s = record s {
    event_token_volume =
        update₂ s.event_token_volume event_id token
          (some (get_total_token_volume event_id token s +ℤ amount));
  }

  unfoldable pub get_total_token_refunds : Symbol → Address → Store T → ℤ
  get_total_token_refunds event_id token s =
      unwrap_or (s.total_token_refunds event_id token) (pos 0)

  unfoldable pub add_total_token_refunds : Symbol → Address → ℤ → Store T → Store T
  unfolding get_total_token_refunds
  add_total_token_refunds event_id token amount s = record s {
    total_token_refunds =
        update₂ s.total_token_refunds event_id token
          (some (get_total_token_refunds event_id token s +ℤ amount));
  }

  unfoldable pub get_total_token_withdrawn : Symbol → Address → Store T → ℤ
  get_total_token_withdrawn event_id token s =
      unwrap_or (s.total_token_withdrawn event_id token) (pos 0)

  unfoldable pub add_total_token_withdrawn : Symbol → Address → ℤ → Store T → Store T
  unfolding get_total_token_withdrawn
  add_total_token_withdrawn event_id token amount s = record s {
    total_token_withdrawn =
        update₂ s.total_token_withdrawn event_id token
          (some (get_total_token_withdrawn event_id token s +ℤ amount));
  }

  unfoldable pub set_dispute : ℕ → DisputeRecord → Store T → Store T
  set_dispute ticket_id dispute s = record s { dispute = update s.dispute ticket_id (some dispute) }

  unfoldable pub remove_dispute : ℕ → Store T → Store T
  remove_dispute ticket_id s = record s { dispute = update s.dispute ticket_id none }

  unfoldable pub get_event_disputes : Symbol → Store T → List ℕ
  get_event_disputes event_id s = unwrap_or (s.event_disputes event_id) []

  unfoldable pub set_event_disputes : Symbol → List ℕ → Store T → Store T
  set_event_disputes event_id disputes s = record s {
    event_disputes = update s.event_disputes event_id (some disputes);
  }

  unfoldable pub add_withdrawal_record : Symbol → WithdrawalRecord → Store T → Call (Store T)
  add_withdrawal_record event_id entry s = do
    let count = unwrap_or (s.withdrawal_count event_id) 0
    next ← add_u32 count 1
    ok (record s {
      withdrawal_record = update₂ s.withdrawal_record event_id count (some entry);
      withdrawal_count = update s.withdrawal_count event_id (some next);
    })
