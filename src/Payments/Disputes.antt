-- ===== src/Payments/Disputes.antt =====
-- The disputes of contracts/payments/src/lib.rs: `raise_dispute`, `approve_refund`,
-- `reject_dispute`, `process_dispute_timeouts`, and `validate_revenue_invariant`, which runs the
-- timeouts first.
use zicket_contract.Base.{
  ℕ, Bool, true, false, Option, none, some, List, [], ◌∷◌, ◌++◌, ltb, leb, ◌==◌, not, ok, ◌>>=◌,
  ◌>>◌, err_if, ok_or, is_some, require, saturating_add, if◌then◌else◌, Env, require_auth, Address,
  Symbol, Bytes,
}
use zicket_contract.Base.Int.{ℤ, ◌+ℤ◌, ◌-ℤ◌, ltb_ℤ}
use zicket_contract.Payments.Types.{
  standard, private, anonymous, PaymentStatus, held, disputed, PaymentRecord, Ticket, DisputeRecord,
  unauthorized, payment_already_processed, refund_not_allowed, invalid_organizer,
  invalid_dispute_reason, dispute_window_closed, dispute_already_exists, dispute_not_found,
  dispute_expired, revenue_invariant_violated, dispute_raised, dispute_resolved, dispute_timed_out,
  Token, Store,
}
use zicket_contract.Payments.Storage.{
  Call, publish, get_admin, get_payment, get_ticket, update_payment,
}
use zicket_contract.Payments.Accounts.{
  get_event_tokens, get_event_revenue, set_event_revenue, get_event_token_revenue,
  set_event_token_revenue, get_total_token_volume, get_total_token_refunds,
  get_total_token_withdrawn, add_total_refunds, add_total_token_refunds, set_dispute,
  remove_dispute, get_event_disputes, set_event_disputes,
}
use zicket_contract.Payments.Purchase.{require_not_paused}
use zicket_contract.Payments.Refunds.{is_held, pay, wholly_refunded}

abbrev pub attendee_dispute_window_ledgers : ℕ
attendee_dispute_window_ledgers = 120960

abbrev pub dispute_timeout_ledgers : ℕ
dispute_timeout_ledgers = 241920

abbrev pub is_disputed : PaymentStatus → Bool
is_disputed disputed = true
is_disputed _ = false

-- "The timeout of the dispute has passed."
abbrev pub timed_out : Env → DisputeRecord → Bool
timed_out env dispute =
    leb (saturating_add dispute.raised_at_ledger dispute_timeout_ledgers) env.sequence

-- The list of disputes without one ticket.
unfoldable pub without : ℕ → List ℕ → List ℕ
without ticket_id [] = []
without ticket_id (tid ∷ tids) =
    let rest = without ticket_id tids in if tid == ticket_id then rest else tid ∷ rest

-- Whether the commitment of an anonymous ticket is the hash of the preimage.
abbrev pub commits_to : Option Bytes → Bytes → Bool
commits_to none hash = false
commits_to (some commitment) hash = commitment == hash

module _ {T : Type 0} where
  -- The amount of a payment returns to the event's revenue.
  unfoldable pub restore_revenue : Symbol → PaymentRecord → Store T → Store T
  unfolding get_event_revenue set_event_revenue get_event_token_revenue set_event_token_revenue
  restore_revenue event_id payment s =
      let t = set_event_revenue event_id (get_event_revenue event_id s +ℤ payment.amount) s in
      set_event_token_revenue event_id payment.token
        (get_event_token_revenue event_id payment.token t +ℤ payment.amount) t

  unfoldable pub freeze_revenue : Symbol → PaymentRecord → Store T → Store T
  unfolding get_event_revenue set_event_revenue get_event_token_revenue set_event_token_revenue
  freeze_revenue event_id payment s =
      let t = set_event_revenue event_id (get_event_revenue event_id s -ℤ payment.amount) s in
      set_event_token_revenue event_id payment.token
        (get_event_token_revenue event_id payment.token t -ℤ payment.amount) t

  -- The disputed payment of a dispute that timed out is held again.
  unfoldable pub release_payment : Symbol → DisputeRecord → Store T → Call (Store T)
  unfolding restore_revenue update_payment
  release_payment event_id dispute s = elim (s.payments dispute.payment_id) [
    | none ↦ ok s
    | some payment ↦
        if is_disputed payment.status
        then (update_payment (record payment { status = held }) s >>= λ t.
            ok (restore_revenue event_id payment t))
        else ok s
  ]

  -- One turn of the loop of `process_timed_out_disputes`.
  unfoldable pub time_out_dispute :
      Env → Symbol → ℕ → List ℕ → Bool → Store T → Call (List ℕ × Bool × Store T)
  unfolding release_payment remove_dispute
  time_out_dispute env event_id ticket_id remaining modified s = elim (s.dispute ticket_id) [
    | none ↦ ok (remaining, modified, s)
    | some dispute ↦
        if timed_out env dispute
        then (release_payment event_id dispute s >>= λ t. ok (
          remaining,
          true,
          publish (dispute_timed_out event_id ticket_id env.timestamp) (remove_dispute ticket_id t),
        ))
        else ok (remaining ++ (ticket_id ∷ []), modified, s)
  ]

  unfoldable pub timeout_loop :
      List ℕ → Env → Symbol → List ℕ → Bool → Store T → Call (List ℕ × Bool × Store T)
  unfolding time_out_dispute
  timeout_loop [] env event_id remaining modified s = ok (remaining, modified, s)
  timeout_loop (ticket_id ∷ tids) env event_id remaining modified s =
      time_out_dispute env event_id ticket_id remaining modified s >>= λ r.
      timeout_loop tids env event_id r.0 r.1 r.2

  unfoldable pub process_timed_out_disputes : Env → Symbol → Store T → Call (Store T)
  unfolding timeout_loop get_event_disputes set_event_disputes
  process_timed_out_disputes env event_id s = do
    r ← timeout_loop (get_event_disputes event_id s) env event_id [] false s
    ok (if r.1 then set_event_disputes event_id r.0 r.2 else r.2)

  -- What the contract should hold of a token for an event.
  unfoldable pub expected_balance : Symbol → Address → Store T → ℤ
  unfolding get_total_token_volume get_total_token_refunds get_total_token_withdrawn
  expected_balance event_id token s =
      get_total_token_volume event_id token s
      -ℤ get_total_token_refunds event_id token s
      -ℤ get_total_token_withdrawn event_id token s

  unfoldable pub covered : Env → Token T → Symbol → List Address → Store T → Bool
  unfolding expected_balance
  covered env token event_id [] s = true
  covered env token event_id (asset ∷ assets) s =
      let rest = covered env token event_id assets s in
      if ltb_ℤ (token.balance s.tokens asset env.current_contract_address)
        (expected_balance event_id asset s)
      then false
      else rest

  unfoldable pub validate_revenue_invariant : Env → Token T → Symbol → Store T → Call (Store T)
  unfolding process_timed_out_disputes covered get_event_tokens
  validate_revenue_invariant env token event_id s = do
    t ← process_timed_out_disputes env event_id s
    err_if (not (covered env token event_id (get_event_tokens event_id t) t))
        revenue_invariant_violated
    ok t

  -- Who may dispute a ticket: its owner, whoever knows the preimage of its commitment, or whoever
  -- signs with the stealth key.
  unfoldable pub authorize_dispute : Env → Ticket → ℕ → Option Bytes → Store T → Call (Unit {0})
  unfolding get_payment
  authorize_dispute env ticket ticket_id proof s = elim (ticket.privacy_level) [
    | standard ↦ ok_or ticket.owner unauthorized >>= λ owner. require_auth env owner
    | anonymous ↦ ok_or proof unauthorized >>= λ preimage.
        err_if (not (commits_to ticket.nullifier_commitment (env.sha256 preimage))) unauthorized
    | private ↦ ok_or proof unauthorized >>= λ signature.
        get_payment ticket.payment_id s >>= λ payment.
        ok_or payment.stealth_delivery_key unauthorized >>= λ pub_key.
        err_if (not (env.bytes_len signature == 64)) unauthorized
        >> require (env.ed25519_verifies pub_key (env.u64_xdr ticket_id) signature)
  ]

  unfoldable pub raise_dispute : Env → ℕ → ℕ → Option Bytes → Store T → Call (Store T)
  unfolding require_not_paused get_ticket authorize_dispute get_payment update_payment
      freeze_revenue set_dispute get_event_disputes set_event_disputes
  raise_dispute env ticket_id reason_code proof s = do
    require_not_paused s
    err_if (ltb 2 reason_code) invalid_dispute_reason
    ticket ← get_ticket ticket_id s
    authorize_dispute env ticket ticket_id proof s
    config ← ok_or (s.event_config ticket.event_id) invalid_organizer
    err_if (ltb env.sequence config.event_end_ledger) dispute_window_closed
    err_if
        (leb (saturating_add config.event_end_ledger attendee_dispute_window_ledgers) env.sequence)
        dispute_window_closed
    err_if (is_some (s.dispute ticket_id)) dispute_already_exists
    payment ← get_payment ticket.payment_id s
    err_if (not (is_held payment.status)) payment_already_processed
    t ← update_payment (record payment { status = disputed }) s
    let u =
        set_dispute ticket_id
          (record {
            ticket_id = ticket_id;
            event_id = ticket.event_id;
            payment_id = payment.payment_id;
            reason_code = reason_code;
            raised_at_ledger = env.sequence;
          })
          (freeze_revenue ticket.event_id payment t)
    ok (
        publish
          (dispute_raised ticket.event_id ticket_id payment.payment_id reason_code env.timestamp)
          (set_event_disputes ticket.event_id
            (get_event_disputes ticket.event_id u ++ (ticket_id ∷ [])) u))

  -- The end of `approve_refund` and of `reject_dispute`.
  unfoldable pub close_dispute : Env → Symbol → ℕ → Bool → Store T → Store T
  unfolding remove_dispute without get_event_disputes set_event_disputes
  close_dispute env event_id ticket_id refund_approved s =
      let t = remove_dispute ticket_id s in
      publish (dispute_resolved event_id ticket_id refund_approved env.timestamp)
        (set_event_disputes event_id (without ticket_id (get_event_disputes event_id t)) t)

  unfoldable pub approve_refund : Env → Token T → ℕ → Store T → Call (Store T)
  unfolding require_not_paused get_admin get_payment pay update_payment add_total_refunds
      add_total_token_refunds close_dispute
  approve_refund env token ticket_id s = do
    require_not_paused s
    admin ← get_admin s
    require_auth env admin
    dispute ← ok_or (s.dispute ticket_id) dispute_not_found
    err_if (timed_out env dispute) dispute_expired
    payment ← get_payment dispute.payment_id s
    err_if (not (is_disputed payment.status)) payment_already_processed
    let remaining = payment.amount -ℤ payment.refunded_amount
    refund_to ← ok_or payment.payer refund_not_allowed
    t ← pay token payment.token env.current_contract_address refund_to remaining s
    u ← update_payment (wholly_refunded remaining payment) t
    ok (
        close_dispute env dispute.event_id ticket_id true (
          add_total_token_refunds dispute.event_id payment.token remaining
            (add_total_refunds dispute.event_id remaining u)))

  unfoldable pub reject_dispute : Env → ℕ → Store T → Call (Store T)
  unfolding require_not_paused get_admin get_payment update_payment restore_revenue close_dispute
  reject_dispute env ticket_id s = do
    require_not_paused s
    admin ← get_admin s
    require_auth env admin
    dispute ← ok_or (s.dispute ticket_id) dispute_not_found
    payment ← get_payment dispute.payment_id s
    err_if (not (is_disputed payment.status)) payment_already_processed
    t ← update_payment (record payment { status = held }) s
    ok (
        close_dispute env dispute.event_id ticket_id false
          (restore_revenue dispute.event_id payment t))
