-- ===== src/Payments/Conservation.antt =====
-- The refunds and the dispute refund of contracts/payments/src/lib.rs, and the escrow.
use zicket_contract.Base.{
  Option-cases, unwrap_or, Outcome-cases, ok, Address, Env, ℕ, ◌-◌, ◌≡◌, ◌≢◌, inl, inr, Option,
  some, arith,
}
use zicket_contract.Base.Int.{ℤ, ◌-ℤ◌, of_bps}
use zicket_contract.Payments.Types.{Token, TokenLaws, Store, PaymentRecord, DisputeRecord, Ticket}
use zicket_contract.Payments.Storage.{get_admin, get_payment, update_payment, get_ticket}
use zicket_contract.Payments.Accounts.{
  set_event_token_revenue, set_event_revenue, add_total_refunds, add_total_token_refunds,
  remove_dispute, set_event_disputes,
}
use zicket_contract.Payments.Refunds.{
  withdrawable_ratio, refund_limit, partly_refunded, wholly_refunded, pay, book_refund,
  settle_refund, settle_optional_refund, refund, claim_refund, request_postponement_refund,
}
use zicket_contract.Payments.Disputes.{close_dispute, approve_refund}
use zicket_contract.Payments.Escrow.{KeepsCover-out, owed-refunds, KeepsCover, SameBooks}

module _ {T : Type 0} (token : Token T) (laws : TokenLaws token) where
  settle_refund-KeepsCover :
      (env : Env) (to : Address) (amount : ℤ) (p : PaymentRecord) (s : Store T) {s' : Store T}
      → to ≢ env.current_contract_address
      → settle_refund env token to amount p s ≡ ok s'
      → KeepsCover token env.current_contract_address p.event_id s s'
  unfolding settle_refund pay update_payment book_refund set_event_revenue set_event_token_revenue
      add_total_refunds add_total_token_refunds
  settle_refund-KeepsCover env to amount p s {s'} apart e =
      elim (Option-cases (token.transfer s.tokens p.token env.current_contract_address to amount)) [
        | inl fails ↦ absurd (ground arith)
        | inr (t, paid) ↦ elim (Option-cases (s.payments p.payment_id)) [
          | inl missing ↦ absurd (ground arith)
          | inr (q, found) ↦
              let same : SameBooks (add_total_token_refunds p.event_id p.token amount s) s' =
                record {
                  volume = ground arith;
                  refunds = ground arith;
                  withdrawn = ground arith;
                } in
              KeepsCover-out laws apart (ground arith)
                (owed-refunds p.event_id p.token amount s s' same)
        ]
      ]

  -- If the token contract moves what it is asked to and the payer is not the contract, then in a
  -- claimed refund of a stored payment that succeeds what the contract holds of every token changes
  -- by exactly what the expected balance of the payment's event changes, and no other event expects
  -- anything else.
  pub claim_refund-KeepsCover :
      (env : Env) (payer : Address) (id : ℕ) (q : PaymentRecord) (s : Store T) {s' : Store T}
      → payer ≢ env.current_contract_address
      → s.payments id ≡ some q
      → claim_refund env token payer id s ≡ ok s'
      → KeepsCover token env.current_contract_address q.event_id s s'
  unfolding claim_refund get_payment
  claim_refund-KeepsCover env payer id q s {s'} apart found e = elim (Option-cases q.payer) [
    | inl nobody ↦ absurd (ground arith)
    | inr (to, owed) ↦
        let ratio = 10000 - withdrawable_ratio (s.event_config q.event_id) in
        let amount = of_bps q.amount ratio -ℤ q.refunded_amount in
        let settled : settle_refund env token to amount (wholly_refunded amount q) s ≡ ok s' =
          ground arith in
        let not_self : to ≢ env.current_contract_address = ground arith in
        settle_refund-KeepsCover env to amount (wholly_refunded amount q) s not_self settled
  ]

  -- If the token contract moves what it is asked to and a stored payment has a payer on record who
  -- is not the contract, then in a refund of it by the administrator that succeeds what the
  -- contract holds of every token changes by exactly what the expected balance of the payment's
  -- event changes, and no other event expects anything else.
  pub refund-KeepsCover :
      (env : Env) (admin : Address) (id : ℕ) (asked : Option ℤ) (q : PaymentRecord)
      (payer : Address) (s : Store T) {s' : Store T}
      → s.payments id ≡ some q
      → q.payer ≡ some payer
      → payer ≢ env.current_contract_address
      → refund env token admin id asked s ≡ ok s'
      → KeepsCover token env.current_contract_address q.event_id s s'
  unfolding refund get_payment get_admin settle_optional_refund
  refund-KeepsCover env admin id asked q payer s {s'} found owed apart e =
      elim (Outcome-cases
        (refund_limit (s.event_status q.event_id) (s.event_config q.event_id) q)) [
          | inr fails ↦ absurd (ground arith)
          | inl (limit, within) ↦
              let amount = unwrap_or asked limit in
              let p = partly_refunded amount q in
              let settled : settle_refund env token payer amount p s ≡ ok s' = ground arith in
              settle_refund-KeepsCover env payer amount p s apart settled
        ]

  -- If the token contract moves what it is asked to and the contract is not the payer of the stored
  -- payment of a stored ticket, then in a refund of that ticket during a postponement that succeeds
  -- what the contract holds of every token changes by exactly what the expected balance of the
  -- payment's event changes, and no other event expects anything else.
  pub request_postponement_refund-KeepsCover :
      (env : Env) (caller : Address) (id : ℕ) (ticket : Ticket) (q : PaymentRecord) (s : Store T)
      {s' : Store T}
      → s.tickets id ≡ some ticket
      → s.payments ticket.payment_id ≡ some q
      → q.payer ≢ some env.current_contract_address
      → request_postponement_refund env token caller id s ≡ ok s'
      → KeepsCover token env.current_contract_address q.event_id s s'
  unfolding request_postponement_refund get_payment get_ticket
  request_postponement_refund-KeepsCover env caller id ticket q s {s'} there found apart e =
      elim (Option-cases q.payer) [
        | inl nobody ↦ absurd (ground arith)
        | inr (to, owed) ↦
            let amount = q.amount -ℤ q.refunded_amount in
            let settled : settle_refund env token to amount (wholly_refunded amount q) s ≡ ok s' =
              ground arith in
            let not_self : to ≢ env.current_contract_address = ground arith in
            settle_refund-KeepsCover env to amount (wholly_refunded amount q) s not_self settled
      ]

  -- If the token contract moves what it is asked to and the contract is not the payer of the stored
  -- payment that a stored dispute is about, then in a refund of that dispute that succeeds what the
  -- contract holds of every token changes by exactly what the expected balance of the dispute's
  -- event changes, and no other event expects anything else.
  pub approve_refund-KeepsCover :
      (env : Env) (id : ℕ) (d : DisputeRecord) (q : PaymentRecord) (s : Store T) {s' : Store T}
      → s.dispute id ≡ some d
      → s.payments d.payment_id ≡ some q
      → q.payer ≢ some env.current_contract_address
      → approve_refund env token id s ≡ ok s'
      → KeepsCover token env.current_contract_address d.event_id s s'
  unfolding approve_refund get_payment get_admin pay update_payment add_total_refunds
      add_total_token_refunds close_dispute remove_dispute set_event_disputes
  approve_refund-KeepsCover env id d q s {s'} raised found apart e = elim (Option-cases q.payer) [
    | inl nobody ↦ absurd (ground arith)
    | inr (to, owed) ↦
        let amount = q.amount -ℤ q.refunded_amount in
        let not_self : to ≢ env.current_contract_address = ground arith in
        elim (Option-cases
          (token.transfer s.tokens q.token env.current_contract_address to amount)) [
            | inl fails ↦ absurd (ground arith)
            | inr (t, paid) ↦
                let same : SameBooks (add_total_token_refunds d.event_id q.token amount s) s' =
                  record {
                    volume = ground arith;
                    refunds = ground arith;
                    withdrawn = ground arith;
                  } in
                KeepsCover-out laws not_self (ground arith)
                  (owed-refunds d.event_id q.token amount s s' same)
          ]
  ]
