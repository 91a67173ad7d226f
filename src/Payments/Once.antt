-- ===== src/Payments/Once.antt =====
-- Repeated refunds of a payment of contracts/payments/src/lib.rs.
use zicket_contract.Base.{
  Option-cases, is_ok, ok, Address, Env, ℕ, ◌-◌, ◌≡◌, refl, sym, ap, ◌∙◌, inl, inr, false, Option,
  some, arith,
}
use zicket_contract.Base.Int.{◌-ℤ◌, of_bps, ℤ}
use zicket_contract.Payments.Types
use zicket_contract.Payments.Types.{
  PaymentRecord, Store, Token, refunded, standard, private, anonymous,
}
use zicket_contract.Payments.Storage.{get_admin, get_payment, update_payment, get_ticket}
use zicket_contract.Payments.Accounts.{
  set_event_token_revenue, set_event_revenue, add_total_refunds, add_total_token_refunds,
}
use zicket_contract.Payments.Refunds.{
  withdrawable_ratio, wholly_refunded, pay, book_refund, settle_refund, refund, claim_refund,
  request_postponement_refund,
}

module _ {T : Type 0} where
  -- Each payment stands under its own id.
  unfoldable pub IsKeyed : Store T → Type 0
  IsKeyed s = (id : ℕ) (p : PaymentRecord) → s.payments id ≡ some p → p.payment_id ≡ id

  -- What a refund that closes a payment leaves behind.
  pub settle_refund-payments :
      (env : Env) (token : Token T) (to : Address) (amount : ℤ) (p : PaymentRecord) (s : Store T)
      {s' : Store T}
      → settle_refund env token to amount p s ≡ ok s'
      → s'.payments p.payment_id ≡ some p
  unfolding settle_refund pay update_payment book_refund set_event_revenue set_event_token_revenue
      add_total_refunds add_total_token_refunds
  settle_refund-payments env token to amount p s e =
      elim (Option-cases (token.transfer s.tokens p.token env.current_contract_address to amount)) [
        | inl fails ↦ absurd (ground arith)
        | inr (t, paid) ↦ elim (Option-cases (s.payments p.payment_id)) [
          | inl missing ↦ absurd (ground arith)
          | inr (q, found) ↦ ground arith
        ]
      ]

  -- A claim leaves the payment refunded.
  pub claim_refund-payments :
      (env : Env) (token : Token T) (payer : Address) (id : ℕ) (s : Store T) {s' : Store T}
      → IsKeyed s
      → claim_refund env token payer id s ≡ ok s'
      → (p : PaymentRecord) × (s'.payments id ≡ some p) × (p.status ≡ refunded)
  unfolding claim_refund get_payment IsKeyed
  claim_refund-payments env token payer id s {s'} h e = elim (Option-cases (s.payments id)) [
    | inl missing ↦ absurd (ground arith)
    | inr (q, found) ↦ elim (Option-cases q.payer) [
      | inl nobody ↦ absurd (ground arith)
      | inr (to, owed) ↦
          let ratio = 10000 - withdrawable_ratio (s.event_config q.event_id) in
          let amount = of_bps q.amount ratio -ℤ q.refunded_amount in
          let p = wholly_refunded amount q in
          let settled : settle_refund env token to amount p s ≡ ok s' = ground arith in
          let key : q.payment_id ≡ id = h id q found in
          (
            p,
            sym (ap (λ i. s'.payments i) key)
                ∙ settle_refund-payments env token to amount p s settled,
            refl,
          )
    ]
  ]

  -- Where each payment is stored under its own id: after a refund is claimed, no claim and no
  -- refund of that payment succeeds, and no postponement refund of a ticket of that payment does,
  -- whoever asks.
  pub claim_refund_once :
      (env : Env) (token : Token T) (payer : Address) (id : ℕ) (s : Store T) {s' : Store T}
      → IsKeyed s
      → claim_refund env token payer id s ≡ ok s'
      → (env' : Env) (who : Address) (amount : Option ℤ)
      → (is_ok (claim_refund env' token who id s') ≡ false)
        × (is_ok (refund env' token who id amount s') ≡ false)
        × ((ticket_id : ℕ) (ticket : Types.Ticket)
            → s'.tickets ticket_id ≡ some ticket
            → ticket.payment_id ≡ id
            → is_ok (request_postponement_refund env' token who ticket_id s') ≡ false)
  unfolding claim_refund refund request_postponement_refund get_payment get_ticket get_admin
  claim_refund_once env token payer id s {s'} h e env' who amount =
      let (p, found, done) = claim_refund-payments env token payer id s h e in
      (ground arith, ground arith, λ ticket_id ticket there of_id. ground arith)
