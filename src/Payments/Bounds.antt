-- ===== src/Payments/Bounds.antt =====
-- The bounds of `refund` of contracts/payments/src/lib.rs.
use native.Mathlib.Nat.{div-le_of_le-mul}
use zicket_contract.Base.{
  Bool-cases, unwrap_or, Outcome-cases, ok, Address, Env, ℕ, ◌-◌, ◌*◌, ◌/◌, ◌≤◌, ◌≡◌, refl, sym, ap,
  ◌∙◌, inl, inr, Option, some, arith,
}
use zicket_contract.Base.Int.{◌+ℤ◌, ◌-ℤ◌, ◌≤ℤ◌, ◌<ℤ◌, of_bps, ℤ, pos, negsuc, int_laws}
use zicket_contract.Payments.Types.{PaymentRecord, Store, Token, EventStatus, EventConfig}
use zicket_contract.Payments.Storage.{get_admin, get_payment}
use zicket_contract.Payments.Refunds.{
  is_cancelled, withdrawable_ratio, refund_limit, partly_refunded, settle_refund,
  settle_optional_refund, refund,
}
use zicket_contract.Payments.Once.{IsKeyed, settle_refund-payments}

-- A share of at most 10,000 basis points of an amount that is not negative is at most the amount.
of_bps_bound : (amount : ℤ) (bps : ℕ) → pos 0 ≤ℤ amount → bps ≤ 10000 → of_bps amount bps ≤ℤ amount
unfolding of_bps
of_bps_bound (pos n) bps h k =
    let bound : n * bps / 10000 ≤ n = div-le_of_le-mul 10000 (grind arith) in ground arith
of_bps_bound (negsuc n) bps h k = absurd (ground arith)

refund_limit_bound :
    (status : Option EventStatus) (config : Option EventConfig) (p : PaymentRecord) {limit : ℤ}
    → pos 0 ≤ℤ p.amount
    → refund_limit status config p ≡ ok limit
    → limit +ℤ p.refunded_amount ≤ℤ p.amount
unfolding refund_limit
refund_limit_bound status config p {limit} h e =
    let share = of_bps_bound p.amount (10000 - withdrawable_ratio config) h (omega arith) in
    elim (Bool-cases (is_cancelled status)) [
      | inl gone ↦
          let eq : limit
              ≡ of_bps p.amount (10000 - withdrawable_ratio config) -ℤ p.refunded_amount =
            ground arith in
          rw eq (omega (int_laws, share))
      | inr on ↦
          let eq : limit ≡ p.amount -ℤ p.refunded_amount = ground arith in rw eq (omega int_laws)
    ]

grown :
    (amount : ℤ) (q : PaymentRecord)
    → pos 0 <ℤ amount
    → q.refunded_amount <ℤ (q.refunded_amount +ℤ amount)
grown amount q h = omega int_laws

bounded :
    (amount limit : ℤ) (q : PaymentRecord)
    → amount ≤ℤ limit
    → limit +ℤ q.refunded_amount ≤ℤ q.amount
    → q.refunded_amount +ℤ amount ≤ℤ q.amount
bounded amount limit q h k = omega int_laws

module _ {T : Type 0} where
  -- Where each payment is stored under its own id: a refund by the administrator that succeeds, of
  -- a payment that has a payer on record and an amount that is not negative, raises what has been
  -- paid back of it, to at most the amount, and keeps the amount.
  pub refund_bounds :
      (env : Env) (token : Token T) (admin : Address) (id : ℕ) (asked : Option ℤ) (s : Store T)
      {s' : Store T} (q : PaymentRecord) (payer : Address)
      → IsKeyed s
      → s.payments id ≡ some q
      → q.payer ≡ some payer
      → pos 0 ≤ℤ q.amount
      → refund env token admin id asked s ≡ ok s'
      → (p : PaymentRecord) × (s'.payments id ≡ some p)
        × (p.amount ≡ q.amount)
        × (q.refunded_amount <ℤ p.refunded_amount)
        × (p.refunded_amount ≤ℤ q.amount)
  unfolding refund get_payment get_admin settle_optional_refund IsKeyed
  refund_bounds env token admin id asked s {s'} q payer h found owed positive e =
      elim (Outcome-cases
        (refund_limit (s.event_status q.event_id) (s.event_config q.event_id) q)) [
          | inr fails ↦ absurd (ground arith)
          | inl (limit, within) ↦
              let amount = unwrap_or asked limit in
              let p = partly_refunded amount q in
              let settled : settle_refund env token payer amount p s ≡ ok s' = ground arith in
              let some_of_it : pos 0 <ℤ amount = ground arith in
              let in_limit : amount ≤ℤ limit = ground arith in
              let bound =
                refund_limit_bound (s.event_status q.event_id) (s.event_config q.event_id) q
                  positive within in
              (
                p,
                sym (ap (λ i. s'.payments i) (h id q found))
                    ∙ settle_refund-payments env token payer amount p s settled,
                refl,
                grown amount q some_of_it,
                bounded amount limit q in_limit bound,
              )
        ]
