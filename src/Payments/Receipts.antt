-- ===== src/Payments/Receipts.antt =====
-- The receipt commitment of a payment, bound and verified: `bind_email_commitment`,
-- `get_payment_commitment` and `verify_email_commitment` of contracts/payments/src/lib.rs.
use zicket_contract.Base.{
  ◌==◌, is_some, is_ok, ok_or_inv, ok, Address, Bytes, require_auth, Env, ok-Ensures, bind-Ensures,
  test-Ensures, never-is_ok, Ensures, ℕ, ◌≡◌, refl, true, false, not, some, arith,
}
use zicket_contract.Payments.Types.{
  PaymentRecord, Store, payment_not_found, unauthorized, commitment_not_allowed,
  commitment_already_set,
}
use zicket_contract.Payments.Storage.{get_payment, update_payment}
use zicket_contract.Payments.Purchase.{require_not_paused}
use zicket_contract.Payments.Refunds.{is_refunded}
use zicket_contract.Payments.Once.{IsKeyed}
use zicket_contract.Payments.Admin.{
  is_payer, bind_email_commitment, get_payment_commitment, verify_email_commitment,
}

module _ {T : Type 0} where
  -- The payment carries the commitment.
  Carries : ℕ → Bytes → Store T → Type 0
  Carries payment_id commitment s =
      (p : PaymentRecord) × (s.payments payment_id ≡ some p)
      × (p.zk_email_commitment ≡ some commitment)

  bind_email_commitment-Carries :
      (env : Env) (payer : Address) (payment_id : ℕ) (commitment : Bytes) (s : Store T)
      → IsKeyed s
      → Ensures
          (Carries payment_id commitment)
          (bind_email_commitment env payer payment_id commitment s)
  unfolding bind_email_commitment get_payment update_payment IsKeyed Carries
  bind_email_commitment-Carries env payer payment_id commitment s keyed =
      bind-Ensures (require_not_paused s) λ _ _. bind-Ensures (require_auth env payer) λ _ _.
        bind-Ensures (get_payment payment_id s) λ payment got.
          test-Ensures (not (is_payer payment.payer payer)) unauthorized λ _.
            test-Ensures (is_refunded payment.status) commitment_not_allowed λ _.
              test-Ensures (is_some payment.zk_email_commitment) commitment_already_set λ _.
                let bound = record payment { zk_email_commitment = some commitment } in
                let same =
                  keyed payment_id payment
                    (ok_or_inv (s.payments payment_id) payment_not_found got) in
                bind-Ensures (update_payment bound s)
                  λ t updated. ok-Ensures (bound, ground arith, refl)

  carried-refused :
      (env : Env) (payer : Address) (payment_id : ℕ) (commitment other : Bytes) (s : Store T)
      → Carries payment_id commitment s
      → Ensures (λ _. true ≡ false) (bind_email_commitment env payer payment_id other s)
  unfolding bind_email_commitment get_payment Carries
  carried-refused env payer payment_id commitment other s (p, stored, carries) =
      bind-Ensures (require_not_paused s) λ _ _. bind-Ensures (require_auth env payer) λ _ _.
        bind-Ensures (get_payment payment_id s) λ payment got.
          test-Ensures (not (is_payer payment.payer payer)) unauthorized λ _.
            test-Ensures (is_refunded payment.status) commitment_not_allowed λ _.
              test-Ensures (is_some payment.zk_email_commitment) commitment_already_set
                λ unset. record { holds = λ _ _. ground arith }

  -- Where each payment is stored under its own id: after a receipt commitment is bound to a
  -- payment, it is the one that is read back, a candidate is verified exactly when it equals it,
  -- and every further binding to the payment is refused.
  pub bind_email_commitment_verifies :
      (env env' : Env) (payer who : Address) (payment_id : ℕ) (commitment candidate other : Bytes)
      (s s' : Store T)
      → IsKeyed s
      → bind_email_commitment env payer payment_id commitment s ≡ ok s'
      → (get_payment_commitment payment_id s' ≡ ok (some commitment))
        × (verify_email_commitment payment_id candidate s' ≡ ok (commitment == candidate))
        × (is_ok (bind_email_commitment env' who payment_id other s') ≡ false)
  unfolding get_payment_commitment verify_email_commitment get_payment Carries
  bind_email_commitment_verifies env env' payer who payment_id commitment candidate other s s' keyed
        bound =
      let carried =
        (bind_email_commitment-Carries env payer payment_id commitment s keyed).holds s' bound in
      let (p, stored, carries) = carried in
      (
        rw (stored, carries) refl,
        rw (stored, carries) refl,
        never-is_ok _ (carried-refused env' who payment_id commitment other s' carried),
      )
