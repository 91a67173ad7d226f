-- ===== src/Payments/Processing.antt =====
-- What processing the timed out disputes and testing the balance leave as they are.
use zicket_contract.Base.{
  ◌==◌, if◌then◌else◌, Option-cases, err_if, ok_inj, bind_inv, ok, Address, Symbol, Env, ℕ, ◌≡◌,
  refl, sym, ◌∙◌, ◌≢◌, inl, inr, Bool, false, not, some, List, [], ◌∷◌, arith,
}
use zicket_contract.Base.Int.{ℤ}
use zicket_contract.Payments.Types.{
  Token, Store, revenue_invariant_violated, unauthorized_withdrawal,
}
use zicket_contract.Payments.Storage.{Call, update_payment}
use zicket_contract.Payments.Accounts.{
  get_event_tokens, set_event_token_revenue, set_event_revenue, get_total_token_withdrawn,
  add_total_token_withdrawn, remove_dispute, get_event_disputes, set_event_disputes,
}
use zicket_contract.Payments.Refunds.{pay}
use zicket_contract.Payments.Disputes.{
  restore_revenue, release_payment, time_out_dispute, timeout_loop, process_timed_out_disputes,
  covered, validate_revenue_invariant,
}
use zicket_contract.Payments.Escrow.{SameBooks-trans, SameBooks}

pub own_apart :
    {a b self : Address} {u : Unit {0}}
    → err_if (not (a == b)) unauthorized_withdrawal ≡ ok u
    → a ≢ self
    → b ≢ self
own_apart {a} {b} own apart = ground arith

module _ {T : Type 0} where
  -- Neither the accounts nor the tokens change.
  pub record Still (s s' : Store T) : Type 0 where
    pub books : SameBooks s s'
    pub tokens : s'.tokens ≡ s.tokens

  pub Still-trans : {s t u : Store T} → Still s t → Still t u → Still s u
  Still-trans h k = record { books = SameBooks-trans h.books k.books; tokens = k.tokens ∙ h.tokens }

  time_out_dispute-Still :
      (env : Env) (e : Symbol) (id : ℕ) (ids : List ℕ) (m : Bool) (s : Store T)
      {r : List ℕ × Bool × Store T}
      → time_out_dispute env e id ids m s ≡ ok r
      → Still s r.2
  unfolding time_out_dispute release_payment update_payment restore_revenue set_event_revenue
      set_event_token_revenue remove_dispute
  time_out_dispute-Still env e id ids m s h = record {
    books = record { volume = ground arith; refunds = ground arith; withdrawn = ground arith };
    tokens = ground arith;
  }

  Still-last :
      {ids : List ℕ} {m : Bool} {s : Store T} {r : List ℕ × Bool × Store T}
      → ◌≡◌ {A = Call (List ℕ × Bool × Store T)} (ok (ids, m, s)) (ok r)
      → Still s r.2
  Still-last h = record {
    books = record { volume = ground arith; refunds = ground arith; withdrawn = ground arith };
    tokens = ground arith;
  }

  timeout_loop-Still :
      (tids : List ℕ) (env : Env) (e : Symbol) (ids : List ℕ) (m : Bool) (s : Store T)
      {r : List ℕ × Bool × Store T}
      → timeout_loop tids env e ids m s ≡ ok r
      → Still s r.2
  unfolding timeout_loop
  timeout_loop-Still [] env e ids m s h = Still-last h
  timeout_loop-Still (id ∷ tids) env e ids m s h =
      let (r, once, rest) = bind_inv (time_out_dispute env e id ids m s) _ h in
      Still-trans (time_out_dispute-Still env e id ids m s once)
        (timeout_loop-Still tids env e r.0 r.1 r.2 rest)

  listed-Still :
      (e : Symbol) (r : List ℕ × Bool × Store T) {t : Store T}
      → ◌≡◌ {A = Call (Store T)} (ok (if r.1 then set_event_disputes e r.0 r.2 else r.2)) (ok t)
      → Still r.2 t
  unfolding set_event_disputes
  listed-Still e r h = record {
    books = record { volume = ground arith; refunds = ground arith; withdrawn = ground arith };
    tokens = ground arith;
  }

  Still-at : {s t u : Store T} → t ≡ u → Still s t → Still s u
  Still-at e h = rw (sym e) h

  pub add_withdrawn_cong :
      (e : Symbol) (a : Address) (amount : ℤ) (s w : Store T)
      → SameBooks s w
      → SameBooks (add_total_token_withdrawn e a amount s) (add_total_token_withdrawn e a amount w)
  unfolding add_total_token_withdrawn get_total_token_withdrawn
  add_withdrawn_cong e a amount s w h = record {
    volume = h.volume;
    refunds = h.refunds;
    withdrawn = rw (h.withdrawn) refl;
  }

  pub pay_inv :
      (token : Token T) (a from to : Address) (amount : ℤ) (s : Store T) {u : Store T}
      → pay token a from to amount s ≡ ok u
      → (token.transfer s.tokens a from to amount ≡ some u.tokens) × SameBooks s u
  unfolding pay
  pay_inv token a from to amount s e =
      elim (Option-cases (token.transfer s.tokens a from to amount)) [
        | inl fails ↦ absurd (ground arith)
        | inr (t, paid) ↦ (
          ground arith,
          record { volume = ground arith; refunds = ground arith; withdrawn = ground arith },
        )
      ]

  processed-Still :
      (env : Env) (e : Symbol) (s : Store T) {t : Store T}
      → process_timed_out_disputes env e s ≡ ok t
      → Still s t
  unfolding process_timed_out_disputes
  processed-Still env e s {t} h =
      let (r, looped, h₂) = bind_inv (timeout_loop (get_event_disputes e s) env e [] false s) _ h in
      Still-trans (timeout_loop-Still (get_event_disputes e s) env e [] false s looped)
        (listed-Still e r h₂)

  pub validate-Still :
      (env : Env) (token : Token T) (e : Symbol) (s : Store T) {t : Store T}
      → validate_revenue_invariant env token e s ≡ ok t
      → Still s t
  unfolding validate_revenue_invariant
  validate-Still env token e s {t} h =
      let (u, processed, h₁) = bind_inv (process_timed_out_disputes env e s) _ h in
      let (_, tested, h₂) =
        bind_inv
          (err_if (not (covered env token e (get_event_tokens e u) u)) revenue_invariant_violated) _
          h₁ in
      Still-at (ok_inj h₂) (processed-Still env e s processed)
