-- ===== src/Payments/SplitRules.antt =====
-- The rules of a revenue split, as `sync_revenue_splits` of contracts/payments/src/lib.rs tests them
-- and as contracts/common-utils/src/validation.rs, which the event contract uses, does.
use zicket_contract.Base.{
  ltb, ◌==◌, Bool-cases, eq_self, ◌>>=◌, ◌>>◌, err_if, ok_or, is_some, Outcome, ok, err, trap,
  Address, Symbol, update, require_auth, Env, length, ℕ, ◌≡◌, refl, sym, ap, ◌∙◌, inl, inr, Bool,
  true, false, ◌||◌, not, Option, none, some, [], ◌∷◌, arith,
}
use zicket_contract.CommonUtils.Splits.{
  Splits, checked_add, has_recipient, validate_loop, validate_revenue_splits, zero_basis_points,
  sum_overflow, duplicate_recipient, first_not_organizer, sum_not_total, too_many_recipients,
}
use zicket_contract.Payments.Types.{
  EventConfig, Store, unauthorized, not_initialized, invalid_organizer, invalid_split_config,
}
use zicket_contract.Payments.Splits.{sync_loop, check_split, sync_revenue_splits}
use zicket_contract.Payments.Purchase.{require_not_paused}

-- The result of a call, its error forgotten.
abbrev pub result : {E A : Type 0} → Outcome E A → Option A
result (ok a) = some a
result (err e) = none
result trap = none

bind-result :
    {E F A B : Type 0} (m : Outcome E A) (n : Outcome F A) (f : A → Outcome E B)
    (g : A → Outcome F B)
    → result m ≡ result n
    → ((a : A) → result (f a) ≡ result (g a))
    → result (m >>= f) ≡ result (n >>= g)
bind-result (ok a) (ok b) f g e h =
    let same : a ≡ b = ground arith in h a ∙ ap (λ x. result (g x)) same
bind-result (ok a) (err y) f g e h = absurd (ground arith)
bind-result (ok a) trap f g e h = absurd (ground arith)
bind-result (err x) (ok b) f g e h = absurd (ground arith)
bind-result (err x) (err y) f g e h = refl
bind-result (err x) trap f g e h = refl
bind-result trap (ok b) f g e h = absurd (ground arith)
bind-result trap (err y) f g e h = refl
bind-result trap trap f g e h = refl

test_passed :
    {E A : Type 0} (b : Bool) (e : E) (m : Outcome E A)
    → b ≡ false
    → result (err_if b e >> m) ≡ result m
test_passed true e m h = absurd (ground arith)
test_passed false e m h = refl

test_failed :
    {E A : Type 0} (b : Bool) (e : E) (m : Outcome E A) → b ≡ true → result (err_if b e >> m) ≡ none
test_failed true e m h = refl
test_failed false e m h = absurd (ground arith)

none_bind :
    {E A B : Type 0} (m : Outcome E A) (f : A → Outcome E B)
    → result m ≡ none
    → result (m >>= f) ≡ none
none_bind (ok a) f e = absurd (ground arith)
none_bind (err x) f e = refl
none_bind trap f e = refl

call_passed :
    {E A B : Type 0} (m : Outcome E A) (f : A → Outcome E B) {a : A}
    → m ≡ ok a
    → result (m >>= f) ≡ result (f a)
call_passed m f e = ap (λ x. result (x >>= f)) e

err_if-result :
    {E F : Type 0} (b : Bool) (e : E) (f : F) → result (err_if b e) ≡ result (err_if b f)
err_if-result true e f = refl
err_if-result false e f = refl

ok_or-result :
    {E F A : Type 0} (o : Option A) (e : E) (f : F) → result (ok_or o e) ≡ result (ok_or o f)
ok_or-result none e f = refl
ok_or-result (some a) e f = refl

sync_loop-validate_loop :
    (seen : Splits) (total : ℕ) (splits : Splits)
    → result (sync_loop seen total splits) ≡ result (validate_loop seen total splits)
unfolding sync_loop validate_loop
sync_loop-validate_loop seen total [] = refl
sync_loop-validate_loop seen total ((recipient, bps) ∷ rest) =
    bind-result
      (err_if (bps == 0) invalid_split_config >> ok_or (checked_add total bps) invalid_split_config)
      (err_if (bps == 0) zero_basis_points >> ok_or (checked_add total bps) sum_overflow) _ _
      (bind-result (err_if (bps == 0) invalid_split_config) (err_if (bps == 0) zero_basis_points) _
        _ (err_if-result (bps == 0) invalid_split_config zero_basis_points)
        (λ _. ok_or-result (checked_add total bps) invalid_split_config sum_overflow))
      (λ t.
        bind-result (err_if (has_recipient recipient seen) invalid_split_config)
          (err_if (has_recipient recipient seen) duplicate_recipient) _ _
          (err_if-result (has_recipient recipient seen) invalid_split_config duplicate_recipient)
          (λ _. sync_loop-validate_loop ((recipient, bps) ∷ seen) t rest))

check_split-validate :
    (primary : Address) (bps : ℕ) (rest : Splits) (organizer : Address)
    → ltb 5 (length ((primary, bps) ∷ rest)) ≡ false
    → result (check_split ((primary, bps) ∷ rest) organizer)
      ≡ result (validate_revenue_splits ((primary, bps) ∷ rest) organizer)
unfolding check_split validate_revenue_splits
check_split-validate primary bps rest organizer few =
    let splits : Splits = (primary, bps) ∷ rest in
    bind-result (err_if (not (primary == organizer)) invalid_split_config)
      (err_if (not (primary == organizer)) first_not_organizer) _ _
      (err_if-result (not (primary == organizer)) invalid_split_config first_not_organizer)
      (λ _.
        bind-result (sync_loop [] 0 splits) (validate_loop [] 0 splits) _ _
          (sync_loop-validate_loop [] 0 splits)
          (λ total. err_if-result (not (total == 10000)) invalid_split_config sum_not_total))
    ∙ sym (test_passed (ltb 5 (length splits)) too_many_recipients _ few)

too_many-refused :
    (primary : Address) (bps : ℕ) (rest : Splits) (organizer : Address)
    → ltb 5 (length ((primary, bps) ∷ rest)) ≡ true
    → result (validate_revenue_splits ((primary, bps) ∷ rest) organizer) ≡ none
unfolding validate_revenue_splits
too_many-refused primary bps rest organizer many =
    test_failed (ltb 5 (length ((primary, bps) ∷ rest))) too_many_recipients _ many

module _ {T : Type 0} where
  abbrev pub with_split : Symbol → Splits → Store T → Store T
  with_split event_id splits s = record s {
    event_splits = update s.event_splits event_id (some splits);
  }

  -- While the payments contract is not paused, the linked event contract has signed, the event has
  -- a configuration and no split yet, and a split has a first recipient: the payments contract
  -- takes the split exactly when the shared validation accepts it for the event's organizer, and
  -- then stores it; which error a refusal gives is not compared.
  pub sync_revenue_splits_agrees :
      (env : Env) (event_contract : Address) (event_id : Symbol) (primary : Address) (bps : ℕ)
      (rest : Splits) (s : Store T) (config : EventConfig)
      → require_not_paused s ≡ ok tt
      → s.event_contract ≡ some event_contract
      → env.authorized event_contract ≡ true
      → s.event_splits event_id ≡ none
      → s.event_config event_id ≡ some config
      → result (sync_revenue_splits env event_contract event_id ((primary, bps) ∷ rest) s)
        ≡ result (
            validate_revenue_splits ((primary, bps) ∷ rest) config.organizer >>= λ _.
            ok (with_split event_id ((primary, bps) ∷ rest) s))
  unfolding sync_revenue_splits
  sync_revenue_splits_agrees env event_contract event_id primary bps rest s config running linked
        signed unset stored =
      let splits : Splits = (primary, bps) ∷ rest in
      call_passed (require_not_paused s) _ running
      ∙ call_passed (ok_or s.event_contract not_initialized) _ (rw linked refl)
      ∙ test_passed (not (event_contract == event_contract)) unauthorized _
          (rw (eq_self event_contract) refl)
      ∙ call_passed (require_auth env event_contract) _ (rw signed refl)
      ∙ test_passed (is_some (s.event_splits event_id)) invalid_split_config _ (rw unset refl)
      ∙ elim (Bool-cases (ltb 5 (length splits))) [
        | inl many ↦
            test_failed (length splits == 0 || ltb 5 (length splits)) invalid_split_config _
              (ground arith)
            ∙ sym (
                none_bind (validate_revenue_splits splits config.organizer) _
                  (too_many-refused primary bps rest config.organizer many))
        | inr few ↦
            test_passed (length splits == 0 || ltb 5 (length splits)) invalid_split_config _
              (ground arith)
            ∙ call_passed (ok_or (s.event_config event_id) invalid_organizer) _ {a = config}
                (rw stored refl)
            ∙ bind-result (check_split splits config.organizer)
                (validate_revenue_splits splits config.organizer) _ _
                (check_split-validate primary bps rest config.organizer few) (λ _. refl)
      ]
