-- ===== src/Base/Results.antt =====
-- What holds of the result of a call, where it has one, followed through the calls it is made of.
use mathlib.Core.Path.{◌≡◌, refl, ap, subst}
use mathlib.Core.Bool.{Bool, true, false}
use native.Mathlib.Omega.{arith}
use zicket_contract.Base.Host.{invoke}
use zicket_contract.Base.Tests.{if◌then◌else◌}
use zicket_contract.Base.Monad.{
  Outcome, ok, err, trap, ◌>>=◌, ◌>>◌, err_if, is_ok, bind_inv, ok_inj,
}

pub record Ensures {E A : Type 0} (P : A → Type 0) (m : Outcome E A) : Type 0 where
  pub holds : (a : A) → m ≡ ok a → P a

pub ok-Ensures : {E A : Type 0} {P : A → Type 0} {a : A} → P a → Ensures {E = E} P (ok a)
ok-Ensures {P = P} p = record { holds = λ b e. subst P (ok_inj e) p }

pub bind-Ensures :
    {E A B : Type 0} {P : B → Type 0} (m : Outcome E A) {f : A → Outcome E B}
    → ((a : A) → m ≡ ok a → Ensures P (f a))
    → Ensures P (m >>= f)
bind-Ensures m h = record {
  holds = λ b e. let (a, got, e') = bind_inv m _ e in (h a got).holds b e';
}

pub if-Ensures :
    {E A : Type 0} {P : A → Type 0} (b : Bool) {m n : Outcome E A}
    → (b ≡ true → Ensures P m)
    → (b ≡ false → Ensures P n)
    → Ensures P (if b then m else n)
if-Ensures true m n = m refl
if-Ensures false m n = n refl

-- A test that lets the call go on.
pub test-Ensures :
    {E B : Type 0} {P : B → Type 0} (b : Bool) (e : E) {m : Outcome E B}
    → (b ≡ false → Ensures P m)
    → Ensures P (err_if b e >> m)
test-Ensures true e h = record { holds = λ b e. absurd (ground arith) }
test-Ensures false e h = h refl

-- A call that has no result.
pub never-is_ok : {E A : Type 0} (m : Outcome E A) → Ensures (λ _. true ≡ false) m → is_ok m ≡ false
never-is_ok (ok a) h = h.holds a refl
never-is_ok (err e) h = refl
never-is_ok trap h = refl

-- The call that was made has returned where its invocation has.
pub invoke_inv : {E F A : Type 0} (m : Outcome E A) {a : A} → invoke {F = F} m ≡ ok a → m ≡ ok a
invoke_inv (ok a) e = ap ok (ok_inj e)
invoke_inv (err x) e = absurd (ground arith)
invoke_inv trap e = absurd (ground arith)
