-- ===== src/Base/Monad.antt =====
-- What a contract call ends in. An error value or a host trap (a panic, a failed `require_auth`,
-- an overflow under `overflow-checks = true`) rolls the whole invocation back, so neither carries
-- a state.
use Prim.Native.Nat.{ℕ, ◌+◌, ◌-◌}
use mathlib.Core.Path.{◌≡◌, refl}
use mathlib.Core.Logic.{◌⊎◌, inl, inr}
use mathlib.Core.Bool.{Bool, true, false}
use native.Mathlib.Omega.{arith}
use mathlib.Core.Option.{Option, none, some}
use zicket_contract.Base.Tests.{ltb, if◌then◌else◌}

pub data Outcome (E A : Type 0) : Type 0 where
  ok : A → Outcome E A
  err : E → Outcome E A
  trap : Outcome E A

infixl 5 ◌>>=◌ ◌>>◌
abbrev pub ◌>>=◌ : {E A B : Type 0} → Outcome E A → (A → Outcome E B) → Outcome E B
ok a >>= f = f a
err e >>= f = err e
trap >>= f = trap

abbrev pub ◌>>◌ : {E B : Type 0} → Outcome E (Unit {0}) → Outcome E B → Outcome E B
m >> k = m >>= λ _. k

-- `if c { return Err(e); }`
abbrev pub err_if : {E : Type 0} → Bool → E → Outcome E (Unit {0})
err_if true e = err e
err_if false e = ok tt

-- `o.ok_or(e)?`
abbrev pub ok_or : {E A : Type 0} → Option A → E → Outcome E A
ok_or none e = err e
ok_or (some a) e = ok a

-- `o.unwrap_or(d)`
abbrev pub unwrap_or : {A : Type 0} → Option A → A → A
unwrap_or none d = d
unwrap_or (some a) d = a

abbrev pub is_some : {A : Type 0} → Option A → Bool
is_some none = false
is_some (some a) = true

pub is_some-eq-false : {A : Type 0} (o : Option A) → is_some o ≡ false → o ≡ none
is_some-eq-false none e = refl
is_some-eq-false (some a) e = cc

-- A host call that panics unless the test holds.
abbrev pub require : {E : Type 0} → Bool → Outcome E (Unit {0})
require true = ok tt
require false = trap

abbrev pub u32_max : ℕ
u32_max = 4294967295

abbrev pub u64_max : ℕ
u64_max = 18446744073709551615

-- `a + b` on u32 and u64.
abbrev pub add_u32 : {E : Type 0} → ℕ → ℕ → Outcome E ℕ
add_u32 a b = if ltb u32_max (a + b) then trap else ok (a + b)

abbrev pub add_u64 : {E : Type 0} → ℕ → ℕ → Outcome E ℕ
add_u64 a b = if ltb u64_max (a + b) then trap else ok (a + b)

-- `a - b` on u32.
abbrev pub sub_u32 : {E : Type 0} → ℕ → ℕ → Outcome E ℕ
sub_u32 a b = if ltb a b then trap else ok (a - b)

-- `a.saturating_add(b)` on u32.
abbrev pub saturating_add : ℕ → ℕ → ℕ
saturating_add a b = if ltb u32_max (a + b) then u32_max else a + b

abbrev pub is_ok : {E A : Type 0} → Outcome E A → Bool
is_ok (ok a) = true
is_ok (err e) = false
is_ok trap = false

-- Whether a call succeeds, with the result kept.
pub Outcome-cases : {E A : Type 0} (m : Outcome E A) → ((a : A) × (m ≡ ok a)) ⊎ (is_ok m ≡ false)
Outcome-cases (ok a) = inl (a, refl)
Outcome-cases (err e) = inr refl
Outcome-cases trap = inr refl

pub ok_inj : {E A : Type 0} {a b : A} → ◌≡◌ {A = Outcome E A} (ok a) (ok b) → a ≡ b
ok_inj e = cc

-- A sequence that returns has steps that return.
pub bind_inv :
    {E A B : Type 0} (m : Outcome E A) (f : A → Outcome E B) {b : B}
    → m >>= f ≡ ok b
    → (a : A) × (m ≡ ok a) × (f a ≡ ok b)
bind_inv (ok a) f e = (a, refl, e)
bind_inv (err x) f e = absurd (ground arith)
bind_inv trap f e = absurd (ground arith)

pub ok_or_inv : {E A : Type 0} (o : Option A) (e : E) {a : A} → ok_or o e ≡ ok a → o ≡ some a
ok_or_inv none e h = absurd (ground arith)
ok_or_inv (some a) e h = ground arith
