-- ===== src/Base/Lists.antt =====
-- Lists that a counted loop reads out of indexed storage.
use Prim.Native.Nat.{ℕ, zero, suc}
use mathlib.Core.Option.{Option, none, some}
use mathlib.Core.List.{List, [], ◌∷◌, ◌++◌}

module _ {ℓ} {A : Type ℓ} where
  abbrev pub length : List A → ℕ
  length [] = 0
  length (x ∷ xs) = suc (length xs)

  abbrev pub to_list : Option A → List A
  to_list none = []
  to_list (some a) = a ∷ []

  -- `for i in 0..count { if let Some(x) = get(i) { out.push_back(x); } }`
  unfoldable pub collect : (ℕ → Option A) → ℕ → List A
  collect get zero = []
  collect get (suc n) = collect get n ++ to_list (get n)
