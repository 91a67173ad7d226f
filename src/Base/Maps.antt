-- ===== src/Base/Maps.antt =====
-- Persistent storage under one variant of a `DataKey`: a function from the variant's fields.
use Prim.Native.Nat.{ℕ}
use zicket_contract.Base.Tests.{◌==◌, if◌then◌else◌}

-- An address, a symbol and a byte string are read by the contracts through equality, hashing and
-- the token and host interfaces alone, so each is a number.
abbrev pub Address : Type 0
Address = ℕ

abbrev pub Symbol : Type 0
Symbol = ℕ

abbrev pub Bytes : Type 0
Bytes = ℕ

module _ {V : Type 0} where
  abbrev pub update : (ℕ → V) → ℕ → V → ℕ → V
  update f k v j = if j == k then v else f j

  abbrev pub update₂ : (ℕ → ℕ → V) → ℕ → ℕ → V → ℕ → ℕ → V
  update₂ f k l v i = if i == k then update (f i) l v else f i
