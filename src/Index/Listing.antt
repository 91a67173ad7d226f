-- ===== src/Index/Listing.antt =====
-- What the counted loop over an index lists: each member once.
use mathlib.Core.List.{
  Mem, Nodup, mem-append, mem-append_left, mem-append_right, mem-singleton, not-mem-nil,
  mem-cons_self, Nodup-cons, Nodup-nil, Nodup-append,
}
use mathlib.Core.HLevel.{⊥_prop, ¬_prop}
use mathlib.Core.Logic.Or
use native.Mathlib.Nat.{ℕ_set}
use zicket_contract.Base.{
  ℕ, zero, suc, ◌<◌, ◌≤◌, ◌≡◌, ◌≢◌, ◌↔◌, inl, inr, sym, ap, Option, none, some, arith, collect,
  to_list, Option-cases, lt-cases,
}
use zicket_contract.Index.{IsIndexed}

mem-to_list : {a : ℕ} (o : Option ℕ) → Mem a (to_list o) → o ≡ some a
mem-to_list none m = absurd (not-mem-nil m)
mem-to_list (some b) m = ap some (sym ((mem-singleton ℕ_set).0 m))

Nodup-to_list : {A : Type 0} (o : Option A) → Nodup (to_list o)
Nodup-to_list none = Nodup-nil
Nodup-to_list (some b) = Nodup-cons.1 (not-mem-nil, Nodup-nil)

-- An item at a position below the bound is listed.
pub mem-collect :
    (index : ℕ → Option ℕ) (k i id : ℕ) → i < k → index i ≡ some id → Mem id (collect index k)
unfolding collect
mem-collect index zero i id h e = elim h [ ]
mem-collect index (suc k) i id h e = elim (lt-cases i k) [
  | inl (t, lt) ↦ mem-append_left (to_list (index k)) (mem-collect index k i id lt e)
  | inr (t, ge) ↦
      let at : index k ≡ some id = ground arith in
      mem-append_right (collect index k) (rw at mem-cons_self)
]

-- What is listed stands at a position below the bound.
pub collect-elim :
    {P : Type 0} (index : ℕ → Option ℕ) (k id : ℕ)
    → IsProp P
    → ((i : ℕ) → i < k → index i ≡ some id → P)
    → Mem id (collect index k)
    → P
unfolding collect
collect-elim index zero id prop f m = absurd (not-mem-nil m)
collect-elim index (suc k) id prop f m =
    Or.elim prop (mem-append.0 m) (collect-elim index k id prop (λ i h e. f i (omega arith) e))
      (λ m'. f k (omega arith) (mem-to_list (index k) m'))

module _ {member index : ℕ → Option ℕ} {n : ℕ} (h : IsIndexed member index n) where
  -- The listing holds exactly the members.
  pub mem-collect_iff : (id : ℕ) → Mem id (collect index n) ↔ (member id ≢ none)
  mem-collect_iff id = (
    collect-elim index n id ¬_prop
        (λ i lt e. let old = h.filled i lt in ground (arith, old.1, old.2)),
    λ held. elim (Option-cases (member id)) [
      | inl e ↦ absurd (held e)
      | inr (i, e) ↦ let at = h.placed id i e in mem-collect index n i id at.0 at.1
    ],
  )

  position_inj : (i j id : ℕ) → i < n → j < n → index i ≡ some id → index j ≡ some id → i ≡ j
  position_inj i j id hi hj ei ej =
      let a = h.filled i hi in let b = h.filled j hj in ground (arith, a.1, a.2, b.1, b.2)

  Nodup-collect_below : (k : ℕ) → k ≤ n → Nodup (collect index k)
  unfolding collect
  Nodup-collect_below zero le = Nodup-nil
  Nodup-collect_below (suc k) le = Nodup-append.1 (
    Nodup-collect_below k (omega arith),
    Nodup-to_list (index k),
    λ id m m'.
        collect-elim index k id ⊥_prop
          (λ i lt e.
            let same =
              position_inj i k id (omega arith) (omega arith) e (mem-to_list (index k) m') in
            absurd (omega arith))
          m,
  )

  -- And lists none twice.
  pub Nodup-collect : Nodup (collect index n)
  Nodup-collect = Nodup-collect_below n (omega arith)
