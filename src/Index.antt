-- ===== src/Index.antt =====
-- The pattern of the "map-based" indexes in contracts/ticket/src/storage.rs and
-- contracts/payments/src/storage.rs: a membership map that holds each item's position, a map from
-- positions to items, and a count. Removal moves the last item into the gap.
pub mod Listing
use zicket_contract.Base.{
  ℕ, zero, suc, ◌+◌, ◌-◌, ◌<◌, ◌≡◌, ◌≢◌, ◌⊎◌, inl, inr, refl, sym, ◌∙◌, ap, Option, none, some,
  List, [], ◌++◌, arith, update, collect, to_list, eq-cases, lt-cases,
}

-- Members and positions below the count are paired up one to one.
pub record IsIndexed (member index : ℕ → Option ℕ) (count : ℕ) : Type 0 where
  pub placed : (id i : ℕ) → member id ≡ some i → (i < count) × (index i ≡ some id)
  pub filled : (i : ℕ) → i < count → (id : ℕ) × (index i ≡ some id) × (member id ≡ some i)

pub IsIndexed-empty : IsIndexed (λ _. none) (λ _. none) 0
IsIndexed-empty = record { placed = λ id i e. cc; filled = λ i h. absurd (omega arith) }

module _ {member index : ℕ → Option ℕ} {n : ℕ} (h : IsIndexed member index n) where
  -- A new item goes to the end.
  module _ (id : ℕ) (new : member id ≡ none) where
    add_placed :
        (j i : ℕ)
        → update member id (some n) j ≡ some i
        → (i < n + 1) × (update index n (some id) i ≡ some j)
    add_placed j i e = ground (arith, h.placed j i)

    add_filled :
        (i : ℕ)
        → i < n + 1
        → (j : ℕ) × (update index n (some id) i ≡ some j) × (update member id (some n) j ≡ some i)
    add_filled i lt = elim (eq-cases i n) [
      | inl (t, e) ↦ (id, ground arith, ground arith)
      | inr (t, e) ↦ let old = h.filled i (omega arith) in (old.0, ground arith, ground arith)
    ]

    pub IsIndexed-add : IsIndexed (update member id (some n)) (update index n (some id)) (n + 1)
    IsIndexed-add = record { placed = add_placed; filled = add_filled }

  -- The last item is removed.
  module _ (id i : ℕ) (held : member id ≡ some i) (last : i ≡ n - 1) where
    remove_last_placed :
        (j k : ℕ)
        → update member id none j ≡ some k
        → (k < n - 1) × (update index (n - 1) none k ≡ some j)
    remove_last_placed j k e = ground (arith, h.placed j k, h.placed id i held)

    remove_last_filled :
        (k : ℕ)
        → k < n - 1
        → (j : ℕ) × (update index (n - 1) none k ≡ some j) × (update member id none j ≡ some k)
    remove_last_filled k lt =
        let old = h.filled k (omega arith) in (old.0, ground arith, ground (arith, old.2))

    pub IsIndexed-remove_last :
        IsIndexed (update member id none) (update index (n - 1) none) (n - 1)
    IsIndexed-remove_last = record { placed = remove_last_placed; filled = remove_last_filled }

  -- Another item is removed, and the last one takes its place.
  module _ (id i moved : ℕ) (held : member id ≡ some i) (inner : i < n - 1)
      (last : index (n - 1) ≡ some moved) where
    moved-held : member moved ≡ some (n - 1)
    moved-held = let old = h.filled (n - 1) (omega arith) in ground (arith, old.1, old.2)

    remove_swap_placed :
        (j k : ℕ)
        → update (update member id none) moved (some i) j ≡ some k
        → (k < n - 1) × (update (update index i (some moved)) (n - 1) none k ≡ some j)
    remove_swap_placed j k e = ground (arith, h.placed j k, h.placed id i held)

    remove_swap_filled :
        (k : ℕ)
        → k < n - 1
        → (j : ℕ) × (update (update index i (some moved)) (n - 1) none k ≡ some j)
          × (update (update member id none) moved (some i) j ≡ some k)
    remove_swap_filled k lt = elim (eq-cases k i) [
      | inl (t, e) ↦ (moved, ground arith, ground arith)
      | inr (t, e) ↦
          let old = h.filled k (omega arith) in
          (old.0, ground arith, ground (arith, old.2, moved-held))
    ]

    pub IsIndexed-remove_swap :
        IsIndexed
          (update (update member id none) moved (some i))
          (update (update index i (some moved)) (n - 1) none)
          (n - 1)
    IsIndexed-remove_swap = record { placed = remove_swap_placed; filled = remove_swap_filled }
