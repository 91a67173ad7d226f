-- ===== src/Event/Tiers.antt =====
-- The tiers of an event, as the loops `for i in 0..event.tiers.len()` of contracts/event/src/lib.rs
-- find and change them, and what they add up to.
use zicket_contract.Base.{
  ◌==◌, if◌then◌else◌, Bool-cases, Option-cases, length, ℕ, zero, suc, ◌+◌, ◌≡◌, sym, ◌∙◌, inl, inr,
  Option, none, some, List, [], ◌∷◌, ◌++◌, arith,
}
use zicket_contract.Event.Types.{TicketTier}

-- An index with the tier that is found there, one position further on.
abbrev shift : Option (ℕ × TicketTier) → Option (ℕ × TicketTier)
shift none = none
shift (some (i, tier)) = some (suc i, tier)

-- The first tier with this id, and its index.
unfoldable pub tier_at : ℕ → List TicketTier → Option (ℕ × TicketTier)
tier_at tier_id [] = none
tier_at tier_id (tier ∷ tiers) =
    let rest = tier_at tier_id tiers in
    if tier.tier_id == tier_id then some (0, tier) else shift rest

-- `event.tiers.set(i, tier)`
unfoldable pub set_tier : ℕ → TicketTier → List TicketTier → List TicketTier
set_tier i tier [] = []
set_tier zero tier (_ ∷ tiers) = tier ∷ tiers
set_tier (suc i) tier (first ∷ tiers) = first ∷ set_tier i tier tiers

unfoldable pub total_sold : List TicketTier → ℕ
total_sold [] = 0
total_sold (tier ∷ tiers) = tier.sold + total_sold tiers

unfoldable pub total_capacity : List TicketTier → ℕ
total_capacity [] = 0
total_capacity (tier ∷ tiers) = tier.capacity + total_capacity tiers

-- The ids are the positions, from `i` on.
unfoldable pub Numbered : ℕ → List TicketTier → Type 0
Numbered i [] = Unit
Numbered i (tier ∷ tiers) = (tier.tier_id ≡ i) × Numbered (suc i) tiers

-- The tier stands at this index.
pub data At : TicketTier → ℕ → List TicketTier → Type 0 where
  here : {tier : TicketTier} {tiers : List TicketTier} → At tier 0 (tier ∷ tiers)
  there :
      {tier first : TicketTier} {i : ℕ} {tiers : List TicketTier}
      → At tier i tiers
      → At tier (suc i) (first ∷ tiers)

pub tier_at-At :
    (tier_id : ℕ) (tiers : List TicketTier) (i : ℕ) (tier : TicketTier)
    → tier_at tier_id tiers ≡ some (i, tier)
    → At tier i tiers × (tier.tier_id ≡ tier_id)
unfolding tier_at
tier_at-At tier_id [] i tier found = ground arith
tier_at-At tier_id (first ∷ tiers) i tier found = elim (Bool-cases (first.tier_id == tier_id)) [
  | inl same ↦
      let at : 0 ≡ i = ground arith in
      let this : first ≡ tier = ground arith in
      let id : first.tier_id ≡ tier_id = ground arith in rw (sym at, sym this) (here, id)
  | inr other ↦ elim (Option-cases (tier_at tier_id tiers)) [
    | inl nothing ↦ ground arith
    | inr ((j, t), e) ↦
        let at : suc j ≡ i = ground arith in
        let this : t ≡ tier = ground arith in
        let (there_at, id) = tier_at-At tier_id tiers j t e in
        rw (sym at, sym this) (there there_at, id)
  ]
]

pub total_sold-set_tier :
    {tier : TicketTier} {i : ℕ} {tiers : List TicketTier}
    → At tier i tiers
    → (tier' : TicketTier)
    → total_sold (set_tier i tier' tiers) + tier.sold ≡ total_sold tiers + tier'.sold
unfolding set_tier total_sold
total_sold-set_tier here tier' = omega arith
total_sold-set_tier (there at) tier' = let h = total_sold-set_tier at tier' in omega arith

pub total_capacity-set_tier :
    {tier : TicketTier} {i : ℕ} {tiers : List TicketTier}
    → At tier i tiers
    → (tier' : TicketTier)
    → total_capacity (set_tier i tier' tiers) + tier.capacity
      ≡ total_capacity tiers + tier'.capacity
unfolding set_tier total_capacity
total_capacity-set_tier here tier' = omega arith
total_capacity-set_tier (there at) tier' = let h = total_capacity-set_tier at tier' in omega arith

pub set_tier-Numbered :
    {tier : TicketTier} {i : ℕ} {tiers : List TicketTier}
    → At tier i tiers
    → (tier' : TicketTier) (first : ℕ) → tier'.tier_id ≡ tier.tier_id
    → Numbered first tiers
    → Numbered first (set_tier i tier' tiers)
unfolding set_tier Numbered
set_tier-Numbered here tier' first same (head, tail) = (same ∙ head, tail)
set_tier-Numbered (there at) tier' first same (head, tail) =
    (head, set_tier-Numbered at tier' (suc first) same tail)

pub append-total_sold :
    (tiers : List TicketTier) (tier : TicketTier)
    → total_sold (tiers ++ (tier ∷ [])) ≡ total_sold tiers + tier.sold
unfolding total_sold
append-total_sold [] tier = omega arith
append-total_sold (first ∷ tiers) tier = let h = append-total_sold tiers tier in omega arith

pub append-total_capacity :
    (tiers : List TicketTier) (tier : TicketTier)
    → total_capacity (tiers ++ (tier ∷ [])) ≡ total_capacity tiers + tier.capacity
unfolding total_capacity
append-total_capacity [] tier = omega arith
append-total_capacity (first ∷ tiers) tier = let h = append-total_capacity tiers tier in omega arith

pub append-Numbered :
    (tiers : List TicketTier) (tier : TicketTier) (first : ℕ)
    → Numbered first tiers
    → tier.tier_id ≡ first + length tiers
    → Numbered first (tiers ++ (tier ∷ []))
unfolding Numbered
append-Numbered [] tier first numbered id = (id ∙ omega arith, tt)
append-Numbered (t ∷ tiers) tier first (head, tail) id =
    (head, append-Numbered tiers tier (suc first) tail (omega arith))
