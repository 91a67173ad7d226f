-- ===== src/Event/Changes.antt =====
-- The changes that the entry points of the event contract make to an event, each within what one
-- call may make of it.
use zicket_contract.Base.{
  if◌then◌else◌, err_if, ok_or, u32_max, add_u32, ok_or_inv, ok, ok-Ensures, bind-Ensures, Ensures,
  ℕ, ◌+◌, ◌-◌, ◌≤◌, ◌≡◌, refl, sym, ap, ◌∙◌, ◌⊎◌, inl, inr, Bool, true, some, List, arith,
}
use zicket_contract.CommonUtils.Splits.{checked_add}
use mathlib.Core.Path.{subst}
use zicket_contract.Event.Types.{
  EventStatus, TicketTier, Event, upcoming, active, completed, tier_not_found, tier_sold_out,
}
use zicket_contract.Event.Tiers.{
  tier_at, set_tier, total_sold, total_capacity, Numbered, tier_at-At, total_sold-set_tier,
  total_capacity-set_tier, set_tier-Numbered, At,
}
use zicket_contract.Event.Evolution.{
  ◌⟶◌, HasSeats, Evolves, stays, opens, ends, postpones, resumes, cancels_upcoming, cancels_active,
  cancels_postponed,
}
use zicket_contract.Event.Status.{valid_transition}
use zicket_contract.Event.Registration.{tier_full, unreserve, reserve_seat, sell}

pub into_upcoming : {a b : EventStatus} → a ⟶ b → b ≡ upcoming → a ≡ upcoming
into_upcoming stays e = e
into_upcoming opens e = absurd (ground arith)
into_upcoming ends e = absurd (ground arith)
into_upcoming postpones e = absurd (ground arith)
into_upcoming resumes e = absurd (ground arith)
into_upcoming cancels_upcoming e = absurd (ground arith)
into_upcoming cancels_active e = absurd (ground arith)
into_upcoming cancels_postponed e = absurd (ground arith)

-- A new status and new dates.
pub restatus_Evolves :
    (event : Event) (status : EventStatus) (start end : ℕ)
    → event.status ⟶ status
    → Evolves event
        (record event { status = status; event_start_ledger = start; event_end_ledger = end })
restatus_Evolves event status start end step = record {
  same_id = refl;
  same_organizer = refl;
  same_token = refl;
  same_splits = refl;
  step = step;
  sale = inr refl;
  grows = omega arith;
  seats = λ h. record {
    numbered = h.numbered;
    sold_total = h.sold_total;
    capacity_total = h.capacity_total;
    bounded = h.bounded;
    fits = h.fits;
    unsold = λ e. h.unsold (into_upcoming step e);
  };
}

valid_transition-cases :
    (a b : EventStatus)
    → valid_transition a b ≡ true
    → (a ≡ upcoming) × (b ≡ active) ⊎ (a ≡ active) × (b ≡ completed)
unfolding valid_transition
valid_transition-cases a b e = ground arith

-- The transitions that `update_event_status` lets through are edges of the diagram.
pub valid_transition-⟶ : (a b : EventStatus) → valid_transition a b ≡ true → a ⟶ b
unfolding valid_transition
valid_transition-⟶ a b e = elim (valid_transition-cases a b e) [
  | inl (from, to) ↦ rw (from, to) opens
  | inr (from, to) ↦ rw (from, to) ends
]

-- The tiers are changed in what is reserved only.
pub record Reseats (old new : Event) : Type 0 where
  pub rest : new ≡ record old { tiers = new.tiers }
  pub numbered : Numbered 0 old.tiers → Numbered 0 new.tiers
  pub sold : total_sold new.tiers ≡ total_sold old.tiers
  pub capacity : total_capacity new.tiers ≡ total_capacity old.tiers

pub Reseats-trans : {a b c : Event} → Reseats a b → Reseats b c → Reseats a c
Reseats-trans {a} {b} {c} f g = record {
  rest = g.rest ∙ ap {A = Event} {B = Event} (λ x. record x { tiers = c.tiers }) f.rest;
  numbered = λ h. g.numbered (f.numbered h);
  sold = g.sold ∙ f.sold;
  capacity = g.capacity ∙ f.capacity;
}

-- The event with other tiers and another supply.
pub resized_Evolves :
    (event : Event) (tiers : List TicketTier) (max_supply : ℕ)
    → (HasSeats event → Numbered 0 tiers)
    → (HasSeats event → total_sold tiers ≡ total_sold event.tiers)
    → (HasSeats event → total_capacity tiers ≡ max_supply)
    → (HasSeats event → event.sold_count ≤ max_supply)
    → (HasSeats event → max_supply ≤ u32_max)
    → Evolves event (record event { tiers = tiers; max_supply = max_supply })
resized_Evolves event tiers max_supply numbered sold capacity bounded fits = record {
  same_id = refl;
  same_organizer = refl;
  same_token = refl;
  same_splits = refl;
  step = stays;
  sale = inr refl;
  grows = omega arith;
  seats = λ h. record {
    numbered = numbered h;
    sold_total = sold h ∙ h.sold_total;
    capacity_total = capacity h;
    bounded = bounded h;
    fits = fits h;
    unsold = h.unsold;
  };
}

pub Reseats-Evolves : {old new : Event} → Reseats old new → Evolves old new
Reseats-Evolves {old} {new} r =
    subst (λ x. Evolves old x) (sym r.rest)
      (resized_Evolves old new.tiers old.max_supply (λ h. r.numbered h.numbered) (λ h. r.sold)
        (λ h. r.capacity ∙ h.capacity_total) (λ h. h.bounded) (λ h. h.fits))

-- A tier takes the place of one that has sold and can sell as much.
pub set_tier-Reseats :
    (event : Event) {tier : TicketTier} {i : ℕ}
    → At tier i event.tiers
    → (reserved : ℕ)
    → Reseats event
        (record event { tiers = set_tier i (record tier { reserved = reserved }) event.tiers })
set_tier-Reseats event {tier} {i} at reserved =
    let tier' : TicketTier = record tier { reserved = reserved } in
    let sold = total_sold-set_tier at tier' in
    let capacity = total_capacity-set_tier at tier' in
    record {
      rest = refl;
      numbered = λ h. set_tier-Numbered at tier' 0 refl h;
      sold = omega arith;
      capacity = omega arith;
    }

-- More tickets are sold of a tier, within the supply.
pub sold_Evolves :
    (event : Event) {tier : TicketTier} {i : ℕ}
    → At tier i event.tiers
    → (count reserved : ℕ) → event.status ≡ active
    → event.sold_count + count ≤ event.max_supply
    → Evolves event (record event {
      sold_count = event.sold_count + count;
      tiers =
          set_tier i (record tier { sold = tier.sold + count; reserved = reserved }) event.tiers;
    })
sold_Evolves event {tier} {i} at count reserved is_open within =
    let tier' : TicketTier = record tier { sold = tier.sold + count; reserved = reserved } in
    let sold = total_sold-set_tier at tier' in
    let capacity = total_capacity-set_tier at tier' in
    record {
      same_id = refl;
      same_organizer = refl;
      same_token = refl;
      same_splits = refl;
      step = stays;
      sale = inl is_open;
      grows = omega arith;
      seats = λ h. record {
        numbered = set_tier-Numbered at tier' 0 refl h.numbered;
        sold_total = (let e = h.sold_total in omega arith);
        capacity_total = (let e = h.capacity_total in omega arith);
        bounded = within;
        fits = h.fits;
        unsold = λ e. absurd (ground arith);
      };
    }

pub unreserve-Reseats :
    (tier_id : ℕ) (event : Event) → Ensures (Reseats event) (unreserve tier_id event)
unfolding unreserve
unreserve-Reseats tier_id event =
    bind-Ensures (ok_or (tier_at tier_id event.tiers) tier_not_found) λ found got. ok-Ensures (
      set_tier-Reseats event (tier_at-At tier_id event.tiers found.0 found.1 (ok_or_inv _ _ got)).0
        (found.1.reserved - 1))

pub reserve_seat-Reseats :
    (tier_id : ℕ) (event : Event) → Ensures (Reseats event) (reserve_seat tier_id event)
unfolding reserve_seat
reserve_seat-Reseats tier_id event =
    bind-Ensures (ok_or (tier_at tier_id event.tiers) tier_not_found) λ found got.
      bind-Ensures (tier_full found.1) λ full _. bind-Ensures (err_if full tier_sold_out) λ _ _.
        bind-Ensures (add_u32 found.1.reserved 1) λ reserved _. ok-Ensures (
          set_tier-Reseats event
            (tier_at-At tier_id event.tiers found.0 found.1 (ok_or_inv _ _ got)).0 reserved)

pub add_u32_value : {E : Type 0} (a b : ℕ) {c : ℕ} → add_u32 {E = E} a b ≡ ok c → c ≡ a + b
add_u32_value a b e = ground arith

pub sell-Evolves :
    (count : ℕ) (reserved : Bool) (index : ℕ) (tier : TicketTier) (event : Event)
    → At tier index event.tiers
    → event.status ≡ active
    → event.sold_count + count ≤ event.max_supply
    → Ensures (λ r. Evolves event r.1) (sell count reserved index tier event)
unfolding sell
sell-Evolves count reserved index tier event at is_open within =
    bind-Ensures (add_u32 tier.sold count) λ sold e.
      bind-Ensures (add_u32 event.sold_count count) λ sold_count e'. ok-Ensures (
        rw (add_u32_value tier.sold count e, add_u32_value event.sold_count count e')
          (sold_Evolves event at count (if reserved then tier.reserved - 1 else tier.reserved)
            is_open within))

-- A checked sum is the sum, and fits.
pub checked_add_value : (a b : ℕ) {c : ℕ} → checked_add a b ≡ some c → (c ≡ a + b) × (c ≤ u32_max)
checked_add_value a b e = ground arith
