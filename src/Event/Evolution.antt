-- ===== src/Event/Evolution.antt =====
-- How one call of the event contract may change an event: the diagram of its status, the seats that
-- its tiers add up to, and what never changes.
use zicket_contract.Base.{
  Option-cases, eq-cases, u32_max, Address, Symbol, update, ℕ, ◌≤◌, ◌≡◌, refl, sym, ◌∙◌, ◌⊎◌, inl,
  inr, Option, none, some, arith,
}
use mathlib.Core.Path.{subst}
use zicket_contract.Event.Types.{
  EventStatus, Event, upcoming, active, completed, cancelled, postponed,
}
use zicket_contract.Event.Tiers.{total_sold, total_capacity, Numbered}

-- The diagram of the status: from, to.
infix 50 ◌⟶◌
pub data ◌⟶◌ : EventStatus → EventStatus → Type 0 where
  stays : {status : EventStatus} → status ⟶ status
  opens : upcoming ⟶ active
  ends : active ⟶ completed
  postpones : active ⟶ postponed
  resumes : postponed ⟶ active
  cancels_upcoming : upcoming ⟶ cancelled
  cancels_active : active ⟶ cancelled
  cancels_postponed : postponed ⟶ cancelled

-- The seats of an event: the tiers are numbered by their positions, what is sold and what can be
-- sold are the sums over the tiers, and no more is sold than there is.
pub record HasSeats (event : Event) : Type 0 where
  pub numbered : Numbered 0 event.tiers
  pub sold_total : total_sold event.tiers ≡ event.sold_count
  pub capacity_total : total_capacity event.tiers ≡ event.max_supply
  pub bounded : event.sold_count ≤ event.max_supply
  pub fits : event.max_supply ≤ u32_max
  pub unsold : event.status ≡ upcoming → event.sold_count ≡ 0

-- What a call may make of an event.
pub record Evolves (old new : Event) : Type 0 where
  pub same_id : new.event_id ≡ old.event_id
  pub same_organizer : new.organizer ≡ old.organizer
  pub same_token : new.payout_token ≡ old.payout_token
  pub same_splits : new.revenue_splits ≡ old.revenue_splits
  pub step : old.status ⟶ new.status
  pub sale : (old.status ≡ active) ⊎ (new.sold_count ≡ old.sold_count)
  pub grows : old.sold_count ≤ new.sold_count
  pub seats : HasSeats old → HasSeats new

pub Evolves-refl : (event : Event) → Evolves event event
Evolves-refl event = record {
  same_id = refl;
  same_organizer = refl;
  same_token = refl;
  same_splits = refl;
  step = stays;
  sale = inr refl;
  grows = omega arith;
  seats = λ h. h;
}

-- What a call may make of the stored events: each of them evolves, none is removed, and a new one
-- is upcoming and has its seats.
pub record Advances (s t : Symbol → Option Event) : Type 0 where
  pub kept :
      (id : Symbol) (old : Event)
      → s id ≡ some old
      → (new : Event) × (t id ≡ some new) × Evolves old new
  pub fresh :
      (id : Symbol) (new : Event)
      → s id ≡ none
      → t id ≡ some new
      → HasSeats new × (new.status ≡ upcoming)

pub Advances-refl : (s : Symbol → Option Event) → Advances s s
Advances-refl s = record {
  kept = λ id old e. (old, e, Evolves-refl old);
  fresh = λ id new e e'. ground arith;
}

pub same-Advances : {s t : Symbol → Option Event} → t ≡ s → Advances s t
same-Advances {s} same = subst (λ u. Advances s u) (sym same) (Advances-refl s)

-- One event is stored again.
pub saved-Advances :
    {s : Symbol → Option Event} (event_id : Symbol) {old new : Event}
    → s event_id ≡ some old
    → Evolves old new
    → Advances s (update s event_id (some new))
saved-Advances {s} event_id {old} {new} got evolves = record {
  kept = λ id e stored. elim (eq-cases id event_id) [
    | inl (t, same) ↦
        let this : old ≡ e = ground arith in
        (new, ground arith, subst (λ x. Evolves x new) this evolves)
    | inr (f, differ) ↦ (e, ground arith, Evolves-refl e)
  ];
  fresh = λ id e missing stored. ground arith;
}

-- A new event is stored.
pub created-Advances :
    {s : Symbol → Option Event} (event_id : Symbol) {new : Event}
    → s event_id ≡ none
    → HasSeats new
    → new.status ≡ upcoming
    → Advances s (update s event_id (some new))
created-Advances {s} event_id {new} missing seats status = record {
  kept = λ id e stored. (e, ground arith, Evolves-refl e);
  fresh = λ id e nothing stored. elim (eq-cases id event_id) [
    | inl (t, same) ↦
        let this : new ≡ e = ground arith in
        subst (λ x. HasSeats x × (x.status ≡ upcoming)) this (seats, status)
    | inr (f, differ) ↦ ground arith
  ];
}

-- Events that had their seats have them after a call.
pub advanced-HasSeats :
    {s t : Symbol → Option Event}
    → ((id : Symbol) (event : Event) → s id ≡ some event → HasSeats event)
    → Advances s t
    → (id : Symbol) (event : Event) → t id ≡ some event
    → HasSeats event
advanced-HasSeats {s} {t} h advances id event stored = elim (Option-cases (s id)) [
  | inl missing ↦ (advances.fresh id event missing stored).0
  | inr (old, was) ↦
      let (new, now, evolves) = advances.kept id old was in
      let this : new ≡ event = ground arith in subst HasSeats this (evolves.seats (h id old was))
]

-- An event that is over, with what of it is final.
pub record IsOver (status : EventStatus) (sold : ℕ) (organizer : Address) (event : Event)
    : Type 0 where
  pub same_status : event.status ≡ status
  pub same_sold : event.sold_count ≡ sold
  pub same_organizer : event.organizer ≡ organizer

from_closed : {a b : EventStatus} → a ⟶ b → (a ≡ completed) ⊎ (a ≡ cancelled) → b ≡ a
from_closed stays e = refl
from_closed opens e = absurd (ground arith)
from_closed ends e = absurd (ground arith)
from_closed postpones e = absurd (ground arith)
from_closed resumes e = absurd (ground arith)
from_closed cancels_upcoming e = absurd (ground arith)
from_closed cancels_active e = absurd (ground arith)
from_closed cancels_postponed e = absurd (ground arith)

-- An event that is over stays so.
pub advanced-IsOver :
    {s t : Symbol → Option Event} {status : EventStatus} {sold : ℕ} {organizer : Address}
    → (status ≡ completed) ⊎ (status ≡ cancelled)
    → Advances s t
    → (id : Symbol) → (event : Event) × (s id ≡ some event) × IsOver status sold organizer event
    → (event : Event) × (t id ≡ some event) × IsOver status sold organizer event
advanced-IsOver {status = status} {sold = sold} closed advances id (old, was, over) =
    let (new, now, evolves) = advances.kept id old was in
    let same = over.same_status in
    let closed' : (old.status ≡ completed) ⊎ (old.status ≡ cancelled) = ground arith in
    let sold_same : new.sold_count ≡ old.sold_count = elim evolves.sale [
      | inl was_active ↦ absurd (ground arith)
      | inr e ↦ e
    ] in
    (
      new,
      now,
      record {
        same_status = from_closed evolves.step closed' ∙ same;
        same_sold = sold_same ∙ over.same_sold;
        same_organizer = evolves.same_organizer ∙ over.same_organizer;
      },
    )
