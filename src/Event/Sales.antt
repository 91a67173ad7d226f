-- ===== src/Event/Sales.antt =====
-- What reservations and registrations make of the stored events.
use zicket_contract.Base.{
  ltb, leb, if◌then◌else◌, ok_or, is_some, add_u32, add_u64, ok_or_inv, ok, Address, Symbol,
  require_auth, Env, ok-Ensures, bind-Ensures, if-Ensures, test-Ensures, Ensures, ℕ, zero, suc, ◌+◌,
  ◌≤◌, ◌≡◌, refl, ap, ◌∙◌, Bool, true, false, not, Option, none, some, arith,
}
use zicket_contract.Base.Int.{pos, eqb_ℤ}
use mathlib.Core.Path.{subst}
use zicket_contract.Event.Types.{
  TicketTier, Event, Reservation, Store, active, invalid_input, event_not_active, event_sold_out,
  already_registered, tier_not_found, tier_sold_out,
}
use zicket_contract.Event.Storage.{
  get_event, save_event, update_event, is_registered, get_attendees_count, save_registration,
  save_reservation, get_reservation, remove_reservation, increment_free_claim_count,
  set_last_free_claim,
}
use zicket_contract.Event.Tiers.{tier_at, tier_at-At, At}
use zicket_contract.Event.Evolution.{Advances-refl, saved-Advances, Advances}
use zicket_contract.Event.Changes.{
  Reseats-trans, Reseats-Evolves, unreserve-Reseats, reserve_seat-Reseats, add_u32_value,
  sell-Evolves, Reseats,
}
use zicket_contract.Event.Status.{is_active}
use zicket_contract.Event.Registration.{
  require_settleable_privacy, tier_full, unreserve, reserve_seat, new_reservation,
  renew_reservation, reserve_ticket, release_expired_reservation, check_claims, is_free,
  check_reservation, check_registration, sell, claim_loop, count_claims, record_registration,
  check_seats, record_batch,
}
use zicket_contract.Event.Lifecycle.{Onward, moved-Advances, get_event-stored, update_event-stores}
use zicket_contract.Event.Schedule.{is_active-status}

-- Storing an event whose tiers have only other reservations.
new_reservation-Onward :
    (env : Env) (attendee : Address) (event_id : Symbol) (tier_id : ℕ) (old event : Event)
    (s : Store)
    → s.event event_id ≡ some old
    → Reseats old event
    → Ensures (Onward s) (new_reservation env attendee event_id tier_id event s)
unfolding new_reservation save_event save_reservation
new_reservation-Onward env attendee event_id tier_id old event s got reseats =
    bind-Ensures (reserve_seat tier_id event) λ event' e.
      bind-Ensures (add_u64 env.timestamp 900) λ expires_at _. ok-Ensures (
        saved-Advances event_id got (
          Reseats-Evolves
            (Reseats-trans reseats ((reserve_seat-Reseats tier_id event).holds event' e))))

Reseats-refl : (event : Event) → Reseats event event
Reseats-refl event = record { rest = refl; numbered = λ h. h; sold = refl; capacity = refl }

renew_reservation-Onward :
    (env : Env) (attendee : Address) (event_id : Symbol) (tier_id : ℕ) (event : Event)
    (reservation : Option Reservation) (s : Store)
    → s.event event_id ≡ some event
    → Ensures (Onward s) (renew_reservation env attendee event_id tier_id event reservation s)
unfolding renew_reservation
renew_reservation-Onward env attendee event_id tier_id event none s got =
    new_reservation-Onward env attendee event_id tier_id event event s got (Reseats-refl event)
renew_reservation-Onward env attendee event_id tier_id event (some reservation) s got =
    if-Ensures (ltb env.timestamp reservation.expires_at) (λ _. ok-Ensures (Advances-refl s.event))
      (λ _. bind-Ensures (unreserve reservation.tier_id event) λ event' e.
        new_reservation-Onward env attendee event_id tier_id event event' s got
          ((unreserve-Reseats reservation.tier_id event).holds event' e))

pub reserve_ticket-Onward :
    (env : Env) (attendee : Address) (event_id : Symbol) (tier_id : ℕ) (s : Store)
    → Ensures (Onward s) (reserve_ticket env attendee event_id tier_id s)
unfolding reserve_ticket
reserve_ticket-Onward env attendee event_id tier_id s =
    bind-Ensures (require_auth env attendee) λ _ _. bind-Ensures (get_event event_id s) λ event got.
      test-Ensures (not (is_active event.status)) event_not_active λ _.
        test-Ensures (is_registered event_id attendee s) already_registered λ _.
          renew_reservation-Onward env attendee event_id tier_id event
            (s.reservation event_id attendee) s (get_event-stored event_id s got)

pub release_expired_reservation-Onward :
    (env : Env) (event_id : Symbol) (attendee : Address) (s : Store)
    → Ensures (Onward s) (release_expired_reservation env event_id attendee s)
unfolding release_expired_reservation save_event remove_reservation
release_expired_reservation-Onward env event_id attendee s =
    bind-Ensures (get_reservation event_id attendee s) λ reservation _.
      test-Ensures (ltb env.timestamp reservation.expires_at) invalid_input λ _.
        bind-Ensures (get_event event_id s) λ event got.
          bind-Ensures (unreserve reservation.tier_id event) λ event' e. ok-Ensures (
            saved-Advances event_id (get_event-stored event_id s got)
              (Reseats-Evolves ((unreserve-Reseats reservation.tier_id event).holds event' e)))

-- What the tests of a sale of this many tickets leave known.
pub record Sellable (count : ℕ) (event : Event) (found : ℕ × TicketTier) : Type 0 where
  pub stands : At found.1 found.0 event.tiers
  pub is_open : event.status ≡ active
  pub within : event.sold_count + count ≤ event.max_supply

pub check_registration-Sellable :
    (env : Env) (attendee : Address) (event_id : Symbol) (tier_id : ℕ) (event : Event) (s : Store)
    → Ensures (Sellable 1 event) (check_registration env attendee event_id tier_id event s)
unfolding check_registration
check_registration-Sellable env attendee event_id tier_id event s =
    test-Ensures (not (is_active event.status)) event_not_active λ was.
      bind-Ensures (require_settleable_privacy event_id s) λ _ _.
        bind-Ensures
          (if is_free (tier_at tier_id event.tiers)
            then check_claims env event_id attendee s
            else ok tt)
          λ _ _. test-Ensures (is_registered event_id attendee s) already_registered λ _.
            bind-Ensures (check_reservation env tier_id (s.reservation event_id attendee)) λ _ _.
              bind-Ensures (ok_or (tier_at tier_id event.tiers) tier_not_found) λ found e.
                test-Ensures (leb event.max_supply event.sold_count) event_sold_out λ left.
                  bind-Ensures
                    (if is_some (s.reservation event_id attendee)
                      then ok false
                      else tier_full found.1)
                    λ full _. test-Ensures full tier_sold_out λ _. ok-Ensures (record {
                      stands = (tier_at-At tier_id event.tiers found.0 found.1 (ok_or_inv _ _ e)).0;
                      is_open = is_active-status event.status was;
                      within = ground arith;
                    })

pub check_seats-within :
    (count : ℕ) (reserved : Bool) (tier : TicketTier) (event : Event)
    → Ensures
        (λ _. event.sold_count + count ≤ event.max_supply)
        (check_seats count reserved tier event)
unfolding check_seats
check_seats-within count reserved tier event =
    bind-Ensures (add_u32 event.sold_count count) λ sold_count e.
      test-Ensures (ltb event.max_supply sold_count) event_sold_out λ left.
        let value = add_u32_value event.sold_count count e in record { holds = λ _ _. ground arith }

-- A sale of the tier leaves the event stored with as many tickets more.
pub sold-Onward :
    (count : ℕ) (reserved : Bool) (found : ℕ × TicketTier) (event_id : Symbol) (event : Event)
    (s : Store)
    → s.event event_id ≡ some event
    → Sellable count event found
    → {r : TicketTier × Event} → sell count reserved found.0 found.1 event ≡ ok r
    → {t : Store} → update_event event_id r.1 s ≡ ok t
    → Onward s t
sold-Onward count reserved found event_id event s got sellable {r} sold saved =
    moved-Advances (update_event-stores event_id r.1 s saved) (
      saved-Advances event_id got (
        (sell-Evolves count reserved found.0 found.1 event sellable.stands sellable.is_open
            sellable.within).holds
          r sold))

claim_loop-event :
    (count : ℕ) (event_id : Symbol) (attendee : Address) (s : Store)
    → Ensures (λ t. t.event ≡ s.event) (claim_loop count event_id attendee s)
unfolding claim_loop increment_free_claim_count
claim_loop-event zero event_id attendee s = ok-Ensures refl
claim_loop-event (suc count) event_id attendee s =
    bind-Ensures (increment_free_claim_count event_id attendee s) λ t e. record {
      holds = λ u e'. (claim_loop-event count event_id attendee t).holds u e' ∙ ground arith;
    }

count_claims-event :
    (env : Env) (count : ℕ) (event_id : Symbol) (attendee : Address) (tier : TicketTier) (s : Store)
    → Ensures (λ t. t.event ≡ s.event) (count_claims env count event_id attendee tier s)
unfolding count_claims set_last_free_claim
count_claims-event env count event_id attendee tier s =
    if-Ensures (eqb_ℤ tier.price (pos 0))
      (λ _.
        bind-Ensures (claim_loop count event_id attendee s)
          λ t e. ok-Ensures ((claim_loop-event count event_id attendee s).holds t e))
      (λ _. ok-Ensures refl)

save_registration-event :
    (event_id : Symbol) (attendee : Address) (s : Store)
    → Ensures (λ t. t.event ≡ s.event) (save_registration event_id attendee s)
unfolding save_registration
save_registration-event event_id attendee s =
    bind-Ensures (add_u64 (get_attendees_count event_id s) 1) λ next _. ok-Ensures refl

-- A used reservation is taken away, and the events stay.
used_event :
    (reserved : Bool) (event_id : Symbol) (attendee : Address) (t : Store)
    → (if reserved then remove_reservation event_id attendee t else t).event ≡ t.event
unfolding remove_reservation
used_event true event_id attendee t = refl
used_event false event_id attendee t = refl

pub onward_from : {s t u : Symbol → Option Event} → t ≡ s → Advances t u → Advances s u
onward_from {u = u} same h = subst (λ x. Advances x u) same h

pub record_registration-Onward :
    (env : Env) (attendee : Address) (event_id : Symbol) (tier_id : ℕ) (found : ℕ × TicketTier)
    (event : Event) (s : Store)
    → s.event event_id ≡ some event
    → Sellable 1 event found
    → Ensures (Onward s) (record_registration env attendee event_id tier_id found.0 found.1 event s)
unfolding record_registration
record_registration-Onward env attendee event_id tier_id found event s got sellable =
    let reserved = is_some (s.reservation event_id attendee) in
    bind-Ensures (save_registration event_id attendee s) λ t e.
      let t' = if reserved then remove_reservation event_id attendee t else t in
      bind-Ensures (count_claims env 1 event_id attendee found.1 t') λ u e'.
        bind-Ensures (sell 1 reserved found.0 found.1 event) λ r sold.
          bind-Ensures (update_event event_id r.1 u) λ v saved.
            let same =
              (count_claims-event env 1 event_id attendee found.1 t').holds u e'
              ∙ used_event reserved event_id attendee t
              ∙ (save_registration-event event_id attendee s).holds t e in
            ok-Ensures (
              onward_from same (
                sold-Onward 1 reserved found event_id event u (ap (λ f. f event_id) same ∙ got)
                  sellable sold saved))

pub record_batch-Onward :
    (env : Env) (attendee : Address) (event_id : Symbol) (tier_id count : ℕ)
    (found : ℕ × TicketTier) (event : Event) (s : Store)
    → s.event event_id ≡ some event
    → Sellable count event found
    → Ensures (Onward s) (record_batch env attendee event_id tier_id count found.0 found.1 event s)
unfolding record_batch
record_batch-Onward env attendee event_id tier_id count found event s got sellable =
    let reserved = is_some (s.reservation event_id attendee) in
    bind-Ensures
      (if is_registered event_id attendee s then ok s else save_registration event_id attendee s)
      λ t e. bind-Ensures (count_claims env count event_id attendee found.1 t) λ u e'.
        bind-Ensures (sell count reserved found.0 found.1 event) λ r sold.
          let u' = if reserved then remove_reservation event_id attendee u else u in
          bind-Ensures (update_event event_id r.1 u') λ v saved.
            let registered =
              if-Ensures {P = λ t. t.event ≡ s.event} (is_registered event_id attendee s)
                (λ _. ok-Ensures refl) (λ _. save_registration-event event_id attendee s) in
            let same =
              used_event reserved event_id attendee u
              ∙ (count_claims-event env count event_id attendee found.1 t).holds u e'
              ∙ registered.holds t e in
            ok-Ensures (
              onward_from same (
                sold-Onward count reserved found event_id event u' (ap (λ f. f event_id) same ∙ got)
                  sellable sold saved))
