-- ===== src/Event/Records.antt =====
-- What a registration writes in the event contract and in the ticket contract.
use zicket_contract.Base.{
  if◌then◌else◌, is_some, add_u32, add_u64, ok, Address, Symbol, update, require_auth, Env,
  ok-Ensures, bind-Ensures, if-Ensures, Ensures, ℕ, zero, suc, ◌+◌, ◌≡◌, refl, ap, ◌∙◌, Bool, true,
  false, some, arith,
}
use zicket_contract.Base.Int.{pos, eqb_ℤ}
use zicket_contract.Ticket
use zicket_contract.Ticket.Types.{Ticket, TicketStatus, valid}
use zicket_contract.Ticket.Storage.{
  get_owner_tickets_count, get_event_tickets_count, add_owner_ticket, add_event_ticket,
}
use zicket_contract.Ticket.Contract.{
  mint_ticket, store_ticket, new_ticket, read_next_ticket_id, write_next_ticket_id, mint_authority,
}
use zicket_contract.Event.Types.{TicketTier, Event, Store}
use zicket_contract.Event.Storage.{
  save_event, update_event, get_attendees_count, save_registration, remove_reservation,
  increment_free_claim_count, set_last_free_claim,
}
use zicket_contract.Event.Registration.{sell, claim_loop, count_claims, record_registration}
use zicket_contract.Event.Changes.{add_u32_value}
use zicket_contract.Event.Lifecycle.{update_event-stores}

-- The attendee is registered, and the event has sold this many more.
pub record Enrolled (event_id : Symbol) (attendee : Address) (count : ℕ) (event : Event) (t : Store)
    : Type 0 where
  pub registered : t.registration event_id attendee ≡ some true
  pub sold :
      (later : Event) × (t.event event_id ≡ some later)
      × (later.sold_count ≡ event.sold_count + count)

save_registration-registers :
    (event_id : Symbol) (attendee : Address) (s : Store)
    → Ensures
        (λ t. t.registration event_id attendee ≡ some true)
        (save_registration event_id attendee s)
unfolding save_registration
save_registration-registers event_id attendee s =
    bind-Ensures (add_u64 (get_attendees_count event_id s) 1) λ next _. ok-Ensures (ground arith)

claim_loop-registration :
    (count : ℕ) (event_id : Symbol) (attendee : Address) (s : Store)
    → Ensures (λ t. t.registration ≡ s.registration) (claim_loop count event_id attendee s)
unfolding claim_loop increment_free_claim_count
claim_loop-registration zero event_id attendee s = ok-Ensures refl
claim_loop-registration (suc count) event_id attendee s =
    bind-Ensures (increment_free_claim_count event_id attendee s) λ t e. record {
      holds = λ u e'. (claim_loop-registration count event_id attendee t).holds u e' ∙ ground arith;
    }

count_claims-registration :
    (env : Env) (count : ℕ) (event_id : Symbol) (attendee : Address) (tier : TicketTier) (s : Store)
    → Ensures
        (λ t. t.registration ≡ s.registration)
        (count_claims env count event_id attendee tier s)
unfolding count_claims set_last_free_claim
count_claims-registration env count event_id attendee tier s =
    if-Ensures (eqb_ℤ tier.price (pos 0))
      (λ _.
        bind-Ensures (claim_loop count event_id attendee s)
          λ t e. ok-Ensures ((claim_loop-registration count event_id attendee s).holds t e))
      (λ _. ok-Ensures refl)

used_registration :
    (reserved : Bool) (event_id : Symbol) (attendee : Address) (t : Store)
    → (if reserved then remove_reservation event_id attendee t else t).registration ≡ t.registration
unfolding remove_reservation
used_registration true event_id attendee t = refl
used_registration false event_id attendee t = refl

update_event-registration :
    (event_id : Symbol) (event : Event) (s : Store) {t : Store}
    → update_event event_id event s ≡ ok t
    → t.registration ≡ s.registration
unfolding update_event save_event
update_event-registration event_id event s e = ground arith

sell-counts :
    (count : ℕ) (reserved : Bool) (index : ℕ) (tier : TicketTier) (event : Event)
    → Ensures
        (λ r. r.1.sold_count ≡ event.sold_count + count)
        (sell count reserved index tier event)
unfolding sell
sell-counts count reserved index tier event = bind-Ensures (add_u32 tier.sold count) λ sold _.
    bind-Ensures (add_u32 event.sold_count count)
      λ sold_count e. ok-Ensures (add_u32_value event.sold_count count e)

pub record_registration-Enrolled :
    (env : Env) (attendee : Address) (event_id : Symbol) (tier_id index : ℕ) (tier : TicketTier)
    (event : Event) (s : Store)
    → Ensures
        (Enrolled event_id attendee 1 event)
        (record_registration env attendee event_id tier_id index tier event s)
unfolding record_registration
record_registration-Enrolled env attendee event_id tier_id index tier event s =
    let reserved = is_some (s.reservation event_id attendee) in
    bind-Ensures (save_registration event_id attendee s) λ t e.
      let t' = if reserved then remove_reservation event_id attendee t else t in
      bind-Ensures (count_claims env 1 event_id attendee tier t') λ u e'.
        bind-Ensures (sell 1 reserved index tier event) λ r sold.
          bind-Ensures (update_event event_id r.1 u) λ v saved.
            let same =
              update_event-registration event_id r.1 u saved
              ∙ (count_claims-registration env 1 event_id attendee tier t').holds u e'
              ∙ used_registration reserved event_id attendee t in
            ok-Ensures (record {
              registered =
                  ap (λ f. f event_id attendee) same
                  ∙ (save_registration-registers event_id attendee s).holds t e;
              sold = (
                r.1,
                ap (λ f. f event_id) (update_event-stores event_id r.1 u saved) ∙ ground arith,
                (sell-counts 1 reserved index tier event).holds r sold,
              );
            })

add_owner_ticket-tickets :
    (owner : Address) (ticket_id : ℕ) (s : Ticket.Types.Store)
    → Ensures (λ t. t.tickets ≡ s.tickets) (add_owner_ticket owner ticket_id s)
unfolding add_owner_ticket
add_owner_ticket-tickets owner ticket_id s =
    bind-Ensures (add_u64 (get_owner_tickets_count owner s) 1) λ next _. ok-Ensures refl

add_event_ticket-tickets :
    (event_id : Symbol) (ticket_id : ℕ) (s : Ticket.Types.Store)
    → Ensures (λ t. t.tickets ≡ s.tickets) (add_event_ticket event_id ticket_id s)
unfolding add_event_ticket
add_event_ticket-tickets event_id ticket_id s =
    bind-Ensures (add_u64 (get_event_tickets_count event_id s) 1) λ next _. ok-Ensures refl

store_ticket-tickets :
    (ticket : Ticket) (s : Ticket.Types.Store)
    → Ensures
        (λ t. t.tickets ≡ update s.tickets ticket.ticket_id (some ticket))
        (store_ticket ticket s)
unfolding store_ticket
store_ticket-tickets ticket s =
    let s' : Ticket.Types.Store = record s {
      tickets = update s.tickets ticket.ticket_id (some ticket);
    } in
    bind-Ensures (add_owner_ticket ticket.owner ticket.ticket_id s') λ t e. record {
      holds = λ u e'.
          (add_event_ticket-tickets ticket.event_id ticket.ticket_id t).holds u e'
          ∙ (add_owner_ticket-tickets ticket.owner ticket.ticket_id s').holds t e;
    }

-- The ticket that a mint stores.
pub mint_ticket-mints :
    (env : Env) (event_id : Symbol) (organizer owner : Address) (s : Ticket.Types.Store)
    → Ensures
        (λ r. r.1.tickets r.0 ≡ some (new_ticket env event_id organizer owner r.0))
        (mint_ticket env event_id organizer owner s)
unfolding mint_ticket write_next_ticket_id
mint_ticket-mints env event_id organizer owner s =
    let ticket_id = read_next_ticket_id s in
    let ticket = new_ticket env event_id organizer owner ticket_id in
    bind-Ensures (require_auth env (mint_authority organizer s)) λ _ _.
      bind-Ensures (store_ticket ticket s) λ t stored.
        bind-Ensures (add_u64 ticket_id 1) λ next_id _.
          ok-Ensures
            (ap (λ f. f ticket_id) ((store_ticket-tickets ticket s).holds t stored) ∙ ground arith)

-- A valid ticket of the attendee for the event, as the ticket contract keeps it.
pub record Holds (event : Event) (attendee : Address) (ticket : Ticket) : Type 0 where
  pub of_event : ticket.event_id ≡ event.event_id
  pub by_organizer : ticket.organizer ≡ event.organizer
  pub owned : ticket.owner ≡ attendee
  pub usable : ticket.status ≡ valid
