-- ===== src/Ticket/Invariant/Moves.antt =====
-- A ticket that changes hands, and one that is minted.
use zicket_contract.Base.{
  ℕ, ◌<◌, ◌≡◌, ◌∙◌, ap, false, Option, some, arith, ◌==◌, if◌then◌else◌, ok, is_some, Address,
  update, inl, inr, Option-cases,
}
use zicket_contract.Ticket.Types.{Ticket, TicketEvent, Store}
use zicket_contract.Ticket.Storage.{
  get_owner_tickets_count, add_owner_ticket, has_owner_ticket, remove_owner_ticket,
}
use zicket_contract.Ticket.Contract.{publish, read_next_ticket_id, move_owner}
use zicket_contract.Ticket.Ownership.{
  IsIndexedByOwner, has_owner_ticket-add, add_owner_ticket-IsIndexed, remove_owner_ticket-IsIndexed,
  has_owner_ticket-remove,
}
use zicket_contract.Ticket.Invariant.{
  IsWellFormed, IsWellFormedBelow, owned_by, is_used_ticket, is_used_status,
}

-- What the owner index leaves alone.
pub record SameTickets (s s' : Store) : Type 0 where
  pub same_tickets : s'.tickets ≡ s.tickets
  pub same_next_ticket_id : s'.next_ticket_id ≡ s.next_ticket_id
  pub same_credential : s'.attendance_credential ≡ s.attendance_credential

pub add_owner_ticket-SameTickets :
    (o : Address) (id : ℕ) (s : Store) {s' : Store}
    → add_owner_ticket o id s ≡ ok s'
    → SameTickets s s'
unfolding add_owner_ticket
add_owner_ticket-SameTickets o id s e = ground arith

remove_owner_ticket-SameTickets :
    (o : Address) (id : ℕ) (s : Store) → SameTickets s (remove_owner_ticket o id s)
unfolding remove_owner_ticket
remove_owner_ticket-SameTickets o id s = ground arith

-- The storage in which the ticket has a new owner and the index has not followed yet.
abbrev pub reowned : ℕ → Ticket → Address → Store → Store
reowned id t to s = record s { tickets = update s.tickets id (some (record t { owner = to })) }

module _ (to : Address) (id : ℕ) (t : Ticket) (s : Store) {next_id : ℕ}
    (h : IsWellFormedBelow next_id s) (at : s.tickets id ≡ some t) {s' : Store}
    (moved : move_owner t.owner to id (reowned id t to s) ≡ ok s') where
  abbrev taken : Store
  taken = remove_owner_ticket t.owner id (reowned id t to s)

  held : (i : ℕ) × (s.owner_ticket t.owner id ≡ some i)
  unfolding has_owner_ticket
  held = elim (Option-cases (s.owner_ticket t.owner id)) [
    | inl e ↦ absurd (ground (arith, h.membership t.owner id))
    | inr found ↦ found
  ]

  added : add_owner_ticket to id taken ≡ ok s'
  unfolding move_owner
  added = moved

  taken-IsIndexed : IsIndexedByOwner taken
  unfolding get_owner_tickets_count
  taken-IsIndexed = remove_owner_ticket-IsIndexed t.owner id (reowned id t to s) h.owners held.1

  has_owner_ticket-taken :
      (a : Address) (j : ℕ)
      → has_owner_ticket a j taken ≡ (
          if a == t.owner
          then (if j == id then false else owned_by a (s.tickets j))
          else owned_by a (s.tickets j))
  unfolding has_owner_ticket get_owner_tickets_count
  has_owner_ticket-taken a j = ground (
    arith,
    h.membership a j,
    has_owner_ticket-remove t.owner id (reowned id t to s) h.owners held.1 a j,
  )

  kept : SameTickets (reowned id t to s) s'
  kept =
      let left = remove_owner_ticket-SameTickets t.owner id (reowned id t to s) in
      let joined = add_owner_ticket-SameTickets to id taken added in
      record {
        same_tickets = joined.same_tickets ∙ left.same_tickets;
        same_next_ticket_id = joined.same_next_ticket_id ∙ left.same_next_ticket_id;
        same_credential = joined.same_credential ∙ left.same_credential;
      }

  moved_membership : (a : Address) (j : ℕ) → has_owner_ticket a j s' ≡ owned_by a (s'.tickets j)
  moved_membership a j = ground (
    arith,
    has_owner_ticket-add to id taken added a j,
    has_owner_ticket-taken a j,
    ap (λ (f : ℕ → Option Ticket). f j) kept.same_tickets,
  )

  moved_ids : (j : ℕ) (u : Ticket) → s'.tickets j ≡ some u → (u.ticket_id ≡ j) × (j < next_id)
  moved_ids j u e = ground (arith, rw kept.same_tickets at e, h.ids id t at, h.ids j u)

  moved_flags : (j : ℕ) (u : Ticket) → s'.tickets j ≡ some u → u.is_used ≡ is_used_status u.status
  moved_flags j u e = ground (arith, rw kept.same_tickets at e, h.flags id t at, h.flags j u)

  moved_credentials : (j : ℕ) → is_some (s'.attendance_credential j) ≡ is_used_ticket (s'.tickets j)
  moved_credentials j =
      rw (kept.same_tickets, kept.same_credential) (ground (arith, h.credentials j))

  -- `move_owner` brings the index in line with the ticket's new owner.
  pub move_owner-IsWellFormed : IsWellFormedBelow next_id s'
  move_owner-IsWellFormed = record {
    owners =
        add_owner_ticket-IsIndexed to id taken taken-IsIndexed
          (ground (arith, has_owner_ticket-taken to id)) added;
    membership = moved_membership;
    ids = moved_ids;
    flags = moved_flags;
    credentials = moved_credentials;
  }

  pub move_owner-next : read_next_ticket_id s' ≡ read_next_ticket_id s
  unfolding read_next_ticket_id
  move_owner-next = rw kept.same_next_ticket_id

-- What is left of `tickets` after a move.
pub move_owner-tickets :
    (from to : Address) (id : ℕ) (s : Store) {s' : Store}
    → move_owner from to id s ≡ ok s'
    → (j : ℕ) → s'.tickets j ≡ s.tickets j
unfolding move_owner
move_owner-tickets from to id s e j =
    ap (λ (f : ℕ → Option Ticket). f j)
      ((add_owner_ticket-SameTickets to id (remove_owner_ticket from id s) e).same_tickets
        ∙ (remove_owner_ticket-SameTickets from id s).same_tickets)

-- Nor does an event touch the invariant.
pub publish-IsWellFormedBelow :
    (e : TicketEvent) (s : Store) {n : ℕ}
    → IsWellFormedBelow n s
    → IsWellFormedBelow n (publish e s)
unfolding get_owner_tickets_count has_owner_ticket
publish-IsWellFormedBelow e s h = record {
  owners = h.owners;
  membership = h.membership;
  ids = h.ids;
  flags = h.flags;
  credentials = h.credentials;
}

pub publish-IsWellFormed :
    (e : TicketEvent) (s : Store) → IsWellFormed s → IsWellFormed (publish e s)
unfolding read_next_ticket_id
publish-IsWellFormed e s h = publish-IsWellFormedBelow e s h

-- A call that leaves all that the invariant speaks of.
pub record SameOwnership (s s' : Store) : Type 0 where
  pub same : SameTickets s s'
  pub same_owner_ticket : s'.owner_ticket ≡ s.owner_ticket
  pub same_owner_ticket_index : s'.owner_ticket_index ≡ s.owner_ticket_index
  pub same_owner_tickets_count : s'.owner_tickets_count ≡ s.owner_tickets_count

module _ {s s' : Store} (k : SameOwnership s s') (h : IsWellFormed s) where
  kept_owners : IsIndexedByOwner s'
  unfolding get_owner_tickets_count
  kept_owners a =
      rw (k.same_owner_ticket, k.same_owner_ticket_index, k.same_owner_tickets_count) (h.owners a)

  kept_membership : (a : Address) (j : ℕ) → has_owner_ticket a j s' ≡ owned_by a (s'.tickets j)
  unfolding has_owner_ticket
  kept_membership a j = rw (k.same_owner_ticket, k.same.same_tickets) (h.membership a j)

  pub SameOwnership-IsWellFormed : IsWellFormed s'
  unfolding read_next_ticket_id
  SameOwnership-IsWellFormed = record {
    owners = kept_owners;
    membership = kept_membership;
    ids = λ j u e. rw k.same.same_next_ticket_id (h.ids j u (rw k.same.same_tickets at e));
    flags = λ j u e. h.flags j u (rw k.same.same_tickets at e);
    credentials = λ j. rw (k.same.same_tickets, k.same.same_credential) (h.credentials j);
  }
