-- ===== src/Ticket/Invariant.antt =====
-- The invariant of the ticket contract's storage, and how the helpers of the entry points keep it.
pub mod Moves
use zicket_contract.Base.{
  ℕ, ◌<◌, ◌≡◌, Bool, true, false, Option, none, some, ◌==◌, is_some, Address,
}
use zicket_contract.Ticket.Types.{TicketStatus, valid, used, cancelled, Ticket, Store, empty}
use zicket_contract.Ticket.Storage.{has_owner_ticket}
use zicket_contract.Ticket.Contract.{read_next_ticket_id}
use zicket_contract.Ticket.Ownership.{IsIndexedByOwner}

-- Whether the ticket, if there is one, belongs to `a`.
abbrev pub owned_by : Address → Option Ticket → Bool
owned_by a none = false
owned_by a (some t) = a == t.owner

abbrev pub is_used_status : TicketStatus → Bool
is_used_status valid = false
is_used_status used = true
is_used_status cancelled = false

-- Whether the ticket, if there is one, has been used.
abbrev pub is_used_ticket : Option Ticket → Bool
is_used_ticket none = false
is_used_ticket (some t) = t.is_used

-- The storage is well formed, and every ticket's id is below `next_id`.
pub record IsWellFormedBelow (next_id : ℕ) (s : Store) : Type 0 where
  -- The index of each owner is well formed, and its members are the tickets that name the owner.
  pub owners : IsIndexedByOwner s
  pub membership : (a : Address) (id : ℕ) → has_owner_ticket a id s ≡ owned_by a (s.tickets id)
  -- A ticket is stored under its own id.
  pub ids : (id : ℕ) (t : Ticket) → s.tickets id ≡ some t → (t.ticket_id ≡ id) × (id < next_id)
  -- The flag and the status agree, and used tickets alone have a credential.
  pub flags : (id : ℕ) (t : Ticket) → s.tickets id ≡ some t → t.is_used ≡ is_used_status t.status
  pub credentials : (id : ℕ) → is_some (s.attendance_credential id) ≡ is_used_ticket (s.tickets id)

-- The storage between two calls.
abbrev pub IsWellFormed : Store → Type 0
IsWellFormed s = IsWellFormedBelow (read_next_ticket_id s) s
