-- ===== src/Ticket/Usage.antt =====
-- `use_ticket`, `cancel_ticket`, `set_recovery_key`, `recover_ticket` and the attendance credential
-- of contracts/ticket/src/lib.rs.
use zicket_contract.Base.{
  ℕ, ◌≡◌, refl, ap, true, false, Option, some, arith, ok, err, is_some, Env, Address, Bytes, update,
  inl, inr, Option-cases,
}
use zicket_contract.Ticket.Types.{
  Ticket, valid, used, cancelled, ticket_already_used, ticket_cancelled, Store,
}
use zicket_contract.Ticket.Storage.{get_owner_tickets_count, has_owner_ticket, update_ticket}
use zicket_contract.Ticket.Contract.{
  publish, read_next_ticket_id, use_ticket, cancel_ticket, get_attendance_credential,
}
use zicket_contract.Ticket.Ownership.{IsIndexedByOwner}
use zicket_contract.Ticket.Invariant.{IsWellFormed, owned_by, is_used_status, is_used_ticket}

-- The credential of a ticket: the hash of its event, its id and its owner.
abbrev pub credential : Env → Ticket → ℕ → Bytes
credential env t id = env.sha256 (env.attendance_xdr t.event_id id t.owner)

-- A use needs both authorizations, the ticket's organizer and owner, and a valid unused ticket; it
-- marks the ticket and stores its credential.
pub record Used (env : Env) (organizer owner : Address) (id : ℕ) (s s' : Store) : Type 0 where
  pub ticket : Ticket
  pub found : s.tickets id ≡ some ticket
  pub by_organizer : (ticket.organizer ≡ organizer) × (env.authorized organizer ≡ true)
  pub by_owner : (ticket.owner ≡ owner) × (env.authorized owner ≡ true)
  pub unused : (ticket.is_used ≡ false) × (ticket.status ≡ valid)
  pub stored :
      s'.tickets ≡ update s.tickets id (some (record ticket { is_used = true; status = used }))
  pub issued :
      s'.attendance_credential ≡ update s.attendance_credential id (some (credential env ticket id))
  pub kept :
      (s'.owner_ticket ≡ s.owner_ticket)
      × (s'.owner_ticket_index ≡ s.owner_ticket_index)
      × (s'.owner_tickets_count ≡ s.owner_tickets_count)
      × (s'.next_ticket_id ≡ s.next_ticket_id)

pub use_ticket-Used :
    (env : Env) (organizer owner : Address) (id : ℕ) (s : Store) {s' : Store}
    → use_ticket env organizer owner id s ≡ ok s'
    → Used env organizer owner id s s'
unfolding use_ticket
use_ticket-Used env organizer owner id s e = elim (Option-cases (s.tickets id)) [
  | inl missing ↦ absurd (ground arith)
  | inr (t, found) ↦ record {
    ticket = t;
    found = found;
    by_organizer = ground arith;
    by_owner = ground arith;
    unused = ground arith;
    stored = ground arith;
    issued = ground arith;
    kept = ground arith;
  }
]

-- A ticket is rewritten and keeps its owner and its id.
module _ (id : ℕ) (t t' : Ticket) (s s' : Store) (h : IsWellFormed s)
    (found : s.tickets id ≡ some t) (same : (t'.owner ≡ t.owner) × (t'.ticket_id ≡ t.ticket_id))
    (flag : t'.is_used ≡ is_used_status t'.status)
    (stored : s'.tickets ≡ update s.tickets id (some t'))
    (kept : (s'.owner_ticket ≡ s.owner_ticket)
      × (s'.owner_ticket_index ≡ s.owner_ticket_index)
      × (s'.owner_tickets_count ≡ s.owner_tickets_count)
      × (s'.next_ticket_id ≡ s.next_ticket_id)) where
  at : (j : ℕ) → s'.tickets j ≡ update s.tickets id (some t') j
  at j = ap (λ (f : ℕ → Option Ticket). f j) stored

  rewritten_owners : IsIndexedByOwner s'
  unfolding get_owner_tickets_count
  rewritten_owners a = rw (kept.0, kept.1, kept.2) (h.owners a)

  rewritten_membership : (a : Address) (j : ℕ) → has_owner_ticket a j s' ≡ owned_by a (s'.tickets j)
  unfolding has_owner_ticket
  rewritten_membership a j = ground (
    arith,
    at j,
    h.membership a j,
    h.membership a id,
    ap (λ (f : Address → ℕ → Option ℕ). f a j) kept.0,
  )

  rewritten-IsWellFormed :
      ((j : ℕ) → is_some (s'.attendance_credential j) ≡ is_used_ticket (s'.tickets j))
      → IsWellFormed s'
  unfolding read_next_ticket_id
  rewritten-IsWellFormed credentials = record {
    owners = rewritten_owners;
    membership = rewritten_membership;
    ids = λ j v e. ground (arith, kept.3, at j, h.ids id t found, h.ids j v);
    flags = λ j v e. ground (arith, at j, h.flags j v);
    credentials = credentials;
  }

pub use_ticket-IsWellFormed :
    (env : Env) (organizer owner : Address) (id : ℕ) (s : Store) {s' : Store}
    → IsWellFormed s
    → use_ticket env organizer owner id s ≡ ok s'
    → IsWellFormed s'
use_ticket-IsWellFormed env organizer owner id s {s'} h e =
    let u = use_ticket-Used env organizer owner id s e in
    rewritten-IsWellFormed id u.ticket (record u.ticket { is_used = true; status = used }) s s' h
      u.found (refl, refl) refl u.stored u.kept
      (λ j. ground (
        arith,
        ap (λ (f : ℕ → Option Ticket). f j) u.stored,
        ap (λ (f : ℕ → Option ℕ). f j) u.issued,
        h.credentials j,
      ))

-- After a ticket is used, every further use that is authorized by the same organizer and owner is
-- refused as already used, and its attendance credential can be read and is the hash of its event,
-- id and owner.
pub use_ticket_once :
    (env later : Env) (organizer owner : Address) (id : ℕ) (s : Store) {s' : Store}
    → use_ticket env organizer owner id s ≡ ok s'
    → later.authorized organizer ≡ true
    → later.authorized owner ≡ true
    → (use_ticket later organizer owner id s' ≡ err ticket_already_used)
      × ((t : Ticket) × (s.tickets id ≡ some t)
          × (get_attendance_credential id s' ≡ ok (credential env t id)))
unfolding use_ticket get_attendance_credential
use_ticket_once env later organizer owner id s {s'} e o w =
    let u = use_ticket-Used env organizer owner id s e in
    let at = ap (λ (f : ℕ → Option Ticket). f id) u.stored in
    let issued = ap (λ (f : ℕ → Option ℕ). f id) u.issued in
    (
      ground (arith, at, u.by_organizer, u.by_owner),
      (u.ticket, u.found, ground (arith, at, issued)),
    )

-- What a cancellation has met and done: the owner alone may cancel, and a valid unused ticket alone
-- can be cancelled.
pub record Cancelled (env : Env) (caller : Address) (id : ℕ) (s s' : Store) : Type 0 where
  pub ticket : Ticket
  pub found : s.tickets id ≡ some ticket
  pub by_owner : (ticket.owner ≡ caller) × (env.authorized caller ≡ true)
  pub unused : (ticket.is_used ≡ false) × (ticket.status ≡ valid)
  pub result :
      s'
      ≡ publish
          (ticket_cancelled id ticket.event_id ticket.owner env.timestamp)
          (update_ticket (record ticket { status = cancelled }) s)

pub cancel_ticket-Cancelled :
    (env : Env) (caller : Address) (id : ℕ) (s : Store) {s' : Store}
    → cancel_ticket env id caller s ≡ ok s'
    → Cancelled env caller id s s'
unfolding cancel_ticket
cancel_ticket-Cancelled env caller id s e = elim (Option-cases (s.tickets id)) [
  | inl missing ↦ absurd (ground arith)
  | inr (t, found) ↦ record {
    ticket = t;
    found = found;
    by_owner = ground arith;
    unused = ground arith;
    result = ground arith;
  }
]

pub cancel_ticket-IsWellFormed :
    (env : Env) (caller : Address) (id : ℕ) (s : Store) {s' : Store}
    → IsWellFormed s
    → cancel_ticket env id caller s ≡ ok s'
    → IsWellFormed s'
unfolding update_ticket
cancel_ticket-IsWellFormed env caller id s {s'} h e =
    let c = cancel_ticket-Cancelled env caller id s e in
    let own = (h.ids id c.ticket c.found).0 in
    let t' : Ticket = record c.ticket { status = cancelled } in
    rewritten-IsWellFormed id c.ticket t' s s' h c.found (refl, refl) c.unused.0
      (rw (c.result, own)) (rw c.result (refl, refl, refl, refl))
      (λ j. rw (c.result, own) (ground (arith, c.found, h.credentials j, c.unused)))
