-- ===== src/Ticket/Contract.antt =====
-- The entry points of the ticket contract, contracts/ticket/src/lib.rs. A call returns its value
-- and the new storage.
use zicket_contract.Base.{
  ℕ, zero, suc, Bool, true, false, none, some, List, [], ◌∷◌, ltb, ◌==◌, not, ◌||◌, ok, err, ◌>>=◌,
  ◌>>◌, err_if, ok_or, require, unwrap_or, add_u64, Env, require_auth, Address, Symbol, Bytes,
  update,
}
use zicket_contract.Ticket.Types.{
  TicketStatus, valid, used, cancelled, Ticket, unauthorized, invalid_input,
  ticket_not_transferable, transfer_to_self, ticket_already_used, event_not_active,
  recovery_key_not_found, ticket_not_used, TicketEvent, ticket_minted, ticket_transferred,
  ticket_used, ticket_cancelled, ticket_recovery_key_set, ticket_recovered,
  attendance_credential_issued, Store,
}
use zicket_contract.Ticket.Storage.{
  Call, get_ticket, update_ticket, add_owner_ticket, remove_owner_ticket, add_event_ticket,
  get_contract_version, set_contract_version, get_recovery_key, remove_recovery_key,
  set_attendance_credential, get_payments_contract, get_event_contract, get_admin, set_admin,
}
use zicket_contract.Ticket.Storage

abbrev pub publish : TicketEvent → Store → Store
publish e s = record s { events = e ∷ s.events }

-- `ticket.status != TicketStatus::Valid`
abbrev pub is_valid : TicketStatus → Bool
is_valid valid = true
is_valid _ = false

unfoldable pub read_next_ticket_id : Store → ℕ
read_next_ticket_id s = unwrap_or s.next_ticket_id 1

unfoldable pub write_next_ticket_id : ℕ → Store → Store
write_next_ticket_id next_id s = record s { next_ticket_id = some next_id }

-- Whose authorization a mint wants: the event contract's, else the payments contract's, else the
-- organizer's.
unfoldable pub mint_authority : Address → Store → Address
mint_authority organizer s = elim s.event_contract [
  | some event_contract ↦ event_contract
  | none ↦ unwrap_or s.payments_contract organizer
]

abbrev pub new_ticket : Env → Symbol → Address → Address → ℕ → Ticket
new_ticket env event_id organizer owner ticket_id = record {
  ticket_id = ticket_id;
  event_id = event_id;
  organizer = organizer;
  owner = owner;
  issued_at = env.timestamp;
  status = valid;
  is_transferable = true;
  is_used = false;
}

-- Store a new ticket and index it by owner and by event.
unfoldable pub store_ticket : Ticket → Store → Call Store
store_ticket ticket s = do
  t ←
      add_owner_ticket ticket.owner ticket.ticket_id
        (record s { tickets = update s.tickets ticket.ticket_id (some ticket) })
  add_event_ticket ticket.event_id ticket.ticket_id t

abbrev pub minted : Ticket → TicketEvent
minted t = ticket_minted t.ticket_id t.event_id t.owner t.organizer t.issued_at

unfoldable pub mint_ticket : Env → Symbol → Address → Address → Store → Call (ℕ × Store)
unfolding mint_authority read_next_ticket_id write_next_ticket_id
mint_ticket env event_id organizer owner s = do
  require_auth env (mint_authority organizer s)
  let ticket_id = read_next_ticket_id s
  let ticket = new_ticket env event_id organizer owner ticket_id
  t ← store_ticket ticket s
  next_id ← add_u64 ticket_id 1
  ok (ticket_id, publish (minted ticket) (write_next_ticket_id next_id t))

-- The loop of `batch_mint_ticket`: `count` more tickets, the first of them `next_id`.
unfoldable pub mint_loop :
    ℕ → Env → Symbol → Address → Address → ℕ → Store → Call (List ℕ × ℕ × Store)
mint_loop zero env event_id organizer owner next_id s = ok ([], next_id, s)
mint_loop (suc count) env event_id organizer owner next_id s =
    let ticket = new_ticket env event_id organizer owner next_id in
    store_ticket ticket s >>= λ t. add_u64 next_id 1 >>= λ following.
    mint_loop count env event_id organizer owner following (publish (minted ticket) t) >>= λ r.
    ok (next_id ∷ r.0, r.1, r.2)

unfoldable pub batch_mint_ticket :
    Env → Symbol → Address → Address → ℕ → Store → Call (List ℕ × Store)
unfolding mint_authority read_next_ticket_id write_next_ticket_id
batch_mint_ticket env event_id organizer owner count s = do
  err_if (count == 0 || ltb 100 count) invalid_input
  require_auth env (mint_authority organizer s)
  r ← mint_loop count env event_id organizer owner (read_next_ticket_id s) s
  ok (r.0, write_next_ticket_id r.1 r.2)

-- The ticket passes from `from` to `to` in the index.
unfoldable pub move_owner : Address → Address → ℕ → Store → Call Store
move_owner from to ticket_id s =
    add_owner_ticket to ticket_id (remove_owner_ticket from ticket_id s)

unfoldable pub transfer_ticket : Env → Address → Address → ℕ → Store → Call Store
unfolding get_ticket update_ticket
transfer_ticket env from to ticket_id s = do
  require_auth env from
  err_if (from == to) transfer_to_self
  ticket ← get_ticket ticket_id s
  err_if (not (ticket.owner == from)) unauthorized
  err_if (not ticket.is_transferable) ticket_not_transferable
  err_if ticket.is_used ticket_not_transferable
  err_if (not (is_valid ticket.status)) ticket_not_transferable
  t ←
      move_owner from to ticket_id
        (record s { tickets = update s.tickets ticket_id (some (record ticket { owner = to })) })
  ok (publish (ticket_transferred ticket_id ticket.event_id from to env.timestamp) t)

-- The `match ticket.status` of `use_ticket`.
abbrev pub usable : TicketStatus → Call (Unit {0})
usable valid = ok tt
usable cancelled = err event_not_active
usable used = err ticket_already_used

unfoldable pub use_ticket : Env → Address → Address → ℕ → Store → Call Store
unfolding get_ticket set_attendance_credential
use_ticket env organizer owner ticket_id s = do
  require_auth env organizer
  require_auth env owner
  ticket ← get_ticket ticket_id s
  err_if (not (ticket.organizer == organizer)) unauthorized
  err_if (not (ticket.owner == owner)) unauthorized
  err_if ticket.is_used ticket_already_used
  usable ticket.status
  let t = record s {
    tickets = update s.tickets ticket_id (some (record ticket { is_used = true; status = used }));
  }
  let hash = env.sha256 (env.attendance_xdr ticket.event_id ticket_id ticket.owner)
  let u =
      publish (ticket_used ticket_id ticket.event_id ticket.owner env.timestamp)
        (set_attendance_credential ticket_id hash t)
  ok (
      publish
        (attendance_credential_issued ticket_id ticket.event_id ticket.owner hash env.timestamp) u)

unfoldable pub get_attendance_credential : ℕ → Store → Call Bytes
unfolding get_ticket Storage.get_attendance_credential
get_attendance_credential ticket_id s = do
  ticket ← get_ticket ticket_id s
  err_if (not ticket.is_used) ticket_not_used
  ok_or (Storage.get_attendance_credential ticket_id s) ticket_not_used

unfoldable pub cancel_ticket : Env → ℕ → Address → Store → Call Store
unfolding get_ticket update_ticket
cancel_ticket env ticket_id caller s = do
  require_auth env caller
  ticket ← get_ticket ticket_id s
  err_if (not (caller == ticket.owner)) unauthorized
  err_if ticket.is_used ticket_already_used
  err_if (not (is_valid ticket.status)) ticket_already_used
  ok (
      publish (ticket_cancelled ticket_id ticket.event_id ticket.owner env.timestamp)
        (update_ticket (record ticket { status = cancelled }) s))

unfoldable pub set_recovery_key : Env → Address → ℕ → Bytes → Store → Call Store
unfolding get_ticket Storage.set_recovery_key
set_recovery_key env owner ticket_id public_key s = do
  require_auth env owner
  ticket ← get_ticket ticket_id s
  err_if (not (ticket.owner == owner)) unauthorized
  err_if (ticket.is_used || not (is_valid ticket.status)) ticket_not_transferable
  ok (
      publish (ticket_recovery_key_set ticket_id owner env.timestamp)
        (Storage.set_recovery_key ticket_id public_key s))

unfoldable pub recover_ticket : Env → ℕ → Address → Bytes → Store → Call Store
unfolding get_ticket update_ticket get_recovery_key remove_recovery_key
recover_ticket env ticket_id new_owner signature s = do
  ticket ← get_ticket ticket_id s
  err_if (ticket.is_used || not (is_valid ticket.status)) ticket_not_transferable
  public_key ← ok_or (get_recovery_key ticket_id s) recovery_key_not_found
  require (env.ed25519_verifies public_key (env.address_xdr new_owner) signature)
  t ←
      move_owner ticket.owner new_owner ticket_id
        (update_ticket (record ticket { owner = new_owner }) s)
  ok (
      publish (ticket_recovered ticket_id ticket.owner new_owner env.timestamp)
        (remove_recovery_key ticket_id t))

unfoldable pub admin_transfer_ticket : Env → Address → Address → Address → ℕ → Store → Call Store
unfolding get_ticket update_ticket get_payments_contract
admin_transfer_ticket env admin from to ticket_id s = do
  require_auth env admin
  payments_contract ← get_payments_contract s
  err_if (not (admin == payments_contract)) unauthorized
  ticket ← get_ticket ticket_id s
  err_if (not (ticket.owner == from)) unauthorized
  err_if (not ticket.is_transferable || ticket.is_used || not (is_valid ticket.status))
      ticket_not_transferable
  t ← move_owner from to ticket_id (update_ticket (record ticket { owner = to }) s)
  ok (publish (ticket_transferred ticket_id ticket.event_id from to env.timestamp) t)
