-- ===== src/Ticket/Storage.antt =====
-- contracts/ticket/src/storage.rs. `extend_ttl` moves an entry's expiry and leaves its value, so
-- it is left out: every entry is taken to be live.
use zicket_contract.Base.{
  ℕ, ◌-◌, Bool, true, Option, none, some, List, ltb, ◌==◌, if◌then◌else◌, Outcome, ok, ◌>>=◌, ok_or,
  unwrap_or, is_some, add_u64, err_if, Address, Symbol, Bytes, update, update₂, collect,
}
use zicket_contract.Ticket.Types.{
  Ticket, TicketError, ticket_not_found, unauthorized, unsupported_version, Store,
}

abbrev pub Call : Type 0 → Type 0
Call = Outcome TicketError

unfoldable pub get_ticket : ℕ → Store → Call Ticket
get_ticket ticket_id s = ok_or (s.tickets ticket_id) ticket_not_found

unfoldable pub update_ticket : Ticket → Store → Store
update_ticket ticket s = record s { tickets = update s.tickets ticket.ticket_id (some ticket) }

unfoldable pub get_owner_tickets_count : Address → Store → ℕ
get_owner_tickets_count owner s = unwrap_or (s.owner_tickets_count owner) 0

unfoldable pub get_event_tickets_count : Symbol → Store → ℕ
get_event_tickets_count event_id s = unwrap_or (s.event_tickets_count event_id) 0

unfoldable pub add_owner_ticket : Address → ℕ → Store → Call Store
unfolding get_owner_tickets_count
add_owner_ticket owner ticket_id s = do
  let count = get_owner_tickets_count owner s
  next ← add_u64 count 1
  ok (record s {
    owner_ticket = update₂ s.owner_ticket owner ticket_id (some count);
    owner_ticket_index = update₂ s.owner_ticket_index owner count (some ticket_id);
    owner_tickets_count = update s.owner_tickets_count owner (some next);
  })

unfoldable pub has_owner_ticket : Address → ℕ → Store → Bool
has_owner_ticket owner ticket_id s = is_some (s.owner_ticket owner ticket_id)

-- "Swap with last element": the last ticket takes the place of the removed one.
unfoldable pub swap_with_last : Address → ℕ → ℕ → Store → Store
swap_with_last owner idx last_idx s =
    if ltb idx last_idx
    then elim (s.owner_ticket_index owner last_idx) [
      | none ↦ s
      | some last_ticket_id ↦ record s {
        owner_ticket_index = update₂ s.owner_ticket_index owner idx (some last_ticket_id);
        owner_ticket = update₂ s.owner_ticket owner last_ticket_id (some idx);
      }
    ]
    else s

-- The rest of `remove_owner_ticket` once the membership entry, which held `idx`, is gone.
unfoldable pub remove_owner_index : Address → ℕ → Store → Store
unfolding swap_with_last get_owner_tickets_count
remove_owner_index owner idx s =
    let count = get_owner_tickets_count owner s in
    if count == 0
    then record s { owner_ticket_index = update₂ s.owner_ticket_index owner idx none }
    else let last_idx = count - 1 in
      let t = swap_with_last owner idx last_idx s in
      record t {
        owner_ticket_index = update₂ t.owner_ticket_index owner last_idx none;
        owner_tickets_count = update t.owner_tickets_count owner (some last_idx);
      }

unfoldable pub remove_owner_ticket : Address → ℕ → Store → Store
unfolding remove_owner_index
remove_owner_ticket owner ticket_id s =
    let t = record s { owner_ticket = update₂ s.owner_ticket owner ticket_id none } in
    elim (s.owner_ticket owner ticket_id) [ none ↦ t | some idx ↦ remove_owner_index owner idx t ]

unfoldable pub add_event_ticket : Symbol → ℕ → Store → Call Store
unfolding get_event_tickets_count
add_event_ticket event_id ticket_id s = do
  let count = get_event_tickets_count event_id s
  next ← add_u64 count 1
  ok (record s {
    event_ticket = update₂ s.event_ticket event_id ticket_id (some true);
    event_ticket_index = update₂ s.event_ticket_index event_id count (some ticket_id);
    event_tickets_count = update s.event_tickets_count event_id (some next);
  })

unfoldable pub has_event_ticket : Symbol → ℕ → Store → Bool
has_event_ticket event_id ticket_id s = is_some (s.event_ticket event_id ticket_id)

unfoldable pub get_tickets_by_owner : Address → Store → List ℕ
unfolding get_owner_tickets_count
get_tickets_by_owner owner s =
    collect (s.owner_ticket_index owner) (get_owner_tickets_count owner s)

unfoldable pub get_tickets_by_event : Symbol → Store → List ℕ
unfolding get_event_tickets_count
get_tickets_by_event event_id s =
    collect (s.event_ticket_index event_id) (get_event_tickets_count event_id s)

unfoldable pub get_contract_version : Store → ℕ
get_contract_version s = unwrap_or s.contract_version 1

unfoldable pub set_contract_version : ℕ → Store → Store
set_contract_version version s = record s { contract_version = some version }

-- `CURRENT_VERSION`
abbrev current_version : ℕ
current_version = 1

unfoldable pub verify_version : Store → Call (Unit {0})
unfolding get_contract_version
verify_version s = err_if (ltb current_version (get_contract_version s)) unsupported_version

unfoldable pub get_recovery_key : ℕ → Store → Option Bytes
get_recovery_key ticket_id s = s.recovery_key ticket_id

unfoldable pub set_recovery_key : ℕ → Bytes → Store → Store
set_recovery_key ticket_id public_key s = record s {
  recovery_key = update s.recovery_key ticket_id (some public_key);
}

unfoldable pub remove_recovery_key : ℕ → Store → Store
remove_recovery_key ticket_id s = record s { recovery_key = update s.recovery_key ticket_id none }

unfoldable pub get_attendance_credential : ℕ → Store → Option Bytes
get_attendance_credential ticket_id s = s.attendance_credential ticket_id

unfoldable pub set_attendance_credential : ℕ → Bytes → Store → Store
set_attendance_credential ticket_id hash s = record s {
  attendance_credential = update s.attendance_credential ticket_id (some hash);
}

unfoldable pub get_payments_contract : Store → Call Address
get_payments_contract s = ok_or s.payments_contract unauthorized

unfoldable pub set_payments_contract : Address → Store → Store
set_payments_contract payments_contract s = record s { payments_contract = some payments_contract }

unfoldable pub get_event_contract : Store → Call Address
get_event_contract s = ok_or s.event_contract unauthorized

unfoldable pub set_event_contract : Address → Store → Store
set_event_contract event_contract s = record s { event_contract = some event_contract }

unfoldable pub get_admin : Store → Call Address
get_admin s = ok_or s.admin unauthorized

unfoldable pub set_admin : Address → Store → Store
set_admin admin s = record s { admin = some admin }
