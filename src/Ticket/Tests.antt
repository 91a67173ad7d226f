-- ===== src/Ticket/Tests.antt =====
-- Runs of the ticket contract, and its theorems at concrete storages.
use mathlib.Core.Bool.{Bool}
use mathlib.Core.List.{Mem, Nodup}
use zicket_contract.Base.{
  ℕ, ◌≡◌, ◌≢◌, ◌↔◌, ◌≤◌, ◌+◌, refl, true, ◌&&◌, none, some, ◌==◌, if◌then◌else◌, List, [], ◌∷◌,
  arith, ok, err, Env,
}
use zicket_contract.Ticket.Types.{
  Ticket, valid, used, ticket_already_used, recovery_key_not_found, Store, empty,
}
use zicket_contract.Ticket.Storage.{
  get_owner_tickets_count, get_tickets_by_owner, add_owner_ticket, remove_owner_ticket,
  add_event_ticket,
}
use zicket_contract.Base.{collect}
use zicket_contract.Ticket.Contract.{
  batch_mint_ticket, mint_loop, transfer_ticket, use_ticket, set_recovery_key, recover_ticket,
  store_ticket, move_owner, read_next_ticket_id, get_attendance_credential,
}
use zicket_contract.Ticket.Invariant.{IsWellFormed, owned_by}
use zicket_contract.Ticket.Transfers.{transfer_ticket_effect, transfer_ticket_succeeds}
use zicket_contract.Ticket.Minting.{counted, batch_mint_ticket-IsWellFormed}
use zicket_contract.Ticket.Usage.{credential, use_ticket_once}
use zicket_contract.Ticket.Recovery.{recover_ticket_once}
use zicket_contract.Ticket.History.{
  Request, batch_mint, transfer, consume, cancel, register_key, recover, run, apply,
  empty-IsWellFormed, run-IsWellFormed, run-final, tickets_by_owner,
}

-- Everybody has signed; the hash is the number of the ticket.
abbrev host : Env
host = record {
  authorized = λ _. true;
  timestamp = 1000;
  sequence = 50;
  current_contract_address = 99;
  address_xdr = λ a. a;
  u64_xdr = λ n. n;
  attendance_xdr = λ e id o. id;
  append_bytes = λ a b. a + b;
  bytes_len = λ b. b;
  prefix_bytes = λ b n. b;
  sha256 = λ b. b;
  ed25519_verifies = λ k m sig. true;
}

-- Three tickets of event 7 for address 2; the first of them goes to address 3, the last is used.
abbrev sales : List (Env × Request)
sales = (host, batch_mint 7 1 2 3) ∷ (host, transfer 2 3 1) ∷ (host, consume 1 2 3) ∷ []

abbrev store : Store
store = run sales empty

store-IsWellFormed : IsWellFormed store
store-IsWellFormed = run-IsWellFormed sales empty empty-IsWellFormed

listed_after_sales :
    (get_tickets_by_owner 2 store ≡ 3 ∷ 2 ∷ []) × (get_tickets_by_owner 3 store ≡ 1 ∷ [])
unfolding get_tickets_by_owner collect run apply batch_mint_ticket mint_loop store_ticket
    transfer_ticket use_ticket move_owner add_owner_ticket remove_owner_ticket add_event_ticket
listed_after_sales = (refl, refl)

abbrev sold : Ticket
sold = record {
  ticket_id = 2;
  event_id = 7;
  organizer = 1;
  owner = 2;
  issued_at = 1000;
  status = valid;
  is_transferable = true;
  is_used = Bool.false;
}

tickets_by_owner_example :
    ((id : ℕ) → Mem id (get_tickets_by_owner 2 store) ↔ (owned_by 2 (store.tickets id) ≡ true))
    × Nodup (get_tickets_by_owner 2 store)
tickets_by_owner_example = tickets_by_owner sales 2

run-IsWellFormed_example : IsWellFormed (run sales empty)
run-IsWellFormed_example = run-IsWellFormed sales empty empty-IsWellFormed

abbrev consumed : Ticket
consumed = record sold { ticket_id = 3; status = used; is_used = true }

consumed-stored : store.tickets 3 ≡ some consumed
unfolding run apply batch_mint_ticket mint_loop store_ticket transfer_ticket use_ticket move_owner
    add_owner_ticket remove_owner_ticket add_event_ticket
consumed-stored = refl

run-final_example :
    (run ((host, transfer 2 9 3) ∷ (host, cancel 3 2) ∷ []) store).tickets 3 ≡ some consumed
run-final_example =
    run-final 3 consumed refl ((host, transfer 2 9 3) ∷ (host, cancel 3 2) ∷ []) store
      store-IsWellFormed consumed-stored

-- The storage with one stored ticket, number 2 of address 2.
abbrev one_ticket : Store
one_ticket = record empty {
  tickets = λ id. if id == 2 then some sold else none;
  recovery_key = λ id. if id == 2 then some 55 else none;
  owner_ticket = λ a id. if a == 2 && id == 2 then some 0 else none;
  owner_ticket_index = λ a i. if a == 2 && i == 0 then some 2 else none;
  owner_tickets_count = λ a. if a == 2 then some 1 else none;
}

use_ticket_once_example :
    (use_ticket host 1 2 2 (run ((host, consume 1 2 2) ∷ []) one_ticket) ≡ err ticket_already_used)
    × ((t : Ticket) × (one_ticket.tickets 2 ≡ some t)
        × (get_attendance_credential 2 (run ((host, consume 1 2 2) ∷ []) one_ticket)
            ≡ ok (credential host t 2)))
unfolding run apply use_ticket
use_ticket_once_example = use_ticket_once host host 1 2 2 one_ticket refl refl refl

keyed_sales : List (Env × Request)
keyed_sales = (host, batch_mint 7 1 2 3) ∷ (host, register_key 2 2 55) ∷ []

recover_ticket_once_example :
    let s = run keyed_sales empty in
    let s' = run ((host, recover 2 8 0) ∷ []) s in
    ((key : ℕ) × (s.recovery_key 2 ≡ some key)
      × (host.ed25519_verifies key (host.address_xdr 8) 0 ≡ true))
    × ((t : Ticket) × (s.tickets 2 ≡ some t)
        × (t.status ≡ valid)
        × (s'.tickets 2 ≡ some (record t { owner = 8 })))
    × (recover_ticket host 2 8 0 s' ≡ err recovery_key_not_found)
unfolding keyed_sales run apply batch_mint_ticket mint_loop store_ticket set_recovery_key
    recover_ticket move_owner add_owner_ticket remove_owner_ticket add_event_ticket
recover_ticket_once_example =
    recover_ticket_once host host 2 8 8 0 0 (run keyed_sales empty)
      (run-IsWellFormed keyed_sales empty empty-IsWellFormed) refl

batch_mint_ticket-IsWellFormed_example :
    IsWellFormed (run ((host, batch_mint 7 1 2 3) ∷ []) empty)
    × (1 ≤ 3)
    × (3 ≤ 100)
    × (1 ∷ 2 ∷ 3 ∷ [] ≡ counted (read_next_ticket_id empty) 3)
    × (read_next_ticket_id (run ((host, batch_mint 7 1 2 3) ∷ []) empty)
        ≡ read_next_ticket_id empty + 3)
unfolding run apply batch_mint_ticket mint_loop store_ticket add_owner_ticket add_event_ticket
batch_mint_ticket-IsWellFormed_example =
    batch_mint_ticket-IsWellFormed host 7 1 2 3 empty empty-IsWellFormed refl

transfer_ticket_effect_example :
    let s' = run ((host, transfer 2 3 2) ∷ []) one_ticket in
    (host.authorized 2 ≡ true)
    × (◌≢◌ {A = ℕ} 2 3)
    × ((t : Ticket) × (one_ticket.tickets 2 ≡ some t)
        × (t.owner ≡ 2)
        × (t.is_transferable ≡ true)
        × (t.is_used ≡ Bool.false)
        × (t.status ≡ valid)
        × (s'.tickets 2 ≡ some (record t { owner = 3 })))
    × ((j : ℕ) → j ≢ 2 → s'.tickets j ≡ one_ticket.tickets j)
unfolding run apply transfer_ticket move_owner add_owner_ticket remove_owner_ticket
transfer_ticket_effect_example = transfer_ticket_effect host 2 3 2 one_ticket refl

transfer_ticket_succeeds_example : (s' : Store) × (transfer_ticket host 2 3 2 one_ticket ≡ ok s')
unfolding get_owner_tickets_count
transfer_ticket_succeeds_example =
    transfer_ticket_succeeds host 2 3 2 one_ticket sold refl (omega arith) refl refl refl refl refl
      (omega arith)
