-- ===== src/Ticket/Recovery.antt =====
-- `set_recovery_key` and `recover_ticket` of contracts/ticket/src/lib.rs.
use zicket_contract.Base.{
  ℕ, ◌≡◌, ap, ◌∙◌, true, false, some, arith, ok, err, Env, Address, Bytes, inl, inr, Option-cases,
  Outcome-cases,
}
use zicket_contract.Ticket.Types.{Ticket, valid, recovery_key_not_found, ticket_recovered, Store}
use zicket_contract.Ticket.Storage.{
  get_owner_tickets_count, has_owner_ticket, update_ticket, remove_recovery_key, get_recovery_key,
}
use zicket_contract.Ticket.Contract.{
  publish, read_next_ticket_id, move_owner, set_recovery_key, recover_ticket,
}
use zicket_contract.Ticket.Invariant.{IsWellFormed}
use zicket_contract.Ticket.Invariant.Moves.{
  reowned, move_owner-IsWellFormed, move_owner-next, move_owner-tickets, publish-IsWellFormed,
  SameOwnership, SameOwnership-IsWellFormed,
}
use zicket_contract.Ticket.Transfers.{update_ticket-reowned}

-- What a recovery has met and done.
pub record Recovered (env : Env) (id : ℕ) (new_owner : Address) (signature : Bytes) (s s' : Store)
    : Type 0 where
  pub ticket : Ticket
  pub found : s.tickets id ≡ some ticket
  pub unused : (ticket.is_used ≡ false) × (ticket.status ≡ valid)
  pub key : Bytes
  pub registered : s.recovery_key id ≡ some key
  pub signed : env.ed25519_verifies key (env.address_xdr new_owner) signature ≡ true
  pub middle : Store
  pub moved : move_owner ticket.owner new_owner id (reowned id ticket new_owner s) ≡ ok middle
  pub result :
      s'
      ≡ publish
          (ticket_recovered id ticket.owner new_owner env.timestamp)
          (remove_recovery_key id middle)

pub recover_ticket-Recovered :
    (env : Env) (id : ℕ) (new_owner : Address) (signature : Bytes) (s : Store) {s' : Store}
    → IsWellFormed s
    → recover_ticket env id new_owner signature s ≡ ok s'
    → Recovered env id new_owner signature s s'
unfolding recover_ticket
recover_ticket-Recovered env id new_owner signature s h e = elim (Option-cases (s.tickets id)) [
  | inl missing ↦ absurd (ground arith)
  | inr (t, found) ↦ elim (Option-cases (s.recovery_key id)) [
    | inl keyless ↦ absurd (ground arith)
    | inr (key, registered) ↦
        elim (Outcome-cases
          (move_owner t.owner new_owner id (update_ticket (record t { owner = new_owner }) s))) [
            | inl (u, moved) ↦ record {
              ticket = t;
              found = found;
              unused = ground arith;
              key = key;
              registered = registered;
              signed = ground arith;
              middle = u;
              moved =
                  ap (move_owner t.owner new_owner id)
                    (update_ticket-reowned id t new_owner s (h.ids id t found).0)
                  ∙ moved;
              result = ground arith;
            }
            | inr fails ↦ absurd (ground arith)
          ]
  ]
]

remove_recovery_key-IsWellFormed :
    (id : ℕ) (s : Store) → IsWellFormed s → IsWellFormed (remove_recovery_key id s)
unfolding remove_recovery_key get_owner_tickets_count has_owner_ticket read_next_ticket_id
remove_recovery_key-IsWellFormed id s h = record {
  owners = h.owners;
  membership = h.membership;
  ids = h.ids;
  flags = h.flags;
  credentials = h.credentials;
}

pub recover_ticket-IsWellFormed :
    (env : Env) (id : ℕ) (new_owner : Address) (signature : Bytes) (s : Store) {s' : Store}
    → IsWellFormed s
    → recover_ticket env id new_owner signature s ≡ ok s'
    → IsWellFormed s'
recover_ticket-IsWellFormed env id new_owner signature s h e =
    let x = recover_ticket-Recovered env id new_owner signature s h e in
    let below = move_owner-IsWellFormed new_owner id x.ticket s h x.found x.moved in
    rw x.result (
      publish-IsWellFormed _ _ (
        remove_recovery_key-IsWellFormed id x.middle
          (rw (move_owner-next new_owner id x.ticket s h x.found x.moved) below)))

-- In a well-formed storage a recovery that succeeds had a registered key that verifies the
-- signature over the new owner and a valid ticket, and has given the ticket to the new owner; the
-- key is spent, so every next recovery is refused for want of a key.
pub recover_ticket_once :
    (env later : Env) (id : ℕ) (new_owner next_owner : Address) (signature next_signature : Bytes)
    (s : Store) {s' : Store}
    → IsWellFormed s
    → recover_ticket env id new_owner signature s ≡ ok s'
    → ((key : Bytes) × (s.recovery_key id ≡ some key)
        × (env.ed25519_verifies key (env.address_xdr new_owner) signature ≡ true))
      × ((t : Ticket) × (s.tickets id ≡ some t)
          × (t.status ≡ valid)
          × (s'.tickets id ≡ some (record t { owner = new_owner })))
      × (recover_ticket later id next_owner next_signature s' ≡ err recovery_key_not_found)
unfolding recover_ticket remove_recovery_key get_recovery_key
recover_ticket_once env later id new_owner next_owner signature next_signature s h e =
    let x = recover_ticket-Recovered env id new_owner signature s h e in
    let at =
      move_owner-tickets x.ticket.owner new_owner id (reowned id x.ticket new_owner s) x.moved id in
    (
      (x.key, x.registered, x.signed),
      (x.ticket, x.found, x.unused.1, rw x.result (ground (arith, at))),
      rw x.result (ground (arith, at, x.unused)),
    )

-- Registering a key moves no ticket.
pub set_recovery_key-SameOwnership :
    (env : Env) (owner : Address) (id : ℕ) (key : Bytes) (s : Store) {s' : Store}
    → set_recovery_key env owner id key s ≡ ok s'
    → SameOwnership s s'
unfolding set_recovery_key
set_recovery_key-SameOwnership env owner id key s e = ground arith

pub set_recovery_key-IsWellFormed :
    (env : Env) (owner : Address) (id : ℕ) (key : Bytes) (s : Store) {s' : Store}
    → IsWellFormed s
    → set_recovery_key env owner id key s ≡ ok s'
    → IsWellFormed s'
set_recovery_key-IsWellFormed env owner id key s h e =
    SameOwnership-IsWellFormed (set_recovery_key-SameOwnership env owner id key s e) h
