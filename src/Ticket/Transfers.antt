-- ===== src/Ticket/Transfers.antt =====
-- `transfer_ticket`, `admin_transfer_ticket` and `recover_ticket` of contracts/ticket/src/lib.rs.
use zicket_contract.Base.{
  ℕ, ◌<◌, u64_max, is_ok, unwrap_or, ◌≡◌, ◌≢◌, ap, ◌∙◌, inl, inr, true, false, some, arith, ok, Env,
  Address, Option-cases, Outcome-cases,
}
use zicket_contract.Ticket.Types.{Ticket, valid, ticket_transferred, Store}
use zicket_contract.Ticket.Storage.{
  add_owner_ticket, remove_owner_ticket, get_owner_tickets_count, update_ticket,
}
use zicket_contract.Ticket.Contract.{move_owner, publish, transfer_ticket, admin_transfer_ticket}
use zicket_contract.Ticket.Invariant.{IsWellFormed}
use zicket_contract.Ticket.Invariant.Moves.{
  reowned, move_owner-IsWellFormed, move_owner-next, move_owner-tickets, publish-IsWellFormed,
}

-- What a successful transfer of ticket `id` from `from` to `to` has met and done.
pub record Transferred (env : Env) (from to : Address) (id : ℕ) (s s' : Store) : Type 0 where
  pub ticket : Ticket
  pub found : s.tickets id ≡ some ticket
  pub owner : ticket.owner ≡ from
  pub transferable : ticket.is_transferable ≡ true
  pub unused : ticket.is_used ≡ false
  pub live : ticket.status ≡ valid
  pub middle : Store
  pub moved : move_owner from to id (reowned id ticket to s) ≡ ok middle
  pub published : s' ≡ publish (ticket_transferred id ticket.event_id from to env.timestamp) middle

pub transfer_ticket-Transferred :
    (env : Env) (from to : Address) (id : ℕ) (s : Store) {s' : Store}
    → transfer_ticket env from to id s ≡ ok s'
    → Transferred env from to id s s' × (env.authorized from ≡ true) × (from ≢ to)
unfolding transfer_ticket
transfer_ticket-Transferred env from to id s e = elim (Option-cases (s.tickets id)) [
  | inl missing ↦ absurd (ground arith)
  | inr (t, found) ↦ elim (Outcome-cases (move_owner from to id (reowned id t to s))) [
    | inl (u, moved) ↦ (
      record {
        ticket = t;
        found = found;
        owner = ground arith;
        transferable = ground arith;
        unused = ground arith;
        live = ground arith;
        middle = u;
        moved = moved;
        published = ground arith;
      },
      ground arith,
      ground arith,
    )
    | inr fails ↦ absurd (ground arith)
  ]
]

-- `update_ticket` writes under the ticket's own id.
pub update_ticket-reowned :
    (id : ℕ) (t : Ticket) (to : Address) (s : Store)
    → t.ticket_id ≡ id
    → reowned id t to s ≡ update_ticket (record t { owner = to }) s
unfolding update_ticket
update_ticket-reowned id t to s e = rw e

pub admin_transfer_ticket-Transferred :
    (env : Env) (admin from to : Address) (id : ℕ) (s : Store) {s' : Store}
    → IsWellFormed s
    → admin_transfer_ticket env admin from to id s ≡ ok s'
    → Transferred env from to id s s'
      × (env.authorized admin ≡ true)
      × (s.payments_contract ≡ some admin)
unfolding admin_transfer_ticket
admin_transfer_ticket-Transferred env admin from to id s h e = elim (Option-cases (s.tickets id)) [
  | inl missing ↦ absurd (ground arith)
  | inr (t, found) ↦
      elim (Outcome-cases (move_owner from to id (update_ticket (record t { owner = to }) s))) [
        | inl (u, moved) ↦ (
          record {
            ticket = t;
            found = found;
            owner = ground arith;
            transferable = ground arith;
            unused = ground arith;
            live = ground arith;
            middle = u;
            moved =
                ap (move_owner from to id) (update_ticket-reowned id t to s (h.ids id t found).0)
                ∙ moved;
            published = ground arith;
          },
          ground arith,
          ground arith,
        )
        | inr fails ↦ absurd (ground arith)
      ]
]

Transferred-IsWellFormed :
    {env : Env} {from to : Address} {id : ℕ} {s s' : Store}
    → Transferred env from to id s s'
    → IsWellFormed s
    → IsWellFormed s'
Transferred-IsWellFormed {env} {from} {to} {id} {s} {s'} x h =
    let moved : move_owner x.ticket.owner to id (reowned id x.ticket to s) ≡ ok x.middle =
      rw x.owner x.moved in
    let valid_below = move_owner-IsWellFormed to id x.ticket s h x.found moved in
    rw x.published (
      publish-IsWellFormed _ x.middle
        (rw (move_owner-next to id x.ticket s h x.found moved) valid_below))

-- A transfer keeps the storage well formed.
pub transfer_ticket-IsWellFormed :
    (env : Env) (from to : Address) (id : ℕ) (s : Store) {s' : Store}
    → IsWellFormed s
    → transfer_ticket env from to id s ≡ ok s'
    → IsWellFormed s'
transfer_ticket-IsWellFormed env from to id s h e =
    Transferred-IsWellFormed (transfer_ticket-Transferred env from to id s e).0 h

-- So does one that the payments contract makes, also from an owner to itself.
pub admin_transfer_ticket-IsWellFormed :
    (env : Env) (admin from to : Address) (id : ℕ) (s : Store) {s' : Store}
    → IsWellFormed s
    → admin_transfer_ticket env admin from to id s ≡ ok s'
    → IsWellFormed s'
admin_transfer_ticket-IsWellFormed env admin from to id s h e =
    Transferred-IsWellFormed (admin_transfer_ticket-Transferred env admin from to id s h e).0 h

-- A transfer that succeeds was authorized by the sender, who owns the valid, unused, transferable
-- ticket and is not the receiver; it changes the owner of that ticket and no other ticket.
pub transfer_ticket_effect :
    (env : Env) (from to : Address) (id : ℕ) (s : Store) {s' : Store}
    → transfer_ticket env from to id s ≡ ok s'
    → (env.authorized from ≡ true)
      × (from ≢ to)
      × ((t : Ticket) × (s.tickets id ≡ some t)
          × (t.owner ≡ from)
          × (t.is_transferable ≡ true)
          × (t.is_used ≡ false)
          × (t.status ≡ valid)
          × (s'.tickets id ≡ some (record t { owner = to })))
      × ((j : ℕ) → j ≢ id → s'.tickets j ≡ s.tickets j)
transfer_ticket_effect env from to id s e =
    let (x, signed, apart) = transfer_ticket-Transferred env from to id s e in
    let after = move_owner-tickets from to id (reowned id x.ticket to s) x.moved in
    (
      signed,
      apart,
      (
        x.ticket,
        x.found,
        x.owner,
        x.transferable,
        x.unused,
        x.live,
        rw x.published (ground (arith, after id)),
      ),
      λ j other. rw x.published (ground (arith, after j)),
    )

remove_owner_ticket_others :
    (from to : Address) (id : ℕ) (s : Store)
    → from ≢ to
    → get_owner_tickets_count to (remove_owner_ticket from id s) ≡ get_owner_tickets_count to s
unfolding remove_owner_ticket get_owner_tickets_count
remove_owner_ticket_others from to id s apart = ground arith

move_owner_room :
    (from to : Address) (id : ℕ) (s : Store)
    → from ≢ to
    → unwrap_or (s.owner_tickets_count to) 0 < u64_max
    → is_ok (move_owner from to id s) ≡ true
unfolding move_owner add_owner_ticket get_owner_tickets_count
move_owner_room from to id s apart room =
    ground (arith, remove_owner_ticket_others from to id s apart)

-- A transfer succeeds whenever the sender has authorized it, owns the valid, unused, transferable
-- ticket and is not the receiver, and the receiver's ticket count is below the largest u64.
pub transfer_ticket_succeeds :
    (env : Env) (from to : Address) (id : ℕ) (s : Store) (t : Ticket)
    → env.authorized from ≡ true
    → from ≢ to
    → s.tickets id ≡ some t
    → t.owner ≡ from
    → t.is_transferable ≡ true
    → t.is_used ≡ false
    → t.status ≡ valid
    → get_owner_tickets_count to s < u64_max
    → (s' : Store) × (transfer_ticket env from to id s ≡ ok s')
unfolding transfer_ticket get_owner_tickets_count
transfer_ticket_succeeds env from to id s t signed apart found owner transferable unused live room =
    elim (Outcome-cases (move_owner from to id (reowned id t to s))) [
      | inl (u, moved) ↦
          (publish (ticket_transferred id t.event_id from to env.timestamp) u, ground arith)
      | inr fails ↦ absurd (ground (arith, move_owner_room from to id (reowned id t to s) apart))
    ]
