-- ===== src/Ticket/Minting.antt =====
-- `mint_ticket` and `batch_mint_ticket` of contracts/ticket/src/lib.rs.
use zicket_contract.Base.{
  ℕ, zero, suc, ◌+◌, ◌≤◌, ◌<◌, ◌≡◌, refl, sym, ap, true, false, Option, none, some, List, [], ◌∷◌,
  arith, ok, is_some, Env, Address, Symbol, update, update₂, inl, inr, ok_inj, Option-cases,
  Outcome-cases,
}
use zicket_contract.Ticket.Types.{Ticket, valid, Store}
use zicket_contract.Ticket.Storage.{
  get_owner_tickets_count, add_owner_ticket, has_owner_ticket, add_event_ticket,
  get_event_tickets_count,
}
use zicket_contract.Ticket.Contract.{
  publish, read_next_ticket_id, write_next_ticket_id, new_ticket, minted, store_ticket, mint_ticket,
  mint_loop, batch_mint_ticket,
}
use zicket_contract.Ticket.Ownership.{has_owner_ticket-add, add_owner_ticket-IsIndexed}
use zicket_contract.Ticket.Invariant.{IsWellFormed, IsWellFormedBelow, owned_by, is_used_ticket}
use zicket_contract.Ticket.Invariant.Moves.{
  add_owner_ticket-SameTickets, publish-IsWellFormed, publish-IsWellFormedBelow,
}

-- The storage in which the ticket is stored and not yet indexed.
abbrev with_ticket : Ticket → Store → Store
with_ticket t s = record s { tickets = update s.tickets t.ticket_id (some t) }

-- The index of an event is no part of the invariant.
add_event_ticket-IsWellFormed :
    (e : Symbol) (id : ℕ) (s : Store) {n : ℕ} {s' : Store}
    → IsWellFormedBelow n s
    → add_event_ticket e id s ≡ ok s'
    → IsWellFormedBelow n s'
unfolding add_event_ticket get_owner_tickets_count has_owner_ticket
add_event_ticket-IsWellFormed e id s {n} {s'} h p = rw after (record {
  owners = h.owners;
  membership = h.membership;
  ids = h.ids;
  flags = h.flags;
  credentials = h.credentials;
})
  where
    indexed : Store
    indexed =
        let count = get_event_tickets_count e s in
        record s {
          event_ticket = update₂ s.event_ticket e id (some true);
          event_ticket_index = update₂ s.event_ticket_index e count (some id);
          event_tickets_count = update s.event_tickets_count e (some (count + 1));
        }

    after : s' ≡ indexed
    after = ground arith

module _ (t : Ticket) (s : Store) (h : IsWellFormedBelow t.ticket_id s) (unused : t.is_used ≡ false)
    (live : t.status ≡ valid) {u : Store}
    (added : add_owner_ticket t.owner t.ticket_id (with_ticket t s) ≡ ok u) where
  fresh : s.tickets t.ticket_id ≡ none
  fresh = elim (Option-cases (s.tickets t.ticket_id)) [
    | inl e ↦ e
    | inr (v, e) ↦ absurd (omega (arith, (h.ids t.ticket_id v e).1))
  ]

  unindexed : has_owner_ticket t.owner t.ticket_id (with_ticket t s) ≡ false
  unfolding has_owner_ticket
  unindexed = ground (arith, fresh, h.membership t.owner t.ticket_id)

  tickets_after : (j : ℕ) → u.tickets j ≡ update s.tickets t.ticket_id (some t) j
  tickets_after j =
      ap (λ (f : ℕ → Option Ticket). f j)
        (add_owner_ticket-SameTickets t.owner t.ticket_id (with_ticket t s) added).same_tickets

  membership_after : (a : Address) (j : ℕ) → has_owner_ticket a j u ≡ owned_by a (u.tickets j)
  unfolding has_owner_ticket
  membership_after a j = ground (
    arith,
    has_owner_ticket-add t.owner t.ticket_id (with_ticket t s) added a j,
    tickets_after j,
    h.membership a j,
    h.membership a t.ticket_id,
    fresh,
  )

  credentials_after : (j : ℕ) → is_some (u.attendance_credential j) ≡ is_used_ticket (u.tickets j)
  credentials_after j = ground (
    arith,
    fresh,
    tickets_after j,
    h.credentials j,
    ap (λ (f : ℕ → Option ℕ). f j)
        (add_owner_ticket-SameTickets t.owner t.ticket_id (with_ticket t s) added).same_credential,
  )

  with_ticket-IsWellFormed : IsWellFormedBelow (t.ticket_id + 1) u
  unfolding get_owner_tickets_count
  with_ticket-IsWellFormed = record {
    owners =
        add_owner_ticket-IsIndexed t.owner t.ticket_id (with_ticket t s) h.owners unindexed added;
    membership = membership_after;
    ids = λ j v e. ground (arith, tickets_after j, h.ids j v);
    flags = λ j v e. ground (arith, tickets_after j, h.flags j v);
    credentials = credentials_after;
  }

-- A new ticket is stored and indexed by its owner.
pub store_ticket-IsWellFormed :
    (t : Ticket) (s : Store) {s' : Store}
    → IsWellFormedBelow t.ticket_id s
    → t.is_used ≡ false
    → t.status ≡ valid
    → store_ticket t s ≡ ok s'
    → IsWellFormedBelow (t.ticket_id + 1) s'
unfolding store_ticket
store_ticket-IsWellFormed t s h unused live e =
    elim (Outcome-cases (add_owner_ticket t.owner t.ticket_id (with_ticket t s))) [
      | inl (u, added) ↦
          add_event_ticket-IsWellFormed t.event_id t.ticket_id u
            (with_ticket-IsWellFormed t s h unused live added) (ground arith)
      | inr fails ↦ absurd (ground arith)
    ]

-- `count` ids from `first` on.
pub counted : ℕ → ℕ → List ℕ
counted first zero = []
counted first (suc count) = first ∷ counted (first + 1) count

-- A mint writes its own id alone.
store_ticket-tickets :
    (t : Ticket) (s : Store) {s' : Store}
    → store_ticket t s ≡ ok s'
    → (j : ℕ) → s'.tickets j ≡ update s.tickets t.ticket_id (some t) j
unfolding store_ticket add_event_ticket
store_ticket-tickets t s e j =
    elim (Outcome-cases (add_owner_ticket t.owner t.ticket_id (with_ticket t s))) [
      | inr fails ↦ absurd (ground arith)
      | inl (u, added) ↦ ground (
        arith,
        ap (λ (f : ℕ → Option Ticket). f j)
            (add_owner_ticket-SameTickets t.owner t.ticket_id (with_ticket t s) added).same_tickets,
      )
    ]

module _ (env : Env) (event_id : Symbol) (organizer owner : Address) where
  -- What `mint_loop` gives: the next ids, in order, and a well-formed storage.
  abbrev Minted : ℕ → ℕ → List ℕ × ℕ × Store → Type 0
  Minted next_id count (ids, next, s') =
      IsWellFormedBelow next s' × (next ≡ next_id + count) × (ids ≡ counted next_id count)

  Minted-suc :
      (next_id count : ℕ) (r : List ℕ × ℕ × Store)
      → Minted (next_id + 1) count r
      → Minted next_id (suc count) (next_id ∷ r.0, r.1, r.2)
  unfolding counted
  Minted-suc next_id count r m = (m.0, omega arith, ap (◌∷◌ next_id) m.2)

  mint_loop-Minted :
      (count next_id : ℕ) (s : Store) {r : List ℕ × ℕ × Store}
      → IsWellFormedBelow next_id s
      → mint_loop count env event_id organizer owner next_id s ≡ ok r
      → Minted next_id count r
  unfolding mint_loop counted
  mint_loop-Minted zero next_id s h e = rw (sym (ok_inj e)) (h, omega arith, refl)
  mint_loop-Minted (suc count) next_id s {r} h e =
      let ticket = new_ticket env event_id organizer owner next_id in
      elim (Outcome-cases (store_ticket ticket s)) [
        | inr fails ↦ absurd (ground arith)
        | inl (t, stored) ↦
            let next = publish (minted ticket) t in
            let fit =
              publish-IsWellFormedBelow (minted ticket) t
                (store_ticket-IsWellFormed ticket s h refl refl stored) in
            elim (Outcome-cases (mint_loop count env event_id organizer owner (next_id + 1) next)) [
              | inr fails ↦ absurd (ground arith)
              | inl (r', rest) ↦
                  let done : ◌≡◌ {A = List ℕ × ℕ × Store} r (next_id ∷ r'.0, r'.1, r'.2) =
                    ground arith in
                  rw done (
                    Minted-suc next_id count r'
                      (mint_loop-Minted count (next_id + 1) next fit rest))
            ]
      ]

write_next_ticket_id-IsWellFormed :
    (n : ℕ) (s : Store) → IsWellFormedBelow n s → IsWellFormed (write_next_ticket_id n s)
unfolding write_next_ticket_id read_next_ticket_id get_owner_tickets_count has_owner_ticket
write_next_ticket_id-IsWellFormed n s h = record {
  owners = h.owners;
  membership = h.membership;
  ids = h.ids;
  flags = h.flags;
  credentials = h.credentials;
}

-- A mint returns the next id, stores the ticket under it and keeps the storage well formed.
pub mint_ticket-IsWellFormed :
    (env : Env) (event_id : Symbol) (organizer owner : Address) (s : Store) {id : ℕ} {s' : Store}
    → IsWellFormed s
    → mint_ticket env event_id organizer owner s ≡ ok (id, s')
    → IsWellFormed s' × (id ≡ read_next_ticket_id s) × (read_next_ticket_id s' ≡ id + 1)
unfolding mint_ticket read_next_ticket_id write_next_ticket_id
mint_ticket-IsWellFormed env event_id organizer owner s {id} {s'} h e =
    let ticket = new_ticket env event_id organizer owner (read_next_ticket_id s) in
    elim (Outcome-cases (store_ticket ticket s)) [
      | inr fails ↦ absurd (ground arith)
      | inl (t, stored) ↦
          let done : s'
              ≡ publish (minted ticket) (write_next_ticket_id (read_next_ticket_id s + 1) t) =
            ground arith in
          (
            rw done (
                publish-IsWellFormed (minted ticket) _ (
                  write_next_ticket_id-IsWellFormed _ t
                    (store_ticket-IsWellFormed ticket s h refl refl stored))),
            ground arith,
            ground arith,
          )
    ]

-- From a well-formed storage, a batch mint that succeeds was asked for 1 to 100 tickets, returns
-- that many consecutive ids from the next id on, moves the next id past them and keeps the storage
-- well formed.
pub batch_mint_ticket-IsWellFormed :
    (env : Env) (event_id : Symbol) (organizer owner : Address) (count : ℕ) (s : Store)
    {ids : List ℕ} {s' : Store}
    → IsWellFormed s
    → batch_mint_ticket env event_id organizer owner count s ≡ ok (ids, s')
    → IsWellFormed s'
      × (1 ≤ count)
      × (count ≤ 100)
      × (ids ≡ counted (read_next_ticket_id s) count)
      × (read_next_ticket_id s' ≡ read_next_ticket_id s + count)
unfolding batch_mint_ticket read_next_ticket_id write_next_ticket_id
batch_mint_ticket-IsWellFormed env event_id organizer owner count s {ids} {s'} h e =
    elim (Outcome-cases (mint_loop count env event_id organizer owner (read_next_ticket_id s) s)) [
      | inr fails ↦ absurd (ground arith)
      | inl (r, looped) ↦
          let m =
            mint_loop-Minted env event_id organizer owner count (read_next_ticket_id s) s h
              looped in
          let done : s' ≡ write_next_ticket_id r.1 r.2 = ground arith in
          (
            rw done (write_next_ticket_id-IsWellFormed r.1 r.2 m.0),
            ground arith,
            ground arith,
            ground (arith, m.2),
            ground (arith, m.1),
          )
    ]

-- Minting leaves the tickets that are there.
pub mint_ticket-keeps :
    (env : Env) (event_id : Symbol) (organizer owner : Address) (s : Store) {r : ℕ × Store}
    → mint_ticket env event_id organizer owner s ≡ ok r
    → (j : ℕ) → j < read_next_ticket_id s
    → r.1.tickets j ≡ s.tickets j
unfolding mint_ticket write_next_ticket_id
mint_ticket-keeps env event_id organizer owner s {r} e j old =
    let ticket = new_ticket env event_id organizer owner (read_next_ticket_id s) in
    elim (Outcome-cases (store_ticket ticket s)) [
      | inr fails ↦ absurd (ground arith)
      | inl (t, stored) ↦ ground (arith, store_ticket-tickets ticket s stored j)
    ]

mint_loop-keeps :
    (env : Env) (event_id : Symbol) (organizer owner : Address) (count next_id : ℕ) (s : Store)
    {r : List ℕ × ℕ × Store}
    → mint_loop count env event_id organizer owner next_id s ≡ ok r
    → (j : ℕ) → j < next_id
    → r.2.tickets j ≡ s.tickets j
unfolding mint_loop
mint_loop-keeps env event_id organizer owner zero next_id s e j old = ground arith
mint_loop-keeps env event_id organizer owner (suc count) next_id s {r} e j old =
    let ticket = new_ticket env event_id organizer owner next_id in
    elim (Outcome-cases (store_ticket ticket s)) [
      | inr fails ↦ absurd (ground arith)
      | inl (t, stored) ↦
          let next = publish (minted ticket) t in
          elim (Outcome-cases (mint_loop count env event_id organizer owner (next_id + 1) next)) [
            | inr fails ↦ absurd (ground arith)
            | inl (r', rest) ↦
                let done : r.2 ≡ r'.2 = ground arith in
                ground (
                  arith,
                  done,
                  store_ticket-tickets ticket s stored j,
                  mint_loop-keeps env event_id organizer owner count (next_id + 1) next rest j,
                )
          ]
    ]

pub batch_mint_ticket-keeps :
    (env : Env) (event_id : Symbol) (organizer owner : Address) (count : ℕ) (s : Store)
    {r : List ℕ × Store}
    → batch_mint_ticket env event_id organizer owner count s ≡ ok r
    → (j : ℕ) → j < read_next_ticket_id s
    → r.1.tickets j ≡ s.tickets j
unfolding batch_mint_ticket write_next_ticket_id
batch_mint_ticket-keeps env event_id organizer owner count s {r} e j old =
    elim (Outcome-cases (mint_loop count env event_id organizer owner (read_next_ticket_id s) s)) [
      | inr fails ↦ absurd (ground arith)
      | inl (r', looped) ↦ ground (
        arith,
        mint_loop-keeps env event_id organizer owner count (read_next_ticket_id s) s looped j,
      )
    ]
