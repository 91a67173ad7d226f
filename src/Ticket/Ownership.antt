-- ===== src/Ticket/Ownership.antt =====
-- The owner index of contracts/ticket/src/storage.rs under its two operations.
use zicket_contract.Base.{
  ℕ, ◌+◌, ◌-◌, ◌<◌, ◌⊎◌, ◌≡◌, inl, inr, true, false, none, some, arith, ◌==◌, if◌then◌else◌, ok,
  Address, update, update₂, is_some-eq-false, eq_self, eq-cases, lt-cases,
}
use zicket_contract.Index.{IsIndexed, IsIndexed-add, IsIndexed-remove_last, IsIndexed-remove_swap}
use zicket_contract.Ticket.Types.{Store}
use zicket_contract.Ticket.Storage.{
  get_owner_tickets_count, add_owner_ticket, has_owner_ticket, remove_owner_ticket,
}

-- The index of every owner is well formed.
abbrev pub IsIndexedByOwner : Store → Type 0
IsIndexedByOwner s =
    (a : Address)
    → IsIndexed (s.owner_ticket a) (s.owner_ticket_index a) (get_owner_tickets_count a s)

pub has_owner_ticket-add :
    (o : Address) (id : ℕ) (s : Store) {s' : Store}
    → add_owner_ticket o id s ≡ ok s'
    → (a : Address) (j : ℕ)
    → has_owner_ticket a j s' ≡ (
        if a == o
        then (if j == id then true else has_owner_ticket a j s)
        else has_owner_ticket a j s)
unfolding add_owner_ticket has_owner_ticket
has_owner_ticket-add o id s e a j = ground arith

-- The storage after `add_owner_ticket`.
abbrev owner_added : Address → ℕ → Store → Store
unfolding get_owner_tickets_count
owner_added o id s =
    let count = get_owner_tickets_count o s in
    record s {
      owner_ticket = update₂ s.owner_ticket o id (some count);
      owner_ticket_index = update₂ s.owner_ticket_index o count (some id);
      owner_tickets_count = update s.owner_tickets_count o (some (count + 1));
    }

add_owner_ticket-eq :
    (o : Address) (id : ℕ) (s : Store) {s' : Store}
    → add_owner_ticket o id s ≡ ok s'
    → s' ≡ owner_added o id s
unfolding add_owner_ticket
add_owner_ticket-eq o id s e = ground arith

pub add_owner_ticket-IsIndexed :
    (o : Address) (id : ℕ) (s : Store) {s' : Store}
    → IsIndexedByOwner s
    → has_owner_ticket o id s ≡ false
    → add_owner_ticket o id s ≡ ok s'
    → IsIndexedByOwner s'
unfolding has_owner_ticket get_owner_tickets_count owner_added
add_owner_ticket-IsIndexed o id s h new e a =
    rw (add_owner_ticket-eq o id s e) (elim (eq-cases a o) [
      | inl (t, same) ↦ rw (same, eq_self o) (IsIndexed-add (h o) id (is_some-eq-false _ new))
      | inr (t, other) ↦ rw t (h a)
    ])

-- The storage after the removal of the last member, and of another one.
abbrev without_last : Address → ℕ → Store → Store
unfolding get_owner_tickets_count
without_last o id s =
    let last = get_owner_tickets_count o s - 1 in
    record s {
      owner_ticket = update₂ s.owner_ticket o id none;
      owner_ticket_index = update₂ s.owner_ticket_index o last none;
      owner_tickets_count = update s.owner_tickets_count o (some last);
    }

abbrev with_moved : Address → ℕ → ℕ → ℕ → Store → Store
unfolding get_owner_tickets_count
with_moved o id i moved s =
    let last = get_owner_tickets_count o s - 1 in
    record s {
      owner_ticket = update₂ (update₂ s.owner_ticket o id none) o moved (some i);
      owner_ticket_index = update₂ (update₂ s.owner_ticket_index o i (some moved)) o last none;
      owner_tickets_count = update s.owner_tickets_count o (some last);
    }

module _ (o : Address) (id : ℕ) (s : Store) (h : IsIndexedByOwner s) {i : ℕ}
    (held : s.owner_ticket o id ≡ some i) where
  -- How `remove_owner_ticket` ends for a member.
  remove_owner_ticket-cases :
      (i ≡ get_owner_tickets_count o s - 1) × (remove_owner_ticket o id s ≡ without_last o id s)
      ⊎ ((moved : ℕ) × (i < get_owner_tickets_count o s - 1)
          × (s.owner_ticket_index o (get_owner_tickets_count o s - 1) ≡ some moved)
          × (remove_owner_ticket o id s ≡ with_moved o id i moved s))
  unfolding remove_owner_ticket get_owner_tickets_count without_last with_moved
  remove_owner_ticket-cases =
      let at = (h o).placed id i held in
      elim (lt-cases i (get_owner_tickets_count o s - 1)) [
        | inl (t, lt) ↦
            let last = (h o).filled (get_owner_tickets_count o s - 1) (omega arith) in
            inr (last.0, lt, last.1, ground (arith, last.1))
        | inr (t, ge) ↦ inl (omega arith, ground arith)
      ]

  pub remove_owner_ticket-IsIndexed : IsIndexedByOwner (remove_owner_ticket o id s)
  unfolding get_owner_tickets_count without_last with_moved
  remove_owner_ticket-IsIndexed a = elim remove_owner_ticket-cases [
    | inl (last, e) ↦ rw e (elim (eq-cases a o) [
      | inl (t, same) ↦ rw (same, eq_self o) (IsIndexed-remove_last (h o) id i held last)
      | inr (t, other) ↦ rw t (h a)
    ])
    | inr (moved, lt, last, e) ↦ rw e (elim (eq-cases a o) [
      | inl (t, same) ↦ rw (same, eq_self o) (IsIndexed-remove_swap (h o) id i moved held lt last)
      | inr (t, other) ↦ rw t (h a)
    ])
  ]

  -- Exactly the removed membership is gone, also where the last ticket has moved.
  pub has_owner_ticket-remove :
      (a : Address) (j : ℕ)
      → has_owner_ticket a j (remove_owner_ticket o id s) ≡ (
          if a == o
          then (if j == id then false else has_owner_ticket a j s)
          else has_owner_ticket a j s)
  unfolding has_owner_ticket get_owner_tickets_count without_last with_moved
  has_owner_ticket-remove a j = elim remove_owner_ticket-cases [
    | inl (last, e) ↦ rw e (ground arith)
    | inr (moved, lt, last, e) ↦
        let member =
          (h o).filled (get_owner_tickets_count o s - 1)
            (omega (arith, lt, (h o).placed id i held)) in
        rw e (ground (arith, member.1, member.2))
  ]
