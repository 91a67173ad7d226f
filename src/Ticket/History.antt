-- ===== src/Ticket/History.antt =====
-- Histories of calls of the ticket contract, contracts/ticket/src/lib.rs, from a new contract on.
-- A call that fails is rolled back.
use mathlib.Core.List.{Mem, Nodup}
use zicket_contract.Base.{
  ℕ, ◌≡◌, ◌↔◌, refl, ap, ◌∙◌, true, false, Option, some, List, [], ◌∷◌, arith, ok, err, trap, ◌>>=◌,
  Env, Address, Symbol, Bytes,
}
use zicket_contract.Index.{IsIndexed-empty}
use zicket_contract.Index.Listing.{mem-collect_iff, Nodup-collect}
use zicket_contract.Ticket.Types.{Ticket, Store, empty}
use zicket_contract.Ticket.Storage.{
  Call, get_owner_tickets_count, has_owner_ticket, get_tickets_by_owner, remove_recovery_key,
  update_ticket,
}
use zicket_contract.Ticket.Contract.{
  is_valid, read_next_ticket_id, mint_ticket, batch_mint_ticket, transfer_ticket, use_ticket,
  cancel_ticket, set_recovery_key, recover_ticket, admin_transfer_ticket,
}
use zicket_contract.Ticket.Admin.{initialize, set_payments_contract, set_event_contract, migrate}
use zicket_contract.Ticket.Invariant.{IsWellFormed, owned_by}
use zicket_contract.Ticket.Invariant.Moves.{
  SameOwnership, SameOwnership-IsWellFormed, move_owner-tickets, reowned,
}
use zicket_contract.Ticket.Transfers.{
  Transferred, transfer_ticket-Transferred, admin_transfer_ticket-Transferred,
  transfer_ticket-IsWellFormed, admin_transfer_ticket-IsWellFormed,
}
use zicket_contract.Ticket.Minting.{
  mint_ticket-IsWellFormed, batch_mint_ticket-IsWellFormed, mint_ticket-keeps,
  batch_mint_ticket-keeps,
}
use zicket_contract.Ticket.Usage.{
  Cancelled, use_ticket-Used, use_ticket-IsWellFormed, cancel_ticket-Cancelled,
  cancel_ticket-IsWellFormed,
}
use zicket_contract.Ticket.Recovery.{
  Recovered, recover_ticket-Recovered, recover_ticket-IsWellFormed, set_recovery_key-SameOwnership,
  set_recovery_key-IsWellFormed,
}

-- The calls that write.
pub data Request : Type 0 where
  mint : Symbol → Address → Address → Request
  batch_mint : Symbol → Address → Address → ℕ → Request
  transfer : Address → Address → ℕ → Request
  consume : Address → Address → ℕ → Request
  cancel : ℕ → Address → Request
  register_key : Address → ℕ → Bytes → Request
  recover : ℕ → Address → Bytes → Request
  admin_transfer : Address → Address → Address → ℕ → Request
  configure : Address → Address → Request
  link_payments : Address → Address → Request
  link_event : Address → Address → Request
  upgrade : Address → Request

unfoldable pub apply : Env → Request → Store → Call Store
apply env (mint event_id organizer owner) s =
    mint_ticket env event_id organizer owner s >>= λ r. ok r.1
apply env (batch_mint event_id organizer owner count) s =
    batch_mint_ticket env event_id organizer owner count s >>= λ r. ok r.1
apply env (transfer from to id) s = transfer_ticket env from to id s
apply env (consume organizer owner id) s = use_ticket env organizer owner id s
apply env (cancel id caller) s = cancel_ticket env id caller s
apply env (register_key owner id key) s = set_recovery_key env owner id key s
apply env (recover id new_owner signature) s = recover_ticket env id new_owner signature s
apply env (admin_transfer admin from to id) s = admin_transfer_ticket env admin from to id s
apply env (configure admin payments) s = initialize env admin payments s
apply env (link_payments admin payments) s = set_payments_contract env admin payments s
apply env (link_event admin event) s = set_event_contract env admin event s
apply env (upgrade caller) s = migrate env caller s >>= λ r. ok r.1

abbrev settle : Store → Call Store → Store
settle s (ok s') = s'
settle s (err e) = s
settle s trap = s

unfoldable pub run : List (Env × Request) → Store → Store
run [] s = s
run ((env, q) ∷ rest) s = run rest (settle s (apply env q s))

initialize-SameOwnership :
    (env : Env) (admin payments : Address) (s : Store) {s' : Store}
    → initialize env admin payments s ≡ ok s'
    → SameOwnership s s'
unfolding initialize
initialize-SameOwnership env admin payments s e = ground arith

set_payments_contract-SameOwnership :
    (env : Env) (admin payments : Address) (s : Store) {s' : Store}
    → set_payments_contract env admin payments s ≡ ok s'
    → SameOwnership s s'
unfolding set_payments_contract
set_payments_contract-SameOwnership env admin payments s e = ground arith

set_event_contract-SameOwnership :
    (env : Env) (admin event : Address) (s : Store) {s' : Store}
    → set_event_contract env admin event s ≡ ok s'
    → SameOwnership s s'
unfolding set_event_contract
set_event_contract-SameOwnership env admin event s e = ground arith

migrate-SameOwnership :
    (env : Env) (caller : Address) (s : Store) {r : ℕ × Store}
    → migrate env caller s ≡ ok r
    → SameOwnership s r.1
unfolding migrate
migrate-SameOwnership env caller s e = ground arith

-- `apply` drops the value that a call returns.
drop-value :
    {A : Type 0} (m : Call (A × Store)) {s' : Store}
    → (m >>= λ r. ok r.1) ≡ ok s'
    → (a : A) × (m ≡ ok (a, s'))
drop-value (ok (a, s)) e = (a, ground arith)
drop-value (err x) e = absurd (ground arith)
drop-value trap e = absurd (ground arith)

apply-IsWellFormed :
    (env : Env) (q : Request) (s : Store) {s' : Store}
    → IsWellFormed s
    → apply env q s ≡ ok s'
    → IsWellFormed s'
unfolding apply
apply-IsWellFormed env (mint event_id organizer owner) s h e =
    let r = drop-value (mint_ticket env event_id organizer owner s) e in
    (mint_ticket-IsWellFormed env event_id organizer owner s h r.1).0
apply-IsWellFormed env (batch_mint event_id organizer owner count) s h e =
    let r = drop-value (batch_mint_ticket env event_id organizer owner count s) e in
    (batch_mint_ticket-IsWellFormed env event_id organizer owner count s h r.1).0
apply-IsWellFormed env (transfer from to id) s h e =
    transfer_ticket-IsWellFormed env from to id s h e
apply-IsWellFormed env (consume organizer owner id) s h e =
    use_ticket-IsWellFormed env organizer owner id s h e
apply-IsWellFormed env (cancel id caller) s h e = cancel_ticket-IsWellFormed env caller id s h e
apply-IsWellFormed env (register_key owner id key) s h e =
    set_recovery_key-IsWellFormed env owner id key s h e
apply-IsWellFormed env (recover id new_owner signature) s h e =
    recover_ticket-IsWellFormed env id new_owner signature s h e
apply-IsWellFormed env (admin_transfer admin from to id) s h e =
    admin_transfer_ticket-IsWellFormed env admin from to id s h e
apply-IsWellFormed env (configure admin payments) s h e =
    SameOwnership-IsWellFormed (initialize-SameOwnership env admin payments s e) h
apply-IsWellFormed env (link_payments admin payments) s h e =
    SameOwnership-IsWellFormed (set_payments_contract-SameOwnership env admin payments s e) h
apply-IsWellFormed env (link_event admin event) s h e =
    SameOwnership-IsWellFormed (set_event_contract-SameOwnership env admin event s e) h
apply-IsWellFormed env (upgrade caller) s h e =
    let r = drop-value (migrate env caller s) e in
    SameOwnership-IsWellFormed (migrate-SameOwnership env caller s r.1) h

pub empty-IsWellFormed : IsWellFormed empty
unfolding read_next_ticket_id get_owner_tickets_count has_owner_ticket
empty-IsWellFormed = record {
  owners = λ a. IsIndexed-empty;
  membership = λ a id. refl;
  ids = λ id t e. absurd (ground arith);
  flags = λ id t e. absurd (ground arith);
  credentials = λ id. refl;
}

settle-keeps :
    (P : Store → Type 0) (s : Store) (m : Call Store)
    → P s
    → ((s' : Store) → m ≡ ok s' → P s')
    → P (settle s m)
settle-keeps P s (ok s') p f = f s' refl
settle-keeps P s (err e) p f = p
settle-keeps P s trap p f = p

-- From a well-formed storage, every history of calls of the ticket contract, failed ones included,
-- ends in a well-formed storage.
pub run-IsWellFormed :
    (rs : List (Env × Request)) (s : Store) → IsWellFormed s → IsWellFormed (run rs s)
unfolding run
run-IsWellFormed [] s h = h
run-IsWellFormed ((env, q) ∷ rest) s h =
    run-IsWellFormed rest _
      (settle-keeps IsWellFormed s (apply env q s) h (λ s' e. apply-IsWellFormed env q s h e))

module _ (id : ℕ) (t : Ticket) (final : is_valid t.status ≡ false) where
  Transferred-final :
      {env : Env} {from to : Address} {j : ℕ} {s s' : Store}
      → Transferred env from to j s s'
      → s.tickets id ≡ some t
      → s'.tickets id ≡ some t
  Transferred-final {env} {from} {to} {j} {s} {s'} x at = rw x.published (
      ground
        (arith, x.found, x.live, move_owner-tickets from to j (reowned j x.ticket to s) x.moved id))

  Cancelled-final :
      {env : Env} {caller : Address} {j : ℕ} {s s' : Store}
      → Cancelled env caller j s s'
      → IsWellFormed s
      → s.tickets id ≡ some t
      → s'.tickets id ≡ some t
  unfolding update_ticket
  Cancelled-final {j} x h at =
      rw x.result (ground (arith, x.found, x.unused, h.ids j x.ticket x.found))

  Recovered-final :
      {env : Env} {j : ℕ} {new_owner : Address} {signature : Bytes} {s s' : Store}
      → Recovered env j new_owner signature s s'
      → s.tickets id ≡ some t
      → s'.tickets id ≡ some t
  unfolding remove_recovery_key
  Recovered-final {j} {new_owner} {s} x at = rw x.result (
      ground (
        arith,
        x.found,
        x.unused,
        move_owner-tickets x.ticket.owner new_owner j (reowned j x.ticket new_owner s) x.moved id,
      ))

  apply-final :
      (env : Env) (q : Request) (s : Store) {s' : Store}
      → IsWellFormed s
      → s.tickets id ≡ some t
      → apply env q s ≡ ok s'
      → s'.tickets id ≡ some t
  unfolding apply
  apply-final env (mint event_id organizer owner) s h at e =
      let r = drop-value (mint_ticket env event_id organizer owner s) e in
      mint_ticket-keeps env event_id organizer owner s r.1 id (h.ids id t at).1 ∙ at
  apply-final env (batch_mint event_id organizer owner count) s h at e =
      let r = drop-value (batch_mint_ticket env event_id organizer owner count s) e in
      batch_mint_ticket-keeps env event_id organizer owner count s r.1 id (h.ids id t at).1 ∙ at
  apply-final env (transfer from to j) s h at e =
      Transferred-final (transfer_ticket-Transferred env from to j s e).0 at
  apply-final env (consume organizer owner j) s h at e =
      let u = use_ticket-Used env organizer owner j s e in
      ground (arith, u.found, u.unused, ap (λ (f : ℕ → Option Ticket). f id) u.stored)
  apply-final env (cancel j caller) s h at e =
      Cancelled-final (cancel_ticket-Cancelled env caller j s e) h at
  apply-final env (register_key owner j key) s h at e =
      ap (λ (f : ℕ → Option Ticket). f id)
        (set_recovery_key-SameOwnership env owner j key s e).same.same_tickets
      ∙ at
  apply-final env (recover j new_owner signature) s h at e =
      Recovered-final (recover_ticket-Recovered env j new_owner signature s h e) at
  apply-final env (admin_transfer admin from to j) s h at e =
      Transferred-final (admin_transfer_ticket-Transferred env admin from to j s h e).0 at
  apply-final env (configure admin payments) s h at e =
      ap (λ (f : ℕ → Option Ticket). f id)
        (initialize-SameOwnership env admin payments s e).same.same_tickets
      ∙ at
  apply-final env (link_payments admin payments) s h at e =
      ap (λ (f : ℕ → Option Ticket). f id)
        (set_payments_contract-SameOwnership env admin payments s e).same.same_tickets
      ∙ at
  apply-final env (link_event admin event) s h at e =
      ap (λ (f : ℕ → Option Ticket). f id)
        (set_event_contract-SameOwnership env admin event s e).same.same_tickets
      ∙ at
  apply-final env (upgrade caller) s h at e =
      let r = drop-value (migrate env caller s) e in
      ap (λ (f : ℕ → Option Ticket). f id)
        (migrate-SameOwnership env caller s r.1).same.same_tickets
      ∙ at

  -- In a well-formed storage a ticket that is used or cancelled stays exactly as it is under every
  -- history of calls.
  pub run-final :
      (rs : List (Env × Request)) (s : Store)
      → IsWellFormed s
      → s.tickets id ≡ some t
      → (run rs s).tickets id ≡ some t
  unfolding run
  run-final [] s h at = at
  run-final ((env, q) ∷ rest) s h at =
      run-final rest _
        (settle-keeps IsWellFormed s (apply env q s) h (λ s' e. apply-IsWellFormed env q s h e))
        (settle-keeps (λ u. u.tickets id ≡ some t) s (apply env q s) at
          (λ s' e. apply-final env q s h at e))

-- After any history of calls of a new ticket contract, the tickets that get_tickets_by_owner lists
-- for an address are exactly those that name the address as their owner, each listed once.
pub tickets_by_owner :
    (rs : List (Env × Request)) (a : Address)
    → ((id : ℕ)
        → Mem id (get_tickets_by_owner a (run rs empty))
          ↔ (owned_by a ((run rs empty).tickets id) ≡ true))
      × Nodup (get_tickets_by_owner a (run rs empty))
unfolding get_tickets_by_owner has_owner_ticket
tickets_by_owner rs a =
    let h = run-IsWellFormed rs empty empty-IsWellFormed in
    (
      λ id.
          let iff = mem-collect_iff (h.owners a) id in
          (
            λ m. ground (arith, iff.0 m, h.membership a id),
            λ e. iff.1 (ground (arith, h.membership a id)),
          ),
      Nodup-collect (h.owners a),
    )
