-- ===== src/Event/Enrollment.antt =====
-- What a registration leaves in the three contracts: `register_for_event` of
-- contracts/event/src/lib.rs.
use zicket_contract.Base.{
  if◌then◌else◌, is_ok, ok, Address, Symbol, Bytes, require_auth, call_env, invoke, Env, ok-Ensures,
  bind-Ensures, test-Ensures, never-is_ok, invoke_inv, Ensures, ℕ, ◌≡◌, refl, sym, ◌∙◌, true, false,
  not, Option, some, arith,
}
use zicket_contract.Payments.Types.{Token}
use zicket_contract.Ticket.Types.{Ticket}
use mathlib.Core.Path.{subst}
use zicket_contract.Ticket.Contract.{mint_ticket, new_ticket}
use zicket_contract.Event.Types.{Event, Store, World, event_not_active, already_registered}
use zicket_contract.Event.Storage.{
  get_event, is_registered, get_ticket_contract, get_payments_contract,
}
use zicket_contract.Event.Tiers.{tier_at}
use zicket_contract.Event.Status.{is_active}
use zicket_contract.Event.Registration.{
  require_settleable_privacy, reserve_ticket, check_claims, is_free, check_registration,
  record_registration, buy_tier, mint_seat, register_for_event,
}
use zicket_contract.Event.Lifecycle.{get_event-stored}
use zicket_contract.Event.Records.{Enrolled, record_registration-Enrolled, mint_ticket-mints, Holds}

unregistered :
    (env : Env) (attendee : Address) (event_id : Symbol) (tier_id : ℕ) (event : Event) (s : Store)
    → Ensures
        (λ _. is_registered event_id attendee s ≡ false)
        (check_registration env attendee event_id tier_id event s)
unfolding check_registration
unregistered env attendee event_id tier_id event s =
    test-Ensures (not (is_active event.status)) event_not_active λ _.
      bind-Ensures (require_settleable_privacy event_id s) λ _ _.
        bind-Ensures
          (if is_free (tier_at tier_id event.tiers)
            then check_claims env event_id attendee s
            else ok tt)
          λ _ _.
            test-Ensures (is_registered event_id attendee s) already_registered
              λ fresh. record { holds = λ _ _. fresh }

module _ {T : Type 0} where
  mint_seat-Holds :
      (env : Env) (event : Event) (owner : Address) (w : World T)
      → Ensures
          (λ u.
            (id : ℕ) × (ticket : Ticket) × (u.tickets.tickets id ≡ some ticket)
            × Holds event owner ticket)
          (mint_seat env event owner w)
  unfolding mint_seat
  mint_seat-Holds env event owner w =
      bind-Ensures (get_ticket_contract w.event) λ ticket_contract _.
        let there = call_env env ticket_contract in
        bind-Ensures (invoke (mint_ticket there event.event_id event.organizer owner w.tickets))
          λ r e. ok-Ensures (
            r.0,
            new_ticket there event.event_id event.organizer owner r.0,
            (mint_ticket-mints there event.event_id event.organizer owner w.tickets).holds r
                (invoke_inv _ e),
            record { of_event = refl; by_organizer = refl; owned = refl; usable = refl },
          )

  -- What a registration has made of the three contracts.
  pub record Registers (event_id : Symbol) (attendee : Address) (w : World T) (event : Event)
      (u : World T) : Type 0 where
    pub fresh : is_registered event_id attendee w.event ≡ false
    pub enrolled : Enrolled event_id attendee 1 event u.event
    pub holds_ticket :
        (id : ℕ) × (ticket : Ticket) × (u.tickets.tickets id ≡ some ticket)
        × Holds event attendee ticket

  register_for_event-Registers :
      (env : Env) (token : Token T) (nonce : ℕ) (attendee : Address) (event_id : Symbol)
      (tier_id : ℕ) (email_hash : Option Bytes) (w : World T) (event : Event)
      → w.event.event event_id ≡ some event
      → Ensures
          (Registers event_id attendee w event)
          (register_for_event env token nonce attendee event_id tier_id email_hash w)
  unfolding register_for_event
  register_for_event-Registers env token nonce attendee event_id tier_id email_hash w event stored =
      bind-Ensures (require_auth env attendee) λ _ _.
        bind-Ensures (get_event event_id w.event) λ event' got.
          bind-Ensures (check_registration env attendee event_id tier_id event' w.event) λ found e.
            bind-Ensures (get_payments_contract w.event) λ _ _.
              bind-Ensures (get_ticket_contract w.event) λ _ _.
                let price = found.1.price in
                bind-Ensures (buy_tier env token nonce attendee event_id price price email_hash w)
                  λ v _. bind-Ensures (mint_seat env event' attendee v) λ x minted.
                    bind-Ensures
                      (record_registration env attendee event_id tier_id found.0 found.1 event'
                        x.event)
                      λ s recorded.
                        let same : event' ≡ event =
                          (let stored' = get_event-stored event_id w.event got in ground arith) in
                        ok-Ensures (record {
                          fresh =
                              (unregistered env attendee event_id tier_id event' w.event).holds
                                found e;
                          enrolled =
                              subst (λ y. Enrolled event_id attendee 1 y s) same
                                ((record_registration-Enrolled env attendee event_id tier_id found.0
                                    found.1 event' x.event).holds
                                  s recorded);
                          holds_ticket =
                              subst
                                (λ y.
                                  (id : ℕ) × (ticket : Ticket) × (x.tickets.tickets id
                                    ≡ some ticket)
                                  × Holds y attendee ticket)
                                same ((mint_seat-Holds env event' attendee v).holds x minted);
                        })

  -- A registration at a stored event succeeds only for an attendee who was not registered; it
  -- leaves the attendee registered, one more ticket of the event sold, and in the ticket contract a
  -- valid ticket of the attendee for the event and its organizer.
  pub register_for_event_effect :
      (env : Env) (token : Token T) (nonce : ℕ) (attendee : Address) (event_id : Symbol)
      (tier_id : ℕ) (email_hash : Option Bytes) (w u : World T) (event : Event)
      → w.event.event event_id ≡ some event
      → register_for_event env token nonce attendee event_id tier_id email_hash w ≡ ok u
      → Registers event_id attendee w event u
  register_for_event_effect env token nonce attendee event_id tier_id email_hash w u event stored =
      (register_for_event-Registers env token nonce attendee event_id tier_id email_hash w event
          stored).holds
        u

  enrolled-refused :
      (env : Env) (token : Token T) (nonce : ℕ) (attendee : Address) (event_id : Symbol)
      (tier_id : ℕ) (email_hash : Option Bytes) (w : World T)
      → is_registered event_id attendee w.event ≡ true
      → Ensures
          (λ _. true ≡ false)
          (register_for_event env token nonce attendee event_id tier_id email_hash w)
  unfolding register_for_event
  enrolled-refused env token nonce attendee event_id tier_id email_hash w registered =
      bind-Ensures (require_auth env attendee) λ _ _.
        bind-Ensures (get_event event_id w.event) λ event _.
          bind-Ensures (check_registration env attendee event_id tier_id event w.event) λ found e.
            record {
              holds = λ _ _.
                  sym registered
                  ∙ (unregistered env attendee event_id tier_id event w.event).holds found e;
            }

  -- After an attendee has registered at a stored event, every further registration and every
  -- reservation of the attendee at the event is refused in the storage that is left, whatever the
  -- tier, the nonce and the host.
  pub register_for_event_once :
      (env env' : Env) (token : Token T) (nonce nonce' : ℕ) (attendee : Address) (event_id : Symbol)
      (tier_id tier_id' : ℕ) (email_hash email_hash' : Option Bytes) (w u : World T) (event : Event)
      → w.event.event event_id ≡ some event
      → register_for_event env token nonce attendee event_id tier_id email_hash w ≡ ok u
      → (is_ok (register_for_event env' token nonce' attendee event_id tier_id' email_hash' u)
          ≡ false)
        × (is_ok (reserve_ticket env' attendee event_id tier_id' u.event) ≡ false)
  unfolding is_registered reserve_ticket
  register_for_event_once env env' token nonce nonce' attendee event_id tier_id tier_id' email_hash
        email_hash' w u event stored done =
      let effect =
        register_for_event_effect env token nonce attendee event_id tier_id email_hash w u event
          stored done in
      let registered : is_registered event_id attendee u.event ≡ true =
        rw (effect.enrolled.registered) refl in
      (
        never-is_ok _ (
            enrolled-refused env' token nonce' attendee event_id tier_id' email_hash' u registered),
        never-is_ok _ (
            bind-Ensures (require_auth env' attendee) λ _ _.
              bind-Ensures (get_event event_id u.event) λ event' _.
                test-Ensures (not (is_active event'.status)) event_not_active λ _.
                  test-Ensures (is_registered event_id attendee u.event) already_registered
                    λ fresh. record { holds = λ _ _. sym registered ∙ fresh }),
      )
