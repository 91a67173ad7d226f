-- ===== src/Event/Checkout.antt =====
-- What the registrations make of the stored events, across the calls of the other contracts.
use zicket_contract.Base.{
  ltb, ◌==◌, if◌then◌else◌, ok_or, is_some, ok_or_inv, ok, Address, Symbol, Bytes, require_auth,
  call_env, invoke, Env, ok-Ensures, bind-Ensures, if-Ensures, test-Ensures, Ensures, ℕ, ◌≡◌, refl,
  ap, ◌∙◌, ◌&&◌, ◌||◌, not, Option, none,
}
use zicket_contract.Base.Int.{ℤ, pos, ltb_ℤ, eqb_ℤ}
use zicket_contract.Payments.Types.{Token}
use zicket_contract.Payments.Types
use zicket_contract.Payments.Admin.{get_accepted_token}
use zicket_contract.Payments.Resale.{pay_for_ticket}
use zicket_contract.Ticket.Contract.{mint_ticket, batch_mint_ticket}
use zicket_contract.Event.Types.{
  ZkPassportClaim, Event, World, invalid_input, event_not_active, tier_not_found,
}
use zicket_contract.Event.Storage.{
  get_event, get_ticket_contract, get_payments_contract, has_linked_contracts,
}
use zicket_contract.Event.Tiers.{tier_at, tier_at-At}
use zicket_contract.Event.Status.{is_active}
use zicket_contract.Event.Registration.{
  require_settleable_privacy, check_reservation, check_registration, record_registration, times,
  check_batch_claims, check_user_limit, check_seats, record_batch, pay_tier, buy_tier, mint_seat,
  mint_batch, register_for_event, check_batch, batch_register_for_event,
}
use zicket_contract.Event.Claims.{
  check_attendance, record_attendance, pay_attendance, mint_attendance, verify_and_attend,
}
use zicket_contract.Event.Lifecycle.{WorldOnward, get_event-stored}
use zicket_contract.Event.Schedule.{is_active-status}
use zicket_contract.Event.Sales.{
  check_registration-Sellable, check_seats-within, onward_from, record_registration-Onward,
  record_batch-Onward, Sellable,
}
use zicket_contract.Event.ClaimSales.{check_attendance-Sellable, record_attendance-Onward}

module _ {T : Type 0} where
  pay_tier-event :
      (env : Env) (token : Token T) (nonce : ℕ) (payments_contract payer : Address)
      (event_id : Symbol) (amount : ℤ) (email_hash : Option Bytes) (w : World T)
      → Ensures
          (λ u. u.event ≡ w.event)
          (pay_tier env token nonce payments_contract payer event_id amount email_hash w)
  unfolding pay_tier
  pay_tier-event env token nonce payments_contract payer event_id amount email_hash w =
      bind-Ensures (invoke (get_accepted_token w.payments)) λ accepted_token _.
        bind-Ensures
          (invoke (
            pay_for_ticket (call_env env payments_contract) token nonce payer event_id amount
              email_hash accepted_token Types.standard none none w.payments))
          λ r _. ok-Ensures refl

  buy_tier-event :
      (env : Env) (token : Token T) (nonce : ℕ) (attendee : Address) (event_id : Symbol)
      (price amount : ℤ) (email_hash : Option Bytes) (w : World T)
      → Ensures
          (λ u. u.event ≡ w.event)
          (buy_tier env token nonce attendee event_id price amount email_hash w)
  unfolding buy_tier
  buy_tier-event env token nonce attendee event_id price amount email_hash w =
      bind-Ensures (get_payments_contract w.event) λ payments_contract _.
        if-Ensures (ltb_ℤ (pos 0) price)
          (λ _.
            pay_tier-event env token nonce payments_contract attendee event_id amount email_hash w)
          (λ _. ok-Ensures refl)

  mint_seat-event :
      (env : Env) (event : Event) (owner : Address) (w : World T)
      → Ensures (λ u. u.event ≡ w.event) (mint_seat env event owner w)
  unfolding mint_seat
  mint_seat-event env event owner w =
      bind-Ensures (get_ticket_contract w.event) λ ticket_contract _.
        bind-Ensures
          (invoke (
            mint_ticket (call_env env ticket_contract) event.event_id event.organizer owner
              w.tickets))
          λ r _. ok-Ensures refl

  mint_batch-event :
      (env : Env) (event : Event) (owner : Address) (count : ℕ) (w : World T)
      → Ensures (λ u. u.event ≡ w.event) (mint_batch env event owner count w)
  unfolding mint_batch
  mint_batch-event env event owner count w =
      bind-Ensures (get_ticket_contract w.event) λ ticket_contract _.
        bind-Ensures
          (invoke (
            batch_mint_ticket (call_env env ticket_contract) event.event_id event.organizer owner
              count w.tickets))
          λ r _. ok-Ensures refl

  pub register_for_event-Onward :
      (env : Env) (token : Token T) (nonce : ℕ) (attendee : Address) (event_id : Symbol)
      (tier_id : ℕ) (email_hash : Option Bytes) (w : World T)
      → Ensures
          (WorldOnward w)
          (register_for_event env token nonce attendee event_id tier_id email_hash w)
  unfolding register_for_event
  register_for_event-Onward env token nonce attendee event_id tier_id email_hash w =
      bind-Ensures (require_auth env attendee) λ _ _.
        bind-Ensures (get_event event_id w.event) λ event got.
          bind-Ensures (check_registration env attendee event_id tier_id event w.event) λ found e.
            bind-Ensures (get_payments_contract w.event) λ _ _.
              bind-Ensures (get_ticket_contract w.event) λ _ _.
                let price = found.1.price in
                bind-Ensures (buy_tier env token nonce attendee event_id price price email_hash w)
                  λ u bought. bind-Ensures (mint_seat env event attendee u) λ v minted.
                    bind-Ensures
                      (record_registration env attendee event_id tier_id found.0 found.1 event
                        v.event)
                      λ s recorded.
                        let same =
                          ap (λ x. x.event) ((mint_seat-event env event attendee u).holds v minted)
                          ∙ ap (λ x. x.event)
                              ((buy_tier-event env token nonce attendee event_id price price
                                  email_hash w).holds
                                u bought) in
                        ok-Ensures (
                          onward_from same (
                            (record_registration-Onward env attendee event_id tier_id found event
                                v.event
                                (ap (λ f. f event_id) same ∙ get_event-stored event_id w.event got)
                                ((check_registration-Sellable env attendee event_id tier_id event
                                    w.event).holds
                                  found e)).holds
                              s recorded))

  check_batch-Sellable :
      (env : Env) (attendee : Address) (event_id : Symbol) (tier_id count : ℕ) (event : Event)
      (w : World T)
      → Ensures (Sellable count event) (check_batch env attendee event_id tier_id count event w)
  unfolding check_batch
  check_batch-Sellable env attendee event_id tier_id count event w =
      let reserved = is_some (w.event.reservation event_id attendee) in
      test-Ensures (not (is_active event.status)) event_not_active λ was.
        bind-Ensures (require_settleable_privacy event_id w.event) λ _ _.
          bind-Ensures (ok_or (tier_at tier_id event.tiers) tier_not_found) λ found e.
            bind-Ensures (check_reservation env tier_id (w.event.reservation event_id attendee))
              λ _ _. bind-Ensures (get_ticket_contract w.event) λ _ _.
                bind-Ensures (check_user_limit attendee event_id count event w.tickets) λ _ _.
                  bind-Ensures (check_seats count reserved found.1 event) λ _ e'.
                    bind-Ensures
                      (if eqb_ℤ found.1.price (pos 0)
                        then check_batch_claims env event_id attendee count w.event
                        else ok tt)
                      λ _ _. ok-Ensures (record {
                        stands =
                            (tier_at-At tier_id event.tiers found.0 found.1 (ok_or_inv _ _ e)).0;
                        is_open = is_active-status event.status was;
                        within = (check_seats-within count reserved found.1 event).holds _ e';
                      })

  pub batch_register_for_event-Onward :
      (env : Env) (token : Token T) (nonce : ℕ) (attendee : Address) (event_id : Symbol)
      (tier_id count : ℕ) (email_hash : Option Bytes) (w : World T)
      → Ensures
          (WorldOnward w)
          (batch_register_for_event env token nonce attendee event_id tier_id count email_hash w)
  unfolding batch_register_for_event
  batch_register_for_event-Onward env token nonce attendee event_id tier_id count email_hash w =
      bind-Ensures (require_auth env attendee) λ _ _.
        test-Ensures (count == 0 || ltb 100 count) invalid_input λ _.
          bind-Ensures (get_event event_id w.event) λ event got.
            bind-Ensures (check_batch env attendee event_id tier_id count event w) λ found e.
              let price = found.1.price in
              let all = times count price in
              bind-Ensures (buy_tier env token nonce attendee event_id price all email_hash w)
                λ u bought. bind-Ensures (mint_batch env event attendee count u) λ v minted.
                  bind-Ensures
                    (record_batch env attendee event_id tier_id count found.0 found.1 event v.event)
                    λ s recorded.
                      let same =
                        ap (λ x. x.event)
                          ((mint_batch-event env event attendee count u).holds v minted)
                        ∙ ap (λ x. x.event)
                            ((buy_tier-event env token nonce attendee event_id price all email_hash
                                w).holds
                              u bought) in
                      ok-Ensures (
                        onward_from same (
                          (record_batch-Onward env attendee event_id tier_id count found event
                              v.event
                              (ap (λ f. f event_id) same ∙ get_event-stored event_id w.event got)
                              ((check_batch-Sellable env attendee event_id tier_id count event
                                  w).holds
                                found e)).holds
                            s recorded))

  pay_attendance-event :
      (env : Env) (token : Token T) (event_id : Symbol) (price : ℤ) (w : World T)
      → Ensures (λ u. u.event ≡ w.event) (pay_attendance env token event_id price w)
  unfolding pay_attendance
  pay_attendance-event env token event_id price w =
      if-Ensures (ltb_ℤ (pos 0) price && has_linked_contracts w.event)
        (λ _. bind-Ensures (get_payments_contract w.event) λ payments_contract _.
          pay_tier-event env token 0 payments_contract env.current_contract_address event_id price
            none w)
        (λ _. ok-Ensures refl)

  mint_attendance-event :
      (env : Env) (event : Event) (w : World T)
      → Ensures (λ u. u.event ≡ w.event) (mint_attendance env event w)
  unfolding mint_attendance
  mint_attendance-event env event w =
      if-Ensures (has_linked_contracts w.event)
        (λ _. mint_seat-event env event env.current_contract_address w) (λ _. ok-Ensures refl)

  pub verify_and_attend-Onward :
      (env : Env) (token : Token T) (event_id : Symbol) (tier_id : ℕ) (claim : ZkPassportClaim)
      (w : World T)
      → Ensures (WorldOnward w) (verify_and_attend env token event_id tier_id claim w)
  unfolding verify_and_attend
  verify_and_attend-Onward env token event_id tier_id claim w =
      bind-Ensures (get_event event_id w.event) λ event got.
        bind-Ensures (check_attendance env event_id tier_id claim event w.event) λ found e.
          bind-Ensures (pay_attendance env token event_id found.1.price w) λ u paid.
            bind-Ensures (mint_attendance env event u) λ v minted.
              bind-Ensures
                (record_attendance env event_id tier_id claim found.0 found.1 event v.event)
                λ s recorded.
                  let same =
                    ap (λ x. x.event) ((mint_attendance-event env event u).holds v minted)
                    ∙ ap (λ x. x.event)
                        ((pay_attendance-event env token event_id found.1.price w).holds u paid) in
                  ok-Ensures (
                    onward_from same (
                      (record_attendance-Onward env event_id tier_id claim found event v.event
                          (ap (λ f. f event_id) same ∙ get_event-stored event_id w.event got)
                          ((check_attendance-Sellable env event_id tier_id claim event
                              w.event).holds
                            found e)).holds
                        s recorded))
