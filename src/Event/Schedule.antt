-- ===== src/Event/Schedule.antt =====
-- What cancelling, postponing and resuming an event, and the refund of a postponement, make of the
-- stored events.
use zicket_contract.Base.{
  ltb, leb, if◌then◌else◌, ok_or, u32_max, Address, Symbol, update, require_auth, call_env, invoke,
  Env, ok-Ensures, bind-Ensures, if-Ensures, test-Ensures, Ensures, ℕ, ◌+◌, ◌-◌, ◌≡◌, refl, ap, ◌∙◌,
  Bool, true, false, not, none, arith,
}
use zicket_contract.Payments.Types.{Token}
use zicket_contract.Payments.Withdrawals
use zicket_contract.Payments.Refunds
use zicket_contract.Payments.Storage
use zicket_contract.Ticket.Contract.{cancel_ticket}
use zicket_contract.Ticket.Storage.{get_tickets_by_owner}
use zicket_contract.Event.Types.{
  EventStatus, Event, PostponementInfo, Store, World, upcoming, active, completed, cancelled,
  postponed, invalid_status_transition, invalid_postponement_date, postponement_window_open,
  event_not_postponed, no_refundable_ticket,
}
use zicket_contract.Event.Storage.{
  get_event, update_event, get_ticket_contract, get_payments_contract, has_linked_contracts,
  get_postpone_count, swap_attendee, remove_registration,
}
use zicket_contract.Event.Evolution.{
  same-Advances, saved-Advances, ◌⟶◌, Evolves, postpones, resumes, cancels_upcoming, cancels_active,
  cancels_postponed,
}
use zicket_contract.Event.Changes.{restatus_Evolves}
use zicket_contract.Event.Create.{organizer_event, with_event, sync_config}
use zicket_contract.Event.Status.{
  announce_resumption, is_active, is_postponed, is_closed, check_postponement, store_postponement,
  resumed_event, find_revocable, has_valid_ticket_for_event, cancel_payments, cancel_event,
  postpone_payments, postpone_event, resume_payments, finalize_postponement, revoke_ticket,
  request_postponement_refund,
}
use zicket_contract.Event.Lifecycle.{
  WorldOnward, moved-Advances, organizer_event-stored, update_event-stores, sync_config-event,
}

not_closed-⟶ : (status : EventStatus) → is_closed status ≡ false → status ⟶ cancelled
not_closed-⟶ upcoming e = cancels_upcoming
not_closed-⟶ active e = cancels_active
not_closed-⟶ completed e = absurd (ground arith)
not_closed-⟶ cancelled e = absurd (ground arith)
not_closed-⟶ postponed e = cancels_postponed

pub is_active-status : (status : EventStatus) → not (is_active status) ≡ false → status ≡ active
is_active-status status e = ground arith

is_postponed-status :
    (status : EventStatus) → not (is_postponed status) ≡ false → status ≡ postponed
is_postponed-status status e = ground arith

pub remove_registration-event :
    (event_id : Symbol) (attendee : Address) (s : Store)
    → (remove_registration event_id attendee s).event ≡ s.event
unfolding remove_registration swap_attendee
remove_registration-event event_id attendee s = ground arith

-- A postponed event that resumes has its new start and its old duration.
pub resumed_event-Evolves :
    (env : Env) (info : PostponementInfo) (event : Event)
    → event.status ≡ postponed
    → Ensures (Evolves event) (resumed_event env info event)
unfolding resumed_event
resumed_event-Evolves env info event was =
    test-Ensures (leb env.sequence info.choice_deadline_ledger) postponement_window_open λ _.
      test-Ensures (ltb u32_max info.new_date_ledger) invalid_postponement_date λ _.
        test-Ensures
          (ltb u32_max (info.new_date_ledger + (event.event_end_ledger - event.event_start_ledger)))
          invalid_postponement_date
          λ _. ok-Ensures (
            restatus_Evolves event active info.new_date_ledger
              (info.new_date_ledger + (event.event_end_ledger - event.event_start_ledger))
              (rw was resumes))

module _ {T : Type 0} where
  pub cancel_event-Onward :
      (env : Env) (organizer : Address) (event_id : Symbol) (w : World T)
      → Ensures (WorldOnward w) (cancel_event env organizer event_id w)
  unfolding cancel_event cancel_payments
  cancel_event-Onward env organizer event_id w =
      bind-Ensures (organizer_event env organizer event_id w.event) λ event got.
        test-Ensures (is_closed event.status) invalid_status_transition λ still.
          bind-Ensures (update_event event_id (record event { status = cancelled }) w.event)
            λ s saved.
              let onward = moved-Advances (update_event-stores event_id _ w.event saved) (
                saved-Advances event_id (organizer_event-stored env organizer event_id w.event got)
                  (restatus_Evolves event cancelled event.event_start_ledger event.event_end_ledger
                    (not_closed-⟶ event.status still))) in
              if-Ensures (has_linked_contracts s)
                (λ _. bind-Ensures (get_payments_contract s) λ payments_contract _.
                  bind-Ensures
                    (invoke (
                      Withdrawals.cancel_event (call_env env payments_contract) event_id organizer
                        w.payments))
                    λ payments _. ok-Ensures onward)
                (λ _. ok-Ensures onward)

  postpone_payments-event :
      (env : Env) (event_id : Symbol) (organizer : Address) (deadline : ℕ) (w : World T)
      → Ensures (λ u. u.event ≡ w.event) (postpone_payments env event_id organizer deadline w)
  unfolding postpone_payments
  postpone_payments-event env event_id organizer deadline w =
      if-Ensures (has_linked_contracts w.event)
        (λ _. bind-Ensures (get_payments_contract w.event) λ payments_contract _.
          bind-Ensures
            (invoke (
              Withdrawals.postpone_event (call_env env payments_contract) event_id organizer
                deadline w.payments))
            λ payments _. ok-Ensures refl)
        (λ _. ok-Ensures refl)

  pub postpone_event-Onward :
      (env : Env) (organizer : Address) (event_id : Symbol) (date window : ℕ) (w : World T)
      → Ensures (WorldOnward w) (postpone_event env organizer event_id date window w)
  unfolding postpone_event store_postponement
  postpone_event-Onward env organizer event_id date window w =
      bind-Ensures (organizer_event env organizer event_id w.event) λ event got.
        test-Ensures (not (is_active event.status)) invalid_status_transition λ was.
          let count = get_postpone_count event_id w.event in
          bind-Ensures (check_postponement env count date window) λ deadline _.
            bind-Ensures (update_event event_id (record event { status = postponed }) w.event)
              λ s saved.
                let v =
                  with_event w
                    (store_postponement env event_id (count + 1) date deadline event.status s) in
                record {
                  holds = λ u e.
                      moved-Advances
                        (ap (λ x. x.event)
                            ((postpone_payments-event env event_id organizer deadline v).holds u e)
                          ∙ update_event-stores event_id _ w.event saved)
                        (saved-Advances event_id
                          (organizer_event-stored env organizer event_id w.event got)
                          (restatus_Evolves event postponed event.event_start_ledger
                            event.event_end_ledger
                            (rw (is_active-status event.status was) postpones)));
                }

  resume_payments-event :
      (env : Env) (event_id : Symbol) (event : Event) (w : World T)
      → Ensures (λ u. u.event ≡ w.event) (resume_payments env event_id event w)
  unfolding resume_payments
  resume_payments-event env event_id event w =
      if-Ensures (has_linked_contracts w.event)
        (λ _. bind-Ensures (sync_config env event_id event w) λ u synced.
          bind-Ensures (get_payments_contract u.event) λ payments_contract _.
            bind-Ensures
              (invoke (
                Withdrawals.resume_event (call_env env payments_contract) event_id event.organizer
                  u.payments))
              λ payments _. ok-Ensures ((sync_config-event env event_id event w).holds u synced))
        (λ _. ok-Ensures refl)

  pub finalize_postponement-Onward :
      (env : Env) (organizer : Address) (event_id : Symbol) (w : World T)
      → Ensures (WorldOnward w) (finalize_postponement env organizer event_id w)
  unfolding finalize_postponement
  finalize_postponement-Onward env organizer event_id w =
      bind-Ensures (organizer_event env organizer event_id w.event) λ event got.
        test-Ensures (not (is_postponed event.status)) event_not_postponed λ was.
          bind-Ensures (ok_or (w.event.postponement event_id) event_not_postponed) λ info _.
            bind-Ensures (resumed_event env info event) λ event' e.
              bind-Ensures (update_event event_id event' w.event) λ s saved.
                let v = with_event w (
                  announce_resumption env event_id event'
                    (record s { postponement = update s.postponement event_id none })) in
                record {
                  holds = λ u e'.
                      moved-Advances
                        (ap (λ x. x.event)
                            ((resume_payments-event env event_id event' v).holds u e')
                          ∙ update_event-stores event_id event' w.event saved)
                        (saved-Advances event_id
                          (organizer_event-stored env organizer event_id w.event got)
                          ((resumed_event-Evolves env info event
                              (is_postponed-status event.status was)).holds
                            event' e));
                }

  revoke_ticket-event :
      (env : Env) (token : Token T) (attendee : Address) (ticket_id revocable : ℕ) (w : World T)
      → Ensures (λ u. u.event ≡ w.event) (revoke_ticket env token attendee ticket_id revocable w)
  unfolding revoke_ticket
  revoke_ticket-event env token attendee ticket_id revocable w =
      bind-Ensures (get_payments_contract w.event) λ payments_contract _.
        bind-Ensures (get_ticket_contract w.event) λ ticket_contract _.
          bind-Ensures
            (invoke (
              Refunds.request_postponement_refund (call_env env payments_contract) token attendee
                ticket_id w.payments))
            λ payments _.
              bind-Ensures
                (invoke (cancel_ticket (call_env env ticket_contract) revocable attendee w.tickets))
                λ tickets _. ok-Ensures refl

  -- The registration ends with the last valid ticket.
  left_event :
      (still : Bool) (event_id : Symbol) (attendee : Address) (u : World T)
      → (if still
          then u
          else with_event u (remove_registration event_id attendee u.event)).event.event
        ≡ u.event.event
  left_event true event_id attendee u = refl
  left_event false event_id attendee u = remove_registration-event event_id attendee u.event

  pub request_postponement_refund-Onward :
      (env : Env) (token : Token T) (attendee : Address) (ticket_id : ℕ) (w : World T)
      → Ensures (WorldOnward w) (request_postponement_refund env token attendee ticket_id w)
  unfolding request_postponement_refund
  request_postponement_refund-Onward env token attendee ticket_id w =
      bind-Ensures (require_auth env attendee) λ _ _.
        bind-Ensures (get_payments_contract w.event) λ _ _.
          bind-Ensures (invoke (Storage.get_ticket ticket_id w.payments)) λ ticket _.
            bind-Ensures (get_event ticket.event_id w.event) λ event _.
              test-Ensures (not (is_postponed event.status)) event_not_postponed λ _.
                bind-Ensures (get_ticket_contract w.event) λ _ _.
                  bind-Ensures
                    (find_revocable ticket.event_id (get_tickets_by_owner attendee w.tickets)
                      w.tickets)
                    λ found _. bind-Ensures (ok_or found no_refundable_ticket) λ revocable _.
                      bind-Ensures (revoke_ticket env token attendee ticket_id revocable w) λ u e.
                        bind-Ensures (has_valid_ticket_for_event attendee ticket.event_id u.tickets)
                          λ still _. ok-Ensures (
                            same-Advances (
                              left_event still ticket.event_id attendee u
                              ∙ ap (λ x. x.event)
                                  ((revoke_ticket-event env token attendee ticket_id revocable
                                      w).holds
                                    u e)))
