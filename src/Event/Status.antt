-- ===== src/Event/Status.antt =====
-- `update_event_status`, `cancel_event`, `postpone_event`, `finalize_postponement` and
-- `request_postponement_refund` of contracts/event/src/lib.rs.
use zicket_contract.Base.{
  ltb, leb, ◌==◌, if◌then◌else◌, ◌>>=◌, ◌>>◌, err_if, ok_or, is_some, u32_max, ok, Address, Symbol,
  update, require_auth, call_env, invoke, Env, ℕ, ◌+◌, ◌-◌, Bool, true, false, ◌&&◌, not, Option,
  none, some, List, [], ◌∷◌,
}
use zicket_contract.PrivacyUtils.{mask_address}
use zicket_contract.Ticket
use zicket_contract.Ticket.Storage.{get_tickets_by_owner}
use zicket_contract.Ticket.Contract.{is_valid, cancel_ticket}
use zicket_contract.Payments.Types.{Token}
use zicket_contract.Payments.Withdrawals
use zicket_contract.Payments.Refunds
use zicket_contract.Payments.Storage
use zicket_contract.Event.Types.{
  EventStatus, Event, PostponementInfo, EventLog, Store, World, upcoming, active, completed,
  cancelled, postponed, invalid_status_transition, postponement_window_too_short,
  invalid_postponement_date, max_postponements_reached, postponement_window_open,
  event_not_postponed, no_refundable_ticket, event_status_changed, event_cancelled, event_postponed,
  event_resumed,
}
use zicket_contract.Event.Storage.{
  Call, publish, get_event, update_event, get_ticket_contract, get_payments_contract,
  has_linked_contracts, get_event_privacy, get_postpone_count, remove_registration,
}
use zicket_contract.Event.Create.{organizer_event, with_payments, with_event, sync_config}

-- `MIN_POSTPONEMENT_CHOICE_WINDOW_LEDGERS`, `MAX_POSTPONEMENT_CHOICE_WINDOW_LEDGERS` and
-- `MAX_POSTPONEMENTS`
abbrev pub min_choice_window : ℕ
min_choice_window = 51840

abbrev pub max_choice_window : ℕ
max_choice_window = 518400

abbrev pub max_postponements : ℕ
max_postponements = 3

-- The transitions of `update_event_status`.
unfoldable pub valid_transition : EventStatus → EventStatus → Bool
valid_transition upcoming active = true
valid_transition active completed = true
valid_transition _ _ = false

abbrev pub is_active : EventStatus → Bool
is_active active = true
is_active _ = false

abbrev pub is_postponed : EventStatus → Bool
is_postponed postponed = true
is_postponed _ = false

abbrev pub is_closed : EventStatus → Bool
is_closed completed = true
is_closed cancelled = true
is_closed _ = false

abbrev pub status_changed : Env → Symbol → EventStatus → EventStatus → EventLog
status_changed env event_id old_status new_status =
    event_status_changed event_id old_status new_status env.timestamp

unfoldable pub update_event_status : Env → Address → Symbol → EventStatus → Store → Call Store
unfolding organizer_event valid_transition update_event
update_event_status env organizer event_id new_status s = do
  event ← organizer_event env organizer event_id s
  err_if (not (valid_transition event.status new_status)) invalid_status_transition
  t ← update_event event_id (record event { status = new_status }) s
  ok (publish (status_changed env event_id event.status new_status) t)

-- The deadline of the choice and the event's new start, as `postpone_event` tests them.
unfoldable pub check_postponement : Env → ℕ → ℕ → ℕ → Call ℕ
check_postponement env count new_date_ledger choice_window_ledgers = do
  err_if (leb max_postponements count) max_postponements_reached
  err_if (ltb choice_window_ledgers min_choice_window) postponement_window_too_short
  err_if (ltb max_choice_window choice_window_ledgers) invalid_postponement_date
  err_if (ltb u32_max new_date_ledger) invalid_postponement_date
  let deadline = env.sequence + choice_window_ledgers
  err_if (ltb u32_max deadline) invalid_postponement_date
  err_if (leb new_date_ledger deadline) invalid_postponement_date
  ok deadline

-- What the event contract stores of a postponement.
unfoldable pub store_postponement : Env → Symbol → ℕ → ℕ → ℕ → EventStatus → Store → Store
store_postponement env event_id count new_date_ledger deadline old_status s =
    publish (event_postponed event_id new_date_ledger deadline count env.timestamp) (
      publish (status_changed env event_id old_status postponed) (record s {
        postpone_count = update s.postpone_count event_id (some count);
        postponement = update s.postponement event_id (
            some (record { new_date_ledger = new_date_ledger; choice_deadline_ledger = deadline }));
      }))

-- The event with its new dates, which keep its duration.
unfoldable pub resumed_event : Env → PostponementInfo → Event → Call Event
resumed_event env info event = do
  err_if (leb env.sequence info.choice_deadline_ledger) postponement_window_open
  let duration = event.event_end_ledger - event.event_start_ledger
  err_if (ltb u32_max info.new_date_ledger) invalid_postponement_date
  let new_end_ledger = info.new_date_ledger + duration
  err_if (ltb u32_max new_end_ledger) invalid_postponement_date
  ok (record event {
    event_start_ledger = info.new_date_ledger;
    event_end_ledger = new_end_ledger;
    status = active;
  })

abbrev pub announce_resumption : Env → Symbol → Event → Store → Store
announce_resumption env event_id event s =
    publish (event_resumed event_id event.event_start_ledger event.event_end_ledger env.timestamp)
      (publish (status_changed env event_id postponed active) s)

abbrev announce_cancellation : Env → Symbol → Address → EventStatus → Store → Store
announce_cancellation env event_id organizer old_status s =
    publish
      (event_cancelled event_id (mask_address env organizer (get_event_privacy event_id s))
        env.timestamp)
      (publish (status_changed env event_id old_status cancelled) s)

unfoldable pub get_postponement : Symbol → Store → Call PostponementInfo
unfolding get_event
get_postponement event_id s = do
  _ ← get_event event_id s
  ok_or (s.postponement event_id) event_not_postponed

-- Whether a ticket of the ticket contract is for this event, unused and valid.
unfoldable pub is_revocable : Symbol → Ticket.Types.Ticket → Bool
is_revocable event_id minted =
    (minted.event_id == event_id) && not minted.is_used && is_valid minted.status

-- The loop that looks for the first revocable ticket; `get_ticket` panics on a missing one.
unfoldable pub find_revocable : Symbol → List ℕ → Ticket.Types.Store → Call (Option ℕ)
unfolding Ticket.Storage.get_ticket is_revocable
find_revocable event_id [] tickets = ok none
find_revocable event_id (ticket_id ∷ ticket_ids) tickets =
    let rest = find_revocable event_id ticket_ids tickets in
    invoke (Ticket.Storage.get_ticket ticket_id tickets) >>= λ minted.
    (if is_revocable event_id minted then ok (some ticket_id) else rest)

unfoldable pub has_valid_ticket_for_event : Address → Symbol → Ticket.Types.Store → Call Bool
unfolding find_revocable get_tickets_by_owner
has_valid_ticket_for_event attendee event_id tickets = do
  found ← find_revocable event_id (get_tickets_by_owner attendee tickets) tickets
  ok (is_some found)

module _ {T : Type 0} where
  unfoldable pub cancel_payments : Env → Symbol → Address → World T → Call (World T)
  unfolding has_linked_contracts get_payments_contract Withdrawals.cancel_event
  cancel_payments env event_id organizer w =
      if has_linked_contracts w.event
      then (get_payments_contract w.event >>= λ payments_contract.
          invoke (
            Withdrawals.cancel_event (call_env env payments_contract) event_id organizer w.payments)
          >>= λ payments. ok (with_payments w payments))
      else ok w

  unfoldable pub cancel_event : Env → Address → Symbol → World T → Call (World T)
  unfolding organizer_event update_event cancel_payments
  cancel_event env organizer event_id w = do
    event ← organizer_event env organizer event_id w.event
    err_if (is_closed event.status) invalid_status_transition
    s ← update_event event_id (record event { status = cancelled }) w.event
    cancel_payments env event_id organizer
        (with_event w (announce_cancellation env event_id organizer event.status s))

  unfoldable pub postpone_payments : Env → Symbol → Address → ℕ → World T → Call (World T)
  unfolding has_linked_contracts get_payments_contract Withdrawals.postpone_event
  postpone_payments env event_id organizer deadline w =
      if has_linked_contracts w.event
      then (get_payments_contract w.event >>= λ payments_contract.
          invoke (
            Withdrawals.postpone_event (call_env env payments_contract) event_id organizer deadline
              w.payments)
          >>= λ payments. ok (with_payments w payments))
      else ok w

  unfoldable pub postpone_event : Env → Address → Symbol → ℕ → ℕ → World T → Call (World T)
  unfolding organizer_event get_postpone_count check_postponement update_event store_postponement
      postpone_payments
  postpone_event env organizer event_id new_date_ledger choice_window_ledgers w = do
    event ← organizer_event env organizer event_id w.event
    err_if (not (is_active event.status)) invalid_status_transition
    let count = get_postpone_count event_id w.event
    deadline ← check_postponement env count new_date_ledger choice_window_ledgers
    s ← update_event event_id (record event { status = postponed }) w.event
    postpone_payments env event_id organizer deadline (
        with_event w
          (store_postponement env event_id (count + 1) new_date_ledger deadline event.status s))

  unfoldable pub resume_payments : Env → Symbol → Event → World T → Call (World T)
  unfolding has_linked_contracts get_payments_contract sync_config Withdrawals.resume_event
  resume_payments env event_id event w =
      if has_linked_contracts w.event
      then (sync_config env event_id event w >>= λ u.
          get_payments_contract u.event >>= λ payments_contract.
          invoke (
            Withdrawals.resume_event (call_env env payments_contract) event_id event.organizer
              u.payments)
          >>= λ payments. ok (with_payments u payments))
      else ok w

  unfoldable pub finalize_postponement : Env → Address → Symbol → World T → Call (World T)
  unfolding organizer_event resumed_event update_event resume_payments
  finalize_postponement env organizer event_id w = do
    event ← organizer_event env organizer event_id w.event
    err_if (not (is_postponed event.status)) event_not_postponed
    info ← ok_or (w.event.postponement event_id) event_not_postponed
    event' ← resumed_event env info event
    s ← update_event event_id event' w.event
    resume_payments env event_id event' (
        with_event w (
          announce_resumption env event_id event'
            (record s { postponement = update s.postponement event_id none })))

  -- The refund by the payments contract and the end of the ticket that is given up for it.
  unfoldable pub revoke_ticket : Env → Token T → Address → ℕ → ℕ → World T → Call (World T)
  unfolding get_payments_contract get_ticket_contract Refunds.request_postponement_refund
      cancel_ticket
  revoke_ticket env token attendee ticket_id revocable w = do
    payments_contract ← get_payments_contract w.event
    ticket_contract ← get_ticket_contract w.event
    payments ← invoke (
        Refunds.request_postponement_refund (call_env env payments_contract) token attendee
          ticket_id w.payments)
    tickets ← invoke (cancel_ticket (call_env env ticket_contract) revocable attendee w.tickets)
    ok (record w { payments = payments; tickets = tickets })

  unfoldable pub request_postponement_refund :
      Env → Token T → Address → ℕ → World T → Call (World T)
  unfolding get_payments_contract Storage.get_ticket get_event get_ticket_contract find_revocable
      get_tickets_by_owner revoke_ticket has_valid_ticket_for_event remove_registration
  request_postponement_refund env token attendee ticket_id w = do
    require_auth env attendee
    _ ← get_payments_contract w.event
    ticket ← invoke (Storage.get_ticket ticket_id w.payments)
    event ← get_event ticket.event_id w.event
    err_if (not (is_postponed event.status)) event_not_postponed
    _ ← get_ticket_contract w.event
    found ← find_revocable ticket.event_id (get_tickets_by_owner attendee w.tickets) w.tickets
    revocable ← ok_or found no_refundable_ticket
    u ← revoke_ticket env token attendee ticket_id revocable w
    still ← has_valid_ticket_for_event attendee ticket.event_id u.tickets
    ok (if still then u else with_event u (remove_registration ticket.event_id attendee u.event))
