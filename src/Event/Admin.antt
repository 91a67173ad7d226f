-- ===== src/Event/Admin.antt =====
-- The administration of the event contract and its calls that pass on to the payments contract:
-- `initialize`, `set_event_privacy`, `withdraw_revenue`, `withdraw_split`, `flag_cohost`, `migrate`
-- and the lists of attendees, contracts/event/src/lib.rs.
use zicket_contract.Base.{
  ltb, ◌==◌, ◌>>=◌, ◌>>◌, err_if, add_u32, ok, err, Address, Symbol, require_auth, call_env, invoke,
  try_invoke, Env, ℕ, Bool, true, false, not, some, List, [],
}
use zicket_contract.CommonUtils.Splits.{Splits}
use zicket_contract.PrivacyUtils.{PrivacyLevel, standard, private, anonymous}
use zicket_contract.Ticket.Admin.{set_event_contract}
use zicket_contract.Payments.Types.{Token, WithdrawalRecord}
use zicket_contract.Payments.Release
use zicket_contract.Payments.Splits
use zicket_contract.Payments.Admin
use zicket_contract.Event.Types.{
  EventStatus, Store, World, completed, invalid_status_transition, unauthorized,
  unsupported_version, unauthorized_private_access,
}
use zicket_contract.Event.Storage.{
  Call, publish, event_exists, get_event, save_event, update_event, get_attendees_count,
  save_registration, get_attendees, attendees_from, get_admin, get_ticket_contract,
  get_payments_contract, has_linked_contracts, save_reservation, get_reservation,
  remove_reservation, get_contract_version, get_event_privacy, get_postpone_count, index_of,
  swap_attendee, remove_registration, get_claim_settings, get_free_claim_count,
  increment_free_claim_count, get_last_free_claim, set_last_free_claim,
  get_anonymous_claim_verifier, get_anonymous_ticket_commitment, save_anonymous_ticket_commitment,
  get_anon_claim_settings, get_anon_window_state, set_anon_window_state, has_zk_nullifier,
  save_zk_nullifier, get_zk_verification_config,
}
use zicket_contract.Event.Storage
use zicket_contract.Event.Create.{organizer_event, with_payments}

abbrev pub is_completed : EventStatus → Bool
is_completed completed = true
is_completed _ = false

unfoldable pub get_event_status : Symbol → Store → Call EventStatus
unfolding get_event
get_event_status event_id s = do event ← get_event event_id s; ok event.status

unfoldable pub set_event_privacy : Env → Address → Symbol → PrivacyLevel → Store → Call Store
unfolding organizer_event Storage.set_event_privacy
set_event_privacy env organizer event_id level s = do
  _ ← organizer_event env organizer event_id s
  ok (Storage.set_event_privacy event_id level s)

unfoldable pub is_registered : Symbol → Address → Store → Call Bool
unfolding get_event Storage.is_registered
is_registered event_id attendee s = do
  _ ← get_event event_id s
  ok (Storage.is_registered event_id attendee s)

unfoldable pub get_attendees_paginated : Symbol → ℕ → ℕ → Store → Call (List Address)
unfolding get_event get_event_privacy Storage.get_attendees_paginated
get_attendees_paginated event_id start limit s = do
  _ ← get_event event_id s
  elim (get_event_privacy event_id s) [
    | standard ↦ ok (Storage.get_attendees_paginated event_id start limit s)
    | private ↦ err unauthorized_private_access
    | anonymous ↦ ok []
  ]

unfoldable pub get_org_attendees_paginated :
    Env → Address → Symbol → ℕ → ℕ → Store → Call (List Address)
unfolding organizer_event Storage.get_attendees_paginated
get_org_attendees_paginated env organizer event_id start limit s = do
  _ ← organizer_event env organizer event_id s
  ok (Storage.get_attendees_paginated event_id start limit s)

unfoldable pub get_revenue_splits : Symbol → Store → Call Splits
unfolding get_event
get_revenue_splits event_id s = do event ← get_event event_id s; ok event.revenue_splits

-- The versions 0, 1 and 2 are counted up by one; any other is refused.
unfoldable pub migrate : Env → Address → Store → Call (ℕ × Store)
unfolding get_admin get_contract_version
migrate env admin s = do
  require_auth env admin
  current_admin ← get_admin s
  err_if (not (current_admin == admin)) unauthorized
  let current_version = get_contract_version s
  new_version ← add_u32 current_version 1
  err_if (ltb 2 current_version) unsupported_version
  ok (new_version, record s { contract_version = some new_version })

module _ {T : Type 0} where
  -- A failure of `try_set_event_contract` is dropped.
  unfoldable pub initialize : Env → Address → Address → Address → World T → Call (World T)
  unfolding set_event_contract
  initialize env admin ticket_contract payments_contract w = do
    require_auth env admin
    ok (record w {
      event = record w.event {
        admin = some admin;
        ticket_contract = some ticket_contract;
        payments_contract = some payments_contract;
      };
      tickets =
          try_invoke
            (set_event_contract (call_env env ticket_contract) admin env.current_contract_address
              w.tickets)
            w.tickets;
    })

  unfoldable pub withdraw_revenue : Env → Token T → Address → Symbol → World T → Call (World T)
  unfolding organizer_event get_payments_contract Release.withdraw_revenue
  withdraw_revenue env token organizer event_id w = do
    event ← organizer_event env organizer event_id w.event
    err_if (not (is_completed event.status)) invalid_status_transition
    payments_contract ← get_payments_contract w.event
    payments ← invoke (
        Release.withdraw_revenue (call_env env payments_contract) token event_id organizer
          w.payments)
    ok (with_payments w payments)

  unfoldable pub get_withdrawal_history : Symbol → World T → Call (List WithdrawalRecord)
  unfolding get_event get_payments_contract Admin.get_withdrawal_history
  get_withdrawal_history event_id w = do
    _ ← get_event event_id w.event
    _ ← get_payments_contract w.event
    ok (Admin.get_withdrawal_history event_id w.payments)

  unfoldable pub withdraw_split : Env → Token T → Address → Symbol → World T → Call (World T)
  unfolding get_event get_payments_contract Splits.withdraw_split
  withdraw_split env token recipient event_id w = do
    require_auth env recipient
    _ ← get_event event_id w.event
    payments_contract ← get_payments_contract w.event
    payments ←
        invoke (
          Splits.withdraw_split (call_env env payments_contract) token recipient event_id
            w.payments)
    ok (with_payments w payments)

  unfoldable pub flag_cohost : Env → Address → Symbol → Address → World T → Call (World T)
  unfolding organizer_event get_payments_contract Splits.flag_cohost
  flag_cohost env primary_organizer event_id recipient w = do
    _ ← organizer_event env primary_organizer event_id w.event
    payments_contract ← get_payments_contract w.event
    payments ← invoke (
        Splits.flag_cohost (call_env env payments_contract) primary_organizer event_id recipient
          w.payments)
    ok (with_payments w payments)
