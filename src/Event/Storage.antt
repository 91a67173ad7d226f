-- ===== src/Event/Storage.antt =====
-- contracts/event/src/storage.rs. `extend_ttl` moves an entry's expiry and leaves its value, so it
-- is left out: every entry is taken to be live.
use zicket_contract.Base.{
  ◌==◌, if◌then◌else◌, ◌>>=◌, ◌>>◌, err_if, ok_or, unwrap_or, is_some, u64_max, add_u32, add_u64,
  Outcome, ok, Address, Symbol, Bytes, update, update₂, to_list, collect, ℕ, zero, suc, ◌+◌, ◌-◌,
  Bool, true, false, ◌&&◌, not, Option, none, some, List, [], ◌∷◌, ◌++◌,
}
use Prim.Native.Nat.{min}
use zicket_contract.PrivacyUtils.{PrivacyLevel, standard}
use zicket_contract.Event.Types.{
  ZkVerificationConfig, Event, Reservation, ClaimSettings, AnonClaimSettings, AnonWindowState,
  EventError, EventLog, Store, any, event_not_found, contract_links_not_configured,
  reservation_not_found, anonymous_claim_verifier_not_configured,
}

abbrev pub Call : Type 0 → Type 0
Call = Outcome EventError

abbrev pub publish : EventLog → Store → Store
publish e s = record s { events = e ∷ s.events }

unfoldable pub event_exists : Symbol → Store → Bool
event_exists event_id s = is_some (s.event event_id)

unfoldable pub get_event : Symbol → Store → Call Event
get_event event_id s = ok_or (s.event event_id) event_not_found

unfoldable pub save_event : Symbol → Event → Store → Store
save_event event_id event s = record s { event = update s.event event_id (some event) }

unfoldable pub update_event : Symbol → Event → Store → Call Store
unfolding event_exists save_event
update_event event_id event s = do
  err_if (not (event_exists event_id s)) event_not_found
  ok (save_event event_id event s)

unfoldable pub is_registered : Symbol → Address → Store → Bool
is_registered event_id attendee s = is_some (s.registration event_id attendee)

unfoldable pub get_attendees_count : Symbol → Store → ℕ
get_attendees_count event_id s = unwrap_or (s.event_attendees_count event_id) 0

unfoldable pub save_registration : Symbol → Address → Store → Call Store
unfolding get_attendees_count
save_registration event_id attendee s = do
  let count = get_attendees_count event_id s
  next ← add_u64 count 1
  ok (record s {
    registration = update₂ s.registration event_id attendee (some true);
    event_attendee_index = update₂ s.event_attendee_index event_id count (some attendee);
    event_attendees_count = update s.event_attendees_count event_id (some next);
  })

unfoldable pub get_attendees : Symbol → Store → List Address
unfolding get_attendees_count
get_attendees event_id s =
    collect (s.event_attendee_index event_id) (get_attendees_count event_id s)

-- The loop over `start..end`, of `span` indexes.
unfoldable pub attendees_from : ℕ → ℕ → Symbol → Store → List Address
attendees_from zero start event_id s = []
attendees_from (suc span) start event_id s =
    to_list (s.event_attendee_index event_id start) ++ attendees_from span (start + 1) event_id s

unfoldable pub get_attendees_paginated : Symbol → ℕ → ℕ → Store → List Address
unfolding get_attendees_count attendees_from
get_attendees_paginated event_id start limit s =
    let end = min (get_attendees_count event_id s) (min u64_max (start + min limit 100)) in
    attendees_from (end - start) start event_id s

unfoldable pub get_admin : Store → Call Address
get_admin s = ok_or s.admin contract_links_not_configured

unfoldable pub get_ticket_contract : Store → Call Address
get_ticket_contract s = ok_or s.ticket_contract contract_links_not_configured

unfoldable pub get_payments_contract : Store → Call Address
get_payments_contract s = ok_or s.payments_contract contract_links_not_configured

unfoldable pub has_linked_contracts : Store → Bool
has_linked_contracts s = is_some s.ticket_contract && is_some s.payments_contract

unfoldable pub save_reservation : Symbol → Address → Reservation → Store → Store
save_reservation event_id attendee reservation s = record s {
  reservation = update₂ s.reservation event_id attendee (some reservation);
}

unfoldable pub get_reservation : Symbol → Address → Store → Call Reservation
get_reservation event_id attendee s = ok_or (s.reservation event_id attendee) reservation_not_found

unfoldable pub remove_reservation : Symbol → Address → Store → Store
remove_reservation event_id attendee s = record s {
  reservation = update₂ s.reservation event_id attendee none;
}

unfoldable pub get_contract_version : Store → ℕ
get_contract_version s = unwrap_or s.contract_version 1

unfoldable pub set_event_privacy : Symbol → PrivacyLevel → Store → Store
set_event_privacy event_id level s = record s {
  event_privacy = update s.event_privacy event_id (some level);
}

unfoldable pub get_event_privacy : Symbol → Store → PrivacyLevel
get_event_privacy event_id s = unwrap_or (s.event_privacy event_id) standard

unfoldable pub get_postpone_count : Symbol → Store → ℕ
get_postpone_count event_id s = unwrap_or (s.postpone_count event_id) 0

-- The first index from `i` on, of `span`, that holds the attendee.
unfoldable pub index_of : ℕ → ℕ → Symbol → Address → Store → Option ℕ
index_of zero i event_id attendee s = none
index_of (suc span) i event_id attendee s =
    let rest = index_of span (i + 1) event_id attendee s in
    elim (s.event_attendee_index event_id i) [
      | none ↦ rest
      | some a ↦ if a == attendee then some i else rest
    ]

-- The last attendee takes the place of the removed one.
unfoldable pub swap_attendee : Symbol → ℕ → ℕ → Store → Store
swap_attendee event_id idx last_idx s =
    if idx == last_idx then s else elim (s.event_attendee_index event_id last_idx) [
      | none ↦ s
      | some last_attendee ↦ record s {
        event_attendee_index = update₂ s.event_attendee_index event_id idx (some last_attendee);
      }
    ]

unfoldable pub remove_registration : Symbol → Address → Store → Store
unfolding get_attendees_count index_of swap_attendee
remove_registration event_id attendee s =
    let t = record s { registration = update₂ s.registration event_id attendee none } in
    let count = get_attendees_count event_id t in
    elim (index_of count 0 event_id attendee t) [
      | none ↦ t
      | some idx ↦
          let last_idx = count - 1 in
          let u = swap_attendee event_id idx last_idx t in
          record u {
            event_attendee_index = update₂ u.event_attendee_index event_id last_idx none;
            event_attendees_count = update u.event_attendees_count event_id (some last_idx);
          }
    ]

unfoldable pub get_claim_settings : Symbol → Store → ClaimSettings
get_claim_settings event_id s =
    unwrap_or (s.event_claim_settings event_id) (record { max_free_claims = 0; cooldown_secs = 0 })

unfoldable pub get_free_claim_count : Symbol → Address → Store → ℕ
get_free_claim_count event_id attendee s = unwrap_or (s.free_claim_count event_id attendee) 0

unfoldable pub increment_free_claim_count : Symbol → Address → Store → Call Store
unfolding get_free_claim_count
increment_free_claim_count event_id attendee s = do
  next ← add_u32 (get_free_claim_count event_id attendee s) 1
  ok (record s { free_claim_count = update₂ s.free_claim_count event_id attendee (some next) })

unfoldable pub get_last_free_claim : Symbol → Address → Store → ℕ
get_last_free_claim event_id attendee s = unwrap_or (s.last_free_claim event_id attendee) 0

unfoldable pub set_last_free_claim : Symbol → Address → ℕ → Store → Store
set_last_free_claim event_id attendee timestamp s = record s {
  last_free_claim = update₂ s.last_free_claim event_id attendee (some timestamp);
}

unfoldable pub get_anonymous_claim_verifier : Store → Call Address
get_anonymous_claim_verifier s =
    ok_or s.anonymous_claim_verifier anonymous_claim_verifier_not_configured

unfoldable pub get_anonymous_ticket_commitment : Symbol → Bytes → Store → Option Bytes
get_anonymous_ticket_commitment event_id nullifier s = s.anonymous_nullifier event_id nullifier

unfoldable pub save_anonymous_ticket_commitment : Symbol → Bytes → Bytes → Store → Store
save_anonymous_ticket_commitment event_id nullifier commitment s = record s {
  anonymous_nullifier = update₂ s.anonymous_nullifier event_id nullifier (some commitment);
}

unfoldable pub get_anon_claim_settings : Symbol → Store → AnonClaimSettings
get_anon_claim_settings event_id s =
    unwrap_or (s.event_anon_settings event_id)
      (record { max_anon_claims_per_window = 0; anon_window_size = 0 })

unfoldable pub get_anon_window_state : Symbol → Store → AnonWindowState
get_anon_window_state event_id s =
    unwrap_or (s.event_anon_window event_id) (record { window_index = 0; count = 0 })

unfoldable pub set_anon_window_state : Symbol → AnonWindowState → Store → Store
set_anon_window_state event_id state s = record s {
  event_anon_window = update s.event_anon_window event_id (some state);
}

unfoldable pub has_zk_nullifier : Symbol → Bytes → Store → Bool
has_zk_nullifier event_id nullifier s = is_some (s.zk_nullifier event_id nullifier)

unfoldable pub save_zk_nullifier : Symbol → Bytes → Store → Store
save_zk_nullifier event_id nullifier s = record s {
  zk_nullifier = update₂ s.zk_nullifier event_id nullifier (some true);
}

unfoldable pub get_zk_verification_config : Symbol → Store → ZkVerificationConfig
get_zk_verification_config event_id s =
    unwrap_or (s.zk_verification_config event_id)
      (record { required_claim_type = any; enabled = false })
