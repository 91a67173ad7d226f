-- ===== src/Event/Tests.antt =====
-- Runs of the event contract, and its theorems at concrete storages.
use zicket_contract.Base.{
  ltb, ◌==◌, if◌then◌else◌, is_ok, Outcome, ok, err, trap, Env, ℕ, ◌≡◌, refl, inr, true, false,
  none, some, List, [], ◌∷◌, arith,
}
use zicket_contract.Base.Int.{pos, ◌+ℤ◌}
use zicket_contract.PrivacyUtils.{standard}
use zicket_contract.Ticket
use zicket_contract.Ticket.Contract.{store_ticket, mint_loop}
use zicket_contract.Ticket.Storage.{add_owner_ticket, add_event_ticket}
use zicket_contract.Payments.Escrow.{Charged}
use zicket_contract.Payments.Fixtures.{host_at, Balances, ledger, ledger_laws, concert, opened}
use zicket_contract.Event.Registration.{
  register_for_event, batch_register_for_event, record_registration, record_batch, reserve_ticket,
}
use zicket_contract.Event.Enrollment.{Registers, register_for_event_effect, register_for_event_once}
use zicket_contract.Event.Cover.{register_for_event_charges, batch_register_for_event_charges}
use zicket_contract.Event.Types.{
  ZkPassportClaim, AnonymousTicketClaim, EventStatus, TicketTier, Event, CreateEventParams, Store,
  World, age, active, cancelled, anonymous_nullifier_reused,
}
use zicket_contract.Event.Storage.{get_admin, has_linked_contracts, get_anonymous_claim_verifier}
use zicket_contract.Event.Tiers.{tier_at}
use zicket_contract.Event.PublicInputs.{zeros, Codec}
use zicket_contract.Event.Claims.{
  set_anonymous_claim_verifier, claim_anonymous_ticket, record_attendance, verify_and_attend,
}
use zicket_contract.Event.Evolution.{Advances, IsOver}
use zicket_contract.Event.History.{
  Request, create, set_status, register, cancel, apply, settle, run, AllHaveSeats, run-HasSeats,
  step-Advances, run-IsOver,
}
use zicket_contract.Event.Once.{claim_anonymous_ticket_again, set_anonymous_claim_verifier_once}
use zicket_contract.Event.Attendance.{verify_and_attend_once, verify_and_attend_paid}
use zicket_contract.Event.Encoding.{public_inputs_determine, IsFaithful}

-- The event contract is address 3, the ticket contract 20, the payments contract 99.
abbrev host : Env
host = record (host_at 50) { current_contract_address = 3 }

-- Byte strings are their numbers with padding; the verifier accepts every proof but 0.
abbrev plain : Codec
plain = record {
  network_id = [];
  address_bytes = λ a. a ∷ [];
  symbol_bytes = λ e. e ∷ [];
  sha256_bytes = λ b. b;
  to_array = λ b. b ∷ zeros 31;
  verify = λ v proof inputs. some (ltb 0 proof);
}

abbrev no_events : Store
no_events = record {
  event = λ a. none;
  registration = λ a b. none;
  reservation = λ a b. none;
  admin = some 1;
  ticket_contract = some 20;
  payments_contract = some 99;
  event_privacy = λ a. none;
  contract_version = none;
  free_claim_count = λ a b. none;
  last_free_claim = λ a b. none;
  event_claim_settings = λ a. none;
  postponement = λ a. none;
  postpone_count = λ a. none;
  event_anon_window = λ a. none;
  event_anon_settings = λ a. none;
  anonymous_claim_verifier = none;
  anonymous_nullifier = λ a b. none;
  zk_nullifier = λ a b. none;
  zk_verification_config = λ a. none;
  event_attendee_index = λ a b. none;
  event_attendees_count = λ a. none;
  events = [];
}

abbrev genesis : World Balances
genesis = record {
  event = no_events;
  tickets = record Ticket.Types.empty { event_contract = some 3 };
  payments = opened;
}

-- A free tier with two seats and one for 400 with five.
abbrev new_show : CreateEventParams
new_show = record {
  organizer = 4;
  payout_token = 5;
  event_id = 8;
  name = 83 ∷ [];
  description = [];
  venue = 86 ∷ [];
  event_date = 100000;
  initial_tiers =
      (record { name = 70 ∷ []; price = pos 0; capacity = 2 })
      ∷ (record { name = 80 ∷ []; price = pos 400; capacity = 5 })
      ∷ [];
  allow_anonymous = true;
  requires_verification = true;
  privacy_level = standard;
  max_tickets_per_user = 3;
  event_start_ledger = 100;
  event_end_ledger = 200;
  withdrawal_delay_ledgers = 100;
  revenue_splits = [];
  resale_royalty_bps = 0;
  max_resale_price = none;
  allow_free_ticket_transfer = true;
}

-- The show is made, opened and sold once for 400; then it is cancelled.
abbrev season : List (Env × Request Balances)
season =
    (host, create new_show)
    ∷ (host, set_status 4 8 active)
    ∷ (host, register 1 2 8 1 none)
    ∷ (host, cancel 4 8)
    ∷ []

genesis-HasSeats : AllHaveSeats genesis
unfolding AllHaveSeats
genesis-HasSeats id event stored = ground arith

run-HasSeats_example : AllHaveSeats (run ledger plain season genesis)
run-HasSeats_example = run-HasSeats ledger plain season genesis genesis-HasSeats

step-Advances_example :
    Advances genesis.event.event
      (settle genesis (apply host ledger plain (create new_show) genesis)).event.event
step-Advances_example = step-Advances host ledger plain (create new_show) genesis

abbrev free_tier : TicketTier
free_tier = record {
  tier_id = 0;
  name = 70 ∷ [];
  price = pos 0;
  capacity = 2;
  sold = 0;
  reserved = 0;
}

abbrev paid_tier : TicketTier
paid_tier = record {
  tier_id = 1;
  name = 80 ∷ [];
  price = pos 400;
  capacity = 5;
  sold = 1;
  reserved = 0;
}

abbrev show : EventStatus → Event
show status = record {
  event_id = 8;
  organizer = 4;
  payout_token = 5;
  name = 83 ∷ [];
  description = [];
  venue = 86 ∷ [];
  event_date = 100000;
  allow_anonymous = true;
  requires_verification = true;
  tiers = free_tier ∷ paid_tier ∷ [];
  status = status;
  created_at = 1000;
  privacy_level = standard;
  max_tickets_per_user = 3;
  max_supply = 7;
  sold_count = 1;
  event_start_ledger = 100;
  event_end_ledger = 200;
  withdrawal_delay_ledgers = 100;
  revenue_splits = [];
  resale_royalty_bps = 0;
  max_resale_price = none;
  allow_free_ticket_transfer = true;
}

-- The show is stored, with a verifier of anonymous claims and verified attendance.
abbrev with_show : EventStatus → Store
with_show status = record no_events {
  event = λ a. if a == 8 then some (show status) else none;
  anonymous_claim_verifier = some 77;
  zk_verification_config =
      λ a. if a == 8 then some (record { required_claim_type = age; enabled = true }) else none;
}

abbrev running : World Balances
running = record genesis { event = with_show active }

run-IsOver_example :
    (later : Event) × ((run ledger plain season
          (record genesis { event = with_show cancelled })).event.event
        8
      ≡ some later)
    × IsOver cancelled 1 4 later
run-IsOver_example =
    run-IsOver ledger plain season (record genesis { event = with_show cancelled }) 8
      (show cancelled) refl (inr refl)

abbrev result_or : {E A : Type 0} → A → Outcome E A → A
result_or a (ok b) = b
result_or a (err e) = a
result_or a trap = a

abbrev entry : AnonymousTicketClaim
entry = record { proof = 1; nullifier = 30; ticket_commitment = 31; expiry_ledger = 60 }

abbrev other_entry : AnonymousTicketClaim
other_entry = record { proof = 0; nullifier = 30; ticket_commitment = 32; expiry_ledger = 60 }

abbrev entered : Store
entered = result_or no_events (claim_anonymous_ticket host plain 8 0 entry (with_show active))

entry_succeeds : claim_anonymous_ticket host plain 8 0 entry (with_show active) ≡ ok entered
unfolding claim_anonymous_ticket
entry_succeeds = refl

claim_anonymous_ticket_again_example :
    claim_anonymous_ticket host plain 8 0 other_entry entered ≡ err anonymous_nullifier_reused
claim_anonymous_ticket_again_example =
    claim_anonymous_ticket_again host host plain plain 8 0 0 entry other_entry (with_show active)
      entered entry_succeeds refl

plain-IsFaithful : IsFaithful plain
unfolding zeros
plain-IsFaithful = record { len = λ b. refl; injective = λ b c e. cc }

public_inputs_determine_example :
    (◌≡◌ {A = ℕ} 0 0) × (entry.expiry_ledger ≡ 60) × (◌≡◌ {A = ℕ} 30 30) × (◌≡◌ {A = ℕ} 31 31)
public_inputs_determine_example =
    public_inputs_determine host plain 8 0 0 entry entry plain-IsFaithful refl

abbrev passport : ZkPassportClaim
passport = record { claim_type = age; proof = 1; nullifier = 40; expiry_ledger = 60 }

abbrev attended : World Balances
attended = result_or genesis (verify_and_attend host ledger 8 0 passport running)

attendance_succeeds : verify_and_attend host ledger 8 0 passport running ≡ ok attended
unfolding verify_and_attend store_ticket add_owner_ticket add_event_ticket record_attendance
attendance_succeeds = refl

verify_and_attend_once_example : is_ok (verify_and_attend host ledger 8 1 passport attended) ≡ false
verify_and_attend_once_example =
    verify_and_attend_once host host ledger 8 0 1 passport passport running attended
      attendance_succeeds refl

verify_and_attend_paid_example : is_ok (verify_and_attend host ledger 8 1 passport running) ≡ false
unfolding tier_at has_linked_contracts
verify_and_attend_paid_example =
    verify_and_attend_paid host ledger 8 1 passport running (show active) (1, paid_tier) refl refl
      refl refl

abbrev configured : Store
configured = result_or no_events (set_anonymous_claim_verifier host 1 77 no_events)

configuration_succeeds : set_anonymous_claim_verifier host 1 77 no_events ≡ ok configured
unfolding set_anonymous_claim_verifier get_admin get_anonymous_claim_verifier
configuration_succeeds = refl

set_anonymous_claim_verifier_once_example :
    (get_anonymous_claim_verifier configured ≡ ok 77)
    × (is_ok (set_anonymous_claim_verifier host 2 78 configured) ≡ false)
set_anonymous_claim_verifier_once_example =
    set_anonymous_claim_verifier_once host host 1 2 77 78 no_events configured
      configuration_succeeds

-- Attendee 2 takes a free seat of the show.
abbrev enlisted : World Balances
enlisted = result_or genesis (register_for_event host ledger 1 2 8 0 none running)

enlisting_succeeds : register_for_event host ledger 1 2 8 0 none running ≡ ok enlisted
unfolding register_for_event store_ticket add_owner_ticket add_event_ticket record_registration
enlisting_succeeds = refl

register_for_event_effect_example : Registers 8 2 running (show active) enlisted
register_for_event_effect_example =
    register_for_event_effect host ledger 1 2 8 0 none running enlisted (show active) refl
      enlisting_succeeds

register_for_event_once_example :
    (is_ok (register_for_event host ledger 3 2 8 1 none enlisted) ≡ false)
    × (is_ok (reserve_ticket host 2 8 1 enlisted.event) ≡ false)
register_for_event_once_example =
    register_for_event_once host host ledger 1 3 2 8 0 1 none none running enlisted (show active)
      refl enlisting_succeeds

-- The payments contract knows the show; attendee 2 buys one seat for 400, or two.
abbrev selling : World Balances
selling = record running {
  payments = record opened { event_config = λ a. if a == 8 then some concert else none };
}

abbrev sold_seat : World Balances
sold_seat = result_or genesis (register_for_event host ledger 1 2 8 1 none selling)

seat_succeeds : register_for_event host ledger 1 2 8 1 none selling ≡ ok sold_seat
unfolding register_for_event store_ticket add_owner_ticket add_event_ticket record_registration
seat_succeeds = refl

register_for_event_charges_example :
    Charged ledger 99 2 5 8 (pos 400) selling.payments sold_seat.payments
unfolding tier_at
register_for_event_charges_example =
    register_for_event_charges host ledger 99 5 2 8 1 1 1 paid_tier (show active) none selling
      sold_seat ledger_laws refl refl refl refl seat_succeeds

abbrev sold_pair : World Balances
sold_pair = result_or genesis (batch_register_for_event host ledger 1 2 8 1 2 none selling)

pair_succeeds : batch_register_for_event host ledger 1 2 8 1 2 none selling ≡ ok sold_pair
unfolding batch_register_for_event store_ticket add_owner_ticket add_event_ticket record_batch
    mint_loop ◌+ℤ◌
pair_succeeds = refl

batch_register_for_event_charges_example :
    Charged ledger 99 2 5 8 (pos 800) selling.payments sold_pair.payments
unfolding tier_at
batch_register_for_event_charges_example =
    batch_register_for_event_charges host ledger 99 5 2 8 1 1 2 1 paid_tier (show active) none
      selling sold_pair ledger_laws refl refl refl refl pair_succeeds
