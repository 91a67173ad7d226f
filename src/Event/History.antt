-- ===== src/Event/History.antt =====
-- Histories of calls of the event contract, contracts/event/src/lib.rs. A call that fails is rolled
-- back; between the calls the two other contracts may do anything.
use zicket_contract.Base.{
  ◌>>=◌, ok, err, trap, Address, Symbol, Bytes, Env, ok-Ensures, bind-Ensures, Ensures, ℕ, ◌≡◌,
  refl, ◌⊎◌, Option, some, List, [], ◌∷◌,
}
use zicket_contract.Base.Int.{ℤ}
use zicket_contract.PrivacyUtils.{PrivacyLevel}
use zicket_contract.Payments.Types.{Token}
use zicket_contract.Payments
use zicket_contract.Ticket
use zicket_contract.Event.Types.{
  Text, ZkPassportClaim, AnonymousTicketClaim, ZkVerificationConfig, EventStatus, Event,
  CreateEventParams, UpdateEventParams, Store, World, completed, cancelled,
}
use zicket_contract.Event.Storage.{Call}
use zicket_contract.Event.Create.{
  with_event, add_ticket_tier, update_tier, create_event, update_event_details,
}
use zicket_contract.Event.Status.{
  update_event_status, cancel_event, postpone_event, finalize_postponement,
  request_postponement_refund,
}
use zicket_contract.Event.Registration.{
  reserve_ticket, release_expired_reservation, register_for_event, batch_register_for_event,
}
use zicket_contract.Event.PublicInputs.{Codec}
use zicket_contract.Event.Claims.{
  set_anonymous_claim_verifier, set_claim_settings, set_anon_claim_settings, set_zk_config,
  claim_anonymous_ticket, verify_and_attend,
}
use zicket_contract.Event.Admin.{
  set_event_privacy, migrate, initialize, withdraw_revenue, withdraw_split, flag_cohost,
}
use zicket_contract.Event.Evolution.{
  Advances-refl, advanced-HasSeats, advanced-IsOver, HasSeats, Advances, IsOver,
}
use zicket_contract.Event.Lifecycle.{
  Onward, WorldOnward, update_event_status-Onward, add_ticket_tier-Onward, update_tier-Onward,
  update_event_details-Onward, create_event-Onward,
}
use zicket_contract.Event.Schedule.{
  cancel_event-Onward, postpone_event-Onward, finalize_postponement-Onward,
  request_postponement_refund-Onward,
}
use zicket_contract.Event.Sales.{reserve_ticket-Onward, release_expired_reservation-Onward}
use zicket_contract.Event.ClaimSales.{claim_anonymous_ticket-Onward}
use zicket_contract.Event.Checkout.{
  register_for_event-Onward, batch_register_for_event-Onward, verify_and_attend-Onward,
}
use zicket_contract.Event.Settings.{
  set_claim_settings-Onward, set_anon_claim_settings-Onward, set_zk_config-Onward,
  set_event_privacy-Onward, set_anonymous_claim_verifier-Onward, migrate-Onward, initialize-Onward,
  withdraw_revenue-Onward, withdraw_split-Onward, flag_cohost-Onward,
}

-- The calls that write.
pub data Request (T : Type 0) : Type 0 where
  configure : Address → Address → Address → Request T
  create : CreateEventParams → Request T
  edit : UpdateEventParams → Request T
  add_tier : Address → Symbol → Text → ℤ → ℕ → Request T
  edit_tier : Address → Symbol → ℕ → Option Text → Option ℤ → Option ℕ → Request T
  set_status : Address → Symbol → EventStatus → Request T
  cancel : Address → Symbol → Request T
  postpone : Address → Symbol → ℕ → ℕ → Request T
  finalize : Address → Symbol → Request T
  refund : Address → ℕ → Request T
  reserve : Address → Symbol → ℕ → Request T
  release : Symbol → Address → Request T
  register : ℕ → Address → Symbol → ℕ → Option Bytes → Request T
  batch_register : ℕ → Address → Symbol → ℕ → ℕ → Option Bytes → Request T
  claim : Symbol → ℕ → AnonymousTicketClaim → Request T
  attend : Symbol → ℕ → ZkPassportClaim → Request T
  set_verifier : Address → Address → Request T
  set_claims : Address → Symbol → ℕ → ℕ → Request T
  set_anon_claims : Address → Symbol → ℕ → ℕ → Request T
  set_zk : Address → Symbol → ZkVerificationConfig → Request T
  set_privacy : Address → Symbol → PrivacyLevel → Request T
  upgrade : Address → Request T
  withdraw : Address → Symbol → Request T
  take_share : Address → Symbol → Request T
  flag : Address → Symbol → Address → Request T
  -- what the calls of the other two contracts leave there
  elsewhere : Ticket.Types.Store → Payments.Types.Store T → Request T

module _ {T : Type 0} where
  -- A call of the event contract alone.
  abbrev pub alone : World T → Call Store → Call (World T)
  alone w m = m >>= λ s. ok (with_event w s)

  unfoldable pub apply : Env → Token T → Codec → Request T → World T → Call (World T)
  apply env token codec (configure admin tickets payments) w =
      initialize env admin tickets payments w
  apply env token codec (create params) w = create_event env params w >>= λ r. ok r.1
  apply env token codec (edit params) w = update_event_details env params w >>= λ r. ok r.1
  apply env token codec (add_tier organizer id name price capacity) w =
      add_ticket_tier env organizer id name price capacity w.event >>= λ r. ok (with_event w r.1)
  apply env token codec (edit_tier organizer id tier_id name price capacity) w =
      alone w (update_tier env organizer id tier_id name price capacity w.event)
  apply env token codec (set_status organizer id status) w =
      alone w (update_event_status env organizer id status w.event)
  apply env token codec (cancel organizer id) w = cancel_event env organizer id w
  apply env token codec (postpone organizer id date window) w =
      postpone_event env organizer id date window w
  apply env token codec (finalize organizer id) w = finalize_postponement env organizer id w
  apply env token codec (refund attendee ticket_id) w =
      request_postponement_refund env token attendee ticket_id w
  apply env token codec (reserve attendee id tier_id) w =
      alone w (reserve_ticket env attendee id tier_id w.event)
  apply env token codec (release id attendee) w =
      alone w (release_expired_reservation env id attendee w.event)
  apply env token codec (register nonce attendee id tier_id hash) w =
      register_for_event env token nonce attendee id tier_id hash w
  apply env token codec (batch_register nonce attendee id tier_id count hash) w =
      batch_register_for_event env token nonce attendee id tier_id count hash w
  apply env token codec (claim id tier_id c) w =
      alone w (claim_anonymous_ticket env codec id tier_id c w.event)
  apply env token codec (attend id tier_id c) w = verify_and_attend env token id tier_id c w
  apply env token codec (set_verifier admin verifier) w =
      alone w (set_anonymous_claim_verifier env admin verifier w.event)
  apply env token codec (set_claims organizer id max cooldown) w =
      alone w (set_claim_settings env organizer id max cooldown w.event)
  apply env token codec (set_anon_claims organizer id max size) w =
      alone w (set_anon_claim_settings env organizer id max size w.event)
  apply env token codec (set_zk organizer id config) w =
      alone w (set_zk_config env organizer id config w.event)
  apply env token codec (set_privacy organizer id level) w =
      alone w (set_event_privacy env organizer id level w.event)
  apply env token codec (upgrade admin) w = migrate env admin w.event >>= λ r. ok (with_event w r.1)
  apply env token codec (withdraw organizer id) w = withdraw_revenue env token organizer id w
  apply env token codec (take_share recipient id) w = withdraw_split env token recipient id w
  apply env token codec (flag organizer id recipient) w = flag_cohost env organizer id recipient w
  apply env token codec (elsewhere tickets payments) w =
      ok (record w { tickets = tickets; payments = payments })

  -- A call that fails is rolled back.
  abbrev pub settle : World T → Call (World T) → World T
  settle w (ok u) = u
  settle w (err e) = w
  settle w trap = w

  unfoldable pub run : Token T → Codec → List (Env × Request T) → World T → World T
  run token codec [] w = w
  run token codec ((env, q) ∷ rest) w = run token codec rest (settle w (apply env token codec q w))

  alone-Onward :
      (w : World T) (m : Call Store)
      → Ensures (Onward w.event) m
      → Ensures (WorldOnward w) (alone w m)
  alone-Onward w m h = bind-Ensures m λ s e. ok-Ensures (h.holds s e)

  -- Every call advances the stored events.
  apply-Onward :
      (env : Env) (token : Token T) (codec : Codec) (q : Request T) (w : World T)
      → Ensures (WorldOnward w) (apply env token codec q w)
  unfolding apply
  apply-Onward env token codec (configure admin tickets payments) w =
      initialize-Onward env admin tickets payments w
  apply-Onward env token codec (create params) w =
      bind-Ensures (create_event env params w)
        λ r e. ok-Ensures ((create_event-Onward env params w).holds r e)
  apply-Onward env token codec (edit params) w =
      bind-Ensures (update_event_details env params w)
        λ r e. ok-Ensures ((update_event_details-Onward env params w).holds r e)
  apply-Onward env token codec (add_tier organizer id name price capacity) w =
      bind-Ensures (add_ticket_tier env organizer id name price capacity w.event) λ r e.
        ok-Ensures ((add_ticket_tier-Onward env organizer id name price capacity w.event).holds r e)
  apply-Onward env token codec (edit_tier organizer id tier_id name price capacity) w =
      alone-Onward w _ (update_tier-Onward env organizer id tier_id name price capacity w.event)
  apply-Onward env token codec (set_status organizer id status) w =
      alone-Onward w _ (update_event_status-Onward env organizer id status w.event)
  apply-Onward env token codec (cancel organizer id) w = cancel_event-Onward env organizer id w
  apply-Onward env token codec (postpone organizer id date window) w =
      postpone_event-Onward env organizer id date window w
  apply-Onward env token codec (finalize organizer id) w =
      finalize_postponement-Onward env organizer id w
  apply-Onward env token codec (refund attendee ticket_id) w =
      request_postponement_refund-Onward env token attendee ticket_id w
  apply-Onward env token codec (reserve attendee id tier_id) w =
      alone-Onward w _ (reserve_ticket-Onward env attendee id tier_id w.event)
  apply-Onward env token codec (release id attendee) w =
      alone-Onward w _ (release_expired_reservation-Onward env id attendee w.event)
  apply-Onward env token codec (register nonce attendee id tier_id hash) w =
      register_for_event-Onward env token nonce attendee id tier_id hash w
  apply-Onward env token codec (batch_register nonce attendee id tier_id count hash) w =
      batch_register_for_event-Onward env token nonce attendee id tier_id count hash w
  apply-Onward env token codec (claim id tier_id c) w =
      alone-Onward w _ (claim_anonymous_ticket-Onward env codec id tier_id c w.event)
  apply-Onward env token codec (attend id tier_id c) w =
      verify_and_attend-Onward env token id tier_id c w
  apply-Onward env token codec (set_verifier admin verifier) w =
      alone-Onward w _ (set_anonymous_claim_verifier-Onward env admin verifier w.event)
  apply-Onward env token codec (set_claims organizer id max cooldown) w =
      alone-Onward w _ (set_claim_settings-Onward env organizer id max cooldown w.event)
  apply-Onward env token codec (set_anon_claims organizer id max size) w =
      alone-Onward w _ (set_anon_claim_settings-Onward env organizer id max size w.event)
  apply-Onward env token codec (set_zk organizer id config) w =
      alone-Onward w _ (set_zk_config-Onward env organizer id config w.event)
  apply-Onward env token codec (set_privacy organizer id level) w =
      alone-Onward w _ (set_event_privacy-Onward env organizer id level w.event)
  apply-Onward env token codec (upgrade admin) w =
      bind-Ensures (migrate env admin w.event)
        λ r e. ok-Ensures ((migrate-Onward env admin w.event).holds r e)
  apply-Onward env token codec (withdraw organizer id) w =
      withdraw_revenue-Onward env token organizer id w
  apply-Onward env token codec (take_share recipient id) w =
      withdraw_split-Onward env token recipient id w
  apply-Onward env token codec (flag organizer id recipient) w =
      flag_cohost-Onward env organizer id recipient w
  apply-Onward env token codec (elsewhere tickets payments) w =
      ok-Ensures (Advances-refl w.event.event)

  settle-Onward :
      (w : World T) (m : Call (World T)) → Ensures (WorldOnward w) m → WorldOnward w (settle w m)
  settle-Onward w (ok u) h = h.holds u refl
  settle-Onward w (err e) h = Advances-refl w.event.event
  settle-Onward w trap h = Advances-refl w.event.event

  -- One call of the event contract, failed or not, keeps every stored event stored with its id,
  -- organizer, payout token and revenue splits, moves its status along at most one edge of the
  -- diagram, never lowers its sales and raises them only while it was active; an event that was not
  -- stored before is upcoming and has its seats.
  pub step-Advances :
      (env : Env) (token : Token T) (codec : Codec) (q : Request T) (w : World T)
      → Advances w.event.event (settle w (apply env token codec q w)).event.event
  step-Advances env token codec q w =
      settle-Onward w (apply env token codec q w) (apply-Onward env token codec q w)

  -- All the events of a storage have their seats.
  unfoldable pub AllHaveSeats : World T → Type 0
  AllHaveSeats w = (id : Symbol) (event : Event) → w.event.event id ≡ some event → HasSeats event

  -- From a storage whose events all have their seats (tiers numbered by position, sold count and
  -- supply equal to the sums over the tiers, no more sold than the supply, the supply a u32,
  -- nothing sold while upcoming), every history of calls of the event contract, failed ones
  -- included, ends in such a storage, whatever the other two contracts do between the calls.
  pub run-HasSeats :
      (token : Token T) (codec : Codec) (history : List (Env × Request T)) (w : World T)
      → AllHaveSeats w
      → AllHaveSeats (run token codec history w)
  unfolding run AllHaveSeats
  run-HasSeats token codec [] w h = h
  run-HasSeats token codec ((env, q) ∷ rest) w h =
      run-HasSeats token codec rest _
        (λ id event stored. advanced-HasSeats h (step-Advances env token codec q w) id event stored)

  stays-IsOver :
      (token : Token T) (codec : Codec) (history : List (Env × Request T)) (w : World T)
      (id : Symbol) {status : EventStatus} {sold : ℕ} {organizer : Address}
      → (status ≡ completed) ⊎ (status ≡ cancelled)
      → (event : Event) × (w.event.event id ≡ some event) × IsOver status sold organizer event
      → (event : Event) × ((run token codec history w).event.event id ≡ some event)
        × IsOver status sold organizer event
  unfolding run
  stays-IsOver token codec [] w id closed over = over
  stays-IsOver token codec ((env, q) ∷ rest) w id closed over =
      stays-IsOver token codec rest _ id closed
        (advanced-IsOver closed (step-Advances env token codec q w) id over)

  -- An event that is completed or cancelled keeps its status, its sales and its organizer under
  -- every history of calls of the event contract.
  pub run-IsOver :
      (token : Token T) (codec : Codec) (history : List (Env × Request T)) (w : World T)
      (id : Symbol) (event : Event)
      → w.event.event id ≡ some event
      → (event.status ≡ completed) ⊎ (event.status ≡ cancelled)
      → (later : Event) × ((run token codec history w).event.event id ≡ some later)
        × IsOver event.status event.sold_count event.organizer later
  run-IsOver token codec history w id event stored closed =
      stays-IsOver token codec history w id closed
        (event, stored, record { same_status = refl; same_sold = refl; same_organizer = refl })
