-- ===== src/Event/Registration.antt =====
-- `reserve_ticket`, `release_expired_reservation`, `register_for_event` and
-- `batch_register_for_event` of contracts/event/src/lib.rs.
use zicket_contract.Base.{
  ltb, leb, ◌==◌, if◌then◌else◌, ◌>>=◌, ◌>>◌, err_if, ok_or, is_some, add_u32, add_u64, ok, err,
  Address, Symbol, Bytes, require_auth, call_env, invoke, Env, ℕ, zero, suc, ◌-◌, Bool, false, ◌&&◌,
  ◌||◌, not, Option, none, some, List, [], ◌∷◌,
}
use zicket_contract.Base.Int.{ℤ, pos, ltb_ℤ, eqb_ℤ, ◌+ℤ◌}
use zicket_contract.PrivacyUtils.{standard, private, anonymous, mask_address}
use zicket_contract.Ticket
use zicket_contract.Ticket.Storage.{get_tickets_by_owner}
use zicket_contract.Ticket.Contract.{mint_ticket, batch_mint_ticket}
use zicket_contract.Payments
use zicket_contract.Payments.Types.{Token}
use zicket_contract.Payments.Admin.{get_accepted_token}
use zicket_contract.Payments.Resale.{pay_for_ticket}
use zicket_contract.Event.Types.{
  TicketTier, Event, Reservation, Store, World, invalid_input, event_not_active, event_sold_out,
  already_registered, tier_not_found, tier_sold_out, reservation_expired, claim_limit_exceeded,
  claim_cooldown_active, payment_privacy_unsupported, event_registration,
}
use zicket_contract.Event.Storage.{
  Call, publish, get_event, save_event, update_event, is_registered, save_registration,
  get_ticket_contract, get_payments_contract, save_reservation, get_reservation, remove_reservation,
  get_event_privacy, get_claim_settings, get_free_claim_count, increment_free_claim_count,
  get_last_free_claim, set_last_free_claim,
}
use zicket_contract.Event.Tiers.{tier_at, set_tier}
use zicket_contract.Event.Create.{with_payments, with_event}
use zicket_contract.Event.Status.{is_active}

-- Cross-contract registration settles standard payments only.
unfoldable pub require_settleable_privacy : Symbol → Store → Call (Unit {0})
unfolding get_event_privacy
require_settleable_privacy event_id s = elim (get_event_privacy event_id s) [
  | standard ↦ ok tt
  | private ↦ err payment_privacy_unsupported
  | anonymous ↦ err payment_privacy_unsupported
]

-- `tier.sold + tier.reserved >= tier.capacity`
abbrev pub tier_full : TicketTier → Call Bool
tier_full tier = do taken ← add_u32 tier.sold tier.reserved; ok (leb tier.capacity taken)

-- A seat that was reserved in the tier is free again.
unfoldable pub unreserve : ℕ → Event → Call Event
unfolding tier_at set_tier
unreserve tier_id event = do
  found ← ok_or (tier_at tier_id event.tiers) tier_not_found
  let tier = found.1
  ok (record event {
    tiers = set_tier found.0 (record tier { reserved = tier.reserved - 1 }) event.tiers;
  })

-- The event with one more seat of the tier reserved.
unfoldable pub reserve_seat : ℕ → Event → Call Event
unfolding tier_at set_tier
reserve_seat tier_id event = do
  found ← ok_or (tier_at tier_id event.tiers) tier_not_found
  let tier = found.1
  full ← tier_full tier
  err_if full tier_sold_out
  reserved ← add_u32 tier.reserved 1
  ok (record event { tiers = set_tier found.0 (record tier { reserved = reserved }) event.tiers })

unfoldable pub new_reservation : Env → Address → Symbol → ℕ → Event → Store → Call Store
unfolding reserve_seat save_reservation save_event
new_reservation env attendee event_id tier_id event s = do
  event' ← reserve_seat tier_id event
  expires_at ← add_u64 env.timestamp 900
  ok (
      save_event event_id event' (
        save_reservation event_id attendee (record { tier_id = tier_id; expires_at = expires_at })
          s))

-- With the reservation that the attendee has: one that still holds is left alone.
unfoldable pub renew_reservation :
    Env → Address → Symbol → ℕ → Event → Option Reservation → Store → Call Store
unfolding unreserve new_reservation
renew_reservation env attendee event_id tier_id event none s =
    new_reservation env attendee event_id tier_id event s
renew_reservation env attendee event_id tier_id event (some reservation) s =
    if ltb env.timestamp reservation.expires_at
    then ok s
    else (unreserve reservation.tier_id event >>= λ event'.
        new_reservation env attendee event_id tier_id event' s)

unfoldable pub reserve_ticket : Env → Address → Symbol → ℕ → Store → Call Store
unfolding get_event is_registered renew_reservation
reserve_ticket env attendee event_id tier_id s = do
  require_auth env attendee
  event ← get_event event_id s
  err_if (not (is_active event.status)) event_not_active
  err_if (is_registered event_id attendee s) already_registered
  renew_reservation env attendee event_id tier_id event (s.reservation event_id attendee) s

unfoldable pub release_expired_reservation : Env → Symbol → Address → Store → Call Store
unfolding get_reservation get_event unreserve remove_reservation save_event
release_expired_reservation env event_id attendee s = do
  reservation ← get_reservation event_id attendee s
  err_if (ltb env.timestamp reservation.expires_at) invalid_input
  event ← get_event event_id s
  event' ← unreserve reservation.tier_id event
  ok (save_event event_id event' (remove_reservation event_id attendee s))

-- The limits on free claims: this many more, after the cooldown.
unfoldable pub check_cooldown : Env → ℕ → ℕ → Call (Unit {0})
check_cooldown env last cooldown_secs =
    if ltb 0 cooldown_secs && ltb 0 last
    then (add_u64 last cooldown_secs >>= λ until.
        err_if (ltb env.timestamp until) claim_cooldown_active)
    else ok tt

unfoldable pub check_claims : Env → Symbol → Address → Store → Call (Unit {0})
unfolding get_claim_settings get_free_claim_count get_last_free_claim check_cooldown
check_claims env event_id attendee s = do
  let settings = get_claim_settings event_id s
  err_if
      (ltb 0 settings.max_free_claims
        && leb settings.max_free_claims (get_free_claim_count event_id attendee s))
      claim_limit_exceeded
  check_cooldown env (get_last_free_claim event_id attendee s) settings.cooldown_secs

-- Whether the first tier with this id costs nothing.
abbrev pub is_free : Option (ℕ × TicketTier) → Bool
is_free none = false
is_free (some (_, tier)) = eqb_ℤ tier.price (pos 0)

-- A reservation has to be for the tier and not expired.
unfoldable pub check_reservation : Env → ℕ → Option Reservation → Call (Unit {0})
check_reservation env tier_id none = ok tt
check_reservation env tier_id (some reservation) = do
  err_if (ltb reservation.expires_at env.timestamp) reservation_expired
  err_if (not (reservation.tier_id == tier_id)) invalid_input

-- The tests of `register_for_event`, which give the index and the tier.
unfoldable pub check_registration :
    Env → Address → Symbol → ℕ → Event → Store → Call (ℕ × TicketTier)
unfolding require_settleable_privacy tier_at check_claims is_registered check_reservation
check_registration env attendee event_id tier_id event s = do
  err_if (not (is_active event.status)) event_not_active
  require_settleable_privacy event_id s
  (if is_free (tier_at tier_id event.tiers) then check_claims env event_id attendee s else ok tt)
  err_if (is_registered event_id attendee s) already_registered
  check_reservation env tier_id (s.reservation event_id attendee)
  found ← ok_or (tier_at tier_id event.tiers) tier_not_found
  err_if (leb event.max_supply event.sold_count) event_sold_out
  full ← (if is_some (s.reservation event_id attendee) then ok false else tier_full found.1)
  err_if full tier_sold_out
  ok found

-- The tier and the event with this many more tickets sold; a reservation is used up.
unfoldable pub sell : ℕ → Bool → ℕ → TicketTier → Event → Call (TicketTier × Event)
unfolding set_tier
sell count reserved index tier event = do
  sold ← add_u32 tier.sold count
  sold_count ← add_u32 event.sold_count count
  let tier' = record tier {
    sold = sold;
    reserved = if reserved then tier.reserved - 1 else tier.reserved;
  }
  ok (tier', record event { sold_count = sold_count; tiers = set_tier index tier' event.tiers })

abbrev pub announce_registration : Env → Symbol → Address → ℕ → ℕ → Store → Store
announce_registration env event_id attendee tier_id tickets_sold s =
    publish
      (event_registration event_id (mask_address env attendee (get_event_privacy event_id s))
        tier_id tickets_sold env.timestamp)
      s

-- A free claim is counted, and its time kept.
unfoldable pub claim_loop : ℕ → Symbol → Address → Store → Call Store
unfolding increment_free_claim_count
claim_loop zero event_id attendee s = ok s
claim_loop (suc count) event_id attendee s =
    increment_free_claim_count event_id attendee s >>= λ t. claim_loop count event_id attendee t

unfoldable pub count_claims : Env → ℕ → Symbol → Address → TicketTier → Store → Call Store
unfolding claim_loop set_last_free_claim
count_claims env count event_id attendee tier s =
    if eqb_ℤ tier.price (pos 0)
    then (claim_loop count event_id attendee s >>= λ t.
        ok (set_last_free_claim event_id attendee env.timestamp t))
    else ok s

-- What a registration leaves in the event contract.
unfoldable pub record_registration :
    Env → Address → Symbol → ℕ → ℕ → TicketTier → Event → Store → Call Store
unfolding save_registration remove_reservation count_claims sell update_event
record_registration env attendee event_id tier_id index tier event s = do
  let reserved = is_some (s.reservation event_id attendee)
  t ← save_registration event_id attendee s
  u ←
      count_claims env 1 event_id attendee tier
        (if reserved then remove_reservation event_id attendee t else t)
  r ← sell 1 reserved index tier event
  v ← update_event event_id r.1 u
  ok (announce_registration env event_id attendee tier_id r.0.sold v)

-- `tier.price * count as i128`
unfoldable pub times : ℕ → ℤ → ℤ
times zero price = pos 0
times (suc count) price = times count price +ℤ price

-- The tests of `batch_register_for_event` from the tier on.
unfoldable pub check_batch_claims : Env → Symbol → Address → ℕ → Store → Call (Unit {0})
unfolding get_claim_settings get_free_claim_count get_last_free_claim check_cooldown
check_batch_claims env event_id attendee count s = do
  let settings = get_claim_settings event_id s
  (if ltb 0 settings.max_free_claims
      then (add_u32 (get_free_claim_count event_id attendee s) count >>= λ claims.
          err_if (ltb settings.max_free_claims claims) claim_limit_exceeded)
      else ok tt)
  check_cooldown env (get_last_free_claim event_id attendee s) settings.cooldown_secs

-- The loop of `count_user_event_tickets`.
unfoldable pub count_tickets : ℕ → Symbol → List ℕ → Ticket.Types.Store → Call ℕ
unfolding Ticket.Storage.get_ticket
count_tickets count event_id [] tickets = ok count
count_tickets count event_id (ticket_id ∷ ticket_ids) tickets =
    invoke (Ticket.Storage.get_ticket ticket_id tickets) >>= λ minted.
    (if minted.event_id == event_id then add_u32 count 1 else ok count) >>= λ count'.
    count_tickets count' event_id ticket_ids tickets

unfoldable pub check_user_limit :
    Address → Symbol → ℕ → Event → Ticket.Types.Store → Call (Unit {0})
unfolding count_tickets get_tickets_by_owner
check_user_limit attendee event_id count event tickets =
    if ltb 0 event.max_tickets_per_user
    then (count_tickets 0 event_id (get_tickets_by_owner attendee tickets) tickets >>= λ existing.
        add_u32 existing count >>= λ total.
        err_if (ltb event.max_tickets_per_user total) invalid_input)
    else ok tt

-- The supply of the event and the capacity of the tier hold this many more.
unfoldable pub check_seats : ℕ → Bool → TicketTier → Event → Call (Unit {0})
check_seats count reserved tier event = do
  sold_count ← add_u32 event.sold_count count
  err_if (ltb event.max_supply sold_count) event_sold_out
  taken ← add_u32 tier.sold (if reserved then tier.reserved - 1 else tier.reserved)
  seats ← add_u32 taken count
  err_if (ltb tier.capacity seats) tier_sold_out

unfoldable pub record_batch :
    Env → Address → Symbol → ℕ → ℕ → ℕ → TicketTier → Event → Store → Call Store
unfolding is_registered save_registration remove_reservation count_claims sell update_event
record_batch env attendee event_id tier_id count index tier event s = do
  let reserved = is_some (s.reservation event_id attendee)
  t ← (if is_registered event_id attendee s then ok s else save_registration event_id attendee s)
  u ← count_claims env count event_id attendee tier t
  r ← sell count reserved index tier event
  v ← update_event event_id r.1 (if reserved then remove_reservation event_id attendee u else u)
  ok (announce_registration env event_id attendee tier_id r.0.sold v)

module _ {T : Type 0} where
  -- The purchase of a ticket that is not free, by `payer`.
  unfoldable pub pay_tier :
      Env → Token T → ℕ → Address → Address → Symbol → ℤ → Option Bytes → World T → Call (World T)
  unfolding get_accepted_token pay_for_ticket
  pay_tier env token nonce payments_contract payer event_id amount email_hash w = do
    accepted_token ← invoke (get_accepted_token w.payments)
    r ← invoke (
        pay_for_ticket (call_env env payments_contract) token nonce payer event_id amount email_hash
          accepted_token Payments.Types.standard none none w.payments)
    ok (with_payments w r.1)

  unfoldable pub buy_tier :
      Env → Token T → ℕ → Address → Symbol → ℤ → ℤ → Option Bytes → World T → Call (World T)
  unfolding get_payments_contract pay_tier
  buy_tier env token nonce attendee event_id price amount email_hash w =
      get_payments_contract w.event >>= λ payments_contract.
      (if ltb_ℤ (pos 0) price
        then pay_tier env token nonce payments_contract attendee event_id amount email_hash w
        else ok w)

  unfoldable pub mint_seat : Env → Event → Address → World T → Call (World T)
  unfolding get_ticket_contract mint_ticket
  mint_seat env event owner w = do
    ticket_contract ← get_ticket_contract w.event
    r ←
        invoke (
          mint_ticket (call_env env ticket_contract) event.event_id event.organizer owner w.tickets)
    ok (record w { tickets = r.1 })

  unfoldable pub mint_batch : Env → Event → Address → ℕ → World T → Call (World T)
  unfolding get_ticket_contract batch_mint_ticket
  mint_batch env event owner count w = do
    ticket_contract ← get_ticket_contract w.event
    r ← invoke (
        batch_mint_ticket (call_env env ticket_contract) event.event_id event.organizer owner count
          w.tickets)
    ok (record w { tickets = r.1 })

  unfoldable pub register_for_event :
      Env → Token T → ℕ → Address → Symbol → ℕ → Option Bytes → World T → Call (World T)
  unfolding get_event check_registration get_ticket_contract get_payments_contract buy_tier
      mint_seat record_registration
  register_for_event env token nonce attendee event_id tier_id email_hash w = do
    require_auth env attendee
    event ← get_event event_id w.event
    found ← check_registration env attendee event_id tier_id event w.event
    _ ← get_payments_contract w.event
    _ ← get_ticket_contract w.event
    u ← buy_tier env token nonce attendee event_id found.1.price found.1.price email_hash w
    v ← mint_seat env event attendee u
    s ← record_registration env attendee event_id tier_id found.0 found.1 event v.event
    ok (with_event v s)

  unfoldable pub check_batch :
      Env → Address → Symbol → ℕ → ℕ → Event → World T → Call (ℕ × TicketTier)
  unfolding require_settleable_privacy tier_at check_reservation get_ticket_contract
      check_user_limit check_seats check_batch_claims
  check_batch env attendee event_id tier_id count event w = do
    err_if (not (is_active event.status)) event_not_active
    require_settleable_privacy event_id w.event
    found ← ok_or (tier_at tier_id event.tiers) tier_not_found
    check_reservation env tier_id (w.event.reservation event_id attendee)
    _ ← get_ticket_contract w.event
    check_user_limit attendee event_id count event w.tickets
    check_seats count (is_some (w.event.reservation event_id attendee)) found.1 event
    (if eqb_ℤ found.1.price (pos 0)
        then check_batch_claims env event_id attendee count w.event
        else ok tt)
    ok found

  unfoldable pub batch_register_for_event :
      Env → Token T → ℕ → Address → Symbol → ℕ → ℕ → Option Bytes → World T → Call (World T)
  unfolding get_event check_batch buy_tier times mint_batch record_batch
  batch_register_for_event env token nonce attendee event_id tier_id count email_hash w = do
    require_auth env attendee
    err_if (count == 0 || ltb 100 count) invalid_input
    event ← get_event event_id w.event
    found ← check_batch env attendee event_id tier_id count event w
    u ←
        buy_tier env token nonce attendee event_id found.1.price (times count found.1.price)
          email_hash w
    v ← mint_batch env event attendee count u
    s ← record_batch env attendee event_id tier_id count found.0 found.1 event v.event
    ok (with_event v s)
