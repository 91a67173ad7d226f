-- ===== src/Event/Create.antt =====
-- `create_event`, `update_event_details`, `add_ticket_tier` and `update_tier` of
-- contracts/event/src/lib.rs.
use zicket_contract.Base.{
  ltb, leb, ◌==◌, if◌then◌else◌, ◌>>=◌, ◌>>◌, err_if, ok_or, unwrap_or, add_u64, Outcome, ok, err,
  trap, Address, Symbol, require_auth, call_env, invoke, Env, length, ℕ, suc, ◌-◌, Bool, true,
  false, ◌&&◌, ◌||◌, not, Option, none, some, List, [], ◌∷◌, ◌++◌,
}
use zicket_contract.Base.Int.{ℤ, pos, negsuc, ltb_ℤ, eqb_ℤ}
use zicket_contract.CommonUtils.Splits.{Splits, checked_add, validate_revenue_splits}
use zicket_contract.PrivacyUtils.{mask_address}
use zicket_contract.Payments.Admin.{EventTerms, get_accepted_token, sync_event_config}
use zicket_contract.Payments.Splits.{sync_revenue_splits}
use zicket_contract.Payments
use zicket_contract.Event.Types.{
  Text, is_empty, EventStatus, TicketTier, TicketTierParams, Event, CreateEventParams,
  UpdateEventParams, Store, World, upcoming, event_already_exists, unauthorized, invalid_input,
  invalid_event_date, invalid_ticket_count, invalid_price, event_not_updatable, tier_not_found,
  invalid_payout_token, invalid_revenue_split, event_created, event_updated,
}
use zicket_contract.Event.Storage.{
  Call, publish, event_exists, get_event, save_event, get_payments_contract, has_linked_contracts,
  set_event_privacy, get_event_privacy,
}
use zicket_contract.Event.Tiers.{tier_at, set_tier}

-- `MIN_WITHDRAWAL_DELAY_LEDGERS`
abbrev min_withdrawal_delay_ledgers : ℕ
min_withdrawal_delay_ledgers = 100

abbrev pub is_upcoming : EventStatus → Bool
is_upcoming upcoming = true
is_upcoming _ = false

-- An event, for the organizer who has authorized the call and owns it.
unfoldable pub organizer_event : Env → Address → Symbol → Store → Call Event
unfolding get_event
organizer_event env organizer event_id s = do
  require_auth env organizer
  event ← get_event event_id s
  err_if (not (event.organizer == organizer)) unauthorized
  ok event

-- The date lies more than a day ahead.
unfoldable pub check_date : Env → ℕ → Call (Unit {0})
check_date env date = do
  min_date ← add_u64 env.timestamp 86400
  err_if (leb date min_date) invalid_event_date

unfoldable pub check_capacity : ℕ → Call (Unit {0})
check_capacity capacity = err_if (capacity == 0 || leb 100000 capacity) invalid_ticket_count

-- `map_err(|_| EventError::InvalidRevenueSplit)`
abbrev pub as_invalid_split : {E : Type 0} → Outcome E (Unit {0}) → Call (Unit {0})
as_invalid_split (ok _) = ok tt
as_invalid_split (err e) = err invalid_revenue_split
as_invalid_split trap = trap

-- The tests of `create_event` before its tiers.
unfoldable pub check_params : Env → CreateEventParams → Call (Unit {0})
unfolding check_date validate_revenue_splits
check_params env params = do
  err_if (is_empty params.name) invalid_input
  err_if (is_empty params.venue) invalid_input
  check_date env params.event_date
  err_if (ltb params.event_end_ledger params.event_start_ledger) invalid_input
  err_if (ltb params.withdrawal_delay_ledgers min_withdrawal_delay_ledgers) invalid_input
  err_if (ltb 2000 params.resale_royalty_bps) invalid_input
  err_if (is_empty params.initial_tiers) invalid_input
  as_invalid_split (validate_revenue_splits params.revenue_splits params.organizer)

abbrev pub new_tier : ℕ → Text → ℤ → ℕ → TicketTier
new_tier tier_id name price capacity = record {
  tier_id = tier_id;
  name = name;
  price = price;
  capacity = capacity;
  sold = 0;
  reserved = 0;
}

-- The loop over the initial tiers from this id on: the tiers, and the supply when they are added.
unfoldable pub build_tiers : ℕ → ℕ → List TicketTierParams → Call (List TicketTier × ℕ)
unfolding check_capacity
build_tiers tier_id max_supply [] = ok ([], max_supply)
build_tiers tier_id max_supply (tier ∷ tiers) = do
  err_if (is_empty tier.name) invalid_input
  check_capacity tier.capacity
  err_if (ltb_ℤ tier.price (pos 0)) invalid_price
  supply ← ok_or (checked_add max_supply tier.capacity) invalid_ticket_count
  r ← build_tiers (suc tier_id) supply tiers
  ok (new_tier tier_id tier.name tier.price tier.capacity ∷ r.0, r.1)

abbrev pub new_event : Env → CreateEventParams → List TicketTier → ℕ → Event
new_event env params tiers max_supply = record {
  event_id = params.event_id;
  organizer = params.organizer;
  payout_token = params.payout_token;
  name = params.name;
  description = params.description;
  venue = params.venue;
  event_date = params.event_date;
  allow_anonymous = params.allow_anonymous;
  requires_verification = params.requires_verification;
  tiers = tiers;
  status = upcoming;
  created_at = env.timestamp;
  privacy_level = params.privacy_level;
  max_tickets_per_user = params.max_tickets_per_user;
  max_supply = max_supply;
  sold_count = 0;
  event_start_ledger = params.event_start_ledger;
  event_end_ledger = params.event_end_ledger;
  withdrawal_delay_ledgers = params.withdrawal_delay_ledgers;
  revenue_splits = params.revenue_splits;
  resale_royalty_bps = params.resale_royalty_bps;
  max_resale_price = params.max_resale_price;
  allow_free_ticket_transfer = params.allow_free_ticket_transfer;
}

-- The arguments of `sync_event_config` that an event gives.
abbrev pub terms_of : Event → EventTerms
terms_of event = record {
  organizer = event.organizer;
  payout_token = event.payout_token;
  allow_anonymous = event.allow_anonymous;
  requires_verification = event.requires_verification;
  max_tickets_per_user = event.max_tickets_per_user;
  max_supply = event.max_supply;
  event_start_ledger = event.event_start_ledger;
  event_end_ledger = event.event_end_ledger;
  withdrawal_delay_ledgers = event.withdrawal_delay_ledgers;
  resale_royalty_bps = event.resale_royalty_bps;
  max_resale_price = event.max_resale_price;
  allow_free_ticket_transfer = event.allow_free_ticket_transfer;
}

unfoldable pub non_empty : Option Text → Text → Call Text
non_empty none old = ok old
non_empty (some new) old = err_if (is_empty new) invalid_input >> ok new

unfoldable pub updated_date : Env → Option ℕ → ℕ → Call ℕ
unfolding check_date
updated_date env none old = ok old
updated_date env (some date) old = check_date env date >> ok date

unfoldable pub updated_royalty : Option ℕ → Event → Call ℕ
updated_royalty none event = ok event.resale_royalty_bps
updated_royalty (some bps) event =
    err_if (ltb 0 event.sold_count) event_not_updatable
    >> err_if (ltb 2000 bps) invalid_input
    >> ok bps

-- A cap of -1 takes the cap away.
unfoldable pub updated_cap : Option ℤ → Event → Call (Option ℤ)
updated_cap none event = ok event.max_resale_price
updated_cap (some cap) event =
    err_if (ltb 0 event.sold_count) event_not_updatable
    >> err_if (ltb_ℤ cap (pos 0) && not (eqb_ℤ cap (negsuc 0))) invalid_input
    >> ok (if eqb_ℤ cap (negsuc 0) then none else some cap)

unfoldable pub updated_event : Env → UpdateEventParams → Event → Call Event
unfolding non_empty updated_date updated_royalty updated_cap
updated_event env params event = do
  name ← non_empty params.name event.name
  venue ← non_empty params.venue event.venue
  event_date ← updated_date env params.event_date event.event_date
  resale_royalty_bps ← updated_royalty params.resale_royalty_bps event
  max_resale_price ← updated_cap params.max_resale_price event
  ok (record event {
    name = name;
    description = unwrap_or params.description event.description;
    venue = venue;
    event_date = event_date;
    allow_anonymous = unwrap_or params.allow_anonymous event.allow_anonymous;
    requires_verification = unwrap_or params.requires_verification event.requires_verification;
    max_tickets_per_user = unwrap_or params.max_tickets_per_user event.max_tickets_per_user;
    resale_royalty_bps = resale_royalty_bps;
    max_resale_price = max_resale_price;
    allow_free_ticket_transfer =
        unwrap_or params.allow_free_ticket_transfer event.allow_free_ticket_transfer;
  })

unfoldable pub add_ticket_tier :
    Env → Address → Symbol → Text → ℤ → ℕ → Store → Call (TicketTier × Store)
unfolding organizer_event check_capacity save_event
add_ticket_tier env organizer event_id name price capacity s = do
  event ← organizer_event env organizer event_id s
  err_if (not (is_upcoming event.status)) event_not_updatable
  err_if (is_empty name) invalid_input
  check_capacity capacity
  err_if (ltb_ℤ price (pos 0)) invalid_price
  max_supply ← ok_or (checked_add event.max_supply capacity) invalid_ticket_count
  let tier = new_tier (length event.tiers) name price capacity
  ok (
    tier,
    save_event event_id
        (record event { max_supply = max_supply; tiers = event.tiers ++ (tier ∷ []) }) s,
  )

unfoldable pub updated_price : Option ℤ → ℤ → Call ℤ
updated_price none old = ok old
updated_price (some new) old = err_if (ltb_ℤ new (pos 0)) invalid_price >> ok new

-- `u32::checked_sub` and then `u32::checked_add`
abbrev pub exchange_supply : ℕ → ℕ → ℕ → Option ℕ
exchange_supply max_supply old new =
    if ltb max_supply old then none else checked_add (max_supply - old) new

-- The capacity of the tier and the supply of the event.
unfoldable pub updated_capacity : Option ℕ → TicketTier → Event → Call (ℕ × ℕ)
unfolding check_capacity
updated_capacity none tier event = ok (tier.capacity, event.max_supply)
updated_capacity (some capacity) tier event = do
  check_capacity capacity
  err_if (ltb capacity tier.sold) invalid_ticket_count
  max_supply ← ok_or (exchange_supply event.max_supply tier.capacity capacity) invalid_ticket_count
  err_if (ltb max_supply event.sold_count) invalid_ticket_count
  ok (capacity, max_supply)

unfoldable pub update_tier :
    Env → Address → Symbol → ℕ → Option Text → Option ℤ → Option ℕ → Store → Call Store
unfolding organizer_event tier_at non_empty updated_price updated_capacity set_tier save_event
update_tier env organizer event_id tier_id name price capacity s = do
  event ← organizer_event env organizer event_id s
  err_if (not (is_upcoming event.status)) event_not_updatable
  found ← ok_or (tier_at tier_id event.tiers) tier_not_found
  let tier = found.1
  new_name ← non_empty name tier.name
  new_price ← updated_price price tier.price
  r ← updated_capacity capacity tier event
  ok (
      save_event event_id
        (record event {
          max_supply = r.1;
          tiers =
              set_tier found.0 (record tier { name = new_name; price = new_price; capacity = r.0 })
                event.tiers;
        })
        s)

abbrev announce_event : Env → CreateEventParams → Store → Store
announce_event env params s =
    publish
      (event_created params.event_id
        (mask_address env params.organizer (get_event_privacy params.event_id s)) params.name
        params.venue params.event_date (length params.initial_tiers) env.timestamp)
      s

abbrev announce_update : Env → Event → Store → Store
announce_update env event s =
    publish
      (event_updated event.event_id event.name event.description event.venue event.event_date
        env.timestamp)
      s

module _ {T : Type 0} where
  -- The stores of one call of the payments contract that gives no value.
  abbrev pub with_payments : World T → Payments.Types.Store T → World T
  with_payments w payments = record w { payments = payments }

  abbrev pub with_event : World T → Store → World T
  with_event w event = record w { event = event }

  -- The payout token is the one that the payments contract accepts, where one is linked.
  unfoldable pub check_payout_token : Address → World T → Call (Unit {0})
  unfolding has_linked_contracts get_accepted_token
  check_payout_token payout_token w =
      if has_linked_contracts w.event
      then (invoke (get_accepted_token w.payments) >>= λ accepted_token.
          err_if (not (payout_token == accepted_token)) invalid_payout_token)
      else ok tt

  -- The configuration of the event is given to the payments contract, where one is linked.
  unfoldable pub sync_config : Env → Symbol → Event → World T → Call (World T)
  unfolding has_linked_contracts get_payments_contract sync_event_config
  sync_config env event_id event w =
      if has_linked_contracts w.event
      then (get_payments_contract w.event >>= λ payments_contract.
          invoke (
            sync_event_config (call_env env payments_contract) env.current_contract_address event_id
              (terms_of event) w.payments)
          >>= λ payments. ok (with_payments w payments))
      else ok w

  unfoldable pub sync_splits : Env → Symbol → Splits → World T → Call (World T)
  unfolding has_linked_contracts get_payments_contract sync_revenue_splits
  sync_splits env event_id splits w =
      if has_linked_contracts w.event && not (is_empty splits)
      then (get_payments_contract w.event >>= λ payments_contract.
          invoke (
            sync_revenue_splits (call_env env payments_contract) env.current_contract_address
              event_id splits w.payments)
          >>= λ payments. ok (with_payments w payments))
      else ok w

  unfoldable pub create_event : Env → CreateEventParams → World T → Call (Event × World T)
  unfolding check_params build_tiers event_exists check_payout_token save_event set_event_privacy
      sync_config sync_splits
  create_event env params w = do
    require_auth env params.organizer
    check_params env params
    r ← build_tiers 0 0 params.initial_tiers
    err_if (event_exists params.event_id w.event) event_already_exists
    check_payout_token params.payout_token w
    let event = new_event env params r.0 r.1
    let s =
        set_event_privacy params.event_id params.privacy_level
          (save_event params.event_id event w.event)
    u ← sync_config env params.event_id event (with_event w s)
    v ← sync_splits env params.event_id params.revenue_splits u
    ok (event, with_event v (announce_event env params v.event))

  unfoldable pub update_event_details : Env → UpdateEventParams → World T → Call (Event × World T)
  unfolding organizer_event updated_event save_event sync_config
  update_event_details env params w = do
    event ← organizer_event env params.organizer params.event_id w.event
    err_if (not (is_upcoming event.status)) event_not_updatable
    event' ← updated_event env params event
    u ←
        sync_config env params.event_id event'
          (with_event w (save_event params.event_id event' w.event))
    ok (event', with_event u (announce_update env event' u.event))
