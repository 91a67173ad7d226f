-- ===== src/Event/Lifecycle.antt =====
-- What each entry point of the event contract that stores an event makes of the stored events.
use zicket_contract.Base.{
  ltb, Option-cases, ok_or, is_some-eq-false, u32_max, ok_or_inv, ok, Address, Symbol, update,
  require_auth, call_env, invoke, Env, ok-Ensures, bind-Ensures, if-Ensures, test-Ensures, Ensures,
  length, ℕ, suc, ◌+◌, ◌≤◌, ◌≡◌, refl, sym, ap, ◌∙◌, inl, inr, ◌&&◌, not, Option, none, some, List,
  [], ◌∷◌, ◌++◌, arith,
}
use zicket_contract.Base.Int.{ℤ, pos, ltb_ℤ}
use zicket_contract.CommonUtils.Splits.{Splits, checked_add}
use mathlib.Core.Path.{subst}
use zicket_contract.Payments.Admin.{sync_event_config}
use zicket_contract.Payments.Splits.{sync_revenue_splits}
use zicket_contract.Event.Types.{
  Text, is_empty, EventStatus, TicketTier, TicketTierParams, Event, CreateEventParams,
  UpdateEventParams, Store, World, event_already_exists, invalid_status_transition, invalid_input,
  invalid_ticket_count, invalid_price, event_not_updatable, tier_not_found,
}
use zicket_contract.Event.Storage.{
  event_exists, get_event, save_event, update_event, get_payments_contract, has_linked_contracts,
  set_event_privacy,
}
use zicket_contract.Event.Tiers.{
  tier_at, set_tier, total_sold, total_capacity, Numbered, tier_at-At, total_sold-set_tier,
  total_capacity-set_tier, set_tier-Numbered, append-total_sold, append-total_capacity,
  append-Numbered,
}
use zicket_contract.Event.Evolution.{
  saved-Advances, created-Advances, HasSeats, Evolves, Advances, stays,
}
use zicket_contract.Event.Changes.{
  restatus_Evolves, valid_transition-⟶, resized_Evolves, checked_add_value,
}
use zicket_contract.Event.Create.{
  is_upcoming, organizer_event, check_capacity, check_params, new_tier, build_tiers, new_event,
  terms_of, non_empty, updated_date, updated_royalty, updated_cap, updated_event, add_ticket_tier,
  updated_price, exchange_supply, updated_capacity, update_tier, with_event, check_payout_token,
  sync_config, sync_splits, create_event, update_event_details,
}
use zicket_contract.Event.Status.{valid_transition, update_event_status}

-- The stored events advance to those of this storage.
abbrev pub Onward : Store → Store → Type 0
Onward s t = Advances s.event t.event

abbrev pub WorldOnward : {T : Type 0} → World T → World T → Type 0
WorldOnward w u = Onward w.event u.event

pub moved-Advances : {s t u : Symbol → Option Event} → u ≡ t → Advances s t → Advances s u
moved-Advances {s} same h = subst (λ x. Advances s x) (sym same) h

pub organizer_event-stored :
    (env : Env) (organizer : Address) (event_id : Symbol) (s : Store) {event : Event}
    → organizer_event env organizer event_id s ≡ ok event
    → s.event event_id ≡ some event
unfolding organizer_event get_event
organizer_event-stored env organizer event_id s e = elim (Option-cases (s.event event_id)) [
  | inl nothing ↦ ground arith
  | inr (event, got) ↦ ground arith
]

pub get_event-stored :
    (event_id : Symbol) (s : Store) {event : Event}
    → get_event event_id s ≡ ok event
    → s.event event_id ≡ some event
unfolding get_event
get_event-stored event_id s e = ok_or_inv _ _ e

pub update_event-stores :
    (event_id : Symbol) (event : Event) (s : Store) {t : Store}
    → update_event event_id event s ≡ ok t
    → t.event ≡ update s.event event_id (some event)
unfolding update_event save_event event_exists
update_event-stores event_id event s e = ground arith

pub update_event_status-Onward :
    (env : Env) (organizer : Address) (event_id : Symbol) (status : EventStatus) (s : Store)
    → Ensures (Onward s) (update_event_status env organizer event_id status s)
unfolding update_event_status
update_event_status-Onward env organizer event_id status s =
    bind-Ensures (organizer_event env organizer event_id s) λ event got.
      test-Ensures (not (valid_transition event.status status)) invalid_status_transition λ valid.
        bind-Ensures (update_event event_id (record event { status = status }) s) λ t saved.
          ok-Ensures (
            moved-Advances (update_event-stores event_id _ s saved) (
              saved-Advances event_id (organizer_event-stored env organizer event_id s got) (
                restatus_Evolves event status event.event_start_ledger event.event_end_ledger
                  (valid_transition-⟶ event.status status (ground arith)))))

pub add_ticket_tier-Onward :
    (env : Env) (organizer : Address) (event_id : Symbol) (name : Text) (price : ℤ) (capacity : ℕ)
    (s : Store)
    → Ensures (λ r. Onward s r.1) (add_ticket_tier env organizer event_id name price capacity s)
unfolding add_ticket_tier save_event
add_ticket_tier-Onward env organizer event_id name price capacity s =
    bind-Ensures (organizer_event env organizer event_id s) λ event got.
      test-Ensures (not (is_upcoming event.status)) event_not_updatable λ _.
        test-Ensures (is_empty name) invalid_input λ _.
          bind-Ensures (check_capacity capacity) λ _ _.
            test-Ensures (ltb_ℤ price (pos 0)) invalid_price λ _.
              bind-Ensures (ok_or (checked_add event.max_supply capacity) invalid_ticket_count)
                λ supply e.
                  let (added, fits) =
                    checked_add_value event.max_supply capacity (ok_or_inv _ _ e) in
                  let tier = new_tier (length event.tiers) name price capacity in
                  let sold = append-total_sold event.tiers tier in
                  let all = append-total_capacity event.tiers tier in
                  ok-Ensures (
                    saved-Advances event_id (organizer_event-stored env organizer event_id s got) (
                      resized_Evolves event (event.tiers ++ (tier ∷ [])) supply
                        (λ h. append-Numbered event.tiers tier 0 h.numbered (omega arith))
                        (λ h. omega arith) (λ h. let c = h.capacity_total in omega arith)
                        (λ h. let c = h.bounded in omega arith) (λ h. omega arith)))

-- The supply follows the capacity of the tier.
updated_capacity-fits :
    (capacity : Option ℕ) (tier : TicketTier) (event : Event)
    → HasSeats event
    → Ensures
        (λ r.
          (r.1 + tier.capacity ≡ event.max_supply + r.0)
          × (event.sold_count ≤ r.1)
          × (r.1 ≤ u32_max))
        (updated_capacity capacity tier event)
unfolding updated_capacity
updated_capacity-fits none tier event h = ok-Ensures (omega arith, h.bounded, h.fits)
updated_capacity-fits (some capacity) tier event h = bind-Ensures (check_capacity capacity) λ _ _.
    test-Ensures (ltb capacity tier.sold) invalid_ticket_count λ _.
      bind-Ensures
        (ok_or (exchange_supply event.max_supply tier.capacity capacity) invalid_ticket_count)
        λ supply e. test-Ensures (ltb supply event.sold_count) invalid_ticket_count λ enough.
          let exchanged = ok_or_inv _ _ e in ok-Ensures (ground arith, ground arith, ground arith)

pub update_tier-Onward :
    (env : Env) (organizer : Address) (event_id : Symbol) (tier_id : ℕ) (name : Option Text)
    (price : Option ℤ) (capacity : Option ℕ) (s : Store)
    → Ensures (Onward s) (update_tier env organizer event_id tier_id name price capacity s)
unfolding update_tier save_event
update_tier-Onward env organizer event_id tier_id name price capacity s =
    bind-Ensures (organizer_event env organizer event_id s) λ event got.
      test-Ensures (not (is_upcoming event.status)) event_not_updatable λ _.
        bind-Ensures (ok_or (tier_at tier_id event.tiers) tier_not_found) λ found e.
          bind-Ensures (non_empty name found.1.name) λ new_name _.
            bind-Ensures (updated_price price found.1.price) λ new_price _.
              bind-Ensures (updated_capacity capacity found.1 event) λ r e'.
                let (at, _) = tier_at-At tier_id event.tiers found.0 found.1 (ok_or_inv _ _ e) in
                let tier' : TicketTier = record found.1 {
                  name = new_name;
                  price = new_price;
                  capacity = r.0;
                } in
                let sold = total_sold-set_tier at tier' in
                let all = total_capacity-set_tier at tier' in
                let fits : (h : HasSeats event) → _ =
                  λ h. (updated_capacity-fits capacity found.1 event h).holds r e' in
                ok-Ensures (
                  saved-Advances event_id (organizer_event-stored env organizer event_id s got) (
                    resized_Evolves event (set_tier found.0 tier' event.tiers) r.1
                      (λ h. set_tier-Numbered at tier' 0 refl h.numbered) (λ h. omega arith)
                      (λ h. let moved = (fits h).0 in let c = h.capacity_total in omega arith)
                      (λ h. (fits h).1) (λ h. (fits h).2)))

updated_event-Evolves :
    (env : Env) (params : UpdateEventParams) (event : Event)
    → Ensures (Evolves event) (updated_event env params event)
unfolding updated_event
updated_event-Evolves env params event = bind-Ensures (non_empty params.name event.name) λ name _.
    bind-Ensures (non_empty params.venue event.venue) λ venue _.
      bind-Ensures (updated_date env params.event_date event.event_date) λ date _.
        bind-Ensures (updated_royalty params.resale_royalty_bps event) λ royalty _.
          bind-Ensures (updated_cap params.max_resale_price event) λ cap _. ok-Ensures (record {
            same_id = refl;
            same_organizer = refl;
            same_token = refl;
            same_splits = refl;
            step = stays;
            sale = inr refl;
            grows = omega arith;
            seats = λ h. record {
              numbered = h.numbered;
              sold_total = h.sold_total;
              capacity_total = h.capacity_total;
              bounded = h.bounded;
              fits = h.fits;
              unsold = h.unsold;
            };
          })

-- The tiers of a new event, and their supply.
build_tiers-seats :
    (tiers : List TicketTierParams) (first supply : ℕ)
    → supply ≤ u32_max
    → Ensures
        (λ r.
          Numbered first r.0
          × (total_sold r.0 ≡ 0)
          × (supply + total_capacity r.0 ≡ r.1)
          × (r.1 ≤ u32_max))
        (build_tiers first supply tiers)
unfolding build_tiers Numbered total_sold total_capacity
build_tiers-seats [] first supply fits = ok-Ensures (tt, refl, omega arith, fits)
build_tiers-seats (tier ∷ tiers) first supply fits =
    test-Ensures (is_empty tier.name) invalid_input λ _.
      bind-Ensures (check_capacity tier.capacity) λ _ _.
        test-Ensures (ltb_ℤ tier.price (pos 0)) invalid_price λ _.
          bind-Ensures (ok_or (checked_add supply tier.capacity) invalid_ticket_count) λ supply' e.
            bind-Ensures (build_tiers (suc first) supply' tiers) λ r e'.
              let (added, fits') = checked_add_value supply tier.capacity (ok_or_inv _ _ e) in
              let (numbered, sold, all, bound) =
                (build_tiers-seats tiers (suc first) supply' fits').holds r e' in
              ok-Ensures ((refl, numbered), omega arith, omega arith, bound)

module _ {T : Type 0} where
  -- The calls of the payments contract leave the storage of the event contract alone.
  pub sync_config-event :
      (env : Env) (event_id : Symbol) (event : Event) (w : World T)
      → Ensures (λ u. u.event ≡ w.event) (sync_config env event_id event w)
  unfolding sync_config
  sync_config-event env event_id event w =
      if-Ensures (has_linked_contracts w.event)
        (λ _. bind-Ensures (get_payments_contract w.event) λ payments_contract _.
          bind-Ensures
            (invoke (
              sync_event_config (call_env env payments_contract) env.current_contract_address
                event_id (terms_of event) w.payments))
            λ payments _. ok-Ensures refl)
        (λ _. ok-Ensures refl)

  sync_splits-event :
      (env : Env) (event_id : Symbol) (splits : Splits) (w : World T)
      → Ensures (λ u. u.event ≡ w.event) (sync_splits env event_id splits w)
  unfolding sync_splits
  sync_splits-event env event_id splits w =
      if-Ensures (has_linked_contracts w.event && not (is_empty splits))
        (λ _. bind-Ensures (get_payments_contract w.event) λ payments_contract _.
          bind-Ensures
            (invoke (
              sync_revenue_splits (call_env env payments_contract) env.current_contract_address
                event_id splits w.payments))
            λ payments _. ok-Ensures refl)
        (λ _. ok-Ensures refl)

  pub update_event_details-Onward :
      (env : Env) (params : UpdateEventParams) (w : World T)
      → Ensures (λ r. WorldOnward w r.1) (update_event_details env params w)
  unfolding update_event_details save_event
  update_event_details-Onward env params w =
      bind-Ensures (organizer_event env params.organizer params.event_id w.event) λ event got.
        test-Ensures (not (is_upcoming event.status)) event_not_updatable λ _.
          bind-Ensures (updated_event env params event) λ event' e.
            let u = with_event w (save_event params.event_id event' w.event) in
            bind-Ensures (sync_config env params.event_id event' u) λ v e'. ok-Ensures (
              moved-Advances
                (ap (λ x. x.event) ((sync_config-event env params.event_id event' u).holds v e'))
                (saved-Advances params.event_id
                  (organizer_event-stored env params.organizer params.event_id w.event got)
                  ((updated_event-Evolves env params event).holds event' e)))

  pub create_event-Onward :
      (env : Env) (params : CreateEventParams) (w : World T)
      → Ensures (λ r. WorldOnward w r.1) (create_event env params w)
  unfolding create_event save_event set_event_privacy event_exists
  create_event-Onward env params w = bind-Ensures (require_auth env params.organizer) λ _ _.
      bind-Ensures (check_params env params) λ _ _.
        bind-Ensures (build_tiers 0 0 params.initial_tiers) λ r e.
          test-Ensures (event_exists params.event_id w.event) event_already_exists λ fresh.
            bind-Ensures (check_payout_token params.payout_token w) λ _ _.
              let event = new_event env params r.0 r.1 in
              let s =
                set_event_privacy params.event_id params.privacy_level
                  (save_event params.event_id event w.event) in
              bind-Ensures (sync_config env params.event_id event (with_event w s)) λ u e'.
                bind-Ensures (sync_splits env params.event_id params.revenue_splits u) λ v e''.
                  let same =
                    (sync_splits-event env params.event_id params.revenue_splits u).holds v e''
                    ∙ (sync_config-event env params.event_id event (with_event w s)).holds u e' in
                  let (numbered, sold, all, fits) =
                    (build_tiers-seats params.initial_tiers 0 0 (omega arith)).holds r e in
                  ok-Ensures (
                    moved-Advances (ap (λ x. x.event) same) (
                      created-Advances params.event_id (is_some-eq-false _ fresh)
                        (record {
                          numbered = numbered;
                          sold_total = sold;
                          capacity_total = omega arith;
                          bounded = omega arith;
                          fits = fits;
                          unsold = λ _. refl;
                        })
                        refl))
