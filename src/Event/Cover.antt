-- ===== src/Event/Cover.antt =====
-- What a registration charges: the money of `register_for_event` and `batch_register_for_event` of
-- contracts/event/src/lib.rs in the payments contract.
use zicket_contract.Base.{
  ltb, ◌==◌, ok, Address, Symbol, Bytes, require_auth, Env, ok-Ensures, bind-Ensures, test-Ensures,
  Ensures, ℕ, ◌≡◌, ◌||◌, Option, some,
}
use zicket_contract.Payments.Types.{Token, TokenLaws}
use zicket_contract.Payments.Escrow.{Charged}
use zicket_contract.Event.Types.{TicketTier, Event, World, invalid_input}
use zicket_contract.Event.Storage.{get_event, get_ticket_contract, get_payments_contract}
use zicket_contract.Event.Tiers.{tier_at}
use zicket_contract.Event.Registration.{
  check_registration, record_registration, times, record_batch, buy_tier, mint_seat, mint_batch,
  register_for_event, check_batch, batch_register_for_event,
}
use zicket_contract.Event.Lifecycle.{get_event-stored}
use zicket_contract.Event.Charges.{
  Charges, Linked, buy_tier-Charges, due, due-one, times-paid, registration-tier, found-tier,
  batch-tier, mint_seat-payments, mint_batch-payments, Charged-carried,
}

module _ {T : Type 0} where
  register-Charges :
      (env : Env) (token : Token T) (payments_contract asset attendee : Address) (event_id : Symbol)
      (nonce tier_id index : ℕ) (tier : TicketTier) (event : Event) (email_hash : Option Bytes)
      (w : World T)
      → Linked token payments_contract asset attendee event_id w
      → w.event.event event_id ≡ some event
      → tier_at tier_id event.tiers ≡ some (index, tier)
      → Ensures
          (Charges token payments_contract asset attendee event_id (due 1 tier.price) w)
          (register_for_event env token nonce attendee event_id tier_id email_hash w)
  unfolding register_for_event
  register-Charges env token payments_contract asset attendee event_id nonce tier_id index tier
        event email_hash w link stored at =
      bind-Ensures (require_auth env attendee) λ _ _.
        bind-Ensures (get_event event_id w.event) λ event' got.
          bind-Ensures (check_registration env attendee event_id tier_id event' w.event) λ found e.
            bind-Ensures (get_payments_contract w.event) λ _ _.
              bind-Ensures (get_ticket_contract w.event) λ _ _.
                let price = found.1.price in
                bind-Ensures (buy_tier env token nonce attendee event_id price price email_hash w)
                  λ v bought. bind-Ensures (mint_seat env event' attendee v) λ x minted.
                    bind-Ensures
                      (record_registration env attendee event_id tier_id found.0 found.1 event'
                        x.event)
                      λ s _.
                        let charged =
                          buy_tier-Charges token payments_contract asset attendee event_id env nonce
                            1 price price email_hash w link (due-one price) in
                        let found_at =
                          registration-tier env attendee event_id tier_id event' w.event in
                        ok-Ensures (
                          Charged-carried token payments_contract asset attendee event_id 1 found.1
                            tier w v x
                            (found-tier event_id tier_id index tier event event' found w.event
                              stored at (get_event-stored event_id w.event got)
                              (found_at.holds found e))
                            ((mint_seat-payments env event' attendee v).holds x minted)
                            (charged.holds v bought))

  -- If the token contract moves what it is asked to and the contracts are linked, a registration
  -- that succeeds at a stored event's tier moves exactly the price of the tier from the attendee to
  -- the payments contract, in the accepted token, and raises what the payments contract expects for
  -- the event in that token by as much; every other balance and every other expected balance stays
  -- as it was. A tier without a positive price costs nothing.
  pub register_for_event_charges :
      (env : Env) (token : Token T) (payments_contract asset attendee : Address) (event_id : Symbol)
      (nonce tier_id index : ℕ) (tier : TicketTier) (event : Event) (email_hash : Option Bytes)
      (w u : World T)
      → TokenLaws token
      → w.event.payments_contract ≡ some payments_contract
      → w.payments.accepted_token ≡ some asset
      → w.event.event event_id ≡ some event
      → tier_at tier_id event.tiers ≡ some (index, tier)
      → register_for_event env token nonce attendee event_id tier_id email_hash w ≡ ok u
      → Charged token payments_contract attendee asset event_id
          (due 1 tier.price)
          w.payments
          u.payments
  register_for_event_charges env token payments_contract asset attendee event_id nonce tier_id index
        tier event email_hash w u laws linked accepted stored at =
      (register-Charges env token payments_contract asset attendee event_id nonce tier_id index tier
          event email_hash w (record { laws = laws; linked = linked; accepted = accepted }) stored
          at).holds
        u

  batch_register-Charges :
      (env : Env) (token : Token T) (payments_contract asset attendee : Address) (event_id : Symbol)
      (nonce tier_id count index : ℕ) (tier : TicketTier) (event : Event)
      (email_hash : Option Bytes) (w : World T)
      → Linked token payments_contract asset attendee event_id w
      → w.event.event event_id ≡ some event
      → tier_at tier_id event.tiers ≡ some (index, tier)
      → Ensures
          (Charges token payments_contract asset attendee event_id (due count tier.price) w)
          (batch_register_for_event env token nonce attendee event_id tier_id count email_hash w)
  unfolding batch_register_for_event
  batch_register-Charges env token payments_contract asset attendee event_id nonce tier_id count
        index tier event email_hash w link stored at =
      bind-Ensures (require_auth env attendee) λ _ _.
        test-Ensures (count == 0 || ltb 100 count) invalid_input λ _.
          bind-Ensures (get_event event_id w.event) λ event' got.
            bind-Ensures (check_batch env attendee event_id tier_id count event' w) λ found e.
              let price = found.1.price in
              let all = times count price in
              bind-Ensures (buy_tier env token nonce attendee event_id price all email_hash w)
                λ v bought. bind-Ensures (mint_batch env event' attendee count v) λ x minted.
                  bind-Ensures
                    (record_batch env attendee event_id tier_id count found.0 found.1 event'
                      x.event)
                    λ s _.
                      let charged =
                        buy_tier-Charges token payments_contract asset attendee event_id env nonce
                          count price all email_hash w link (times-paid count price) in
                      let found_at = batch-tier env attendee event_id tier_id count event' w in
                      ok-Ensures (
                        Charged-carried token payments_contract asset attendee event_id count
                          found.1 tier w v x
                          (found-tier event_id tier_id index tier event event' found w.event stored
                            at (get_event-stored event_id w.event got) (found_at.holds found e))
                          ((mint_batch-payments env event' attendee count v).holds x minted)
                          (charged.holds v bought))

  -- If the token contract moves what it is asked to and the contracts are linked, a batch
  -- registration that succeeds at a stored event's tier moves exactly the price of the tier times
  -- the number of tickets from the attendee to the payments contract, in the accepted token, and
  -- raises what the payments contract expects for the event in that token by as much; every other
  -- balance and every other expected balance stays as it was. A tier without a positive price costs
  -- nothing.
  pub batch_register_for_event_charges :
      (env : Env) (token : Token T) (payments_contract asset attendee : Address) (event_id : Symbol)
      (nonce tier_id count index : ℕ) (tier : TicketTier) (event : Event)
      (email_hash : Option Bytes) (w u : World T)
      → TokenLaws token
      → w.event.payments_contract ≡ some payments_contract
      → w.payments.accepted_token ≡ some asset
      → w.event.event event_id ≡ some event
      → tier_at tier_id event.tiers ≡ some (index, tier)
      → batch_register_for_event env token nonce attendee event_id tier_id count email_hash w ≡ ok u
      → Charged token payments_contract attendee asset event_id
          (due count tier.price)
          w.payments
          u.payments
  batch_register_for_event_charges env token payments_contract asset attendee event_id nonce tier_id
        count index tier event email_hash w u laws linked accepted stored at =
      (batch_register-Charges env token payments_contract asset attendee event_id nonce tier_id
          count index tier event email_hash w
          (record { laws = laws; linked = linked; accepted = accepted }) stored at).holds
        u
