-- ===== src/Event/Charges.antt =====
-- What a seat costs, and what buying it does in the payments contract: the tests of
-- `register_for_event` and `batch_register_for_event` of contracts/event/src/lib.rs, and their payment.
use zicket_contract.Base.{
  leb, if◌then◌else◌, ok_or, is_some, ok_or_inv, ok, Address, Symbol, Bytes, call_env, invoke, Env,
  ok-Ensures, bind-Ensures, if-Ensures, test-Ensures, invoke_inv, Ensures, ℕ, zero, suc, ◌*◌, ◌≡◌,
  refl, sym, ap, true, false, not, Option, none, some, arith,
}
use zicket_contract.Base.Int.{◌+ℤ◌, ltb_ℤ, eqb_ℤ, ℤ, pos, negsuc}
use mathlib.Core.Path.{subst}
use zicket_contract.Payments.Types.{Token, TokenLaws}
use zicket_contract.Payments.Types
use zicket_contract.Payments.Admin.{get_accepted_token}
use zicket_contract.Payments.Resale.{pay_for_ticket}
use zicket_contract.Payments.Escrow.{Charged, Charged-nothing}
use zicket_contract.Payments.Replay.{create_payment-Charged}
use zicket_contract.Ticket.Contract.{mint_ticket, batch_mint_ticket}
use zicket_contract.Event.Types.{
  TicketTier, Event, Store, World, event_not_active, event_sold_out, already_registered,
  tier_not_found, tier_sold_out,
}
use zicket_contract.Event.Storage.{is_registered, get_ticket_contract, get_payments_contract}
use zicket_contract.Event.Tiers.{tier_at}
use zicket_contract.Event.Status.{is_active}
use zicket_contract.Event.Registration.{
  require_settleable_privacy, tier_full, check_claims, is_free, check_reservation,
  check_registration, times, check_batch_claims, check_user_limit, check_seats, pay_tier, buy_tier,
  mint_seat, mint_batch, check_batch,
}

-- What so many seats of a tier cost: a price below nothing is free.
abbrev pub due : ℕ → ℤ → ℤ
due count (pos price) = pos (count * price)
due count (negsuc _) = pos 0

times-due : (count price : ℕ) → times count (pos price) ≡ due count (pos price)
unfolding times ◌+ℤ◌
times-due zero price = ground arith
times-due (suc count) price = rw (times-due count price) (ground arith)

pub due-one : (price : ℤ) → ltb_ℤ (pos 0) price ≡ true → price ≡ due 1 price
due-one (pos price) paid = ground arith
due-one (negsuc price) paid = absurd (ground arith)

pub times-paid :
    (count : ℕ) (price : ℤ) → ltb_ℤ (pos 0) price ≡ true → times count price ≡ due count price
times-paid count (pos price) paid = times-due count price
times-paid count (negsuc price) paid = absurd (ground arith)

due-free : (count : ℕ) (price : ℤ) → ltb_ℤ (pos 0) price ≡ false → due count price ≡ pos 0
due-free count (pos zero) free = ground arith
due-free count (pos (suc price)) free = absurd (ground arith)
due-free count (negsuc price) free = refl

-- The tier that the tests of a registration find.
pub registration-tier :
    (env : Env) (attendee : Address) (event_id : Symbol) (tier_id : ℕ) (event : Event) (s : Store)
    → Ensures
        (λ found. tier_at tier_id event.tiers ≡ some found)
        (check_registration env attendee event_id tier_id event s)
unfolding check_registration
registration-tier env attendee event_id tier_id event s =
    test-Ensures (not (is_active event.status)) event_not_active λ _.
      bind-Ensures (require_settleable_privacy event_id s) λ _ _.
        bind-Ensures
          (if is_free (tier_at tier_id event.tiers)
            then check_claims env event_id attendee s
            else ok tt)
          λ _ _. test-Ensures (is_registered event_id attendee s) already_registered λ _.
            bind-Ensures (check_reservation env tier_id (s.reservation event_id attendee)) λ _ _.
              bind-Ensures (ok_or (tier_at tier_id event.tiers) tier_not_found) λ found e.
                test-Ensures (leb event.max_supply event.sold_count) event_sold_out λ _.
                  bind-Ensures
                    (if is_some (s.reservation event_id attendee)
                      then ok false
                      else tier_full found.1)
                    λ full _.
                      test-Ensures full tier_sold_out
                        λ _. ok-Ensures (ok_or_inv (tier_at tier_id event.tiers) tier_not_found e)

-- The tier that the tests found is the one that the stored event has under this id.
pub found-tier :
    (event_id : Symbol) (tier_id index : ℕ) (tier : TicketTier) (event event' : Event)
    (found : ℕ × TicketTier) (s : Store)
    → s.event event_id ≡ some event
    → tier_at tier_id event.tiers ≡ some (index, tier)
    → s.event event_id ≡ some event'
    → tier_at tier_id event'.tiers ≡ some found
    → found.1 ≡ tier
found-tier event_id tier_id index tier event event' found s stored at stored' at' =
    let same : event' ≡ event = ground arith in
    let found_at : tier_at tier_id event.tiers ≡ some found =
      subst (λ x. tier_at tier_id x.tiers ≡ some found) same at' in
    let eq : found ≡ (index, tier) = ground arith in ap (λ (x : ℕ × TicketTier). x.1) eq

module _ {T : Type 0} where
  pub batch-tier :
      (env : Env) (attendee : Address) (event_id : Symbol) (tier_id count : ℕ) (event : Event)
      (w : World T)
      → Ensures
          (λ found. tier_at tier_id event.tiers ≡ some found)
          (check_batch env attendee event_id tier_id count event w)
  unfolding check_batch
  batch-tier env attendee event_id tier_id count event w =
      test-Ensures (not (is_active event.status)) event_not_active λ _.
        bind-Ensures (require_settleable_privacy event_id w.event) λ _ _.
          bind-Ensures (ok_or (tier_at tier_id event.tiers) tier_not_found) λ found e.
            bind-Ensures (check_reservation env tier_id (w.event.reservation event_id attendee))
              λ _ _. bind-Ensures (get_ticket_contract w.event) λ _ _.
                bind-Ensures (check_user_limit attendee event_id count event w.tickets) λ _ _.
                  bind-Ensures
                    (check_seats count (is_some (w.event.reservation event_id attendee)) found.1
                      event)
                    λ _ _.
                      bind-Ensures
                        (if eqb_ℤ found.1.price (pos 0)
                          then check_batch_claims env event_id attendee count w.event
                          else ok tt)
                        λ _ _. ok-Ensures (ok_or_inv (tier_at tier_id event.tiers) tier_not_found e)

  -- The charge in the payments contract that the event contract is linked to, in its token.
  module _ (token : Token T) (payments_contract asset attendee : Address) (event_id : Symbol) where
    abbrev pub Charges : ℤ → World T → World T → Type 0
    Charges amount w u =
        Charged token payments_contract attendee asset event_id amount w.payments u.payments

    -- The two contracts that a registration is charged by, as they are linked.
    pub record Linked (w : World T) : Type 0 where
      pub laws : TokenLaws token
      pub linked : w.event.payments_contract ≡ some payments_contract
      pub accepted : w.payments.accepted_token ≡ some asset

    pay_tier-Charges :
        (env : Env) (nonce : ℕ) (amount : ℤ) (email_hash : Option Bytes) (w : World T)
        → Linked w
        → Ensures
            (Charges amount w)
            (pay_tier env token nonce payments_contract attendee event_id amount email_hash w)
    unfolding pay_tier pay_for_ticket get_accepted_token
    pay_tier-Charges env nonce amount email_hash w link =
        bind-Ensures (invoke (get_accepted_token w.payments)) λ accepted_token found.
          bind-Ensures
            (invoke (
              pay_for_ticket (call_env env payments_contract) token nonce attendee event_id amount
                email_hash accepted_token Types.standard none none w.payments))
            λ r e.
              let same : accepted_token ≡ asset = (let l = link.accepted in ground arith) in
              ok-Ensures (
                subst
                  (λ a. Charged token payments_contract attendee a event_id amount w.payments r.1)
                  same
                  (create_payment-Charged (call_env env payments_contract) token
                    (record {
                      nonce = nonce;
                      payer = attendee;
                      event_id = event_id;
                      amount = amount;
                      token_address = accepted_token;
                      is_anonymous = false;
                      is_verified = false;
                      privacy_level = Types.standard;
                      email_hash = email_hash;
                      zk_email_commitment = none;
                      nullifier_commitment = none;
                      stealth_delivery_key = none;
                    })
                    w.payments link.laws (invoke_inv _ e)))

    pub buy_tier-Charges :
        (env : Env) (nonce count : ℕ) (price amount : ℤ) (email_hash : Option Bytes) (w : World T)
        → Linked w
        → (ltb_ℤ (pos 0) price ≡ true → amount ≡ due count price)
        → Ensures
            (Charges (due count price) w)
            (buy_tier env token nonce attendee event_id price amount email_hash w)
    unfolding buy_tier get_payments_contract
    buy_tier-Charges env nonce count price amount email_hash w link right =
        bind-Ensures (get_payments_contract w.event) λ found e.
          let same : payments_contract ≡ found = (let l = link.linked in ground arith) in
          if-Ensures (ltb_ℤ (pos 0) price)
            (λ paid.
              subst
                (λ a.
                  Ensures (Charges (due count price) w)
                    (pay_tier env token nonce a attendee event_id amount email_hash w))
                same
                (subst
                  (λ x. Ensures (Charges x w) (
                    pay_tier env token nonce payments_contract attendee event_id amount email_hash
                      w))
                  (right paid) (pay_tier-Charges env nonce amount email_hash w link)))
            (λ free. ok-Ensures (
              subst (λ x. Charges x w w) (sym (due-free count price free))
                (Charged-nothing token payments_contract attendee asset event_id w.payments)))

  -- A mint leaves the payments contract alone.
  pub mint_seat-payments :
      (env : Env) (event : Event) (owner : Address) (w : World T)
      → Ensures (λ u. u.payments ≡ w.payments) (mint_seat env event owner w)
  unfolding mint_seat
  mint_seat-payments env event owner w =
      bind-Ensures (get_ticket_contract w.event) λ ticket_contract _.
        bind-Ensures
          (invoke (
            mint_ticket (call_env env ticket_contract) event.event_id event.organizer owner
              w.tickets))
          λ r _. ok-Ensures refl

  pub mint_batch-payments :
      (env : Env) (event : Event) (owner : Address) (count : ℕ) (w : World T)
      → Ensures (λ u. u.payments ≡ w.payments) (mint_batch env event owner count w)
  unfolding mint_batch
  mint_batch-payments env event owner count w =
      bind-Ensures (get_ticket_contract w.event) λ ticket_contract _.
        bind-Ensures
          (invoke (
            batch_mint_ticket (call_env env ticket_contract) event.event_id event.organizer owner
              count w.tickets))
          λ r _. ok-Ensures refl

  -- A charge in a later world with the same payments, of a tier known by another name.
  pub Charged-carried :
      (token : Token T) (payments_contract asset attendee : Address) (event_id : Symbol) (count : ℕ)
      (found tier : TicketTier) (w v x : World T)
      → found ≡ tier
      → x.payments ≡ v.payments
      → Charges token payments_contract asset attendee event_id (due count found.price) w v
      → Charges token payments_contract asset attendee event_id (due count tier.price) w x
  Charged-carried token payments_contract asset attendee event_id count found tier w v x same kept
        h =
      subst (λ y. Charges token payments_contract asset attendee event_id (due count y.price) w x)
        same
        (subst
          (λ p.
            Charged token payments_contract attendee asset event_id (due count found.price)
              w.payments p)
          (sym kept) h)
