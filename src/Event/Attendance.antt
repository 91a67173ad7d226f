-- ===== src/Event/Attendance.antt =====
-- An attendance is spent once, and never paid: `verify_and_attend` of contracts/event/src/lib.rs.
use zicket_contract.Base.{
  invoke_inv, ltb, ◌==◌, ok_or, is_some, is_ok, ok_or_inv, ok, Address, Symbol, require_auth,
  call_env, invoke, Env, ok-Ensures, bind-Ensures, if-Ensures, test-Ensures, never-is_ok, Ensures,
  ℕ, ◌≡◌, refl, sym, ap, ◌∙◌, true, false, ◌&&◌, not, none, some, arith,
}
use zicket_contract.Base.Int.{ℤ, pos, ltb_ℤ}
use zicket_contract.Payments.Types.{Token}
use zicket_contract.Payments.Types
use zicket_contract.Payments.Admin.{get_accepted_token}
use zicket_contract.Payments.Resale.{pay_for_ticket}
use zicket_contract.Payments.Identity.{PaymentParams}
use zicket_contract.Payments.Purchase.{require_not_paused, check_payment, create_payment}
use zicket_contract.Event.Types.{
  ZkPassportClaim, TicketTier, Event, Store, World, event_not_active, tier_not_found,
  zk_proof_expired, zk_nullifier_reused, zk_verification_required, zk_claim_type_mismatch,
}
use zicket_contract.Event.Storage.{
  get_event, update_event, get_payments_contract, has_linked_contracts, has_zk_nullifier,
  save_zk_nullifier, get_zk_verification_config,
}
use zicket_contract.Event.Tiers.{tier_at}
use zicket_contract.Event.Registration.{require_settleable_privacy, sell, pay_tier}
use zicket_contract.Event.Claims.{
  check_seat, type_accepted, check_attendance, record_attendance, pay_attendance, mint_attendance,
  verify_and_attend,
}
use zicket_contract.Event.Lifecycle.{get_event-stored}
use zicket_contract.Event.Status.{is_active}
use zicket_contract.Event.Once.{update_event-nullifiers}

check_attendance-unspent :
    (env : Env) (event_id : Symbol) (tier_id : ℕ) (claim : ZkPassportClaim) (event : Event)
    (s : Store)
    → has_zk_nullifier event_id claim.nullifier s ≡ true
    → Ensures (λ _. true ≡ false) (check_attendance env event_id tier_id claim event s)
unfolding check_attendance
check_attendance-unspent env event_id tier_id claim event s spent =
    let config = get_zk_verification_config event_id s in
    test-Ensures (not (is_active event.status)) event_not_active λ _.
      bind-Ensures (require_settleable_privacy event_id s) λ _ _.
        test-Ensures (not event.requires_verification) zk_verification_required λ _.
          test-Ensures (not config.enabled) zk_verification_required λ _.
            test-Ensures (ltb claim.expiry_ledger env.sequence) zk_proof_expired λ _.
              test-Ensures (not (type_accepted config.required_claim_type claim.claim_type))
                zk_claim_type_mismatch
                λ _.
                  test-Ensures (has_zk_nullifier event_id claim.nullifier s) zk_nullifier_reused
                    λ unspent. record { holds = λ _ _. sym spent ∙ unspent }

check_attendance-tier :
    (env : Env) (event_id : Symbol) (tier_id : ℕ) (claim : ZkPassportClaim) (event : Event)
    (s : Store)
    → Ensures
        (λ found. tier_at tier_id event.tiers ≡ some found)
        (check_attendance env event_id tier_id claim event s)
unfolding check_attendance
check_attendance-tier env event_id tier_id claim event s =
    let config = get_zk_verification_config event_id s in
    test-Ensures (not (is_active event.status)) event_not_active λ _.
      bind-Ensures (require_settleable_privacy event_id s) λ _ _.
        test-Ensures (not event.requires_verification) zk_verification_required λ _.
          test-Ensures (not config.enabled) zk_verification_required λ _.
            test-Ensures (ltb claim.expiry_ledger env.sequence) zk_proof_expired λ _.
              test-Ensures (not (type_accepted config.required_claim_type claim.claim_type))
                zk_claim_type_mismatch
                λ _.
                  test-Ensures (has_zk_nullifier event_id claim.nullifier s) zk_nullifier_reused
                    λ _.
                      bind-Ensures (ok_or (tier_at tier_id event.tiers) tier_not_found) λ found e.
                        bind-Ensures (check_seat found.1 event) λ _ _. ok-Ensures (ok_or_inv _ _ e)

record_attendance-spends :
    (env : Env) (event_id : Symbol) (tier_id : ℕ) (claim : ZkPassportClaim) (index : ℕ)
    (tier : TicketTier) (event : Event) (s : Store)
    → Ensures
        (λ t. has_zk_nullifier event_id claim.nullifier t ≡ true)
        (record_attendance env event_id tier_id claim index tier event s)
unfolding record_attendance save_zk_nullifier has_zk_nullifier
record_attendance-spends env event_id tier_id claim index tier event s =
    bind-Ensures (sell 1 false index tier event) λ r _.
      let u = save_zk_nullifier event_id claim.nullifier s in
      bind-Ensures (update_event event_id r.1 u) λ t saved. ok-Ensures (
        ap (λ f. is_some (f event_id claim.nullifier))
          (update_event-nullifiers event_id r.1 u saved).1
        ∙ ground arith)

-- What the event contract asks of `pay_for_ticket` for an attendance.
abbrev zero_params : Address → Symbol → ℤ → Address → PaymentParams
zero_params payer event_id amount token_address = record {
  nonce = 0;
  payer = payer;
  event_id = event_id;
  amount = amount;
  token_address = token_address;
  is_anonymous = false;
  is_verified = false;
  privacy_level = Types.standard;
  email_hash = none;
  zk_email_commitment = none;
  nullifier_commitment = none;
  stealth_delivery_key = none;
}

module _ {T : Type 0} where
  -- A nullifier that is on record is refused.
  spent_nullifier-refused :
      (env : Env) (token : Token T) (event_id : Symbol) (tier_id : ℕ) (claim : ZkPassportClaim)
      (w : World T)
      → has_zk_nullifier event_id claim.nullifier w.event ≡ true
      → Ensures (λ _. true ≡ false) (verify_and_attend env token event_id tier_id claim w)
  unfolding verify_and_attend check_attendance
  spent_nullifier-refused env token event_id tier_id claim w spent =
      bind-Ensures (get_event event_id w.event) λ event _.
        bind-Ensures (check_attendance env event_id tier_id claim event w.event) λ found e. record {
          holds = λ _ _.
              (check_attendance-unspent env event_id tier_id claim event w.event spent).holds found
                e;
        }

  verify_and_attend-spends :
      (env : Env) (token : Token T) (event_id : Symbol) (tier_id : ℕ) (claim : ZkPassportClaim)
      (w : World T)
      → Ensures
          (λ u. has_zk_nullifier event_id claim.nullifier u.event ≡ true)
          (verify_and_attend env token event_id tier_id claim w)
  unfolding verify_and_attend record_attendance save_zk_nullifier has_zk_nullifier
  verify_and_attend-spends env token event_id tier_id claim w =
      bind-Ensures (get_event event_id w.event) λ event _.
        bind-Ensures (check_attendance env event_id tier_id claim event w.event) λ found _.
          bind-Ensures (pay_attendance env token event_id found.1.price w) λ u _.
            bind-Ensures (mint_attendance env event u) λ v _.
              bind-Ensures
                (record_attendance env event_id tier_id claim found.0 found.1 event v.event)
                λ s recorded. ok-Ensures (
                  (record_attendance-spends env event_id tier_id claim found.0 found.1 event
                      v.event).holds
                    s recorded)

  -- After a verified attendance has succeeded, every attendance at the event with the same
  -- nullifier is refused, whatever its tier, claim type and proof.
  pub verify_and_attend_once :
      (env env' : Env) (token : Token T) (event_id : Symbol) (tier_id tier_id' : ℕ)
      (claim claim' : ZkPassportClaim) (w w' : World T)
      → verify_and_attend env token event_id tier_id claim w ≡ ok w'
      → claim'.nullifier ≡ claim.nullifier
      → is_ok (verify_and_attend env' token event_id tier_id' claim' w') ≡ false
  verify_and_attend_once env env' token event_id tier_id tier_id' claim claim' w w' done same =
      never-is_ok _ (
        spent_nullifier-refused env' token event_id tier_id' claim' w' (
          ap (λ n. has_zk_nullifier event_id n w'.event) same
          ∙ (verify_and_attend-spends env token event_id tier_id claim w).holds w' done))

  no_nonce-refused :
      (env : Env) (params : PaymentParams) (s : Types.Store T)
      → params.nonce ≡ 0
      → Ensures (λ _. true ≡ false) (check_payment env params s)
  unfolding check_payment
  no_nonce-refused env params s none_given = bind-Ensures (require_auth env params.payer) λ _ _.
      bind-Ensures (require_not_paused s) λ _ _.
        test-Ensures (params.nonce == 0) Types.nonce_required
          λ given. record { holds = λ _ _. ground arith }

  -- A payment with the nonce 0 is refused.
  zero_nonce-refused :
      (env : Env) (token : Token T) (params : PaymentParams) (s : Types.Store T)
      → params.nonce ≡ 0
      → Ensures (λ _. true ≡ false) (create_payment env token params s)
  unfolding create_payment
  zero_nonce-refused env token params s none_given =
      bind-Ensures (check_payment env params s)
        λ _ e. record { holds = λ _ _. (no_nonce-refused env params s none_given).holds _ e }

  unpaid-refused :
      (env : Env) (token : Token T) (payments_contract payer : Address) (event_id : Symbol)
      (amount : ℤ) (w : World T)
      → Ensures
          (λ _. true ≡ false)
          (pay_tier env token 0 payments_contract payer event_id amount none w)
  unfolding pay_tier pay_for_ticket
  unpaid-refused env token payments_contract payer event_id amount w =
      bind-Ensures (invoke (get_accepted_token w.payments)) λ accepted_token _.
        bind-Ensures
          (invoke (
            pay_for_ticket (call_env env payments_contract) token 0 payer event_id amount none
              accepted_token Types.standard none none w.payments))
          λ r e. record {
            holds = λ _ _.
                (zero_nonce-refused (call_env env payments_contract) token
                    (zero_params payer event_id amount accepted_token) w.payments refl).holds
                  r (invoke_inv _ e);
          }

  pay_attendance-refused :
      (env : Env) (token : Token T) (event_id : Symbol) (price : ℤ) (w : World T)
      → ltb_ℤ (pos 0) price ≡ true
      → has_linked_contracts w.event ≡ true
      → Ensures (λ _. true ≡ false) (pay_attendance env token event_id price w)
  unfolding pay_attendance
  pay_attendance-refused env token event_id price w paid linked =
      if-Ensures (ltb_ℤ (pos 0) price && has_linked_contracts w.event)
        (λ _. bind-Ensures (get_payments_contract w.event) λ payments_contract _.
          unpaid-refused env token payments_contract env.current_contract_address event_id price w)
        (λ e. record { holds = λ _ _. ground arith })

  -- While the other two contracts are linked, a verified attendance at a stored event's tier that
  -- has a price never succeeds.
  pub verify_and_attend_paid :
      (env : Env) (token : Token T) (event_id : Symbol) (tier_id : ℕ) (claim : ZkPassportClaim)
      (w : World T) (event : Event) (found : ℕ × TicketTier)
      → w.event.event event_id ≡ some event
      → tier_at tier_id event.tiers ≡ some found
      → ltb_ℤ (pos 0) found.1.price ≡ true
      → has_linked_contracts w.event ≡ true
      → is_ok (verify_and_attend env token event_id tier_id claim w) ≡ false
  unfolding verify_and_attend
  verify_and_attend_paid env token event_id tier_id claim w event found stored is_tier paid linked =
      never-is_ok _ (
        bind-Ensures (get_event event_id w.event) λ event' got.
          bind-Ensures (check_attendance env event_id tier_id claim event' w.event) λ found' e.
            let same : event ≡ event' =
              (let stored' = get_event-stored event_id w.event got in ground arith) in
            let tier =
              (check_attendance-tier env event_id tier_id claim event' w.event).holds found' e in
            let this : found ≡ found' =
              (let t = ap (λ x. tier_at tier_id x.tiers) same in ground arith) in
            bind-Ensures (pay_attendance env token event_id found'.1.price w) λ u e'. record {
              holds = λ _ _.
                  (pay_attendance-refused env token event_id found'.1.price w
                      (ap (λ x. ltb_ℤ (pos 0) x.1.price) (sym this) ∙ paid) linked).holds
                    u e';
            })
