-- ===== src/Event/ClaimSales.antt =====
-- What anonymous claims and attendances make of the stored events.
use zicket_contract.Base.{
  ltb, leb, ◌==◌, ok_or, saturating_add, ok_or_inv, Symbol, Bytes, Env, ok-Ensures, bind-Ensures,
  if-Ensures, test-Ensures, Ensures, ℕ, ◌+◌, ◌≤◌, ◌≡◌, ap, ◌∙◌, false, not, Option, none, some,
  arith,
}
use zicket_contract.Base.Int.{pos, eqb_ℤ}
use zicket_contract.Event.Types.{
  ZkPassportClaim, AnonymousTicketClaim, TicketTier, Event, Store, invalid_input, event_not_active,
  event_sold_out, tier_not_found, anonymous_claims_not_enabled, zk_proof_expired,
  zk_nullifier_reused, zk_verification_required, zk_claim_type_mismatch, anonymous_proof_expired,
  anonymous_proof_expiry_too_far,
}
use zicket_contract.Event.Storage.{
  get_event, update_event, get_anonymous_ticket_commitment, save_anonymous_ticket_commitment,
  set_anon_window_state, has_zk_nullifier, save_zk_nullifier, get_zk_verification_config,
}
use zicket_contract.Event.Tiers.{tier_at, tier_at-At}
use zicket_contract.Event.Evolution.{Advances-refl}
use zicket_contract.Event.Status.{is_active}
use zicket_contract.Event.Registration.{require_settleable_privacy, sell}
use zicket_contract.Event.PublicInputs.{Codec}
use zicket_contract.Event.Claims.{
  max_anonymous_proof_ttl, check_seat, check_anonymous, count_window, verify_claim,
  new_anonymous_claim, repeated_claim, claim_anonymous_ticket, type_accepted, check_attendance,
  record_attendance,
}
use zicket_contract.Event.Lifecycle.{Onward, get_event-stored}
use zicket_contract.Event.Schedule.{is_active-status}
use zicket_contract.Event.Sales.{Sellable, sold-Onward, onward_from}

count_window-event :
    (env : Env) (event_id : Symbol) (s : Store)
    → Ensures (λ t. t.event ≡ s.event) (count_window env event_id s)
unfolding count_window set_anon_window_state
count_window-event env event_id s = record { holds = λ t e. ground arith }

check_seat-within :
    (tier : TicketTier) (event : Event)
    → Ensures (λ _. event.sold_count + 1 ≤ event.max_supply) (check_seat tier event)
unfolding check_seat
check_seat-within tier event =
    test-Ensures (leb event.max_supply event.sold_count) event_sold_out
      λ left. record { holds = λ _ _. ground arith }

check_anonymous-Sellable :
    (env : Env) (tier_id : ℕ) (claim : AnonymousTicketClaim) (event : Event)
    → Ensures (Sellable 1 event) (check_anonymous env tier_id claim event)
unfolding check_anonymous
check_anonymous-Sellable env tier_id claim event =
    test-Ensures (not (is_active event.status)) event_not_active λ was.
      test-Ensures (not event.allow_anonymous) anonymous_claims_not_enabled λ _.
        test-Ensures (ltb claim.expiry_ledger env.sequence) anonymous_proof_expired λ _.
          test-Ensures
            (ltb (saturating_add env.sequence max_anonymous_proof_ttl) claim.expiry_ledger)
            anonymous_proof_expiry_too_far
            λ _. bind-Ensures (ok_or (tier_at tier_id event.tiers) tier_not_found) λ found e.
              test-Ensures (not (eqb_ℤ found.1.price (pos 0))) invalid_input λ _.
                bind-Ensures (check_seat found.1 event) λ _ e'. ok-Ensures (record {
                  stands = (tier_at-At tier_id event.tiers found.0 found.1 (ok_or_inv _ _ e)).0;
                  is_open = is_active-status event.status was;
                  within = (check_seat-within found.1 event).holds _ e';
                })

new_anonymous_claim-Onward :
    (env : Env) (codec : Codec) (event_id : Symbol) (tier_id : ℕ) (claim : AnonymousTicketClaim)
    (event : Event) (s : Store)
    → s.event event_id ≡ some event
    → Ensures (Onward s) (new_anonymous_claim env codec event_id tier_id claim event s)
unfolding new_anonymous_claim save_anonymous_ticket_commitment
new_anonymous_claim-Onward env codec event_id tier_id claim event s got =
    bind-Ensures (check_anonymous env tier_id claim event) λ found e.
      bind-Ensures (count_window env event_id s) λ t e'.
        bind-Ensures (verify_claim env codec event_id tier_id claim t) λ _ _.
          bind-Ensures (sell 1 false found.0 found.1 event) λ r sold.
            let u =
              save_anonymous_ticket_commitment event_id claim.nullifier claim.ticket_commitment t in
            bind-Ensures (update_event event_id r.1 u) λ v saved.
              let same = (count_window-event env event_id s).holds t e' in
              ok-Ensures (
                onward_from same (
                  sold-Onward 1 false found event_id event u (ap (λ f. f event_id) same ∙ got)
                    ((check_anonymous-Sellable env tier_id claim event).holds found e) sold saved))

-- With what is known of the nullifier.
claimed-Onward :
    (env : Env) (codec : Codec) (event_id : Symbol) (tier_id : ℕ) (claim : AnonymousTicketClaim)
    (event : Event) (s : Store)
    → s.event event_id ≡ some event
    → (known : Option Bytes)
    → Ensures (Onward s) (elim known [
      | some commitment ↦ repeated_claim commitment claim.ticket_commitment s
      | none ↦ new_anonymous_claim env codec event_id tier_id claim event s
    ])
unfolding repeated_claim
claimed-Onward env codec event_id tier_id claim event s got none =
    new_anonymous_claim-Onward env codec event_id tier_id claim event s got
claimed-Onward env codec event_id tier_id claim event s got (some commitment) =
    if-Ensures (commitment == claim.ticket_commitment) (λ _. ok-Ensures (Advances-refl s.event))
      (λ _. record { holds = λ t e. absurd (ground arith) })

pub claim_anonymous_ticket-Onward :
    (env : Env) (codec : Codec) (event_id : Symbol) (tier_id : ℕ) (claim : AnonymousTicketClaim)
    (s : Store)
    → Ensures (Onward s) (claim_anonymous_ticket env codec event_id tier_id claim s)
unfolding claim_anonymous_ticket
claim_anonymous_ticket-Onward env codec event_id tier_id claim s =
    bind-Ensures (get_event event_id s) λ event got.
      claimed-Onward env codec event_id tier_id claim event s (get_event-stored event_id s got)
        (get_anonymous_ticket_commitment event_id claim.nullifier s)

pub check_attendance-Sellable :
    (env : Env) (event_id : Symbol) (tier_id : ℕ) (claim : ZkPassportClaim) (event : Event)
    (s : Store)
    → Ensures (Sellable 1 event) (check_attendance env event_id tier_id claim event s)
unfolding check_attendance
check_attendance-Sellable env event_id tier_id claim event s =
    let config = get_zk_verification_config event_id s in
    test-Ensures (not (is_active event.status)) event_not_active λ was.
      bind-Ensures (require_settleable_privacy event_id s) λ _ _.
        test-Ensures (not event.requires_verification) zk_verification_required λ _.
          test-Ensures (not config.enabled) zk_verification_required λ _.
            test-Ensures (ltb claim.expiry_ledger env.sequence) zk_proof_expired λ _.
              test-Ensures (not (type_accepted config.required_claim_type claim.claim_type))
                zk_claim_type_mismatch
                λ _.
                  test-Ensures (has_zk_nullifier event_id claim.nullifier s) zk_nullifier_reused
                    λ _.
                      bind-Ensures (ok_or (tier_at tier_id event.tiers) tier_not_found) λ found e.
                        bind-Ensures (check_seat found.1 event) λ _ e'. ok-Ensures (record {
                          stands =
                              (tier_at-At tier_id event.tiers found.0 found.1 (ok_or_inv _ _ e)).0;
                          is_open = is_active-status event.status was;
                          within = (check_seat-within found.1 event).holds _ e';
                        })

pub record_attendance-Onward :
    (env : Env) (event_id : Symbol) (tier_id : ℕ) (claim : ZkPassportClaim) (found : ℕ × TicketTier)
    (event : Event) (s : Store)
    → s.event event_id ≡ some event
    → Sellable 1 event found
    → Ensures (Onward s) (record_attendance env event_id tier_id claim found.0 found.1 event s)
unfolding record_attendance save_zk_nullifier
record_attendance-Onward env event_id tier_id claim found event s got sellable =
    bind-Ensures (sell 1 false found.0 found.1 event) λ r sold.
      let u = save_zk_nullifier event_id claim.nullifier s in
      bind-Ensures (update_event event_id r.1 u)
        λ t saved. ok-Ensures (sold-Onward 1 false found event_id event u got sellable sold saved)
