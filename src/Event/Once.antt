-- ===== src/Event/Once.antt =====
-- Claims are spent once, and the verifier is configured once: `claim_anonymous_ticket` and
-- `set_anonymous_claim_verifier` of contracts/event/src/lib.rs.
use zicket_contract.Base.{
  ◌==◌, if◌then◌else◌, is_ok, ok, err, Address, Symbol, Bytes, require_auth, Env, ok-Ensures,
  bind-Ensures, if-Ensures, test-Ensures, never-is_ok, Ensures, ℕ, ◌≡◌, refl, ap, ◌∙◌, true, false,
  not, Option, none, some, arith,
}
use zicket_contract.Event.Types.{
  AnonymousTicketClaim, Event, Store, unauthorized, anonymous_nullifier_reused,
  anonymous_claim_verifier_already_configured,
}
use zicket_contract.Event.Storage.{
  get_event, save_event, update_event, get_admin, get_anonymous_claim_verifier,
  get_anonymous_ticket_commitment, save_anonymous_ticket_commitment,
}
use zicket_contract.Event.Registration.{sell}
use zicket_contract.Event.PublicInputs.{Codec}
use zicket_contract.Event.Claims.{
  set_anonymous_claim_verifier, check_anonymous, count_window, verify_claim, new_anonymous_claim,
  repeated_claim, claim_anonymous_ticket,
}
use zicket_contract.Event.Lifecycle.{get_event-stored}
use zicket_contract.Event.ClaimSales.{claim_anonymous_ticket-Onward}

pub update_event-nullifiers :
    (event_id : Symbol) (event : Event) (s : Store) {t : Store}
    → update_event event_id event s ≡ ok t
    → (t.anonymous_nullifier ≡ s.anonymous_nullifier) × (t.zk_nullifier ≡ s.zk_nullifier)
unfolding update_event save_event
update_event-nullifiers event_id event s e = (ground arith, ground arith)

-- The commitment of a claim is on record under its nullifier.
abbrev Spent : Symbol → AnonymousTicketClaim → Store → Type 0
Spent event_id claim t =
    t.anonymous_nullifier event_id claim.nullifier ≡ some claim.ticket_commitment

new_anonymous_claim-Spent :
    (env : Env) (codec : Codec) (event_id : Symbol) (tier_id : ℕ) (claim : AnonymousTicketClaim)
    (event : Event) (s : Store)
    → Ensures (Spent event_id claim) (new_anonymous_claim env codec event_id tier_id claim event s)
unfolding new_anonymous_claim save_anonymous_ticket_commitment
new_anonymous_claim-Spent env codec event_id tier_id claim event s =
    bind-Ensures (check_anonymous env tier_id claim event) λ found _.
      bind-Ensures (count_window env event_id s) λ t _.
        bind-Ensures (verify_claim env codec event_id tier_id claim t) λ _ _.
          bind-Ensures (sell 1 false found.0 found.1 event) λ r _.
            let u =
              save_anonymous_ticket_commitment event_id claim.nullifier claim.ticket_commitment t in
            bind-Ensures (update_event event_id r.1 u) λ v saved. ok-Ensures (
              ap (λ f. f event_id claim.nullifier) (update_event-nullifiers event_id r.1 u saved).0
              ∙ ground arith)

claimed-Spent :
    (env : Env) (codec : Codec) (event_id : Symbol) (tier_id : ℕ) (claim : AnonymousTicketClaim)
    (event : Event) (s : Store) (known : Option Bytes)
    → s.anonymous_nullifier event_id claim.nullifier ≡ known
    → Ensures (Spent event_id claim) (elim known [
      | some commitment ↦ repeated_claim commitment claim.ticket_commitment s
      | none ↦ new_anonymous_claim env codec event_id tier_id claim event s
    ])
unfolding repeated_claim
claimed-Spent env codec event_id tier_id claim event s none e =
    new_anonymous_claim-Spent env codec event_id tier_id claim event s
claimed-Spent env codec event_id tier_id claim event s (some commitment) e =
    if-Ensures (commitment == claim.ticket_commitment) (λ same. ok-Ensures (ground arith))
      (λ _. record { holds = λ t e'. absurd (ground arith) })

claim_anonymous_ticket-Spent :
    (env : Env) (codec : Codec) (event_id : Symbol) (tier_id : ℕ) (claim : AnonymousTicketClaim)
    (s : Store)
    → Ensures (Spent event_id claim) (claim_anonymous_ticket env codec event_id tier_id claim s)
unfolding claim_anonymous_ticket get_anonymous_ticket_commitment
claim_anonymous_ticket-Spent env codec event_id tier_id claim s =
    bind-Ensures (get_event event_id s)
      λ event _. claimed-Spent env codec event_id tier_id claim event s _ refl

claim_anonymous_ticket-event :
    (env : Env) (codec : Codec) (event_id : Symbol) (tier_id : ℕ) (claim : AnonymousTicketClaim)
    (s : Store)
    → Ensures
        (λ _. (event : Event) × (s.event event_id ≡ some event))
        (claim_anonymous_ticket env codec event_id tier_id claim s)
unfolding claim_anonymous_ticket
claim_anonymous_ticket-event env codec event_id tier_id claim s =
    bind-Ensures (get_event event_id s)
      λ event got. record { holds = λ _ _. (event, get_event-stored event_id s got) }

-- A claim whose nullifier is on record, of an event that is stored.
repeated :
    (env : Env) (codec : Codec) (event_id : Symbol) (tier_id : ℕ) (claim : AnonymousTicketClaim)
    (s : Store) (event : Event) (commitment : Bytes)
    → s.event event_id ≡ some event
    → s.anonymous_nullifier event_id claim.nullifier ≡ some commitment
    → claim_anonymous_ticket env codec event_id tier_id claim s
      ≡ (if commitment == claim.ticket_commitment then ok s else err anonymous_nullifier_reused)
unfolding claim_anonymous_ticket get_event get_anonymous_ticket_commitment repeated_claim
repeated env codec event_id tier_id claim s event commitment got known = rw (got, known) refl

-- After an anonymous claim has succeeded, every claim at the event with its nullifier, by any host,
-- verifier, tier, expiry and proof, changes nothing: it is accepted again for the same ticket
-- commitment and refused for another.
pub claim_anonymous_ticket_again :
    (env env' : Env) (codec codec' : Codec) (event_id : Symbol) (tier_id tier_id' : ℕ)
    (claim claim' : AnonymousTicketClaim) (s s' : Store)
    → claim_anonymous_ticket env codec event_id tier_id claim s ≡ ok s'
    → claim'.nullifier ≡ claim.nullifier
    → claim_anonymous_ticket env' codec' event_id tier_id' claim' s' ≡ (
        if claim.ticket_commitment == claim'.ticket_commitment
        then ok s'
        else err anonymous_nullifier_reused)
claim_anonymous_ticket_again env env' codec codec' event_id tier_id tier_id' claim claim' s s' done
      same =
    let (event, stored) =
      (claim_anonymous_ticket-event env codec event_id tier_id claim s).holds s' done in
    let onward = (claim_anonymous_ticket-Onward env codec event_id tier_id claim s).holds s' done in
    let (new, now, _) = onward.kept event_id event stored in
    let spent = (claim_anonymous_ticket-Spent env codec event_id tier_id claim s).holds s' done in
    repeated env' codec' event_id tier_id' claim' s' new claim.ticket_commitment now
      (ap (s'.anonymous_nullifier event_id) same ∙ spent)

configured_verifier-refused :
    (env : Env) (admin verifier old : Address) (s : Store)
    → s.anonymous_claim_verifier ≡ some old
    → Ensures (λ _. true ≡ false) (set_anonymous_claim_verifier env admin verifier s)
unfolding set_anonymous_claim_verifier get_anonymous_claim_verifier
configured_verifier-refused env admin verifier old s configured =
    bind-Ensures (require_auth env admin) λ _ _. bind-Ensures (get_admin s) λ stored_admin _.
      test-Ensures (not (stored_admin == admin)) unauthorized λ _.
        test-Ensures (is_ok (get_anonymous_claim_verifier s))
          anonymous_claim_verifier_already_configured λ e. record { holds = λ _ _. ground arith }

set_anonymous_claim_verifier-sets :
    (env : Env) (admin verifier : Address) (s : Store)
    → Ensures
        (λ t. t.anonymous_claim_verifier ≡ some verifier)
        (set_anonymous_claim_verifier env admin verifier s)
unfolding set_anonymous_claim_verifier
set_anonymous_claim_verifier-sets env admin verifier s =
    bind-Ensures (require_auth env admin) λ _ _. bind-Ensures (get_admin s) λ stored_admin _.
      test-Ensures (not (stored_admin == admin)) unauthorized λ _.
        test-Ensures (is_ok (get_anonymous_claim_verifier s))
          anonymous_claim_verifier_already_configured λ _. ok-Ensures refl

-- After the verifier of anonymous claims has been configured, it is the one that was given, and
-- every further configuration is refused, whoever asks.
pub set_anonymous_claim_verifier_once :
    (env env' : Env) (admin admin' verifier verifier' : Address) (s s' : Store)
    → set_anonymous_claim_verifier env admin verifier s ≡ ok s'
    → (get_anonymous_claim_verifier s' ≡ ok verifier)
      × (is_ok (set_anonymous_claim_verifier env' admin' verifier' s') ≡ false)
unfolding get_anonymous_claim_verifier
set_anonymous_claim_verifier_once env env' admin admin' verifier verifier' s s' done =
    let set = (set_anonymous_claim_verifier-sets env admin verifier s).holds s' done in
    (rw set refl, never-is_ok _ (configured_verifier-refused env' admin' verifier' verifier s' set))
