-- ===== src/Event/Claims.antt =====
-- `claim_anonymous_ticket` and `verify_and_attend` of contracts/event/src/lib.rs, with the settings
-- of both.
use zicket_contract.Base.{
  ltb, leb, ◌==◌, if◌then◌else◌, ◌>>=◌, ◌>>◌, err_if, ok_or, add_u32, saturating_add, is_ok, ok,
  err, Address, Symbol, Bytes, update, require_auth, Env, ℕ, ◌/◌, Bool, true, false, ◌&&◌, not,
  Option, none, some,
}
use zicket_contract.Base.Int.{ℤ, pos, ltb_ℤ, eqb_ℤ}
use zicket_contract.Payments.Types.{Token}
use zicket_contract.Event.Types.{
  ZkClaimType, ZkPassportClaim, AnonymousTicketClaim, ZkVerificationConfig, TicketTier, Event,
  AnonWindowState, Store, World, any, age, location, citizenship, unauthorized, invalid_input,
  event_not_active, event_sold_out, tier_not_found, tier_sold_out, anon_claim_window_full,
  anonymous_claims_not_enabled, zk_proof_expired, zk_nullifier_reused, zk_verification_required,
  zk_claim_type_mismatch, anonymous_proof_expired, anonymous_proof_invalid,
  anonymous_nullifier_reused, anonymous_claim_verifier_already_configured,
  anonymous_proof_expiry_too_far, anon_event_registration, zk_verified_attendance,
}
use zicket_contract.Event.Storage.{
  Call, publish, get_event, update_event, get_admin, get_payments_contract, has_linked_contracts,
  get_anonymous_claim_verifier, get_anonymous_ticket_commitment, save_anonymous_ticket_commitment,
  get_anon_claim_settings, get_anon_window_state, set_anon_window_state, has_zk_nullifier,
  save_zk_nullifier, get_zk_verification_config,
}
use zicket_contract.Event.Tiers.{tier_at}
use zicket_contract.Event.Create.{organizer_event, with_event}
use zicket_contract.Event.Status.{is_active}
use zicket_contract.Event.Registration.{
  require_settleable_privacy, tier_full, sell, pay_tier, mint_seat,
}
use zicket_contract.Event.PublicInputs.{Codec, anonymous_claim_public_inputs}

-- `MAX_ANONYMOUS_PROOF_TTL_LEDGERS`
abbrev pub max_anonymous_proof_ttl : ℕ
max_anonymous_proof_ttl = 17280

unfoldable pub set_anonymous_claim_verifier : Env → Address → Address → Store → Call Store
unfolding get_admin get_anonymous_claim_verifier
set_anonymous_claim_verifier env admin verifier s = do
  require_auth env admin
  stored_admin ← get_admin s
  err_if (not (stored_admin == admin)) unauthorized
  err_if (is_ok (get_anonymous_claim_verifier s)) anonymous_claim_verifier_already_configured
  ok (record s { anonymous_claim_verifier = some verifier })

unfoldable pub set_claim_settings : Env → Address → Symbol → ℕ → ℕ → Store → Call Store
unfolding organizer_event
set_claim_settings env organizer event_id max_free_claims cooldown_secs s = do
  _ ← organizer_event env organizer event_id s
  ok (record s {
    event_claim_settings =
        update s.event_claim_settings event_id
          (some (record { max_free_claims = max_free_claims; cooldown_secs = cooldown_secs }));
  })

unfoldable pub set_anon_claim_settings : Env → Address → Symbol → ℕ → ℕ → Store → Call Store
unfolding organizer_event
set_anon_claim_settings env organizer event_id max_anon_claims_per_window anon_window_size s = do
  _ ← organizer_event env organizer event_id s
  ok (record s {
    event_anon_settings = update s.event_anon_settings event_id (
        some (record {
          max_anon_claims_per_window = max_anon_claims_per_window;
          anon_window_size = anon_window_size;
        }));
  })

unfoldable pub set_zk_config : Env → Address → Symbol → ZkVerificationConfig → Store → Call Store
unfolding organizer_event
set_zk_config env organizer event_id config s = do
  _ ← organizer_event env organizer event_id s
  ok (record s { zk_verification_config = update s.zk_verification_config event_id (some config) })

-- What both kinds of claim test of the seats.
unfoldable pub check_seat : TicketTier → Event → Call (Unit {0})
check_seat tier event = do
  err_if (leb event.max_supply event.sold_count) event_sold_out
  full ← tier_full tier
  err_if full tier_sold_out

-- The tests of an anonymous claim up to its window, which give the index and the tier.
unfoldable pub check_anonymous : Env → ℕ → AnonymousTicketClaim → Event → Call (ℕ × TicketTier)
unfolding tier_at check_seat
check_anonymous env tier_id claim event = do
  err_if (not (is_active event.status)) event_not_active
  err_if (not event.allow_anonymous) anonymous_claims_not_enabled
  err_if (ltb claim.expiry_ledger env.sequence) anonymous_proof_expired
  err_if (ltb (saturating_add env.sequence max_anonymous_proof_ttl) claim.expiry_ledger)
      anonymous_proof_expiry_too_far
  found ← ok_or (tier_at tier_id event.tiers) tier_not_found
  err_if (not (eqb_ℤ found.1.price (pos 0))) invalid_input
  check_seat found.1 event
  ok found

-- The state of the window that the ledger is in.
abbrev pub current_state : ℕ → AnonWindowState → AnonWindowState
current_state window state =
    if state.window_index == window then state else record { window_index = window; count = 0 }

unfoldable pub count_window : Env → Symbol → Store → Call Store
unfolding get_anon_claim_settings get_anon_window_state set_anon_window_state
count_window env event_id s =
    let settings = get_anon_claim_settings event_id s in
    let window = env.sequence / settings.anon_window_size in
    let state = current_state window (get_anon_window_state event_id s) in
    if ltb 0 settings.max_anon_claims_per_window && ltb 0 settings.anon_window_size
    then (err_if (leb settings.max_anon_claims_per_window state.count) anon_claim_window_full
        >> add_u32 state.count 1
        >>= λ count. ok (set_anon_window_state event_id (record state { count = count }) s))
    else ok s

-- Whether the call of the verifier returned `Ok(Ok(true))`.
abbrev pub accepted : Option Bool → Bool
accepted none = false
accepted (some answer) = answer

unfoldable pub verify_claim :
    Env → Codec → Symbol → ℕ → AnonymousTicketClaim → Store → Call (Unit {0})
unfolding get_anonymous_claim_verifier anonymous_claim_public_inputs
verify_claim env codec event_id tier_id claim s = do
  verifier ← get_anonymous_claim_verifier s
  let public_inputs = anonymous_claim_public_inputs env codec event_id tier_id claim
  err_if (not (accepted (codec.verify verifier claim.proof public_inputs))) anonymous_proof_invalid

-- A claim with a nullifier that is not spent.
unfoldable pub new_anonymous_claim :
    Env → Codec → Symbol → ℕ → AnonymousTicketClaim → Event → Store → Call Store
unfolding check_anonymous count_window verify_claim save_anonymous_ticket_commitment sell
    update_event
new_anonymous_claim env codec event_id tier_id claim event s = do
  found ← check_anonymous env tier_id claim event
  t ← count_window env event_id s
  verify_claim env codec event_id tier_id claim t
  let u = save_anonymous_ticket_commitment event_id claim.nullifier claim.ticket_commitment t
  r ← sell 1 false found.0 found.1 event
  v ← update_event event_id r.1 u
  ok (publish (anon_event_registration event_id tier_id r.0.sold env.timestamp) v)

-- A claim that was made already is accepted again for the same commitment.
unfoldable pub repeated_claim : Bytes → Bytes → Store → Call Store
repeated_claim commitment claimed s =
    if commitment == claimed then ok s else err anonymous_nullifier_reused

unfoldable pub claim_anonymous_ticket :
    Env → Codec → Symbol → ℕ → AnonymousTicketClaim → Store → Call Store
unfolding get_event get_anonymous_ticket_commitment repeated_claim new_anonymous_claim
claim_anonymous_ticket env codec event_id tier_id claim s = do
  event ← get_event event_id s
  elim (get_anonymous_ticket_commitment event_id claim.nullifier s) [
    | some commitment ↦ repeated_claim commitment claim.ticket_commitment s
    | none ↦ new_anonymous_claim env codec event_id tier_id claim event s
  ]

-- `claim_type` against the required one, of which `any` takes every type.
unfoldable pub type_accepted : ZkClaimType → ZkClaimType → Bool
type_accepted any _ = true
type_accepted age age = true
type_accepted location location = true
type_accepted citizenship citizenship = true
type_accepted _ _ = false

unfoldable pub check_attendance :
    Env → Symbol → ℕ → ZkPassportClaim → Event → Store → Call (ℕ × TicketTier)
unfolding require_settleable_privacy get_zk_verification_config type_accepted has_zk_nullifier
    tier_at check_seat
check_attendance env event_id tier_id claim event s = do
  err_if (not (is_active event.status)) event_not_active
  require_settleable_privacy event_id s
  err_if (not event.requires_verification) zk_verification_required
  let config = get_zk_verification_config event_id s
  err_if (not config.enabled) zk_verification_required
  err_if (ltb claim.expiry_ledger env.sequence) zk_proof_expired
  err_if (not (type_accepted config.required_claim_type claim.claim_type)) zk_claim_type_mismatch
  err_if (has_zk_nullifier event_id claim.nullifier s) zk_nullifier_reused
  found ← ok_or (tier_at tier_id event.tiers) tier_not_found
  check_seat found.1 event
  ok found

unfoldable pub record_attendance :
    Env → Symbol → ℕ → ZkPassportClaim → ℕ → TicketTier → Event → Store → Call Store
unfolding save_zk_nullifier sell update_event
record_attendance env event_id tier_id claim index tier event s = do
  r ← sell 1 false index tier event
  t ← update_event event_id r.1 (save_zk_nullifier event_id claim.nullifier s)
  ok (publish (zk_verified_attendance event_id claim.claim_type tier_id r.0.sold env.timestamp) t)

module _ {T : Type 0} where
  -- The event contract pays for the seat itself, with the nonce 0.
  unfoldable pub pay_attendance : Env → Token T → Symbol → ℤ → World T → Call (World T)
  unfolding has_linked_contracts get_payments_contract pay_tier
  pay_attendance env token event_id price w =
      if ltb_ℤ (pos 0) price && has_linked_contracts w.event
      then (get_payments_contract w.event >>= λ payments_contract.
          pay_tier env token 0 payments_contract env.current_contract_address event_id price none w)
      else ok w

  unfoldable pub mint_attendance : Env → Event → World T → Call (World T)
  unfolding has_linked_contracts mint_seat
  mint_attendance env event w =
      if has_linked_contracts w.event
      then mint_seat env event env.current_contract_address w
      else ok w

  unfoldable pub verify_and_attend :
      Env → Token T → Symbol → ℕ → ZkPassportClaim → World T → Call (World T)
  unfolding get_event check_attendance pay_attendance mint_attendance record_attendance
  verify_and_attend env token event_id tier_id claim w = do
    event ← get_event event_id w.event
    found ← check_attendance env event_id tier_id claim event w.event
    u ← pay_attendance env token event_id found.1.price w
    v ← mint_attendance env event u
    s ← record_attendance env event_id tier_id claim found.0 found.1 event v.event
    ok (with_event v s)
