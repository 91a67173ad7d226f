-- ===== src/Event/Settings.antt =====
-- What the settings and the calls that pass on to the payments contract make of the stored events:
-- nothing.
use zicket_contract.Base.{
  ltb, ◌==◌, add_u32, is_ok, Address, Symbol, require_auth, call_env, invoke, Env, ok-Ensures,
  bind-Ensures, test-Ensures, Ensures, ℕ, not,
}
use zicket_contract.PrivacyUtils.{PrivacyLevel}
use zicket_contract.Payments.Types.{Token}
use zicket_contract.Payments.Release
use zicket_contract.Payments.Splits
use zicket_contract.Event.Types.{
  ZkVerificationConfig, Store, World, invalid_status_transition, unauthorized, unsupported_version,
  anonymous_claim_verifier_already_configured,
}
use zicket_contract.Event.Storage.{
  get_admin, get_event, get_payments_contract, get_anonymous_claim_verifier, get_contract_version,
}
use zicket_contract.Event.Evolution.{Advances-refl}
use zicket_contract.Event.Create.{organizer_event}
use zicket_contract.Event.Claims.{
  set_anonymous_claim_verifier, set_claim_settings, set_anon_claim_settings, set_zk_config,
}
use zicket_contract.Event.Admin.{
  is_completed, set_event_privacy, migrate, initialize, withdraw_revenue, withdraw_split,
  flag_cohost,
}
use zicket_contract.Event.Storage
use zicket_contract.Event.Lifecycle.{Onward, WorldOnward}

pub set_claim_settings-Onward :
    (env : Env) (organizer : Address) (event_id : Symbol) (max cooldown : ℕ) (s : Store)
    → Ensures (Onward s) (set_claim_settings env organizer event_id max cooldown s)
unfolding set_claim_settings
set_claim_settings-Onward env organizer event_id max cooldown s =
    bind-Ensures (organizer_event env organizer event_id s)
      λ _ _. ok-Ensures (Advances-refl s.event)

pub set_anon_claim_settings-Onward :
    (env : Env) (organizer : Address) (event_id : Symbol) (max size : ℕ) (s : Store)
    → Ensures (Onward s) (set_anon_claim_settings env organizer event_id max size s)
unfolding set_anon_claim_settings
set_anon_claim_settings-Onward env organizer event_id max size s =
    bind-Ensures (organizer_event env organizer event_id s)
      λ _ _. ok-Ensures (Advances-refl s.event)

pub set_zk_config-Onward :
    (env : Env) (organizer : Address) (event_id : Symbol) (config : ZkVerificationConfig)
    (s : Store)
    → Ensures (Onward s) (set_zk_config env organizer event_id config s)
unfolding set_zk_config
set_zk_config-Onward env organizer event_id config s =
    bind-Ensures (organizer_event env organizer event_id s)
      λ _ _. ok-Ensures (Advances-refl s.event)

pub set_event_privacy-Onward :
    (env : Env) (organizer : Address) (event_id : Symbol) (level : PrivacyLevel) (s : Store)
    → Ensures (Onward s) (set_event_privacy env organizer event_id level s)
unfolding set_event_privacy Storage.set_event_privacy
set_event_privacy-Onward env organizer event_id level s =
    bind-Ensures (organizer_event env organizer event_id s)
      λ _ _. ok-Ensures (Advances-refl s.event)

pub set_anonymous_claim_verifier-Onward :
    (env : Env) (admin verifier : Address) (s : Store)
    → Ensures (Onward s) (set_anonymous_claim_verifier env admin verifier s)
unfolding set_anonymous_claim_verifier
set_anonymous_claim_verifier-Onward env admin verifier s =
    bind-Ensures (require_auth env admin) λ _ _. bind-Ensures (get_admin s) λ stored_admin _.
      test-Ensures (not (stored_admin == admin)) unauthorized λ _.
        test-Ensures (is_ok (get_anonymous_claim_verifier s))
          anonymous_claim_verifier_already_configured λ _. ok-Ensures (Advances-refl s.event)

pub migrate-Onward :
    (env : Env) (admin : Address) (s : Store) → Ensures (λ r. Onward s r.1) (migrate env admin s)
unfolding migrate
migrate-Onward env admin s = bind-Ensures (require_auth env admin) λ _ _.
    bind-Ensures (get_admin s) λ current_admin _.
      test-Ensures (not (current_admin == admin)) unauthorized λ _.
        bind-Ensures (add_u32 (get_contract_version s) 1) λ new_version _.
          test-Ensures (ltb 2 (get_contract_version s)) unsupported_version
            λ _. ok-Ensures (Advances-refl s.event)

module _ {T : Type 0} where
  pub initialize-Onward :
      (env : Env) (admin ticket_contract payments_contract : Address) (w : World T)
      → Ensures (WorldOnward w) (initialize env admin ticket_contract payments_contract w)
  unfolding initialize
  initialize-Onward env admin ticket_contract payments_contract w =
      bind-Ensures (require_auth env admin) λ _ _. ok-Ensures (Advances-refl w.event.event)

  pub withdraw_revenue-Onward :
      (env : Env) (token : Token T) (organizer : Address) (event_id : Symbol) (w : World T)
      → Ensures (WorldOnward w) (withdraw_revenue env token organizer event_id w)
  unfolding withdraw_revenue
  withdraw_revenue-Onward env token organizer event_id w =
      bind-Ensures (organizer_event env organizer event_id w.event) λ event _.
        test-Ensures (not (is_completed event.status)) invalid_status_transition λ _.
          bind-Ensures (get_payments_contract w.event) λ payments_contract _.
            bind-Ensures
              (invoke (
                Release.withdraw_revenue (call_env env payments_contract) token event_id organizer
                  w.payments))
              λ payments _. ok-Ensures (Advances-refl w.event.event)

  pub withdraw_split-Onward :
      (env : Env) (token : Token T) (recipient : Address) (event_id : Symbol) (w : World T)
      → Ensures (WorldOnward w) (withdraw_split env token recipient event_id w)
  unfolding withdraw_split
  withdraw_split-Onward env token recipient event_id w =
      bind-Ensures (require_auth env recipient) λ _ _.
        bind-Ensures (get_event event_id w.event) λ _ _.
          bind-Ensures (get_payments_contract w.event) λ payments_contract _.
            bind-Ensures
              (invoke (
                Splits.withdraw_split (call_env env payments_contract) token recipient event_id
                  w.payments))
              λ payments _. ok-Ensures (Advances-refl w.event.event)

  pub flag_cohost-Onward :
      (env : Env) (organizer : Address) (event_id : Symbol) (recipient : Address) (w : World T)
      → Ensures (WorldOnward w) (flag_cohost env organizer event_id recipient w)
  unfolding flag_cohost
  flag_cohost-Onward env organizer event_id recipient w =
      bind-Ensures (organizer_event env organizer event_id w.event) λ _ _.
        bind-Ensures (get_payments_contract w.event) λ payments_contract _.
          bind-Ensures
            (invoke (
              Splits.flag_cohost (call_env env payments_contract) organizer event_id recipient
                w.payments))
            λ payments _. ok-Ensures (Advances-refl w.event.event)
