-- ===== src/Payments/Storage.antt =====
-- contracts/payments/src/storage.rs. `extend_ttl` moves an entry's expiry and leaves its value, so
-- it is left out: every entry is taken to be live.
use zicket_contract.Base.{
  ℕ, ◌+◌, Bool, true, false, none, some, ◌∷◌, ltb, ◌==◌, ◌||◌, not, Outcome, ok, ◌>>=◌, ◌>>◌, ok_or,
  unwrap_or, is_some, err_if, add_u32, add_u64, Address, Symbol, Bytes, update, update₂, u32_max,
}
use zicket_contract.Payments.Types.{
  EventStatus, PaymentRecord, Ticket, EventPrivacyConfig, EventConfig, PaymentError,
  not_initialized, invalid_organizer, payment_already_processed, payment_not_found,
  duplicate_request, ticket_not_found, event_sold_out, PaymentEvent, Store,
}

abbrev pub Call : Type 0 → Type 0
Call = Outcome PaymentError

module _ {T : Type 0} where
  abbrev pub publish : PaymentEvent → Store T → Store T
  publish e s = record s { events = e ∷ s.events }

  unfoldable pub get_admin : Store T → Call Address
  get_admin s = ok_or s.admin not_initialized

  unfoldable pub is_paused : Store T → Bool
  is_paused s = unwrap_or s.paused false

  unfoldable pub is_supported_token : Address → Store T → Bool
  is_supported_token token s = elim s.accepted_token [
    | some accepted ↦ accepted == token || unwrap_or (s.supported_token token) false
    | none ↦ unwrap_or (s.supported_token token) false
  ]

  unfoldable pub get_event_privacy : Symbol → Store T → EventPrivacyConfig
  get_event_privacy event_id s =
      unwrap_or (s.event_privacy event_id)
        (record { allow_anonymous = true; requires_verification = false })

  unfoldable pub set_event_config : Symbol → EventConfig → Store T → Store T
  set_event_config event_id config s = record s {
    event_config = update s.event_config event_id (some config);
  }

  unfoldable pub set_event_status : Symbol → EventStatus → Store T → Store T
  set_event_status event_id status s = record s {
    event_status = update s.event_status event_id (some status);
  }

  unfoldable pub get_next_payment_id : Store T → Call (ℕ × Store T)
  get_next_payment_id s = do
    next_id ← add_u64 (unwrap_or s.next_payment_id 0) 1
    ok (next_id, record s { next_payment_id = some next_id })

  unfoldable pub get_next_ticket_id : Store T → Call (ℕ × Store T)
  get_next_ticket_id s = do
    next_id ← add_u64 (unwrap_or s.next_ticket_id 0) 1
    ok (next_id, record s { next_ticket_id = some next_id })

  unfoldable pub save_payment : PaymentRecord → Store T → Call (Store T)
  save_payment payment s = do
    err_if (is_some (s.payments payment.payment_id)) payment_already_processed
    ok (record s { payments = update s.payments payment.payment_id (some payment) })

  unfoldable pub get_payment : ℕ → Store T → Call PaymentRecord
  get_payment payment_id s = ok_or (s.payments payment_id) payment_not_found

  unfoldable pub update_payment : PaymentRecord → Store T → Call (Store T)
  update_payment payment s = do
    err_if (not (is_some (s.payments payment.payment_id))) payment_not_found
    ok (record s { payments = update s.payments payment.payment_id (some payment) })

  unfoldable pub save_ticket : Ticket → Store T → Call (Store T)
  save_ticket ticket s = do
    err_if (is_some (s.tickets ticket.ticket_id)) duplicate_request
    ok (record s { tickets = update s.tickets ticket.ticket_id (some ticket) })

  unfoldable pub get_ticket : ℕ → Store T → Call Ticket
  get_ticket ticket_id s = ok_or (s.tickets ticket_id) ticket_not_found

  unfoldable pub add_owner_ticket_map : Address → ℕ → Store T → Call (Store T)
  add_owner_ticket_map owner ticket_id s = do
    let count = unwrap_or (s.owner_tickets_count owner) 0
    next ← add_u64 count 1
    ok (record s {
      owner_ticket = update₂ s.owner_ticket owner ticket_id (some count);
      owner_ticket_index = update₂ s.owner_ticket_index owner count (some ticket_id);
      owner_tickets_count = update s.owner_tickets_count owner (some next);
    })

  unfoldable pub add_event_payment : Symbol → ℕ → Store T → Call (Store T)
  add_event_payment event_id payment_id s = do
    let count = unwrap_or (s.event_payments_count event_id) 0
    next ← add_u64 count 1
    ok (record s {
      event_payment = update₂ s.event_payment event_id payment_id (some true);
      event_payment_index = update₂ s.event_payment_index event_id count (some payment_id);
      event_payments_count = update s.event_payments_count event_id (some next);
    })

  unfoldable pub add_payer_payment : Address → ℕ → Store T → Call (Store T)
  add_payer_payment payer payment_id s = do
    let count = unwrap_or (s.payer_payments_count payer) 0
    next ← add_u64 count 1
    ok (record s {
      payer_payment = update₂ s.payer_payment payer payment_id (some true);
      payer_payment_index = update₂ s.payer_payment_index payer count (some payment_id);
      payer_payments_count = update s.payer_payments_count payer (some next);
    })

  unfoldable pub has_nonce : Address → ℕ → Store T → Bool
  has_nonce address nonce s = unwrap_or (s.processed_nonce address nonce) false

  unfoldable pub set_nonce : Address → ℕ → Store T → Store T
  set_nonce address nonce s = record s {
    processed_nonce = update₂ s.processed_nonce address nonce (some true);
  }

  unfoldable pub has_nonce_hash : Bytes → ℕ → Store T → Bool
  has_nonce_hash hash nonce s = unwrap_or (s.processed_nonce_hash hash nonce) false

  unfoldable pub set_nonce_hash : Bytes → ℕ → Store T → Store T
  set_nonce_hash hash nonce s = record s {
    processed_nonce_hash = update₂ s.processed_nonce_hash hash nonce (some true);
  }

  unfoldable pub has_nullifier : Bytes → Store T → Bool
  has_nullifier commitment s = unwrap_or (s.spent_nullifier commitment) false

  unfoldable pub mark_nullifier_spent : Bytes → Store T → Store T
  mark_nullifier_spent commitment s = record s {
    spent_nullifier = update s.spent_nullifier commitment (some true);
  }

  unfoldable pub get_user_event_tickets : Symbol → Address → Store T → ℕ
  get_user_event_tickets event_id user s = unwrap_or (s.user_event_tickets event_id user) 0

  unfoldable pub increment_user_event_tickets : Symbol → Address → Store T → Call (Store T)
  unfolding get_user_event_tickets
  increment_user_event_tickets event_id user s = do
    next ← add_u32 (get_user_event_tickets event_id user s) 1
    ok (record s { user_event_tickets = update₂ s.user_event_tickets event_id user (some next) })

  unfoldable pub get_user_event_tickets_hash : Symbol → Bytes → Store T → ℕ
  get_user_event_tickets_hash event_id hash s =
      unwrap_or (s.user_event_tickets_hash event_id hash) 0

  unfoldable pub increment_user_event_tickets_hash : Symbol → Bytes → Store T → Call (Store T)
  unfolding get_user_event_tickets_hash
  increment_user_event_tickets_hash event_id hash s = do
    next ← add_u32 (get_user_event_tickets_hash event_id hash s) 1
    ok (record s {
      user_event_tickets_hash = update₂ s.user_event_tickets_hash event_id hash (some next);
    })

  unfoldable pub increment_event_sold_count : Symbol → Store T → Call (Store T)
  unfolding set_event_config
  increment_event_sold_count event_id s = do
    config ← ok_or (s.event_config event_id) invalid_organizer
    err_if (ltb u32_max (config.sold_count + 1)) event_sold_out
    ok (set_event_config event_id (record config { sold_count = config.sold_count + 1 }) s)
