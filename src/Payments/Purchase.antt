-- ===== src/Payments/Purchase.antt =====
-- `create_payment` of contracts/payments/src/lib.rs, which every `pay_for_ticket` calls, in the
-- order of its code.
use zicket_contract.Base.{
  ℕ, Bool, true, false, Option, none, some, ltb, leb, ◌==◌, not, ◌&&◌, if◌then◌else◌, ok, ◌>>=◌,
  ◌>>◌, err_if, ok_or, is_some, Env, require_auth, Symbol, Bytes,
}
use zicket_contract.Base.Int.{pos, leb_ℤ}
use zicket_contract.Payments.Types.{
  anonymous, private, standard, EventStatus, completed, cancelled, postponed, PaymentRecord,
  contract_paused, nonce_required, duplicate_request, invalid_amount, anonymous_payments_disabled,
  verification_required, event_sold_out, max_tickets_reached, event_not_active,
  invalid_payout_token, transfer_failed, payment_received, receipt_requested, ticket_issued, Token,
  Store,
}
use zicket_contract.Payments.Storage.{
  Call, publish, is_paused, is_supported_token, get_event_privacy, get_next_payment_id,
  get_next_ticket_id, save_payment, save_ticket, add_owner_ticket_map, add_event_payment,
  add_payer_payment, has_nonce, set_nonce, has_nonce_hash, set_nonce_hash, has_nullifier,
  mark_nullifier_spent, get_user_event_tickets, increment_user_event_tickets,
  get_user_event_tickets_hash, increment_user_event_tickets_hash, increment_event_sold_count,
}
use zicket_contract.Payments.Accounts.{
  add_event_token, add_event_token_revenue, add_event_revenue, add_total_payments,
  add_total_token_volume,
}
use zicket_contract.Payments.Identity.{
  PaymentParams, build_payment_record, build_ticket, private_wallet_hash, masked_payment_identity,
  masked_ticket_identity,
}

abbrev pub sales_closed : Option EventStatus → Bool
sales_closed (some completed) = true
sales_closed (some cancelled) = true
sales_closed (some postponed) = true
sales_closed _ = false

module _ {T : Type 0} where
  unfoldable pub require_not_paused : Store T → Call (Unit {0})
  unfolding is_paused
  require_not_paused s = err_if (is_paused s) contract_paused

  unfoldable pub validate_payment_privacy : Symbol → Bool → Bool → Store T → Call (Unit {0})
  unfolding get_event_privacy
  validate_payment_privacy event_id is_anonymous is_verified s = do
    let privacy = get_event_privacy event_id s
    err_if (is_anonymous && not privacy.allow_anonymous) anonymous_payments_disabled
    err_if (privacy.requires_verification && not is_verified) verification_required

  unfoldable pub already_used : Env → PaymentParams → Store T → Bool
  unfolding private_wallet_hash has_nonce has_nonce_hash
  already_used env params s = elim (params.privacy_level) [
    | standard ↦ has_nonce params.payer params.nonce s
    | private ↦ has_nonce_hash (private_wallet_hash env params.payer) params.nonce s
    | anonymous ↦ elim (params.nullifier_commitment) [
      | some commitment ↦ has_nonce_hash commitment params.nonce s
      | none ↦ false
    ]
  ]

  unfoldable pub current_tickets : Env → PaymentParams → Store T → ℕ
  unfolding private_wallet_hash get_user_event_tickets get_user_event_tickets_hash
  current_tickets env params s = elim (params.privacy_level) [
    | standard ↦ get_user_event_tickets params.event_id params.payer s
    | private ↦ get_user_event_tickets_hash params.event_id (private_wallet_hash env params.payer) s
    | anonymous ↦ 0
  ]

  -- The limits of the event's configuration, where it has one.
  unfoldable pub check_limits : Env → PaymentParams → Store T → Call (Unit {0})
  unfolding current_tickets
  check_limits env params s = elim (s.event_config params.event_id) [
    | none ↦ ok tt
    | some config ↦
        err_if (ltb 0 config.max_supply && leb config.max_supply config.sold_count) event_sold_out
        >> err_if
            (ltb 0 config.max_tickets_per_user
              && leb config.max_tickets_per_user (current_tickets env params s))
            max_tickets_reached
  ]

  -- All that precedes the transfer.
  unfoldable pub check_payment : Env → PaymentParams → Store T → Call (Unit {0})
  unfolding require_not_paused already_used validate_payment_privacy check_limits is_supported_token
  check_payment env params s = do
    require_auth env params.payer
    require_not_paused s
    err_if (params.nonce == 0) nonce_required
    err_if (already_used env params s) duplicate_request
    err_if (leb_ℤ params.amount (pos 0)) invalid_amount
    validate_payment_privacy params.event_id params.is_anonymous params.is_verified s
    check_limits env params s
    err_if (sales_closed (s.event_status params.event_id)) event_not_active
    err_if (not (is_supported_token params.token_address s)) invalid_payout_token

  unfoldable pub spend_nullifier : Option Bytes → Store T → Call (Store T)
  unfolding has_nullifier mark_nullifier_spent
  spend_nullifier none s = ok s
  spend_nullifier (some commitment) s = do
    err_if (has_nullifier commitment s) duplicate_request
    ok (mark_nullifier_spent commitment s)

  unfoldable pub index_payer : PaymentParams → PaymentRecord → Store T → Call (Store T)
  unfolding add_payer_payment
  index_payer params payment s = elim (payment.privacy_level) [
    | standard ↦ add_payer_payment params.payer payment.payment_id s
    | private ↦ ok s
    | anonymous ↦ ok s
  ]

  unfoldable pub mark_nonce : Env → PaymentParams → PaymentRecord → Store T → Store T
  unfolding private_wallet_hash set_nonce set_nonce_hash
  mark_nonce env params payment s = elim (params.privacy_level) [
    | standard ↦ set_nonce params.payer params.nonce s
    | private ↦ set_nonce_hash (private_wallet_hash env params.payer) params.nonce s
    | anonymous ↦ elim (payment.nullifier_commitment) [
      | some commitment ↦ set_nonce_hash commitment params.nonce s
      | none ↦ s
    ]
  ]

  -- The accounts of a purchase, up to its events.
  unfoldable pub book_payment : PaymentParams → Store T → Call (Store T)
  unfolding add_event_revenue add_event_token_revenue add_event_token add_total_payments
      add_total_token_volume
  book_payment params s = do
    t ← add_event_token params.event_id params.token_address (
        add_event_token_revenue params.event_id params.token_address params.amount
          (add_event_revenue params.event_id params.amount s))
    ok (
        add_total_token_volume params.event_id params.token_address params.amount
          (add_total_payments params.event_id params.amount t))

  abbrev pub announce_payment : Env → PaymentParams → PaymentRecord → Store T → Store T
  announce_payment env params payment s =
      let t =
        publish
          (payment_received payment.payment_id payment.event_id (masked_payment_identity payment)
            payment.amount payment.token payment.paid_at)
          s in
      elim (params.email_hash) [
        | some hash ↦
            publish (receipt_requested payment.payment_id params.event_id (some hash) env.timestamp)
              t
        | none ↦ t
      ]

  unfoldable pub count_ticket : Env → PaymentParams → Store T → Call (Store T)
  unfolding private_wallet_hash increment_user_event_tickets increment_user_event_tickets_hash
  count_ticket env params s = elim (params.privacy_level) [
    | standard ↦ increment_user_event_tickets params.event_id params.payer s
    | private ↦
        increment_user_event_tickets_hash params.event_id (private_wallet_hash env params.payer) s
    | anonymous ↦ ok s
  ]

  unfoldable pub index_owner : PaymentParams → PaymentRecord → ℕ → Store T → Call (Store T)
  unfolding add_owner_ticket_map
  index_owner params payment ticket_id s = elim (payment.privacy_level) [
    | standard ↦ add_owner_ticket_map params.payer ticket_id s
    | private ↦ ok s
    | anonymous ↦ ok s
  ]

  unfoldable pub count_sale : Symbol → Store T → Call (Store T)
  unfolding increment_event_sold_count
  count_sale event_id s =
      if is_some (s.event_config event_id) then increment_event_sold_count event_id s else ok s

  -- From the ticket's id on.
  unfoldable pub issue_ticket : Env → PaymentParams → PaymentRecord → Store T → Call (Store T)
  unfolding get_next_ticket_id build_ticket save_ticket index_owner count_ticket count_sale
  issue_ticket env params payment s = do
    r ← get_next_ticket_id s
    let ticket = build_ticket payment r.0
    t ← save_ticket ticket r.1
    u ← index_owner params payment r.0 t
    v ← count_ticket env params u
    w ← count_sale params.event_id v
    ok (
        publish
          (ticket_issued r.0 ticket.event_id (masked_ticket_identity ticket) ticket.payment_id
            env.timestamp)
          w)

  unfoldable pub record_payment : Env → PaymentParams → PaymentRecord → Store T → Call (Store T)
  unfolding spend_nullifier save_payment add_event_payment index_payer mark_nonce book_payment
  record_payment env params payment s = do
    t ← spend_nullifier payment.nullifier_commitment s
    u ← save_payment payment t
    v ← add_event_payment params.event_id payment.payment_id u
    w ← index_payer params payment v
    x ← book_payment params (mark_nonce env params payment w)
    ok (announce_payment env params payment x)

  unfoldable pub create_payment : Env → Token T → PaymentParams → Store T → Call (ℕ × Store T)
  unfolding check_payment get_next_payment_id build_payment_record record_payment issue_ticket
  create_payment env token params s = do
    check_payment env params s
    tokens ←
        ok_or
          (token.transfer s.tokens params.token_address params.payer env.current_contract_address
            params.amount)
          transfer_failed
    r ← get_next_payment_id (record s { tokens = tokens })
    payment ← build_payment_record env params r.0 env.timestamp
    t ← record_payment env params payment r.1
    u ← issue_ticket env params payment t
    ok (r.0, u)
