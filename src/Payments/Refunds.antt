-- ===== src/Payments/Refunds.antt =====
-- `refund`, `claim_refund` and `request_postponement_refund` of contracts/payments/src/lib.rs.
use zicket_contract.Base.{
  ℕ, Bool, true, false, Option, none, some, ltb, ◌==◌, not, ◌&&◌, ◌||◌, ok, trap, ◌>>=◌, ◌>>◌,
  err_if, ok_or, unwrap_or, sub_u32, if◌then◌else◌, Env, require_auth, Address, Symbol,
}
use zicket_contract.Base.Int.{ℤ, pos, ◌+ℤ◌, ◌-ℤ◌, ltb_ℤ, leb_ℤ, eqb_ℤ, of_bps}
use zicket_contract.Payments.Types.{
  standard, EventStatus, cancelled, postponed, EventConfig, PaymentStatus, held, refunded,
  PaymentPrivacy, PaymentRecord, unauthorized, refund_not_allowed, payment_already_refunded,
  payment_already_processed, invalid_amount, event_not_active, no_revenue, event_not_postponed,
  postponement_window_closed, not_initialized, payment_refunded, Token, Store,
}
use zicket_contract.Payments.Storage.{
  Call, publish, get_admin, get_payment, get_ticket, update_payment,
}
use zicket_contract.Payments.Accounts.{
  get_event_revenue, set_event_revenue, get_event_token_revenue, set_event_token_revenue,
  add_total_refunds, add_total_token_refunds,
}
use zicket_contract.Payments.Identity.{masked_payment_identity}
use zicket_contract.Payments.Purchase.{require_not_paused}

abbrev pub is_held : PaymentStatus → Bool
is_held held = true
is_held _ = false

abbrev pub is_refunded : PaymentStatus → Bool
is_refunded refunded = true
is_refunded _ = false

abbrev pub is_standard : PaymentPrivacy → Bool
is_standard standard = true
is_standard _ = false

abbrev pub is_cancelled : Option EventStatus → Bool
is_cancelled (some cancelled) = true
is_cancelled _ = false

abbrev pub is_postponed : Option EventStatus → Bool
is_postponed (some postponed) = true
is_postponed _ = false

-- `config.as_ref().and_then(|c| c.withdrawable_ratio_bps).unwrap_or(0)`
abbrev pub withdrawable_ratio : Option EventConfig → ℕ
withdrawable_ratio none = 0
withdrawable_ratio (some config) = unwrap_or config.withdrawable_ratio_bps 0

-- "The organizer has taken the whole": the test of the configuration in `refund`.
abbrev pub taken_whole : Option EventConfig → Bool
taken_whole none = false
taken_whole (some config) =
    config.organizer_withdrawn && (unwrap_or config.withdrawable_ratio_bps 10000 == 10000)

-- `max_refund` of `refund`.
unfoldable pub refund_limit : Option EventStatus → Option EventConfig → PaymentRecord → Call ℤ
refund_limit status config payment =
    if is_cancelled status
    then (sub_u32 10000 (withdrawable_ratio config) >>= λ refund_ratio_bps.
        ok (of_bps payment.amount refund_ratio_bps -ℤ payment.refunded_amount))
    else ok (payment.amount -ℤ payment.refunded_amount)

-- The record after `refund`: it is refunded once nothing is left.
abbrev pub partly_refunded : ℤ → PaymentRecord → PaymentRecord
partly_refunded amount payment =
    let total = payment.refunded_amount +ℤ amount in
    record payment {
      refunded_amount = total;
      status = if eqb_ℤ total payment.amount then refunded else payment.status;
    }

-- The record after the other refunds.
abbrev pub wholly_refunded : ℤ → PaymentRecord → PaymentRecord
wholly_refunded amount payment = record payment {
  refunded_amount = payment.refunded_amount +ℤ amount;
  status = refunded;
}

module _ {T : Type 0} where
  -- `token::Client::new(env, asset).transfer(from, to, amount)`, which traps where it fails.
  unfoldable pub pay : Token T → Address → Address → Address → ℤ → Store T → Call (Store T)
  pay token asset from to amount s = elim (token.transfer s.tokens asset from to amount) [
    | none ↦ trap
    | some tokens ↦ ok (record s { tokens = tokens })
  ]

  abbrev pub auto_released : Symbol → Store T → Bool
  auto_released event_id s = elim (s.escrow_meta event_id) [
    | none ↦ false
    | some meta ↦ meta.auto_released
  ]

  -- The accounts of a refund.
  unfoldable pub book_refund : Symbol → Address → ℤ → Store T → Store T
  unfolding get_event_revenue set_event_revenue get_event_token_revenue set_event_token_revenue
      add_total_refunds add_total_token_refunds
  book_refund event_id token amount s =
      let t = set_event_revenue event_id (get_event_revenue event_id s -ℤ amount) s in
      let u =
        set_event_token_revenue event_id token (get_event_token_revenue event_id token t -ℤ amount)
          t in
      add_total_token_refunds event_id token amount (add_total_refunds event_id amount u)

  -- Pay `to`, store the record and book the refund: the last part of each of the three.
  unfoldable pub settle_refund :
      Env → Token T → Address → ℤ → PaymentRecord → Store T → Call (Store T)
  unfolding pay update_payment book_refund masked_payment_identity
  settle_refund env token to amount payment s = do
    t ← pay token payment.token env.current_contract_address to amount s
    u ← update_payment payment t
    ok (
        publish
          (payment_refunded payment.payment_id payment.event_id (masked_payment_identity payment)
            amount payment.token env.timestamp)
          (book_refund payment.event_id payment.token amount u))

  -- The same where the payer may be missing: then nothing is paid.
  unfoldable pub settle_optional_refund :
      Env → Token T → ℤ → PaymentRecord → Store T → Call (Store T)
  unfolding settle_refund update_payment book_refund masked_payment_identity
  settle_optional_refund env token amount payment s = elim (payment.payer) [
    | some payer ↦ settle_refund env token payer amount payment s
    | none ↦ update_payment payment s >>= λ u. ok (
        publish
          (payment_refunded payment.payment_id payment.event_id (masked_payment_identity payment)
            amount payment.token env.timestamp)
          (book_refund payment.event_id payment.token amount u))
  ]

  unfoldable pub refund : Env → Token T → Address → ℕ → Option ℤ → Store T → Call (Store T)
  unfolding require_not_paused get_admin get_payment refund_limit settle_optional_refund
  refund env token admin payment_id amount s = do
    require_not_paused s
    stored_admin ← get_admin s
    err_if (not (admin == stored_admin)) unauthorized
    require_auth env admin
    payment ← get_payment payment_id s
    err_if (not (is_standard payment.privacy_level)) refund_not_allowed
    err_if (is_refunded payment.status) payment_already_refunded
    err_if (not (is_held payment.status)) payment_already_processed
    let config = s.event_config payment.event_id
    err_if (taken_whole config) payment_already_processed
    err_if (auto_released payment.event_id s) payment_already_processed
    max_refund ← refund_limit (s.event_status payment.event_id) config payment
    let refund_amt = unwrap_or amount max_refund
    err_if (leb_ℤ refund_amt (pos 0) || ltb_ℤ max_refund refund_amt) invalid_amount
    settle_optional_refund env token refund_amt (partly_refunded refund_amt payment) s

  unfoldable pub claim_refund : Env → Token T → Address → ℕ → Store T → Call (Store T)
  unfolding get_payment settle_refund
  claim_refund env token payer payment_id s = do
    require_auth env payer
    payment ← get_payment payment_id s
    stored_payer ← ok_or payment.payer refund_not_allowed
    err_if (not (stored_payer == payer)) unauthorized
    err_if (not (is_held payment.status)) payment_already_processed
    err_if (not (is_cancelled (s.event_status payment.event_id))) event_not_active
    refund_ratio_bps ← sub_u32 10000 (withdrawable_ratio (s.event_config payment.event_id))
    err_if (refund_ratio_bps == 0) no_revenue
    let remaining = of_bps payment.amount refund_ratio_bps -ℤ payment.refunded_amount
    err_if (leb_ℤ remaining (pos 0)) invalid_amount
    settle_refund env token stored_payer remaining (wholly_refunded remaining payment) s

  unfoldable pub request_postponement_refund :
      Env → Token T → Address → ℕ → Store T → Call (Store T)
  unfolding require_not_paused get_ticket get_payment settle_refund
  request_postponement_refund env token caller ticket_id s = do
    require_not_paused s
    event_contract ← ok_or s.event_contract not_initialized
    require_auth env event_contract
    ticket ← get_ticket ticket_id s
    ticket_owner ← ok_or ticket.owner refund_not_allowed
    err_if (not (ticket_owner == caller)) unauthorized
    payment ← get_payment ticket.payment_id s
    refund_recipient ← ok_or payment.payer refund_not_allowed
    err_if (is_refunded payment.status) payment_already_refunded
    err_if (not (is_held payment.status)) payment_already_processed
    err_if (not (is_postponed (s.event_status payment.event_id))) event_not_postponed
    deadline ← ok_or (s.postpone_deadline payment.event_id) event_not_postponed
    err_if (ltb deadline env.sequence) postponement_window_closed
    let refund_amt = payment.amount -ℤ payment.refunded_amount
    err_if (leb_ℤ refund_amt (pos 0)) invalid_amount
    settle_refund env token refund_recipient refund_amt (wholly_refunded refund_amt payment) s
