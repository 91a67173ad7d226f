-- ===== src/Payments/Tests.antt =====
-- Runs of the payments contract, and its theorems at concrete storages.
use zicket_contract.Base.{
  if◌then◌else◌, ◌==◌, ◌>>=◌, Option, is_ok, ok, ℕ, [], ◌∷◌, ◌≤◌, ◌≡◌, refl, ◌≢◌, false, none, some,
  arith,
}
use zicket_contract.Base.Int.{◌<ℤ◌, ◌≤ℤ◌, pos, ◌+ℤ◌, ◌-ℤ◌, of_bps}
use zicket_contract.Payments.Types.{
  DisputeRecord, disputed, PaymentRecord, Ticket, Store, completed, private, standard, postponed,
}
use zicket_contract.PrivacyUtils.{mask_address}
use zicket_contract.Payments.Storage.{Call, is_paused, set_event_status}
use zicket_contract.Payments.Identity.{
  held_payment, build_payment_record, build_ticket, private_wallet_hash, masked_payment_identity,
  masked_ticket_identity, PaymentParams,
}
use zicket_contract.Payments.Purchase.{require_not_paused, create_payment}
use zicket_contract.Payments.Refunds.{refund, claim_refund, request_postponement_refund}
use zicket_contract.Payments.Disputes.{raise_dispute, approve_refund}
use zicket_contract.Payments.Withdrawals.{
  cancellation_ratio, cancel_event, withdraw, withdraw_token,
}
use zicket_contract.Payments.Fixtures.{host_at, Balances, ledger, ledger_laws, concert, opened}
use zicket_contract.Payments.Escrow.{KeepsCover}
use zicket_contract.Payments.Replay.{create_payment-KeepsCover, create_payment_once}
use zicket_contract.Payments.Payouts.{withdraw-KeepsCover, withdraw_token-KeepsCover}
use zicket_contract.Payments.Conservation.{
  claim_refund-KeepsCover, refund-KeepsCover, approve_refund-KeepsCover,
  request_postponement_refund-KeepsCover,
}
use zicket_contract.Payments.Bounds.{refund_bounds}
use zicket_contract.Payments.Once.{IsKeyed, claim_refund_once}
use zicket_contract.Payments.Privacy.{ShowsOnly, IsMaskOf, build_payment_record_shows}
use zicket_contract.CommonUtils.Splits.{
  Splits, find_recipient_basis_points, calculate_recipient_share, validate_revenue_splits,
}
use zicket_contract.Payments.Splits.{sync_revenue_splits, withdraw_split, flag_cohost}
use zicket_contract.Payments.Admin.{
  bind_email_commitment, get_payment_commitment, verify_email_commitment,
}
use zicket_contract.Payments.Cohosts.{withdraw_split-KeepsCover, withdraw_split_once}
use zicket_contract.Payments.Receipts.{bind_email_commitment_verifies}
use zicket_contract.Payments.SplitRules.{result, with_split, sync_revenue_splits_agrees}
use zicket_contract.Payments.Cancellation.{cancellation_ratio_mono}

-- Address 2 buys a ticket for 400 of token 5.
abbrev order : PaymentParams
order = record {
  nonce = 1;
  payer = 2;
  event_id = 7;
  amount = pos 400;
  token_address = 5;
  is_anonymous = false;
  is_verified = false;
  privacy_level = standard;
  email_hash = none;
  zk_email_commitment = none;
  nullifier_commitment = none;
  stealth_delivery_key = none;
}

abbrev secret_order : PaymentParams
secret_order = record order { privacy_level = private; stealth_delivery_key = some 8 }

abbrev reached : {A : Type 0} → Call A → A → A
reached (ok a) d = a
reached _ d = d

abbrev sold : Store Balances
sold = (reached (create_payment (host_at 50) ledger order opened) (0, opened)).1

abbrev called_off : Store Balances
called_off = reached (cancel_event (host_at 150) 7 4 sold) sold

abbrev claimed : Store Balances
claimed = reached (claim_refund (host_at 160) ledger 2 1 called_off) called_off

abbrev held_over : Store Balances
held_over = set_event_status 7 completed sold

abbrev withdrawn : Store Balances
withdrawn = reached (withdraw (host_at 250) ledger 4 7 held_over) held_over

abbrev disputed_sale : Store Balances
disputed_sale = reached (raise_dispute (host_at 210) 1 0 none sold) sold

abbrev settled_sale : Store Balances
settled_sale = reached (approve_refund (host_at 220) ledger 1 disputed_sale) disputed_sale

abbrev drained : Store Balances
drained = reached (withdraw_token (host_at 250) ledger 66 7 5 held_over) held_over

abbrev part_refunded : Store Balances
part_refunded = reached (refund (host_at 60) ledger 1 1 (some (pos 150)) sold) sold

-- An address that is not the organizer's takes the revenue of a completed event with
-- `withdraw_token`.
stranger_withdraws : drained.tokens 5 66 ≡ pos 1400
unfolding create_payment set_event_status cancel_event claim_refund refund raise_dispute
    approve_refund withdraw withdraw_token mask_address ◌+ℤ◌ ◌-ℤ◌ of_bps
stranger_withdraws = refl

sold-ok : create_payment (host_at 50) ledger order opened ≡ ok (1, sold)
unfolding create_payment set_event_status cancel_event claim_refund refund raise_dispute
    approve_refund withdraw withdraw_token mask_address ◌+ℤ◌ ◌-ℤ◌ of_bps
sold-ok = refl

claimed-ok : claim_refund (host_at 160) ledger 2 1 called_off ≡ ok claimed
unfolding create_payment set_event_status cancel_event claim_refund refund raise_dispute
    approve_refund withdraw withdraw_token mask_address ◌+ℤ◌ ◌-ℤ◌ of_bps
claimed-ok = refl

withdrawn-ok : withdraw (host_at 250) ledger 4 7 held_over ≡ ok withdrawn
unfolding create_payment set_event_status cancel_event claim_refund refund raise_dispute
    approve_refund withdraw withdraw_token mask_address ◌+ℤ◌ ◌-ℤ◌ of_bps
withdrawn-ok = refl

drained-ok : withdraw_token (host_at 250) ledger 66 7 5 held_over ≡ ok drained
unfolding create_payment set_event_status cancel_event claim_refund refund raise_dispute
    approve_refund withdraw withdraw_token mask_address ◌+ℤ◌ ◌-ℤ◌ of_bps
drained-ok = refl

settled-ok : approve_refund (host_at 220) ledger 1 disputed_sale ≡ ok settled_sale
unfolding create_payment set_event_status cancel_event claim_refund refund raise_dispute
    approve_refund withdraw withdraw_token mask_address ◌+ℤ◌ ◌-ℤ◌ of_bps
settled-ok = refl

part_refunded-ok : refund (host_at 60) ledger 1 1 (some (pos 150)) sold ≡ ok part_refunded
unfolding create_payment set_event_status cancel_event claim_refund refund raise_dispute
    approve_refund withdraw withdraw_token mask_address ◌+ℤ◌ ◌-ℤ◌ of_bps
part_refunded-ok = refl

payer_apart : ◌≢◌ {A = ℕ} 2 99
payer_apart e = omega arith

organizer_apart : ◌≢◌ {A = ℕ} 4 99
organizer_apart e = omega arith

stranger_apart : ◌≢◌ {A = ℕ} 66 99
stranger_apart e = omega arith

create_payment-KeepsCover_example : KeepsCover ledger 99 7 opened sold
create_payment-KeepsCover_example =
    create_payment-KeepsCover (host_at 50) ledger order opened ledger_laws payer_apart sold-ok

create_payment_once_example : is_ok (create_payment (host_at 90) ledger order sold) ≡ false
unfolding private_wallet_hash
create_payment_once_example =
    create_payment_once (host_at 50) (host_at 90) ledger order opened refl sold-ok

withdraw-KeepsCover_example : KeepsCover ledger 99 7 held_over withdrawn
withdraw-KeepsCover_example =
    withdraw-KeepsCover ledger_laws (host_at 250) 4 7 held_over organizer_apart withdrawn-ok

withdraw_token-KeepsCover_example : KeepsCover ledger 99 7 held_over drained
withdraw_token-KeepsCover_example =
    withdraw_token-KeepsCover ledger_laws (host_at 250) 66 7 5 held_over stranger_apart drained-ok

-- The payment of `order`.
abbrev bought : PaymentRecord
bought = held_payment (some 2) none none none order 1 1000

bought_stored : sold.payments 1 ≡ some bought
unfolding create_payment set_event_status cancel_event claim_refund refund raise_dispute
    approve_refund withdraw withdraw_token mask_address ◌+ℤ◌ ◌-ℤ◌ of_bps
bought_stored = refl

called_off_stored : called_off.payments 1 ≡ some bought
unfolding create_payment set_event_status cancel_event claim_refund refund raise_dispute
    approve_refund withdraw withdraw_token mask_address ◌+ℤ◌ ◌-ℤ◌ of_bps
called_off_stored = refl

claim_refund-KeepsCover_example : KeepsCover ledger 99 7 called_off claimed
claim_refund-KeepsCover_example =
    claim_refund-KeepsCover ledger ledger_laws (host_at 160) 2 1 bought called_off payer_apart
      called_off_stored claimed-ok

refund-KeepsCover_example : KeepsCover ledger 99 7 sold part_refunded
refund-KeepsCover_example =
    refund-KeepsCover ledger ledger_laws (host_at 60) 1 1 (some (pos 150)) bought 2 sold
      bought_stored refl payer_apart part_refunded-ok

called_off-IsKeyed : IsKeyed called_off
unfolding IsKeyed create_payment set_event_status cancel_event claim_refund refund raise_dispute
    approve_refund withdraw withdraw_token mask_address ◌+ℤ◌ ◌-ℤ◌ of_bps
called_off-IsKeyed id p e = ground arith

sold-IsKeyed : IsKeyed sold
unfolding IsKeyed create_payment set_event_status cancel_event claim_refund refund raise_dispute
    approve_refund withdraw withdraw_token mask_address ◌+ℤ◌ ◌-ℤ◌ of_bps
sold-IsKeyed id p e = ground arith

refund_bounds_example :
    (p : PaymentRecord) × (part_refunded.payments 1 ≡ some p)
    × (p.amount ≡ pos 400)
    × (pos 0 <ℤ p.refunded_amount)
    × (p.refunded_amount ≤ℤ pos 400)
refund_bounds_example =
    refund_bounds (host_at 60) ledger 1 1 (some (pos 150)) sold bought 2 sold-IsKeyed bought_stored
      refl (omega arith) part_refunded-ok

claim_refund_once_example :
    (is_ok (claim_refund (host_at 170) ledger 2 1 claimed) ≡ false)
    × (is_ok (refund (host_at 170) ledger 2 1 none claimed) ≡ false)
    × ((ticket_id : ℕ) (ticket : Ticket)
        → claimed.tickets ticket_id ≡ some ticket
        → ticket.payment_id ≡ 1
        → is_ok (request_postponement_refund (host_at 170) ledger 2 ticket_id claimed) ≡ false)
claim_refund_once_example =
    claim_refund_once (host_at 160) ledger 2 1 called_off called_off-IsKeyed claimed-ok
      (host_at 170) 2 none

abbrev complaint : DisputeRecord
complaint = record {
  ticket_id = 1;
  event_id = 7;
  payment_id = 1;
  reason_code = 0;
  raised_at_ledger = 210;
}

complaint_stored : disputed_sale.dispute 1 ≡ some complaint
unfolding create_payment set_event_status cancel_event claim_refund refund raise_dispute
    approve_refund withdraw withdraw_token mask_address ◌+ℤ◌ ◌-ℤ◌ of_bps
complaint_stored = refl

disputed_stored : disputed_sale.payments 1 ≡ some (record bought { status = disputed })
unfolding create_payment set_event_status cancel_event claim_refund refund raise_dispute
    approve_refund withdraw withdraw_token mask_address ◌+ℤ◌ ◌-ℤ◌ of_bps
disputed_stored = refl

disputed_apart : ◌≢◌ {A = Option ℕ} (some 2) (some 99)
disputed_apart e = ground arith

approve_refund-KeepsCover_example : KeepsCover ledger 99 7 disputed_sale settled_sale
approve_refund-KeepsCover_example =
    approve_refund-KeepsCover ledger ledger_laws (host_at 220) 1 complaint
      (record bought { status = disputed }) disputed_sale complaint_stored disputed_stored
      disputed_apart settled-ok

-- The concert is postponed, and ticket 1 is given back before ledger 300.
abbrev postponed_sale : Store Balances
postponed_sale = record (set_event_status 7 postponed sold) {
  postpone_deadline = λ a. if a == 7 then some 300 else none;
}

abbrev given_back : Store Balances
given_back =
    reached (request_postponement_refund (host_at 60) ledger 2 1 postponed_sale) postponed_sale

given_back-ok : request_postponement_refund (host_at 60) ledger 2 1 postponed_sale ≡ ok given_back
unfolding request_postponement_refund create_payment set_event_status ◌+ℤ◌ ◌-ℤ◌ of_bps
given_back-ok = refl

postponed_ticket : postponed_sale.tickets 1 ≡ some (build_ticket bought 1)
unfolding create_payment set_event_status
postponed_ticket = refl

postponed_stored : postponed_sale.payments 1 ≡ some bought
unfolding create_payment set_event_status
postponed_stored = refl

request_postponement_refund-KeepsCover_example : KeepsCover ledger 99 7 postponed_sale given_back
unfolding build_ticket
request_postponement_refund-KeepsCover_example =
    request_postponement_refund-KeepsCover ledger ledger_laws (host_at 60) 2 1
      (build_ticket bought 1) bought postponed_sale postponed_ticket postponed_stored disputed_apart
      given_back-ok

abbrev secret_payment : PaymentRecord
secret_payment = held_payment none (some 10) (some 8) none secret_order 1 1000

secret_built : build_payment_record (host_at 50) secret_order 1 1000 ≡ ok secret_payment
unfolding build_payment_record
secret_built = refl

build_payment_record_shows_example :
    ShowsOnly private (host_at 50) secret_order secret_payment
    × IsMaskOf (host_at 50) secret_order (masked_payment_identity secret_payment) private
    × (masked_ticket_identity (build_ticket secret_payment 1)
        ≡ masked_payment_identity secret_payment)
build_payment_record_shows_example =
    build_payment_record_shows (host_at 50) secret_order 1 1 1000 secret_built

cancellation_ratio_mono_example :
    (cancellation_ratio 120 concert ≤ cancellation_ratio 150 concert)
    × (cancellation_ratio 150 concert ≤ 10000)
cancellation_ratio_mono_example = cancellation_ratio_mono concert 120 150 (omega arith)

-- The organizer of the concert shares its revenue with address 9.
abbrev shares : Splits
shares = (4, 6000) ∷ (9, 4000) ∷ []

sync_revenue_splits_agrees_example :
    result (sync_revenue_splits (host_at 50) 3 7 shares opened)
    ≡ result (validate_revenue_splits shares 4 >>= λ _. ok (with_split 7 shares opened))
unfolding require_not_paused is_paused
sync_revenue_splits_agrees_example =
    sync_revenue_splits_agrees (host_at 50) 3 7 4 6000 ((9, 4000) ∷ []) opened concert refl refl
      refl refl refl

-- Address 9 takes its share of the sale.
abbrev shared_sale : Store Balances
shared_sale = record held_over { event_splits = λ a. if a == 7 then some shares else none }

abbrev paid_share : Store Balances
paid_share = reached (withdraw_split (host_at 250) ledger 9 7 shared_sale) shared_sale

paid_share-ok : withdraw_split (host_at 250) ledger 9 7 shared_sale ≡ ok paid_share
unfolding withdraw_split create_payment set_event_status find_recipient_basis_points
    calculate_recipient_share ◌+ℤ◌ ◌-ℤ◌ of_bps
paid_share-ok = refl

withdraw_split-KeepsCover_example : KeepsCover ledger 99 7 shared_sale paid_share
withdraw_split-KeepsCover_example =
    withdraw_split-KeepsCover (host_at 250) ledger 9 7 shared_sale paid_share ledger_laws
      (ground arith) paid_share-ok

withdraw_split_once_example :
    (is_ok (withdraw_split (host_at 300) ledger 9 7 paid_share) ≡ false)
    × (is_ok (flag_cohost (host_at 300) 4 7 9 paid_share) ≡ false)
withdraw_split_once_example =
    withdraw_split_once (host_at 250) (host_at 300) ledger ledger 4 9 7 shared_sale paid_share
      paid_share-ok

abbrev receipted : Store Balances
receipted = reached (bind_email_commitment (host_at 60) 2 1 77 sold) sold

receipted-ok : bind_email_commitment (host_at 60) 2 1 77 sold ≡ ok receipted
unfolding bind_email_commitment create_payment
receipted-ok = refl

bind_email_commitment_verifies_example :
    (get_payment_commitment 1 receipted ≡ ok (some 77))
    × (verify_email_commitment 1 78 receipted ≡ ok false)
    × (is_ok (bind_email_commitment (host_at 70) 2 1 78 receipted) ≡ false)
bind_email_commitment_verifies_example =
    bind_email_commitment_verifies (host_at 60) (host_at 70) 2 2 1 77 78 78 sold receipted
      sold-IsKeyed receipted-ok
