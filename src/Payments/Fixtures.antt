-- ===== src/Payments/Fixtures.antt =====
-- A host, a token contract and an opened payments contract, at which the theorems are run.
use zicket_contract.Base.{
  ◌==◌, if◌then◌else◌, unwrap_or, Address, Env, ℕ, ◌+◌, ap, sym, true, false, ◌&&◌, Option, none,
  some, [],
}
use zicket_contract.Base.Int.{ℤ, pos, ◌+ℤ◌, ◌-ℤ◌}
use zicket_contract.Payments.Types.{EventConfig, Token, TokenLaws, Store}

-- Everybody has signed; the contract is address 99.
abbrev pub host_at : ℕ → Env
host_at sequence = record {
  authorized = λ _. true;
  timestamp = 1000;
  sequence = sequence;
  current_contract_address = 99;
  address_xdr = λ a. a;
  u64_xdr = λ n. n;
  attendance_xdr = λ e id o. id;
  append_bytes = λ a b. a + b;
  bytes_len = λ b. b;
  prefix_bytes = λ b n. b;
  sha256 = λ b. b;
  ed25519_verifies = λ k m sig. true;
}

-- A token contract that keeps a table of balances.
abbrev pub Balances : Type 0
Balances = Address → Address → ℤ

abbrev pub ledger : Token Balances
ledger = record {
  transfer = λ t a from to amount. some (λ b h.
      t b h
      -ℤ (if b == a && h == from then amount else pos 0)
      +ℤ (if b == a && h == to then amount else pos 0));
  balance = λ t a h. t a h;
}

pub ledger_laws : TokenLaws ledger
ledger_laws = record {
  moves = λ t t' a from to amount e b h. ap (λ (o : Option Balances). unwrap_or o t b h) (sym e);
}

-- Event 7 of organizer 4 lasts from ledger 100 to ledger 200.
abbrev pub concert : EventConfig
concert = record {
  organizer = 4;
  payout_token = 5;
  allow_anonymous = true;
  requires_verification = false;
  max_tickets_per_user = 2;
  max_supply = 10;
  sold_count = 0;
  event_start_ledger = 100;
  event_end_ledger = 200;
  withdrawal_delay_ledgers = 0;
  admin_delay_extension_ledgers = 0;
  cancel_ledger = none;
  withdrawable_ratio_bps = none;
  organizer_withdrawn = false;
  resale_royalty_bps = 0;
  max_resale_price = none;
  allow_free_ticket_transfer = true;
}

abbrev pub opened : Store Balances
opened = record {
  admin = some 1;
  accepted_token = some 5;
  event_contract = some 3;
  event_privacy = λ a. none;
  event_config = λ a. if a == 7 then some concert else none;
  payments = λ a. none;
  tickets = λ a. none;
  event_revenue = λ a. none;
  event_token_revenue = λ a b. none;
  supported_token = λ a. none;
  event_status = λ a. none;
  event_payment = λ a b. none;
  owner_ticket = λ a b. none;
  payer_payment = λ a b. none;
  withdrawal_record = λ a b. none;
  withdrawal_count = λ a. none;
  event_token = λ a b. none;
  event_token_index = λ a b. none;
  event_token_count = λ a. none;
  next_payment_id = none;
  next_ticket_id = none;
  platform_fee_bps = some 250;
  platform_wallet = none;
  platform_revenue = λ a. none;
  emission_privacy = λ a. none;
  escrow_meta = λ a. none;
  processed_nonce = λ a b. none;
  user_event_tickets = λ a b. none;
  paused = none;
  postpone_deadline = λ a. none;
  event_splits = λ a. none;
  split_settlement = λ a. none;
  split_withdrawn = λ a b. none;
  split_flagged = λ a b. none;
  resale_listing = λ a. none;
  ticket_contract = none;
  contract_version = none;
  legacy_event_payments = λ a. none;
  processed_nonce_hash = λ a b. none;
  user_event_tickets_hash = λ a b. none;
  spent_nullifier = λ a. none;
  dispute = λ a. none;
  event_disputes = λ a. none;
  total_payments = λ a. none;
  total_refunds = λ a. none;
  total_withdrawn = λ a. none;
  event_payment_index = λ a b. none;
  event_payments_count = λ a. none;
  payer_payment_index = λ a b. none;
  payer_payments_count = λ a. none;
  event_token_volume = λ a b. none;
  total_token_refunds = λ a b. none;
  total_token_withdrawn = λ a b. none;
  owner_ticket_index = λ a b. none;
  owner_tickets_count = λ a. none;
  tokens = λ a h. pos 1000;
  events = [];
}
