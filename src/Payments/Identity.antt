-- ===== src/Payments/Identity.antt =====
-- The payment and ticket records of a purchase, and how they are shown in events:
-- `PaymentParams`, `build_payment_record`, `build_ticket` and `private_wallet_hash` of lib.rs, and
-- the masks of events.rs, in contracts/payments/src.
use zicket_contract.Base.{
  ℕ, Bool, Option, none, some, ok, ◌>>=◌, ◌>>◌, err_if, ok_or, is_some, ◌||◌, Env, Address, Symbol,
  Bytes,
}
use zicket_contract.Base.Int.{ℤ, pos}
use zicket_contract.PrivacyUtils.{MaskedAddress, full, hashed}
use zicket_contract.Payments.Types.{
  PaymentPrivacy, anonymous, private, standard, PaymentRecord, Ticket, held, privacy_level_mismatch,
  missing_nullifier_commitment, missing_stealth_delivery_key,
}
use zicket_contract.Payments.Storage.{Call}

pub record PaymentParams : Type 0 where
  pub nonce : ℕ
  pub payer : Address
  pub event_id : Symbol
  pub amount : ℤ
  pub token_address : Address
  pub is_anonymous : Bool
  pub is_verified : Bool
  pub privacy_level : PaymentPrivacy
  pub email_hash : Option Bytes
  pub zk_email_commitment : Option Bytes
  pub nullifier_commitment : Option Bytes
  pub stealth_delivery_key : Option Bytes

-- What the three arms of `build_payment_record` share; the arguments that differ come first.
abbrev pub held_payment :
    Option Address
    → Option Bytes
    → Option Bytes
    → Option Bytes
    → PaymentParams
    → ℕ
    → ℕ
    → PaymentRecord
held_payment payer wallet stealth_key commitment params payment_id paid_at = record {
  payment_id = payment_id;
  event_id = params.event_id;
  payer = payer;
  hashed_wallet = wallet;
  stealth_delivery_key = stealth_key;
  nullifier_commitment = commitment;
  amount = params.amount;
  token = params.token_address;
  status = held;
  paid_at = paid_at;
  privacy_level = params.privacy_level;
  refunded_amount = pos 0;
  zk_email_commitment = params.zk_email_commitment;
}

-- The wallet hash of a private payment, salted with the stealth key.
abbrev pub salted_wallet_hash : Env → Address → Bytes → Bytes
salted_wallet_hash env payer stealth_key =
    env.sha256 (env.append_bytes (env.address_xdr payer) stealth_key)

unfoldable pub build_payment_record : Env → PaymentParams → ℕ → ℕ → Call PaymentRecord
build_payment_record env params payment_id paid_at = elim (params.privacy_level) [
  | anonymous ↦
      err_if (is_some params.stealth_delivery_key) privacy_level_mismatch
      >> ok_or params.nullifier_commitment missing_nullifier_commitment
      >>= λ commitment. ok (held_payment none none none (some commitment) params payment_id paid_at)
  | private ↦
      err_if (is_some params.nullifier_commitment) privacy_level_mismatch
      >> ok_or params.stealth_delivery_key missing_stealth_delivery_key
      >>= λ stealth_key. ok (
          held_payment none (some (salted_wallet_hash env params.payer stealth_key))
            (some stealth_key) none params payment_id paid_at)
  | standard ↦
      err_if (is_some params.nullifier_commitment || is_some params.stealth_delivery_key)
        privacy_level_mismatch
      >> ok (held_payment (some params.payer) none none none params payment_id paid_at)
]

unfoldable pub build_ticket : PaymentRecord → ℕ → Ticket
build_ticket payment ticket_id = record {
  ticket_id = ticket_id;
  event_id = payment.event_id;
  owner = payment.payer;
  hashed_owner = payment.hashed_wallet;
  nullifier_commitment = payment.nullifier_commitment;
  payment_id = payment.payment_id;
  privacy_level = payment.privacy_level;
}

unfoldable pub private_wallet_hash : Env → Address → Bytes
private_wallet_hash env payer = env.sha256 (env.address_xdr payer)

-- `BytesN::from_array(env, &[0u8; 32])`
abbrev pub zero_hash : Bytes
zero_hash = 0

abbrev pub mask_full : Option Address → MaskedAddress
mask_full none = hashed zero_hash
mask_full (some address) = full address

abbrev pub mask_hash : Option Bytes → MaskedAddress
mask_hash none = hashed zero_hash
mask_hash (some hash) = hashed hash

unfoldable pub masked_payment_identity : PaymentRecord → MaskedAddress
masked_payment_identity payment = elim (payment.privacy_level) [
  | standard ↦ mask_full payment.payer
  | private ↦ mask_hash payment.hashed_wallet
  | anonymous ↦ mask_hash payment.nullifier_commitment
]

unfoldable pub masked_ticket_identity : Ticket → MaskedAddress
masked_ticket_identity ticket = elim (ticket.privacy_level) [
  | standard ↦ mask_full ticket.owner
  | private ↦ mask_hash ticket.hashed_owner
  | anonymous ↦ mask_hash ticket.nullifier_commitment
]
