-- ===== src/Payments/Privacy.antt =====
-- What a purchase shows of its buyer: `build_payment_record`, `build_ticket` and the masks, in
-- contracts/payments/src.
use zicket_contract.Base.{Option-cases, ok, Bytes, Env, ℕ, ◌≡◌, refl, inl, inr, none, some, arith}
use zicket_contract.PrivacyUtils.{MaskedAddress, full, hashed}
use zicket_contract.Payments.Types.{PaymentPrivacy, PaymentRecord, standard, private, anonymous}
use zicket_contract.Payments.Identity.{
  salted_wallet_hash, build_payment_record, build_ticket, masked_payment_identity,
  masked_ticket_identity, PaymentParams,
}

-- The identity that a payment shows at a privacy level, and nothing else: the address of a standard
-- payment, the salted hash and stealth key of a private one, the commitment of an anonymous one.
abbrev pub ShowsOnly : PaymentPrivacy → Env → PaymentParams → PaymentRecord → Type 0
ShowsOnly standard env params p =
    (p.payer ≡ some params.payer)
    × (p.hashed_wallet ≡ none)
    × (p.stealth_delivery_key ≡ none)
    × (p.nullifier_commitment ≡ none)
ShowsOnly private env params p =
    (key : Bytes) × (params.stealth_delivery_key ≡ some key)
    × (p.stealth_delivery_key ≡ some key)
    × (p.hashed_wallet ≡ some (salted_wallet_hash env params.payer key))
    × (p.payer ≡ none)
    × (p.nullifier_commitment ≡ none)
ShowsOnly anonymous env params p =
    (commitment : Bytes) × (params.nullifier_commitment ≡ some commitment)
    × (p.nullifier_commitment ≡ some commitment)
    × (p.payer ≡ none)
    × (p.hashed_wallet ≡ none)
    × (p.stealth_delivery_key ≡ none)

-- The mask of a payment's events at a privacy level.
abbrev pub IsMaskOf : Env → PaymentParams → MaskedAddress → PaymentPrivacy → Type 0
IsMaskOf env params m standard = m ≡ full params.payer
IsMaskOf env params m private =
    (key : Bytes) × (params.stealth_delivery_key ≡ some key)
    × (m ≡ hashed (salted_wallet_hash env params.payer key))
IsMaskOf env params m anonymous =
    (commitment : Bytes) × (params.nullifier_commitment ≡ some commitment) × (m ≡ hashed commitment)

shown :
    (level : PaymentPrivacy) (env : Env) (params : PaymentParams) (payment_id ticket_id paid_at : ℕ)
    {p : PaymentRecord}
    → params.privacy_level ≡ level
    → build_payment_record env params payment_id paid_at ≡ ok p
    → ShowsOnly level env params p
      × IsMaskOf env params (masked_payment_identity p) level
      × (masked_ticket_identity (build_ticket p ticket_id) ≡ masked_payment_identity p)
unfolding build_payment_record masked_payment_identity masked_ticket_identity build_ticket
shown standard env params payment_id ticket_id paid_at l e = ground arith
shown private env params payment_id ticket_id paid_at l e =
    elim (Option-cases params.stealth_delivery_key) [
      | inl missing ↦ absurd (ground arith)
      | inr (key, found) ↦ (
        (key, found, ground arith, ground arith, ground arith, ground arith),
        (key, found, ground arith),
        ground arith,
      )
    ]
shown anonymous env params payment_id ticket_id paid_at l e =
    elim (Option-cases params.nullifier_commitment) [
      | inl missing ↦ absurd (ground arith)
      | inr (commitment, found) ↦ (
        (commitment, found, ground arith, ground arith, ground arith, ground arith),
        (commitment, found, ground arith),
        ground arith,
      )
    ]

-- A payment record that is built shows the one identity of its privacy level and no other, its
-- events are masked by that identity, and the ticket of the payment has the same mask.
pub build_payment_record_shows :
    (env : Env) (params : PaymentParams) (payment_id ticket_id paid_at : ℕ) {p : PaymentRecord}
    → build_payment_record env params payment_id paid_at ≡ ok p
    → ShowsOnly params.privacy_level env params p
      × IsMaskOf env params (masked_payment_identity p) params.privacy_level
      × (masked_ticket_identity (build_ticket p ticket_id) ≡ masked_payment_identity p)
build_payment_record_shows env params payment_id ticket_id paid_at e =
    shown params.privacy_level env params payment_id ticket_id paid_at refl e
