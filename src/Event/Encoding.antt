-- ===== src/Event/Encoding.antt =====
-- The public inputs of an anonymous claim determine the claim: `anonymous_claim_public_inputs` of
-- contracts/event/src/lib.rs.
use zicket_contract.Base.{
  Symbol, Bytes, Env, length, ℕ, ◌≡◌, refl, sym, ◌∙◌, List, [], ◌∷◌, ◌++◌, arith,
}
use zicket_contract.Event.Types.{AnonymousTicketClaim}
use zicket_contract.Event.PublicInputs.{
  zeros, to_be_bytes, u32_field, anonymous_claim_scope, anonymous_claim_public_inputs, Codec,
}

-- `BytesN<32>::to_array` gives 32 bytes, and different ones for different values.
pub record IsFaithful (codec : Codec) : Type 0 where
  pub len : (b : Bytes) → length (codec.to_array b) ≡ 32
  pub injective : (b c : Bytes) → codec.to_array b ≡ codec.to_array c → b ≡ c

cons_inj : {x y : ℕ} {xs ys : List ℕ} → ◌≡◌ {A = List ℕ} (x ∷ xs) (y ∷ ys) → (x ≡ y) × (xs ≡ ys)
cons_inj e = (cc, cc)

-- Two lists that agree after prefixes of one length agree in both parts.
split_inj : (a b c d : List ℕ) → length a ≡ length b → a ++ c ≡ b ++ d → (a ≡ b) × (c ≡ d)
split_inj [] [] c d same e = (refl, e)
split_inj [] (y ∷ b) c d same e = absurd (ground arith)
split_inj (x ∷ a) [] c d same e = absurd (ground arith)
split_inj (x ∷ a) (y ∷ b) c d same e =
    let (head, tail) = cons_inj e in
    let (rest, last) = split_inj a b c d (omega arith) tail in (rw (head, rest) refl, last)

prefix_inj : (a b c : List ℕ) → a ++ b ≡ a ++ c → b ≡ c
prefix_inj a b c e = (split_inj a a b c refl e).1

-- The four bytes of a u32 determine it.
to_be_bytes_inj : (m n : ℕ) → to_be_bytes m ≡ to_be_bytes n → m ≡ n
unfolding to_be_bytes
to_be_bytes_inj m n e =
    let (a, e₁) = cons_inj e in
    let (b, e₂) = cons_inj e₁ in
    let (c, e₃) = cons_inj e₂ in let (d, _) = cons_inj e₃ in omega arith

u32_field_inj : (m n : ℕ) → u32_field m ≡ u32_field n → m ≡ n
unfolding u32_field
u32_field_inj m n e = to_be_bytes_inj m n (prefix_inj (zeros 28) _ _ e)

length-u32_field : (n : ℕ) → length (u32_field n) ≡ 32
unfolding u32_field to_be_bytes zeros
length-u32_field n = refl

-- If the host gives the 32 bytes of a hash value, different ones for different values, two claims
-- at one event of one contract with the same public inputs are for the same tier, expiry, nullifier
-- and ticket commitment.
pub public_inputs_determine :
    (env : Env) (codec : Codec) (event_id : Symbol) (tier_id tier_id' : ℕ)
    (claim claim' : AnonymousTicketClaim)
    → IsFaithful codec
    → anonymous_claim_public_inputs env codec event_id tier_id claim
      ≡ anonymous_claim_public_inputs env codec event_id tier_id' claim'
    → (tier_id ≡ tier_id')
      × (claim.expiry_ledger ≡ claim'.expiry_ledger)
      × (claim.nullifier ≡ claim'.nullifier)
      × (claim.ticket_commitment ≡ claim'.ticket_commitment)
unfolding anonymous_claim_public_inputs
public_inputs_determine env codec event_id tier_id tier_id' claim claim' faithful e =
    let all = prefix_inj (anonymous_claim_scope env codec event_id) _ _ e in
    let (tier, e₁) =
      split_inj (u32_field tier_id) (u32_field tier_id') _ _
        (length-u32_field tier_id ∙ sym (length-u32_field tier_id')) all in
    let (expiry, e₂) =
      split_inj (u32_field claim.expiry_ledger) (u32_field claim'.expiry_ledger) _ _
        (length-u32_field claim.expiry_ledger ∙ sym (length-u32_field claim'.expiry_ledger)) e₁ in
    let (nullifier, commitment) =
      split_inj (codec.to_array claim.nullifier) (codec.to_array claim'.nullifier) _ _
        (faithful.len claim.nullifier ∙ sym (faithful.len claim'.nullifier)) e₂ in
    (
      u32_field_inj tier_id tier_id' tier,
      u32_field_inj _ _ expiry,
      faithful.injective _ _ nullifier,
      faithful.injective _ _ commitment,
    )
