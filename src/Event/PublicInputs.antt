-- ===== src/Event/PublicInputs.antt =====
-- The public inputs of an anonymous claim, `anonymous_claim_scope`, `append_u32_field` and
-- `anonymous_claim_public_inputs` of contracts/event/src/lib.rs. A byte string is here the list of
-- its bytes; the host's encodings and its hash are parameters.
use zicket_contract.Base.{
  Address, Symbol, Bytes, Env, ℕ, zero, suc, ◌/◌, ◌%◌, Bool, Option, List, [], ◌∷◌, ◌++◌,
}
use zicket_contract.Event.Types.{AnonymousTicketClaim}

-- What the claims use of the host, and the verifier contract: `none` where its call fails.
pub record Codec : Type 0 where
  pub network_id : List ℕ
  pub address_bytes : Address → List ℕ
  pub symbol_bytes : Symbol → List ℕ
  pub sha256_bytes : List ℕ → List ℕ
  -- `BytesN<32>::to_array`
  pub to_array : Bytes → List ℕ
  pub verify : Address → Bytes → List ℕ → Option Bool

-- `ANONYMOUS_CLAIM_DOMAIN`: "zicket:anonymous-ticket-claim:v1"
abbrev anonymous_claim_domain : List ℕ
anonymous_claim_domain =
    122 ∷ 105 ∷ 99 ∷ 107 ∷ 101 ∷ 116 ∷ 58 ∷ 97 ∷ 110 ∷ 111 ∷ 110 ∷ 121 ∷ 109 ∷ 111 ∷ 117 ∷ 115 ∷ 45
    ∷ 116 ∷ 105 ∷ 99 ∷ 107 ∷ 101 ∷ 116 ∷ 45 ∷ 99 ∷ 108 ∷ 97 ∷ 105 ∷ 109 ∷ 58 ∷ 118 ∷ 49 ∷ []

-- `[0u8; n]`
unfoldable pub zeros : ℕ → List ℕ
zeros zero = []
zeros (suc n) = 0 ∷ zeros n

-- `array[..n].fill(0)`
unfoldable pub fill_zero : ℕ → List ℕ → List ℕ
fill_zero zero bytes = bytes
fill_zero (suc n) [] = []
fill_zero (suc n) (_ ∷ bytes) = 0 ∷ fill_zero n bytes

-- `u32::to_be_bytes`
unfoldable pub to_be_bytes : ℕ → List ℕ
to_be_bytes value = value / 16777216 ∷ value / 65536 % 256 ∷ value / 256 % 256 ∷ value % 256 ∷ []

-- The 32 bytes that `append_u32_field` appends.
unfoldable pub u32_field : ℕ → List ℕ
unfolding zeros to_be_bytes
u32_field value = zeros 28 ++ to_be_bytes value

unfoldable pub anonymous_claim_scope : Env → Codec → Symbol → List ℕ
unfolding fill_zero
anonymous_claim_scope env codec event_id = fill_zero 16 (
    codec.sha256_bytes (
      anonymous_claim_domain
      ++ codec.network_id
      ++ codec.address_bytes env.current_contract_address
      ++ codec.symbol_bytes event_id))

unfoldable pub anonymous_claim_public_inputs :
    Env → Codec → Symbol → ℕ → AnonymousTicketClaim → List ℕ
unfolding anonymous_claim_scope u32_field
anonymous_claim_public_inputs env codec event_id tier_id claim =
    anonymous_claim_scope env codec event_id
    ++ (u32_field tier_id
        ++ (u32_field claim.expiry_ledger
            ++ (codec.to_array claim.nullifier ++ codec.to_array claim.ticket_commitment)))
