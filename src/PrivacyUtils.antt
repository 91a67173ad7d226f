-- ===== src/PrivacyUtils.antt =====
-- contracts/privacy-utils/src/lib.rs: how an address is shown in an event.
use zicket_contract.Base.{Env, Address, Bytes}
use Prim.Native.Nat.{min}

pub data PrivacyLevel : Type 0 where
  standard private anonymous : PrivacyLevel

pub data MaskedAddress : Type 0 where
  full : Address → MaskedAddress
  partial : Bytes → MaskedAddress
  hashed : Bytes → MaskedAddress

unfoldable pub mask_address : Env → Address → PrivacyLevel → MaskedAddress
mask_address env address standard = full address
mask_address env address private =
    let xdr = env.address_xdr address in partial (env.prefix_bytes xdr (min 8 (env.bytes_len xdr)))
mask_address env address anonymous = hashed (env.sha256 (env.address_xdr address))
