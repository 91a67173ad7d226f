-- ===== src/Base/Host.antt =====
-- What a contract reads of the Soroban host during one invocation: the ledger, the authorizations
-- of the transaction, and the host's encoding and cryptography, which are parameters.
use mathlib.Core.Bool.{Bool, ◌||◌}
use Prim.Native.Nat.{ℕ}
use zicket_contract.Base.Maps.{Address, Symbol, Bytes}
use zicket_contract.Base.Monad.{Outcome, require, ok, err, trap}
use zicket_contract.Base.Tests.{◌==◌}

pub record Env : Type 0 where
  -- Who has authorized this invocation: `a.require_auth()` panics for anybody else.
  pub authorized : Address → Bool
  -- `env.ledger().timestamp()` and `env.ledger().sequence()`
  pub timestamp : ℕ
  pub sequence : ℕ
  pub current_contract_address : Address
  -- `to_xdr` of an address, of a u64, and of the triple (event, ticket, owner)
  pub address_xdr : Address → Bytes
  pub u64_xdr : ℕ → Bytes
  pub attendance_xdr : Symbol → ℕ → Address → Bytes
  -- `Bytes::append`, `Bytes::len` and `Bytes::slice(0..n)`
  pub append_bytes : Bytes → Bytes → Bytes
  pub bytes_len : Bytes → ℕ
  pub prefix_bytes : Bytes → ℕ → Bytes
  pub sha256 : Bytes → Bytes
  -- Whether `ed25519_verify(key, message, signature)` returns; it panics otherwise.
  pub ed25519_verifies : Bytes → Bytes → Bytes → Bool

abbrev pub require_auth : {E : Type 0} → Env → Address → Outcome E (Unit {0})
require_auth env a = require (env.authorized a)

-- What a contract that is called sees: the caller has authorized the call, and the transaction's
-- authorizations cover it.
abbrev pub call_env : Env → Address → Env
call_env env callee = record env {
  current_contract_address = callee;
  authorized = λ a. a == env.current_contract_address || env.authorized a;
}

-- A call of another contract through its client, which panics where the callee fails.
abbrev pub invoke : {E F A : Type 0} → Outcome E A → Outcome F A
invoke (ok a) = ok a
invoke (err e) = trap
invoke trap = trap

-- The `try_` form of a call whose result is dropped: a failure rolls the callee back.
abbrev pub try_invoke : {E A : Type 0} → Outcome E A → A → A
try_invoke (ok a) b = a
try_invoke (err e) b = b
try_invoke trap b = b
