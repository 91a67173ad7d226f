-- ===== src/Ticket/Admin.antt =====
-- The administration of the ticket contract, contracts/ticket/src/lib.rs: who may configure it, and
-- the version that `migrate` counts up.
use zicket_contract.Base.{
  ℕ, ◌==◌, not, ok, err, ◌>>=◌, ◌>>◌, err_if, add_u32, Env, require_auth, Address, is_some, ltb,
  if◌then◌else◌,
}
use zicket_contract.Ticket.Types.{unauthorized, unsupported_version, Store}
use zicket_contract.Ticket.Storage.{
  Call, get_admin, set_admin, get_contract_version, set_contract_version,
}
use zicket_contract.Ticket.Storage

unfoldable pub initialize : Env → Address → Address → Store → Call Store
unfolding set_admin Storage.set_payments_contract
initialize env admin payments_contract s = do
  err_if (is_some s.admin) unauthorized
  require_auth env admin
  ok (Storage.set_payments_contract payments_contract (set_admin admin s))

unfoldable pub set_payments_contract : Env → Address → Address → Store → Call Store
unfolding get_admin Storage.set_payments_contract
set_payments_contract env admin payments_contract s = do
  require_auth env admin
  stored_admin ← get_admin s
  err_if (not (admin == stored_admin)) unauthorized
  ok (Storage.set_payments_contract payments_contract s)

unfoldable pub set_event_contract : Env → Address → Address → Store → Call Store
unfolding get_admin Storage.set_event_contract
set_event_contract env admin event_contract s = do
  require_auth env admin
  stored_admin ← get_admin s
  err_if (not (admin == stored_admin)) unauthorized
  ok (Storage.set_event_contract event_contract s)

-- The versions 0, 1 and 2 are counted up by one; any other is refused.
unfoldable pub migrate : Env → Address → Store → Call (ℕ × Store)
unfolding get_admin get_contract_version set_contract_version
migrate env caller s = do
  require_auth env caller
  admin ← get_admin s
  err_if (not (caller == admin)) unauthorized
  let current_version = get_contract_version s
  new_version ← add_u32 current_version 1
  if ltb current_version 3
      then ok (new_version, set_contract_version new_version s)
      else err unsupported_version
