-- ===== src/CommonUtils/Splits.antt =====
-- validation.rs and revenue.rs of contracts/common-utils/src. A split configuration is a list of
-- recipients with their basis points; an index below the length always reads an entry, so the
-- errors for a missing entry do not arise.
use zicket_contract.Base.{
  ℕ, ◌+◌, Bool, false, ◌||◌, Option, none, some, List, [], ◌∷◌, ltb, leb, ◌==◌, not, if◌then◌else◌,
  Outcome, ok, ◌>>=◌, ◌>>◌, err_if, ok_or, is_some, u32_max, Address, length,
}
use zicket_contract.Base.Int.{ℤ, pos, ◌+ℤ◌, ◌-ℤ◌, eqb_ℤ, of_bps}

abbrev pub max_revenue_split_recipients : ℕ
max_revenue_split_recipients = 5

abbrev pub total_basis_points : ℕ
total_basis_points = 10000

-- `Vec<(Address, u32)>`
abbrev pub Splits : Type 0
Splits = List (Address × ℕ)

unfoldable pub is_valid_basis_points : ℕ → Bool
is_valid_basis_points bps = leb bps total_basis_points

-- `u32::checked_add`
abbrev pub checked_add : ℕ → ℕ → Option ℕ
checked_add a b = if ltb u32_max (a + b) then none else some (a + b)

sum_loop : ℕ → List ℕ → Option ℕ
sum_loop total [] = some total
sum_loop total (bps ∷ values) = elim (checked_add total bps) [
  | none ↦ none
  | some total' ↦ sum_loop total' values
]

unfoldable pub validate_basis_points_sum : List ℕ → Option ℕ
unfolding sum_loop
validate_basis_points_sum values = sum_loop 0 values

-- The error strings of `validate_revenue_splits`.
pub data SplitError : Type 0 where
  too_many_recipients first_not_organizer zero_basis_points sum_overflow : SplitError
  duplicate_recipient sum_not_total : SplitError

-- Whether the address is among the recipients, the inner loop over `0..i`.
abbrev pub has_recipient : Address → Splits → Bool
has_recipient a [] = false
has_recipient a ((other, _) ∷ splits) = other == a || has_recipient a splits

-- The loop of `validate_revenue_splits`: the entries before `i`, the sum so far, and those from `i`.
unfoldable pub validate_loop : Splits → ℕ → Splits → Outcome SplitError ℕ
validate_loop seen total [] = ok total
validate_loop seen total ((recipient, bps) ∷ rest) =
    err_if (bps == 0) zero_basis_points >> ok_or (checked_add total bps) sum_overflow >>= λ total'.
    err_if (has_recipient recipient seen) duplicate_recipient
    >> validate_loop ((recipient, bps) ∷ seen) total' rest

unfoldable pub validate_revenue_splits : Splits → Address → Outcome SplitError (Unit {0})
unfolding validate_loop
validate_revenue_splits [] organizer = ok tt
validate_revenue_splits ((first, bps) ∷ rest) organizer = do
  err_if (ltb max_revenue_split_recipients (length ((first, bps) ∷ rest))) too_many_recipients
  err_if (not (first == organizer)) first_not_organizer
  total ← validate_loop [] 0 ((first, bps) ∷ rest)
  err_if (not (total == total_basis_points)) sum_not_total

unfoldable pub find_recipient_basis_points : Splits → Address → Option ℕ
find_recipient_basis_points [] recipient = none
find_recipient_basis_points ((addr, bps) ∷ splits) recipient =
    if addr == recipient then some bps else find_recipient_basis_points splits recipient

unfoldable pub is_split_recipient : Splits → Address → Bool
is_split_recipient splits address = is_some (find_recipient_basis_points splits address)

-- The loop over `1..splits.len()` for the primary organizer.
unfoldable pub others_total : ℤ → Splits → ℤ → ℤ
others_total acc [] net_amount = acc
others_total acc ((_, bps) ∷ splits) net_amount =
    others_total (acc +ℤ of_bps net_amount bps) splits net_amount

unfoldable pub calculate_recipient_share : Splits → Address → Address → ℤ → ℤ
calculate_recipient_share [] recipient organizer net_amount =
    if recipient == organizer then net_amount else pos 0
calculate_recipient_share ((primary, bps) ∷ others) recipient organizer net_amount =
    if recipient == primary
    then net_amount -ℤ others_total (pos 0) others net_amount
    else elim (find_recipient_basis_points ((primary, bps) ∷ others) recipient) [
      | some found ↦ of_bps net_amount found
      | none ↦ pos 0
    ]

unfoldable pub calculate_platform_fee : ℤ → ℕ → ℤ
calculate_platform_fee gross_amount platform_fee_bps = of_bps gross_amount platform_fee_bps

unfoldable pub calculate_net_amount : ℤ → ℕ → ℤ
unfolding calculate_platform_fee
calculate_net_amount gross_amount platform_fee_bps =
    gross_amount -ℤ calculate_platform_fee gross_amount platform_fee_bps

-- The loop of `calculate_all_shares` over the entries that are left.
unfoldable pub shares_of : Splits → Splits → Address → ℤ → List (Address × ℤ)
shares_of splits [] organizer net_amount = []
shares_of splits ((recipient, _) ∷ rest) organizer net_amount =
    (recipient, calculate_recipient_share splits recipient organizer net_amount)
    ∷ shares_of splits rest organizer net_amount

unfoldable pub calculate_all_shares : Splits → Address → ℤ → List (Address × ℤ)
unfolding shares_of
calculate_all_shares [] organizer net_amount = (organizer, net_amount) ∷ []
calculate_all_shares (e ∷ rest) organizer net_amount =
    shares_of (e ∷ rest) (e ∷ rest) organizer net_amount

unfoldable pub shares_sum : ℤ → List (Address × ℤ) → ℤ
shares_sum sum [] = sum
shares_sum sum ((_, amount) ∷ shares) = shares_sum (sum +ℤ amount) shares

unfoldable pub verify_shares_sum : List (Address × ℤ) → ℤ → Bool
unfolding shares_sum
verify_shares_sum shares expected_total = eqb_ℤ (shares_sum (pos 0) shares) expected_total
