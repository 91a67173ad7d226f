-- ===== src/CommonUtils/Tests.antt =====
-- The theorems on revenue splits at a configuration of three recipients.
use zicket_contract.Base.{◌≡◌, ◌↔◌, refl, true, [], ◌∷◌, arith, ok}
use zicket_contract.Base.Int.{pos, negsuc, ◌≤ℤ◌, of_bps, ◌+ℤ◌, ◌-ℤ◌}
use zicket_contract.CommonUtils.Splits.{
  Splits, validate_revenue_splits, calculate_recipient_share, calculate_all_shares,
  verify_shares_sum, shares_of, find_recipient_basis_points, others_total,
}
use zicket_contract.CommonUtils.Validation.{IsSplitConfig, validate_revenue_splits_iff}
use zicket_contract.CommonUtils.Shares.{verify_shares_sum_all, primary_share_bounds}

abbrev others : Splits
others = (2, 3333) ∷ (3, 3333) ∷ []

abbrev thirds : Splits
thirds = (1, 3334) ∷ others

thirds-IsSplitConfig : IsSplitConfig 1 thirds
thirds-IsSplitConfig = record {
  few = omega arith;
  primary = (3334, others, refl);
  distinct = ground arith;
  whole = refl;
}

-- The organizer takes what the rounding leaves.
shares_of_thirds :
    calculate_all_shares thirds 1 (pos 100) ≡ (1, pos 34) ∷ (2, pos 33) ∷ (3, pos 33) ∷ []
unfolding calculate_all_shares shares_of calculate_recipient_share find_recipient_basis_points
    others_total of_bps ◌+ℤ◌ ◌-ℤ◌
shares_of_thirds = refl

validate_revenue_splits_iff_example :
    (validate_revenue_splits thirds 1 ≡ ok tt) ↔ IsSplitConfig 1 thirds
validate_revenue_splits_iff_example = validate_revenue_splits_iff 1 3334 others 1

verify_shares_sum_all_example :
    verify_shares_sum (calculate_all_shares thirds 1 (negsuc 6)) (negsuc 6) ≡ true
verify_shares_sum_all_example = verify_shares_sum_all thirds 1 (negsuc 6) thirds-IsSplitConfig

primary_share_bounds_example :
    (of_bps (pos 100) 3334 ≤ℤ calculate_recipient_share thirds 1 1 (pos 100))
    × (calculate_recipient_share thirds 1 1 (pos 100) ≤ℤ pos 100)
primary_share_bounds_example = primary_share_bounds 3334 100 others 1 thirds-IsSplitConfig
