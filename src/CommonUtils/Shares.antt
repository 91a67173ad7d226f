-- ===== src/CommonUtils/Shares.antt =====
-- The shares of contracts/common-utils/src/validation.rs and revenue.rs leave no dust: they sum to
-- the net amount.
use zicket_contract.Base.{
  ℕ, ◌+◌, ◌*◌, ◌/◌, ◌≤◌, ◌≡◌, refl, ap, ◌∙◌, true, false, some, [], ◌∷◌, arith, Address, eq_self,
}
use zicket_contract.Base.Int.{ℤ, pos, ◌+ℤ◌, ◌-ℤ◌, ◌≤ℤ◌, of_bps, int_laws}
use zicket_contract.CommonUtils.Splits.{
  Splits, has_recipient, find_recipient_basis_points, others_total, calculate_recipient_share,
  shares_of, calculate_all_shares, shares_sum, verify_shares_sum,
}
use zicket_contract.CommonUtils.Validation.{sum_bps, IsDistinct, IsSplitConfig}

others_total-acc :
    (acc : ℤ) (splits : Splits) (net : ℤ)
    → others_total acc splits net ≡ acc +ℤ others_total (pos 0) splits net
unfolding others_total
others_total-acc acc [] net = omega int_laws
others_total-acc acc ((a, bps) ∷ splits) net =
    rw
      (
        others_total-acc (acc +ℤ of_bps net bps) splits net,
        others_total-acc (pos 0 +ℤ of_bps net bps) splits net,
      )
      (omega int_laws)

-- Each entry of the second list is what a search of the first one finds.
abbrev IsFound : Splits → Splits → Type 0
IsFound splits [] = Unit
IsFound splits ((a, bps) ∷ rest) =
    (find_recipient_basis_points splits a ≡ some bps) × IsFound splits rest

IsFound-cons :
    (a : Address) (bps : ℕ) (splits rest : Splits)
    → has_recipient a rest ≡ false
    → IsFound splits rest
    → IsFound ((a, bps) ∷ splits) rest
unfolding find_recipient_basis_points
IsFound-cons a bps splits [] new f = tt
IsFound-cons a bps splits ((c, d) ∷ rest) new f =
    (ground arith, IsFound-cons a bps splits rest (ground arith) f.1)

IsFound-self : (splits : Splits) → IsDistinct splits → IsFound splits splits
unfolding find_recipient_basis_points
IsFound-self [] d = tt
IsFound-self ((a, bps) ∷ rest) d =
    (ground arith, IsFound-cons a bps rest rest d.1 (IsFound-self rest d.2))

module _ (primary : Address) (bps : ℕ) (others : Splits) (organizer : Address) (net : ℤ) where
  -- The shares of the other recipients add up as the primary's remainder counts them.
  shares_sum-others :
      (acc : ℤ) (rest : Splits)
      → has_recipient primary rest ≡ false
      → IsFound ((primary, bps) ∷ others) rest
      → shares_sum acc (shares_of ((primary, bps) ∷ others) rest organizer net)
        ≡ others_total acc rest net
  unfolding shares_sum shares_of others_total calculate_recipient_share
  shares_sum-others acc [] new f = refl
  shares_sum-others acc ((a, b) ∷ rest) new f =
      ground (arith, shares_sum-others (acc +ℤ of_bps net b) rest)

  -- With distinct recipients the shares sum to the net amount, whatever its sign.
  shares_sum-all :
      IsDistinct ((primary, bps) ∷ others)
      → shares_sum (pos 0) (calculate_all_shares ((primary, bps) ∷ others) organizer net) ≡ net
  unfolding shares_sum shares_of calculate_all_shares calculate_recipient_share
  shares_sum-all d =
      let acc = pos 0 +ℤ (net -ℤ others_total (pos 0) others net) in
      rw (eq_self primary) (
        shares_sum-others acc others d.1 (IsFound-self ((primary, bps) ∷ others) d).1
        ∙ others_total-acc acc others net
        ∙ omega int_laws)

-- For a configuration that meets the rules, the shares of all recipients sum to the net amount
-- exactly, whatever its sign.
pub verify_shares_sum_all :
    (splits : Splits) (organizer : Address) (net : ℤ)
    → IsSplitConfig organizer splits
    → verify_shares_sum (calculate_all_shares splits organizer net) net ≡ true
unfolding verify_shares_sum
verify_shares_sum_all [] organizer net c = ground (arith, c.primary.2)
verify_shares_sum_all ((a, bps) ∷ rest) organizer net c =
    rw (shares_sum-all a bps rest organizer net c.distinct) (ground arith)

-- The rounded-down shares of a list of recipients.
floor_sum : ℕ → Splits → ℕ
floor_sum n [] = 0
floor_sum n ((_, bps) ∷ splits) = n * bps / 10000 + floor_sum n splits

others_total-floor_sum :
    (acc n : ℕ) (splits : Splits)
    → others_total (pos acc) splits (pos n) ≡ pos (acc + floor_sum n splits)
unfolding others_total floor_sum of_bps ◌+ℤ◌
others_total-floor_sum acc n [] = ground arith
others_total-floor_sum acc n ((a, bps) ∷ splits) =
    ground (arith, others_total-floor_sum (acc + n * bps / 10000) n splits)

floor_sum_bound : (n : ℕ) (splits : Splits) → 10000 * floor_sum n splits ≤ n * sum_bps splits
unfolding floor_sum
floor_sum_bound n [] = omega arith
floor_sum_bound n ((a, bps) ∷ splits) = grind (arith, floor_sum_bound n splits)

-- For a configuration that meets the rules and a net amount of zero or more, the primary
-- organizer's share is at least its rounded-down allocation and at most the net amount.
pub primary_share_bounds :
    (bps n : ℕ) (rest : Splits) (organizer : Address)
    → IsSplitConfig organizer ((organizer, bps) ∷ rest)
    → (of_bps (pos n) bps
        ≤ℤ calculate_recipient_share ((organizer, bps) ∷ rest) organizer organizer (pos n))
      × (calculate_recipient_share ((organizer, bps) ∷ rest) organizer organizer (pos n) ≤ℤ pos n)
unfolding calculate_recipient_share of_bps ◌-ℤ◌
primary_share_bounds bps n rest organizer c =
    let total = others_total-floor_sum 0 n rest in
    let bound = floor_sum_bound n rest in
    let fits : n * bps / 10000 + floor_sum n rest ≤ n =
      omega (arith, bound, ap (λ (k : ℕ). n * k) c.whole) in
    rw (eq_self organizer, total) (ground arith)
