-- ===== src/CommonUtils/Validation.antt =====
-- What `validate_revenue_splits` of contracts/common-utils/src/validation.rs accepts.
use zicket_contract.Base.{
  ℕ, ◌+◌, ◌≤◌, ◌<◌, ◌≡◌, ◌↔◌, refl, inl, inr, false, [], ◌∷◌, arith, ok, u32_max, Address, length,
  Outcome-cases,
}
use zicket_contract.CommonUtils.Splits.{
  Splits, has_recipient, validate_loop, validate_revenue_splits,
}

abbrev pub sum_bps : Splits → ℕ
sum_bps [] = 0
sum_bps ((_, bps) ∷ splits) = bps + sum_bps splits

-- No allocation is zero, and no recipient stands twice.
abbrev pub IsDistinct : Splits → Type 0
IsDistinct [] = Unit
IsDistinct ((a, bps) ∷ splits) = (0 < bps) × (has_recipient a splits ≡ false) × IsDistinct splits

-- What the feature asks of a configuration of at least one recipient.
pub record IsSplitConfig (organizer : Address) (splits : Splits) : Type 0 where
  pub few : length splits ≤ 5
  pub primary : (bps : ℕ) × (rest : Splits) × (splits ≡ (organizer, bps) ∷ rest)
  pub distinct : IsDistinct splits
  pub whole : sum_bps splits ≡ 10000

-- Nobody in `splits` is among those seen before.
abbrev IsNew : Splits → Splits → Type 0
IsNew seen [] = Unit
IsNew seen ((a, bps) ∷ splits) = (has_recipient a seen ≡ false) × IsNew seen splits

IsNew-cons :
    (a : Address) (bps : ℕ) (seen splits : Splits)
    → has_recipient a splits ≡ false
    → IsNew seen splits
    → IsNew ((a, bps) ∷ seen) splits
IsNew-cons a bps seen [] h n = tt
IsNew-cons a bps seen ((c, d) ∷ splits) h n =
    (ground arith, IsNew-cons a bps seen splits (ground arith) n.1)

IsNew-tail :
    (a : Address) (bps : ℕ) (seen splits : Splits)
    → IsNew ((a, bps) ∷ seen) splits
    → IsNew seen splits × (has_recipient a splits ≡ false)
IsNew-tail a bps seen [] n = (tt, refl)
IsNew-tail a bps seen ((c, d) ∷ splits) n =
    let rest = IsNew-tail a bps seen splits n.1 in ((ground arith, rest.0), ground arith)

IsNew-nil : (splits : Splits) → IsNew [] splits
IsNew-nil [] = tt
IsNew-nil (e ∷ splits) = (refl, IsNew-nil splits)

validate_loop_sound :
    (seen : Splits) (total : ℕ) (splits : Splits) {t : ℕ}
    → validate_loop seen total splits ≡ ok t
    → IsNew seen splits × IsDistinct splits × (t ≡ total + sum_bps splits)
unfolding validate_loop
validate_loop_sound seen total [] e = (tt, tt, ground arith)
validate_loop_sound seen total ((a, bps) ∷ rest) {t} e =
    let step : validate_loop ((a, bps) ∷ seen) (total + bps) rest ≡ ok t = ground arith in
    let ih = validate_loop_sound ((a, bps) ∷ seen) (total + bps) rest step in
    let tail = IsNew-tail a bps seen rest ih.0 in
    ((ground arith, tail.0), (ground arith, tail.1, ih.1), omega (arith, ih.2))

validate_loop_complete :
    (seen : Splits) (total : ℕ) (splits : Splits)
    → IsNew seen splits
    → IsDistinct splits
    → total + sum_bps splits ≤ u32_max
    → validate_loop seen total splits ≡ ok (total + sum_bps splits)
unfolding validate_loop
validate_loop_complete seen total [] n d fits = ground arith
validate_loop_complete seen total ((a, bps) ∷ rest) n d fits =
    let ih =
      validate_loop_complete ((a, bps) ∷ seen) (total + bps) rest
        (IsNew-cons a bps seen rest d.1 n.1) d.2 (omega arith) in
    ground (arith, ih)

-- A configuration with at least one recipient is accepted exactly when it has at most five, the
-- organizer comes first, every allocation is positive, no recipient is repeated, and the basis
-- points sum to 10000.
pub validate_revenue_splits_iff :
    (a : Address) (bps : ℕ) (rest : Splits) (organizer : Address)
    → (validate_revenue_splits ((a, bps) ∷ rest) organizer ≡ ok tt)
      ↔ IsSplitConfig organizer ((a, bps) ∷ rest)
unfolding validate_revenue_splits
validate_revenue_splits_iff a bps rest organizer = (sound, complete)
  where
    splits : Splits
    splits = (a, bps) ∷ rest

    sound : validate_revenue_splits splits organizer ≡ ok tt → IsSplitConfig organizer splits
    sound e = elim (Outcome-cases (validate_loop [] 0 splits)) [
      | inr fails ↦ absurd (ground arith)
      | inl (t, looped) ↦
          let v = validate_loop_sound [] 0 splits looped in
          record {
            few = ground arith;
            primary = (bps, rest, ground arith);
            distinct = v.1;
            whole = ground (arith, v.2);
          }
    ]

    complete : IsSplitConfig organizer splits → validate_revenue_splits splits organizer ≡ ok tt
    complete c =
        let looped =
          validate_loop_complete [] 0 splits (IsNew-nil splits) c.distinct
            (omega (arith, c.whole)) in
        ground (arith, looped, c.few, c.whole, c.primary.2)
