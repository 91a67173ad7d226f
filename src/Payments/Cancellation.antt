-- ===== src/Payments/Cancellation.antt =====
-- The share of the organizer when an event is cancelled: `cancel_event` of
-- contracts/payments/src/lib.rs.
use native.Mathlib.Nat.{div-le_of_le-mul, le-div_iff_mul-le, div-mul-le_self}
use zicket_contract.Base.{lt-cases, ℕ, ◌-◌, ◌*◌, ◌/◌, ◌≤◌, ◌<◌, inl, inr, arith}
use zicket_contract.Payments.Types.{EventConfig}
use zicket_contract.Payments.Withdrawals.{cancellation_ratio}

div_mono : (a b d : ℕ) → 0 < d → a ≤ b → a / d ≤ b / d
div_mono a b d p h = (le-div_iff_mul-le p).1 (omega (arith, div-mul-le_self a d))

div_bound : (a d : ℕ) → a ≤ d → a * 10000 / d ≤ 10000
div_bound a d h = div-le_of_le-mul d (omega arith)

-- The organizer's ratio at a cancellation is at most 10000 basis points, and a later ledger gives
-- no smaller ratio.
pub cancellation_ratio_mono :
    (config : EventConfig) (l l' : ℕ)
    → l ≤ l'
    → (cancellation_ratio l config ≤ cancellation_ratio l' config)
      × (cancellation_ratio l' config ≤ 10000)
unfolding cancellation_ratio
cancellation_ratio_mono config l l' h =
    let start = config.event_start_ledger in
    let total = config.event_end_ledger - start in
    (
      elim (lt-cases start config.event_end_ledger) [
        | inl (t, lt) ↦
            let mono =
              div_mono ((l - start) * 10000) ((l' - start) * 10000) total (omega arith)
                (omega arith) in
            elim (lt-cases l' config.event_end_ledger) [
              | inl (u, early) ↦
                  let small = div_bound (l - start) total (omega arith) in ground arith
              | inr (u, late) ↦ elim (lt-cases l config.event_end_ledger) [
                | inl (v, early) ↦
                    let small = div_bound (l - start) total (omega arith) in ground arith
                | inr (v, later) ↦ ground arith
              ]
            ]
        | inr (t, ge) ↦ ground arith
      ],
      elim (lt-cases l' config.event_end_ledger) [
        | inl (u, early) ↦ let small = div_bound (l' - start) total (omega arith) in ground arith
        | inr (u, late) ↦ ground arith
      ],
    )
