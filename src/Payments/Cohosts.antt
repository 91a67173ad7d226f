-- ===== src/Payments/Cohosts.antt =====
-- The recipients of a revenue split are paid once, and out of the escrow: `withdraw_split` of
-- contracts/payments/src/lib.rs.
use zicket_contract.Base.{
  ◌==◌, Option-cases, ok_or, unwrap_or, is_some, is_ok, ok, Address, Symbol, require_auth, Env,
  ok-Ensures, bind-Ensures, test-Ensures, never-is_ok, Ensures, length, ℕ, ◌≡◌, refl, sym, ap, ◌∙◌,
  ◌≢◌, inl, inr, true, false, not, some, arith,
}
use zicket_contract.Base.Int.{◌-ℤ◌, ltb_ℤ, leb_ℤ, of_bps, ℤ, pos}
use zicket_contract.CommonUtils.Splits.{find_recipient_basis_points}
use zicket_contract.Payments.Types.{
  SplitSettlement, Token, TokenLaws, Store, unauthorized, no_revenue, invalid_organizer,
  active_disputes, splits_not_configured, not_a_split_recipient, recipient_flagged,
  split_already_withdrawn,
}
use zicket_contract.Payments.Accounts.{
  set_event_token_revenue, set_event_revenue, add_total_withdrawn, get_total_token_withdrawn,
  add_total_token_withdrawn, get_event_disputes, add_withdrawal_record,
}
use zicket_contract.Payments.Purchase.{require_not_paused}
use zicket_contract.Payments.Refunds.{pay}
use zicket_contract.Payments.Disputes.{validate_revenue_invariant}
use zicket_contract.Payments.Withdrawals.{
  is_empty, withdrawable_now, collect_fee, record_withdrawal,
}
use zicket_contract.Payments.Splits.{
  primary_of, recipient_share, get_splits, get_split_withdrawn, set_split_withdrawn,
  is_split_flagged, set_split_settlement, split_total, move_distributable, settle_split,
  ensure_split_settled, withdraw_split, flag_cohost,
}
use zicket_contract.Payments.Escrow.{KeepsCover, SameBooks, SameBooks-trans}
use zicket_contract.Payments.Processing.{Still, Still-trans, validate-Still}
use zicket_contract.Payments.Payouts.{
  withdrawn-KeepsCover, KeepsCover-after, record_withdrawal-Still, collect_fee-Still,
}

positive : (a : ℤ) → leb_ℤ a (pos 0) ≡ false → ltb_ℤ (pos 0) a ≡ true
positive a h = ground arith

module _ {T : Type 0} where
  move_distributable-Still :
      (e : Symbol) (a : Address) (ratio : ℕ) (amount : ℤ) (s : Store T)
      → Still s (move_distributable e a ratio amount s)
  unfolding move_distributable set_event_token_revenue set_event_revenue
  move_distributable-Still e a ratio amount s = record {
    books = record { volume = refl; refunds = refl; withdrawn = refl };
    tokens = refl;
  }

  set_split_settlement-Still :
      (e : Symbol) (settlement : SplitSettlement) (s : Store T)
      → Still s (set_split_settlement e settlement s)
  unfolding set_split_settlement
  set_split_settlement-Still e settlement s = record {
    books = record { volume = refl; refunds = refl; withdrawn = refl };
    tokens = refl;
  }

  settle_split-Still :
      (env : Env) (token : Token T) (e : Symbol) (s : Store T)
      → Ensures (λ r. Still s r.1) (settle_split env token e s)
  unfolding settle_split
  settle_split-Still env token e s =
      bind-Ensures (ok_or (s.event_config e) invalid_organizer) λ config _.
        bind-Ensures (withdrawable_now env (s.event_status e) config) λ ratio _.
          bind-Ensures (validate_revenue_invariant env token e s) λ t checked.
            test-Ensures (not (is_empty (get_event_disputes e t))) active_disputes λ _.
              let a = config.payout_token in
              bind-Ensures (split_total e a ratio t) λ total _.
                test-Ensures (leb_ℤ total (pos 0)) no_revenue λ _.
                  let fee = of_bps total (unwrap_or t.platform_fee_bps 0) in
                  let net = total -ℤ fee in
                  test-Ensures (leb_ℤ net (pos 0)) no_revenue λ _.
                    let v = move_distributable e a ratio total t in
                    let u = collect_fee env e fee net a v in
                    let settlement : SplitSettlement = record {
                      token = a;
                      net_distributable = net;
                    } in
                    ok-Ensures (
                      Still-trans (validate-Still env token e s checked) (
                        Still-trans (move_distributable-Still e a ratio total t) (
                          Still-trans (collect_fee-Still env e fee net a v)
                            (set_split_settlement-Still e settlement u))))

  ensure_split_settled-Still :
      (env : Env) (token : Token T) (e : Symbol) (s : Store T)
      → Ensures (λ r. Still s r.1) (ensure_split_settled env token e s)
  unfolding ensure_split_settled
  ensure_split_settled-Still env token e s = elim (Option-cases (s.split_settlement e)) [
    | inl unsettled ↦ rw (unsettled, ensure_split_settled) (settle_split-Still env token e s)
    | inr (settlement, settled) ↦
        rw (settled, ensure_split_settled)
          (ok-Ensures (record {
            books = record { volume = refl; refunds = refl; withdrawn = refl };
            tokens = refl;
          }))
  ]

  -- `withdraw_split` between its payment and its record.
  booked_share : Symbol → Address → Address → ℤ → Store T → Store T
  booked_share e recipient a share s =
      add_total_token_withdrawn e a share
        (add_total_withdrawn e share (set_split_withdrawn e recipient share s))

  booked_share-SameBooks :
      (e : Symbol) (recipient a : Address) (share : ℤ) (s : Store T)
      → SameBooks (add_total_token_withdrawn e a share s) (booked_share e recipient a share s)
        × ((booked_share e recipient a share s).tokens ≡ s.tokens)
        × ((booked_share e recipient a share s).split_withdrawn e recipient ≡ some share)
  unfolding booked_share set_split_withdrawn add_total_token_withdrawn add_total_withdrawn
      get_total_token_withdrawn
  booked_share-SameBooks e recipient a share s =
      (record { volume = refl; refunds = refl; withdrawn = refl }, refl, ground arith)

  record_withdrawal-split :
      (env : Env) (e : Symbol) (who : Address) (amount : ℤ) (a : Address) (s : Store T)
      → Ensures
          (λ u. u.split_withdrawn ≡ s.split_withdrawn)
          (record_withdrawal env e who amount a s)
  unfolding record_withdrawal add_withdrawal_record
  record_withdrawal-split env e who amount a s = record { holds = λ u h. ground arith }

  -- What a paid share leaves: its mark, and the escrow.
  record Pays (token : Token T) (env : Env) (recipient : Address) (e : Symbol) (s u : Store T)
      : Type 0 where
    marked :
        (share : ℤ) × (ltb_ℤ (pos 0) share ≡ true) × (u.split_withdrawn e recipient ≡ some share)
    cover :
        TokenLaws token
        → recipient ≢ env.current_contract_address
        → KeepsCover token env.current_contract_address e s u

  withdraw_split-Pays :
      (env : Env) (token : Token T) (recipient : Address) (e : Symbol) (s : Store T)
      → Ensures (Pays token env recipient e s) (withdraw_split env token recipient e s)
  unfolding withdraw_split booked_share
  withdraw_split-Pays env token recipient e s =
      let splits = get_splits e s in
      let self = env.current_contract_address in
      bind-Ensures (require_not_paused s) λ _ _. bind-Ensures (require_auth env recipient) λ _ _.
        test-Ensures (length splits == 0) splits_not_configured λ _.
          test-Ensures (not (is_some (find_recipient_basis_points splits recipient)))
            not_a_split_recipient
            λ _. test-Ensures (is_split_flagged e recipient s) recipient_flagged λ _.
              test-Ensures (ltb_ℤ (pos 0) (get_split_withdrawn e recipient s))
                split_already_withdrawn
                λ _. bind-Ensures (ensure_split_settled env token e s) λ r settled.
                  let share = recipient_share splits recipient r.0.net_distributable in
                  let a = r.0.token in
                  test-Ensures (leb_ℤ share (pos 0)) no_revenue λ some_share.
                    bind-Ensures (pay token a self recipient share r.1) λ t paid.
                      let (books, tokens, marked) = booked_share-SameBooks e recipient a share t in
                      record {
                        holds = λ u h.
                            let last =
                              record_withdrawal-Still env e recipient share a
                                (booked_share e recipient a share t) h in
                            let split =
                              (record_withdrawal-split env e recipient share a
                                  (booked_share e recipient a share t)).holds
                                u h in
                            record {
                              marked = (
                                share,
                                positive share some_share,
                                ap (λ f. f e recipient) split ∙ marked,
                              );
                              cover = λ laws apart.
                                  KeepsCover-after
                                    ((ensure_split_settled-Still env token e s).holds r settled)
                                    (withdrawn-KeepsCover laws env recipient a e share r.1 apart
                                      paid (SameBooks-trans books last.books)
                                      (last.tokens ∙ tokens));
                            };
                      }

  -- If the token contract moves what it is asked to and the recipient is not the contract, then in
  -- a withdrawal of a share of a revenue split that succeeds what the contract holds of every token
  -- changes by exactly what the expected balance of the event changes, and no other event expects
  -- anything else.
  pub withdraw_split-KeepsCover :
      (env : Env) (token : Token T) (recipient : Address) (e : Symbol) (s s' : Store T)
      → TokenLaws token
      → recipient ≢ env.current_contract_address
      → withdraw_split env token recipient e s ≡ ok s'
      → KeepsCover token env.current_contract_address e s s'
  withdraw_split-KeepsCover env token recipient e s s' laws apart done =
      ((withdraw_split-Pays env token recipient e s).holds s' done).cover laws apart

  marked-refused :
      (env : Env) (token : Token T) (recipient : Address) (e : Symbol) (s : Store T)
      → ltb_ℤ (pos 0) (get_split_withdrawn e recipient s) ≡ true
      → Ensures (λ _. true ≡ false) (withdraw_split env token recipient e s)
  unfolding withdraw_split
  marked-refused env token recipient e s marked = bind-Ensures (require_not_paused s) λ _ _.
      bind-Ensures (require_auth env recipient) λ _ _.
        test-Ensures (length (get_splits e s) == 0) splits_not_configured λ _.
          test-Ensures (not (is_some (find_recipient_basis_points (get_splits e s) recipient)))
            not_a_split_recipient
            λ _. test-Ensures (is_split_flagged e recipient s) recipient_flagged λ _.
              test-Ensures (ltb_ℤ (pos 0) (get_split_withdrawn e recipient s))
                split_already_withdrawn λ un. record { holds = λ _ _. sym marked ∙ un }

  marked-unflagged :
      (env : Env) (primary : Address) (recipient : Address) (e : Symbol) (s : Store T)
      → ltb_ℤ (pos 0) (get_split_withdrawn e recipient s) ≡ true
      → Ensures (λ _. true ≡ false) (flag_cohost env primary e recipient s)
  unfolding flag_cohost
  marked-unflagged env primary recipient e s marked = bind-Ensures (require_not_paused s) λ _ _.
      bind-Ensures (primary_of (get_splits e s)) λ first _.
        test-Ensures (not (primary == first)) unauthorized λ _.
          bind-Ensures (require_auth env primary) λ _ _.
            test-Ensures (recipient == first) unauthorized λ _.
              test-Ensures (not (is_some (find_recipient_basis_points (get_splits e s) recipient)))
                not_a_split_recipient
                λ _.
                  test-Ensures (ltb_ℤ (pos 0) (get_split_withdrawn e recipient s))
                    split_already_withdrawn λ un. record { holds = λ _ _. sym marked ∙ un }

  -- After a recipient has withdrawn its share of an event's revenue, in the storage that is left
  -- every further withdrawal of that share is refused, and so is every flag on the recipient,
  -- whatever the host and the token contract.
  pub withdraw_split_once :
      (env env' : Env) (token token' : Token T) (primary recipient : Address) (e : Symbol)
      (s s' : Store T)
      → withdraw_split env token recipient e s ≡ ok s'
      → (is_ok (withdraw_split env' token' recipient e s') ≡ false)
        × (is_ok (flag_cohost env' primary e recipient s') ≡ false)
  unfolding get_split_withdrawn
  withdraw_split_once env env' token token' primary recipient e s s' done =
      let (share, more, kept) =
        ((withdraw_split-Pays env token recipient e s).holds s' done).marked in
      let marked : ltb_ℤ (pos 0) (get_split_withdrawn e recipient s') ≡ true =
        rw (kept, more) refl in
      (
        never-is_ok _ (marked-refused env' token' recipient e s' marked),
        never-is_ok _ (marked-unflagged env' primary recipient e s' marked),
      )
