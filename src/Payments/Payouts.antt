-- ===== src/Payments/Payouts.antt =====
-- `withdraw` and `withdraw_token` of contracts/payments/src/lib.rs, and the escrow.
use zicket_contract.Base.{
  ◌==◌, err_if, ok_or, unwrap_or, bind_inv, ok, Address, Symbol, require_auth, Env, ℕ, ◌≡◌, refl,
  sym, ap, ◌∙◌, ◌≢◌, true, not, some, arith,
}
use zicket_contract.Base.Int.{ℤ, pos, leb_ℤ, ◌+ℤ◌, ◌-ℤ◌, of_bps}
use zicket_contract.Payments.Types.{
  Token, TokenLaws, Store, EventConfig, invalid_organizer, unauthorized_withdrawal, no_revenue,
  active_disputes, event_not_completed,
}
use zicket_contract.Payments.Storage.{set_event_config}
use zicket_contract.Payments.Accounts.{
  get_event_token_revenue, set_event_token_revenue, get_event_revenue, set_event_revenue,
  add_total_withdrawn, get_total_token_withdrawn, add_total_token_withdrawn, get_event_disputes,
  add_withdrawal_record,
}
use zicket_contract.Payments.Refunds.{pay}
use zicket_contract.Payments.Disputes.{expected_balance, validate_revenue_invariant}
use zicket_contract.Payments.Withdrawals.{
  is_empty, is_completed, withdrawable_now, ensure_no_splits, total_to_withdraw, collect_fee,
  reduce_revenue, record_withdrawal, withdraw, withdraw_token,
}
use zicket_contract.Payments.Purchase.{require_not_paused}
use zicket_contract.Payments.Escrow.{
  expected_of_books, SameBooks-trans, KeepsCover-out, owed-withdrawn, KeepsCover, SameBooks,
}
use zicket_contract.Payments.Processing.{
  own_apart, Still, Still-trans, add_withdrawn_cong, pay_inv, validate-Still,
}

module _ {T : Type 0} where
  -- A payment by the contract that is booked as withdrawn.
  pub withdrawn-KeepsCover :
      {token : Token T} (laws : TokenLaws token) (env : Env) (to a : Address) (e : Symbol)
      (amount : ℤ) (s : Store T) {u s' : Store T}
      → to ≢ env.current_contract_address
      → pay token a env.current_contract_address to amount s ≡ ok u
      → SameBooks (add_total_token_withdrawn e a amount u) s'
      → s'.tokens ≡ u.tokens
      → KeepsCover token env.current_contract_address e s s'
  withdrawn-KeepsCover {token} laws env to a e amount s {u} {s'} apart paid books tokens =
      let (transferred, kept) = pay_inv token a env.current_contract_address to amount s paid in
      KeepsCover-out laws apart (transferred ∙ ap some (sym tokens)) (
        owed-withdrawn e a amount s s'
          (SameBooks-trans (add_withdrawn_cong e a amount s u kept) books))

  pub KeepsCover-after :
      {token : Token T} {self : Address} {e : Symbol} {s t s' : Store T}
      → Still s t
      → KeepsCover token self e t s'
      → KeepsCover token self e s s'
  KeepsCover-after {token} {self} {e} {s} {t} {s'} h k = record {
    event = λ b. after b (k.event b);
    others = λ f b other. k.others f b other ∙ expected_of_books f b h.books;
  }
    where
      after :
          (b : Address)
          → token.balance s'.tokens b self +ℤ expected_balance e b t
            ≡ token.balance t.tokens b self +ℤ expected_balance e b s'
          → token.balance s'.tokens b self +ℤ expected_balance e b s
            ≡ token.balance s.tokens b self +ℤ expected_balance e b s'
      after b eq = rw (sym (expected_of_books e b h.books), sym h.tokens) eq

  pub record_withdrawal-Still :
      (env : Env) (e : Symbol) (who : Address) (amount : ℤ) (a : Address) (s : Store T)
      {s' : Store T}
      → record_withdrawal env e who amount a s ≡ ok s'
      → Still s s'
  unfolding record_withdrawal add_withdrawal_record
  record_withdrawal-Still env e who amount a s h = record {
    books = record { volume = ground arith; refunds = ground arith; withdrawn = ground arith };
    tokens = ground arith;
  }

  pub collect_fee-Still :
      (env : Env) (e : Symbol) (fee rest : ℤ) (a : Address) (s : Store T)
      → Still s (collect_fee env e fee rest a s)
  unfolding collect_fee
  collect_fee-Still env e fee rest a s = record {
    books = record { volume = ground arith; refunds = ground arith; withdrawn = ground arith };
    tokens = ground arith;
  }

  reduce_revenue-Still :
      (e : Symbol) (a : Address) (ratio : ℕ) (amount : ℤ) (s : Store T)
      → Still s (reduce_revenue e a ratio amount s)
  unfolding reduce_revenue set_event_token_revenue set_event_revenue
  reduce_revenue-Still e a ratio amount s = record {
    books = record { volume = ground arith; refunds = ground arith; withdrawn = ground arith };
    tokens = ground arith;
  }

  -- The accounts and the latch of `withdraw`.
  booked_withdrawal : Symbol → Address → ℤ → EventConfig → Store T → Store T
  booked_withdrawal e a amount config s =
      set_event_config e (record config { organizer_withdrawn = true })
        (add_total_token_withdrawn e a amount (add_total_withdrawn e amount s))

  booked-SameBooks :
      (e : Symbol) (a : Address) (amount : ℤ) (config : EventConfig) (s : Store T)
      → SameBooks (add_total_token_withdrawn e a amount s) (booked_withdrawal e a amount config s)
  unfolding booked_withdrawal set_event_config add_total_token_withdrawn add_total_withdrawn
      get_total_token_withdrawn
  booked-SameBooks e a amount config s = record { volume = refl; refunds = refl; withdrawn = refl }

  booked-tokens :
      (e : Symbol) (a : Address) (amount : ℤ) (config : EventConfig) (s : Store T)
      → (booked_withdrawal e a amount config s).tokens ≡ s.tokens
  unfolding booked_withdrawal set_event_config add_total_token_withdrawn add_total_withdrawn
  booked-tokens e a amount config s = refl

  -- `withdraw` from its payment on.
  settled-KeepsCover :
      {token : Token T} (laws : TokenLaws token) (env : Env) (e : Symbol) (config : EventConfig)
      (ratio : ℕ) (total amount fee : ℤ) (s : Store T) {u s' : Store T}
      → config.organizer ≢ env.current_contract_address
      → pay token config.payout_token env.current_contract_address config.organizer amount s ≡ ok u
      → record_withdrawal env e config.organizer amount config.payout_token (
          booked_withdrawal e config.payout_token amount config (
            reduce_revenue e config.payout_token ratio total
              (collect_fee env e fee amount config.payout_token u)))
        ≡ ok s'
      → KeepsCover token env.current_contract_address e s s'
  settled-KeepsCover laws env e config ratio total amount fee s {u} {s'} apart paid recorded =
      let a = config.payout_token in
      let charged = collect_fee env e fee amount a u in
      let middle =
        Still-trans (collect_fee-Still env e fee amount a u)
          (reduce_revenue-Still e a ratio total charged) in
      let v = reduce_revenue e a ratio total charged in
      let last =
        record_withdrawal-Still env e config.organizer amount a
          (booked_withdrawal e a amount config v) recorded in
      withdrawn-KeepsCover laws env config.organizer a e amount s apart paid
        (SameBooks-trans (add_withdrawn_cong e a amount u v middle.books)
          (SameBooks-trans (booked-SameBooks e a amount config v) last.books))
        (last.tokens ∙ booked-tokens e a amount config v ∙ middle.tokens)

  -- If the token contract moves what it is asked to and the organizer is not the contract, then in
  -- a withdrawal of an event's revenue that succeeds what the contract holds of every token changes
  -- by exactly what the expected balance of the event changes, and no other event expects anything
  -- else.
  pub withdraw-KeepsCover :
      {token : Token T} (laws : TokenLaws token) (env : Env) (organizer : Address) (e : Symbol)
      (s : Store T) {s' : Store T}
      → organizer ≢ env.current_contract_address
      → withdraw env token organizer e s ≡ ok s'
      → KeepsCover token env.current_contract_address e s s'
  unfolding withdraw booked_withdrawal
  withdraw-KeepsCover {token} laws env organizer e s {s'} apart h =
      let self = env.current_contract_address in
      let (_, _, h₁) = bind_inv (require_not_paused s) _ h in
      let (_, _, h₂) = bind_inv (require_auth env organizer) _ h₁ in
      let (_, _, h₃) = bind_inv (ensure_no_splits e s) _ h₂ in
      let (config, _, h₄) = bind_inv (ok_or (s.event_config e) invalid_organizer) _ h₃ in
      let (_, own, h₅) =
        bind_inv (err_if (not (organizer == config.organizer)) unauthorized_withdrawal) _ h₄ in
      let (_, _, h₆) = bind_inv (err_if config.organizer_withdrawn no_revenue) _ h₅ in
      let (ratio, _, h₇) = bind_inv (withdrawable_now env (s.event_status e) config) _ h₆ in
      let (t, checked, h₈) = bind_inv (validate_revenue_invariant env token e s) _ h₇ in
      let (_, _, h₉) =
        bind_inv (err_if (not (is_empty (get_event_disputes e t))) active_disputes) _ h₈ in
      let a = config.payout_token in
      let (_, _, k₁) =
        bind_inv (err_if (leb_ℤ (get_event_token_revenue e a t) (pos 0)) no_revenue) _ h₉ in
      let (total, _, k₂) = bind_inv (total_to_withdraw e a ratio t) _ k₁ in
      let fee = of_bps total (unwrap_or t.platform_fee_bps 0) in
      let amount = total -ℤ fee in
      let (u, paid, k₃) = bind_inv (pay token a self config.organizer amount t) _ k₂ in
      KeepsCover-after (validate-Still env token e s checked) (
        settled-KeepsCover laws env e config ratio total amount fee t (own_apart own apart) paid k₃)

  -- `withdraw_token` between its payment and its record.
  booked_token : Symbol → Address → ℤ → Store T → Store T
  booked_token e a total s =
      let v = set_event_token_revenue e a (pos 0) s in
      let w = set_event_revenue e (get_event_revenue e v -ℤ total) v in
      add_total_token_withdrawn e a total (add_total_withdrawn e total w)

  booked_token-SameBooks :
      (e : Symbol) (a : Address) (total : ℤ) (s : Store T)
      → SameBooks (add_total_token_withdrawn e a total s) (booked_token e a total s)
        × ((booked_token e a total s).tokens ≡ s.tokens)
  unfolding booked_token set_event_token_revenue set_event_revenue add_total_token_withdrawn
      add_total_withdrawn get_total_token_withdrawn
  booked_token-SameBooks e a total s =
      (record { volume = refl; refunds = refl; withdrawn = refl }, refl)

  token_settled :
      {token : Token T} (laws : TokenLaws token) (env : Env) (organizer : Address) (e : Symbol)
      (a : Address) (total : ℤ) (s : Store T) {u s' : Store T}
      → organizer ≢ env.current_contract_address
      → pay token a env.current_contract_address organizer total s ≡ ok u
      → record_withdrawal env e organizer total a (booked_token e a total u) ≡ ok s'
      → KeepsCover token env.current_contract_address e s s'
  token_settled laws env organizer e a total s {u} {s'} apart paid recorded =
      let last =
        record_withdrawal-Still env e organizer total a (booked_token e a total u) recorded in
      let (books, tokens) = booked_token-SameBooks e a total u in
      withdrawn-KeepsCover laws env organizer a e total s apart paid
        (SameBooks-trans books last.books) (last.tokens ∙ tokens)

  -- If the token contract moves what it is asked to and the caller is not the contract, then in a
  -- withdrawal of one token that succeeds what the contract holds of every token changes by exactly
  -- what the expected balance of the event changes, and no other event expects anything else.
  pub withdraw_token-KeepsCover :
      {token : Token T} (laws : TokenLaws token) (env : Env) (organizer : Address) (e : Symbol)
      (a : Address) (s : Store T) {s' : Store T}
      → organizer ≢ env.current_contract_address
      → withdraw_token env token organizer e a s ≡ ok s'
      → KeepsCover token env.current_contract_address e s s'
  unfolding withdraw_token booked_token
  withdraw_token-KeepsCover {token} laws env organizer e a s {s'} apart h =
      let (_, _, h₁) = bind_inv (require_not_paused s) _ h in
      let (_, _, h₂) = bind_inv (require_auth env organizer) _ h₁ in
      let (_, _, h₃) = bind_inv (ensure_no_splits e s) _ h₂ in
      let (_, _, h₄) =
        bind_inv (err_if (not (is_completed (s.event_status e))) event_not_completed) _ h₃ in
      let (t, checked, h₅) = bind_inv (validate_revenue_invariant env token e s) _ h₄ in
      let (_, _, h₆) =
        bind_inv (err_if (leb_ℤ (get_event_token_revenue e a t) (pos 0)) no_revenue) _ h₅ in
      let (u, paid, h₇) =
        bind_inv
          (pay token a env.current_contract_address organizer (get_event_token_revenue e a t) t) _
          h₆ in
      KeepsCover-after (validate-Still env token e s checked)
        (token_settled laws env organizer e a (get_event_token_revenue e a t) t apart paid h₇)
