-- ===== src/Payments/Replay.antt =====
-- `create_payment` of contracts/payments/src/lib.rs: the escrow, and replays.
use zicket_contract.Base.{
  Option-cases, eq_self, ok_or, is_ok, ok_inj, bind_inv, ok_or_inv, ok, Bytes, Env, ℕ, ◌≡◌, refl,
  sym, ap, ◌∙◌, ◌≢◌, inl, inr, true, false, some, arith,
}
use zicket_contract.Payments.Types.{
  Token, TokenLaws, Store, PaymentRecord, PaymentPrivacy, standard, private, anonymous,
  transfer_failed,
}
use zicket_contract.Payments.Storage.{
  get_next_payment_id, has_nonce, set_nonce, has_nonce_hash, set_nonce_hash,
}
use zicket_contract.Payments.Accounts.{add_total_token_volume}
use zicket_contract.Payments.Identity.{build_payment_record, private_wallet_hash, PaymentParams}
use zicket_contract.Payments.Purchase.{
  already_used, check_payment, mark_nonce, issue_ticket, record_payment, create_payment,
}
use zicket_contract.Payments.Escrow.{
  SameBooks-trans, KeepsCover-in, owed-volume, KeepsCover, SameBooks, Charged,
}
use zicket_contract.Payments.Deposits.{
  Recorded, Neutral, record_payment-Recorded, issue_ticket-Neutral, add_volume_cong,
}

module _ {T : Type 0} where
  -- What a purchase that succeeds has met and done.
  pub record Purchased (env : Env) (token : Token T) (params : PaymentParams) (s s' : Store T)
      : Type 0 where
    pub payment : PaymentRecord
    pub payment_id : ℕ
    pub built : build_payment_record env params payment_id env.timestamp ≡ ok payment
    pub tokens : T
    pub paid :
        token.transfer s.tokens params.token_address params.payer env.current_contract_address
          params.amount
        ≡ some tokens
    pub start : Store T
    pub same_books : SameBooks s start
    pub same_tokens : start.tokens ≡ tokens
    pub middle : Store T
    pub recorded : Recorded env params payment start middle
    pub issued : Neutral middle s'

  Neutral-at : {s t u : Store T} → t ≡ u → Neutral s t → Neutral s u
  Neutral-at e n = rw (sym e) n

  numbered_books :
      (s : Store T) (tokens : T) {r : ℕ × Store T}
      → get_next_payment_id (record s { tokens = tokens }) ≡ ok r
      → (r.1.tokens ≡ tokens) × SameBooks s r.1
  unfolding get_next_payment_id
  numbered_books s tokens e = (
    ground arith,
    record { volume = ground arith; refunds = ground arith; withdrawn = ground arith },
  )

  pub create_payment-Purchased :
      (env : Env) (token : Token T) (params : PaymentParams) (s : Store T) {id : ℕ} {s' : Store T}
      → create_payment env token params s ≡ ok (id, s')
      → Purchased env token params s s'
  unfolding create_payment get_next_payment_id
  create_payment-Purchased env token params s {id} {s'} e =
      let (_, checked, e₁) = bind_inv (check_payment env params s) _ e in
      let (tokens, paid, e₂) =
        bind_inv
          (ok_or
            (token.transfer s.tokens params.token_address params.payer env.current_contract_address
              params.amount)
            transfer_failed)
          _ e₁ in
      let (r, numbered, e₃) = bind_inv (get_next_payment_id (record s { tokens = tokens })) _ e₂ in
      let (payment, built, e₄) =
        bind_inv (build_payment_record env params r.0 env.timestamp) _ e₃ in
      let (t, recorded, e₅) = bind_inv (record_payment env params payment r.1) _ e₄ in
      let (u, issued, e₆) = bind_inv (issue_ticket env params payment t) _ e₅ in
      let last : u ≡ s' = ap (λ (x : ℕ × Store T). x.1) (ok_inj e₆) in
      let (tokens_kept, books) = numbered_books s tokens numbered in
      record {
        payment = payment;
        payment_id = r.0;
        built = built;
        tokens = tokens;
        paid = ok_or_inv _ _ paid;
        start = r.1;
        same_books = books;
        same_tokens = tokens_kept;
        middle = t;
        recorded = record_payment-Recorded env params payment r.1 recorded;
        issued = Neutral-at last (issue_ticket-Neutral env params payment t issued);
      }

  Purchased-books :
      {env : Env} {token : Token T} {params : PaymentParams} {s s' : Store T}
      → Purchased env token params s s'
      → SameBooks (add_total_token_volume params.event_id params.token_address params.amount s) s'
  Purchased-books {params = params} {s} p =
      SameBooks-trans
        (add_volume_cong params.event_id params.token_address params.amount s p.start p.same_books)
        (SameBooks-trans p.recorded.books p.issued.books)

  Purchased-transfer :
      {env : Env} {token : Token T} {params : PaymentParams} {s s' : Store T}
      → Purchased env token params s s'
      → token.transfer s.tokens params.token_address params.payer env.current_contract_address
          params.amount
        ≡ some s'.tokens
  Purchased-transfer p =
      p.paid ∙ ap some (sym (p.issued.tokens ∙ p.recorded.tokens ∙ p.same_tokens))

  -- If the token contract moves what it is asked to and the payer is not the contract, then in a
  -- purchase that succeeds what the contract holds of every token changes by exactly what the
  -- expected balance of the event changes, and no other event expects anything else.
  pub create_payment-KeepsCover :
      (env : Env) (token : Token T) (params : PaymentParams) (s : Store T) {id : ℕ} {s' : Store T}
      → TokenLaws token
      → params.payer ≢ env.current_contract_address
      → create_payment env token params s ≡ ok (id, s')
      → KeepsCover token env.current_contract_address params.event_id s s'
  create_payment-KeepsCover env token params s {id} {s'} laws apart e =
      let p = create_payment-Purchased env token params s e in
      KeepsCover-in laws apart (Purchased-transfer p)
        (owed-volume params.event_id params.token_address params.amount s s' (Purchased-books p))

  pub create_payment-Charged :
      (env : Env) (token : Token T) (params : PaymentParams) (s : Store T) {id : ℕ} {s' : Store T}
      → TokenLaws token
      → create_payment env token params s ≡ ok (id, s')
      → Charged token env.current_contract_address params.payer params.token_address params.event_id
          params.amount s s'
  create_payment-Charged env token params s {id} {s'} laws e =
      let p = create_payment-Purchased env token params s e in
      record {
        balances =
            laws.moves s.tokens s'.tokens params.token_address params.payer
              env.current_contract_address params.amount (Purchased-transfer p);
        expected =
            owed-volume params.event_id params.token_address params.amount s s' (Purchased-books p);
      }

  -- Where a purchase marks its nonce.
  marked_standard :
      (env : Env) (params : PaymentParams) (p : PaymentRecord) (s : Store T)
      → params.privacy_level ≡ standard
      → (mark_nonce env params p s).processed_nonce params.payer params.nonce ≡ some true
  unfolding mark_nonce set_nonce
  marked_standard env params p s l = rw l (rw (eq_self params.payer, eq_self params.nonce) refl)

  marked_private :
      (env : Env) (params : PaymentParams) (p : PaymentRecord) (s : Store T)
      → params.privacy_level ≡ private
      → (mark_nonce env params p s).processed_nonce_hash
          (private_wallet_hash env params.payer)
          params.nonce
        ≡ some true
  unfolding mark_nonce set_nonce_hash
  marked_private env params p s l =
      rw l (rw (eq_self (private_wallet_hash env params.payer), eq_self params.nonce) refl)

  marked_anonymous :
      (env : Env) (params : PaymentParams) (id time : ℕ) (s : Store T) {p : PaymentRecord}
      → params.privacy_level ≡ anonymous
      → build_payment_record env params id time ≡ ok p
      → (commitment : Bytes) × (params.nullifier_commitment ≡ some commitment)
        × ((mark_nonce env params p s).processed_nonce_hash commitment params.nonce ≡ some true)
  unfolding mark_nonce set_nonce_hash build_payment_record
  marked_anonymous env params id time s {p} l e = elim (Option-cases params.nullifier_commitment) [
    | inl missing ↦ absurd (ground arith)
    | inr (commitment, found) ↦
        let kept : p.nullifier_commitment ≡ some commitment = ground arith in
        (commitment, found, rw l (rw kept (rw (eq_self commitment, eq_self params.nonce) refl)))
  ]

  used_after :
      (level : PaymentPrivacy) (env env' : Env) (params : PaymentParams) {token : Token T}
      {s s' : Store T}
      → params.privacy_level ≡ level
      → private_wallet_hash env' params.payer ≡ private_wallet_hash env params.payer
      → Purchased env token params s s'
      → already_used env' params s' ≡ true
  unfolding already_used has_nonce has_nonce_hash
  used_after standard env env' params l hosts p =
      rw (l, p.issued.nonces, p.recorded.nonces, marked_standard env params p.payment p.start l)
        refl
  used_after private env env' params l hosts p =
      rw
        (
          l,
          hosts,
          p.issued.nonce_hashes,
          p.recorded.nonce_hashes,
          marked_private env params p.payment p.start l,
        )
        refl
  used_after anonymous env env' params l hosts p =
      let (commitment, found, marked) =
        marked_anonymous env params p.payment_id env.timestamp p.start l p.built in
      rw (l, found, p.issued.nonce_hashes, p.recorded.nonce_hashes, marked) refl

  -- Once a purchase succeeded, the same parameters fail in the state that it left, in any
  -- invocation whose host gives the payer the same wallet hash, at each privacy level.
  pub create_payment_once :
      (env env' : Env) (token : Token T) (params : PaymentParams) (s : Store T) {id : ℕ}
      {s' : Store T}
      → private_wallet_hash env' params.payer ≡ private_wallet_hash env params.payer
      → create_payment env token params s ≡ ok (id, s')
      → is_ok (create_payment env' token params s') ≡ false
  unfolding create_payment check_payment
  create_payment_once env env' token params s {id} {s'} hosts e =
      let p = create_payment-Purchased env token params s e in
      let used = used_after params.privacy_level env env' params refl hosts p in ground arith
