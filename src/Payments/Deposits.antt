-- ===== src/Payments/Deposits.antt =====
-- The parts of `create_payment` of contracts/payments/src/lib.rs: what each leaves of the accounts,
-- the tokens and the marks against a replay.
use zicket_contract.Base.{bind_inv, ok_inj, ok, Address, Symbol, Env, ℕ, ◌≡◌, refl, sym, ◌∙◌, arith}
use zicket_contract.Base.Int.{ℤ}
use zicket_contract.Payments.Types.{Store, PaymentRecord}
use zicket_contract.Payments.Storage.{
  set_event_config, get_next_ticket_id, save_payment, save_ticket, add_owner_ticket_map,
  add_event_payment, add_payer_payment, set_nonce, set_nonce_hash, mark_nullifier_spent,
  increment_user_event_tickets, increment_user_event_tickets_hash, increment_event_sold_count,
}
use zicket_contract.Payments.Accounts.{
  add_event_token, set_event_token_revenue, add_event_token_revenue, set_event_revenue,
  add_event_revenue, add_total_payments, get_total_token_volume, add_total_token_volume,
}
use zicket_contract.Payments.Identity.{build_ticket, PaymentParams}
use zicket_contract.Payments.Purchase.{
  spend_nullifier, index_payer, mark_nonce, book_payment, announce_payment, count_ticket,
  index_owner, count_sale, issue_ticket, record_payment,
}
use zicket_contract.Payments.Escrow.{SameBooks-trans, SameBooks}

module _ {T : Type 0} where
  -- Neither the expected balances nor the tokens change, nor the marks of what was spent.
  pub record Neutral (s s' : Store T) : Type 0 where
    pub books : SameBooks s s'
    pub tokens : s'.tokens ≡ s.tokens
    pub nullifiers : s'.spent_nullifier ≡ s.spent_nullifier
    pub nonces : s'.processed_nonce ≡ s.processed_nonce
    pub nonce_hashes : s'.processed_nonce_hash ≡ s.processed_nonce_hash

  index_owner-Neutral :
      (params : PaymentParams) (p : PaymentRecord) (id : ℕ) (s : Store T) {s' : Store T}
      → index_owner params p id s ≡ ok s'
      → Neutral s s'
  unfolding index_owner add_owner_ticket_map
  index_owner-Neutral params p id s e = record {
    books = record { volume = ground arith; refunds = ground arith; withdrawn = ground arith };
    tokens = ground arith;
    nullifiers = ground arith;
    nonces = ground arith;
    nonce_hashes = ground arith;
  }

  count_ticket-Neutral :
      (env : Env) (params : PaymentParams) (s : Store T) {s' : Store T}
      → count_ticket env params s ≡ ok s'
      → Neutral s s'
  unfolding count_ticket increment_user_event_tickets increment_user_event_tickets_hash
  count_ticket-Neutral env params s e = record {
    books = record { volume = ground arith; refunds = ground arith; withdrawn = ground arith };
    tokens = ground arith;
    nullifiers = ground arith;
    nonces = ground arith;
    nonce_hashes = ground arith;
  }

  count_sale-Neutral :
      (event_id : Symbol) (s : Store T) {s' : Store T}
      → count_sale event_id s ≡ ok s'
      → Neutral s s'
  unfolding count_sale increment_event_sold_count set_event_config
  count_sale-Neutral event_id s e = record {
    books = record { volume = ground arith; refunds = ground arith; withdrawn = ground arith };
    tokens = ground arith;
    nullifiers = ground arith;
    nonces = ground arith;
    nonce_hashes = ground arith;
  }

  Neutral-trans : {s t u : Store T} → Neutral s t → Neutral t u → Neutral s u
  Neutral-trans h k = record {
    books = SameBooks-trans h.books k.books;
    tokens = k.tokens ∙ h.tokens;
    nullifiers = k.nullifiers ∙ h.nullifiers;
    nonces = k.nonces ∙ h.nonces;
    nonce_hashes = k.nonce_hashes ∙ h.nonce_hashes;
  }

  pub issue_ticket-Neutral :
      (env : Env) (params : PaymentParams) (p : PaymentRecord) (s : Store T) {s' : Store T}
      → issue_ticket env params p s ≡ ok s'
      → Neutral s s'
  unfolding issue_ticket get_next_ticket_id save_ticket build_ticket
  issue_ticket-Neutral env params p s {s'} e =
      let (r, numbered, e₁) = bind_inv (get_next_ticket_id s) _ e in
      let (t, saved, e₂) = bind_inv (save_ticket (build_ticket p r.0) r.1) _ e₁ in
      let (u, indexed, e₃) = bind_inv (index_owner params p r.0 t) _ e₂ in
      let (v, counted, e₄) = bind_inv (count_ticket env params u) _ e₃ in
      let (w, sold, e₅) = bind_inv (count_sale params.event_id v) _ e₄ in
      let start : Neutral s t = record {
        books = record { volume = ground arith; refunds = ground arith; withdrawn = ground arith };
        tokens = ground arith;
        nullifiers = ground arith;
        nonces = ground arith;
        nonce_hashes = ground arith;
      } in
      let done : Neutral w s' = record {
        books = record { volume = ground arith; refunds = ground arith; withdrawn = ground arith };
        tokens = ground arith;
        nullifiers = ground arith;
        nonces = ground arith;
        nonce_hashes = ground arith;
      } in
      Neutral-trans start (
        Neutral-trans (index_owner-Neutral params p r.0 t indexed) (
          Neutral-trans (count_ticket-Neutral env params u counted)
            (Neutral-trans (count_sale-Neutral params.event_id v sold) done)))

  index_payer-Neutral :
      (params : PaymentParams) (p : PaymentRecord) (s : Store T) {s' : Store T}
      → index_payer params p s ≡ ok s'
      → Neutral s s'
  unfolding index_payer add_payer_payment
  index_payer-Neutral params p s e = record {
    books = record { volume = ground arith; refunds = ground arith; withdrawn = ground arith };
    tokens = ground arith;
    nullifiers = ground arith;
    nonces = ground arith;
    nonce_hashes = ground arith;
  }

  -- What `record_payment` adds to the volume and marks as used.
  pub record Recorded (env : Env) (params : PaymentParams) (p : PaymentRecord) (s s' : Store T)
      : Type 0 where
    pub books :
        SameBooks (add_total_token_volume params.event_id params.token_address params.amount s) s'
    pub tokens : s'.tokens ≡ s.tokens
    pub nonces : s'.processed_nonce ≡ (mark_nonce env params p s).processed_nonce
    pub nonce_hashes : s'.processed_nonce_hash ≡ (mark_nonce env params p s).processed_nonce_hash

  stored_payment-Neutral :
      (params : PaymentParams) (p : PaymentRecord) (s : Store T) {t u v w : Store T}
      → spend_nullifier p.nullifier_commitment s ≡ ok t
      → save_payment p t ≡ ok u
      → add_event_payment params.event_id p.payment_id u ≡ ok v
      → index_payer params p v ≡ ok w
      → SameBooks s w
        × (w.tokens ≡ s.tokens)
        × (w.processed_nonce ≡ s.processed_nonce)
        × (w.processed_nonce_hash ≡ s.processed_nonce_hash)
  unfolding spend_nullifier mark_nullifier_spent save_payment add_event_payment
  stored_payment-Neutral params p s {t} {u} {v} {w} spent saved listed indexed =
      let n = index_payer-Neutral params p v indexed in
      let books : SameBooks s v = record {
        volume = ground arith;
        refunds = ground arith;
        withdrawn = ground arith;
      } in
      let tokens : v.tokens ≡ s.tokens = ground arith in
      let nonces : v.processed_nonce ≡ s.processed_nonce = ground arith in
      let hashes : v.processed_nonce_hash ≡ s.processed_nonce_hash = ground arith in
      (SameBooks-trans books n.books, n.tokens ∙ tokens, n.nonces ∙ nonces, n.nonce_hashes ∙ hashes)

  -- The accounts of a purchase change its volume; the nonces stay.
  book_payment-volume :
      (params : PaymentParams) (s : Store T) {s' : Store T}
      → book_payment params s ≡ ok s'
      → SameBooks (add_total_token_volume params.event_id params.token_address params.amount s) s'
        × (s'.tokens ≡ s.tokens)
        × (s'.processed_nonce ≡ s.processed_nonce)
        × (s'.processed_nonce_hash ≡ s.processed_nonce_hash)
  unfolding book_payment add_event_token add_event_token_revenue set_event_token_revenue
      add_event_revenue set_event_revenue add_total_payments add_total_token_volume
      get_total_token_volume
  book_payment-volume params s e = (
    record { volume = ground arith; refunds = ground arith; withdrawn = ground arith },
    ground arith,
    ground arith,
    ground arith,
  )

  announce_payment-Neutral :
      (env : Env) (params : PaymentParams) (p : PaymentRecord) (s : Store T)
      → Neutral s (announce_payment env params p s)
  announce_payment-Neutral env params p s = record {
    books = record { volume = ground arith; refunds = ground arith; withdrawn = ground arith };
    tokens = ground arith;
    nullifiers = ground arith;
    nonces = ground arith;
    nonce_hashes = ground arith;
  }

  mark_nonce-SameBooks :
      (env : Env) (params : PaymentParams) (p : PaymentRecord) (s : Store T)
      → SameBooks s (mark_nonce env params p s) × ((mark_nonce env params p s).tokens ≡ s.tokens)
  unfolding mark_nonce set_nonce set_nonce_hash
  mark_nonce-SameBooks env params p s = (
    record { volume = ground arith; refunds = ground arith; withdrawn = ground arith },
    ground arith,
  )

  -- The marks depend on the earlier marks only.
  mark_nonce_cong :
      (env : Env) (params : PaymentParams) (p : PaymentRecord) (s w : Store T)
      → w.processed_nonce ≡ s.processed_nonce
      → w.processed_nonce_hash ≡ s.processed_nonce_hash
      → ((mark_nonce env params p w).processed_nonce ≡ (mark_nonce env params p s).processed_nonce)
        × ((mark_nonce env params p w).processed_nonce_hash
            ≡ (mark_nonce env params p s).processed_nonce_hash)
  unfolding mark_nonce set_nonce set_nonce_hash
  mark_nonce_cong env params p s w h k = (ground arith, ground arith)

  pub add_volume_cong :
      (e : Symbol) (a : Address) (amount : ℤ) (s w : Store T)
      → SameBooks s w
      → SameBooks (add_total_token_volume e a amount s) (add_total_token_volume e a amount w)
  unfolding add_total_token_volume get_total_token_volume
  add_volume_cong e a amount s w h = record {
    volume = rw (h.volume) refl;
    refunds = h.refunds;
    withdrawn = h.withdrawn;
  }

  pub record_payment-Recorded :
      (env : Env) (params : PaymentParams) (p : PaymentRecord) (s : Store T) {s' : Store T}
      → record_payment env params p s ≡ ok s'
      → Recorded env params p s s'
  unfolding record_payment
  record_payment-Recorded env params p s {s'} e =
      let (t, spent, e₁) = bind_inv (spend_nullifier p.nullifier_commitment s) _ e in
      let (u, saved, e₂) = bind_inv (save_payment p t) _ e₁ in
      let (v, listed, e₃) = bind_inv (add_event_payment params.event_id p.payment_id u) _ e₂ in
      let (w, indexed, e₄) = bind_inv (index_payer params p v) _ e₃ in
      let (x, booked, e₅) = bind_inv (book_payment params (mark_nonce env params p w)) _ e₄ in
      let (kept, tokens, nonces, hashes) =
        stored_payment-Neutral params p s spent saved listed indexed in
      let (marked, tokens') = mark_nonce-SameBooks env params p w in
      let (volume, tokens'', nonces', hashes') =
        book_payment-volume params (mark_nonce env params p w) booked in
      let (marks, hash_marks) = mark_nonce_cong env params p s w nonces hashes in
      let told = announce_payment-Neutral env params p x in
      let before =
        add_volume_cong params.event_id params.token_address params.amount s
          (mark_nonce env params p w) (SameBooks-trans kept marked) in
      rw (sym (ok_inj e₅)) (record {
        books = SameBooks-trans (SameBooks-trans before volume) told.books;
        tokens = told.tokens ∙ tokens'' ∙ tokens' ∙ tokens;
        nonces = told.nonces ∙ nonces' ∙ marks;
        nonce_hashes = told.nonce_hashes ∙ hashes' ∙ hash_marks;
      })
