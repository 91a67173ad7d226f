-- ===== src/Payments/Escrow.antt =====
-- The escrow of contracts/payments/src: what the contract holds of a token against what its
-- accounts expect it to hold.
use zicket_contract.Base.{
  Bool, true, ◌==◌, if◌then◌else◌, eq_self, eq-cases, Address, Symbol, ◌≡◌, refl, ◌∙◌, ◌≢◌, inl,
  inr, false, ◌&&◌, some, arith,
}
use zicket_contract.Base.Int.{◌+ℤ◌, ◌-ℤ◌, ℤ, pos, int_laws}
use zicket_contract.Payments.Types.{Token, TokenLaws, Store}
use zicket_contract.Payments.Accounts.{
  get_total_token_volume, add_total_token_volume, get_total_token_refunds, add_total_token_refunds,
  get_total_token_withdrawn, add_total_token_withdrawn,
}
use zicket_contract.Payments.Disputes.{expected_balance}

-- A call on event `e` changes what `self` holds of each token by what it changes the expected
-- balance of `e`, and leaves what the other events expect.
pub record KeepsCover {T : Type 0} (token : Token T) (self : Address) (e : Symbol) (s s' : Store T)
    : Type 0 where
  pub event :
      (b : Address)
      → token.balance s'.tokens b self +ℤ expected_balance e b s
        ≡ token.balance s.tokens b self +ℤ expected_balance e b s'
  pub others : (f : Symbol) (b : Address) → f ≢ e → expected_balance f b s' ≡ expected_balance f b s

-- This amount of token `a` has moved from the payer to `self`, which expects as much more for event
-- `e`; every other balance and every other expected balance is as it was.
pub record Charged {T : Type 0} (token : Token T) (self payer a : Address) (e : Symbol) (amount : ℤ)
    (s s' : Store T) : Type 0 where
  pub balances :
      (b h : Address)
      → token.balance s'.tokens b h
        ≡ token.balance s.tokens b h
          -ℤ (if b == a && h == payer then amount else pos 0)
          +ℤ (if b == a && h == self then amount else pos 0)
  pub expected :
      (f : Symbol) (b : Address)
      → expected_balance f b s'
        ≡ expected_balance f b s +ℤ (if f == e && b == a then amount else pos 0)

-- The accounts that say what is expected.
pub record SameBooks {T : Type 0} (s s' : Store T) : Type 0 where
  pub volume : s'.event_token_volume ≡ s.event_token_volume
  pub refunds : s'.total_token_refunds ≡ s.total_token_refunds
  pub withdrawn : s'.total_token_withdrawn ≡ s.total_token_withdrawn

outflow :
    (x y : ℤ) {x' y' : ℤ} (amount : ℤ)
    → x' ≡ x -ℤ amount +ℤ pos 0
    → y' ≡ y -ℤ amount
    → x' +ℤ y ≡ x +ℤ y'
outflow x y amount h k = rw (h, k) (omega int_laws)

inflow :
    (x y : ℤ) {x' y' : ℤ} (amount : ℤ)
    → x' ≡ x -ℤ pos 0 +ℤ amount
    → y' ≡ y +ℤ amount
    → x' +ℤ y ≡ x +ℤ y'
inflow x y amount h k = rw (h, k) (omega int_laws)

sub_zero : (x : ℤ) → x -ℤ pos 0 ≡ x
sub_zero x = omega int_laws

add_zero : (x : ℤ) → x +ℤ pos 0 ≡ x
add_zero x = omega int_laws

unraised : (c : Bool) (x : ℤ) → x ≡ x +ℤ (if c then pos 0 else pos 0)
unraised true x = omega int_laws
unraised false x = omega int_laws

unmoved :
    (c d : Bool) (x : ℤ) → x ≡ x -ℤ (if c then pos 0 else pos 0) +ℤ (if d then pos 0 else pos 0)
unmoved true true x = omega int_laws
unmoved true false x = omega int_laws
unmoved false true x = omega int_laws
unmoved false false x = omega int_laws

module _ {T : Type 0} where
  pub SameBooks-trans : {s t u : Store T} → SameBooks s t → SameBooks t u → SameBooks s u
  SameBooks-trans h k = record {
    volume = k.volume ∙ h.volume;
    refunds = k.refunds ∙ h.refunds;
    withdrawn = k.withdrawn ∙ h.withdrawn;
  }

  pub expected_of_books :
      {s s' : Store T} (e : Symbol) (b : Address)
      → SameBooks s s'
      → expected_balance e b s' ≡ expected_balance e b s
  unfolding expected_balance get_total_token_volume get_total_token_refunds
      get_total_token_withdrawn
  expected_of_books e b h = rw (h.volume, h.refunds, h.withdrawn) refl

  -- A payment out of the contract of an amount that the accounts then expect no more.
  pub KeepsCover-out :
      {token : Token T} (laws : TokenLaws token) {self to a : Address} {e : Symbol} {amount : ℤ}
      {s s' : Store T}
      → to ≢ self
      → token.transfer s.tokens a self to amount ≡ some s'.tokens
      → ((f : Symbol) (b : Address)
          → expected_balance f b s'
            ≡ expected_balance f b s -ℤ (if f == e && b == a then amount else pos 0))
      → KeepsCover token self e s s'
  KeepsCover-out {token} laws {self} {to} {a} {e} {amount} {s} {s'} apart paid owed = record {
    event = λ b.
        outflow (token.balance s.tokens b self) (expected_balance e b s)
          (if b == a then amount else pos 0) (left b) (rw (owed e b, eq_self e) refl);
    others = λ f b other.
        let no : (f == e) ≡ false = ground arith in
        rw (owed f b, no) (sub_zero (expected_balance f b s));
  }
    where
      left :
          (b : Address)
          → token.balance s'.tokens b self
            ≡ token.balance s.tokens b self -ℤ (if b == a then amount else pos 0) +ℤ pos 0
      left b =
          let no : (self == to) ≡ false = ground arith in
          laws.moves s.tokens s'.tokens a self to amount paid b self ∙ elim (eq-cases b a) [
            | inl (t, same) ↦ rw (t, eq_self self, no) refl
            | inr (t, different) ↦ rw t refl
          ]

  -- A payment into the contract of an amount that the accounts then expect.
  pub KeepsCover-in :
      {token : Token T} (laws : TokenLaws token) {self from a : Address} {e : Symbol} {amount : ℤ}
      {s s' : Store T}
      → from ≢ self
      → token.transfer s.tokens a from self amount ≡ some s'.tokens
      → ((f : Symbol) (b : Address)
          → expected_balance f b s'
            ≡ expected_balance f b s +ℤ (if f == e && b == a then amount else pos 0))
      → KeepsCover token self e s s'
  KeepsCover-in {token} laws {self} {from} {a} {e} {amount} {s} {s'} apart paid owed = record {
    event = λ b.
        inflow (token.balance s.tokens b self) (expected_balance e b s)
          (if b == a then amount else pos 0) (left b) (rw (owed e b, eq_self e) refl);
    others = λ f b other.
        let no : (f == e) ≡ false = ground arith in
        rw (owed f b, no) (add_zero (expected_balance f b s));
  }
    where
      left :
          (b : Address)
          → token.balance s'.tokens b self
            ≡ token.balance s.tokens b self -ℤ pos 0 +ℤ (if b == a then amount else pos 0)
      left b =
          let no : (self == from) ≡ false = ground arith in
          laws.moves s.tokens s'.tokens a from self amount paid b self ∙ elim (eq-cases b a) [
            | inl (t, same) ↦ rw (t, eq_self self, no) refl
            | inr (t, different) ↦ rw t refl
          ]

  pub Charged-nothing :
      (token : Token T) (self payer a : Address) (e : Symbol) (s : Store T)
      → Charged token self payer a e (pos 0) s s
  Charged-nothing token self payer a e s = record {
    balances =
        λ b h. unmoved (b == a && h == payer) (b == a && h == self) (token.balance s.tokens b h);
    expected = λ f b. unraised (f == e && b == a) (expected_balance f b s);
  }

  -- The expected balance after each of the three accounts takes an amount.
  pub owed-refunds :
      (e : Symbol) (a : Address) (amount : ℤ) (s s' : Store T)
      → SameBooks (add_total_token_refunds e a amount s) s'
      → (f : Symbol) (b : Address)
      → expected_balance f b s'
        ≡ expected_balance f b s -ℤ (if f == e && b == a then amount else pos 0)
  unfolding expected_balance add_total_token_refunds get_total_token_volume get_total_token_refunds
      get_total_token_withdrawn
  owed-refunds e a amount s s' h f b =
      rw (h.volume, h.refunds, h.withdrawn)
        (elim (eq-cases f e) [
          | inl (t, same) ↦ elim (eq-cases b a) [
            | inl (u, hit) ↦ rw (t, u, same, hit) (omega int_laws)
            | inr (u, miss) ↦ rw (t, u) (omega int_laws)
          ]
          | inr (t, other) ↦ rw t (omega int_laws)
        ])

  pub owed-withdrawn :
      (e : Symbol) (a : Address) (amount : ℤ) (s s' : Store T)
      → SameBooks (add_total_token_withdrawn e a amount s) s'
      → (f : Symbol) (b : Address)
      → expected_balance f b s'
        ≡ expected_balance f b s -ℤ (if f == e && b == a then amount else pos 0)
  unfolding expected_balance add_total_token_withdrawn get_total_token_volume
      get_total_token_refunds get_total_token_withdrawn
  owed-withdrawn e a amount s s' h f b =
      rw (h.volume, h.refunds, h.withdrawn)
        (elim (eq-cases f e) [
          | inl (t, same) ↦ elim (eq-cases b a) [
            | inl (u, hit) ↦ rw (t, u, same, hit) (omega int_laws)
            | inr (u, miss) ↦ rw (t, u) (omega int_laws)
          ]
          | inr (t, other) ↦ rw t (omega int_laws)
        ])

  pub owed-volume :
      (e : Symbol) (a : Address) (amount : ℤ) (s s' : Store T)
      → SameBooks (add_total_token_volume e a amount s) s'
      → (f : Symbol) (b : Address)
      → expected_balance f b s'
        ≡ expected_balance f b s +ℤ (if f == e && b == a then amount else pos 0)
  unfolding expected_balance add_total_token_volume get_total_token_volume get_total_token_refunds
      get_total_token_withdrawn
  owed-volume e a amount s s' h f b =
      rw (h.volume, h.refunds, h.withdrawn)
        (elim (eq-cases f e) [
          | inl (t, same) ↦ elim (eq-cases b a) [
            | inl (u, hit) ↦ rw (t, u, same, hit) (omega int_laws)
            | inr (u, miss) ↦ rw (t, u) (omega int_laws)
          ]
          | inr (t, other) ↦ rw t (omega int_laws)
        ])
