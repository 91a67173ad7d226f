-- ===== src/Payments/Resale.antt =====
-- The resale of tickets, and the entry points that buy one: `pay_for_ticket` and its variants,
-- `list_ticket_for_resale`, `delist_ticket` and `buy_resale_ticket` of lib.rs, and
-- `remove_owner_ticket_map` of storage.rs, in contracts/payments/src. A sale also moves the ticket
-- in the ticket contract, whose storage it takes and returns.
use zicket_contract.Base.{
  ltb, ◌==◌, if◌then◌else◌, ◌>>=◌, ◌>>◌, err_if, ok_or, unwrap_or, ok, Address, Symbol, Bytes,
  update, update₂, require_auth, call_env, invoke, Env, ℕ, ◌-◌, Bool, false, ◌&&◌, not, Option,
  none, some,
}
use zicket_contract.Base.Int.{ℤ, pos, ◌+ℤ◌, ◌-ℤ◌, ltb_ℤ, eqb_ℤ, of_bps}
use zicket_contract.Payments.Types.{
  PaymentPrivacy, ResaleListing, EventConfig, Token, Store, standard, ticket_not_found,
  unauthorized, invalid_amount, not_initialized, invalid_organizer,
}
use zicket_contract.Payments.Storage.{Call, get_payment, get_ticket, add_owner_ticket_map}
use zicket_contract.Payments.Accounts.{add_event_token_revenue, add_event_revenue}
use zicket_contract.Payments.Purchase.{require_not_paused, create_payment}
use zicket_contract.Payments.Refunds.{pay}
use zicket_contract.Ticket.Contract.{admin_transfer_ticket}
use zicket_contract.Ticket.Types

-- `ticket.owner.as_ref() == Some(&seller)`
abbrev pub is_owner : Option Address → Address → Bool
is_owner none seller = false
is_owner (some owner) seller = owner == seller

-- Whether the price is above the cap of the event, where it has one.
abbrev pub above_cap : Option ℤ → ℤ → Bool
above_cap none price = false
above_cap (some max_price) price = ltb_ℤ max_price price

-- The three tests of a ticket that cost nothing.
unfoldable pub check_free_ticket : Bool → ℤ → ℤ → Call (Unit {0})
check_free_ticket allow_transfer amount price = do
  err_if (eqb_ℤ amount (pos 0) && ltb_ℤ (pos 0) price && not allow_transfer) invalid_amount
  err_if (not allow_transfer && eqb_ℤ amount (pos 0)) invalid_amount
  err_if (eqb_ℤ amount (pos 0) && ltb_ℤ (pos 0) price) invalid_amount

module _ {T : Type 0} where
  unfoldable pub pay_for_ticket :
      Env
      → Token T
      → ℕ
      → Address
      → Symbol
      → ℤ
      → Option Bytes
      → Address
      → PaymentPrivacy
      → Option Bytes
      → Option Bytes
      → Store T
      → Call (ℕ × Store T)
  unfolding create_payment
  pay_for_ticket env token nonce payer event_id amount email_hash token_address privacy_level
        nullifier_commitment stealth_delivery_key s =
      create_payment env token
        (record {
          nonce = nonce;
          payer = payer;
          event_id = event_id;
          amount = amount;
          token_address = token_address;
          is_anonymous = false;
          is_verified = false;
          privacy_level = privacy_level;
          email_hash = email_hash;
          zk_email_commitment = none;
          nullifier_commitment = nullifier_commitment;
          stealth_delivery_key = stealth_delivery_key;
        })
        s

  unfoldable pub pay_for_ticket_with_commitment :
      Env
      → Token T
      → ℕ
      → Address
      → Symbol
      → ℤ
      → Option Bytes
      → Address
      → PaymentPrivacy
      → Option Bytes
      → Store T
      → Call (ℕ × Store T)
  unfolding create_payment
  pay_for_ticket_with_commitment env token nonce payer event_id amount email_hash token_address
        privacy_level zk_email_commitment s =
      create_payment env token
        (record {
          nonce = nonce;
          payer = payer;
          event_id = event_id;
          amount = amount;
          token_address = token_address;
          is_anonymous = false;
          is_verified = false;
          privacy_level = privacy_level;
          email_hash = email_hash;
          zk_email_commitment = zk_email_commitment;
          nullifier_commitment = none;
          stealth_delivery_key = none;
        })
        s

  unfoldable pub pay_for_ticket_with_options :
      Env
      → Token T
      → ℕ
      → Address
      → Symbol
      → ℤ
      → Address
      → Bool
      → Bool
      → Store T
      → Call (ℕ × Store T)
  unfolding create_payment
  pay_for_ticket_with_options env token nonce payer event_id amount token_address is_anonymous
        is_verified s =
      create_payment env token
        (record {
          nonce = nonce;
          payer = payer;
          event_id = event_id;
          amount = amount;
          token_address = token_address;
          is_anonymous = is_anonymous;
          is_verified = is_verified;
          privacy_level = standard;
          email_hash = none;
          zk_email_commitment = none;
          nullifier_commitment = none;
          stealth_delivery_key = none;
        })
        s

  -- "Swap with last element": the last ticket takes the place of the removed one.
  unfoldable pub swap_with_last : Address → ℕ → ℕ → Store T → Store T
  swap_with_last owner idx last_idx s =
      if ltb idx last_idx
      then elim (s.owner_ticket_index owner last_idx) [
        | none ↦ s
        | some last_ticket_id ↦ record s {
          owner_ticket_index = update₂ s.owner_ticket_index owner idx (some last_ticket_id);
          owner_ticket = update₂ s.owner_ticket owner last_ticket_id (some idx);
        }
      ]
      else s

  -- The rest of `remove_owner_ticket_map` once the membership entry, which held `idx`, is gone.
  unfoldable pub remove_owner_index : Address → ℕ → Store T → Store T
  unfolding swap_with_last
  remove_owner_index owner idx s =
      let count = unwrap_or (s.owner_tickets_count owner) 0 in
      if count == 0
      then s
      else let last_idx = count - 1 in
        let t = swap_with_last owner idx last_idx s in
        record t {
          owner_ticket_index = update₂ t.owner_ticket_index owner last_idx none;
          owner_tickets_count = update t.owner_tickets_count owner (some last_idx);
        }

  unfoldable pub remove_owner_ticket_map : Address → ℕ → Store T → Store T
  unfolding remove_owner_index
  remove_owner_ticket_map owner ticket_id s =
      let t = record s { owner_ticket = update₂ s.owner_ticket owner ticket_id none } in
      elim (s.owner_ticket owner ticket_id) [ none ↦ t | some idx ↦ remove_owner_index owner idx t ]

  abbrev pub add_platform_revenue : Symbol → ℤ → Store T → Store T
  add_platform_revenue event_id amount s = record s {
    platform_revenue =
        update s.platform_revenue event_id
          (some (unwrap_or (s.platform_revenue event_id) (pos 0) +ℤ amount));
  }

  abbrev pub remove_resale_listing : ℕ → Store T → Store T
  remove_resale_listing ticket_id s = record s {
    resale_listing = update s.resale_listing ticket_id none;
  }

  unfoldable pub list_ticket_for_resale : Env → Address → ℕ → ℤ → Store T → Call (Store T)
  unfolding require_not_paused get_ticket get_payment check_free_ticket
  list_ticket_for_resale env seller ticket_id price s = do
    require_not_paused s
    require_auth env seller
    ticket ← get_ticket ticket_id s
    err_if (not (is_owner ticket.owner seller)) unauthorized
    config ← ok_or (s.event_config ticket.event_id) invalid_organizer
    payment ← get_payment ticket.payment_id s
    check_free_ticket config.allow_free_ticket_transfer payment.amount price
    err_if (above_cap config.max_resale_price price) invalid_amount
    ok (record s {
      resale_listing =
          update s.resale_listing ticket_id (some (record { price = price; seller = seller }));
    })

  unfoldable pub delist_ticket : Env → Address → ℕ → Store T → Call (Store T)
  unfolding require_not_paused
  delist_ticket env seller ticket_id s = do
    require_not_paused s
    require_auth env seller
    listing ← ok_or (s.resale_listing ticket_id) ticket_not_found
    err_if (not (listing.seller == seller)) unauthorized
    ok (remove_resale_listing ticket_id s)

  -- The platform's part and the organizer's royalty stay in the contract and are booked.
  unfoldable pub book_resale : Symbol → Address → ℤ → ℤ → Store T → Store T
  unfolding add_event_revenue add_event_token_revenue
  book_resale event_id asset platform_fee royalty s =
      let t =
        if ltb_ℤ (pos 0) platform_fee then add_platform_revenue event_id platform_fee s else s in
      if ltb_ℤ (pos 0) royalty
      then add_event_token_revenue event_id asset royalty (add_event_revenue event_id royalty t)
      else t

  -- The money of a sale, where its price is positive.
  unfoldable pub settle_resale :
      Env → Token T → Address → ResaleListing → EventConfig → Symbol → Store T → Call (Store T)
  unfolding pay book_resale
  settle_resale env token buyer listing config event_id s =
      let platform_fee = of_bps listing.price (unwrap_or s.platform_fee_bps 0) in
      let royalty = of_bps listing.price config.resale_royalty_bps in
      let proceeds = listing.price -ℤ platform_fee -ℤ royalty in
      if ltb_ℤ (pos 0) listing.price
      then (pay token config.payout_token buyer env.current_contract_address listing.price s
          >>= λ t.
              (if ltb_ℤ (pos 0) proceeds
                then pay token config.payout_token env.current_contract_address listing.seller
                    proceeds t
                else ok t)
              >>= λ u. ok (book_resale event_id config.payout_token platform_fee royalty u))
      else ok s

  -- The error for a seller who no longer owns the ticket rolls the removal of the listing back.
  unfoldable pub buy_resale_ticket :
      Env → Token T → Address → ℕ → Store T → Types.Store → Call (Store T × Types.Store)
  unfolding require_not_paused get_ticket settle_resale admin_transfer_ticket
      remove_owner_ticket_map add_owner_ticket_map
  buy_resale_ticket env token buyer ticket_id s tickets = do
    require_not_paused s
    require_auth env buyer
    listing ← ok_or (s.resale_listing ticket_id) ticket_not_found
    ticket ← get_ticket ticket_id s
    err_if (not (is_owner ticket.owner listing.seller)) unauthorized
    config ← ok_or (s.event_config ticket.event_id) invalid_organizer
    t ← settle_resale env token buyer listing config ticket.event_id s
    ticket_contract ← ok_or t.ticket_contract not_initialized
    tickets' ← invoke (
        admin_transfer_ticket (call_env env ticket_contract) env.current_contract_address
          listing.seller buyer ticket_id tickets)
    u ← add_owner_ticket_map buyer ticket_id (
        remove_owner_ticket_map listing.seller ticket_id (record t {
          tickets = update t.tickets ticket_id (some (record ticket { owner = some buyer }));
        }))
    ok (remove_resale_listing ticket_id u, tickets')
