-- ===== src/Lib.antt =====
-- The contracts of Zicket, an event ticketing system for Soroban: events, tickets, payments held in
-- escrow, and the utilities they share.
--
-- The event contract creates events, moves them through their states and sells the seats of their
-- tiers; it has the ticket contract mint a ticket for each seat and the payments contract collect its
-- price. The payments contract holds the money and keeps accounts by event and token; the organizer
-- and the recipients of a revenue split are paid when the event is over or in steps before, or
-- attendees get their money back by a refund or a dispute. The ticket contract mints, transfers, uses
-- and recovers tickets and lists them by owner and by event. Revenue splits and the masks of addresses
-- in events come from shared utilities.
--
-- Files and sources (paths from the root of the repository):
--   Base, Base/*            the language of a call: its result (a value, an error or a trap), checked
--                           machine arithmetic, the host, storage maps, calls of another contract, and
--                           the amounts; Base/Results has what every result of a call satisfies
--   Index, Index/Listing    lists that a contract keeps as counted entries, with swap and remove
--   Ticket/Types, Storage, Contract, Admin   contracts/ticket/src, each entry point under its own name
--   Ticket/Invariant, ...   the proofs on the ticket contract; Ticket/History has calls in sequence
--   CommonUtils/Splits      contracts/common-utils/src/validation.rs and revenue.rs
--   PrivacyUtils            contracts/privacy-utils/src/lib.rs
--   Payments/Types          types.rs, errors.rs and the keys of storage.rs in contracts/payments/src
--   Payments/Storage, Accounts               contracts/payments/src/storage.rs
--   Payments/Identity       build_payment_record, build_ticket, and the masks of events.rs
--   Payments/Purchase       create_payment of contracts/payments/src/lib.rs, in named parts
--   Payments/Refunds, Disputes, Withdrawals, Splits, Release, Resale, Admin
--                           the other entry points of that lib.rs
--   Payments/Escrow, Conservation, Deposits, Replay, Processing, Payouts
--                           what each call does to the escrow
--   Payments/Once, Bounds, Privacy, Cancellation, SplitRules, Cohosts, Receipts   further proofs
--   Event/Types, Storage    types.rs, errors.rs, events.rs and storage.rs in contracts/event/src
--   Event/Tiers, Create, Status, Registration, Claims, Admin   contracts/event/src/lib.rs
--   Event/PublicInputs      the byte strings that it gives to the verifier of anonymous claims
--   Event/Evolution, Changes, Lifecycle, Schedule, Sales, ClaimSales, Checkout, Settings,
--   Event/History           how each call, and each history of calls, changes the stored events
--   Event/Records, Enrollment, Once, Attendance, Encoding, Charges, Cover   further proofs
--   Payments/Fixtures and the modules named Tests hold runs at concrete storages
--
-- A storage is a record with one field for each key of the contract, a map being a function into
-- options. A call takes the host, its arguments and the storage and returns the new storage; an error
-- or a trap rolls the invocation back in the host, so it carries none. A call of the event contract
-- takes a World, the storages of the three contracts, and calls the others through `invoke`, where a
-- failure of the other contract ends the call, or `try_invoke`, where it is an error of the caller's
-- own; the other contract takes the event contract as having signed. Addresses, symbols and
-- byte strings are natural numbers, used up to equality only, but the public inputs of a claim are
-- lists of bytes. u32 and u64 additions trap on overflow, as the release profile has overflow checks;
-- amounts (i128) are unbounded integers, which a call that returns has computed. Loops over stored
-- lists are structural recursion, so nothing needs fuel. Encoding, hashing and signatures are fields
-- of the host; the codec of a claim, with the verifier's answer, is a parameter, and so are the token
-- contracts, with one law, that a transfer moves the amount and changes no other balance.
--
-- Left out: the expiry of storage entries (extend_ttl), plain getters, the storage helpers that no
-- entry point uses, the factory contract, and the proof verifiers.
pub mod Base
pub mod Index
pub mod CommonUtils
pub mod PrivacyUtils
pub mod Ticket
pub mod Payments
pub mod Event
