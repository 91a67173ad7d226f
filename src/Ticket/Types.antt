-- ===== src/Ticket/Types.antt =====
-- The data of the ticket contract: types.rs, errors.rs, events.rs and the `DataKey` of storage.rs
-- in contracts/ticket/src. The event log is newest first.
use zicket_contract.Base.{ℕ, Bool, Option, List, Address, Symbol, Bytes}

pub data TicketStatus : Type 0 where
  valid used cancelled : TicketStatus

pub record Ticket : Type 0 where
  pub ticket_id : ℕ
  pub event_id : Symbol
  pub organizer : Address
  pub owner : Address
  pub issued_at : ℕ
  pub status : TicketStatus
  pub is_transferable : Bool
  pub is_used : Bool

pub data TicketError : Type 0 where
  ticket_not_found ticket_already_exists invalid_status_transition unauthorized : TicketError
  invalid_input ticket_not_active invalid_ticket_date invalid_ticket_count : TicketError
  invalid_price ticket_not_updatable ticket_not_transferable transfer_to_self : TicketError
  ticket_already_used event_not_active migration_failed unsupported_version : TicketError
  recovery_key_not_found invalid_recovery_signature ticket_not_used : TicketError

pub data TicketEvent : Type 0 where
  -- ticket, event, owner, organizer, time
  ticket_minted : ℕ → Symbol → Address → Address → ℕ → TicketEvent
  -- ticket, event, from, to, time
  ticket_transferred : ℕ → Symbol → Address → Address → ℕ → TicketEvent
  -- ticket, event, owner, time
  ticket_used : ℕ → Symbol → Address → ℕ → TicketEvent
  ticket_cancelled : ℕ → Symbol → Address → ℕ → TicketEvent
  -- ticket, owner, time
  ticket_recovery_key_set : ℕ → Address → ℕ → TicketEvent
  -- ticket, old owner, new owner, time
  ticket_recovered : ℕ → Address → Address → ℕ → TicketEvent
  -- ticket, event, owner, hash, time
  attendance_credential_issued : ℕ → Symbol → Address → Bytes → ℕ → TicketEvent

-- A field for each variant of `DataKey`, and the events that were published.
pub record Store : Type 0 where
  pub tickets : ℕ → Option Ticket
  pub owner_ticket : Address → ℕ → Option ℕ
  pub event_ticket : Symbol → ℕ → Option Bool
  pub next_ticket_id : Option ℕ
  pub contract_version : Option ℕ
  pub admin : Option Address
  pub recovery_key : ℕ → Option Bytes
  pub payments_contract : Option Address
  pub event_contract : Option Address
  pub owner_ticket_index : Address → ℕ → Option ℕ
  pub owner_tickets_count : Address → Option ℕ
  pub event_ticket_index : Symbol → ℕ → Option ℕ
  pub event_tickets_count : Symbol → Option ℕ
  pub attendance_credential : ℕ → Option Bytes
  pub events : List TicketEvent

-- The storage of a new contract.
abbrev pub empty : Store
empty = record {
  tickets = λ _. Option.none;
  owner_ticket = λ _ _. Option.none;
  event_ticket = λ _ _. Option.none;
  next_ticket_id = Option.none;
  contract_version = Option.none;
  admin = Option.none;
  recovery_key = λ _. Option.none;
  payments_contract = Option.none;
  event_contract = Option.none;
  owner_ticket_index = λ _ _. Option.none;
  owner_tickets_count = λ _. Option.none;
  event_ticket_index = λ _ _. Option.none;
  event_tickets_count = λ _. Option.none;
  attendance_credential = λ _. Option.none;
  events = List.[];
}
