-- ===== src/Downstream.antt =====
-- The order-system simulator (src/trackrelay/downstream/*.py): its control state, its store of
-- receipts, and the handlers of its API. Locks make each method atomic.
pub mod Receipts
use trackrelay.Prelude.{
  ltb, leb, nat_beq, if◌then◌else◌, nat_beq_iff, Bool-cases, Option-cases, is_none, or_zero, ◌>>=◌,
  ◌>>◌, length, take, length-append, length-map, All, All-append, All-map_imp, int_beq, ℤ, Done,
  Exec, Result-cases, Error, Result, ◌==◌, nat_equality, string_equality, option_beq,
  option_beq_iff, option_equality, pair_beq, pair_beq_iff, pair_equality, beq_refl, Equality,
  select, scalar, exists_row, update_rows, count_rows, exists_row-append, scalar-append,
  select-append, exists_row-eq-scalar, scalar_holds, length-update_rows, exists_row-update_rows,
  All-update_rows, scalar-update_rows, scalar-update_rows_ne, ℕ, zero, suc, ◌+◌, ◌-◌, ◌*◌, ◌/◌, ◌%◌,
  ◌≤◌, ◌<◌, min, max, String, ◌≡◌, refl, sym, ap, ◌∙◌, subst, ◌≢◌, ◌↔◌, ◌⊎◌, inl, inr, Bool, true,
  false, not, ◌&&◌, ◌||◌, Option, none, some, List, [], ◌∷◌, ◌++◌, map, arith, eq_iff, ok, err,
  integrity_error, sqlalchemy_error, http_status_error, transport_error, unexpected_error,
  queue_error, receive_error, message_decode_error, acknowledgement_error,
  persisted_event_not_found, recorded_delivery_inconsistent, outbox_entry_not_found,
  backlog_inspection_error, redrive_policy_error, value_error, pos, negsuc,
}
use trackrelay.Domain.Event.{Uuid, NormalizedEvent}

-- downstream/control.py
pub data SimulatorMode : Type 0 where
  healthy return_500 slow timeout unavailable : SimulatorMode

abbrev pub is_healthy : SimulatorMode → Bool
is_healthy healthy = true
is_healthy _ = false

-- `MODE_DELAY_SECONDS`, in milliseconds
unfoldable pub simulator_delay_ms : SimulatorMode → ℕ
simulator_delay_ms healthy = 0
simulator_delay_ms return_500 = 0
simulator_delay_ms slow = 1000
simulator_delay_ms timeout = 6000
simulator_delay_ms unavailable = 0

-- downstream/store.py
pub record DownstreamRecordResult : Type 0 where
  pub received_count : ℕ
  pub duplicate : Bool

pub record DownstreamEventStore : Type 0 where
  pub events : List NormalizedEvent
  pub idempotency_keys : List Uuid

abbrev pub empty_store : DownstreamEventStore
empty_store = record { events = []; idempotency_keys = [] }

abbrev pub has_key : Uuid → List Uuid → Bool
has_key key = exists_row (λ k. k == key)

-- `idempotency_key is not None and idempotency_key in self._idempotency_keys`
abbrev pub is_replay : Option Uuid → List Uuid → Bool
is_replay none keys = false
is_replay (some key) keys = has_key key keys

abbrev pub add_key : Option Uuid → List Uuid → List Uuid
add_key none keys = keys
add_key (some key) keys = keys ++ key ∷ []

unfoldable pub record_event :
    NormalizedEvent
    → Option Uuid
    → DownstreamEventStore
    → DownstreamRecordResult × DownstreamEventStore
record_event event idempotency_key store =
    if is_replay idempotency_key store.idempotency_keys
    then (record { received_count = length store.events; duplicate = true }, store)
    else (
      record { received_count = length store.events + 1; duplicate = false },
      record {
        events = store.events ++ event ∷ [];
        idempotency_keys = add_key idempotency_key store.idempotency_keys;
      },
    )

unfoldable pub clear : DownstreamEventStore → ℕ × DownstreamEventStore
clear store = (length store.events, empty_store)

-- downstream/main.py: the process's two global objects.
pub record Simulator : Type 0 where
  pub mode : SimulatorMode
  pub store : DownstreamEventStore

pub data Reply : Type 0 where
  -- 202 with the body of an accepted event
  accepted : DownstreamRecordResult → Reply
  -- an HTTPException with its status code
  refused : ℕ → Reply

abbrev pub reply_code : Reply → ℕ
reply_code (accepted _) = 202
reply_code (refused code) = code

-- `receive_event`; a delay only postpones the record, so it is not a part of the state.
abbrev pub receive_in_mode :
    SimulatorMode → NormalizedEvent → Option Uuid → Simulator → Reply × Simulator
receive_in_mode return_500 event idempotency_key s = (refused 500, s)
receive_in_mode unavailable event idempotency_key s = (refused 503, s)
receive_in_mode _ event idempotency_key s =
    let (result, store) = record_event event idempotency_key s.store in
    (accepted result, record s { store = store })

unfoldable pub receive_event : NormalizedEvent → Option Uuid → Simulator → Reply × Simulator
unfolding record_event
receive_event event idempotency_key s = receive_in_mode s.mode event idempotency_key s

unfoldable pub list_events : Option Uuid → Simulator → List NormalizedEvent
list_events none s = s.store.events
list_events (some run) s = select (λ e. e.test_run_id == some run) s.store.events

unfoldable pub set_mode : SimulatorMode → Simulator → SimulatorMode × Simulator
set_mode mode s = (mode, record s { mode = mode })

unfoldable pub reset_mode : Simulator → Simulator
unfolding set_mode
reset_mode s = (set_mode healthy s).1

unfoldable pub clear_simulator_events : Simulator → ℕ × Simulator
unfolding clear
clear_simulator_events s = let (count, store) = clear s.store in (count, record s { store = store })

unfoldable pub count_simulator_events : Simulator → ℕ
count_simulator_events s = length s.store.events
