-- ===== src/Domain/Shipment.antt =====
-- domain/shipment.py: the statuses and the rule for a transition.
pub mod Progress
use trackrelay.Prelude.{
  ltb, leb, nat_beq, if◌then◌else◌, nat_beq_iff, Bool-cases, Option-cases, is_none, or_zero, length,
  take, length-append, length-map, All, All-append, All-map_imp, int_beq, ℤ, Done, ◌>>=◌, ◌>>◌,
  Exec, Result-cases, Error, Result, ◌==◌, string_equality, nat_equality, option_beq,
  option_beq_iff, option_equality, pair_beq, pair_beq_iff, pair_equality, beq_refl, Equality,
  member, add, add_all, set_of, union, difference, is_subset, same_set, Nodup, member-append,
  add_all-Nodup, member-add_all, length-le-count_rows, lookup, put, put_all, dict_of, keys, values,
  put_all-Nodup, member-put_all, lookup-put, member-eq-lookup, select, scalar, exists_row,
  update_rows, count_rows, exists_row-append, scalar-append, select-append, exists_row-eq-scalar,
  scalar_holds, length-update_rows, exists_row-update_rows, All-update_rows, scalar-update_rows,
  scalar-update_rows_ne, ℕ, zero, suc, ◌+◌, ◌-◌, ◌*◌, ◌/◌, ◌%◌, ◌≤◌, ◌<◌, min, max, String, ◌≡◌,
  refl, sym, ap, ◌∙◌, subst, ◌≢◌, ◌↔◌, ◌⊎◌, inl, inr, Bool, true, false, not, ◌&&◌, ◌||◌, Option,
  none, some, List, [], ◌∷◌, ◌++◌, map, arith, eq_iff, ok, err, integrity_error, sqlalchemy_error,
  http_status_error, transport_error, unexpected_error, queue_error, receive_error,
  message_decode_error, acknowledgement_error, persisted_event_not_found,
  recorded_delivery_inconsistent, outbox_entry_not_found, backlog_inspection_error,
  redrive_policy_error, validation_error, experiment_reset_error, value_error, pos, negsuc,
}

pub data ShipmentStatus : Type 0 where
  created picked_up in_transit out_for_delivery delivered : ShipmentStatus

pub data TransitionRejectionReason : Type 0 where
  stale_event non_forward_transition terminal_state : TransitionRejectionReason

-- the values of the enumeration
unfoldable pub reason_value : TransitionRejectionReason → String
reason_value stale_event = "stale_event"
reason_value non_forward_transition = "non_forward_transition"
reason_value terminal_state = "terminal_state"

pub record ShipmentTransitionDecision : Type 0 where
  pub applied : Bool
  pub rejection_reason : Option TransitionRejectionReason

-- `STATUS_ORDER`: the position in the enumeration
abbrev pub status_order : ShipmentStatus → ℕ
status_order created = 0
status_order picked_up = 1
status_order in_transit = 2
status_order out_for_delivery = 3
status_order delivered = 4

-- `a is b`
abbrev pub status_is : ShipmentStatus → ShipmentStatus → Bool
status_is a b = nat_beq (status_order a) (status_order b)

pub status_is_iff : (a b : ShipmentStatus) → (status_is a b ≡ true) ↔ (a ≡ b)
status_is_iff a b = ground arith

instance abbrev pub status_equality : Equality ShipmentStatus
status_equality = record { equal = status_is; equal_iff = status_is_iff }

abbrev rejected : TransitionRejectionReason → ShipmentTransitionDecision
rejected reason = record { applied = false; rejection_reason = some reason }

-- The two times are instants: both arguments are aware datetimes.
unfoldable pub evaluate_shipment_transition :
    ShipmentStatus → ℕ → ShipmentStatus → ℕ → ShipmentTransitionDecision
evaluate_shipment_transition current_status current_occurred_at incoming_status
      incoming_occurred_at =
    if ltb incoming_occurred_at current_occurred_at
    then rejected stale_event
    else if status_is current_status delivered
    then rejected terminal_state
    else if leb (status_order incoming_status) (status_order current_status)
    then rejected non_forward_transition
    else record { applied = true; rejection_reason = none }
