-- ===== src/Partners.antt =====
-- partners/*.py: what the contracts of the three couriers share. A ValidationError is a value;
-- which fields it names is left out. `strip` and the datetimes are pydantic's.
pub mod Alpha
pub mod Beta
pub mod Gamma
use trackrelay.Prelude.{
  ltb, leb, nat_beq, if◌then◌else◌, nat_beq_iff, Bool-cases, Option-cases, is_none, or_zero, length,
  take, length-append, length-map, All, All-append, All-map_imp, int_beq, ℤ, Done, ◌>>=◌, ◌>>◌,
  Exec, Result-cases, Error, Result, ◌==◌, string_equality, nat_equality, option_beq,
  option_beq_iff, option_equality, pair_beq, pair_beq_iff, pair_equality, beq_refl, Equality,
  select, scalar, exists_row, update_rows, count_rows, exists_row-append, scalar-append,
  select-append, exists_row-eq-scalar, scalar_holds, length-update_rows, exists_row-update_rows,
  All-update_rows, scalar-update_rows, scalar-update_rows_ne, ℕ, zero, suc, ◌+◌, ◌-◌, ◌*◌, ◌/◌, ◌%◌,
  ◌≤◌, ◌<◌, min, max, String, ◌≡◌, refl, sym, ap, ◌∙◌, subst, ◌≢◌, ◌↔◌, ◌⊎◌, inl, inr, Bool, true,
  false, not, ◌&&◌, ◌||◌, Option, none, some, List, [], ◌∷◌, ◌++◌, map, arith, eq_iff, ok, err,
  integrity_error, sqlalchemy_error, http_status_error, transport_error, unexpected_error,
  queue_error, receive_error, message_decode_error, acknowledgement_error,
  persisted_event_not_found, recorded_delivery_inconsistent, outbox_entry_not_found,
  backlog_inspection_error, redrive_policy_error, validation_error, experiment_reset_error,
  value_error, pos, negsuc,
}
use trackrelay.Domain.Timestamp.{AwareDatetime}
use trackrelay.Domain.Json.{Json, Fields, str, get, only_keys}
use trackrelay.Domain.Shipment.{ShipmentStatus}
use trackrelay.Domain.Event.{Pydantic, PydanticLaws, NormalizedEvent, identifier}

-- `extra="forbid"`
abbrev pub forbid_extra : List String → Fields → Result Done
forbid_extra names fields = if only_keys names fields then ok tt else err validation_error

abbrev pub valid {ℓ} : {A : Type ℓ} → Option A → Result A
valid none = err validation_error
valid (some a) = ok a

module _ (p : Pydantic) where
  -- A field of the type `Identifier`: required, and a string.
  unfoldable pub identifier_field : Option Json → Result String
  unfolding identifier
  identifier_field (some (str s)) = valid (identifier p s)
  identifier_field _ = err validation_error

  -- A field of the type `AwareDatetime`.
  unfoldable pub datetime_field : Option Json → Result AwareDatetime
  datetime_field none = err validation_error
  datetime_field (some j) = valid (p.parse_datetime j)

  -- `NormalizedEvent(…)`, which validates its own identifiers.
  unfoldable pub normalized_event :
      String
      → String
      → String
      → ShipmentStatus
      → AwareDatetime
      → AwareDatetime
      → Fields
      → Result NormalizedEvent
  unfolding identifier
  normalized_event partner_id partner_event_id tracking_number status occurred_at received_at
        raw_payload =
      do
        partner ← valid (identifier p partner_id)
        event ← valid (identifier p partner_event_id)
        tracking ← valid (identifier p tracking_number)
        ok (record {
          partner_id = partner;
          partner_event_id = event;
          tracking_number = tracking;
          status = status;
          occurred_at = occurred_at;
          received_at = received_at;
          raw_payload = raw_payload;
          test_run_id = none;
        })

  pub normalized_event-raw_payload :
      (partner_id event_id tracking_number : String) (status : ShipmentStatus)
      (occurred_at received_at : AwareDatetime) (raw : Fields) (e : NormalizedEvent)
      → normalized_event partner_id event_id tracking_number status occurred_at received_at raw
        ≡ ok e
      → e.raw_payload ≡ raw
  unfolding normalized_event
  normalized_event-raw_payload partner_id event_id tracking_number status occurred received raw e
        h =
      ground arith

  module _ (laws : PydanticLaws p) where
    -- An identifier that was read is read again as it is.
    pub identifier_field_again :
        (j : Option Json) (s : String)
        → identifier_field j ≡ ok s
        → identifier_field (some (str s)) ≡ ok s
    unfolding identifier_field
    identifier_field_again none s h = absurd (cc)
    identifier_field_again (some Json.null) s h = absurd (cc)
    identifier_field_again (some (Json.bool _)) s h = absurd (cc)
    identifier_field_again (some (Json.int _)) s h = absurd (cc)
    identifier_field_again (some (Json.float _)) s h = absurd (cc)
    identifier_field_again (some (Json.arr _)) s h = absurd (cc)
    identifier_field_again (some (Json.obj _)) s h = absurd (cc)
    identifier_field_again (some (str t)) s h = ground (arith, laws.strip-strip t)

    pub datetime_field_again :
        (t : AwareDatetime) → datetime_field (some (str (p.dump_datetime t))) ≡ ok t
    unfolding datetime_field
    datetime_field_again t = rw (laws.parse-dump t)
