-- ===== src/Partners/Gamma.antt =====
-- partners/gamma.py: the contract of Courier Gamma, a nested notification.
use trackrelay.Prelude.{
  if◌then◌else◌, int_beq, ◌>>=◌, Result, ◌==◌, string_equality, nat_equality, option_equality,
  pair_equality, String, ◌≡◌, refl, Option, none, some, List, [], ◌∷◌, arith, ok, err,
  validation_error, pos,
}
use trackrelay.Domain.Timestamp.{AwareDatetime}
use trackrelay.Domain.Json.{Json, Fields, str, obj, field, end, get}
use trackrelay.Domain.Shipment.{ShipmentStatus}
use trackrelay.Domain.Event.{Pydantic, PydanticLaws, NormalizedEvent}
use trackrelay.Partners.{
  forbid_extra, valid, identifier_field, datetime_field, normalized_event, identifier_field_again,
  datetime_field_again, normalized_event-raw_payload,
}

pub data GammaStatusCode : Type 0 where
  created picked_up in_transit out_for_delivery delivered : GammaStatusCode

abbrev pub gamma_value : GammaStatusCode → String
gamma_value created = "CREATED"
gamma_value picked_up = "PICKED_UP"
gamma_value in_transit = "IN_TRANSIT"
gamma_value out_for_delivery = "OUT_FOR_DELIVERY"
gamma_value delivered = "DELIVERED"

-- the member with a value
abbrev pub gamma_member : String → Option GammaStatusCode
gamma_member text =
    if text == "CREATED"
    then some created
    else if text == "PICKED_UP"
    then some picked_up
    else if text == "IN_TRANSIT"
    then some in_transit
    else if text == "OUT_FOR_DELIVERY"
    then some out_for_delivery
    else if text == "DELIVERED"
    then some delivered
    else none

unfoldable pub gamma_status_field : Option Json → Result GammaStatusCode
gamma_status_field (some (str text)) = valid (gamma_member text)
gamma_status_field _ = err validation_error

-- `GAMMA_STATUS_MAP`
abbrev pub gamma_status_map : GammaStatusCode → ShipmentStatus
gamma_status_map created = ShipmentStatus.created
gamma_status_map picked_up = ShipmentStatus.picked_up
gamma_status_map in_transit = ShipmentStatus.in_transit
gamma_status_map out_for_delivery = ShipmentStatus.out_for_delivery
gamma_status_map delivered = ShipmentStatus.delivered

-- `GammaNotification`
pub record GammaNotification : Type 0 where
  pub reference : String
  pub tracking_number : String
  pub status : GammaStatusCode
  pub occurred_at : AwareDatetime

abbrev pub gamma_fields : List String
gamma_fields = "reference" ∷ "trackingNumber" ∷ "status" ∷ "occurredAt" ∷ []

-- `require_utc_timestamp`
abbrev pub require_utc : AwareDatetime → Result AwareDatetime
require_utc t = if int_beq t.utc_offset (pos 0) then ok t else err validation_error

module _ (p : Pydantic) where
  -- `require_iso_timestamp`, the type of the field, and `require_utc_timestamp`
  unfoldable pub gamma_time_field : Option Json → Result AwareDatetime
  gamma_time_field (some (str text)) = do t ← datetime_field p (some (str text)); require_utc t
  gamma_time_field _ = err validation_error

  unfoldable pub validate_notification : Fields → Result GammaNotification
  validate_notification fields = do
    _ ← forbid_extra gamma_fields fields
    reference ← identifier_field p (get "reference" fields)
    tracking_number ← identifier_field p (get "trackingNumber" fields)
    status ← gamma_status_field (get "status" fields)
    occurred_at ← gamma_time_field (get "occurredAt" fields)
    ok (record {
      reference = reference;
      tracking_number = tracking_number;
      status = status;
      occurred_at = occurred_at;
    })

  abbrev pub notification_field : Option Json → Result GammaNotification
  notification_field (some (obj fields)) = validate_notification fields
  notification_field _ = err validation_error

  -- `CourierGammaPayload.model_validate`; the payload has this one field.
  unfoldable pub validate_gamma : Fields → Result GammaNotification
  validate_gamma fields = do
    _ ← forbid_extra ("notification" ∷ []) fields
    notification_field (get "notification" fields)

  -- `model_dump(mode="json", by_alias=True)`
  unfoldable pub dump_notification : GammaNotification → Fields
  dump_notification n = field "reference" (str n.reference) (
      field "trackingNumber" (str n.tracking_number) (
        field "status" (str (gamma_value n.status))
          (field "occurredAt" (str (p.dump_datetime n.occurred_at)) end)))

  unfoldable pub dump_gamma : GammaNotification → Fields
  dump_gamma n = field "notification" (obj (dump_notification n)) end

  unfoldable pub normalize_gamma :
      GammaNotification → String → AwareDatetime → Result NormalizedEvent
  normalize_gamma n partner_id received_at =
      normalized_event p partner_id n.reference n.tracking_number (gamma_status_map n.status)
        n.occurred_at received_at (dump_gamma n)

  gamma_status_again :
      (code : GammaStatusCode) → gamma_status_field (some (str (gamma_value code))) ≡ ok code
  unfolding gamma_status_field
  gamma_status_again created = refl
  gamma_status_again picked_up = refl
  gamma_status_again in_transit = refl
  gamma_status_again out_for_delivery = refl
  gamma_status_again delivered = refl

  module _ (laws : PydanticLaws p) where
    gamma_time_again :
        (j : Option Json) (t : AwareDatetime)
        → gamma_time_field j ≡ ok t
        → gamma_time_field (some (str (p.dump_datetime t))) ≡ ok t
    unfolding gamma_time_field
    gamma_time_again j t h = ground (arith, datetime_field_again p laws t)

    validate-dump_notification :
        (fields : Fields) (n : GammaNotification)
        → validate_notification fields ≡ ok n
        → validate_notification (dump_notification n) ≡ ok n
    unfolding validate_notification dump_notification
    validate-dump_notification fields n h = ground (
      arith,
      identifier_field_again p laws (get "reference" fields) n.reference,
      identifier_field_again p laws (get "trackingNumber" fields) n.tracking_number,
      gamma_status_again n.status,
      gamma_time_again (get "occurredAt" fields) n.occurred_at,
    )

    notification_again :
        (j : Option Json) (n : GammaNotification)
        → notification_field j ≡ ok n
        → validate_notification (dump_notification n) ≡ ok n
    notification_again (some (obj fields)) n h = validate-dump_notification fields n h
    notification_again none n h = absurd (cc)
    notification_again (some Json.null) n h = absurd (cc)
    notification_again (some (Json.bool _)) n h = absurd (cc)
    notification_again (some (Json.int _)) n h = absurd (cc)
    notification_again (some (Json.float _)) n h = absurd (cc)
    notification_again (some (Json.arr _)) n h = absurd (cc)
    notification_again (some (str _)) n h = absurd (cc)

    validate-dump_gamma :
        (fields : Fields) (n : GammaNotification)
        → validate_gamma fields ≡ ok n
        → validate_gamma (dump_gamma n) ≡ ok n
    unfolding validate_gamma dump_gamma
    validate-dump_gamma fields n h =
        ground (arith, notification_again (get "notification" fields) n)

    -- By what pydantic documents of strings and datetimes, a body that Courier Gamma's contract
    -- accepts and that normalizes is stored, in the normalized event, as a body that is accepted
    -- again, as the same notification, and that normalizes to the same event.
    pub gamma_replay :
        (fields : Fields) (n : GammaNotification) (partner_id : String)
        (received_at : AwareDatetime) (e : NormalizedEvent)
        → validate_gamma fields ≡ ok n
        → normalize_gamma n partner_id received_at ≡ ok e
        → (validate_gamma e.raw_payload ≡ ok n)
          × ((validate_gamma e.raw_payload >>= λ q. normalize_gamma q partner_id received_at)
              ≡ ok e)
    unfolding normalize_gamma
    gamma_replay fields n partner_id received_at e h normal =
        let stored =
          normalized_event-raw_payload p partner_id n.reference n.tracking_number
            (gamma_status_map n.status) n.occurred_at received_at (dump_gamma n) e normal in
        let again : validate_gamma e.raw_payload ≡ ok n =
          rw (stored) (validate-dump_gamma fields n h) in
        (again, rw again normal)
