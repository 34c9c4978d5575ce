-- ===== src/Partners/Alpha.antt =====
-- partners/alpha.py: the contract of Courier Alpha.
use trackrelay.Prelude.{
  if◌then◌else◌, ◌>>=◌, Result, ◌==◌, string_equality, nat_equality, option_equality, pair_equality,
  String, ◌≡◌, refl, Option, none, some, List, [], ◌∷◌, arith, ok, err, validation_error,
}
use trackrelay.Domain.Timestamp.{AwareDatetime}
use trackrelay.Domain.Json.{Json, Fields, str, field, end, get}
use trackrelay.Domain.Shipment.{ShipmentStatus}
use trackrelay.Domain.Event.{Pydantic, PydanticLaws, NormalizedEvent}
use trackrelay.Partners.{
  forbid_extra, valid, identifier_field, datetime_field, normalized_event, identifier_field_again,
  datetime_field_again, normalized_event-raw_payload,
}

pub data AlphaStatusCode : Type 0 where
  created picked_up in_transit out_for_delivery delivered : AlphaStatusCode

abbrev pub alpha_value : AlphaStatusCode → String
alpha_value created = "CREATED"
alpha_value picked_up = "PICKUP"
alpha_value in_transit = "TRANSIT"
alpha_value out_for_delivery = "OFD"
alpha_value delivered = "POD"

-- the member with a value
abbrev pub alpha_member : String → Option AlphaStatusCode
alpha_member text =
    if text == "CREATED"
    then some created
    else if text == "PICKUP"
    then some picked_up
    else if text == "TRANSIT"
    then some in_transit
    else if text == "OFD"
    then some out_for_delivery
    else if text == "POD"
    then some delivered
    else none

unfoldable pub alpha_status_field : Option Json → Result AlphaStatusCode
alpha_status_field (some (str text)) = valid (alpha_member text)
alpha_status_field _ = err validation_error

-- `ALPHA_STATUS_MAP`
abbrev pub alpha_status_map : AlphaStatusCode → ShipmentStatus
alpha_status_map created = ShipmentStatus.created
alpha_status_map picked_up = ShipmentStatus.picked_up
alpha_status_map in_transit = ShipmentStatus.in_transit
alpha_status_map out_for_delivery = ShipmentStatus.out_for_delivery
alpha_status_map delivered = ShipmentStatus.delivered

pub record CourierAlphaPayload : Type 0 where
  pub event_id : String
  pub tracking_number : String
  pub status : AlphaStatusCode
  pub event_time : AwareDatetime

abbrev pub alpha_fields : List String
alpha_fields = "event_id" ∷ "tracking_number" ∷ "status" ∷ "event_time" ∷ []

module _ (p : Pydantic) where
  -- `CourierAlphaPayload.model_validate`
  unfoldable pub validate_alpha : Fields → Result CourierAlphaPayload
  validate_alpha fields = do
    _ ← forbid_extra alpha_fields fields
    event_id ← identifier_field p (get "event_id" fields)
    tracking_number ← identifier_field p (get "tracking_number" fields)
    status ← alpha_status_field (get "status" fields)
    event_time ← datetime_field p (get "event_time" fields)
    ok (record {
      event_id = event_id;
      tracking_number = tracking_number;
      status = status;
      event_time = event_time;
    })

  -- `model_dump(mode="json", by_alias=True)`
  unfoldable pub dump_alpha : CourierAlphaPayload → Fields
  dump_alpha payload = field "event_id" (str payload.event_id) (
      field "tracking_number" (str payload.tracking_number) (
        field "status" (str (alpha_value payload.status))
          (field "event_time" (str (p.dump_datetime payload.event_time)) end)))

  unfoldable pub normalize_alpha :
      CourierAlphaPayload → String → AwareDatetime → Result NormalizedEvent
  normalize_alpha payload partner_id received_at =
      normalized_event p partner_id payload.event_id payload.tracking_number
        (alpha_status_map payload.status) payload.event_time received_at (dump_alpha payload)

  alpha_status_again :
      (code : AlphaStatusCode) → alpha_status_field (some (str (alpha_value code))) ≡ ok code
  unfolding alpha_status_field
  alpha_status_again created = refl
  alpha_status_again picked_up = refl
  alpha_status_again in_transit = refl
  alpha_status_again out_for_delivery = refl
  alpha_status_again delivered = refl

  module _ (laws : PydanticLaws p) where
    -- What a payload is dumped as is read as the same payload, since its identifiers are.
    validate-dump_alpha :
        (fields : Fields) (payload : CourierAlphaPayload)
        → validate_alpha fields ≡ ok payload
        → validate_alpha (dump_alpha payload) ≡ ok payload
    unfolding validate_alpha dump_alpha
    validate-dump_alpha fields payload h = ground (
      arith,
      identifier_field_again p laws (get "event_id" fields) payload.event_id,
      identifier_field_again p laws (get "tracking_number" fields) payload.tracking_number,
      alpha_status_again payload.status,
      datetime_field_again p laws payload.event_time,
    )

    -- By what pydantic documents of strings and datetimes, a body that Courier Alpha's contract
    -- accepts and that normalizes is stored, in the normalized event, as a body that is accepted
    -- again, as the same payload, and that normalizes to the same event.
    pub alpha_replay :
        (fields : Fields) (payload : CourierAlphaPayload) (partner_id : String)
        (received_at : AwareDatetime) (e : NormalizedEvent)
        → validate_alpha fields ≡ ok payload
        → normalize_alpha payload partner_id received_at ≡ ok e
        → (validate_alpha e.raw_payload ≡ ok payload)
          × ((validate_alpha e.raw_payload >>= λ q. normalize_alpha q partner_id received_at)
              ≡ ok e)
    unfolding normalize_alpha
    alpha_replay fields payload partner_id received_at e h n =
        let stored =
          normalized_event-raw_payload p partner_id payload.event_id payload.tracking_number
            (alpha_status_map payload.status) payload.event_time received_at (dump_alpha payload) e
            n in
        let again : validate_alpha e.raw_payload ≡ ok payload =
          rw (stored) (validate-dump_alpha fields payload h) in
        (again, rw again n)
