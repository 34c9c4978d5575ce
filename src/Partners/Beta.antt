-- ===== src/Partners/Beta.antt =====
-- partners/beta.py: the contract of Courier Beta.
use trackrelay.Prelude.{
  ltb, leb, if◌then◌else◌, ◌>>=◌, Result, ◌==◌, string_equality, nat_equality, option_equality,
  pair_equality, ℕ, ◌+◌, ◌*◌, String, ◌≡◌, refl, Option, none, some, List, [], ◌∷◌, arith, ok, err,
  validation_error, value_error, pos,
}
use trackrelay.Domain.Timestamp.{AwareDatetime}
use trackrelay.Domain.Json.{Json, Fields, str, int, field, end, get}
use trackrelay.Domain.Shipment.{ShipmentStatus}
use trackrelay.Domain.Event.{Pydantic, PydanticLaws, NormalizedEvent}
use trackrelay.Partners.{
  forbid_extra, valid, identifier_field, normalized_event, identifier_field_again,
  normalized_event-raw_payload,
}

pub data BetaStatusCode : Type 0 where
  created picked_up in_transit out_for_delivery delivered : BetaStatusCode

abbrev pub beta_value : BetaStatusCode → ℕ
beta_value created = 10
beta_value picked_up = 20
beta_value in_transit = 30
beta_value out_for_delivery = 60
beta_value delivered = 72

-- the member with a value
abbrev pub beta_member : ℕ → Option BetaStatusCode
beta_member code =
    if code == 10
    then some created
    else if code == 20
    then some picked_up
    else if code == 30
    then some in_transit
    else if code == 60
    then some out_for_delivery
    else if code == 72
    then some delivered
    else none

-- `require_integer_status_code`, and the enumeration: a bool or a string is no `int`.
unfoldable pub beta_status_field : Option Json → Result BetaStatusCode
beta_status_field (some (int (pos code))) = valid (beta_member code)
beta_status_field _ = err validation_error

-- `StrictInt = Field(gt=0)`
unfoldable pub beta_timestamp_field : Option Json → Result ℕ
beta_timestamp_field (some (int (pos n))) = if ltb 0 n then ok n else err validation_error
beta_timestamp_field _ = err validation_error

-- `BETA_STATUS_MAP`
abbrev pub beta_status_map : BetaStatusCode → ShipmentStatus
beta_status_map created = ShipmentStatus.created
beta_status_map picked_up = ShipmentStatus.picked_up
beta_status_map in_transit = ShipmentStatus.in_transit
beta_status_map out_for_delivery = ShipmentStatus.out_for_delivery
beta_status_map delivered = ShipmentStatus.delivered

pub record CourierBetaPayload : Type 0 where
  pub message_id : String
  pub awb : String
  pub status_code : BetaStatusCode
  pub timestamp : ℕ

abbrev pub beta_fields : List String
beta_fields = "messageId" ∷ "awb" ∷ "statusCode" ∷ "timestamp" ∷ []

-- `datetime.fromtimestamp(seconds, tz=UTC)`, which raises after the year 9999.
unfoldable pub from_timestamp : ℕ → Result AwareDatetime
from_timestamp seconds =
    if leb seconds 253402300799
    then ok (record { instant = (62135596800 + seconds) * 1000000; utc_offset = pos 0 })
    else err value_error

module _ (p : Pydantic) where
  -- `CourierBetaPayload.model_validate`, by the aliases of the fields
  unfoldable pub validate_beta : Fields → Result CourierBetaPayload
  validate_beta fields = do
    _ ← forbid_extra beta_fields fields
    message_id ← identifier_field p (get "messageId" fields)
    awb ← identifier_field p (get "awb" fields)
    status_code ← beta_status_field (get "statusCode" fields)
    timestamp ← beta_timestamp_field (get "timestamp" fields)
    ok (record {
      message_id = message_id;
      awb = awb;
      status_code = status_code;
      timestamp = timestamp;
    })

  -- `model_dump(mode="json", by_alias=True)`
  unfoldable pub dump_beta : CourierBetaPayload → Fields
  dump_beta payload = field "messageId" (str payload.message_id) (
      field "awb" (str payload.awb) (
        field "statusCode" (int (pos (beta_value payload.status_code)))
          (field "timestamp" (int (pos payload.timestamp)) end)))

  unfoldable pub normalize_beta :
      CourierBetaPayload → String → AwareDatetime → Result NormalizedEvent
  normalize_beta payload partner_id received_at = do
    occurred_at ← from_timestamp payload.timestamp
    normalized_event p partner_id payload.message_id payload.awb
        (beta_status_map payload.status_code) occurred_at received_at (dump_beta payload)

  beta_status_again :
      (code : BetaStatusCode) → beta_status_field (some (int (pos (beta_value code)))) ≡ ok code
  unfolding beta_status_field
  beta_status_again created = refl
  beta_status_again picked_up = refl
  beta_status_again in_transit = refl
  beta_status_again out_for_delivery = refl
  beta_status_again delivered = refl

  beta_timestamp_again :
      (j : Option Json) (n : ℕ)
      → beta_timestamp_field j ≡ ok n
      → beta_timestamp_field (some (int (pos n))) ≡ ok n
  unfolding beta_timestamp_field
  beta_timestamp_again j n h = ground arith

  beta_raw :
      (payload : CourierBetaPayload) (partner_id : String) (received_at : AwareDatetime)
      (e : NormalizedEvent)
      → normalize_beta payload partner_id received_at ≡ ok e
      → e.raw_payload ≡ dump_beta payload
  unfolding normalize_beta from_timestamp
  beta_raw payload partner_id received_at e n = ground (
    arith,
    normalized_event-raw_payload p partner_id payload.message_id payload.awb
        (beta_status_map payload.status_code)
        (record { instant = (62135596800 + payload.timestamp) * 1000000; utc_offset = pos 0 })
        received_at (dump_beta payload) e,
  )

  module _ (laws : PydanticLaws p) where
    validate-dump_beta :
        (fields : Fields) (payload : CourierBetaPayload)
        → validate_beta fields ≡ ok payload
        → validate_beta (dump_beta payload) ≡ ok payload
    unfolding validate_beta dump_beta
    validate-dump_beta fields payload h = ground (
      arith,
      identifier_field_again p laws (get "messageId" fields) payload.message_id,
      identifier_field_again p laws (get "awb" fields) payload.awb,
      beta_status_again payload.status_code,
      beta_timestamp_again (get "timestamp" fields) payload.timestamp,
    )

    -- By what pydantic documents of strings, a body that Courier Beta's contract accepts and that
    -- normalizes is stored, in the normalized event, as a body that is accepted again, as the same
    -- payload, and that normalizes to the same event.
    pub beta_replay :
        (fields : Fields) (payload : CourierBetaPayload) (partner_id : String)
        (received_at : AwareDatetime) (e : NormalizedEvent)
        → validate_beta fields ≡ ok payload
        → normalize_beta payload partner_id received_at ≡ ok e
        → (validate_beta e.raw_payload ≡ ok payload)
          × ((validate_beta e.raw_payload >>= λ q. normalize_beta q partner_id received_at) ≡ ok e)
    beta_replay fields payload partner_id received_at e h n =
        let again : validate_beta e.raw_payload ≡ ok payload =
          rw (beta_raw payload partner_id received_at e n) (validate-dump_beta fields payload h) in
        (again, rw again n)
