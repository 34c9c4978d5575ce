-- ===== src/Tests/Couriers.antt =====
-- Couriers, ingestion and resets on concrete data. The reading of datetimes is a unary one, which
-- meets what is asked of pydantic's.
use trackrelay.Prelude.{
  if◌then◌else◌, ℤ, ◌>>=◌, ◌==◌, string_equality, nat_equality, option_equality, pair_equality, ℕ,
  zero, suc, String, ◌≡◌, refl, ap, ◌∙◌, Option, none, some, ok, pos, negsuc,
}
use trackrelay.Domain.Timestamp.{AwareDatetime}
use trackrelay.Domain.Json.{Json, Fields, str, int, obj, field, end}
use trackrelay.Domain.Shipment.{ShipmentStatus}
use trackrelay.Domain.Event.{Pydantic, PydanticLaws, NormalizedEvent}
use trackrelay.Partners.{identifier_field, datetime_field, normalized_event}
use trackrelay.Partners.Alpha.{
  AlphaStatusCode, CourierAlphaPayload, alpha_status_field, validate_alpha, normalize_alpha,
  dump_alpha, alpha_replay,
}
use trackrelay.Partners.Beta.{
  BetaStatusCode, CourierBetaPayload, beta_status_field, beta_timestamp_field, from_timestamp,
  validate_beta, normalize_beta, dump_beta, beta_replay,
}
use trackrelay.Partners.Gamma.{
  GammaStatusCode, GammaNotification, gamma_status_field, gamma_time_field, validate_notification,
  validate_gamma, normalize_gamma, dump_notification, dump_gamma, gamma_replay,
}

abbrev marks : ℕ → String → String
marks zero rest = rest
marks (suc n) rest = String.◌∷◌ "a" (marks n rest)

abbrev count_marks : String → ℕ × String
count_marks String.[] = (0, "")
count_marks (String.◌∷◌ c s) =
    let (n, rest) = count_marks s in
    if String.◌∷◌ c String.[] == "a" then (suc n, rest) else (0, String.◌∷◌ c s)

abbrev offset_of : String → Option ℤ
offset_of String.[] = none
offset_of (String.◌∷◌ c s) =
    let n = (count_marks s).0 in
    if String.◌∷◌ c String.[] == "p" then some (pos n) else some (negsuc n)

abbrev dump_offset : ℤ → String
dump_offset (pos n) = String.◌∷◌ "p" (marks n "")
dump_offset (negsuc n) = String.◌∷◌ "n" (marks n "")

abbrev dated : ℕ → Option ℤ → Option AwareDatetime
dated n none = none
dated n (some offset) = some (record { instant = n; utc_offset = offset })

abbrev read_parts : ℕ × String → Option AwareDatetime
read_parts (n, rest) = dated n (offset_of rest)

abbrev read_text : String → Option AwareDatetime
read_text text = read_parts (count_marks text)

abbrev read_datetime : Json → Option AwareDatetime
read_datetime (str text) = read_text text
read_datetime _ = none

abbrev pub unary : Pydantic
unary = record {
  strip = λ s. s;
  parse_datetime = read_datetime;
  dump_datetime = λ t. marks t.instant (dump_offset t.utc_offset);
}

count_marks-end : (n : ℕ) → count_marks (marks n "") ≡ (n, "")
count_marks-end zero = refl
count_marks-end (suc n) = rw (count_marks-end n)

count_marks-offset : (n : ℕ) (z : ℤ) → count_marks (marks n (dump_offset z)) ≡ (n, dump_offset z)
count_marks-offset zero (pos k) = refl
count_marks-offset zero (negsuc k) = refl
count_marks-offset (suc n) z = rw (count_marks-offset n z)

offset_of-dump : (z : ℤ) → offset_of (dump_offset z) ≡ some z
offset_of-dump (pos n) = rw (count_marks-end n)
offset_of-dump (negsuc n) = rw (count_marks-end n)

read_text-dump :
    (n : ℕ) (z : ℤ)
    → read_text (marks n (dump_offset z)) ≡ some (record { instant = n; utc_offset = z })
read_text-dump n z = ap read_parts (count_marks-offset n z) ∙ ap (dated n) (offset_of-dump z)

unary_laws : PydanticLaws unary
unary_laws = record {
  strip-strip = λ s. refl;
  parse-dump = λ t. read_text-dump t.instant t.utc_offset;
}

abbrev pub noon : AwareDatetime
noon = record { instant = 3; utc_offset = pos 0 }

abbrev pub alpha_body : Fields
alpha_body = field "event_id" (str "e1") (
    field "tracking_number" (str "T1")
      (field "status" (str "POD") (field "event_time" (str "aaap") end)))

abbrev alpha_payload : CourierAlphaPayload
alpha_payload = record {
  event_id = "e1";
  tracking_number = "T1";
  status = AlphaStatusCode.delivered;
  event_time = noon;
}

abbrev event_of_body : String → ShipmentStatus → AwareDatetime → Fields → NormalizedEvent
event_of_body partner_id status occurred_at body = record {
  partner_id = partner_id;
  partner_event_id = "e1";
  tracking_number = "T1";
  status = status;
  occurred_at = occurred_at;
  received_at = noon;
  raw_payload = body;
  test_run_id = none;
}

abbrev alpha_event : NormalizedEvent
alpha_event = event_of_body "alpha" ShipmentStatus.delivered noon alpha_body

alpha_valid : validate_alpha unary alpha_body ≡ ok alpha_payload
unfolding validate_alpha identifier_field datetime_field alpha_status_field
alpha_valid = refl

alpha_normal : normalize_alpha unary alpha_payload "alpha" noon ≡ ok alpha_event
unfolding normalize_alpha normalized_event dump_alpha
alpha_normal = refl

alpha_replay_example :
    (validate_alpha unary alpha_event.raw_payload ≡ ok alpha_payload)
    × ((validate_alpha unary alpha_event.raw_payload >>= λ q. normalize_alpha unary q "alpha" noon)
        ≡ ok alpha_event)
alpha_replay_example =
    alpha_replay unary unary_laws alpha_body alpha_payload "alpha" noon alpha_event alpha_valid
      alpha_normal

abbrev beta_body : Fields
beta_body = field "messageId" (str "e1") (
    field "awb" (str "T1")
      (field "statusCode" (int (pos 72)) (field "timestamp" (int (pos 5)) end)))

abbrev beta_payload : CourierBetaPayload
beta_payload = record {
  message_id = "e1";
  awb = "T1";
  status_code = BetaStatusCode.delivered;
  timestamp = 5;
}

abbrev beta_event : NormalizedEvent
beta_event =
    event_of_body "beta" ShipmentStatus.delivered
      (record { instant = 62135596805000000; utc_offset = pos 0 }) beta_body

beta_valid : validate_beta unary beta_body ≡ ok beta_payload
unfolding validate_beta identifier_field beta_timestamp_field beta_status_field
beta_valid = refl

beta_normal : normalize_beta unary beta_payload "beta" noon ≡ ok beta_event
unfolding normalize_beta normalized_event dump_beta from_timestamp
beta_normal = refl

beta_replay_example :
    (validate_beta unary beta_event.raw_payload ≡ ok beta_payload)
    × ((validate_beta unary beta_event.raw_payload >>= λ q. normalize_beta unary q "beta" noon)
        ≡ ok beta_event)
beta_replay_example =
    beta_replay unary unary_laws beta_body beta_payload "beta" noon beta_event beta_valid
      beta_normal

abbrev gamma_body : Fields
gamma_body =
    field "notification"
      (obj (
        field "reference" (str "e1") (
          field "trackingNumber" (str "T1")
            (field "status" (str "DELIVERED") (field "occurredAt" (str "aaap") end)))))
      end

abbrev notification : GammaNotification
notification = record {
  reference = "e1";
  tracking_number = "T1";
  status = GammaStatusCode.delivered;
  occurred_at = noon;
}

abbrev gamma_event : NormalizedEvent
gamma_event = event_of_body "gamma" ShipmentStatus.delivered noon gamma_body

gamma_valid : validate_gamma unary gamma_body ≡ ok notification
unfolding validate_gamma validate_notification identifier_field gamma_time_field gamma_status_field
    datetime_field
gamma_valid = refl

gamma_normal : normalize_gamma unary notification "gamma" noon ≡ ok gamma_event
unfolding normalize_gamma normalized_event dump_gamma dump_notification
gamma_normal = refl

gamma_replay_example :
    (validate_gamma unary gamma_event.raw_payload ≡ ok notification)
    × ((validate_gamma unary gamma_event.raw_payload >>= λ q. normalize_gamma unary q "gamma" noon)
        ≡ ok gamma_event)
gamma_replay_example =
    gamma_replay unary unary_laws gamma_body notification "gamma" noon gamma_event gamma_valid
      gamma_normal
