-- ===== src/Tkstar/V1/Place.antt =====
-- protocol_v1.go: the optional fields leave the place of a message alone.
use farbo_rastreamento.Prelude.{
  ◌≡◌, refl, ◌∙◌, Bool, Option, none, some, List, arith, Bool-cases, inl, inr,
}
use farbo_rastreamento.Prelude.Words.{Bytes}
use farbo_rastreamento.Protocols.Floats.{FloatOps}
use farbo_rastreamento.Protocols.Calendar.{Time}
use farbo_rastreamento.Protocols.Text.{ℤ, pos, negsuc}
use farbo_rastreamento.Protocols.Message.{TrackerMessage, MessageKind}
use farbo_rastreamento.Tkstar.Fields.{field, parse_float_field, parse_int_field}
use farbo_rastreamento.Tkstar.V1.{
  Variant, with_speed, with_course, with_timestamp, with_altitude, with_battery, with_fields,
  with_motion, with_extension, parse_v1_timestamp, field_local_time, field_utc_time, field_course,
  field_speed_kn, field_altitude, field_battery,
}

module _ {F : Type 0} ⦃fl : FloatOps F⦄ where
  -- The part of a message that says where it is from.
  abbrev pub place : TrackerMessage F → Bytes × MessageKind × Bool × F × F
  place msg = (msg.imei, msg.kind, msg.has_location, msg.latitude, msg.longitude)

  place-with_speed : (o : Option F) (msg : TrackerMessage F) → place (with_speed o msg) ≡ place msg
  unfolding with_speed
  place-with_speed none msg = refl
  place-with_speed (some v) msg = refl

  place-with_course :
      (o : Option F) (msg : TrackerMessage F) → place (with_course o msg) ≡ place msg
  unfolding with_course
  place-with_course none msg = refl
  place-with_course (some v) msg = refl

  place-with_timestamp :
      (o : Option Time) (msg : TrackerMessage F) → place (with_timestamp o msg) ≡ place msg
  unfolding with_timestamp
  place-with_timestamp none msg = refl
  place-with_timestamp (some v) msg = refl

  place-with_altitude :
      (o : Option F) (msg : TrackerMessage F) → place (with_altitude o msg) ≡ place msg
  unfolding with_altitude
  place-with_altitude none msg = refl
  place-with_altitude (some v) msg = refl

  place-with_battery :
      (o : Option ℤ) (msg : TrackerMessage F) → place (with_battery o msg) ≡ place msg
  unfolding with_battery
  place-with_battery none msg = refl
  place-with_battery (some (negsuc n)) msg = refl
  place-with_battery (some (pos n)) msg = ground arith

  place-with_motion :
      (parts : List Bytes) (msg : TrackerMessage F) → place (with_motion parts msg) ≡ place msg
  unfolding with_motion
  place-with_motion parts msg =
      let sped = with_speed (parse_float_field parts field_speed_kn) msg in
      let turned = with_course (parse_float_field parts field_course) sped in
      place-with_timestamp
        (parse_v1_timestamp (field parts field_local_time) (field parts field_utc_time)) turned
      ∙ place-with_course (parse_float_field parts field_course) sped
      ∙ place-with_speed (parse_float_field parts field_speed_kn) msg

  place-with_extension :
      (parts : List Bytes) (msg : TrackerMessage F) → place (with_extension parts msg) ≡ place msg
  unfolding with_extension
  place-with_extension parts msg =
      place-with_battery (parse_int_field parts field_battery)
        (with_altitude (parse_float_field parts field_altitude) msg)
      ∙ place-with_altitude (parse_float_field parts field_altitude) msg

  pub place-with_fields :
      (variant : Variant) (parts : List Bytes) (msg : TrackerMessage F)
      → place (with_fields variant parts msg) ≡ place msg
  unfolding with_fields
  place-with_fields variant parts msg = elim (Bool-cases variant.extended) [
    | inl longer ↦
        rw longer (place-with_extension parts (with_motion parts msg) ∙ place-with_motion parts msg)
    | inr plain ↦ rw plain (place-with_motion parts msg)
  ]
