-- ===== src/Tkstar/V1/Safety.antt =====
-- protocol_v1.go: what a message with a place holds.
use farbo_rastreamento.Prelude.{◌≡◌, true, false, ◌⊎◌, ok}
use farbo_rastreamento.Protocols.Floats.{FloatOps, valid_coordinates}
use farbo_rastreamento.Protocols.Imei.{validate_imei}
use farbo_rastreamento.Protocols.Message.{TrackerMessage, position, alarm, other}

module _ {F : Type 0} ⦃fl : FloatOps F⦄ where
  -- Before the fix is read a message has no place, and a type that is not settled or an alarm.
  record IsFresh (msg : TrackerMessage F) : Type 0 where
    unplaced : msg.has_location ≡ false
    identified : validate_imei msg.imei ≡ ok tt
    unsettled : (msg.kind ≡ other) ⊎ (msg.kind ≡ alarm)

  pub record IsLocated (msg : TrackerMessage F) : Type 0 where
    pub identified : validate_imei msg.imei ≡ ok tt
    pub on_globe : valid_coordinates msg.latitude msg.longitude ≡ true
    pub kinded : (msg.kind ≡ position) ⊎ (msg.kind ≡ alarm)
