-- ===== src/H02/Binary/Safety.antt =====
-- binary.go: what a binary frame that is accepted holds. A frame that is cut in the wrong place has
-- to become an error, and not a plausible position.
use farbo_rastreamento.Prelude.{ℕ, ◌/◌, ◌%◌, ◌≤◌, ◌≡◌, true, false, Option, none, some, ok}
use farbo_rastreamento.Protocols.Floats.{FloatOps, valid_coordinates}
use farbo_rastreamento.Protocols.Imei.{validate_imei}
use farbo_rastreamento.Protocols.Message.{TrackerMessage, MessageKind, position, alarm, AlarmLabel}

-- Two decimal digits in a byte.
abbrev pub IsBcd : ℕ → Type 0
IsBcd b = (b / 16 ≤ 9) × (b % 16 ≤ 9)

abbrev kind_of : Option AlarmLabel → MessageKind
kind_of none = position
kind_of (some _) = alarm

-- An accepted position: the identifier is valid, the place is on the globe, the course on the
-- compass, and it is an alarm exactly when it has the label of one.
pub record IsPlausible {F : Type 0} ⦃fl : FloatOps F⦄ (msg : TrackerMessage F) : Type 0 where
  pub identified : validate_imei msg.imei ≡ ok tt
  pub placed : msg.has_location ≡ true
  pub on_globe : valid_coordinates msg.latitude msg.longitude ≡ true
  pub on_compass : fl.lt (fl.of_nat 360) msg.heading ≡ false
  pub kinded : msg.kind ≡ kind_of msg.alarm_label
