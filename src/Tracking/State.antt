-- ===== src/Tracking/State.antt =====
-- state.go: the state that heartbeats and status packets carry, and the store of it in memory. What
-- is saved in the background for the next start is left out.
use farbo_rastreamento.Prelude.{ℕ, Bool, false, Option, none, some, List, []}
use farbo_rastreamento.Prelude.Maps.{set_at}
use farbo_rastreamento.Protocols.Calendar.{Time}

pub record State (F : Type 0) : Type 0 where
  pub device_id : ℕ
  pub overspeed : Bool
  pub acc : Option Bool
  pub gps_valid : Option Bool
  pub relay_on : Option Bool
  pub battery_percent : Option ℕ
  pub battery_voltage : Option F
  pub gsm_level : Option ℕ
  pub inside_fences : List ℕ
  pub last_heartbeat_at : Option Time
  pub updated_at : Time

-- The map of a `StateStore`.
abbrev pub States : Type 0 → Type 0
States F = ℕ → Option (State F)

abbrev pub fresh_state : {F : Type 0} → ℕ → State F
fresh_state device = record {
  device_id = device;
  overspeed = false;
  acc = none;
  gps_valid = none;
  relay_on = none;
  battery_percent = none;
  battery_voltage = none;
  gsm_level = none;
  inside_fences = [];
  last_heartbeat_at = none;
  updated_at = 0;
}

abbrev pub or_fresh : {F : Type 0} → ℕ → Option (State F) → State F
or_fresh device (some s) = s
or_fresh device none = fresh_state device

-- The state before an update.
unfoldable pub state_of : {F : Type 0} → ℕ → States F → State F
state_of device states = or_fresh device (states device)

-- The state after it.
unfoldable pub updated : {F : Type 0} → Time → ℕ → (State F → State F) → States F → State F
unfolding state_of
updated now device mutate states = record (mutate (state_of device states)) {
  device_id = device;
  updated_at = now;
}

unfoldable pub update : {F : Type 0} → Time → ℕ → (State F → State F) → States F → States F
unfolding updated
update now device mutate states = set_at states device (some (updated now device mutate states))
