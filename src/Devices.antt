-- ===== src/Devices.antt =====
-- backend/internal/devices: the trackers and their state of connection. The descriptive columns of
-- the table are left out.
pub mod Rows
pub mod Sweep
mod Examples
use farbo_rastreamento.Prelude.{
  ℕ, suc, ◌+◌, Bool, true, false, Option, none, some, List, [], ◌∷◌, map, ltb, ◌==◌, if◌then◌else◌,
}
use farbo_rastreamento.Prelude.Words.{Bytes}
use farbo_rastreamento.Prelude.Maps.{text_eq}
use farbo_rastreamento.Protocols.Calendar.{Time}
use farbo_rastreamento.Protocols.Text.{trim_space}

pub data Status : Type 0 where
  online stale offline : Status

unfoldable pub status_eq : Status → Status → Bool
status_eq online online = true
status_eq stale stale = true
status_eq offline offline = true
status_eq _ _ = false

pub record DeviceRow : Type 0 where
  pub id : ℕ
  pub imei : Bytes
  pub protocol : Bytes
  pub status : Status
  pub last_seen_at : Option Time

pub record StatusChange : Type 0 where
  pub device_id : ℕ
  pub imei : Bytes
  pub from : Status
  pub to : Status

unfoldable pub get_by_id : ℕ → List DeviceRow → Option DeviceRow
get_by_id id [] = none
get_by_id id (d ∷ ds) = if d.id == id then some d else get_by_id id ds

unfoldable pub get_by_imei : Bytes → List DeviceRow → Option DeviceRow
unfolding text_eq trim_space
get_by_imei imei [] = none
get_by_imei imei (d ∷ ds) = if text_eq d.imei (trim_space imei) then some d else get_by_imei imei ds

-- An UPDATE of the row with an id.
abbrev pub at_id : ℕ → (DeviceRow → DeviceRow) → DeviceRow → DeviceRow
at_id id change d = if d.id == id then change d else d

unfoldable pub update_row : ℕ → (DeviceRow → DeviceRow) → List DeviceRow → List DeviceRow
update_row id change = map (at_id id change)

-- `GREATEST(COALESCE(last_seen_at, $2), $2)`.
unfoldable pub latest : Time → Option Time → Time
latest seen none = seen
latest seen (some old) = if ltb old seen then seen else old

unfoldable pub touched : Time → DeviceRow → DeviceRow
unfolding latest
touched seen d = record d { last_seen_at = some (latest seen d.last_seen_at); status = online }

-- `Touch` and `SetProtocol`.
unfoldable pub touch : ℕ → Time → List DeviceRow → List DeviceRow
unfolding update_row touched
touch id seen = update_row id (touched seen)

unfoldable pub set_protocol : ℕ → Bytes → List DeviceRow → List DeviceRow
unfolding update_row
set_protocol id protocol = update_row id (λ d. record d { protocol = protocol })

-- The state that the last packet gives at a time.
unfoldable pub next_status : Time → Time → Time → Option Time → Status
next_status now stale_after offline_after none = offline
next_status now stale_after offline_after (some seen) =
    if ltb (seen + offline_after) now
    then offline
    else if ltb (seen + stale_after) now
    then stale
    else online

-- `SweepStatuses`: the rows after it, and the changes, which only devices of another state have.
unfoldable pub swept : Time → Time → Time → DeviceRow → DeviceRow
unfolding next_status
swept now stale_after offline_after d = record d {
  status = next_status now stale_after offline_after d.last_seen_at;
}

unfoldable pub changes : Time → Time → Time → List DeviceRow → List StatusChange
unfolding next_status status_eq
changes now stale_after offline_after [] = []
changes now stale_after offline_after (d ∷ ds) =
    let next = next_status now stale_after offline_after d.last_seen_at in
    let rest = changes now stale_after offline_after ds in
    if status_eq d.status next
    then rest
    else record { device_id = d.id; imei = d.imei; from = d.status; to = next } ∷ rest

unfoldable pub sweep_statuses :
    Time → Time → Time → List DeviceRow → List DeviceRow × List StatusChange
unfolding swept changes
sweep_statuses now stale_after offline_after ds =
    (map (swept now stale_after offline_after) ds, changes now stale_after offline_after ds)

unfoldable pub count_online : List DeviceRow → ℕ
unfolding status_eq
count_online [] = 0
count_online (d ∷ ds) = if status_eq d.status online then suc (count_online ds) else count_online ds
