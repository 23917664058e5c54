-- ===== src/Devices/Sweep.antt =====
-- `SweepStatuses`: what it announces and when it has nothing left to do.
use mathlib.Core.List.Memᴰ
use farbo_rastreamento.Prelude.{true, List, ◌≡◌, ◌≢◌, ◌↔◌, arith}
use mathlib.Core.List.{Memᴰ}
use farbo_rastreamento.Protocols.Calendar.{Time}
use farbo_rastreamento.Devices.{
  Status, online, stale, offline, status_eq, DeviceRow, StatusChange, next_status, sweep_statuses,
}

pub status_eq_iff : (s t : Status) → (status_eq s t ≡ true) ↔ (s ≡ t)
unfolding status_eq
status_eq_iff online online = ground arith
status_eq_iff online stale = ground arith
status_eq_iff online offline = ground arith
status_eq_iff stale online = ground arith
status_eq_iff stale stale = ground arith
status_eq_iff stale offline = ground arith
status_eq_iff offline online = ground arith
status_eq_iff offline stale = ground arith
status_eq_iff offline offline = ground arith

module _ (now stale_after offline_after : Time) where
  -- The state that a row gets, and the change of a row.
  abbrev pub due : DeviceRow → Status
  due d = next_status now stale_after offline_after d.last_seen_at

  abbrev pub change_of : DeviceRow → StatusChange
  change_of d = record { device_id = d.id; imei = d.imei; from = d.status; to = due d }

  -- The row of a change.
  abbrev pub Moved : List DeviceRow → StatusChange → Type 0
  Moved ds c = (d : DeviceRow) × Memᴰ d ds × (d.status ≢ due d) × (c ≡ change_of d)

  abbrev pub sweep_at : List DeviceRow → List DeviceRow × List StatusChange
  sweep_at = sweep_statuses now stale_after offline_after
