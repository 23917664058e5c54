-- ===== src/Tracking/Positions/Freshness.antt =====
-- snapshot.go with service.go: what the safety rule takes for a fresh position.
use farbo_rastreamento.Prelude.{◌+◌, ◌≤◌, false, some, List, ◌≡◌, arith}
use farbo_rastreamento.Protocols.Floats.{FloatOps}
use farbo_rastreamento.Commands.Store.{no_reason}
use farbo_rastreamento.Commands.Service.{Device, Env, at_check}
use farbo_rastreamento.Commands.Request.{engine_cut_blocked, blocked_at}
use farbo_rastreamento.Tracking.Positions.{
  Position, latest_with_location, snapshot_of, snapshot_from,
}

module _ {F : Type 0} ⦃fl : FloatOps F⦄ where
  -- An engine cut is let through on the last position by the tracker's clock until that one has
  -- been stored for longer than `EngineCutMaxPositionAge`, if its speed is not above the limit,
  -- however long ago the tracker took it.
  pub engine_cut_blocked-received :
      (env : Env F) (device : Device) (ps : List (Position F)) (p : Position F)
      → env.snapshot device.id ≡ some (snapshot_of device.id ps)
      → latest_with_location device.id ps ≡ some p
      → env.clock at_check ≤ p.received_at + env.max_age
      → fl.lt env.max_speed p.speed_kmh ≡ false
      → engine_cut_blocked env device ≡ no_reason
  unfolding engine_cut_blocked blocked_at snapshot_of snapshot_from
  engine_cut_blocked-received env device ps p read last recent slow = ground arith
