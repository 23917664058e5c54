-- ===== src/Commands/Request/Safety.antt =====
-- service.go: when a request may reach the socket, and how it changes the table.
use farbo_rastreamento.Prelude.{
  ℕ, ◌+◌, ◌≤◌, true, false, Option, none, some, List, [], ◌∷◌, ◌≡◌, ◌≢◌, refl, subst, ◌⊎◌, inl, inr,
  arith, Result, ok, err,
}
use farbo_rastreamento.Prelude.Words.{Bytes}
use farbo_rastreamento.Protocols.Floats.{FloatOps}
use farbo_rastreamento.Protocols.Message.{CommandType, engine_cut}
use farbo_rastreamento.Commands.Store.{Reason, no_reason, notice, Row, StoreError}
use farbo_rastreamento.Commands.Service.{
  Snapshot, Device, Request, Adapter, Env, World, at_check, EventKind, Effect, transmitted,
  record_engine_event,
}
use farbo_rastreamento.Commands.Request.{
  rejected_with, reject, announce_rejection, blocked_at, engine_cut_blocked, guard, guarded,
  send_by, send_typed, send,
}

-- What the sockets took, the newest first.
unfoldable pub transmissions : List Effect → List (Bytes × Bytes)
transmissions [] = []
transmissions (transmitted imei payload ∷ es) = (imei, payload) ∷ transmissions es
transmissions (_ ∷ es) = transmissions es

pub transmissions-record_engine_event :
    (now : ℕ) (r : Row) (kind : Option EventKind) (w : World)
    → transmissions (record_engine_event now r kind w).trace ≡ transmissions w.trace
unfolding record_engine_event transmissions
transmissions-record_engine_event now r none w = refl
transmissions-record_engine_event now r (some kind) w = refl

transmissions-rejected_with :
    {F : Type 0} (env : Env F) (req : Request) (why : Reason) (o : Result StoreError Row)
    (w : World)
    → transmissions (rejected_with env req why o w).1.trace ≡ transmissions w.trace
unfolding rejected_with announce_rejection transmissions
transmissions-rejected_with env req why (err e) w = refl
transmissions-rejected_with env req why (ok c) w = refl

-- A rejected request transmits nothing.
transmissions-reject :
    {F : Type 0} (env : Env F) (req : Request) (typ : CommandType) (why : Reason) (w : World)
    → transmissions (reject env req typ why w).1.trace ≡ transmissions w.trace
unfolding reject
transmissions-reject env req typ why w = transmissions-rejected_with env req why _ _

-- Only a guard that finds no reason lets a request through.
transmissions-guarded :
    {F : Type 0} (env : Env F) (req : Request) (typ : CommandType) (adapter : Adapter)
    (why : Reason) (w : World)
    → (why ≡ no_reason)
      ⊎ (transmissions (guarded env req typ adapter why w).1.trace ≡ transmissions w.trace)
unfolding guarded
transmissions-guarded env req typ adapter no_reason w = inl refl
transmissions-guarded env req typ adapter (notice n) w = inr (transmissions-reject env req typ _ w)
transmissions-guarded env req typ adapter (Reason.position_too_old a) w =
    inr (transmissions-reject env req typ _ w)
transmissions-guarded env req typ adapter Reason.too_fast w =
    inr (transmissions-reject env req typ _ w)
transmissions-guarded env req typ adapter (Reason.said t) w =
    inr (transmissions-reject env req typ _ w)

-- The vehicle is known to stand, or to move slowly, and has been seen lately.
pub record IsSafe {F : Type 0} ⦃fl : FloatOps F⦄ (env : Env F) (device : ℕ) : Type 0 where
  pub seen : Snapshot F
  pub read : env.snapshot device ≡ some seen
  pub known : seen.has_position ≡ true
  pub recent : env.clock at_check ≤ seen.timestamp + env.max_age
  pub slow : fl.lt env.max_speed seen.speed_kmh ≡ false

module _ {F : Type 0} ⦃fl : FloatOps F⦄ where
  blocked_at-none :
      (env : Env F) (device : ℕ) (o : Option (Snapshot F))
      → env.snapshot device ≡ o
      → blocked_at env o ≡ no_reason
      → IsSafe env device
  unfolding blocked_at
  blocked_at-none env device none e h = ground arith
  blocked_at-none env device (some s) e h = record {
    seen = s;
    read = e;
    known = ground arith;
    recent = ground arith;
    slow = ground arith;
  }

  engine_cut_blocked-none :
      (env : Env F) (device : Device)
      → engine_cut_blocked env device ≡ no_reason
      → IsSafe env device.id
  unfolding engine_cut_blocked
  engine_cut_blocked-none env device h = blocked_at-none env device.id _ refl h

  send_by-cut :
      (env : Env F) (req : Request) (o : Option Adapter) (w : World)
      → transmissions (send_by env req engine_cut o w).1.trace ≢ transmissions w.trace
      → IsSafe env req.device.id
  unfolding send_by guard
  send_by-cut env req none w h = absurd (h refl)
  send_by-cut env req (some adapter) w h =
      let why = engine_cut_blocked env req.device in
      elim (transmissions-guarded env req engine_cut adapter why w) [
        | inl e ↦ engine_cut_blocked-none env req.device e
        | inr e ↦ absurd (h e)
      ]

  -- Whatever fails, a request to cut the engine reaches the socket only when the last position of
  -- the vehicle could be read, is known, is at most `EngineCutMaxPositionAge` old and has a speed
  -- that is not above `EngineCutMaxSpeedKmh`.
  pub send-cut-IsSafe :
      (env : Env F) (req : Request) (w : World)
      → req.typ ≡ some engine_cut
      → transmissions (send env req w).1.trace ≢ transmissions w.trace
      → IsSafe env req.device.id
  unfolding send send_typed
  send-cut-IsSafe env req w cuts h =
      send_by-cut env req (env.by_name req.device.protocol) w
        (subst (λ o. transmissions (send_typed env req o w).1.trace ≢ transmissions w.trace) cuts h)
