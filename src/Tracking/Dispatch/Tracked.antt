-- ===== src/Tracking/Dispatch/Tracked.antt =====
-- The rows, the cache of devices and the times of the last writes agree: under each change of them, and in `resolveDevice`.
use mathlib.Core.Option.{some_inj}
use farbo_rastreamento.Prelude.{
  ℕ, ◌+◌, ltb, ◌||◌, Option, none, some, List, [], map, ◌≡◌, refl, ap, ◌∙◌, sym, subst, inl, inr,
  arith, Bool-cases, ◌==◌, ==_iff, Result, ok, err,
}
use farbo_rastreamento.Prelude.Words.{Bytes}
use farbo_rastreamento.Prelude.Maps.{
  lookup, insert, delete, set_at, lookup-insert, lookup-delete, text_eq,
}
use farbo_rastreamento.Protocols.Calendar.{Time}
use farbo_rastreamento.Protocols.Text.{is_empty}
use farbo_rastreamento.Tracking.Events.{Vehicle}
use farbo_rastreamento.Devices.{Status, DeviceRow, get_by_imei, update_row, touch, set_protocol}
use farbo_rastreamento.Devices.Rows.{
  Known, SeenSince, IsForward, Known-map, SeenSince-map, touch-IsForward, set_protocol-IsForward,
  touch-SeenSince, get_by_imei-Known,
}
use farbo_rastreamento.Tracking.Dispatch.{
  Ingestor, CachedDevice, CachedVehicle, Site, ResolveError, sets_protocol, reads_device, cache_ttl,
  cache_device, resolved, read_device, resolve_from, keep_vehicle, vehicle_from, vehicle_for,
  publish_status, adopt_protocol,
}

-- The part of the state that `touch` reads and writes.
abbrev pub Core : Type 0
Core = List DeviceRow × List (Bytes × CachedDevice) × (ℕ → Option Time)

abbrev pub core : {F : Type 0} → Ingestor F → Core
core s = (s.devices, s.device_cache, s.last_touch)

-- A cached device has a row, and a device with a mark has been seen at the mark or later.
pub record IsTracked (k : Core) : Type 0 where
  pub cached : (imei : Bytes) (c : CachedDevice) → lookup imei k.1 ≡ some c → Known c.device.id k.0
  pub marked : (id : ℕ) (t : Time) → k.2 id ≡ some t → SeenSince t id k.0

pub IsTracked-map :
    (g : DeviceRow → DeviceRow) (ds : List DeviceRow) (cache : List (Bytes × CachedDevice))
    (marks : ℕ → Option Time)
    → IsForward g
    → IsTracked (ds, cache, marks)
    → IsTracked (map g ds, cache, marks)
IsTracked-map g ds cache marks f h = record {
  cached = λ imei c e. Known-map g c.device.id ds f (h.cached imei c e);
  marked = λ id t e. SeenSince-map g t id ds f (h.marked id t e);
}

-- The cache may take a device that has a row, and lose any entry.
pub IsTracked-insert :
    (ds : List DeviceRow) (cache : List (Bytes × CachedDevice)) (marks : ℕ → Option Time)
    (imei : Bytes) (c : CachedDevice)
    → Known c.device.id ds
    → IsTracked (ds, cache, marks)
    → IsTracked (ds, insert imei c cache, marks)
IsTracked-insert ds cache marks imei c known h = record {
  cached = λ j c' e. elim (Bool-cases (text_eq imei j)) [
    | inl same ↦
        let p : some c ≡ some c' = ground (arith, lookup-insert imei j c cache) in
        subst (λ x. Known x.device.id ds) (some_inj.0 p) known
    | inr other ↦ h.cached j c' (ground (arith, lookup-insert imei j c cache))
  ];
  marked = h.marked;
}

pub IsTracked-delete :
    (ds : List DeviceRow) (cache : List (Bytes × CachedDevice)) (marks : ℕ → Option Time)
    (imei : Bytes)
    → IsTracked (ds, cache, marks)
    → IsTracked (ds, delete imei cache, marks)
IsTracked-delete ds cache marks imei h = record {
  cached = λ j c' e. h.cached j c' (ground (arith, lookup-delete imei j cache));
  marked = h.marked;
}

-- A write to the row goes with the mark.
pub IsTracked-touch :
    (ds : List DeviceRow) (cache : List (Bytes × CachedDevice)) (marks : ℕ → Option Time) (id : ℕ)
    (now : Time)
    → Known id ds
    → IsTracked (ds, cache, marks)
    → IsTracked (touch id now ds, cache, set_at marks id (some now))
unfolding touch update_row
IsTracked-touch ds cache marks id now known h =
    let later = IsTracked-map _ ds cache marks (touch-IsForward id now) h in
    record {
      cached = later.cached;
      marked = λ j t e. elim (Bool-cases (id == j)) [
        | inl same ↦
            let p : some now ≡ some t = ground arith in
            subst (λ k. SeenSince t k (touch id now ds)) ((==_iff id j).0 same)
              (subst (λ u. SeenSince u id (touch id now ds)) (some_inj.0 p)
                (touch-SeenSince id now ds known))
        | inr other ↦ later.marked j t (ground arith)
      ];
    }

none-ne_some : {A : Type 0} {a : A} → ◌≡◌ {A = Option A} none (some a) → ⊥
none-ne_some h = ground arith

-- Nothing is cached or marked at the start.
pub IsTracked-start :
    (ds : List DeviceRow) (cache : List (Bytes × CachedDevice)) (marks : ℕ → Option Time)
    → cache ≡ []
    → marks ≡ (λ id. none)
    → IsTracked (ds, cache, marks)
unfolding lookup
IsTracked-start ds cache marks empty unmarked = record {
  cached = λ imei c e. absurd (none-ne_some (sym (ap (lookup imei) empty) ∙ e));
  marked = λ id t e. absurd (none-ne_some (sym (ap (λ m. m id) unmarked) ∙ e));
}

module _ {F G : Type 0} (site : Site F G) where
  core-keep_vehicle :
      (id : ℕ) (s : Ingestor F) (r : Result (Unit {0}) (Option (Vehicle F)))
      → core (keep_vehicle site id s r).0 ≡ core s
  unfolding keep_vehicle
  core-keep_vehicle id s (err e) = refl
  core-keep_vehicle id s (ok v) = refl

  pub core-vehicle_from :
      (id : ℕ) (s : Ingestor F) (c : Option (CachedVehicle F))
      → core (vehicle_from site id s c).0 ≡ core s
  unfolding vehicle_from
  core-vehicle_from id s none = core-keep_vehicle id s (site.vehicle_row id)
  core-vehicle_from id s (some c) = elim (Bool-cases (ltb site.now (c.at + cache_ttl))) [
    | inl fresh ↦ rw fresh refl
    | inr old ↦ rw old (core-keep_vehicle id s (site.vehicle_row id))
  ]

  pub core-publish_status :
      (id : ℕ) (to : Status) (from : Option Status) (s : Ingestor F)
      → core (publish_status site id to from s) ≡ core s
  unfolding publish_status vehicle_for
  core-publish_status id to from s = core-vehicle_from id s (s.vehicle_cache id)

  -- The device that is resolved has a row.
  abbrev pub IsResolved : Ingestor F × Result ResolveError DeviceRow → Type 0
  IsResolved (s, ok d) = IsTracked (core s) × Known d.id s.devices
  IsResolved (s, err e) = IsTracked (core s)

  resolved-IsResolved :
      (imei : Bytes) (s : Ingestor F) (o : Option DeviceRow)
      → get_by_imei imei s.devices ≡ o
      → IsTracked (core s)
      → IsResolved (resolved site s o)
  unfolding resolved cache_device
  resolved-IsResolved imei s none e h = h
  resolved-IsResolved imei s (some d) e h =
      let known = get_by_imei-Known imei s.devices d e in
      (IsTracked-insert s.devices s.device_cache s.last_touch d.imei _ known h, known)

  read_device-IsResolved :
      (imei : Bytes) (s : Ingestor F) → IsTracked (core s) → IsResolved (read_device site imei s)
  unfolding read_device
  read_device-IsResolved imei s h = elim (Bool-cases (site.is_down reads_device)) [
    | inl down ↦ rw down h
    | inr up ↦ rw up (resolved-IsResolved imei s (get_by_imei imei s.devices) refl h)
  ]

  pub resolve_from-IsResolved :
      (imei : Bytes) (s : Ingestor F) (o : Option CachedDevice)
      → lookup imei s.device_cache ≡ o
      → IsTracked (core s)
      → IsResolved (resolve_from site imei s o)
  unfolding resolve_from
  resolve_from-IsResolved imei s none e h = read_device-IsResolved imei s h
  resolve_from-IsResolved imei s (some c) e h =
      elim (Bool-cases (ltb site.now (c.at + cache_ttl))) [
        | inl fresh ↦ rw fresh (h, h.cached imei c e)
        | inr old ↦ rw old (read_device-IsResolved imei s h)
      ]

  -- A device that was greeted or touched still has its row.
  pub adopt_protocol-IsTracked :
      (protocol : Bytes) (d : DeviceRow) (s : Ingestor F)
      → IsTracked (core s)
      → Known d.id s.devices
      → IsTracked (core (adopt_protocol site protocol d s).0)
        × Known d.id (adopt_protocol site protocol d s).0.devices
        × ((adopt_protocol site protocol d s).1.id ≡ d.id)
  unfolding adopt_protocol cache_device set_protocol update_row
  adopt_protocol-IsTracked protocol d s h known =
      elim (Bool-cases
        (is_empty protocol || text_eq d.protocol protocol || site.is_down sets_protocol)) [
          | inl same ↦ rw same (h, known, refl)
          | inr other ↦
              let f = set_protocol-IsForward d.id protocol in
              let known' = Known-map _ d.id s.devices f known in
              rw other (
                IsTracked-insert _ s.device_cache s.last_touch d.imei _ known'
                    (IsTracked-map _ s.devices s.device_cache s.last_touch f h),
                known',
                refl,
              )
        ]
