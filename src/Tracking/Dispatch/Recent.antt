-- ===== src/Tracking/Dispatch/Recent.antt =====
-- `touch` writes at most every 15 seconds: what the rows still say about the last contact.
use farbo_rastreamento.Prelude.{
  ℕ, ◌+◌, ◌<◌, true, false, Option, none, some, List, ◌≡◌, refl, ap, sym, subst, inl, inr, arith,
  Bool-cases, ltb→lt,
}
use farbo_rastreamento.Prelude.Words.{Bytes}
use farbo_rastreamento.Prelude.Maps.{set_at}
use farbo_rastreamento.Protocols.Calendar.{Time}
use farbo_rastreamento.Devices.{online, status_eq, DeviceRow, get_by_id, touch, update_row}
use farbo_rastreamento.Devices.Rows.{Known, SeenSince, touch-IsForward, touch-SeenSince}
use farbo_rastreamento.Tracking.Dispatch.{
  Ingestor, CachedDevice, Site, touches, touch_interval, cache_device, publish_status, come_online,
  touch_device, touched_lately,
}
use farbo_rastreamento.Tracking.Dispatch.Tracked.{
  core, IsTracked, IsTracked-map, IsTracked-insert, IsTracked-touch, core-publish_status,
}

module _ {F G : Type 0} (site : Site F G) where
  -- The row of an id has been seen within the interval.
  abbrev pub IsRecent : ℕ → List DeviceRow → Type 0
  IsRecent id ds =
      (row : DeviceRow) × (seen : Time) × (get_by_id id ds ≡ some row)
      × (row.last_seen_at ≡ some seen)
      × (site.now < seen + touch_interval)

  SeenSince-IsRecent :
      (t : Time) (id : ℕ) (ds : List DeviceRow)
      → site.now < t + touch_interval
      → SeenSince t id ds
      → IsRecent id ds
  SeenSince-IsRecent t id ds h (row, seen, e, e', le) = (row, seen, e, e', omega arith)

  come_online-IsTracked :
      (d : DeviceRow) (s : Ingestor F)
      → Known d.id s.devices
      → IsTracked (core s)
      → IsTracked (core (come_online site d s)) × ((come_online site d s).devices ≡ s.devices)
  unfolding come_online cache_device
  come_online-IsTracked d s known h = elim (Bool-cases (status_eq d.status online)) [
    | inl is_online ↦ rw is_online (h, refl)
    | inr is_not ↦
        let s' = cache_device site (record d { status = online }) s in
        let same : core (publish_status site d.id online none s') ≡ core s' =
          core-publish_status site d.id online none s' in
        rw is_not (
          subst IsTracked (sym same)
              (IsTracked-insert s.devices s.device_cache s.last_touch d.imei _ known h),
          ap (λ k. k.0) same,
        )
  ]

  touched_lately-true :
      (o : Option Time)
      → touched_lately site o ≡ true
      → (t : Time) × (o ≡ some t) × (site.now < t + touch_interval)
  touched_lately-true none h = ground arith
  touched_lately-true (some t) h = (t, refl, ltb→lt _ _ h)

  touched-IsTracked :
      (id : ℕ) (ds : List DeviceRow) (cache : List (Bytes × CachedDevice)) (marks : ℕ → Option Time)
      → IsTracked (ds, cache, marks)
      → IsTracked (touch id site.now ds, cache, marks)
  unfolding touch update_row
  touched-IsTracked id ds cache marks = IsTracked-map _ ds cache marks (touch-IsForward id site.now)

  -- `touch` on a branch that writes.
  written :
      (d : DeviceRow) (s : Ingestor F) (marks : ℕ → Option Time)
      → Known d.id s.devices
      → IsTracked (touch d.id site.now s.devices, s.device_cache, marks)
      → let s' = record s { last_touch = marks; devices = touch d.id site.now s.devices } in
        IsTracked (core (come_online site d s')) × IsRecent d.id (come_online site d s').devices
  written d s marks known h =
      let s' = record s { last_touch = marks; devices = touch d.id site.now s.devices } in
      let seen = touch-SeenSince d.id site.now s.devices known in
      let known' : Known d.id s'.devices = let (row, t, e, e', le) = seen in (row, e) in
      let (h', same) = come_online-IsTracked d s' known' h in
      (
        h',
        subst (IsRecent d.id) (sym same)
            (SeenSince-IsRecent site.now d.id s'.devices (omega arith) seen),
      )

  touch_device-skips :
      (d : DeviceRow) (s : Ingestor F)
      → touched_lately site (s.last_touch d.id) ≡ true
      → status_eq d.status online ≡ true
      → touch_device site d s ≡ s
  unfolding touch_device
  touch_device-skips d s lately is_online = rw lately (rw is_online refl)

  touch_device-late :
      (d : DeviceRow) (s : Ingestor F)
      → site.is_down touches ≡ false
      → touched_lately site (s.last_touch d.id) ≡ true
      → status_eq d.status online ≡ false
      → touch_device site d s
        ≡ come_online site d (record s { devices = touch d.id site.now s.devices })
  unfolding touch_device
  touch_device-late d s up lately is_not = rw lately (rw is_not (rw up refl))

  touch_device-marks :
      (d : DeviceRow) (s : Ingestor F)
      → site.is_down touches ≡ false
      → touched_lately site (s.last_touch d.id) ≡ false
      → touch_device site d s
        ≡ come_online site d (record s {
          last_touch = set_at s.last_touch d.id (some site.now);
          devices = touch d.id site.now s.devices;
        })
  unfolding touch_device
  touch_device-marks d s up before = rw before (rw up refl)

  -- The state after a message, with the row of its device.
  abbrev pub IsTouched : ℕ → Ingestor F → Type 0
  IsTouched id s = IsTracked (core s) × IsRecent id s.devices

  pub touch_device-IsTouched :
      (d : DeviceRow) (s : Ingestor F)
      → site.is_down touches ≡ false
      → Known d.id s.devices
      → IsTracked (core s)
      → IsTouched d.id (touch_device site d s)
  touch_device-IsTouched d s up known h =
      elim (Bool-cases (touched_lately site (s.last_touch d.id))) [
        | inl lately ↦ elim (Bool-cases (status_eq d.status online)) [
          | inl is_online ↦
              let (t, e, near) = touched_lately-true (s.last_touch d.id) lately in
              subst (IsTouched d.id) (sym (touch_device-skips d s lately is_online))
                (h, SeenSince-IsRecent t d.id s.devices near (h.marked d.id t e))
          | inr is_not ↦ subst (IsTouched d.id) (sym (touch_device-late d s up lately is_not)) (
              written d s s.last_touch known
                (touched-IsTracked d.id s.devices s.device_cache s.last_touch h))
        ]
        | inr before ↦ subst (IsTouched d.id) (sym (touch_device-marks d s up before)) (
            written d s _ known
              (IsTracked-touch s.devices s.device_cache s.last_touch d.id site.now known h))
      ]
