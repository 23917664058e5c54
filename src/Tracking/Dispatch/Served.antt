-- ===== src/Tracking/Dispatch/Served.antt =====
-- `HandleMessage`: the rows and the caches agree after it, and an accepted message has been written.
use farbo_rastreamento.Prelude.{
  ℕ, false, Option, none, some, ◌≡◌, refl, sym, subst, inl, inr, Bool-cases, Result, ok, err,
}
use farbo_rastreamento.Prelude.Maps.{lookup}
use farbo_rastreamento.Protocols.Floats.{FloatOps}
use farbo_rastreamento.Protocols.Text.{is_empty}
use farbo_rastreamento.Protocols.Message.{TrackerMessage, MessageKind, login, command_ack}
use farbo_rastreamento.Tcp.Session.{Identity, Outcome, accepted, rejected, failed}
use farbo_rastreamento.Devices.{DeviceRow}
use farbo_rastreamento.Devices.Rows.{Known}
use farbo_rastreamento.Tracking.Dispatch.{
  Ingestor, Site, ResolveError, unavailable, unknown_device, touches, resolve_device, on_connected,
  touch_device, answer_command, take_telemetry, by_kind, greet, from_device, from_resolved,
  handle_message, vehicle_for,
}
use farbo_rastreamento.Tracking.Dispatch.Tracked.{
  core, IsTracked, IsResolved, core-vehicle_from, resolve_from-IsResolved, adopt_protocol-IsTracked,
}
use farbo_rastreamento.Tracking.Dispatch.Recent.{IsRecent, IsTouched, touch_device-IsTouched}

module _ {F G : Type 0} ⦃fl : FloatOps F⦄ (site : Site F G) where
  core-vehicle_for : (id : ℕ) (s : Ingestor F) → core (vehicle_for site id s).0 ≡ core s
  unfolding vehicle_for
  core-vehicle_for id s = core-vehicle_from site id s (s.vehicle_cache id)

  core-by_kind :
      (k : MessageKind) (id : ℕ) (msg : TrackerMessage F) (s : Ingestor F)
      → core (by_kind site k id msg s) ≡ core s
  unfolding by_kind answer_command take_telemetry
  core-by_kind login id msg s = refl
  core-by_kind command_ack id msg s = core-vehicle_for id s
  core-by_kind _ id msg s = core-vehicle_for id s

  greet-IsTracked :
      (id : Option ℕ) (msg : TrackerMessage F) (d : DeviceRow) (s : Ingestor F)
      → IsTracked (core s)
      → Known d.id s.devices
      → IsTracked (core (greet site id msg d s).0)
        × Known d.id (greet site id msg d s).0.devices
        × ((greet site id msg d s).1.id ≡ d.id)
  unfolding greet on_connected
  greet-IsTracked none msg d s h known = adopt_protocol-IsTracked site msg.protocol d _ h known
  greet-IsTracked (some id) msg d s h known = (h, known, refl)

  from_device-IsTouched :
      (who : Identity) (msg : TrackerMessage F) (d : DeviceRow) (s : Ingestor F)
      → site.is_down touches ≡ false
      → IsTracked (core s)
      → Known d.id s.devices
      → IsTouched site d.id (from_device site who msg d s)
  unfolding from_device
  from_device-IsTouched who msg d s up h known =
      let (h', known', same) = greet-IsTracked who.device_id msg d s h known in
      let s' = (greet site who.device_id msg d s).0 in
      let d' = (greet site who.device_id msg d s).1 in
      let touched =
        subst (λ id. IsTouched site id (touch_device site d' s')) same
          (touch_device-IsTouched site d' s' up
            (subst (λ id. Known id s'.devices) (sym same) known') h') in
      subst (λ k. IsTracked k × IsRecent site d.id k.0)
        (sym (core-by_kind msg.kind d.id msg (touch_device site d' s'))) touched

  -- What holds of the answer of `HandleMessage`: after an accepted message its device has been seen.
  abbrev pub IsServed : Ingestor F × Identity × Outcome → Type 0
  IsServed (s, who, accepted) = (id : ℕ) × (who.device_id ≡ some id) × IsTouched site id s
  IsServed (s, who, _) = IsTracked (core s)

  from_resolved-IsServed :
      (who : Identity) (msg : TrackerMessage F) (r : Ingestor F × Result ResolveError DeviceRow)
      → site.is_down touches ≡ false
      → IsResolved site r
      → IsServed (from_resolved site who msg r)
  unfolding from_resolved
  from_resolved-IsServed who msg (s, err unknown_device) up h = h
  from_resolved-IsServed who msg (s, err unavailable) up h = h
  from_resolved-IsServed who msg (s, ok d) up (h, known) =
      (d.id, refl, from_device-IsTouched who msg d s up h known)

  pub handle_message-IsServed :
      (s : Ingestor F) (who : Identity) (msg : TrackerMessage F)
      → site.is_down touches ≡ false
      → IsTracked (core s)
      → IsServed (handle_message site s who msg)
  unfolding handle_message resolve_device
  handle_message-IsServed s who msg up h = elim (Bool-cases (is_empty msg.imei)) [
    | inl empty ↦ rw empty h
    | inr given ↦ rw given (
        from_resolved-IsServed who msg _ up
          (resolve_from-IsResolved site msg.imei s (lookup msg.imei s.device_cache) refl h))
  ]

  pub IsServed-IsTracked :
      (out : Ingestor F × Identity × Outcome) → IsServed out → IsTracked (core out.0)
  IsServed-IsTracked (s, who, accepted) (id, e, (h, recent)) = h
  IsServed-IsTracked (s, who, rejected) h = h
  IsServed-IsTracked (s, who, failed) h = h
