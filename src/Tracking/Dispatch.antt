-- ===== src/Tracking/Dispatch.antt =====
-- ingestor.go: `HandleMessage` and the other calls of the server, with the caches of devices and
-- vehicles. What is outside (the clock, which stands still within a call, the tables of vehicles and
-- fences, the failures of the database) is in `Site`; metrics and the log are left out.
pub mod Tracked
pub mod Recent
pub mod Served
pub mod Steps
mod Examples
use farbo_rastreamento.Prelude.{
  ℕ, ◌+◌, Bool, false, ◌&&◌, ◌||◌, Option, none, some, List, [], ◌∷◌, ltb, leb, if◌then◌else◌,
  length, Result, ok, err,
}
use farbo_rastreamento.Prelude.Words.{Bytes}
use farbo_rastreamento.Prelude.Maps.{text_eq, lookup, insert, delete, set_at}
use farbo_rastreamento.Protocols.Calendar.{Time}
use farbo_rastreamento.Protocols.Floats.{FloatOps}
use farbo_rastreamento.Protocols.Text.{hexdump, is_empty}
use farbo_rastreamento.Protocols.Message.{TrackerMessage, MessageKind, login, command_ack}
use farbo_rastreamento.Tcp.Session.{Identity, Outcome, accepted, rejected, failed}
use farbo_rastreamento.Commands.Service.{Env, World}
use farbo_rastreamento.Devices.{
  Status, online, stale, offline, status_eq, DeviceRow, StatusChange, get_by_imei, touch,
  set_protocol, sweep_statuses,
}
use farbo_rastreamento.Tracking.Events.{
  EventType, device_connected, device_disconnected, device_stale, Details, connection, previous,
  Note, recorded, published_status, Field, Vehicle, Surroundings, tell, vehicle_id,
}
use farbo_rastreamento.Tracking.Replies.{handle_reply}
use farbo_rastreamento.Tracking.Ingest.{process_telemetry}

abbrev pub touch_interval : Time
touch_interval = 15

abbrev pub cache_ttl : Time
cache_ttl = 60

pub record CachedDevice : Type 0 where
  pub device : DeviceRow
  pub at : Time

pub record CachedVehicle (F : Type 0) : Type 0 where
  pub vehicle : Option (Vehicle F)
  pub at : Time

pub record RawPacket : Type 0 where
  pub imei : Bytes
  pub protocol : Bytes
  pub reason : Bytes
  pub payload_hex : Bytes
  pub payload_ascii : Bytes
  pub byte_count : ℕ

pub record Ingestor (F : Type 0) : Type 0 where
  pub field : Field F
  pub devices : List DeviceRow
  pub device_cache : List (Bytes × CachedDevice)
  pub vehicle_cache : ℕ → Option (CachedVehicle F)
  pub last_touch : ℕ → Option Time
  pub commands : World
  pub raw : List RawPacket

-- The calls on the database that can fail.
pub data SiteCall : Type 0 where
  reads_device touches sets_protocol sweeps inserts_raw : SiteCall

pub record Site (F G : Type 0) : Type 0 where
  pub now : Time
  -- `GetByDeviceID` of the vehicles: no row is `ok none`.
  pub vehicle_row : ℕ → Result (Unit {0}) (Option (Vehicle F))
  pub inside : F → F → List ℕ
  pub insert_fails : Bool
  pub default_limit : F
  pub hysteresis : F
  pub stale_after : Time
  pub offline_after : Time
  pub is_down : SiteCall → Bool
  pub commands : Env G

-- How `resolveDevice` fails.
pub data ResolveError : Type 0 where
  unknown_device unavailable : ResolveError

abbrev is_fresh : Time → Time → Time → Bool
is_fresh now at ttl = ltb now (at + ttl)

module _ {F G : Type 0} (site : Site F G) where
  unfoldable pub cache_device : DeviceRow → Ingestor F → Ingestor F
  cache_device d s = record s {
    device_cache = insert d.imei (record { device = d; at = site.now }) s.device_cache;
  }

  unfoldable pub invalidate_device : Bytes → Ingestor F → Ingestor F
  invalidate_device imei s = record s { device_cache = delete imei s.device_cache }

  unfoldable pub invalidate_vehicles : Ingestor F → Ingestor F
  invalidate_vehicles s = record s { vehicle_cache = λ id. none }

  -- The row that the database has, which goes into the cache.
  unfoldable pub resolved :
      Ingestor F → Option DeviceRow → Ingestor F × Result ResolveError DeviceRow
  unfolding cache_device
  resolved s none = (s, err unknown_device)
  resolved s (some d) = (cache_device d s, ok d)

  unfoldable pub read_device : Bytes → Ingestor F → Ingestor F × Result ResolveError DeviceRow
  unfolding resolved
  read_device imei s =
      if site.is_down reads_device
      then (s, err unavailable)
      else resolved s (get_by_imei imei s.devices)

  unfoldable pub resolve_from :
      Bytes → Ingestor F → Option CachedDevice → Ingestor F × Result ResolveError DeviceRow
  unfolding read_device
  resolve_from imei s none = read_device imei s
  resolve_from imei s (some c) =
      if is_fresh site.now c.at cache_ttl then (s, ok c.device) else read_device imei s

  unfoldable pub resolve_device : Bytes → Ingestor F → Ingestor F × Result ResolveError DeviceRow
  unfolding resolve_from
  resolve_device imei s = resolve_from imei s (lookup imei s.device_cache)

  -- The vehicle of a device; a failure to read it is no vehicle, and is not kept.
  unfoldable pub keep_vehicle :
      ℕ → Ingestor F → Result (Unit {0}) (Option (Vehicle F)) → Ingestor F × Option (Vehicle F)
  keep_vehicle id s (err e) = (s, none)
  keep_vehicle id s (ok v) = (
    record s {
      vehicle_cache = set_at s.vehicle_cache id (some (record { vehicle = v; at = site.now }));
    },
    v,
  )

  unfoldable pub vehicle_from :
      ℕ → Ingestor F → Option (CachedVehicle F) → Ingestor F × Option (Vehicle F)
  unfolding keep_vehicle
  vehicle_from id s none = keep_vehicle id s (site.vehicle_row id)
  vehicle_from id s (some c) =
      if is_fresh site.now c.at cache_ttl
      then (s, c.vehicle)
      else keep_vehicle id s (site.vehicle_row id)

  unfoldable pub vehicle_for : ℕ → Ingestor F → Ingestor F × Option (Vehicle F)
  unfolding vehicle_from
  vehicle_for id s = vehicle_from id s (s.vehicle_cache id)

  abbrev note : Note F → Ingestor F → Ingestor F
  note n s = record s { field = tell n s.field }

  -- An event without a place.
  abbrev event_of : ℕ → EventType → Details F → Note F
  event_of id typ details =
      recorded (record {
        device_id = id;
        typ = typ;
        timestamp = site.now;
        place = none;
        details = details;
      })

  -- A publication with the vehicle of the device.
  unfoldable pub publish_status : ℕ → Status → Option Status → Ingestor F → Ingestor F
  unfolding vehicle_for
  publish_status id to from s =
      let (s', v) = vehicle_for id s in note (published_status (vehicle_id v) id to from) s'

  -- The protocol that the tracker speaks replaces the one of the registration.
  unfoldable pub adopt_protocol : Bytes → DeviceRow → Ingestor F → Ingestor F × DeviceRow
  unfolding cache_device
  adopt_protocol protocol d s =
      if is_empty protocol || text_eq d.protocol protocol || site.is_down sets_protocol
      then (s, d)
      else let d' = record d { protocol = protocol } in
        (cache_device d' (record s { devices = set_protocol d.id protocol s.devices }), d')

  unfoldable pub on_connected : Bytes → DeviceRow → Ingestor F → Ingestor F × DeviceRow
  unfolding adopt_protocol
  on_connected protocol d s =
      adopt_protocol protocol d (note (event_of d.id device_connected (connection protocol)) s)

  abbrev touched_lately : Option Time → Bool
  touched_lately none = false
  touched_lately (some t) = is_fresh site.now t touch_interval

  -- A device that was not online is so now.
  unfoldable pub come_online : DeviceRow → Ingestor F → Ingestor F
  unfolding cache_device publish_status
  come_online d s =
      if status_eq d.status online
      then s
      else publish_status d.id online none (cache_device (record d { status = online }) s)

  -- `touch`: the time of the last write is set before the write.
  unfoldable pub touch_device : DeviceRow → Ingestor F → Ingestor F
  unfolding come_online
  touch_device d s =
      let lately = touched_lately (s.last_touch d.id) in
      let marked =
        if lately then s else record s { last_touch = set_at s.last_touch d.id (some site.now) } in
      if lately && status_eq d.status online
      then s
      else if site.is_down touches
      then marked
      else come_online d (record marked { devices = touch d.id site.now s.devices })

  abbrev surroundings_with : Option (Vehicle F) → Surroundings F
  surroundings_with v = record {
    now = site.now;
    vehicle_for = λ id. v;
    inside = site.inside;
    insert_fails = site.insert_fails;
    default_limit = site.default_limit;
    hysteresis = site.hysteresis;
  }

module _ {F G : Type 0} ⦃fl : FloatOps F⦄ (site : Site F G) where
  unfoldable pub answer_command : ℕ → TrackerMessage F → Ingestor F → Ingestor F
  unfolding vehicle_for
  answer_command id msg s =
      let (s', v) = vehicle_for site id s in
      record s' { commands = handle_reply site.commands id (vehicle_id v) msg s'.commands }

  unfoldable pub take_telemetry : ℕ → TrackerMessage F → Ingestor F → Ingestor F
  unfolding vehicle_for
  take_telemetry id msg s =
      let (s', v) = vehicle_for site id s in
      record s' { field = process_telemetry (surroundings_with site v) id msg s'.field }

  -- The switch on the kind.
  unfoldable pub by_kind : MessageKind → ℕ → TrackerMessage F → Ingestor F → Ingestor F
  unfolding answer_command take_telemetry
  by_kind login id msg s = s
  by_kind command_ack id msg s = answer_command id msg s
  by_kind _ id msg s = take_telemetry id msg s

  -- The first message of a connection, which has no device yet.
  unfoldable pub greet :
      Option ℕ → TrackerMessage F → DeviceRow → Ingestor F → Ingestor F × DeviceRow
  unfolding on_connected
  greet none msg d s = on_connected site msg.protocol d s
  greet (some id) msg d s = (s, d)

  unfoldable pub from_device : Identity → TrackerMessage F → DeviceRow → Ingestor F → Ingestor F
  unfolding greet touch_device by_kind
  from_device who msg d s =
      let (s', d') = greet who.device_id msg d s in
      by_kind msg.kind d.id msg (touch_device site d' s')

  unfoldable pub from_resolved :
      Identity
      → TrackerMessage F
      → Ingestor F × Result ResolveError DeviceRow
      → Ingestor F × Identity × Outcome
  unfolding from_device
  from_resolved who msg (s, err unknown_device) = (s, who, rejected)
  from_resolved who msg (s, err unavailable) = (s, who, failed)
  from_resolved who msg (s, ok d) =
      (from_device who msg d s, record { imei = d.imei; device_id = some d.id }, accepted)

  unfoldable pub handle_message :
      Ingestor F → Identity → TrackerMessage F → Ingestor F × Identity × Outcome
  unfolding from_resolved resolve_device
  handle_message s who msg =
      if is_empty msg.imei
      then (s, who, failed)
      else from_resolved who msg (resolve_device site msg.imei s)

-- `ToASCII`.
unfoldable pub to_ascii : Bytes → Bytes
to_ascii [] = []
to_ascii (c ∷ cs) = (if leb 0x20 c && ltb c 0x7F then c else b'.') ∷ to_ascii cs

module _ {F G : Type 0} (site : Site F G) where
  -- `HandleInvalid`; the address of the peer is left out.
  unfoldable pub handle_invalid : Ingestor F → Identity → Bytes → Bytes → Bytes → Ingestor F
  unfolding to_ascii
  handle_invalid s who payload protocol reason = if site.is_down inserts_raw then s else record s {
    raw =
        record {
          imei = who.imei;
          protocol = protocol;
          reason = reason;
          payload_hex = hexdump payload;
          payload_ascii = to_ascii payload;
          byte_count = length payload;
        }
        ∷ s.raw;
  }

  unfoldable pub handle_disconnect : Ingestor F → Bytes → Option ℕ → Ingestor F
  handle_disconnect s protocol none = s
  handle_disconnect s protocol (some id) =
      note site (event_of site id device_disconnected (connection protocol)) s

  -- The events of the sweep.
  unfoldable pub sweep_event : StatusChange → Status → Ingestor F → Ingestor F
  sweep_event c offline s =
      note site (event_of site c.device_id device_disconnected (previous c.from)) s
  sweep_event c stale s = note site (event_of site c.device_id device_stale (previous c.from)) s
  sweep_event c online s = s

  unfoldable pub announce_change : StatusChange → Ingestor F → Ingestor F
  unfolding sweep_event invalidate_device publish_status
  announce_change c s =
      sweep_event c c.to
        (publish_status site c.device_id c.to (some c.from) (invalidate_device site c.imei s))

  unfoldable pub announce_changes : List StatusChange → Ingestor F → Ingestor F
  unfolding announce_change
  announce_changes [] s = s
  announce_changes (c ∷ cs) s = announce_changes cs (announce_change c s)

  unfoldable pub sweep : Ingestor F → Ingestor F
  unfolding announce_changes
  sweep s =
      let (rows, cs) = sweep_statuses site.now site.stale_after site.offline_after s.devices in
      if site.is_down sweeps then s else announce_changes cs (record s { devices = rows })
