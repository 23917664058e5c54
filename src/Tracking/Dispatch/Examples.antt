-- ===== src/Tracking/Dispatch/Examples.antt =====
-- Two messages of one tracker, of which only the first is written to the row.
use farbo_rastreamento.Prelude.{ℕ, ◌≡◌, refl, false, none, some, [], ◌∷◌, ok}
use farbo_rastreamento.Prelude.Maps.{lookup, insert, delete}
use farbo_rastreamento.Protocols.Calendar.{Time}
use farbo_rastreamento.Protocols.Floats.{Fraction, fraction_ops}
use farbo_rastreamento.Protocols.Text.{codes}
use farbo_rastreamento.Protocols.Message.{TrackerMessage, empty_message, login, heartbeat}
use farbo_rastreamento.Tcp.Session.{Identity, rejected}
use farbo_rastreamento.Commands.Service.{Env}
use farbo_rastreamento.Devices.{
  DeviceRow, get_by_imei, status_eq, touch, sweep_statuses, online, offline,
}
use farbo_rastreamento.Tracking.Dispatch.{Ingestor, Site, handle_message, sweep, to_ascii}

abbrev kmh : ℕ → Fraction
kmh n = record { up = n; down = 0; by = 1 }

abbrev service : Env Fraction
service = record {
  by_name = λ name. none;
  snapshot = λ device. none;
  deliver = λ imei payload. none;
  random = none;
  unix_nano = 0;
  clock = λ moment. 0;
  is_down = λ s. false;
  max_speed = kmh 5;
  max_age = 600;
  ack_timeout = 15;
}

abbrev site_at : Time → Site Fraction Fraction
site_at now = record {
  now = now;
  vehicle_row = λ id. ok none;
  inside = λ latitude longitude. [];
  insert_fails = false;
  default_limit = kmh 80;
  hysteresis = kmh 5;
  stale_after = 120;
  offline_after = 600;
  is_down = λ call. false;
  commands = service;
}

abbrev tracker : DeviceRow
tracker = record {
  id = 2;
  imei = codes "868120148373721";
  protocol = codes "gt06";
  status = offline;
  last_seen_at = none;
}

abbrev at_start : Ingestor Fraction
at_start = record {
  field = record { states = λ id. none; positions = []; trace = [] };
  devices = tracker ∷ [];
  device_cache = [];
  vehicle_cache = λ id. none;
  last_touch = λ id. none;
  commands = record { table = record { rows = []; next_id = 1 }; trace = [] };
  raw = [];
}

abbrev unknown_session : Identity
unknown_session = record { imei = []; device_id = none }

abbrev known_session : Identity
known_session = record { imei = tracker.imei; device_id = some 2 }

abbrev a_login : TrackerMessage Fraction
a_login = record empty_message { imei = tracker.imei; kind = login; protocol = codes "gt06" }

abbrev a_heartbeat : TrackerMessage Fraction
a_heartbeat = record a_login { kind = heartbeat }

abbrev after_login : Ingestor Fraction
after_login = (handle_message (site_at 1000) at_start unknown_session a_login).0

abbrev after_heartbeat : Ingestor Fraction
after_heartbeat = (handle_message (site_at 1010) after_login known_session a_heartbeat).0

-- The second message is within the interval and leaves the row as it is.
one_write :
    after_heartbeat.devices ≡ record tracker { status = online; last_seen_at = some 1000 } ∷ []
unfolding handle_message lookup get_by_imei status_eq insert touch
one_write = refl

-- A tracker without registration is turned away, and the state stays as it is.
turned_away :
    handle_message (site_at 1000) (record at_start { devices = [] }) unknown_session a_login
    ≡ (record at_start { devices = [] }, unknown_session, rejected)
unfolding handle_message lookup get_by_imei
turned_away = refl

-- Two minutes without a packet are noticed by the sweep.
gone_stale : (sweep (site_at 1121) after_heartbeat).device_cache ≡ []
unfolding sweep sweep_statuses handle_message lookup get_by_imei insert touch delete
gone_stale = refl

readable : to_ascii (0x78 ∷ 0x0D ∷ 0x41 ∷ []) ≡ codes "x.A"
unfolding to_ascii
readable = refl
