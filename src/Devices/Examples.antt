-- ===== src/Devices/Examples.antt =====
-- The sweep at three trackers, of which one has fallen silent.
use farbo_rastreamento.Prelude.{◌≡◌, refl, none, some, List, [], ◌∷◌}
use farbo_rastreamento.Protocols.Text.{codes}
use farbo_rastreamento.Devices.{
  online, offline, DeviceRow, sweep_statuses, get_by_imei, touch, count_online,
}
use farbo_rastreamento.Devices.Sweep.{sweep_at}

abbrev silent : DeviceRow
silent = record {
  id = 1;
  imei = codes "868120148373721";
  protocol = [];
  status = online;
  last_seen_at = some 100;
}

abbrev speaking : DeviceRow
speaking = record silent { id = 2; imei = codes "868120148373739"; last_seen_at = some 990 }

abbrev never_seen : DeviceRow
never_seen = record silent { id = 3; imei = codes "5"; status = offline; last_seen_at = none }

abbrev fleet : List DeviceRow
fleet = silent ∷ speaking ∷ never_seen ∷ []

silent_is_swept :
    (sweep_at 1000 120 600 fleet).1
    ≡ record { device_id = 1; imei = silent.imei; from = online; to = offline } ∷ []
unfolding sweep_statuses
silent_is_swept = refl

touched_again : count_online (touch 3 1000 fleet) ≡ 3
unfolding count_online touch
touched_again = refl

found : get_by_imei (codes " 5 ") fleet ≡ some never_seen
unfolding get_by_imei
found = refl
