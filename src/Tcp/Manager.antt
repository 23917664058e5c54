-- ===== src/Tcp/Manager.antt =====
-- connection.go: the live sessions by IMEI. A connection is a number; what the manager reads of the
-- shared `DeviceConnection` objects, their IMEI and whether the socket is open, stands in `Net`.
-- `finish` is the deferred end of `handle` in server.go. The `onChange` callback is the count.
pub mod Lookup
pub mod Registry
use farbo_rastreamento.Prelude.{
  ℕ, Bool, true, false, not, ◌&&◌, Option, none, some, List, [], ◌∷◌, ◌==◌, if◌then◌else◌, length,
  Result, ok, err,
}
use farbo_rastreamento.Prelude.Words.{Bytes}
use farbo_rastreamento.Prelude.Maps.{lookup, insert, delete, set_at}
use farbo_rastreamento.Protocols.Text.{is_empty}

pub record Net : Type 0 where
  pub conns : List (Bytes × ℕ)
  pub imei : ℕ → Bytes
  pub is_open : ℕ → Bool
  -- The total that the last call of `onChange` got.
  pub notified : ℕ

-- A new socket, under a number that is not in use.
unfoldable pub accept : ℕ → Net → Net
accept c net = record net { imei = set_at net.imei c []; is_open = set_at net.is_open c true }

-- `Identify`.
unfoldable pub identify : ℕ → Bytes → Net → Net
identify c imei net = record net { imei = set_at net.imei c imei }

unfoldable pub close : ℕ → Net → Net
close c net = record net { is_open = set_at net.is_open c false }

unfoldable pub get : Bytes → Net → Option ℕ
get imei net = lookup imei net.conns

unfoldable pub count : Net → ℕ
count net = length net.conns

abbrev notify : Net → Net
notify net = record net { notified = length net.conns }

-- The previous session of the IMEI is closed, if it is another one.
close_previous : Option ℕ → ℕ → Net → Net
unfolding close
close_previous none c net = net
close_previous (some previous) c net = if not (previous == c) then close previous net else net

unfoldable pub register : ℕ → Net → Net
unfolding close_previous get
register c net =
    let key = net.imei c in
    if is_empty key
    then net
    else notify (close_previous (get key net) c (record net { conns = insert key c net.conns }))

unfoldable pub unregister : Bytes → Net → Net
unregister imei net = notify (record net { conns = delete imei net.conns })

-- Only the session that is current for its IMEI is taken out.
drop_current : Option ℕ → ℕ → Bytes → Net → Net
unfolding unregister
drop_current none c key net = net
drop_current (some current) c key net = if current == c then unregister key net else net

unfoldable pub unregister_conn : ℕ → Net → Net
unfolding drop_current get
unregister_conn c net =
    let key = net.imei c in if is_empty key then net else drop_current (get key net) c key net

-- The end of a session.
unfoldable pub finish : ℕ → Net → Net
unfolding close unregister_conn
finish c net = unregister_conn c (close c net)

pub data SendError : Type 0 where
  not_connected empty_payload : SendError

-- `Send`: the connection that the payload is written to. The write itself may still fail.
unfoldable pub send : Bytes → Bytes → Net → Result SendError ℕ
unfolding get
send imei payload net = elim (get imei net) [
  | none ↦ err not_connected
  | some c ↦ if is_empty payload then err empty_payload else ok c
]
