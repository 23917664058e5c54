-- ===== src/Commands/Request.antt =====
-- service.go: `Send`, `dispatch`, `engineCutBlocked` and `reject`. Each `…_with` is the rest of a
-- function behind a call, by what the call returned.
pub mod Delivery
pub mod Outcomes
pub mod Safety
pub mod Refusals
use farbo_rastreamento.Prelude.{
  ℕ, zero, suc, ◌+◌, ◌-◌, ◌%◌, ◌^◌, ◌/◌, Bool, true, false, not, ◌&&◌, ◌||◌, Option, none, some,
  List, [], ◌∷◌, ◌++◌, ltb, leb, ◌==◌, if◌then◌else◌, Result, ok, err,
}
use farbo_rastreamento.Prelude.Words.{Bytes, u32_at}
use farbo_rastreamento.Protocols.Text.{is_printable, hex_digit_upper, codes}
use farbo_rastreamento.Protocols.Calendar.{Time}
use farbo_rastreamento.Protocols.Floats.{FloatOps}
use farbo_rastreamento.Protocols.Message.{CommandType, engine_cut, engine_resume, custom, Command}
use farbo_rastreamento.Commands.Store.{
  Status, pending, sending, sent, acknowledged, failed, timeout, rejected, Notice,
  position_unreadable, position_unknown, not_connected, Reason, no_reason, notice, position_too_old,
  too_fast, said, Row, Table, StoreError, not_found, unavailable, Statement, creating,
  mark_sending_of, mark_sent_of, mark_acknowledged_of, mark_final_of, finding_by_correlation,
  finding_oldest, expiring, create, mark_sending, mark_sent, mark_acknowledged, mark_final,
  find_open_by_correlation, find_oldest_open, expire_timed_out,
}
use farbo_rastreamento.Commands.Service.{
  Snapshot, Device, Request, Adapter, Env, World, Answer, Moment, at_check, at_create, at_dispatch,
  at_sent, at_answer, at_event, at_sweep, SendFailure, disconnected, broken, requested, dispatched,
  answered, command_sent, command_acknowledged, command_failed, command_requested, command_sent_out,
  command_rejected, command_result, command_expired, transmitted, audited, recorded, published,
  counted_sent, counted_failed, timed, ServiceError, unknown_command, no_protocol, not_encoded,
  store_failed, refused, note, new_correlation_key, printable, raw_for, engine_event,
  record_engine_event, entry_of, new_row, with_table,
}

-- The end of `reject`: the row as `MarkFinal` returned it, or else as `Create` left it.
unfoldable pub rejected_row : Result StoreError Row → Row → Row
rejected_row (ok r) c = r
rejected_row (err e) c = c

unfoldable pub announce_rejection : Request → Reason → Row → World → Answer
announce_rejection req why r w = (
  err (refused why),
  note (published command_failed req.vehicle r) (
      note (audited (entry_of req (command_rejected why) rejected r))
        (note (counted_failed r.command rejected) w)),
)

-- `failure.Error()`, or the text for a tracker that is not connected.
unfoldable pub failure_reason : SendFailure → Reason
failure_reason disconnected = notice not_connected
failure_reason (broken text) = said text

-- The branch of `dispatch` where the socket refused the payload.
unfoldable pub failed_with : Request → Row → Result StoreError Row → World → Answer
failed_with req c (err e) w = (err (store_failed e), w)
failed_with req c (ok r) w =
    (ok r, note (published command_failed req.vehicle r) (note (counted_failed c.command failed) w))

module _ {F : Type 0} where
  unfoldable pub rejected_with : Env F → Request → Reason → Result StoreError Row → World → Answer
  unfolding announce_rejection rejected_row
  rejected_with env req why (err e) w = (err (store_failed e), w)
  rejected_with env req why (ok c) w =
      let marked = mark_final (env.is_down mark_final_of) rejected why c.id w.table in
      announce_rejection req why (rejected_row marked.0 c) (with_table marked.1 w)

  unfoldable pub reject : Env F → Request → CommandType → Reason → World → Answer
  unfolding rejected_with new_correlation_key
  reject env req typ why w =
      let key = new_correlation_key env.random env.unix_nano in
      let created =
        create (env.is_down creating) (env.clock at_create) (new_row req typ [] rejected key why)
          w.table in
      rejected_with env req why created.0 (with_table created.1 w)

  -- The branch where the socket took it.
  unfoldable pub sent_with : Env F → Request → Row → Result StoreError Row → World → Answer
  unfolding record_engine_event engine_event
  sent_with env req c (err e) w = (err (store_failed e), w)
  sent_with env req c (ok r) w = (
    ok r,
    note (published command_sent req.vehicle r) (
        record_engine_event (env.clock at_event) r (engine_event dispatched r.command) (
          note (audited (entry_of req command_sent_out sent r)) (note (counted_sent c.command) w))),
  )

  unfoldable pub delivered : Env F → Request → Bytes → Row → Option SendFailure → World → Answer
  unfolding failed_with sent_with failure_reason
  delivered env req payload c (some failure) w =
      let marked =
        mark_final (env.is_down mark_final_of) failed (failure_reason failure) c.id w.table in
      failed_with req c marked.0 (with_table marked.1 w)
  delivered env req payload c none w =
      let marked =
        mark_sent (env.is_down mark_sent_of) (env.clock at_sent)
          (env.clock at_dispatch + env.ack_timeout) c.id w.table in
      sent_with env req c marked.0
        (with_table marked.1 (note (transmitted req.device.imei payload) w))

  unfoldable pub locked_with : Env F → Request → Bytes → Result StoreError Row → World → Answer
  unfolding delivered
  locked_with env req payload (err e) w = (err (store_failed e), w)
  locked_with env req payload (ok c) w =
      delivered env req payload c (env.deliver req.device.imei payload) w

  unfoldable pub dispatch : Env F → Request → Row → Bytes → World → Answer
  unfolding locked_with
  dispatch env req c payload w =
      let locked = mark_sending (env.is_down mark_sending_of) c.id w.table in
      locked_with env req payload locked.0 (with_table locked.1 w)

  unfoldable pub created_with :
      Env F → Request → Adapter → Bytes → Result StoreError Row → World → Answer
  unfolding dispatch record_engine_event engine_event
  created_with env req adapter payload (err e) w = (err (store_failed e), w)
  created_with env req adapter payload (ok c) w = dispatch env req c payload (
      record_engine_event (env.clock at_event) c (engine_event requested c.command)
        (note (audited (entry_of req (command_requested c.payload adapter.name) pending c)) w))

  unfoldable pub encoded_as :
      Env F → Request → CommandType → Adapter → ℕ → Result Bytes Bytes → World → Answer
  unfolding created_with printable
  encoded_as env req typ adapter key (err e) w = (err (not_encoded adapter.name e), w)
  encoded_as env req typ adapter key (ok payload) w =
      let created =
        create (env.is_down creating) (env.clock at_create)
          (new_row req typ (printable payload) pending key no_reason) w.table in
      created_with env req adapter payload created.0 (with_table created.1 w)

  unfoldable pub encode_and_send : Env F → Request → CommandType → Adapter → World → Answer
  unfolding encoded_as raw_for new_correlation_key
  encode_and_send env req typ adapter w =
      let key = new_correlation_key env.random env.unix_nano in
      encoded_as env req typ adapter key
        (adapter.encode (record {
          typ = typ;
          unique_id = req.device.imei;
          correlation_key = key;
          password = req.device.password;
          params = req.params;
          raw = raw_for typ req;
        }))
        w

  unfoldable pub guarded : Env F → Request → CommandType → Adapter → Reason → World → Answer
  unfolding encode_and_send reject
  guarded env req typ adapter no_reason w = encode_and_send env req typ adapter w
  guarded env req typ adapter why w = reject env req typ why w

-- The safety rule and the request itself compare speeds.
module _ {F : Type 0} ⦃fl : FloatOps F⦄ where
  unfoldable pub blocked_at : Env F → Option (Snapshot F) → Reason
  blocked_at env none = notice position_unreadable
  blocked_at env (some s) =
      if not s.has_position
      then notice position_unknown
      else if ltb (s.timestamp + env.max_age) (env.clock at_check)
      then position_too_old (env.clock at_check - s.timestamp)
      else if fl.lt env.max_speed s.speed_kmh
      then too_fast
      else no_reason

  unfoldable pub engine_cut_blocked : Env F → Device → Reason
  unfolding blocked_at
  engine_cut_blocked env device = blocked_at env (env.snapshot device.id)

  unfoldable pub guard : Env F → Device → CommandType → Reason
  guard env device engine_cut = engine_cut_blocked env device
  guard env device _ = no_reason

  unfoldable pub send_by : Env F → Request → CommandType → Option Adapter → World → Answer
  unfolding guarded guard
  send_by env req typ none w = (err no_protocol, w)
  send_by env req typ (some adapter) w = guarded env req typ adapter (guard env req.device typ) w

  unfoldable pub send_typed : Env F → Request → Option CommandType → World → Answer
  unfolding send_by
  send_typed env req none w = (err unknown_command, w)
  send_typed env req (some typ) w = send_by env req typ (env.by_name req.device.protocol) w

  -- `Send`.
  unfoldable pub send : Env F → Request → World → Answer
  unfolding send_typed
  send env req w = send_typed env req req.typ w
