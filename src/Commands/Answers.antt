-- ===== src/Commands/Answers.antt =====
-- service.go: `HandleAck` and `SweepTimeouts`.
pub mod Matching
pub mod Sweep
use farbo_rastreamento.Prelude.{
  ℕ, zero, suc, ◌+◌, ◌-◌, ◌%◌, ◌^◌, ◌/◌, Bool, true, false, not, ◌&&◌, ◌||◌, Option, none, some,
  List, [], ◌∷◌, ◌++◌, ltb, leb, ◌==◌, if◌then◌else◌, Result, ok, err,
}
use farbo_rastreamento.Prelude.Words.{Bytes, u32_at}
use farbo_rastreamento.Protocols.Text.{is_printable, hex_digit_upper, codes}
use farbo_rastreamento.Protocols.Calendar.{Time}
use farbo_rastreamento.Protocols.Floats.{FloatOps}
use farbo_rastreamento.Protocols.Message.{CommandType, engine_cut, engine_resume, custom, Command}
use farbo_rastreamento.Commands.Store.{
  Status, pending, sending, sent, acknowledged, failed, timeout, rejected, Notice,
  position_unreadable, position_unknown, not_connected, Reason, no_reason, notice, position_too_old,
  too_fast, said, Row, Table, StoreError, not_found, unavailable, Statement, creating,
  mark_sending_of, mark_sent_of, mark_acknowledged_of, mark_final_of, finding_by_correlation,
  finding_oldest, expiring, create, mark_sending, mark_sent, mark_acknowledged, mark_final,
  find_open_by_correlation, find_oldest_open, expire_timed_out,
}
use farbo_rastreamento.Commands.Service.{
  Snapshot, Device, Request, Env, World, Answer, Moment, at_check, at_create, at_dispatch, at_sent,
  at_answer, at_event, at_sweep, SendFailure, disconnected, broken, requested, dispatched, answered,
  command_sent, command_acknowledged, command_failed, command_requested, command_sent_out,
  command_rejected, command_result, command_expired, transmitted, audited, recorded, published,
  counted_sent, counted_failed, timed, ServiceError, unknown_command, no_protocol, not_encoded,
  store_failed, refused, note, new_correlation_key, printable, raw_for, engine_event,
  record_engine_event, entry_of, new_row, with_table,
}

-- The mark of an answer that is matched by the order of sending, in UTF-8.
unfoldable pub by_order : Bytes → Bytes
by_order text =
    codes "[correla" ++ (0xC3 ∷ 0xA7 ∷ 0xC3 ∷ 0xA3 ∷ (codes "o por ordem de envio] " ++ text))

-- The loop of `SweepTimeouts`.
unfoldable pub announce_expired : List Row → World → World
announce_expired [] w = w
announce_expired (r ∷ rs) w = announce_expired rs (
    note (published command_failed none r) (
      note
        (audited (record {
          user = r.requested_by;
          action = command_expired;
          vehicle = none;
          device = r.device;
          result = timeout;
          ip = [];
          command = r.command;
          command_id = r.id;
        }))
        (note (counted_failed r.command timeout) w)))

unfoldable pub swept_with : Result StoreError (List Row) → World → World
unfolding announce_expired
swept_with (err e) w = w
swept_with (ok rs) w = announce_expired rs w

module _ {F : Type 0} where
  -- `HandleAck`: the command that the answer is for, by its key and else by its age.
  unfoldable pub find_answered : Env F → ℕ → ℕ → Table → Result StoreError Row
  find_answered env device key t =
      if key == 0
      then find_oldest_open (env.is_down finding_oldest) device t
      else elim (find_open_by_correlation (env.is_down finding_by_correlation) device key t) [
        | ok c ↦ ok c
        | err _ ↦ find_oldest_open (env.is_down finding_oldest) device t
      ]

  unfoldable pub mark_answered : Env F → Bool → Bytes → ℕ → Table → Result StoreError Row × Table
  mark_answered env true response id t =
      mark_acknowledged (env.is_down mark_acknowledged_of) (env.clock at_answer) response id t
  mark_answered env false response id t =
      mark_final (env.is_down mark_final_of) failed (said response) id t

  unfoldable pub time_answer : Env F → Row → Option Time → World → World
  time_answer env r none w = w
  time_answer env r (some since) w = note (timed r.command since (env.clock at_event)) w

  unfoldable pub announce_answer :
      Env F → ℕ → Option ℕ → Bool → Bytes → Bool → Result StoreError Row → World → World
  unfolding time_answer record_engine_event engine_event
  announce_answer env device vehicle exact response success (err e) w = w
  announce_answer env device vehicle exact response success (ok r) w =
      let counted =
        let w1 = time_answer env r r.sent_at w in
        if success then w1 else note (counted_failed r.command failed) w1 in
      let told =
        note
          (audited (record {
            user = r.requested_by;
            action = command_result response exact;
            vehicle = vehicle;
            device = device;
            result = r.status;
            ip = [];
            command = r.command;
            command_id = r.id;
          }))
          counted in
      note (published (if success then command_acknowledged else command_failed) vehicle r)
        (record_engine_event (env.clock at_event) r (engine_event answered r.command) told)

  unfoldable pub answered_with :
      Env F → ℕ → Option ℕ → Bool → Bytes → Bool → Result StoreError Row → World → World
  unfolding mark_answered announce_answer by_order
  answered_with env device vehicle exact response success (err e) w = w
  answered_with env device vehicle exact response success (ok c) w =
      let text = if exact then response else by_order response in
      let marked = mark_answered env success text c.id w.table in
      announce_answer env device vehicle exact text success marked.0 (with_table marked.1 w)

  unfoldable pub handle_ack : Env F → ℕ → Option ℕ → ℕ → Bytes → Bool → World → World
  unfolding answered_with find_answered
  handle_ack env device vehicle key response success w =
      answered_with env device vehicle (not (key == 0)) response success
        (find_answered env device key w.table) w

  unfoldable pub sweep_timeouts : Env F → World → World
  unfolding swept_with
  sweep_timeouts env w =
      let expired = expire_timed_out (env.is_down expiring) (env.clock at_sweep) w.table in
      swept_with expired.0 (with_table expired.1 w)
