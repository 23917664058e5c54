-- ===== src/Conversation.antt =====
-- The parts together: a command that service.go sends through the GT06 adapter, the tracker that
-- reads it and replies, and the reply that closes the command.
pub mod Examples
use farbo_rastreamento.Prelude.{
  ℕ, ◌≡◌, ◌≢◌, ◌≤◌, ◌<◌, ◌^◌, ◌+◌, refl, sym, ap, ◌∙◌, subst, arith, Bool, true, false, not, ◌&&◌,
  Option, none, some, List, [], ◌∷◌, ok, ◌==◌, if◌then◌else◌, ==_refl, length,
}
use farbo_rastreamento.Prelude.Words.{Bytes}
use farbo_rastreamento.Protocols.Floats.{FloatOps}
use farbo_rastreamento.Protocols.Calendar.{CivilTime}
use farbo_rastreamento.Protocols.Message.{CommandType, TrackerMessage}
use farbo_rastreamento.Gt06.Encode.{encode_command}
use farbo_rastreamento.Gt06.Parse.{parse}
use farbo_rastreamento.Gt06.Decode.{decode_reply_text}
use farbo_rastreamento.Gt06.Simulate.{decode_server_command, build_command_reply}
use farbo_rastreamento.Gt06.Simulate.RoundTrip.{
  encode_command-decode_server_command, parse-build_command_reply,
}
use farbo_rastreamento.Commands.Store.{
  Row, Table, Statement, first_row, get, is_open, find_open_by_correlation, finding_by_correlation,
  set_sending, set_timeout, expiring,
}
use farbo_rastreamento.Commands.Store.Numbers.{IsNumbered}
use farbo_rastreamento.Commands.Store.Lookup.{Newest, first_row-Newest, get-Newest}
use farbo_rastreamento.Commands.Store.Lifecycle.{here, Reach-IsNumbered}
use farbo_rastreamento.Commands.Service.{
  Request, Env, World, new_correlation_key, at_answer, at_dispatch, at_sweep,
}
use farbo_rastreamento.Commands.Request.{send}
use farbo_rastreamento.Commands.Request.Outcomes.{Passes, send-sent}
use farbo_rastreamento.Commands.Request.Delivery.{Gives, command_of, created_row, sent_row}
use farbo_rastreamento.Commands.Answers.Sweep.{get-sweep_timeouts}
use farbo_rastreamento.Commands.Answers.{sweep_timeouts, handle_ack, find_answered, by_order}
use farbo_rastreamento.Tracking.Replies.{failed_response, handle_reply}
use farbo_rastreamento.Commands.Answers.Matching.{closed, handle_ack-closes}
use farbo_rastreamento.Commands.History.{send-Reach}

-- The newest row, while it is open, is the one that an answer with its key is taken for.
find_answered-Newest :
    {F : Type 0} (env : Env F) (c : Row) (t : Table)
    → ((s : Statement) → env.is_down s ≡ false)
    → c.correlation_key ≢ 0
    → is_open c.status ≡ true
    → Newest c t
    → find_answered env c.device c.correlation_key t ≡ ok c
unfolding find_answered find_open_by_correlation
find_answered-Newest env c t up keyed going newest =
    let test = λ (r : Row).
      r.device == c.device && r.correlation_key == c.correlation_key && is_open r.status in
    let own : test c ≡ true = ground (arith, ==_refl c.device, ==_refl c.correlation_key) in
    ground (arith, up finding_by_correlation, first_row-Newest test c t own newest)

unmarked : (key : ℕ) (text : Bytes) → key ≢ 0 → (if key == 0 then by_order text else text) ≡ text
unmarked key text h = ground arith

module _ {F : Type 0} ⦃fl : FloatOps F⦄ where
  -- A command passes every check, the GT06 adapter encodes it under a 32-bit key that is not zero,
  -- the socket takes it and, when the answer comes, the database works. Then the tracker reads from
  -- the packet that key and the text of the command; and whatever text of at most 251 bytes it
  -- replies under that key, the server reads the reply as one message, whose key and response close
  -- that very command, the stored row of the request, as acknowledged or, if the response reads as
  -- a refusal, as failed, and mark it by no order.
  pub send-handle_reply :
      (env later : Env F) (req : Request) (typ : CommandType) (counter : ℕ) (payload : Bytes)
      (w : World) (ack_gps : Bool) (now : CivilTime) (reply : Bytes) (serial : ℕ)
      (vehicle : Option ℕ)
      → Passes env req typ payload
      → encode_command counter (command_of env req typ) ≡ ok payload
      → env.deliver req.device.imei payload ≡ none
      → ((s : Statement) → later.is_down s ≡ false)
      → IsNumbered w.table
      → new_correlation_key env.random env.unix_nano ≢ 0
      → new_correlation_key env.random env.unix_nano < 2 ^ 32
      → length reply ≤ 251
      → serial < 2 ^ 16
      → let key = new_correlation_key env.random env.unix_nano in
        let row = sent_row env (set_sending (created_row env req typ payload w.table)) in
        (text : Bytes) × (msg : TrackerMessage F) × (decode_server_command payload ≡ ok (key, text))
        × (parse ack_gps now (build_command_reply key reply serial) ≡ ok (msg ∷ []))
        × (get row.id (handle_reply later req.device.id vehicle msg (send env req w).1).table
            ≡ some (
                closed
                  (later.clock at_answer)
                  (not (failed_response (decode_reply_text reply)))
                  (decode_reply_text reply)
                  row))
  unfolding created_row sent_row Gives handle_reply
  send-handle_reply env later req typ counter payload w ack_gps now reply serial vehicle passes
        encoded reached up numbered keyed small short hs =
      let key = new_correlation_key env.random env.unix_nano in
      let row = sent_row env (set_sending (created_row env req typ payload w.table)) in
      let out = send-sent env req typ payload w passes reached in
      let read =
        encode_command-decode_server_command counter (command_of env req typ) small encoded in
      let heard = parse-build_command_reply ack_gps now key reply serial small short hs in
      let after = (send env req w).1 in
      let ordered : IsNumbered after.table =
        Reach-IsNumbered numbered (send-Reach w.table env req w here) in
      let success = not (failed_response (decode_reply_text reply)) in
      let found = find_answered-Newest later row after.table up keyed refl out.1 in
      let closes =
        handle_ack-closes later req.device.id vehicle key (decode_reply_text reply) success after
          row up ordered found in
      let moved = λ (k : ℕ) (r : Bytes).
        get row.id
          (handle_ack later req.device.id vehicle k r (not (failed_response r)) after).table in
      (
        read.0,
        heard.0,
        read.3,
        heard.1,
        ap (λ k. moved k heard.0.response) heard.3
            ∙ ap (moved key) heard.4
            ∙ closes
            ∙ ap (λ r. some (closed (later.clock at_answer) success r row))
                (unmarked key (decode_reply_text reply) keyed),
      )

  -- A command that passes every check and that the socket takes is closed as timed out by the first
  -- sweep after its limit that the database answers: it cannot stay in flight without an answer.
  pub send-sweep_timeouts :
      (env later : Env F) (req : Request) (typ : CommandType) (payload : Bytes) (w : World)
      → Passes env req typ payload
      → env.deliver req.device.imei payload ≡ none
      → later.is_down expiring ≡ false
      → env.clock at_dispatch + env.ack_timeout < later.clock at_sweep
      → let row = sent_row env (set_sending (created_row env req typ payload w.table)) in
        get row.id (sweep_timeouts later (send env req w).1).table ≡ some (set_timeout row)
  unfolding created_row sent_row Gives
  send-sweep_timeouts env later req typ payload w passes reached up late =
      let row = sent_row env (set_sending (created_row env req typ payload w.table)) in
      let out = send-sent env req typ payload w passes reached in
      let after = (send env req w).1 in
      get-sweep_timeouts later after row.id row up (get-Newest row after.table out.1)
      ∙ ground (arith, late)
