-- ===== src/Commands/Request/Delivery.antt =====
-- service.go: what the parts of `Send` behind the checks return, store and transmit.
use farbo_rastreamento.Prelude.{
  ◌+◌, true, false, not, none, some, List, ◌∷◌, ◌≡◌, refl, sym, subst, arith, Result, ok, err,
}
use farbo_rastreamento.Prelude.Words.{Bytes}
use farbo_rastreamento.Protocols.Message.{CommandType, Command}
use farbo_rastreamento.Commands.Store.{
  pending, sent, failed, terminal, no_reason, Row, Table, StoreError, Statement, creating,
  mark_sending_of, mark_sent_of, mark_final_of, create, mark_sending, mark_sent, mark_final,
  first_row, get, is_pending, is_unsent, set_sending, set_sent, set_final,
}
use farbo_rastreamento.Commands.Store.Lookup.{Newest, mark-Newest}
use farbo_rastreamento.Commands.Service.{
  Request, Adapter, Env, World, Answer, SendFailure, transmitted, audited, counted_sent, dispatched,
  requested, command_sent_out, command_requested, entry_of, at_event, at_create, at_sent,
  at_dispatch, note, new_correlation_key, printable, raw_for, engine_event, record_engine_event,
  new_row, with_table,
}
use farbo_rastreamento.Commands.Request.{
  failure_reason, failed_with, sent_with, delivered, locked_with, dispatch, created_with,
  encoded_as, encode_and_send,
}
use farbo_rastreamento.Commands.Request.Safety.{transmissions, transmissions-record_engine_event}
use farbo_rastreamento.Commands.History.{table-record_engine_event}

-- The command that a request has encoded.
abbrev pub command_of : {F : Type 0} → Env F → Request → CommandType → Command
command_of env req typ = record {
  typ = typ;
  unique_id = req.device.imei;
  correlation_key = new_correlation_key env.random env.unix_nano;
  password = req.device.password;
  params = req.params;
  raw = raw_for typ req;
}

-- What stays true of an answer that returns a row: the row is stored as the newest, and so much is
-- transmitted.
unfoldable pub Gives : Row → List (Bytes × Bytes) → Answer → Type 0
Gives r out a = (a.0 ≡ ok r) × Newest r a.1.table × (transmissions a.1.trace ≡ out)

module _ {F : Type 0} (env : Env F) where
  sent_with-Gives :
      (req : Request) (c : Row) (o : Result StoreError Row) (w : World) (r : Row)
      → o ≡ ok r
      → Newest r w.table
      → Gives r (transmissions w.trace) (sent_with env req c o w)
  unfolding sent_with Gives transmissions
  sent_with-Gives req c (err e) w r h row = ground arith
  sent_with-Gives req c (ok x) w r h row =
      let noted =
        note (audited (entry_of req command_sent_out sent x)) (note (counted_sent c.command) w) in
      let kind = engine_event dispatched x.command in
      (
        ground arith,
        subst (Newest r) (sym (table-record_engine_event (env.clock at_event) x kind noted)) row,
        transmissions-record_engine_event (env.clock at_event) x kind noted,
      )

  failed_with-Gives :
      (req : Request) (c : Row) (o : Result StoreError Row) (w : World) (r : Row)
      → o ≡ ok r
      → Newest r w.table
      → Gives r (transmissions w.trace) (failed_with req c o w)
  unfolding failed_with Gives transmissions
  failed_with-Gives req c (err e) w r h row = ground arith
  failed_with-Gives req c (ok x) w r h row = (ground arith, row, refl)

  -- The row as sent.
  unfoldable pub sent_row : Row → Row
  sent_row = set_sent (env.clock at_sent) (env.clock at_dispatch + env.ack_timeout)

  pub delivered-sent :
      (req : Request) (payload : Bytes) (c : Row) (w : World)
      → env.is_down mark_sent_of ≡ false
      → is_unsent c.status ≡ true
      → Newest c w.table
      → Gives
          (sent_row c)
          ((req.device.imei, payload) ∷ transmissions w.trace)
          (delivered env req payload c none w)
  unfolding delivered mark_sent sent_row transmissions
  delivered-sent req payload c w up unsent row =
      let found = mark-Newest is_unsent sent_row w.table c unsent row in
      sent_with-Gives req c
        (mark_sent (env.is_down mark_sent_of) (env.clock at_sent)
          (env.clock at_dispatch + env.ack_timeout) c.id w.table).0
        (with_table
          (mark_sent (env.is_down mark_sent_of) (env.clock at_sent)
            (env.clock at_dispatch + env.ack_timeout) c.id w.table).1
          (note (transmitted req.device.imei payload) w))
        (sent_row c) (rw up found.0) (rw up found.1)

  pub delivered-failed :
      (req : Request) (payload : Bytes) (c : Row) (e : SendFailure) (w : World)
      → env.is_down mark_final_of ≡ false
      → terminal c.status ≡ false
      → Newest c w.table
      → Gives
          (set_final failed (failure_reason e) c)
          (transmissions w.trace)
          (delivered env req payload c (some e) w)
  unfolding delivered mark_final
  delivered-failed req payload c e w up going row =
      let found =
        mark-Newest (λ s. not (terminal s)) (set_final failed (failure_reason e)) w.table c
          (ground arith) row in
      let marked = mark_final (env.is_down mark_final_of) failed (failure_reason e) c.id w.table in
      failed_with-Gives req c marked.0 (with_table marked.1 w)
        (set_final failed (failure_reason e) c) (rw up found.0) (rw up found.1)

  dispatch-Gives :
      (req : Request) (c : Row) (payload : Bytes) (w : World) (r : Row) (out : List (Bytes × Bytes))
      → env.is_down mark_sending_of ≡ false
      → c.status ≡ pending
      → Newest c w.table
      → ((t : Table)
          → Newest (set_sending c) t
          → Gives r out (
              delivered env req payload
                (set_sending c)
                (env.deliver req.device.imei payload)
                (with_table t w)))
      → Gives r out (dispatch env req c payload w)
  unfolding dispatch mark_sending locked_with
  dispatch-Gives req c payload w r out up fresh row rest =
      let found = mark-Newest is_pending set_sending w.table c (ground arith) row in
      rw (up, found.0) (rest _ found.1)

  -- What is left to show of a request, behind the lock of its row.
  unfoldable pub Delivers : Request → Row → Bytes → World → Row → List (Bytes × Bytes) → Type 0
  Delivers req c payload w r out =
      (v : World)
      → transmissions v.trace ≡ transmissions w.trace
      → Newest (set_sending c) v.table
      → Gives r out
          (delivered env req payload (set_sending c) (env.deliver req.device.imei payload) v)

  created_with-Gives :
      (req : Request) (adapter : Adapter) (payload : Bytes) (c : Row) (w : World) (r : Row)
      (out : List (Bytes × Bytes))
      → env.is_down mark_sending_of ≡ false
      → c.status ≡ pending
      → Newest c w.table
      → Delivers req c payload w r out
      → Gives r out (created_with env req adapter payload (ok c) w)
  unfolding created_with Delivers transmissions
  created_with-Gives req adapter payload c w r out up fresh row rest =
      let noted =
        note (audited (entry_of req (command_requested c.payload adapter.name) pending c)) w in
      let kind = engine_event requested c.command in
      let told = record_engine_event (env.clock at_event) c kind noted in
      dispatch-Gives req c payload told r out up fresh
        (subst (Newest c) (sym (table-record_engine_event (env.clock at_event) c kind noted)) row)
        (λ t found.
          rest (with_table t told)
            (transmissions-record_engine_event (env.clock at_event) c kind noted) found)

  -- The row of a request as `Create` stores it.
  unfoldable pub created_row : Request → CommandType → Bytes → Table → Row
  created_row req typ payload t =
      record (new_row req typ (printable payload) pending
        (new_correlation_key env.random env.unix_nano) no_reason) {
          id = t.next_id;
          requested_at = env.clock at_create;
        }

  pub encode_and_send-Gives :
      (req : Request) (typ : CommandType) (adapter : Adapter) (payload : Bytes) (w : World)
      (r : Row) (out : List (Bytes × Bytes))
      → ((s : Statement) → env.is_down s ≡ false)
      → adapter.encode (command_of env req typ) ≡ ok payload
      → Delivers req (created_row req typ payload w.table) payload w r out
      → Gives r out (encode_and_send env req typ adapter w)
  unfolding encode_and_send encoded_as create created_row get first_row Delivers
  encode_and_send-Gives req typ adapter payload w r out up encoded rest =
      rw (encoded, up creating)
        (created_with-Gives req adapter payload (created_row req typ payload w.table)
          (with_table
            (create false (env.clock at_create) (created_row req typ payload w.table) w.table).1 w)
          r out (up mark_sending_of) refl (w.table.rows, refl) rest)
