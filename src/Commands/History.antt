-- ===== src/Commands/History.antt =====
-- service.go as a client of command.go: every call of the service is a history of statements on the
-- table, so what the table promises holds through any sequence of calls.
use farbo_rastreamento.Prelude.{
  ℕ, Bool, true, false, Option, none, some, List, [], ◌∷◌, ◌≡◌, refl, sym, ◌∙◌, subst, Result, ok,
  err,
}
use farbo_rastreamento.Prelude.Words.{Bytes}
use farbo_rastreamento.Protocols.Floats.{FloatOps}
use farbo_rastreamento.Protocols.Message.{CommandType}
use farbo_rastreamento.Commands.Store.{
  Status, terminal, failed, rejected, Reason, no_reason, Row, Table, StoreError, get, mark_final,
  expire_timed_out, expiring,
}
use farbo_rastreamento.Commands.Store.Lifecycle.{
  creates, sends, sends_out, acknowledges, ends, expires, Reach, here, next, IsKept, Reach-IsKept,
}
use farbo_rastreamento.Commands.Store.Numbers.{IsNumbered}
use farbo_rastreamento.Commands.Service.{
  Request, Adapter, Env, at_sweep, World, SendFailure, EventKind, record_engine_event, with_table,
}
use farbo_rastreamento.Commands.Request.{
  rejected_with, reject, announce_rejection, failed_with, sent_with, delivered, locked_with,
  dispatch, created_with, encoded_as, encode_and_send, guarded, send_by, send_typed, send,
}
use farbo_rastreamento.Commands.Answers.{
  mark_answered, announce_answer, time_answer, answered_with, handle_ack, announce_expired,
  swept_with, sweep_timeouts,
}

final-step :
    {s t : Table} (down : Bool) (status : Status) (why : Reason) (id : ℕ)
    → terminal status ≡ true
    → Reach s t
    → Reach s (mark_final down status why id t).1
final-step down status why id e p = next p (ends down status why id e)

pub table-record_engine_event :
    (now : ℕ) (r : Row) (kind : Option EventKind) (w : World)
    → (record_engine_event now r kind w).table ≡ w.table
unfolding record_engine_event
table-record_engine_event now r none w = refl
table-record_engine_event now r (some kind) w = refl

module _ {F : Type 0} (s : Table) (env : Env F) where
  rejected_with-Reach :
      (req : Request) (why : Reason) (o : Result StoreError Row) (w : World)
      → Reach s w.table
      → Reach s (rejected_with env req why o w).1.table
  unfolding rejected_with announce_rejection terminal
  rejected_with-Reach req why (err e) w p = p
  rejected_with-Reach req why (ok c) w p = final-step _ rejected why c.id refl p

  reject-Reach :
      (req : Request) (typ : CommandType) (why : Reason) (w : World)
      → Reach s w.table
      → Reach s (reject env req typ why w).1.table
  unfolding reject
  reject-Reach req typ why w p = rejected_with-Reach req why _ _ (next p (creates _ _ _))

  failed_with-table :
      (req : Request) (c : Row) (o : Result StoreError Row) (w : World)
      → Reach s w.table
      → Reach s (failed_with req c o w).1.table
  unfolding failed_with
  failed_with-table req c (err e) w p = p
  failed_with-table req c (ok r) w p = p

  sent_with-Reach :
      (req : Request) (c : Row) (o : Result StoreError Row) (w : World)
      → Reach s w.table
      → Reach s (sent_with env req c o w).1.table
  unfolding sent_with
  sent_with-Reach req c (err e) w p = p
  sent_with-Reach req c (ok r) w p = subst (Reach s) (sym (table-record_engine_event _ r _ _)) p

  delivered-Reach :
      (req : Request) (payload : Bytes) (c : Row) (o : Option SendFailure) (w : World)
      → Reach s w.table
      → Reach s (delivered env req payload c o w).1.table
  unfolding delivered terminal
  delivered-Reach req payload c none w p = sent_with-Reach req c _ _ (next p (sends_out _ _ _ c.id))
  delivered-Reach req payload c (some e) w p =
      failed_with-table req c _ _ (final-step _ failed _ c.id refl p)

  locked_with-Reach :
      (req : Request) (payload : Bytes) (o : Result StoreError Row) (w : World)
      → Reach s w.table
      → Reach s (locked_with env req payload o w).1.table
  unfolding locked_with
  locked_with-Reach req payload (err e) w p = p
  locked_with-Reach req payload (ok c) w p = delivered-Reach req payload c _ w p

  dispatch-Reach :
      (req : Request) (c : Row) (payload : Bytes) (w : World)
      → Reach s w.table
      → Reach s (dispatch env req c payload w).1.table
  unfolding dispatch
  dispatch-Reach req c payload w p = locked_with-Reach req payload _ _ (next p (sends _ c.id))

  created_with-Reach :
      (req : Request) (adapter : Adapter) (payload : Bytes) (o : Result StoreError Row) (w : World)
      → Reach s w.table
      → Reach s (created_with env req adapter payload o w).1.table
  unfolding created_with
  created_with-Reach req adapter payload (err e) w p = p
  created_with-Reach req adapter payload (ok c) w p =
      dispatch-Reach req c payload _ (subst (Reach s) (sym (table-record_engine_event _ c _ _)) p)

  encoded_as-Reach :
      (req : Request) (typ : CommandType) (adapter : Adapter) (key : ℕ) (o : Result Bytes Bytes)
      (w : World)
      → Reach s w.table
      → Reach s (encoded_as env req typ adapter key o w).1.table
  unfolding encoded_as
  encoded_as-Reach req typ adapter key (err e) w p = p
  encoded_as-Reach req typ adapter key (ok payload) w p =
      created_with-Reach req adapter payload _ _ (next p (creates _ _ _))

  guarded-Reach :
      (req : Request) (typ : CommandType) (adapter : Adapter) (why : Reason) (w : World)
      → Reach s w.table
      → Reach s (guarded env req typ adapter why w).1.table
  unfolding guarded encode_and_send
  guarded-Reach req typ adapter no_reason w p = encoded_as-Reach req typ adapter _ _ w p
  guarded-Reach req typ adapter (Reason.notice n) w p = reject-Reach req typ _ w p
  guarded-Reach req typ adapter (Reason.position_too_old a) w p = reject-Reach req typ _ w p
  guarded-Reach req typ adapter Reason.too_fast w p = reject-Reach req typ _ w p
  guarded-Reach req typ adapter (Reason.said t) w p = reject-Reach req typ _ w p

  mark_answered-Reach :
      (success : Bool) (response : Bytes) (id : ℕ) (t : Table)
      → Reach s t
      → Reach s (mark_answered env success response id t).1
  unfolding mark_answered terminal
  mark_answered-Reach true response id t p = next p (acknowledges _ _ _ id)
  mark_answered-Reach false response id t p = final-step _ failed _ id refl p

  table-time_answer :
      (r : Row) (since : Option ℕ) (w : World) → (time_answer env r since w).table ≡ w.table
  unfolding time_answer
  table-time_answer r none w = refl
  table-time_answer r (some at) w = refl

  pub table-announce_answer :
      (device : ℕ) (vehicle : Option ℕ) (exact : Bool) (response : Bytes) (success : Bool)
      (o : Result StoreError Row) (w : World)
      → (announce_answer env device vehicle exact response success o w).table ≡ w.table
  unfolding announce_answer
  table-announce_answer device vehicle exact response success (err e) w = refl
  table-announce_answer device vehicle exact response true (ok r) w =
      table-record_engine_event _ r _ _ ∙ table-time_answer r _ w
  table-announce_answer device vehicle exact response false (ok r) w =
      table-record_engine_event _ r _ _ ∙ table-time_answer r _ w

  answered_with-Reach :
      (device : ℕ) (vehicle : Option ℕ) (exact : Bool) (response : Bytes) (success : Bool)
      (o : Result StoreError Row) (w : World)
      → Reach s w.table
      → Reach s (answered_with env device vehicle exact response success o w).table
  unfolding answered_with
  answered_with-Reach device vehicle exact response success (err e) w p = p
  answered_with-Reach device vehicle exact response success (ok c) w p =
      subst (Reach s) (sym (table-announce_answer device vehicle exact _ success _ _))
        (mark_answered-Reach success _ c.id w.table p)

  table-announce_expired : (rs : List Row) (w : World) → (announce_expired rs w).table ≡ w.table
  unfolding announce_expired
  table-announce_expired [] w = refl
  table-announce_expired (r ∷ rs) w = table-announce_expired rs _

  pub table-swept_with :
      (o : Result StoreError (List Row)) (w : World) → (swept_with o w).table ≡ w.table
  unfolding swept_with
  table-swept_with (err e) w = refl
  table-swept_with (ok rs) w = table-announce_expired rs w

  sweep_timeouts-Reach : (w : World) → Reach s w.table → Reach s (sweep_timeouts env w).table
  unfolding sweep_timeouts
  sweep_timeouts-Reach w p =
      let expired = expire_timed_out (env.is_down expiring) (env.clock at_sweep) w.table in
      subst (Reach s) (sym (table-swept_with expired.0 (with_table expired.1 w)))
        (next p (expires _ _))

-- The calls of the service, each with what the outside does during it.
pub data Call (F : Type 0) : Type 0 where
  request : Env F → Request → Call F
  answer : Env F → ℕ → Option ℕ → ℕ → Bytes → Bool → Call F
  sweep : Env F → Call F

module _ {F : Type 0} ⦃fl : FloatOps F⦄ where
  send_by-Reach :
      (s : Table) (env : Env F) (req : Request) (typ : CommandType) (o : Option Adapter) (w : World)
      → Reach s w.table
      → Reach s (send_by env req typ o w).1.table
  unfolding send_by
  send_by-Reach s env req typ none w p = p
  send_by-Reach s env req typ (some adapter) w p = guarded-Reach s env req typ adapter _ w p

  send_typed-Reach :
      (s : Table) (env : Env F) (req : Request) (o : Option CommandType) (w : World)
      → Reach s w.table
      → Reach s (send_typed env req o w).1.table
  unfolding send_typed
  send_typed-Reach s env req none w p = p
  send_typed-Reach s env req (some typ) w p = send_by-Reach s env req typ _ w p

  unfoldable pub serve : Call F → World → World
  serve (request env req) w = (send env req w).1
  serve (answer env device vehicle key response success) w =
      handle_ack env device vehicle key response success w
  serve (sweep env) w = sweep_timeouts env w

  unfoldable pub serve_all : List (Call F) → World → World
  unfolding serve
  serve_all [] w = w
  serve_all (c ∷ cs) w = serve_all cs (serve c w)

  pub send-Reach :
      (s : Table) (env : Env F) (req : Request) (w : World)
      → Reach s w.table
      → Reach s (send env req w).1.table
  unfolding send
  send-Reach s env req w p = send_typed-Reach s env req req.typ w p

  serve-Reach : (s : Table) (c : Call F) (w : World) → Reach s w.table → Reach s (serve c w).table
  unfolding serve handle_ack
  serve-Reach s (request env req) w p = send-Reach s env req w p
  serve-Reach s (answer env device vehicle key response success) w p =
      answered_with-Reach s env device vehicle _ response success _ w p
  serve-Reach s (sweep env) w p = sweep_timeouts-Reach s env w p

  serve_all-Reach :
      (s : Table) (cs : List (Call F)) (w : World)
      → Reach s w.table
      → Reach s (serve_all cs w).table
  unfolding serve_all
  serve_all-Reach s [] w p = p
  serve_all-Reach s (c ∷ cs) w p = serve_all-Reach s cs _ (serve-Reach s c w p)

  -- From a table that uses no number twice, through any sequence of requests, answers and sweeps,
  -- whatever fails in each of them, a command of the table keeps its number, device, kind, payload
  -- and key, its state moves forward only, and once it is acknowledged, failed, timed out or
  -- rejected its whole row stays as it is.
  pub serve_all-IsKept :
      (cs : List (Call F)) (w : World) (id : ℕ) (r : Row)
      → IsNumbered w.table
      → get id w.table ≡ some r
      → IsKept id r (serve_all cs w).table
  serve_all-IsKept cs w id r n h = Reach-IsKept id r n h (serve_all-Reach w.table cs w here)
