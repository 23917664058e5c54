-- ===== src/Commands/Store.antt =====
-- command.go: the states of a command and the statements on the table `device_commands`.
-- The table holds its rows newest first, so `ORDER BY created_at DESC` is the order of the list.
-- A statement of the database may fail with nothing changed: that is the first argument `down`.
pub mod Follows
pub mod Numbers
pub mod Lifecycle
pub mod Lookup
use farbo_rastreamento.Prelude.{
  ℕ, suc, ◌+◌, Bool, true, false, not, ◌&&◌, ◌||◌, Option, none, some, List, [], ◌∷◌, ◌++◌, ltb,
  leb, ◌==◌, if◌then◌else◌, take, Result, ok, err,
}
use farbo_rastreamento.Prelude.Words.{Bytes}
use farbo_rastreamento.Protocols.Calendar.{Time}
use farbo_rastreamento.Protocols.Message.{CommandType, engine_cut, engine_resume}

pub data Status : Type 0 where
  pending sending sent acknowledged failed timeout rejected : Status

unfoldable pub terminal : Status → Bool
terminal acknowledged = true
terminal failed = true
terminal timeout = true
terminal rejected = true
terminal _ = false

-- The fixed texts that the two files store.
pub data Notice : Type 0 where
  position_unreadable position_unknown not_connected not_answered : Notice

-- The column `error`: empty, one of the fixed texts, the refusals that print an age and a speed
-- with their limits, or what the socket or the tracker said.
pub data Reason : Type 0 where
  no_reason : Reason
  notice : Notice → Reason
  position_too_old : Time → Reason
  too_fast : Reason
  said : Bytes → Reason

-- `Command`, a row of the table. `created_at` is the default of the column, as `requested_at` is.
pub record Row : Type 0 where
  pub id : ℕ
  pub device : ℕ
  pub command : CommandType
  pub payload : Bytes
  pub status : Status
  pub correlation_key : ℕ
  pub requested_by : Option ℕ
  pub requested_at : Time
  pub sent_at : Option Time
  pub acknowledged_at : Option Time
  pub timeout_at : Option Time
  pub response : Bytes
  pub error : Reason

pub record Table : Type 0 where
  pub rows : List Row
  pub next_id : ℕ

pub data StoreError : Type 0 where
  not_found unavailable : StoreError

pub data Statement : Type 0 where
  creating mark_sending_of mark_sent_of mark_acknowledged_of mark_final_of : Statement
  finding_by_correlation finding_oldest expiring : Statement

-- `Create`: the row gets its number, its time and, since the statement does not name them, no
-- `error` and no `response`.
unfoldable pub create : Bool → Time → Row → Table → Result StoreError Row × Table
create true now c t = (err unavailable, t)
create false now c t = (
  ok (record c { id = t.next_id; requested_at = now }),
  record t {
    rows =
        record {
          id = t.next_id;
          device = c.device;
          command = c.command;
          payload = c.payload;
          status = c.status;
          correlation_key = c.correlation_key;
          requested_by = c.requested_by;
          requested_at = now;
          sent_at = none;
          acknowledged_at = none;
          timeout_at = none;
          response = [];
          error = no_reason;
        }
        ∷ t.rows;
    next_id = suc t.next_id;
  },
)

-- The newest row that a test takes, and the oldest.
unfoldable pub first_row : (Row → Bool) → List Row → Option Row
first_row p [] = none
first_row p (r ∷ rs) = if p r then some r else first_row p rs

unfoldable pub or_else : Option Row → Option Row → Option Row
or_else (some r) _ = some r
or_else none o = o

unfoldable pub last_row : (Row → Bool) → List Row → Option Row
unfolding or_else
last_row p [] = none
last_row p (r ∷ rs) = or_else (last_row p rs) (if p r then some r else none)

abbrev pub one : Option Row → Result StoreError Row
one none = err not_found
one (some r) = ok r

unfoldable pub get : ℕ → Table → Option Row
unfolding first_row
get id t = first_row (λ r. r.id == id) t.rows

-- `ListByDevice`; the size of a page is 1 to 500, and 100 otherwise.
filter_device : ℕ → List Row → List Row
filter_device device [] = []
filter_device device (r ∷ rs) =
    if r.device == device then r ∷ filter_device device rs else filter_device device rs

unfoldable pub list_by_device : ℕ → ℕ → Table → List Row
unfolding filter_device
list_by_device device limit t =
    take (if limit == 0 || ltb 500 limit then 100 else limit) (filter_device device t.rows)

-- `UPDATE … WHERE id = $1 AND …`.
unfoldable pub update_rows : (Row → Bool) → (Row → Row) → List Row → List Row
update_rows p f [] = []
update_rows p f (r ∷ rs) = (if p r then f r else r) ∷ update_rows p f rs

abbrev pub matched : ℕ → (Status → Bool) → Row → Bool
matched id from r = r.id == id && from r.status

-- One row by its number, in one of the states of the statement; `RETURNING` gives it as changed.
unfoldable pub mark :
    Bool → (Status → Bool) → (Row → Row) → ℕ → Table → Result StoreError Row × Table
unfolding first_row update_rows
mark true from f id t = (err unavailable, t)
mark false from f id t = elim (first_row (matched id from) t.rows) [
  | none ↦ (err not_found, t)
  | some r ↦ (ok (f r), record t { rows = update_rows (matched id from) f t.rows })
]

abbrev pub is_pending : Status → Bool
is_pending pending = true
is_pending _ = false

abbrev pub is_unsent : Status → Bool
is_unsent pending = true
is_unsent sending = true
is_unsent _ = false

abbrev pub is_open : Status → Bool
is_open pending = true
is_open sending = true
is_open sent = true
is_open _ = false

abbrev pub is_in_flight : Status → Bool
is_in_flight sending = true
is_in_flight sent = true
is_in_flight _ = false

abbrev pub set_sending : Row → Row
set_sending r = record r { status = sending }

abbrev pub set_sent : Time → Time → Row → Row
set_sent now limit r = record r { status = sent; sent_at = some now; timeout_at = some limit }

abbrev pub set_acknowledged : Time → Bytes → Row → Row
set_acknowledged now response r = record r {
  status = acknowledged;
  acknowledged_at = some now;
  response = response;
}

abbrev pub set_final : Status → Reason → Row → Row
set_final status reason r = record r { status = status; error = reason }

unfoldable pub mark_sending : Bool → ℕ → Table → Result StoreError Row × Table
mark_sending down = mark down is_pending set_sending

unfoldable pub mark_sent : Bool → Time → Time → ℕ → Table → Result StoreError Row × Table
mark_sent down now limit = mark down is_unsent (set_sent now limit)

unfoldable pub mark_acknowledged : Bool → Time → Bytes → ℕ → Table → Result StoreError Row × Table
mark_acknowledged down now response = mark down is_open (set_acknowledged now response)

unfoldable pub mark_final : Bool → Status → Reason → ℕ → Table → Result StoreError Row × Table
unfolding terminal
mark_final down status reason = mark down (λ s. not (terminal s)) (set_final status reason)

unfoldable pub find_open_by_correlation : Bool → ℕ → ℕ → Table → Result StoreError Row
unfolding first_row
find_open_by_correlation true device key t = err unavailable
find_open_by_correlation false device key t =
    one (first_row (λ r. r.device == device && r.correlation_key == key && is_open r.status) t.rows)

unfoldable pub find_oldest_open : Bool → ℕ → Table → Result StoreError Row
unfolding last_row
find_oldest_open true device t = err unavailable
find_oldest_open false device t =
    one (last_row (λ r. r.device == device && is_in_flight r.status) t.rows)

abbrev pub before : Option Time → Time → Bool
before none now = false
before (some limit) now = ltb limit now

abbrev pub overdue : Time → Row → Bool
overdue now r = is_in_flight r.status && before r.timeout_at now

abbrev pub set_timeout : Row → Row
set_timeout = set_final timeout (notice not_answered)

changed_rows : (Row → Bool) → (Row → Row) → List Row → List Row
changed_rows p f [] = []
changed_rows p f (r ∷ rs) = if p r then f r ∷ changed_rows p f rs else changed_rows p f rs

unfoldable pub expire_timed_out : Bool → Time → Table → Result StoreError (List Row) × Table
unfolding changed_rows update_rows
expire_timed_out true now t = (err unavailable, t)
expire_timed_out false now t = (
  ok (changed_rows (overdue now) set_timeout t.rows),
  record t { rows = update_rows (overdue now) set_timeout t.rows },
)

abbrev pub is_engine_command : CommandType → Bool
is_engine_command engine_cut = true
is_engine_command engine_resume = true
is_engine_command _ = false
