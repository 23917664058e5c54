-- ===== src/Commands/Answers/Matching.antt =====
-- service.go: which command the answer of a tracker closes.
use farbo_rastreamento.Prelude.{
  ℕ, Bool, true, false, not, ◌&&◌, Option, none, some, List, [], ◌∷◌, ◌≡◌, ◌≢◌, refl, sym, ap, ◌∙◌,
  subst, inl, inr, arith, ◌==◌, if◌then◌else◌, Bool-cases, Option-cases, Result, ok, err,
}
use farbo_rastreamento.Prelude.Words.{Bytes}
use farbo_rastreamento.Protocols.Calendar.{Time}
use farbo_rastreamento.Commands.Store.{
  failed, terminal, said, Row, Table, StoreError, not_found, get, first_row, last_row, or_else,
  is_open, is_in_flight, find_open_by_correlation, find_oldest_open, mark_acknowledged, mark_final,
  set_acknowledged, set_final, Statement, mark_acknowledged_of, mark_final_of,
  finding_by_correlation, finding_oldest,
}
use farbo_rastreamento.Commands.Store.Numbers.{
  IsNumbered, first_row-by_id, first_row_holds, last_row-by_id,
}
use farbo_rastreamento.Commands.Store.Lookup.{mark-found, mark-other}
use farbo_rastreamento.Commands.Service.{Env, World, at_answer, with_table}
use farbo_rastreamento.Commands.Answers.{
  find_answered, mark_answered, answered_with, handle_ack, by_order,
}
use farbo_rastreamento.Commands.History.{table-announce_answer}

last_row-missed :
    (p q : Row → Bool) (rs : List Row) (r : Row)
    → first_row p rs ≡ none
    → last_row q rs ≡ some r
    → p r ≡ false
unfolding first_row last_row or_else
last_row-missed p q [] r missed h = ground arith
last_row-missed p q (x ∷ rs) r missed h = elim (Bool-cases (p x)) [
  | inl e ↦ ground arith
  | inr e ↦ elim (Option-cases (last_row q rs)) [
    | inl f ↦ ground arith
    | inr f ↦ ground (arith, last_row-missed p q rs r)
  ]
]

-- The row that an answer closes, and how.
unfoldable pub closed : Time → Bool → Bytes → Row → Row
closed now true response r = set_acknowledged now response r
closed now false response r = set_final failed (said response) r

module _ {F : Type 0} (env : Env F) where
  mark_answered-found :
      (success : Bool) (response : Bytes) (id : ℕ) (t : Table) (c : Row)
      → ((s : _) → env.is_down s ≡ false)
      → is_open c.status ≡ true
      → get id t ≡ some c
      → get id (mark_answered env success response id t).1
        ≡ some (closed (env.clock at_answer) success response c)
  unfolding mark_answered mark_acknowledged mark_final closed terminal
  mark_answered-found true response id t c up e h =
      rw (up mark_acknowledged_of)
        (mark-found is_open (set_acknowledged _ response) id t c (λ x. refl) e h).1
  mark_answered-found false response id t c up e h =
      rw (up mark_final_of)
        (mark-found (λ s. not (terminal s)) (set_final failed (said response)) id t c (λ x. refl)
          (ground arith) h).1

  mark_answered-other :
      (success : Bool) (response : Bytes) (id j : ℕ) (t : Table)
      → j ≢ id
      → get j (mark_answered env success response id t).1 ≡ get j t
  unfolding mark_answered mark_acknowledged mark_final
  mark_answered-other true response id j t ne = mark-other _ _ _ id j t (λ x. refl) ne
  mark_answered-other false response id j t ne = mark-other _ _ _ id j t (λ x. refl) ne

  oldest_open :
      (down : Bool) (device : ℕ) (t : Table) (c : Row)
      → IsNumbered t
      → find_oldest_open down device t ≡ ok c
      → (get c.id t ≡ some c) × (c.device ≡ device) × (is_open c.status ≡ true)
  unfolding find_oldest_open get
  oldest_open true device t c n h = ground arith
  oldest_open false device t c n h =
      let test = λ (r : Row). r.device == device && is_in_flight r.status in
      let row : last_row test t.rows ≡ some c = ground arith in
      let found = last_row-by_id test t.next_id t.rows c n row in
      (found.2, ground arith, ground arith)

  open_by_correlation :
      (down : Bool) (device key : ℕ) (t : Table) (c : Row)
      → IsNumbered t
      → find_open_by_correlation down device key t ≡ ok c
      → (get c.id t ≡ some c) × (c.device ≡ device) × (is_open c.status ≡ true)
  unfolding find_open_by_correlation get
  open_by_correlation true device key t c n h = ground arith
  open_by_correlation false device key t c n h =
      let test = λ (r : Row). r.device == device && r.correlation_key == key && is_open r.status in
      let row : first_row test t.rows ≡ some c = ground arith in
      let holds = first_row_holds test t.rows c row in
      (first_row-by_id test t.next_id t.rows c n row, ground arith, ground arith)

  -- The command that an answer is taken for is an open one of the device.
  answered_row :
      (device key : ℕ) (t : Table) (c : Row)
      → IsNumbered t
      → find_answered env device key t ≡ ok c
      → (get c.id t ≡ some c) × (c.device ≡ device) × (is_open c.status ≡ true)
  unfolding find_answered
  answered_row device key t c n h = ground (
    arith,
    oldest_open (env.is_down finding_oldest) device t c n,
    open_by_correlation (env.is_down finding_by_correlation) device key t c n,
  )

  answered_with-closes :
      (device : ℕ) (vehicle : Option ℕ) (exact : Bool) (response : Bytes) (success : Bool)
      (o : Result StoreError Row) (w : World) (c : Row)
      → ((s : Statement) → env.is_down s ≡ false)
      → o ≡ ok c
      → is_open c.status ≡ true
      → get c.id w.table ≡ some c
      → get c.id (answered_with env device vehicle exact response success o w).table
        ≡ some
            (closed (env.clock at_answer) success (if exact then response else by_order response) c)
  unfolding answered_with
  answered_with-closes device vehicle exact response success (err e) w c up h going row =
      ground arith
  answered_with-closes device vehicle exact response success (ok b) w c up h going row =
      let same : b ≡ c = ground arith in
      let text = if exact then response else by_order response in
      let marked = mark_answered env success text b.id w.table in
      ap (get c.id) (
        table-announce_answer w.table env device vehicle exact text success marked.0
          (with_table marked.1 w))
      ∙ subst
          (λ x.
            get c.id (mark_answered env success text x.id w.table).1
            ≡ some (closed (env.clock at_answer) success text c))
          (sym same) (mark_answered-found success text c.id w.table c up going row)

  answered_with-other :
      (device : ℕ) (vehicle : Option ℕ) (exact : Bool) (response : Bytes) (success : Bool)
      (o : Result StoreError Row) (w : World) (id : ℕ)
      → ((c : Row) → o ≡ ok c → id ≢ c.id)
      → get id (answered_with env device vehicle exact response success o w).table ≡ get id w.table
  unfolding answered_with
  answered_with-other device vehicle exact response success (err e) w id apart = refl
  answered_with-other device vehicle exact response success (ok c) w id apart =
      let text = if exact then response else by_order response in
      let marked = mark_answered env success text c.id w.table in
      ap (get id) (
        table-announce_answer w.table env device vehicle exact text success marked.0
          (with_table marked.1 w))
      ∙ mark_answered-other success text c.id id w.table (apart c refl)

  pub handle_ack-closes :
      (device : ℕ) (vehicle : Option ℕ) (key : ℕ) (response : Bytes) (success : Bool) (w : World)
      (c : Row)
      → ((s : Statement) → env.is_down s ≡ false)
      → IsNumbered w.table
      → find_answered env device key w.table ≡ ok c
      → get c.id (handle_ack env device vehicle key response success w).table
        ≡ some (
            closed
              (env.clock at_answer)
              success
              (if key == 0 then by_order response else response)
              c)
  unfolding handle_ack
  handle_ack-closes device vehicle key response success w c up n h =
      let row = answered_row device key w.table c n h in
      answered_with-closes device vehicle (not (key == 0)) response success
        (find_answered env device key w.table) w c up h row.2 row.0
      ∙ ground arith

  -- In a table that uses no number twice, an answer of one tracker changes no command of another:
  -- not when it is matched by its key, not when it is matched by order, and not when the database
  -- fails.
  pub handle_ack-other_device :
      (device : ℕ) (vehicle : Option ℕ) (key : ℕ) (response : Bytes) (success : Bool) (w : World)
      (id : ℕ) (r : Row)
      → IsNumbered w.table
      → get id w.table ≡ some r
      → r.device ≢ device
      → get id (handle_ack env device vehicle key response success w).table ≡ some r
  unfolding handle_ack
  handle_ack-other_device device vehicle key response success w id r n h ne =
      answered_with-other device vehicle (not (key == 0)) response success
        (find_answered env device key w.table) w id
        (λ c e same. ground (arith, answered_row device key w.table c n e))
      ∙ h

  find_answered-stray :
      (device key : ℕ) (t : Table) (c : Row)
      → ((s : Statement) → env.is_down s ≡ false)
      → key ≢ 0
      → find_open_by_correlation false device key t ≡ err not_found
      → find_oldest_open false device t ≡ ok c
      → find_answered env device key t ≡ ok c
  unfolding find_answered
  find_answered-stray device key t c up keyed missed oldest =
      ground (arith, up finding_by_correlation, up finding_oldest)

  stray_key :
      (device key : ℕ) (t : Table) (c : Row)
      → IsNumbered t
      → find_open_by_correlation false device key t ≡ err not_found
      → find_oldest_open false device t ≡ ok c
      → c.correlation_key ≢ key
  unfolding find_open_by_correlation find_oldest_open
  stray_key device key t c n missed oldest same =
      let test = λ (r : Row). r.device == device && is_in_flight r.status in
      let keyed = λ (r : Row). r.device == device && r.correlation_key == key && is_open r.status in
      let row : last_row test t.rows ≡ some c = ground arith in
      let holds = (last_row-by_id test t.next_id t.rows c n row).0 in
      let none_keyed : first_row keyed t.rows ≡ none = ground arith in
      let fails = last_row-missed keyed test t.rows c none_keyed row in ground arith

  -- In a table that uses no number twice, an answer whose key is not zero and is that of no open
  -- command of the device closes, when the database answers,
  -- the oldest command in flight of the device, whatever that one's key is, with the answer's text
  -- as it came: the mark of a match by order is not put on it.
  pub handle_ack-stray_key :
      (device : ℕ) (vehicle : Option ℕ) (key : ℕ) (response : Bytes) (success : Bool) (w : World)
      (c : Row)
      → ((s : Statement) → env.is_down s ≡ false)
      → IsNumbered w.table
      → key ≢ 0
      → find_open_by_correlation false device key w.table ≡ err not_found
      → find_oldest_open false device w.table ≡ ok c
      → (get c.id (handle_ack env device vehicle key response success w).table
          ≡ some (closed (env.clock at_answer) success response c))
        × (c.correlation_key ≢ key)
  handle_ack-stray_key device vehicle key response success w c up n keyed missed oldest = (
    handle_ack-closes device vehicle key response success w c up n
          (find_answered-stray device key w.table c up keyed missed oldest)
        ∙ ground arith,
    stray_key device key w.table c n missed oldest,
  )
