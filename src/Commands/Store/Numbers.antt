-- ===== src/Commands/Store/Numbers.antt =====
-- command.go: the numbers of the rows, and what is found under them.
use farbo_rastreamento.Prelude.{
  ℕ, ◌<◌, Bool, true, false, some, List, [], ◌∷◌, ◌≡◌, refl, ap, ◌∙◌, inl, inr, arith, ◌==◌,
  Bool-cases, Option-cases, ==_refl,
}
use farbo_rastreamento.Protocols.Calendar.{Time}
use farbo_rastreamento.Commands.Store.{
  Status, Row, Table, create, first_row, last_row, or_else, update_rows, mark, expire_timed_out,
  matched, set_timeout, overdue,
}

-- The numbers of the rows descend from below the next one: none is used twice.
unfoldable pub Descends : ℕ → List Row → Type 0
Descends n [] = Unit {0}
Descends n (r ∷ rs) = (r.id < n) × Descends r.id rs

abbrev pub IsNumbered : Table → Type 0
IsNumbered t = Descends t.next_id t.rows

-- A row that a test finds is below the bound, and is the one that its number finds.
pub first_row_below :
    (p : Row → Bool) (n : ℕ) (rs : List Row) (r : Row)
    → Descends n rs
    → first_row p rs ≡ some r
    → r.id < n
unfolding Descends first_row
first_row_below p n [] r d h = ground arith
first_row_below p n (x ∷ rs) r d h = elim (Bool-cases (p x)) [
  | inl e ↦ ground (arith, d.0)
  | inr e ↦ let below = first_row_below p x.id rs r d.1 (ground arith) in ground (arith, d.0, below)
]

pub first_row-by_id :
    (p : Row → Bool) (n : ℕ) (rs : List Row) (r : Row)
    → Descends n rs
    → first_row p rs ≡ some r
    → first_row (λ x. x.id == r.id) rs ≡ some r
unfolding Descends first_row
first_row-by_id p n [] r d h = ground arith
first_row-by_id p n (x ∷ rs) r d h = elim (Bool-cases (p x)) [
  | inl e ↦ ground (arith, ==_refl r.id)
  | inr e ↦
      let rest : first_row p rs ≡ some r = ground arith in
      let below = first_row_below p x.id rs r d.1 rest in
      ground (arith, first_row-by_id p x.id rs r d.1 rest, below)
]

pub first_row_holds :
    (p : Row → Bool) (rs : List Row) (r : Row) → first_row p rs ≡ some r → p r ≡ true
unfolding first_row
first_row_holds p [] r h = ground arith
first_row_holds p (x ∷ rs) r h = elim (Bool-cases (p x)) [
  | inl e ↦ ground arith
  | inr e ↦ first_row_holds p rs r (ground arith)
]

-- The oldest row that a test takes passes it, and is the one that its number finds.
pub last_row-by_id :
    (p : Row → Bool) (n : ℕ) (rs : List Row) (r : Row)
    → Descends n rs
    → last_row p rs ≡ some r
    → (p r ≡ true) × (r.id < n) × (first_row (λ x. x.id == r.id) rs ≡ some r)
unfolding Descends first_row last_row or_else
last_row-by_id p n [] r d h = ground arith
last_row-by_id p n (x ∷ rs) r d h = elim (Option-cases (last_row p rs)) [
  | inl e ↦ ground (arith, ==_refl r.id, d.0)
  | inr e ↦
      let same : e.0 ≡ r = ground arith in
      let rest = last_row-by_id p x.id rs r d.1 (e.1 ∙ ap some same) in ground (arith, rest, d.0)
]

-- Numbers are never used twice.
update_rows-Descends :
    (p : Row → Bool) (f : Row → Row) (n : ℕ) (rs : List Row)
    → ((x : Row) → (f x).id ≡ x.id)
    → Descends n rs
    → Descends n (update_rows p f rs)
unfolding Descends update_rows
update_rows-Descends p f n [] same d = tt
update_rows-Descends p f n (x ∷ rs) same d =
    let rest = update_rows-Descends p f x.id rs same d.1 in
    elim (Bool-cases (p x)) [ inl e ↦ rw (e, same x) (d.0, rest) | inr e ↦ rw e (d.0, rest) ]

update-IsNumbered :
    (p : Row → Bool) (f : Row → Row) (t : Table)
    → ((x : Row) → (f x).id ≡ x.id)
    → IsNumbered t
    → IsNumbered (record t { rows = update_rows p f t.rows })
update-IsNumbered p f t same n = update_rows-Descends p f t.next_id t.rows same n

pub mark-IsNumbered :
    (down : Bool) (from : Status → Bool) (f : Row → Row) (key : ℕ) (t : Table)
    → ((x : Row) → (f x).id ≡ x.id)
    → IsNumbered t
    → IsNumbered (mark down from f key t).1
unfolding mark
mark-IsNumbered true from f key t same n = n
mark-IsNumbered false from f key t same n =
    elim (Option-cases (first_row (matched key from) t.rows)) [
      | inl e ↦ rw (e, mark) n
      | inr e ↦ rw (e.1, mark) (update-IsNumbered (matched key from) f t same n)
    ]

pub create-IsNumbered :
    (down : Bool) (now : Time) (c : Row) (t : Table)
    → IsNumbered t
    → IsNumbered (create down now c t).1
unfolding create Descends
create-IsNumbered true now c t n = n
create-IsNumbered false now c t n = (omega arith, n)

pub expire-IsNumbered :
    (down : Bool) (now : Time) (t : Table)
    → IsNumbered t
    → IsNumbered (expire_timed_out down now t).1
unfolding expire_timed_out
expire-IsNumbered true now t n = n
expire-IsNumbered false now t n = update-IsNumbered (overdue now) set_timeout t (λ x. refl) n
