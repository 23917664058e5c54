-- ===== src/Commands/Store/Lookup.antt =====
-- command.go: what an update by number does to the row of that number and to the others.
use farbo_rastreamento.Prelude.{
  ℕ, Bool, true, false, some, List, [], ◌∷◌, ◌≡◌, ◌≢◌, refl, inl, inr, arith, ◌==◌, Bool-cases,
  ==_refl, ok,
}
use farbo_rastreamento.Commands.Store.{
  Status, Row, Table, first_row, update_rows, mark, get, matched,
}

first_row-matched :
    (id : ℕ) (from : Status → Bool) (rs : List Row) (c : Row)
    → from c.status ≡ true
    → first_row (λ x. x.id == id) rs ≡ some c
    → first_row (matched id from) rs ≡ some c
unfolding first_row
first_row-matched id from [] c e h = ground arith
first_row-matched id from (x ∷ rs) c e h = elim (Bool-cases (x.id == id)) [
  | inl same ↦ ground arith
  | inr other ↦ ground (arith, first_row-matched id from rs c e)
]

first_row-updated :
    (id : ℕ) (from : Status → Bool) (f : Row → Row) (rs : List Row) (c : Row)
    → ((x : Row) → (f x).id ≡ x.id)
    → from c.status ≡ true
    → first_row (λ x. x.id == id) rs ≡ some c
    → first_row (λ x. x.id == id) (update_rows (matched id from) f rs) ≡ some (f c)
unfolding first_row update_rows
first_row-updated id from f [] c same e h = ground arith
first_row-updated id from f (x ∷ rs) c same e h = elim (Bool-cases (x.id == id)) [
  | inl here ↦ ground (arith, same x)
  | inr other ↦ ground (arith, first_row-updated id from f rs c same e)
]

first_row-updated_other :
    (id j : ℕ) (from : Status → Bool) (f : Row → Row) (rs : List Row)
    → ((x : Row) → (f x).id ≡ x.id)
    → j ≢ id
    → first_row (λ x. x.id == j) (update_rows (matched id from) f rs)
      ≡ first_row (λ x. x.id == j) rs
unfolding first_row update_rows
first_row-updated_other id j from f [] same ne = refl
first_row-updated_other id j from f (x ∷ rs) same ne =
    let rest = first_row-updated_other id j from f rs same ne in
    elim (Bool-cases (x.id == id)) [
      | inl here ↦ ground (arith, same x, rest)
      | inr other ↦ ground (arith, rest)
    ]

-- An update finds the row of its number, if the row is in one of its states, and changes it.
pub mark-found :
    (from : Status → Bool) (f : Row → Row) (id : ℕ) (t : Table) (c : Row)
    → ((x : Row) → (f x).id ≡ x.id)
    → from c.status ≡ true
    → get id t ≡ some c
    → ((mark false from f id t).0 ≡ ok (f c)) × (get id (mark false from f id t).1 ≡ some (f c))
unfolding mark get
mark-found from f id t c same e h =
    let found = first_row-matched id from t.rows c e h in
    (rw (found, mark) refl, rw (found, mark) (first_row-updated id from f t.rows c same e h))

-- It leaves the rows of other numbers alone.
pub mark-other :
    (down : Bool) (from : Status → Bool) (f : Row → Row) (id j : ℕ) (t : Table)
    → ((x : Row) → (f x).id ≡ x.id)
    → j ≢ id
    → get j (mark down from f id t).1 ≡ get j t
unfolding mark get
mark-other true from f id j t same ne = refl
mark-other false from f id j t same ne =
    ground (arith, first_row-updated_other id j from f t.rows same ne)

-- The row that was created last.
abbrev pub Newest : Row → Table → Type 0
Newest r t = (older : List Row) × (t.rows ≡ r ∷ older)

pub first_row-Newest :
    (p : Row → Bool) (c : Row) (t : Table) → p c ≡ true → Newest c t → first_row p t.rows ≡ some c
unfolding first_row
first_row-Newest p c t e (older, rows) = ground arith

-- An update by the number of the newest row finds that one, and it stays the newest.
pub mark-Newest :
    (from : Status → Bool) (f : Row → Row) (t : Table) (c : Row)
    → from c.status ≡ true
    → Newest c t
    → ((mark false from f c.id t).0 ≡ ok (f c)) × Newest (f c) (mark false from f c.id t).1
unfolding mark update_rows
mark-Newest from f t c e (older, rows) =
    let own : matched c.id from c ≡ true = ground (arith, ==_refl c.id) in
    let found = first_row-Newest (matched c.id from) c t own (older, rows) in
    (
      rw (found, mark) refl,
      rw (found, mark) (update_rows (matched c.id from) f older, ground (arith, ==_refl c.id)),
    )

pub get-Newest : (c : Row) (t : Table) → Newest c t → get c.id t ≡ some c
unfolding get
get-Newest c t n = first_row-Newest (λ r. r.id == c.id) c t (==_refl c.id) n
