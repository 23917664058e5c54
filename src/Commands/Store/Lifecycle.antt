-- ===== src/Commands/Store/Lifecycle.antt =====
-- command.go: how the states of a command follow one another, over every statement on the table.
use farbo_rastreamento.Prelude.{
  ℕ, Bool, true, false, not, some, List, [], ◌∷◌, ◌≡◌, refl, inl, inr, arith, subst, ◌==◌,
  if◌then◌else◌, Bool-cases, Option-cases,
}
use farbo_rastreamento.Prelude.Words.{Bytes}
use farbo_rastreamento.Protocols.Calendar.{Time}
use farbo_rastreamento.Commands.Store.{
  Status, terminal, Reason, Row, Table, create, first_row, update_rows, mark, mark_sending,
  mark_sent, mark_acknowledged, mark_final, expire_timed_out, get, matched, is_pending, is_unsent,
  is_open, set_sending, set_sent, set_acknowledged, set_final, set_timeout, overdue,
}
use farbo_rastreamento.Commands.Store.Follows.{
  Follows, Follows-refl, Follows-trans, set_sending-Follows, set_sent-Follows,
  set_acknowledged-Follows, set_final-Follows, set_timeout-Follows,
}
use farbo_rastreamento.Commands.Store.Numbers.{
  IsNumbered, first_row_below, first_row_holds, mark-IsNumbered, create-IsNumbered,
  expire-IsNumbered,
}

-- A row is still there under its number, and has moved forward at most.
abbrev pub IsKept : ℕ → Row → Table → Type 0
IsKept id r t = (r' : Row) × (get id t ≡ some r') × Follows r r'

update_row-Follows :
    (p : Row → Bool) (f : Row → Row)
    → ((r : Row) → p r ≡ true → Follows r (f r))
    → (r : Row) → Follows r (if p r then f r else r)
update_row-Follows p f step r = elim (Bool-cases (p r)) [
  | inl h ↦ rw h (step r h)
  | inr h ↦ rw h (Follows-refl r)
]

first_row-update_rows :
    (p : Row → Bool) (f : Row → Row) (id : ℕ) (rs : List Row) (r : Row)
    → ((r : Row) → p r ≡ true → Follows r (f r))
    → first_row (λ x. x.id == id) rs ≡ some r
    → (r' : Row) × (first_row (λ x. x.id == id) (update_rows p f rs) ≡ some r') × Follows r r'
unfolding first_row update_rows
first_row-update_rows p f id [] r step h = ground arith
first_row-update_rows p f id (x ∷ rs) r step h = elim (Bool-cases (x.id == id)) [
  | inl same ↦
      let follows = update_row-Follows p f step x in
      (
        (if p x then f x else x),
        ground (arith, follows.same_id),
        (let e : x ≡ r = ground arith in subst (λ z. Follows z (if p x then f x else x)) e follows),
      )
  | inr other ↦
      let found = first_row-update_rows p f id rs r step (ground arith) in
      (found.0, ground (arith, (update_row-Follows p f step x).same_id, found.1), found.2)
]

update-IsKept :
    (p : Row → Bool) (f : Row → Row) (id : ℕ) (t : Table) (r : Row)
    → ((r : Row) → p r ≡ true → Follows r (f r))
    → get id t ≡ some r
    → IsKept id r (record t { rows = update_rows p f t.rows })
unfolding get
update-IsKept p f id t r step h = first_row-update_rows p f id t.rows r step h

mark-IsKept :
    (down : Bool) (from : Status → Bool) (f : Row → Row) (key id : ℕ) (t : Table) (r : Row)
    → ((r : Row) → from r.status ≡ true → Follows r (f r))
    → get id t ≡ some r
    → IsKept id r (mark down from f key t).1
unfolding mark
mark-IsKept true from f key id t r step h = (r, h, Follows-refl r)
mark-IsKept false from f key id t r step h =
    elim (Option-cases (first_row (matched key from) t.rows)) [
      | inl e ↦ rw (e, mark) (r, h, Follows-refl r)
      | inr e ↦
          rw (e.1, mark)
            (update-IsKept (matched key from) f id t r (λ x g. step x (ground arith)) h)
    ]

-- What may happen to the table: every statement that changes it, whatever it is called with.
pub data Step (t : Table) : Table → Type 0 where
  creates : (down : Bool) (now : Time) (c : Row) → Step t (create down now c t).1
  sends : (down : Bool) (id : ℕ) → Step t (mark_sending down id t).1
  sends_out : (down : Bool) (now limit : Time) (id : ℕ) → Step t (mark_sent down now limit id t).1
  acknowledges :
      (down : Bool) (now : Time) (response : Bytes) (id : ℕ)
      → Step t (mark_acknowledged down now response id t).1
  ends :
      (down : Bool) (status : Status) (reason : Reason) (id : ℕ)
      → terminal status ≡ true
      → Step t (mark_final down status reason id t).1
  expires : (down : Bool) (now : Time) → Step t (expire_timed_out down now t).1

pub data Reach (s : Table) : Table → Type 0 where
  here : Reach s s
  next : {t u : Table} → Reach s t → Step t u → Reach s u

create-IsKept :
    (down : Bool) (now : Time) (c : Row) (id : ℕ) (t : Table) (r : Row)
    → IsNumbered t
    → get id t ≡ some r
    → IsKept id r (create down now c t).1
unfolding create get
create-IsKept true now c id t r numbered h = (r, h, Follows-refl r)
create-IsKept false now c id t r numbered h =
    let below = first_row_below (λ x. x.id == id) t.next_id t.rows r numbered h in
    let named = first_row_holds (λ x. x.id == id) t.rows r h in
    (r, ground (arith, below, named), Follows-refl r)

expire-IsKept :
    (down : Bool) (now : Time) (id : ℕ) (t : Table) (r : Row)
    → get id t ≡ some r
    → IsKept id r (expire_timed_out down now t).1
unfolding expire_timed_out
expire-IsKept true now id t r h = (r, h, Follows-refl r)
expire-IsKept false now id t r h =
    update-IsKept (overdue now) set_timeout id t r (set_timeout-Follows now) h

-- One statement moves a row forward at most.
Step-IsKept :
    {t u : Table} (id : ℕ) (r : Row) → IsNumbered t → get id t ≡ some r → Step t u → IsKept id r u
unfolding mark_sending mark_sent mark_acknowledged mark_final
Step-IsKept {t} id r n h (creates down now c) = create-IsKept down now c id t r n h
Step-IsKept {t} id r n h (sends down key) =
    mark-IsKept down is_pending set_sending key id t r set_sending-Follows h
Step-IsKept {t} id r n h (sends_out down now limit key) =
    mark-IsKept down is_unsent (set_sent now limit) key id t r (set_sent-Follows now limit) h
Step-IsKept {t} id r n h (acknowledges down now response key) =
    mark-IsKept down is_open (set_acknowledged now response) key id t r
      (set_acknowledged-Follows now response) h
Step-IsKept {t} id r n h (ends down status why key final) =
    mark-IsKept down (λ s. not (terminal s)) (set_final status why) key id t r
      (λ x e. set_final-Follows status why x final (ground arith)) h
Step-IsKept {t} id r n h (expires down now) = expire-IsKept down now id t r h

Step-IsNumbered : {t u : Table} → IsNumbered t → Step t u → IsNumbered u
unfolding mark_sending mark_sent mark_acknowledged mark_final
Step-IsNumbered {t} n (creates down now c) = create-IsNumbered down now c t n
Step-IsNumbered {t} n (sends down key) = mark-IsNumbered down _ _ key t (λ x. refl) n
Step-IsNumbered {t} n (sends_out down now limit key) = mark-IsNumbered down _ _ key t (λ x. refl) n
Step-IsNumbered {t} n (acknowledges down now response key) =
    mark-IsNumbered down _ _ key t (λ x. refl) n
Step-IsNumbered {t} n (ends down status why key final) =
    mark-IsNumbered down _ _ key t (λ x. refl) n
Step-IsNumbered {t} n (expires down now) = expire-IsNumbered down now t n

pub Reach-IsNumbered : {t u : Table} → IsNumbered t → Reach t u → IsNumbered u
Reach-IsNumbered n here = n
Reach-IsNumbered n (next p st) = Step-IsNumbered (Reach-IsNumbered n p) st

-- Over any history of a table that uses no number twice, with statements that fail among them, a
-- command keeps its number, device, kind, payload and key, its state moves forward only, and once
-- it is acknowledged, failed, timed out or rejected its whole row stays as it is.
pub Reach-IsKept :
    {t u : Table} (id : ℕ) (r : Row) → IsNumbered t → get id t ≡ some r → Reach t u → IsKept id r u
Reach-IsKept id r n h here = (r, h, Follows-refl r)
Reach-IsKept id r n h (next p st) =
    let before = Reach-IsKept id r n h p in
    let after = Step-IsKept id before.0 (Reach-IsNumbered n p) before.1 st in
    (after.0, after.1, Follows-trans before.2 after.2)
