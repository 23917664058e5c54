-- ===== src/Devices/Rows.antt =====
-- The rows under the changes that keep their numbers and do not go back in time.
use mathlib.Core.Option.{some_inj}
use farbo_rastreamento.Prelude.{
  ℕ, ◌≤◌, true, false, Option, none, some, List, [], ◌∷◌, map, ◌≡◌, refl, ap, ◌∙◌, sym, inl, inr,
  arith, Bool-cases, ◌==◌, ==_iff,
}
use farbo_rastreamento.Prelude.Words.{Bytes}
use farbo_rastreamento.Prelude.Maps.{text_eq}
use farbo_rastreamento.Protocols.Calendar.{Time}
use farbo_rastreamento.Protocols.Text.{trim_space}
use farbo_rastreamento.Devices.{
  DeviceRow, get_by_id, get_by_imei, at_id, update_row, latest, touched, touch, swept,
}

-- A row of an id, and one that has been seen at a time or later.
abbrev pub Known : ℕ → List DeviceRow → Type 0
Known id ds = (row : DeviceRow) × (get_by_id id ds ≡ some row)

abbrev pub SeenSince : Time → ℕ → List DeviceRow → Type 0
SeenSince t id ds =
    (row : DeviceRow) × (seen : Time) × (get_by_id id ds ≡ some row)
    × (row.last_seen_at ≡ some seen)
    × (t ≤ seen)

-- A change of rows that keeps the numbers and does not go back in time.
abbrev pub IsForward : (DeviceRow → DeviceRow) → Type 0
IsForward g =
    (d : DeviceRow)
    → ((g d).id ≡ d.id)
      × ((seen : Time)
          → d.last_seen_at ≡ some seen
          → (later : Time) × ((g d).last_seen_at ≡ some later) × (seen ≤ later))

get_by_id-here :
    (id : ℕ) (d : DeviceRow) (ds : List DeviceRow)
    → (d.id == id) ≡ true
    → get_by_id id (d ∷ ds) ≡ some d
unfolding get_by_id
get_by_id-here id d ds h = rw h

get_by_id-there :
    (id : ℕ) (d : DeviceRow) (ds : List DeviceRow)
    → (d.id == id) ≡ false
    → get_by_id id (d ∷ ds) ≡ get_by_id id ds
unfolding get_by_id
get_by_id-there id d ds h = rw h

get_by_id-map :
    (g : DeviceRow → DeviceRow) (id : ℕ) (ds : List DeviceRow) (row : DeviceRow)
    → IsForward g
    → get_by_id id ds ≡ some row
    → get_by_id id (map g ds) ≡ some (g row)
unfolding get_by_id
get_by_id-map g id [] row f h = ground arith
get_by_id-map g id (d ∷ ds) row f h =
    let same : ((g d).id == id) ≡ (d.id == id) = ap (λ k. k == id) (f d).0 in
    elim (Bool-cases (d.id == id)) [
      | inl here ↦
          get_by_id-here id (g d) (map g ds) (same ∙ here)
          ∙ ap (λ r. some (g r)) (some_inj.0 (sym (get_by_id-here id d ds here) ∙ h))
      | inr not_here ↦
          get_by_id-there id (g d) (map g ds) (same ∙ not_here)
          ∙ get_by_id-map g id ds row f (sym (get_by_id-there id d ds not_here) ∙ h)
    ]

pub Known-map :
    (g : DeviceRow → DeviceRow) (id : ℕ) (ds : List DeviceRow)
    → IsForward g
    → Known id ds
    → Known id (map g ds)
Known-map g id ds f (row, h) = (g row, get_by_id-map g id ds row f h)

pub SeenSince-map :
    (g : DeviceRow → DeviceRow) (t : Time) (id : ℕ) (ds : List DeviceRow)
    → IsForward g
    → SeenSince t id ds
    → SeenSince t id (map g ds)
SeenSince-map g t id ds f (row, seen, h, e, le) =
    let (later, e', le') = (f row).1 seen e in
    (g row, later, get_by_id-map g id ds row f h, e', omega arith)

latest-le : (now seen : Time) → seen ≤ latest now (some seen)
unfolding latest
latest-le now seen = ground arith

latest-le_now : (now : Time) (old : Option Time) → now ≤ latest now old
unfolding latest
latest-le_now now none = omega arith
latest-le_now now (some seen) = ground arith

at_id-IsForward : (id : ℕ) (g : DeviceRow → DeviceRow) → IsForward g → IsForward (at_id id g)
at_id-IsForward id g f d = elim (Bool-cases (d.id == id)) [
  | inl here ↦ rw here (f d)
  | inr not_here ↦ rw not_here (refl, λ seen e. (seen, e, omega arith))
]

touched-IsForward : (now : Time) → IsForward (touched now)
unfolding touched
touched-IsForward now d =
    (refl, λ seen e. (latest now d.last_seen_at, refl, rw e (latest-le now seen)))

pub touch-IsForward : (id : ℕ) (now : Time) → IsForward (at_id id (touched now))
touch-IsForward id now = at_id-IsForward id (touched now) (touched-IsForward now)

pub set_protocol-IsForward :
    (id : ℕ) (protocol : Bytes) → IsForward (at_id id (λ d. record d { protocol = protocol }))
set_protocol-IsForward id protocol =
    at_id-IsForward id (λ d. record d { protocol = protocol })
      (λ d. (refl, λ seen e. (seen, e, omega arith)))

pub swept-IsForward : (now a b : Time) → IsForward (swept now a b)
unfolding swept
swept-IsForward now a b d = (refl, λ seen e. (seen, e, omega arith))

get_by_id-id :
    (id : ℕ) (ds : List DeviceRow) (row : DeviceRow) → get_by_id id ds ≡ some row → row.id ≡ id
unfolding get_by_id
get_by_id-id id [] row h = ground arith
get_by_id-id id (d ∷ ds) row h = elim (Bool-cases (d.id == id)) [
  | inl here ↦
      let same = some_inj.0 (sym (get_by_id-here id d ds here) ∙ h) in
      ap (λ r. r.id) (sym same) ∙ (==_iff d.id id).0 here
  | inr not_here ↦ get_by_id-id id ds row (sym (get_by_id-there id d ds not_here) ∙ h)
]

at_id-same : (id : ℕ) (g : DeviceRow → DeviceRow) (d : DeviceRow) → d.id ≡ id → at_id id g d ≡ g d
at_id-same id g d h = rw ((==_iff d.id id).1 h)

-- After a write the row has been seen now.
pub touch-SeenSince :
    (id : ℕ) (now : Time) (ds : List DeviceRow) → Known id ds → SeenSince now id (touch id now ds)
unfolding touch update_row touched
touch-SeenSince id now ds (row, h) =
    let same : at_id id (touched now) row ≡ touched now row =
      at_id-same id (touched now) row (get_by_id-id id ds row h) in
    (
      touched now row,
      latest now row.last_seen_at,
      get_by_id-map (at_id id (touched now)) id ds row (touch-IsForward id now) h ∙ ap some same,
      refl,
      latest-le_now now row.last_seen_at,
    )

get_by_id-head : (id : ℕ) (d : DeviceRow) (ds : List DeviceRow) → Known id ds → Known id (d ∷ ds)
unfolding get_by_id
get_by_id-head id d ds (row, h) = elim (Bool-cases (d.id == id)) [
  | inl here ↦ (d, get_by_id-here id d ds here)
  | inr not_here ↦ (row, get_by_id-there id d ds not_here ∙ h)
]

get_by_imei-here :
    (imei : Bytes) (d : DeviceRow) (ds : List DeviceRow)
    → text_eq d.imei (trim_space imei) ≡ true
    → get_by_imei imei (d ∷ ds) ≡ some d
unfolding get_by_imei
get_by_imei-here imei d ds h = rw h

get_by_imei-there :
    (imei : Bytes) (d : DeviceRow) (ds : List DeviceRow)
    → text_eq d.imei (trim_space imei) ≡ false
    → get_by_imei imei (d ∷ ds) ≡ get_by_imei imei ds
unfolding get_by_imei
get_by_imei-there imei d ds h = rw h

pub get_by_imei-Known :
    (imei : Bytes) (ds : List DeviceRow) (row : DeviceRow)
    → get_by_imei imei ds ≡ some row
    → Known row.id ds
unfolding get_by_imei get_by_id
get_by_imei-Known imei [] row h = ground arith
get_by_imei-Known imei (d ∷ ds) row h = elim (Bool-cases (text_eq d.imei (trim_space imei))) [
  | inl here ↦
      let same = some_inj.0 (sym (get_by_imei-here imei d ds here) ∙ h) in
      (d, get_by_id-here row.id d ds ((==_iff d.id row.id).1 (ap (λ r. r.id) same)))
  | inr not_here ↦
      get_by_id-head row.id d ds
        (get_by_imei-Known imei ds row (sym (get_by_imei-there imei d ds not_here) ∙ h))
]
