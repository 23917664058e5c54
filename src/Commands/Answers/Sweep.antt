-- ===== src/Commands/Answers/Sweep.antt =====
-- service.go and command.go: what the sweep closes.
use farbo_rastreamento.Prelude.{
  ℕ, Bool, false, none, some, List, [], ◌∷◌, ◌≡◌, refl, ap, ◌∙◌, inl, inr, arith, ◌==◌,
  if◌then◌else◌, Bool-cases,
}
use farbo_rastreamento.Commands.Store.{
  Row, Table, get, first_row, update_rows, overdue, set_timeout, expire_timed_out, expiring,
}
use farbo_rastreamento.Commands.Service.{Env, World, at_sweep, with_table}
use farbo_rastreamento.Commands.Answers.{sweep_timeouts}
use farbo_rastreamento.Commands.History.{table-swept_with}

first_row-swept :
    (p : Row → Bool) (f : Row → Row) (id : ℕ) (rs : List Row) (r : Row)
    → ((x : Row) → (f x).id ≡ x.id)
    → first_row (λ x. x.id == id) rs ≡ some r
    → first_row (λ x. x.id == id) (update_rows p f rs) ≡ some (if p r then f r else r)
unfolding first_row update_rows
first_row-swept p f id [] r same h = ground arith
first_row-swept p f id (x ∷ rs) r same h = elim (Bool-cases (x.id == id)) [
  | inl e ↦ ground (arith, same x)
  | inr e ↦ ground (arith, same x, first_row-swept p f id rs r same)
]

first_row-settled :
    (p : Row → Bool) (f : Row → Row) (rs : List Row)
    → ((x : Row) → p (f x) ≡ false)
    → first_row p (update_rows p f rs) ≡ none
unfolding first_row update_rows
first_row-settled p f [] over = refl
first_row-settled p f (x ∷ rs) over = elim (Bool-cases (p x)) [
  | inl e ↦ rw (e, over x) (first_row-settled p f rs over)
  | inr e ↦ rw (e, e) (first_row-settled p f rs over)
]

module _ {F : Type 0} (env : Env F) where
  table-sweep_timeouts :
      (w : World)
      → (sweep_timeouts env w).table
        ≡ (expire_timed_out (env.is_down expiring) (env.clock at_sweep) w.table).1
  unfolding sweep_timeouts
  table-sweep_timeouts w =
      let expired = expire_timed_out (env.is_down expiring) (env.clock at_sweep) w.table in
      table-swept_with w.table env expired.0 (with_table expired.1 w)

  pub get-sweep_timeouts :
      (w : World) (id : ℕ) (r : Row)
      → env.is_down expiring ≡ false
      → get id w.table ≡ some r
      → get id (sweep_timeouts env w).table
        ≡ some (if overdue (env.clock at_sweep) r then set_timeout r else r)
  unfolding expire_timed_out get
  get-sweep_timeouts w id r up h =
      ap (get id) (table-sweep_timeouts w)
      ∙ rw up (
          first_row-swept (overdue (env.clock at_sweep)) set_timeout id w.table.rows r (λ x. refl)
            h)

  -- After it no command is overdue.
  pub sweep_timeouts-settled :
      (w : World)
      → env.is_down expiring ≡ false
      → first_row (overdue (env.clock at_sweep)) (sweep_timeouts env w).table.rows ≡ none
  unfolding expire_timed_out
  sweep_timeouts-settled w up =
      ap (λ (t : Table). first_row (overdue (env.clock at_sweep)) t.rows) (table-sweep_timeouts w)
      ∙ rw up
          (first_row-settled (overdue (env.clock at_sweep)) set_timeout w.table.rows (λ x. refl))

  pub get-sweep_unlimited :
      (w : World) (id : ℕ) (r : Row)
      → r.timeout_at ≡ none
      → get id w.table ≡ some r
      → get id (sweep_timeouts env w).table ≡ some r
  unfolding expire_timed_out
  get-sweep_unlimited w id r unlimited h = elim (Bool-cases (env.is_down expiring)) [
    | inl down ↦ ap (get id) (table-sweep_timeouts w) ∙ rw down h
    | inr up ↦ get-sweep_timeouts w id r up h ∙ ground arith
  ]
