-- ===== src/Commands/Request/Refusals.antt =====
-- service.go: what is stored when a request is refused, and when its confirmation fails.
use farbo_rastreamento.Prelude.{
  ℕ, Bool, true, false, not, none, some, List, [], ◌∷◌, ◌≡◌, refl, inl, inr, arith, Option-cases,
  ==_refl, err,
}
use farbo_rastreamento.Prelude.Words.{Bytes}
use farbo_rastreamento.Protocols.Message.{CommandType}
use farbo_rastreamento.Commands.Store.{
  Status, rejected, terminal, Reason, no_reason, Row, Statement, creating, mark_sent_of, mark_sent,
  unavailable, create, mark, mark_final, first_row, update_rows, matched, get,
}
use farbo_rastreamento.Commands.Service.{
  Request, Env, World, refused, store_failed, at_create, new_row, new_correlation_key,
}
use farbo_rastreamento.Commands.Request.{
  rejected_with, reject, announce_rejection, delivered, sent_with,
}
use farbo_rastreamento.Commands.Request.Safety.{transmissions}
use farbo_rastreamento.Commands.Answers.{sweep_timeouts}
use farbo_rastreamento.Commands.Answers.Sweep.{get-sweep_unlimited}

-- `MarkFinal` does not reach a row that is at its end.
mark_final-ended :
    (down : Bool) (status : Status) (why : Reason) (c : Row) (rs : List Row) (n : ℕ)
    → terminal c.status ≡ true
    → get c.id (mark_final down status why c.id (record { rows = c ∷ rs; next_id = n })).1 ≡ some c
unfolding mark_final mark get first_row update_rows
mark_final-ended true status why c rs n e = rw (==_refl c.id) refl
mark_final-ended false status why c rs n e =
    elim (Option-cases (first_row (matched c.id (λ s. not (terminal s))) (c ∷ rs))) [
      | inl f ↦ ground (arith, ==_refl c.id)
      | inr f ↦ ground (arith, ==_refl c.id)
    ]

module _ {F : Type 0} where
  -- While the database works, a refused request comes back with its reason, and the row that the
  -- table has for it is rejected with an empty `error`: the reason is not stored.
  pub reject-reason_lost :
      (env : Env F) (req : Request) (typ : CommandType) (why : Reason) (w : World)
      → ((s : Statement) → env.is_down s ≡ false)
      → ((reject env req typ why w).0 ≡ err (refused why))
        × ((r : Row) × (get w.table.next_id (reject env req typ why w).1.table ≡ some r)
            × (r.status ≡ rejected)
            × (r.error ≡ no_reason))
  unfolding reject rejected_with announce_rejection create terminal
  reject-reason_lost env req typ why w up =
      let key = new_correlation_key env.random env.unix_nano in
      let stored = record (new_row req typ [] rejected key no_reason) {
        id = w.table.next_id;
        requested_at = env.clock at_create;
      } in
      rw (up creating)
        (refl, (stored, mark_final-ended _ rejected why stored w.table.rows _ refl, refl, refl))

  -- When the update to SENT fails for a command that the socket took, `dispatch` returns the
  -- failure, the packet has been transmitted, and the stored row, if it had no limit for the
  -- answer, is left as it was by any later sweep.
  pub delivered-unconfirmed :
      (env later : Env F) (req : Request) (payload : Bytes) (c : Row) (w : World)
      → env.is_down mark_sent_of ≡ true
      → c.timeout_at ≡ none
      → get c.id w.table ≡ some c
      → let after = delivered env req payload c none w in
        (after.0 ≡ err (store_failed unavailable))
        × (transmissions after.1.trace ≡ (req.device.imei, payload) ∷ transmissions w.trace)
        × (get c.id (sweep_timeouts later after.1).table ≡ some c)
  unfolding delivered mark_sent sent_with mark transmissions
  delivered-unconfirmed env later req payload c w down unlimited row = (
    rw down refl,
    rw down refl,
    rw (down, mark) (get-sweep_unlimited later _ c.id c unlimited row),
  )
