-- ===== src/Tracking/Pages.antt =====
-- position.go: `Page`, the pages of the raw history, and the export that follows their cursors. The
-- rows of the table stand in the order of their numbers.
pub mod Complete
use farbo_rastreamento.Prelude.{
  ℕ, zero, suc, ◌+◌, Bool, true, false, ◌&&◌, ◌||◌, Option, none, some, List, [], ◌∷◌, ◌++◌, ltb,
  leb, ◌==◌, if◌then◌else◌, length, take,
}
use farbo_rastreamento.Protocols.Calendar.{Time}
use farbo_rastreamento.Protocols.Text.{ℤ, pos, negsuc}
use farbo_rastreamento.Tracking.Positions.{Position}

-- A row of the table: its number, and the position.
abbrev pub Stored : Type 0 → Type 0
Stored F = ℕ × Position F

pub record PageQuery : Type 0 where
  pub device_id : ℕ
  pub from : Time
  pub to : Time
  pub limit : ℤ
  pub after_id : ℕ

pub record Page (F : Type 0) : Type 0 where
  pub positions : List (Stored F)
  pub next_cursor : Option ℕ

unfoldable pub page_limit : ℤ → ℕ
page_limit (pos n) = if n == 0 || ltb 1000 n then 500 else n
page_limit (negsuc n) = 500

module _ {F : Type 0} where
  -- The condition of the query, less the cursor.
  unfoldable pub in_period : ℕ → Time → Time → Position F → Bool
  in_period device from to p =
      p.device_id == device && (leb from p.gps_timestamp && leb p.gps_timestamp to)

  unfoldable pub matching : ℕ → Time → Time → List (Stored F) → List (Stored F)
  unfolding in_period
  matching device from to [] = []
  matching device from to ((id, p) ∷ rows) =
      let rest = matching device from to rows in
      if in_period device from to p then (id, p) ∷ rest else rest

  -- `id > $4`.
  unfoldable pub above : ℕ → List (Stored F) → List (Stored F)
  above after [] = []
  above after ((id, p) ∷ rows) =
      let rest = above after rows in if ltb after id then (id, p) ∷ rest else rest

  unfoldable pub last_id : List (Stored F) → Option ℕ
  last_id [] = none
  last_id ((id, p) ∷ []) = some id
  last_id (r ∷ r' ∷ rows) = last_id (r' ∷ rows)

  -- One row more than the limit is asked for, to see whether there is a next page.
  unfoldable pub page_of : ℕ → List (Stored F) → Page F
  unfolding last_id
  page_of limit found =
      if ltb limit (length found)
      then record { positions = take limit found; next_cursor = last_id (take limit found) }
      else record { positions = found; next_cursor = none }

  unfoldable pub page : PageQuery → List (Stored F) → Page F
  unfolding page_of above matching page_limit
  page q rows =
      page_of (page_limit q.limit)
        (take (page_limit q.limit + 1) (above q.after_id (matching q.device_id q.from q.to rows)))
