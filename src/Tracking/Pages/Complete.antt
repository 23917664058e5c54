-- ===== src/Tracking/Pages/Complete.antt =====
-- position.go: whoever follows the cursors of the pages gets the whole period.
use mathlib.Core.Option
use native.Mathlib.Numerals.{add-one}
use farbo_rastreamento.Prelude.{
  ℕ, zero, suc, ◌+◌, ◌-◌, ◌≤◌, ◌<◌, ◌≡◌, refl, sym, ap, ◌∙◌, Option, none, some, List, [], ◌∷◌,
  ◌++◌, arith, ltb, length, length-take, length-drop, take, drop, take-append-drop, take_all,
  le→ltb, ltb→lt, Bool-cases, inl, inr,
}
use farbo_rastreamento.Protocols.Text.{ℤ, pos, negsuc}
use farbo_rastreamento.Tracking.Pages.{
  Stored, PageQuery, Page, page_limit, matching, in_period, above, last_id, page_of, page,
}

page_limit_pos : (limit : ℤ) → 0 < page_limit limit
unfolding page_limit
page_limit_pos (pos n) = ground arith
page_limit_pos (negsuc n) = omega arith

module _ {F : Type 0} where
  -- The numbers grow from row to row, as the sequence of the table gives them.
  abbrev pub IsAscending : ℕ → List (Stored F) → Type 0
  IsAscending below [] = Unit
  IsAscending below ((id, p) ∷ rows) = (below < id) × IsAscending id rows

  -- What a client does with a page: it goes on behind the cursor, if there is one.
  pub follow : Page F → (ℕ → Option (List (Stored F))) → Option (List (Stored F))
  follow got next = elim got.next_cursor [
    | none ↦ some got.positions
    | some cursor ↦ Option.map (λ rest. got.positions ++ rest) (next cursor)
  ]

  -- The client asks for pages until there is no cursor; `none` is that the rounds did not suffice.
  pub export_from : ℕ → PageQuery → List (Stored F) → Option (List (Stored F))
  unfolding follow
  export_from zero q rows = none
  export_from (suc rounds) q rows =
      follow (page q rows) (λ cursor. export_from rounds (record q { after_id = cursor }) rows)

  IsAscending-lower :
      (a b : ℕ) (rows : List (Stored F)) → a ≤ b → IsAscending b rows → IsAscending a rows
  IsAscending-lower a b [] h s = tt
  IsAscending-lower a b ((id, p) ∷ rows) h s = (omega arith, s.1)

  matching-IsAscending :
      (device from to a : ℕ) (rows : List (Stored F))
      → IsAscending a rows
      → IsAscending a (matching device from to rows)
  unfolding matching
  matching-IsAscending device from to a [] s = tt
  matching-IsAscending device from to a ((id, p) ∷ rows) s =
      let rest = matching-IsAscending device from to id rows s.1 in
      elim (Bool-cases (in_period device from to p)) [
        | inl within ↦ rw within (s.0, rest)
        | inr without ↦ rw without (IsAscending-lower a id _ (omega arith) rest)
      ]

  -- All that is above the lower bound of an ascending list is the list.
  above_all : (a b : ℕ) (rows : List (Stored F)) → a ≤ b → IsAscending b rows → above a rows ≡ rows
  unfolding above
  above_all a b [] h s = refl
  above_all a b ((id, p) ∷ rows) h s = ground (arith, above_all a id rows)

  above-IsAscending :
      (c a : ℕ) (rows : List (Stored F)) → IsAscending a rows → IsAscending a (above c rows)
  unfolding above
  above-IsAscending c a [] s = tt
  above-IsAscending c a ((id, p) ∷ rows) s = elim (Bool-cases (ltb c id)) [
    | inl more ↦ rw more (s.0, above-IsAscending c id rows s.1)
    | inr less ↦ rw less (IsAscending-lower a id _ (omega arith) (above-IsAscending c id rows s.1))
  ]

  above-above :
      (c c' : ℕ) (rows : List (Stored F)) → c ≤ c' → above c' (above c rows) ≡ above c' rows
  unfolding above
  above-above c c' [] h = refl
  above-above c c' ((id, p) ∷ rows) h = ground (arith, above-above c c' rows)

  -- The last number of a page separates it from what follows.
  last_id_cut :
      (n a : ℕ) (rows : List (Stored F))
      → suc n ≤ length rows
      → IsAscending a rows
      → (c : ℕ) × (last_id (take (suc n) rows) ≡ some c)
        × (a < c)
        × (above c rows ≡ drop (suc n) rows)
  unfolding last_id above
  last_id_cut n a [] h s = absurd (omega arith)
  last_id_cut zero a ((id, p) ∷ rows) h s = (id, refl, s.0, ground (arith, above_all id id rows))
  last_id_cut (suc n) a ((id, p) ∷ []) h s = absurd (omega arith)
  last_id_cut (suc n) a ((id, p) ∷ (id', p') ∷ rows) h s =
      let (c, last, low, cut) = last_id_cut n id ((id', p') ∷ rows) (omega arith) s.1 in
      (c, last, omega arith, rw (le→ltb c id (omega arith)) cut)

  take-take : (n : ℕ) (rows : List (Stored F)) → take n (take (n + 1) rows) ≡ take n rows
  take-take n rows = rw add-one (go n rows)
    where
      go : (n : ℕ) (rows : List (Stored F)) → take n (take (suc n) rows) ≡ take n rows
      go zero rows = refl
      go (suc n) [] = refl
      go (suc n) (r ∷ rows) = ap (◌∷◌ r) (go n rows)

  -- A page that is not the last one, and the last one.
  page_of-more :
      (limit : ℕ) (rows : List (Stored F))
      → limit < length rows
      → page_of limit (take (limit + 1) rows)
        ≡ record { positions = take limit rows; next_cursor = last_id (take limit rows) }
  unfolding page_of
  page_of-more limit rows h = ground (arith, length-take (limit + 1) rows, take-take limit rows)

  page_of-last :
      (limit : ℕ) (rows : List (Stored F))
      → length rows ≤ limit
      → page_of limit (take (limit + 1) rows) ≡ record { positions = rows; next_cursor = none }
  unfolding page_of
  page_of-last limit rows h =
      ground (arith, length-take (limit + 1) rows, take_all (limit + 1) rows)

  -- The rows that a query asks for.
  abbrev pub asked : PageQuery → List (Stored F) → List (Stored F)
  asked q rows = above q.after_id (matching q.device_id q.from q.to rows)

  -- The lowest number that is asked for is behind the cursor.
  above-behind :
      (c a : ℕ) (rows : List (Stored F)) → IsAscending a rows → IsAscending c (above c rows)
  unfolding above
  above-behind c a [] s = tt
  above-behind c a ((id, p) ∷ rows) s = elim (Bool-cases (ltb c id)) [
    | inl more ↦ rw more (ltb→lt c id more, above-IsAscending c id rows s.1)
    | inr less ↦ rw less (above-behind c id rows s.1)
  ]

  -- One round at a page that is not the last one.
  export-more :
      (rounds n : ℕ) (q : PageQuery) (rows : List (Stored F))
      → IsAscending 0 rows
      → page_limit q.limit ≡ suc n
      → suc n < length (asked q rows)
      → ((c : ℕ)
          → asked (record q { after_id = c }) rows ≡ drop (suc n) (asked q rows)
          → export_from rounds (record q { after_id = c }) rows
            ≡ some (drop (suc n) (asked q rows)))
      → export_from (suc rounds) q rows ≡ some (asked q rows)
  unfolding export_from page follow
  export-more rounds n q rows s size more ahead =
      let (c, last, low, cut) =
        last_id_cut n q.after_id (asked q rows) (omega arith)
          (above-behind q.after_id 0 _ (matching-IsAscending q.device_id q.from q.to 0 rows s)) in
      let rest : asked (record q { after_id = c }) rows ≡ drop (suc n) (asked q rows) =
        sym (above-above q.after_id c (matching q.device_id q.from q.to rows) (omega arith))
        ∙ cut in
      let next = λ (cursor : ℕ). export_from rounds (record q { after_id = cursor }) rows in
      let got : page q rows
          ≡ record { positions = take (suc n) (asked q rows); next_cursor = some c } =
        ap (λ k. page_of k (take (k + 1) (asked q rows))) size
        ∙ page_of-more (suc n) (asked q rows) more
        ∙ ap (λ o. record { positions = take (suc n) (asked q rows); next_cursor = o }) last in
      ap (λ g. follow g next) got
      ∙ ap (Option.map (λ rest. take (suc n) (asked q rows) ++ rest)) (ahead c rest)
      ∙ ap some (take-append-drop (suc n) (asked q rows))

  -- One round at the last page.
  export-last :
      (rounds : ℕ) (q : PageQuery) (rows : List (Stored F))
      → length (asked q rows) ≤ page_limit q.limit
      → export_from (suc rounds) q rows ≡ some (asked q rows)
  unfolding export_from page follow
  export-last rounds q rows few =
      let next = λ (cursor : ℕ). export_from rounds (record q { after_id = cursor }) rows in
      ap (λ g. follow g next) (page_of-last (page_limit q.limit) (asked q rows) few)

  -- Whoever follows the cursors of the pages, in a table that stands still and whose numbers grow, gets every row of
  -- the device and the period behind the first cursor, once and in order, and no other, whatever
  -- limit the pages have; it takes at most one request more than there are rows.
  pub export_from-asked :
      (rounds : ℕ) (q : PageQuery) (rows : List (Stored F))
      → IsAscending 0 rows
      → length (asked q rows) < rounds
      → export_from rounds q rows ≡ some (asked q rows)
  export_from-asked zero q rows s h = absurd (omega arith)
  export_from-asked (suc rounds) q rows s h =
      elim (Bool-cases (ltb (page_limit q.limit) (length (asked q rows)))) [
        | inl more ↦
            let n = page_limit q.limit - 1 in
            export-more rounds n q rows s (omega (arith, page_limit_pos q.limit))
              (omega (arith, page_limit_pos q.limit, ltb→lt _ _ more))
              (λ c rest.
                export_from-asked rounds (record q { after_id = c }) rows s
                  (rw rest (omega (arith, length-drop (suc n) (asked q rows), ltb→lt _ _ more, h)))
                ∙ ap some rest)
        | inr last ↦ export-last rounds q rows (ground arith)
      ]
