-- ===== src/Tracking/History/Sampling.antt =====
-- The sampling of the history: how many points are left, and that the ends are.
use native.Mathlib.Nat.{
  suc-mod, mod-eq_of_lt, mod_self, mod-lt, suc-mul, mul_comm, div-add-mod, lt_of_mul-lt-mul_right,
}
use farbo_rastreamento.Prelude.{
  ℕ, zero, suc, ◌+◌, ◌-◌, ◌*◌, ◌/◌, ◌%◌, ◌≤◌, ◌<◌, Bool, true, false, ◌||◌, Option, none, some,
  List, [], ◌∷◌, ◌≡◌, refl, ap, ◌∙◌, sym, subst, inl, inr, arith, Bool-cases, ltb, ltb→lt, lt→ltb,
  ◌==◌, ==_iff, if◌then◌else◌, length,
}
use farbo_rastreamento.Tracking.Simplify.{marked}
use farbo_rastreamento.Tracking.History.{is_sampled, step_of}

-- The first and the last element.
abbrev pub first_of : {P : Type 0} → List P → Option P
first_of [] = none
first_of (p ∷ ps) = some p

abbrev pub last_of : {P : Type 0} → List P → Option P
last_of [] = none
last_of (p ∷ []) = some p
last_of (p ∷ q ∷ ps) = last_of (q ∷ ps)

abbrev bit : Bool → ℕ
bit b = if b then 1 else 0

length-marked-nil : (P : Type 0) (keep : ℕ → Bool) (i : ℕ) → length (marked {P = P} keep i []) ≡ 0
unfolding marked
length-marked-nil P keep i = refl

module _ {P : Type 0} where
  pub marked-kept :
      (keep : ℕ → Bool) (i : ℕ) (p : P) (ps : List P)
      → keep i ≡ true
      → marked keep i (p ∷ ps) ≡ p ∷ marked keep (suc i) ps
  unfolding marked
  marked-kept keep i p ps h = rw h refl

  marked-dropped :
      (keep : ℕ → Bool) (i : ℕ) (p : P) (ps : List P)
      → keep i ≡ false
      → marked keep i (p ∷ ps) ≡ marked keep (suc i) ps
  unfolding marked
  marked-dropped keep i p ps h = rw h refl

  pub length-marked-le :
      (keep : ℕ → Bool) (i : ℕ) (ps : List P) → length (marked keep i ps) ≤ length ps
  unfolding marked
  length-marked-le keep i [] = omega arith
  length-marked-le keep i (p ∷ ps) = let rest = length-marked-le keep (suc i) ps in ground arith

  last_known : (p : P) (ps : List P) → (x : P) × (last_of (p ∷ ps) ≡ some x)
  last_known p [] = (p, refl)
  last_known p (q ∷ ps) = last_known q ps

  last_of-cons : (p x : P) (ps : List P) → last_of ps ≡ some x → last_of (p ∷ ps) ≡ some x
  last_of-cons p x [] h = ground arith
  last_of-cons p x (q ∷ ps) h = h

  pub marked-last :
      (keep : ℕ → Bool) (i : ℕ) (p : P) (ps : List P)
      → keep (i + length ps) ≡ true
      → last_of (marked keep i (p ∷ ps)) ≡ last_of (p ∷ ps)
  unfolding marked
  marked-last keep i p [] h = ap last_of (marked-kept keep i p [] (ap keep (omega arith) ∙ h))
  marked-last keep i p (q ∷ ps) h =
      let (x, e) = last_known q ps in
      let rest = marked-last keep (suc i) q ps (ap keep (omega arith) ∙ h) in
      elim (Bool-cases (keep i)) [
        | inl kept ↦
            ap last_of (marked-kept keep i p (q ∷ ps) kept)
            ∙ last_of-cons p x (marked keep (suc i) (q ∷ ps)) (rest ∙ e)
            ∙ sym e
        | inr dropped ↦ ap last_of (marked-dropped keep i p (q ∷ ps) dropped) ∙ rest
      ]

  pub marked-first :
      (keep : ℕ → Bool) (i : ℕ) (p : P) (ps : List P)
      → keep i ≡ true
      → first_of (marked keep i (p ∷ ps)) ≡ some p
  marked-first keep i p ps h = ap first_of (marked-kept keep i p ps h)

  length-marked-cons :
      (keep : ℕ → Bool) (i : ℕ) (p : P) (ps : List P)
      → length (marked keep i (p ∷ ps)) ≡ bit (keep i) + length (marked keep (suc i) ps)
  unfolding marked
  length-marked-cons keep i p ps = ground arith

  -- One mark more at the end is one point more at most.
  length-marked-or_last :
      (keep : ℕ → Bool) (n i : ℕ) (ps : List P)
      → i + length ps ≤ n
      → length (marked (λ j. keep j || suc j == n) i ps) ≤ suc (length (marked keep i ps))
  length-marked-or_last keep n i [] h =
      rw (length-marked-nil P (λ j. keep j || suc j == n) i) (omega arith)
  length-marked-or_last keep n i (p ∷ ps) h =
      let both = λ (j : ℕ). keep j || suc j == n in
      let rest = length-marked-or_last keep n (suc i) ps (omega arith) in
      let whole = length-marked-cons both i p ps in
      let part = length-marked-cons keep i p ps in
      elim (Bool-cases (suc i == n)) [
        | inl at_last ↦
            let few = length-marked-le both i (p ∷ ps) in
            let one : suc i ≡ n = (==_iff (suc i) n).0 at_last in omega arith
        | inr before ↦
            let same : both i ≡ keep i = ground arith in
            let e = whole ∙ ap (λ b. bit b + length (marked both (suc i) ps)) same in omega arith
      ]

-- How far the next multiple of a step is, for the bound of the count.
phase : ℕ → ℕ → ℕ
phase step zero = step - 1
phase step (suc r) = r

next_mod :
    (step i : ℕ)
    → 1 < step
    → (suc (i % step) < step → suc i % step ≡ suc (i % step))
      × (suc (i % step) ≡ step → suc i % step ≡ 0)
next_mod step i h = (
  λ below. suc-mod i step ∙ mod-eq_of_lt below,
  λ full. suc-mod i step ∙ ap (λ k. k % step) full ∙ mod_self step,
)

phase-step :
    (step r m a b len : ℕ)
    → 1 < step
    → r < step
    → (suc r < step → m ≡ suc r)
    → (suc r ≡ step → m ≡ 0)
    → a ≡ bit (m == 1) + b
    → b * step ≤ len + phase step m
    → a * step ≤ suc len + phase step r
unfolding phase
phase-step step zero m a b len s l below full e h =
    let m1 : m ≡ 1 = below s in
    let e' : a ≡ suc b = e ∙ ap (λ k. bit (k == 1) + b) m1 ∙ omega arith in
    let h' = subst (λ k. b * step ≤ len + phase step k) m1 h in
    rw e' (rw (suc-mul b step) (omega arith))
phase-step step (suc r) m a b len s l below full e h = elim (Bool-cases (ltb (suc (suc r)) step)) [
  | inl more ↦
      let m1 : m ≡ suc (suc r) = below (ltb→lt _ _ more) in
      let e' : a ≡ b = e ∙ ap (λ k. bit (k == 1) + b) m1 ∙ ground arith in
      let h' = subst (λ k. b * step ≤ len + phase step k) m1 h in rw e' (omega arith)
  | inr end ↦
      let whole : suc (suc r) ≡ step = ground arith in
      let m0 : m ≡ 0 = full whole in
      let e' : a ≡ b = e ∙ ap (λ k. bit (k == 1) + b) m0 ∙ omega arith in
      let h' : b * step ≤ len + (step - 1) = subst (λ k. b * step ≤ len + phase step k) m0 h in
      rw e' (omega arith)
]

module _ {P : Type 0} where
  length-marked-step :
      (step i : ℕ) (ps : List P)
      → 1 < step
      → length (marked (λ j. suc j % step == 1) i ps) * step ≤ length ps + phase step (i % step)
  unfolding marked
  length-marked-step step i [] h = omega arith
  length-marked-step step i (p ∷ ps) h =
      let (below, full) = next_mod step i h in
      phase-step step (i % step) (suc i % step) _ _ (length ps) h (mod-lt i (omega arith)) below
        full (length-marked-cons (λ j. suc j % step == 1) i p ps)
        (length-marked-step step (suc i) ps h)

-- The step covers the rows with as many points as the limit has.
step_of-covers :
    (limit total : ℕ)
    → 0 < limit
    → limit < total
    → (1 < step_of limit total) × (total ≤ limit * step_of limit total)
unfolding step_of
step_of-covers limit total pos more =
    let q = (total + (limit - 1)) / limit in
    let e : step_of limit total ≡ q = rw (lt→ltb limit total more) refl in
    let whole = div-add-mod (total + (limit - 1)) limit in
    let part : (total + (limit - 1)) % limit < limit = mod-lt (total + (limit - 1)) pos in
    let covers : total ≤ limit * q = omega arith in
    rw e (lt_of_mul-lt-mul_right limit (rw (mul_comm q limit) (omega arith)), covers)

step_of-one : (limit total : ℕ) → ltb limit total ≡ false → step_of limit total ≡ 1
unfolding step_of
step_of-one limit total h = rw h refl

is_sampled-step :
    (step total : ℕ) → 1 < step → is_sampled step total ≡ (λ j. suc j % step == 1 || suc j == total)
unfolding is_sampled
is_sampled-step step total h =
    let other : (step == 1) ≡ false = ground arith in
    ap (λ b j. b || (suc j % step == 1 || suc j == total)) other

pub is_sampled-first :
    (limit total : ℕ) → 0 < limit → is_sampled (step_of limit total) total 0 ≡ true
unfolding is_sampled
is_sampled-first limit total pos = elim (Bool-cases (ltb limit total)) [
  | inl more ↦
      let (large, covers) = step_of-covers limit total pos (ltb→lt limit total more) in
      let one : 1 % step_of limit total ≡ 1 = mod-eq_of_lt large in rw one (ground arith)
  | inr few ↦ rw (step_of-one limit total few) refl
]

pub is_sampled-last : (step n : ℕ) → is_sampled step (suc n) n ≡ true
unfolding is_sampled
is_sampled-last step n = ground arith

module _ {P : Type 0} where
  many-sampled :
      (limit step total : ℕ) (ps : List P)
      → 1 < step
      → total ≤ limit * step
      → length ps ≡ total
      → length (marked (is_sampled step total) 0 ps) ≤ limit + 1
  unfolding phase
  many-sampled limit step total ps large covers e =
      let by_step = λ (j : ℕ). suc j % step == 1 in
      let last = length-marked-or_last by_step total 0 ps (omega arith) in
      let none_before : 0 % step ≡ 0 = mod-eq_of_lt (omega arith) in
      let count : length (marked by_step 0 ps) * step ≤ length ps + (step - 1) =
        subst (λ r. length (marked by_step 0 ps) * step ≤ length ps + phase step r) none_before
          (length-marked-step step 0 ps large) in
      let below : length (marked by_step 0 ps) < suc limit =
        lt_of_mul-lt-mul_right step (rw (suc-mul limit step) (omega arith)) in
      rw (is_sampled-step step total large) (omega arith)

  pub sampled-few :
      (limit total : ℕ) (ps : List P)
      → 0 < limit
      → length ps ≡ total
      → length (marked (is_sampled (step_of limit total) total) 0 ps) ≤ limit + 1
  sampled-few limit total ps pos e = elim (Bool-cases (ltb limit total)) [
    | inl more ↦
        let (large, covers) = step_of-covers limit total pos (ltb→lt limit total more) in
        many-sampled limit (step_of limit total) total ps large covers e
    | inr few ↦
        let all = length-marked-le (is_sampled (step_of limit total) total) 0 ps in
        let short : total ≤ limit = ground arith in omega arith
  ]
