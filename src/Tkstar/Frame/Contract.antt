-- ===== src/Tkstar/Frame/Contract.antt =====
-- parser.go: `nextFrame` keeps the contract of `Framer`, but for the separators that it drops.
use mathlib.Core.Option.{some_inj}
use farbo_rastreamento.Prelude.{
  ℕ, zero, suc, ◌+◌, ◌≤◌, ◌<◌, ◌≡◌, refl, sym, ap, ◌∙◌, false, Option, none, some, [], ◌∷◌, ◌++◌,
  arith, ltb, length, length-take, take, take_within, Bool-cases, inl, inr,
}
use farbo_rastreamento.Prelude.Words.{Bytes}
use farbo_rastreamento.Protocols.Framing.{
  framed, wait, no_terminator, over_limit, FramerLaws, Honours, waits, frames, throws, skips,
}
use farbo_rastreamento.Tkstar.Frame.{
  max_text_frame, separators, index_of, sentence, behind_separators, next_frame,
}

separators_le : (buf : Bytes) → separators buf ≤ length buf
unfolding separators
separators_le [] = omega arith
separators_le (c ∷ cs) = ground (arith, separators_le cs)

index_of_bounds :
    (mark i k : ℕ) (buf : Bytes) → index_of mark i buf ≡ some k → (i ≤ k) × (k < i + length buf)
unfolding index_of
index_of_bounds mark i k [] h = cc
index_of_bounds mark i k (c ∷ cs) h = ground (arith, index_of_bounds mark (i + 1) k cs)

index_of-append :
    (mark i k : ℕ) (buf more : Bytes)
    → index_of mark i buf ≡ some k
    → index_of mark i (buf ++ more) ≡ some k
unfolding index_of
index_of-append mark i k [] more h = cc
index_of-append mark i k (c ∷ cs) more h = ground (arith, index_of-append mark (i + 1) k cs more)

index_of-take :
    (mark i k n : ℕ) (buf : Bytes)
    → index_of mark i buf ≡ some k
    → i + n ≤ k
    → index_of mark i (take n buf) ≡ none
unfolding index_of
index_of-take mark i k zero buf h l = refl
index_of-take mark i k (suc n) [] h l = refl
index_of-take mark i k (suc n) (c ∷ cs) h l = ground (arith, index_of-take mark (i + 1) k n cs)

sentence-Honours :
    (mark : ℕ) (buf : Bytes) (o : Option ℕ) → index_of mark 0 buf ≡ o → Honours buf (sentence buf o)
unfolding sentence
sentence-Honours mark buf none e = elim (Bool-cases (ltb max_text_frame (length buf))) [
  | inl over ↦ throws (length buf) no_terminator (ground arith) (omega arith) (rw over)
  | inr under ↦ waits (rw under)
]
sentence-Honours mark buf (some i) e =
    let (lo, hi) = index_of_bounds mark 0 i buf e in
    elim (Bool-cases (ltb max_text_frame (i + 1))) [
      | inl over ↦ throws (i + 1) over_limit (omega arith) (omega arith) (rw over)
      | inr under ↦ frames (i + 1) (omega arith) (omega arith) (rw under)
    ]

next_frame-Honours : (mark : ℕ) (buf : Bytes) → Honours buf (next_frame mark buf)
unfolding next_frame behind_separators
next_frame-Honours mark buf = go (separators buf) (separators_le buf)
  where
    go : (n : ℕ) → n ≤ length buf → Honours buf (behind_separators mark buf n)
    go zero h = sentence-Honours mark buf (index_of mark 0 buf) refl
    go (suc n) h = skips (suc n) (omega arith) h refl

-- What a frame says of the buffer.
record IsSentence (mark : ℕ) (buf f : Bytes) (n : ℕ) : Type 0 where
  end : ℕ
  unseparated : separators buf ≡ 0
  found : index_of mark 0 buf ≡ some end
  size : n ≡ end + 1
  short : n ≤ max_text_frame
  cut : f ≡ take n buf

sentence-framed :
    (buf f : Bytes) (o : Option ℕ) (n : ℕ)
    → sentence buf o ≡ framed f n
    → (i : ℕ) × (o ≡ some i) × (n ≡ i + 1) × (n ≤ max_text_frame) × (f ≡ take n buf)
unfolding sentence
sentence-framed buf f none n h = ground arith
sentence-framed buf f (some i) n h = elim (Bool-cases (ltb max_text_frame (i + 1))) [
  | inl over ↦ ground arith
  | inr under ↦
      let same : framed (take (i + 1) buf) (i + 1) ≡ framed f n = sym (rw under refl) ∙ h in
      let size : n ≡ i + 1 = sym (ap (λ r. r.consumed) same) in
      let cut = some_inj.0 (ap (λ r. r.frame) same) in
      (i, refl, size, ground arith, sym cut ∙ ap (λ k. take k buf) (sym size))
]

behind-framed :
    (mark s n : ℕ) (buf f : Bytes)
    → behind_separators mark buf s ≡ framed f n
    → (s ≡ 0) × (sentence buf (index_of mark 0 buf) ≡ framed f n)
unfolding behind_separators
behind-framed mark zero n buf f h = (refl, h)
behind-framed mark (suc s) n buf f h = ground arith

next_frame-IsSentence :
    (mark : ℕ) (buf f : Bytes) (n : ℕ) → next_frame mark buf ≡ framed f n → IsSentence mark buf f n
unfolding next_frame
next_frame-IsSentence mark buf f n h =
    let (alone, h') = behind-framed mark (separators buf) n buf f h in
    let (i, found, size, short, cut) = sentence-framed buf f (index_of mark 0 buf) n h' in
    record { end = i; unseparated = alone; found = found; size = size; short = short; cut = cut }

next_frame-alone :
    (mark : ℕ) (buf : Bytes)
    → separators buf ≡ 0
    → next_frame mark buf ≡ sentence buf (index_of mark 0 buf)
unfolding next_frame behind_separators
next_frame-alone mark buf h = ap (behind_separators mark buf) h

-- The other way round.
IsSentence-next_frame :
    (mark : ℕ) (buf f : Bytes) (n : ℕ) → IsSentence mark buf f n → next_frame mark buf ≡ framed f n
unfolding sentence
IsSentence-next_frame mark buf f n h =
    let under : ltb max_text_frame (h.end + 1) ≡ false = ground (arith, h.short, h.size) in
    next_frame-alone mark buf h.unseparated
    ∙ ap (sentence buf) h.found
    ∙ rw under (ap (λ k. framed (take k buf) k) (sym h.size) ∙ ap (λ g. framed g n) (sym h.cut))

separators-append :
    (buf more : Bytes) → 0 < length buf → separators buf ≡ 0 → separators (buf ++ more) ≡ 0
unfolding separators
separators-append [] more l h = absurd (omega arith)
separators-append (c ∷ cs) more l h = ground arith

separators-take : (k : ℕ) (buf : Bytes) → separators buf ≡ 0 → separators (take k buf) ≡ 0
unfolding separators
separators-take zero buf h = refl
separators-take (suc k) [] h = refl
separators-take (suc k) (c ∷ cs) h = ground arith

next_frame-stable :
    (mark : ℕ) (buf more f : Bytes) (n : ℕ)
    → next_frame mark buf ≡ framed f n
    → next_frame mark (buf ++ more) ≡ framed f n
next_frame-stable mark buf more f n h =
    let s = next_frame-IsSentence mark buf f n h in
    let (lo, hi) = index_of_bounds mark 0 s.end buf s.found in
    IsSentence-next_frame mark (buf ++ more) f n (record {
      end = s.end;
      unseparated = separators-append buf more (omega arith) s.unseparated;
      found = index_of-append mark 0 s.end buf more s.found;
      size = s.size;
      short = s.short;
      cut = s.cut ∙ sym (take_within n buf more (omega (arith, s.size)));
    })

next_frame-patient :
    (mark : ℕ) (buf f : Bytes) (n k : ℕ)
    → next_frame mark buf ≡ framed f n
    → k < n
    → next_frame mark (take k buf) ≡ wait
unfolding sentence
next_frame-patient mark buf f n k h l =
    let s = next_frame-IsSentence mark buf f n h in
    let few : ltb max_text_frame (length (take k buf)) ≡ false =
      ground (arith, length-take k buf, s.short) in
    next_frame-alone mark (take k buf) (separators-take k buf s.unseparated)
    ∙ ap (sentence (take k buf)) (index_of-take mark 0 s.end k buf s.found (omega (arith, s.size)))
    ∙ rw few refl

-- Whatever the end mark, `nextFrame` keeps the contract of `Framer` on every buffer, at every size,
-- when the separators that it drops count as an answer: a sentence is the start of the buffer, it
-- stays the answer when more bytes arrive, and before it is complete the answer is to wait.
pub next_frame-FramerLaws_text : (mark top : ℕ) → FramerLaws top (next_frame mark)
next_frame-FramerLaws_text mark top = record {
  honours = next_frame-Honours mark;
  stable = λ buf more f n h. next_frame-stable mark buf more f n h;
  patient = λ buf f n k h small l. next_frame-patient mark buf f n k h l;
}
