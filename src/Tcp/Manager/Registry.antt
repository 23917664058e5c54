-- ===== src/Tcp/Manager/Registry.antt =====
-- connection.go: what the registry promises, and where it breaks.
use farbo_rastreamento.Prelude.{
  ℕ, true, false, some, [], ◌≡◌, ◌≢◌, sym, subst, ◌∙◌, ◌⊎◌, inl, inr, arith, ◌==◌, if◌then◌else◌,
  Bool-cases, ok,
}
use farbo_rastreamento.Prelude.Words.{Bytes}
use farbo_rastreamento.Prelude.Maps.{lookup-delete, text_eq, text_eq_iff, text_eq_refl}
use farbo_rastreamento.Tcp.Manager.{Net, accept, identify, get, register, finish, send}
use farbo_rastreamento.Tcp.Manager.Lookup.{
  Bytes-cases, get-register, get-finish_other, get-finish_current, get-finish-some,
}

-- Every session that the registry finds under an IMEI speaks for that IMEI and is open.
pub record IsSound (net : Net) : Type 0 where
  pub speaks : (key : Bytes) (d : ℕ) → get key net ≡ some d → net.imei d ≡ key
  pub opened : (key : Bytes) (d : ℕ) → get key net ≡ some d → net.is_open d ≡ true
  pub named : (key : Bytes) (d : ℕ) → get key net ≡ some d → key ≢ []

-- What a session may do: a new socket gets a fresh number, a session keeps the IMEI that it gave
-- first, and only an open session registers.
pub data Step (net : Net) : Net → Type 0 where
  accepts : (c : ℕ) → ((key : Bytes) → get key net ≢ some c) → Step net (accept c net)
  identifies :
      (c : ℕ) (imei : Bytes)
      → (net.imei c ≡ []) ⊎ (net.imei c ≡ imei)
      → Step net (identify c imei net)
  registers : (c : ℕ) → net.is_open c ≡ true → Step net (register c net)
  finishes : (c : ℕ) → Step net (finish c net)

pub data Reach (s : Net) : Net → Type 0 where
  here : Reach s s
  next : {t u : Net} → Reach s t → Step t u → Reach s u

accept-IsSound :
    (c : ℕ) (net : Net)
    → ((key : Bytes) → get key net ≢ some c)
    → IsSound net
    → IsSound (accept c net)
unfolding accept get
accept-IsSound c net fresh s = record {
  speaks = λ key d h. ground (arith, s.speaks key d h, fresh key);
  opened = λ key d h. ground (arith, s.opened key d h, fresh key);
  named = λ key d h. s.named key d h;
}

identify-IsSound :
    (c : ℕ) (imei : Bytes) (net : Net)
    → (net.imei c ≡ []) ⊎ (net.imei c ≡ imei)
    → IsSound net
    → IsSound (identify c imei net)
unfolding identify get
identify-IsSound c imei net same s = record {
  speaks = λ key d h. ground (arith, s.speaks key d h, s.named key d h);
  opened = λ key d h. s.opened key d h;
  named = λ key d h. s.named key d h;
}

imei-finish : (c d : ℕ) (net : Net) → (finish c net).imei d ≡ net.imei d
unfolding finish
imei-finish c d net = ground arith

is_open-finish :
    (c d : ℕ) (net : Net) → (finish c net).is_open d ≡ (if c == d then false else net.is_open d)
unfolding finish
is_open-finish c d net = ground arith

finish-opened :
    (c : ℕ) (net : Net) (key : Bytes) (d : ℕ)
    → IsSound net
    → get key (finish c net) ≡ some d
    → (finish c net).is_open d ≡ true
finish-opened c net key d s h =
    let before = get-finish-some c d net key h in
    let gone = get-finish_current c net in
    ground (
      arith,
      s.speaks key d before,
      s.opened key d before,
      s.named key d before,
      is_open-finish c d net,
      gone,
    )

finish-IsSound : (c : ℕ) (net : Net) → IsSound net → IsSound (finish c net)
finish-IsSound c net s = record {
  speaks = λ key d h. imei-finish c d net ∙ s.speaks key d (get-finish-some c d net key h);
  opened = λ key d h. finish-opened c net key d s h;
  named = λ key d h. s.named key d (get-finish-some c d net key h);
}

register_unnamed : (c : ℕ) (net : Net) → net.imei c ≡ [] → register c net ≡ net
unfolding register
register_unnamed c net h = rw h

imei-register : (c d : ℕ) (net : Net) → (register c net).imei d ≡ net.imei d
unfolding register
imei-register c d net = ground arith

-- Only the session that was found under the IMEI before, if it is another one, is closed.
is_open-register :
    (c d : ℕ) (net : Net)
    → (d ≡ c) ⊎ (get (net.imei c) net ≢ some d)
    → (register c net).is_open d ≡ net.is_open d
unfolding register get
is_open-register c d net h = ground arith

register-opened :
    (c : ℕ) (net : Net) (key : Bytes) (d : ℕ)
    → net.imei c ≢ []
    → net.is_open c ≡ true
    → IsSound net
    → get key (register c net) ≡ some d
    → (net.imei d ≡ key) × ((register c net).is_open d ≡ true) × (key ≢ [])
register-opened c net key d named o s h = elim (Bool-cases (text_eq (net.imei c) key)) [
  | inl same ↦
      ground (
        arith,
        get-register c net key named,
        text_eq_iff (net.imei c) key,
        is_open-register c d net,
      )
  | inr other ↦
      let before : get key net ≡ some d = ground (arith, get-register c net key named) in
      let apart : get (net.imei c) net ≢ some d = λ e.
        ground
          (arith, s.speaks key d before, s.speaks (net.imei c) d e, text_eq_iff (net.imei c) key) in
      (
        s.speaks key d before,
        is_open-register c d net (inr apart) ∙ s.opened key d before,
        s.named key d before,
      )
]

register-IsSound :
    (c : ℕ) (net : Net) → net.is_open c ≡ true → IsSound net → IsSound (register c net)
register-IsSound c net o s = elim (Bytes-cases (net.imei c)) [
  | inl unnamed ↦ subst IsSound (sym (register_unnamed c net unnamed)) s
  | inr named ↦ record {
    speaks = λ key d h. imei-register c d net ∙ (register-opened c net key d named o s h).0;
    opened = λ key d h. (register-opened c net key d named o s h).1;
    named = λ key d h. (register-opened c net key d named o s h).2;
  }
]

Step-IsSound : {net net' : Net} → Step net net' → IsSound net → IsSound net'
Step-IsSound {net} (accepts c fresh) s = accept-IsSound c net fresh s
Step-IsSound {net} (identifies c imei same) s = identify-IsSound c imei net same s
Step-IsSound {net} (registers c o) s = register-IsSound c net o s
Step-IsSound {net} (finishes c) s = finish-IsSound c net s

-- From a sound registry, after any history in which a new socket gets a number that is not
-- registered, every session keeps the IMEI that it gave first and only open sessions register, the
-- registry finds under an IMEI, which is not empty, only an open session of that IMEI.
pub Reach-IsSound : {net net' : Net} → IsSound net → Reach net net' → IsSound net'
Reach-IsSound s here = s
Reach-IsSound s (next r st) = Step-IsSound st (Reach-IsSound s r)

-- A session that ends late, after the tracker has come back with its IMEI on another one, leaves
-- the new session registered: `Send` chooses it for every payload that is not empty.
pub send-register-finish :
    (old new : ℕ) (net : Net) (payload : Bytes)
    → net.imei new ≢ []
    → old ≢ new
    → payload ≢ []
    → send (net.imei new) payload (finish old (register new net)) ≡ ok new
unfolding send
send-register-finish old new net payload named ne some_bytes = ground (
  arith,
  get-finish_other old new (register new net) (net.imei new),
  get-register new net (net.imei new) named,
  text_eq_refl (net.imei new),
)

get-identify-finish :
    (c : ℕ) (first second : Bytes) (net : Net)
    → get first net ≡ some c
    → second ≢ first
    → get first (finish c (identify c second net)) ≡ some c
unfolding finish identify get
get-identify-finish c first second net h ne =
    ground (arith, lookup-delete second first net.conns, text_eq_iff second first)

-- A session that is registered under one IMEI, identifies with another one later and then ends
-- stays registered under the first: `Send` goes on to choose its closed socket for every payload
-- that is not empty.
pub send-identify-finish :
    (c : ℕ) (first second : Bytes) (net : Net) (payload : Bytes)
    → get first net ≡ some c
    → second ≢ first
    → payload ≢ []
    → (send first payload (finish c (identify c second net)) ≡ ok c)
      × ((finish c (identify c second net)).is_open c ≡ false)
unfolding send
send-identify-finish c first second net payload h ne some_bytes = (
  ground (arith, get-identify-finish c first second net h ne),
  ground (arith, is_open-finish c c (identify c second net)),
)
