-- ===== src/Tcp/Manager/Lookup.antt =====
-- connection.go: who is found under an IMEI after each operation of the registry.
use farbo_rastreamento.Prelude.{
  ℕ, Option, none, some, [], ◌∷◌, ◌≡◌, ◌≢◌, refl, ◌⊎◌, inl, inr, arith, if◌then◌else◌,
}
use farbo_rastreamento.Prelude.Words.{Bytes}
use farbo_rastreamento.Prelude.Maps.{
  lookup, insert, lookup-insert, lookup-delete, text_eq, text_eq_iff, text_eq_refl,
}
use farbo_rastreamento.Tcp.Manager.{Net, get, register, finish, close_previous}

-- Who is found under an IMEI after each operation.
conns-close_previous :
    (o : Option ℕ) (c : ℕ) (net : Net) → (close_previous o c net).conns ≡ net.conns
unfolding close_previous
conns-close_previous none c net = refl
conns-close_previous (some p) c net = ground arith

imei-close_previous : (o : Option ℕ) (c : ℕ) (net : Net) → (close_previous o c net).imei ≡ net.imei
unfolding close_previous
imei-close_previous none c net = refl
imei-close_previous (some p) c net = ground arith

pub Bytes-cases : (bs : Bytes) → (bs ≡ []) ⊎ (bs ≢ [])
Bytes-cases [] = inl refl
Bytes-cases (b ∷ bs) = inr (λ e. cc)

pub get-register :
    (c : ℕ) (net : Net) (key : Bytes)
    → net.imei c ≢ []
    → get key (register c net) ≡ (if text_eq (net.imei c) key then some c else get key net)
unfolding register get
get-register c net key h =
    let inserted = record net { conns = insert (net.imei c) c net.conns } in
    ground (
      arith,
      lookup-insert (net.imei c) key c net.conns,
      conns-close_previous (lookup (net.imei c) net.conns) c inserted,
    )

-- A session that ends leaves the registry as it is, unless it is the current one of its IMEI.
pub get-finish_other :
    (c d : ℕ) (net : Net) (key : Bytes)
    → get key net ≡ some d
    → d ≢ c
    → get key (finish c net) ≡ some d
unfolding finish get
get-finish_other c d net key h ne =
    ground (arith, lookup-delete (net.imei c) key net.conns, text_eq_iff (net.imei c) key)

pub get-finish_current :
    (c : ℕ) (net : Net)
    → net.imei c ≢ []
    → get (net.imei c) net ≡ some c
    → get (net.imei c) (finish c net) ≡ none
unfolding finish get
get-finish_current c net h e =
    ground (arith, lookup-delete (net.imei c) (net.imei c) net.conns, text_eq_refl (net.imei c))

-- A lookup never finds after the end of a session what it did not find before.
pub get-finish-some :
    (c d : ℕ) (net : Net) (key : Bytes) → get key (finish c net) ≡ some d → get key net ≡ some d
unfolding finish get
get-finish-some c d net key h = ground (arith, lookup-delete (net.imei c) key net.conns)
