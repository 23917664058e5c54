-- ===== src/Auth/Tokens/Spent.antt =====
-- user.go: a refresh token that has been consumed is never usable again.
use farbo_rastreamento.Prelude.{
  ℕ, ◌≤◌, ◌≡◌, refl, subst, Bool, true, false, Option, none, some, List, [], ◌∷◌, arith, ok, All,
}
use farbo_rastreamento.Prelude.Words.{Bytes}
use farbo_rastreamento.Prelude.Maps.{text_eq}
use farbo_rastreamento.Protocols.Calendar.{Time}
use farbo_rastreamento.Auth.Tokens.{
  TokenRow, store_refresh_token, is_usable, revoke_at, revoke_where, first_user,
  consume_refresh_token, delete_expired, or_not_found,
}

-- No row of the table lets the token with this hash through at this time.
abbrev pub IsSpent : Time → Bytes → List TokenRow → Type 0
IsSpent now hash = All (λ r. is_usable now hash r ≡ false)

module _ (now : Time) (hash : Bytes) where
  -- Neither later on.
  pub IsSpent-later :
      (later : Time) (rows : List TokenRow)
      → now ≤ later
      → IsSpent now hash rows
      → IsSpent later hash rows
  unfolding is_usable
  IsSpent-later later [] h s = tt
  IsSpent-later later (r ∷ rs) h s = (ground arith, IsSpent-later later rs h s.1)

  pub revoke_where-IsSpent :
      (test : TokenRow → Bool) (at : Time) (rows : List TokenRow)
      → IsSpent now hash rows
      → IsSpent now hash (revoke_where test at rows)
  unfolding revoke_where revoke_at is_usable
  revoke_where-IsSpent test at [] s = tt
  revoke_where-IsSpent test at (r ∷ rs) s = (ground arith, revoke_where-IsSpent test at rs s.1)

  pub delete_expired-IsSpent :
      (at : Time) (rows : List TokenRow)
      → IsSpent now hash rows
      → IsSpent now hash (delete_expired at rows)
  unfolding delete_expired
  delete_expired-IsSpent at [] s = tt
  delete_expired-IsSpent at (r ∷ rs) s = ground (arith, delete_expired-IsSpent at rs s.1)

  -- A new token with another hash does not bring it back.
  pub store-IsSpent :
      (down : Bool) (user : ℕ) (other : Bytes) (expires : Time) (rows rows' : List TokenRow)
      → text_eq other hash ≡ false
      → store_refresh_token down user other expires rows ≡ ok rows'
      → IsSpent now hash rows
      → IsSpent now hash rows'
  unfolding store_refresh_token is_usable
  store-IsSpent down user other expires rows rows' differs stored s = ground arith

  -- The update of `ConsumeRefreshToken` spends the token.
  pub revoke_where-spends :
      (rows : List TokenRow) → IsSpent now hash (revoke_where (is_usable now hash) now rows)
  unfolding revoke_where revoke_at is_usable
  revoke_where-spends [] = tt
  revoke_where-spends (r ∷ rs) = (ground arith, revoke_where-spends rs)

  first_user-none :
      (rows : List TokenRow) → IsSpent now hash rows → first_user (is_usable now hash) rows ≡ none
  unfolding first_user
  first_user-none [] s = refl
  first_user-none (r ∷ rs) s = ground (arith, first_user-none rs s.1)

  -- The table that a successful consumption leaves.
  pub consume-IsSpent :
      (down : Bool) (rows rows' : List TokenRow) (user : ℕ)
      → consume_refresh_token down now hash rows ≡ ok (user, rows')
      → IsSpent now hash rows'
  unfolding consume_refresh_token
  consume-IsSpent true rows rows' user h = cc
  consume-IsSpent false rows rows' user h = go (first_user (is_usable now hash) rows) h
    where
      go :
          (o : Option ℕ)
          → or_not_found (revoke_where (is_usable now hash) now rows) o ≡ ok (user, rows')
          → IsSpent now hash rows'
      go none e = cc
      go (some u) e =
          let same : revoke_where (is_usable now hash) now rows ≡ rows' = cc in
          subst (IsSpent now hash) same (revoke_where-spends rows)

  -- Whatever token is consumed, a spent one stays spent.
  pub consume_any-IsSpent :
      (down : Bool) (at : Time) (other : Bytes) (rows rows' : List TokenRow) (user : ℕ)
      → consume_refresh_token down at other rows ≡ ok (user, rows')
      → IsSpent now hash rows
      → IsSpent now hash rows'
  unfolding consume_refresh_token
  consume_any-IsSpent true at other rows rows' user h spent = cc
  consume_any-IsSpent false at other rows rows' user h spent =
      go (first_user (is_usable at other) rows) h
    where
      go :
          (o : Option ℕ)
          → or_not_found (revoke_where (is_usable at other) at rows) o ≡ ok (user, rows')
          → IsSpent now hash rows'
      go none e = cc
      go (some u) e =
          let same : revoke_where (is_usable at other) at rows ≡ rows' = cc in
          subst (IsSpent now hash) same (revoke_where-IsSpent (is_usable at other) at rows spent)

  -- A spent token is not consumed.
  pub consume-refused :
      (down : Bool) (rows rows' : List TokenRow) (user : ℕ)
      → IsSpent now hash rows
      → consume_refresh_token down now hash rows ≡ ok (user, rows')
      → ⊥
  unfolding consume_refresh_token
  consume-refused down rows rows' user s h = ground (arith, first_user-none rows s)
