-- ===== src/Auth/Tokens.antt =====
-- user.go: the statements on the table of refresh tokens, which keeps their hashes only. The hash is
-- unique in the table.
pub mod Spent
use farbo_rastreamento.Prelude.{
  ℕ, ◌+◌, ◌*◌, Bool, true, false, not, ◌&&◌, ◌||◌, Option, none, some, List, [], ◌∷◌, ltb, ◌==◌,
  if◌then◌else◌, Result, ok, err,
}
use farbo_rastreamento.Prelude.Words.{Bytes}
use farbo_rastreamento.Prelude.Maps.{text_eq}
use farbo_rastreamento.Protocols.Calendar.{Time}

pub record TokenRow : Type 0 where
  pub user_id : ℕ
  pub token_hash : Bytes
  pub expires_at : Time
  pub revoked_at : Option Time

pub data TokenError : Type 0 where
  not_found conflict unavailable : TokenError

abbrev is_live : Option Time → Bool
is_live none = true
is_live (some _) = false

unfoldable pub has_hash : Bytes → List TokenRow → Bool
unfolding text_eq
has_hash h [] = false
has_hash h (r ∷ rs) = text_eq r.token_hash h || has_hash h rs

-- `StoreRefreshToken`; `down` is the failure of the database, here and below.
unfoldable pub store_refresh_token :
    Bool → ℕ → Bytes → Time → List TokenRow → Result TokenError (List TokenRow)
unfolding has_hash
store_refresh_token down user hash expires rows =
    if down
    then err unavailable
    else if has_hash hash rows
    then err conflict
    else ok (
        record { user_id = user; token_hash = hash; expires_at = expires; revoked_at = none }
        ∷ rows)

-- The condition of `ConsumeRefreshToken`, and the change of the rows that meet it.
unfoldable pub is_usable : Time → Bytes → TokenRow → Bool
unfolding text_eq
is_usable now hash r = text_eq r.token_hash hash && (is_live r.revoked_at && ltb now r.expires_at)

unfoldable pub revoke_at : Time → TokenRow → TokenRow
revoke_at now r = record r { revoked_at = some now }

unfoldable pub revoke_where : (TokenRow → Bool) → Time → List TokenRow → List TokenRow
unfolding revoke_at
revoke_where test now [] = []
revoke_where test now (r ∷ rs) = (if test r then revoke_at now r else r) ∷ revoke_where test now rs

unfoldable pub first_user : (TokenRow → Bool) → List TokenRow → Option ℕ
first_user test [] = none
first_user test (r ∷ rs) = if test r then some r.user_id else first_user test rs

abbrev or_not_found : List TokenRow → Option ℕ → Result TokenError (ℕ × List TokenRow)
or_not_found rows none = err not_found
or_not_found rows (some user) = ok (user, rows)

-- One statement revokes the token and gives its user.
unfoldable pub consume_refresh_token :
    Bool → Time → Bytes → List TokenRow → Result TokenError (ℕ × List TokenRow)
unfolding is_usable revoke_where first_user
consume_refresh_token down now hash rows =
    if down
    then err unavailable
    else or_not_found (revoke_where (is_usable now hash) now rows)
        (first_user (is_usable now hash) rows)

-- The condition of `RevokeRefreshToken`, and of `RevokeAllForUser`.
unfoldable pub is_unrevoked : Bytes → TokenRow → Bool
unfolding text_eq
is_unrevoked hash r = text_eq r.token_hash hash && is_live r.revoked_at

unfoldable pub revoke_refresh_token : Bool → Time → Bytes → List TokenRow → List TokenRow
unfolding is_unrevoked revoke_where
revoke_refresh_token down now hash rows =
    if down then rows else revoke_where (is_unrevoked hash) now rows

unfoldable pub revoke_all_for_user : Bool → Time → ℕ → List TokenRow → List TokenRow
unfolding revoke_where
revoke_all_for_user down now user rows =
    if down then rows else revoke_where (λ r. r.user_id == user && is_live r.revoked_at) now rows

abbrev thirty_days : Time
thirty_days = 30 * 86400

-- The deletion of what has been expired for 30 days.
unfoldable pub delete_expired : Time → List TokenRow → List TokenRow
delete_expired now [] = []
delete_expired now (r ∷ rs) =
    if ltb (r.expires_at + thirty_days) now
    then delete_expired now rs
    else r ∷ delete_expired now rs

unfoldable pub delete_expired_refresh_tokens : Bool → Time → List TokenRow → List TokenRow
unfolding delete_expired
delete_expired_refresh_tokens down now rows = if down then rows else delete_expired now rows
