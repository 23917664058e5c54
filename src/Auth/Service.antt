-- ===== src/Auth/Service.antt =====
-- service.go: login, rotation and logout. The hashes of bcrypt and SHA-256, the signature of the
-- access token and the random source are arguments; the clock stands still within a call.
pub mod Rotation
use farbo_rastreamento.Prelude.{
  ℕ, ◌+◌, Bool, true, false, not, Option, none, some, List, [], ◌∷◌, if◌then◌else◌, Result, ok, err,
}
use farbo_rastreamento.Prelude.Words.{Bytes}
use farbo_rastreamento.Protocols.Calendar.{Time}
use farbo_rastreamento.Protocols.Text.{trim_space, is_empty}
use farbo_rastreamento.Auth.Users.{User, get_by_email, get_by_id}
use farbo_rastreamento.Auth.Tokens.{
  TokenRow, TokenError, not_found, conflict, unavailable, store_refresh_token,
  consume_refresh_token, revoke_refresh_token, delete_expired_refresh_tokens,
}

pub data AuthError : Type 0 where
  invalid_credentials invalid_token inactive_user : AuthError
  unsigned no_random : AuthError
  database : TokenError → AuthError

pub record Claims : Type 0 where
  pub subject : ℕ
  pub role : Bytes
  pub email : Bytes
  pub expires_at : Time

pub record TokenPair : Type 0 where
  pub access_token : Bytes
  pub refresh_token : Bytes
  pub expires_at : Time
  pub user : User

-- The calls of the service on the database that can fail.
pub data AuthStatement : Type 0 where
  read_user consume store revoke cleanup : AuthStatement

pub record AuthEnv : Type 0 where
  pub now : Time
  pub access_ttl : Time
  pub refresh_ttl : Time
  -- `bcrypt.CompareHashAndPassword` gives no error.
  pub password_matches : Bytes → Bytes → Bool
  pub hash_token : Bytes → Bytes
  pub sign : Claims → Option Bytes
  -- `newOpaqueToken`.
  pub random_token : Option Bytes
  pub is_down : AuthStatement → Bool

pub record AuthState : Type 0 where
  pub users : List User
  pub tokens : List TokenRow

abbrev pub Answer : Type 0
Answer = AuthState × Result AuthError TokenPair

module _ (env : AuthEnv) where
  claims_for : User → Claims
  claims_for u = record {
    subject = u.id;
    role = u.role;
    email = u.email;
    expires_at = env.now + env.access_ttl;
  }

  -- The last part of `issue`: the store of the new token.
  unfoldable pub issued_with :
      AuthState → User → Bytes → Bytes → Result TokenError (List TokenRow) → Answer
  issued_with s u access token (err e) = (s, err (database e))
  issued_with s u access token (ok rows) = (
    record s { tokens = rows },
    ok (record {
      access_token = access;
      refresh_token = token;
      expires_at = env.now + env.access_ttl;
      user = u;
    }),
  )

  unfoldable pub issue_signed : AuthState → User → Option Bytes → Option Bytes → Answer
  unfolding issued_with
  issue_signed s u none _ = (s, err unsigned)
  issue_signed s u (some access) none = (s, err no_random)
  issue_signed s u (some access) (some token) = issued_with s u access token (
      store_refresh_token (env.is_down store) u.id (env.hash_token token)
        (env.now + env.refresh_ttl) s.tokens)

  unfoldable pub issue : AuthState → User → Answer
  unfolding issue_signed claims_for
  issue s u = issue_signed s u (env.sign (claims_for u)) env.random_token

  -- The checks of `Login`, on the user that the e-mail finds.
  unfoldable pub login_as : AuthState → Bytes → Option User → Answer
  unfolding issue
  login_as s password none = (s, err invalid_credentials)
  login_as s password (some u) =
      if not u.active
      then (s, err inactive_user)
      else if not (env.password_matches u.password_hash password)
      then (s, err invalid_credentials)
      else issue s u

  unfoldable pub login : Bytes → Bytes → AuthState → Answer
  unfolding login_as
  login email password s =
      if env.is_down read_user
      then (s, err (database unavailable))
      else login_as s password (get_by_email email s.users)

  -- The rest of `Refresh`, on the user of the consumed token; any failure to read it is an invalid
  -- token.
  unfoldable pub refresh_as : AuthState → Option User → Answer
  unfolding issue
  refresh_as s none = (s, err invalid_token)
  refresh_as s (some u) = if not u.active then (s, err inactive_user) else issue s u

  unfoldable pub refresh_with : AuthState → Result TokenError (ℕ × List TokenRow) → Answer
  unfolding refresh_as
  refresh_with s (err not_found) = (s, err invalid_token)
  refresh_with s (err conflict) = (s, err (database conflict))
  refresh_with s (err unavailable) = (s, err (database unavailable))
  refresh_with s (ok (user, rows)) =
      refresh_as (record s { tokens = rows })
        (if env.is_down read_user then none else get_by_id user s.users)

  unfoldable pub refresh : Bytes → AuthState → Answer
  unfolding refresh_with
  refresh token s =
      refresh_with s
        (consume_refresh_token (env.is_down consume) env.now (env.hash_token token) s.tokens)

  unfoldable pub logout : Bytes → AuthState → AuthState
  logout token s = if is_empty (trim_space token) then s else record s {
    tokens = revoke_refresh_token (env.is_down revoke) env.now (env.hash_token token) s.tokens;
  }

  unfoldable pub cleanup_expired_tokens : AuthState → AuthState
  cleanup_expired_tokens s = record s {
    tokens = delete_expired_refresh_tokens (env.is_down cleanup) env.now s.tokens;
  }
