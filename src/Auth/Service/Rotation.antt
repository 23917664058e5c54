-- ===== src/Auth/Service/Rotation.antt =====
-- service.go: a refresh token is exchanged once.
use farbo_rastreamento.Prelude.{
  ℕ, ◌+◌, ◌≤◌, ◌≡◌, refl, sym, ap, ◌∙◌, subst, Bool, true, false, not, Option, none, some, List, [],
  ◌∷◌, if◌then◌else◌, Result, ok, err, All, Bool-cases, inl, inr,
}
use farbo_rastreamento.Prelude.Words.{Bytes}
use farbo_rastreamento.Prelude.Maps.{text_eq}
use farbo_rastreamento.Protocols.Calendar.{Time}
use farbo_rastreamento.Protocols.Text.{trim_space, is_empty}
use farbo_rastreamento.Auth.Users.{User, get_by_email, get_by_id}
use farbo_rastreamento.Auth.Tokens.{
  TokenRow, TokenError, not_found, conflict, unavailable, store_refresh_token,
  consume_refresh_token, is_unrevoked, revoke_refresh_token, delete_expired_refresh_tokens,
}
use farbo_rastreamento.Auth.Tokens.Spent.{
  IsSpent, IsSpent-later, revoke_where-IsSpent, delete_expired-IsSpent, store-IsSpent,
  consume-IsSpent, consume_any-IsSpent, consume-refused,
}
use farbo_rastreamento.Auth.Service.{
  AuthEnv, AuthState, TokenPair, Answer, read_user, consume, store, revoke, cleanup, issued_with,
  issue_signed, issue, login_as, login, refresh_as, refresh_with, refresh, logout,
  cleanup_expired_tokens,
}

-- The calls that change the tokens.
pub data Call : Type 0 where
  logs_in : Bytes → Bytes → Call
  refreshes : Bytes → Call
  logs_out : Bytes → Call
  cleans : Call

pub after_call : AuthEnv → Call → AuthState → AuthState
after_call env (logs_in email password) s = (login env email password s).0
after_call env (refreshes token) s = (refresh env token s).0
after_call env (logs_out token) s = logout env token s
after_call env cleans s = cleanup_expired_tokens env s

pub after_calls : List (AuthEnv × Call) → AuthState → AuthState
unfolding after_call
after_calls [] s = s
after_calls ((env, c) ∷ calls) s = after_calls calls (after_call env c s)

-- The clock of a later call, and a new token whose hash is another one.
pub record IsAfter (now : Time) (hash : Bytes) (env : AuthEnv) : Type 0 where
  pub later : now ≤ env.now
  pub fresh :
      (token : Bytes) → env.random_token ≡ some token → text_eq (env.hash_token token) hash ≡ false

module _ (now : Time) (hash : Bytes) (env : AuthEnv) (after : IsAfter now hash env) where
  -- Each part of a call keeps the token spent.
  issued_with-IsSpent :
      (s : AuthState) (u : User) (access token : Bytes) (expires : Time)
      (r : Result TokenError (List TokenRow))
      → env.random_token ≡ some token
      → store_refresh_token (env.is_down store) u.id (env.hash_token token) expires s.tokens ≡ r
      → IsSpent now hash s.tokens
      → IsSpent now hash (issued_with env s u access token r).0.tokens
  unfolding issued_with
  issued_with-IsSpent s u access token expires (err e) drawn h spent = spent
  issued_with-IsSpent s u access token expires (ok rows) drawn h spent =
      store-IsSpent now hash (env.is_down store) u.id (env.hash_token token) expires s.tokens rows
        (after.fresh token drawn) h spent

  issue_signed-IsSpent :
      (s : AuthState) (u : User) (access token : Option Bytes)
      → env.random_token ≡ token
      → IsSpent now hash s.tokens
      → IsSpent now hash (issue_signed env s u access token).0.tokens
  unfolding issue_signed
  issue_signed-IsSpent s u none token drawn spent = spent
  issue_signed-IsSpent s u (some access) none drawn spent = spent
  issue_signed-IsSpent s u (some access) (some token) drawn spent =
      issued_with-IsSpent s u access token (env.now + env.refresh_ttl) _ drawn refl spent

  issue-IsSpent :
      (s : AuthState) (u : User)
      → IsSpent now hash s.tokens
      → IsSpent now hash (issue env s u).0.tokens
  unfolding issue
  issue-IsSpent s u spent = issue_signed-IsSpent s u _ env.random_token refl spent

  -- On both branches of a test.
  either-IsSpent :
      (b : Bool) (x y : Answer)
      → IsSpent now hash x.0.tokens
      → IsSpent now hash y.0.tokens
      → IsSpent now hash (if b then x else y).0.tokens
  either-IsSpent true x y hx hy = hx
  either-IsSpent false x y hx hy = hy

  login-IsSpent :
      (email password : Bytes) (s : AuthState)
      → IsSpent now hash s.tokens
      → IsSpent now hash (login env email password s).0.tokens
  unfolding login login_as
  login-IsSpent email password s spent =
      either-IsSpent (env.is_down read_user) _ _ spent (as_user (get_by_email email s.users))
    where
      as_user : (o : Option User) → IsSpent now hash (login_as env s password o).0.tokens
      as_user none = spent
      as_user (some u) = either-IsSpent (not u.active) _ _ spent (
          either-IsSpent (not (env.password_matches u.password_hash password)) _ _ spent
            (issue-IsSpent s u spent))

  refresh_as-IsSpent :
      (s : AuthState) (o : Option User)
      → IsSpent now hash s.tokens
      → IsSpent now hash (refresh_as env s o).0.tokens
  unfolding refresh_as
  refresh_as-IsSpent s none spent = spent
  refresh_as-IsSpent s (some u) spent =
      either-IsSpent (not u.active) _ _ spent (issue-IsSpent s u spent)

  -- `r` is what the consumption has answered.
  refresh_with-IsSpent :
      (s : AuthState) (r : Result TokenError (ℕ × List TokenRow))
      → IsSpent now hash s.tokens
      → ((user : ℕ) (rows : List TokenRow) → r ≡ ok (user, rows) → IsSpent now hash rows)
      → IsSpent now hash (refresh_with env s r).0.tokens
  unfolding refresh_with
  refresh_with-IsSpent s (err not_found) spent kept = spent
  refresh_with-IsSpent s (err conflict) spent kept = spent
  refresh_with-IsSpent s (err unavailable) spent kept = spent
  refresh_with-IsSpent s (ok (user, rows)) spent kept =
      refresh_as-IsSpent (record s { tokens = rows }) _ (kept user rows refl)

  after_call-IsSpent :
      (c : Call) (s : AuthState)
      → IsSpent now hash s.tokens
      → IsSpent now hash (after_call env c s).tokens
  unfolding after_call refresh logout cleanup_expired_tokens revoke_refresh_token
      delete_expired_refresh_tokens
  after_call-IsSpent (logs_in email password) s spent = login-IsSpent email password s spent
  after_call-IsSpent (refreshes token) s spent = refresh_with-IsSpent s _ spent (λ user rows e.
      consume_any-IsSpent now hash (env.is_down consume) env.now (env.hash_token token) s.tokens
        rows user e spent)
  after_call-IsSpent (logs_out token) s spent = elim (Bool-cases (is_empty (trim_space token))) [
    | inl blank ↦ rw blank spent
    | inr given ↦ rw given (elim (Bool-cases (env.is_down revoke)) [
      | inl down ↦ rw down spent
      | inr up ↦ rw up (
          revoke_where-IsSpent now hash (is_unrevoked (env.hash_token token)) env.now s.tokens
            spent)
    ])
  ]
  after_call-IsSpent cleans s spent = elim (Bool-cases (env.is_down cleanup)) [
    | inl down ↦ rw down spent
    | inr up ↦ rw up (delete_expired-IsSpent now hash env.now s.tokens spent)
  ]

after_calls-IsSpent :
    (now : Time) (hash : Bytes) (calls : List (AuthEnv × Call)) (s : AuthState)
    → All (λ c. IsAfter now hash c.0) calls
    → IsSpent now hash s.tokens
    → IsSpent now hash (after_calls calls s).tokens
unfolding after_calls
after_calls-IsSpent now hash [] s after spent = spent
after_calls-IsSpent now hash ((env, c) ∷ calls) s after spent =
    after_calls-IsSpent now hash calls (after_call env c s) after.1
      (after_call-IsSpent now hash env after.0 c s spent)

-- What a refresh that gave a pair has consumed.
refresh_with-ok :
    (env : AuthEnv) (s s' : AuthState) (r : Result TokenError (ℕ × List TokenRow))
    (pair : TokenPair)
    → refresh_with env s r ≡ (s', ok pair)
    → (user : ℕ) × (rows : List TokenRow) × (r ≡ ok (user, rows))
unfolding refresh_with
refresh_with-ok env s s' (err not_found) pair h = cc
refresh_with-ok env s s' (err conflict) pair h = cc
refresh_with-ok env s s' (err unavailable) pair h = cc
refresh_with-ok env s s' (ok (user, rows)) pair h = (user, rows, refl)

-- After a refresh token has been exchanged for a pair, no later call exchanges it again: whatever
-- logins, refreshes, logouts and cleanups follow, whatever fails in them, as long as the clock does
-- not go back and no token that is drawn has the same hash.
pub refresh-once :
    (env later : AuthEnv) (token : Bytes) (s s' s'' : AuthState) (pair pair' : TokenPair)
    (calls : List (AuthEnv × Call))
    → refresh env token s ≡ (s', ok pair)
    → IsAfter env.now (env.hash_token token) env
    → All (λ c. IsAfter env.now (env.hash_token token) c.0) calls
    → env.now ≤ later.now
    → later.hash_token token ≡ env.hash_token token
    → ¬ (refresh later token (after_calls calls s') ≡ (s'', ok pair'))
unfolding refresh refresh_with
refresh-once env later token s s' s'' pair pair' calls first own after clock same again =
    let hash = env.hash_token token in
    let (user, rows, used) = refresh_with-ok env s s' _ pair first in
    let spent = consume-IsSpent env.now hash (env.is_down consume) s.tokens rows user used in
    let left : IsSpent env.now hash s'.tokens =
      subst (λ (a : Answer). IsSpent env.now hash a.0.tokens)
        (ap (refresh_with env s) (sym used) ∙ first)
        (refresh_as-IsSpent env.now hash env own (record s { tokens = rows })
          (if env.is_down read_user then none else get_by_id user s.users) spent) in
    let kept = after_calls-IsSpent env.now hash calls s' after left in
    let (user', rows', used') = refresh_with-ok later (after_calls calls s') s'' _ pair' again in
    consume-refused later.now hash (later.is_down consume) (after_calls calls s').tokens rows' user'
      (IsSpent-later env.now hash later.now _ clock kept)
      (ap
          (λ h.
            consume_refresh_token (later.is_down consume) later.now h (after_calls calls s').tokens)
          (sym same)
        ∙ used')
