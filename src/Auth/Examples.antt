-- ===== src/Auth/Examples.antt =====
-- The rotation of a refresh token, at one user.
use farbo_rastreamento.Prelude.{
  ℕ, ◌≤◌, ◌≡◌, refl, arith, true, false, none, some, List, [], ◌∷◌, ok, err,
}
use farbo_rastreamento.Prelude.Words.{Bytes}
use farbo_rastreamento.Prelude.Maps.{text_eq}
use farbo_rastreamento.Protocols.Text.{codes, trim_space}
use farbo_rastreamento.Auth.Users.{
  User, get_by_email, get_by_id, role_operator, role_viewer, Principal, can_send_commands,
  can_manage, require_role, forbidden,
}
use farbo_rastreamento.Auth.Tokens.{store_refresh_token, consume_refresh_token}
use farbo_rastreamento.Auth.Service.{AuthEnv, AuthState, TokenPair, Answer, refresh, login}
use farbo_rastreamento.Auth.Service.Rotation.{
  Call, logs_in, refreshes, after_calls, IsAfter, refresh-once,
}

abbrev operator : User
operator = record {
  id = 1;
  email = codes "Ana@farbo.com";
  name = codes "Ana";
  role = role_operator;
  password_hash = codes "x";
  active = true;
}

abbrev first_token : Bytes
first_token = codes "A"

-- A database that works, an hour of access, and a hash that changes nothing.
abbrev at_time : ℕ → Bytes → AuthEnv
at_time now drawn = record {
  now = now;
  access_ttl = 3600;
  refresh_ttl = 86400;
  password_matches = λ hash password. true;
  hash_token = λ token. token;
  sign = λ claims. some (codes "jwt");
  random_token = some drawn;
  is_down = λ statement. false;
}

abbrev logged_in : AuthState
logged_in = record {
  users = operator ∷ [];
  tokens =
      record { user_id = 1; token_hash = first_token; expires_at = 1000; revoked_at = none } ∷ [];
}

abbrev pair_or : Answer → TokenPair
pair_or (s, ok pair) = pair
pair_or (s, err e) = record {
  access_token = [];
  refresh_token = [];
  expires_at = 0;
  user = operator;
}

abbrev exchanged : Answer
exchanged = refresh (at_time 100 (codes "B")) first_token logged_in

exchanged_ok :
    refresh (at_time 100 (codes "B")) first_token logged_in ≡ (exchanged.0, ok (pair_or exchanged))
unfolding refresh consume_refresh_token get_by_id store_refresh_token
exchanged_ok = refl

drawn-IsAfter :
    (now : ℕ) (drawn : Bytes)
    → 100 ≤ now
    → text_eq drawn first_token ≡ false
    → IsAfter 100 first_token (at_time now drawn)
drawn-IsAfter now drawn later differs = record { later = later; fresh = λ token e. ground arith }

abbrev later_calls : List (AuthEnv × Call)
later_calls =
    (at_time 150 (codes "C"), logs_in (codes "ana@farbo.com") (codes "secret"))
    ∷ (at_time 160 (codes "D"), refreshes (codes "C"))
    ∷ []

refresh-once_example : ¬ (
    refresh (at_time 200 (codes "E")) first_token (after_calls later_calls exchanged.0)
    ≡ (exchanged.0, ok (pair_or exchanged)))
unfolding text_eq
refresh-once_example =
    refresh-once (at_time 100 (codes "B")) (at_time 200 (codes "E")) first_token logged_in
      exchanged.0 exchanged.0 (pair_or exchanged) (pair_or exchanged) later_calls exchanged_ok
      (drawn-IsAfter 100 (codes "B") (omega arith) refl)
      (
        drawn-IsAfter 150 (codes "C") (omega arith) refl,
        (drawn-IsAfter 160 (codes "D") (omega arith) refl, tt),
      )
      (omega arith) refl

abbrev viewer : Principal
viewer = record { user_id = 2; email = []; role = role_viewer }

viewer_barred :
    (can_send_commands viewer ≡ false)
    × (can_manage viewer ≡ false)
    × (require_role (role_operator ∷ []) (some viewer) ≡ forbidden)
unfolding can_send_commands can_manage require_role
viewer_barred = (refl, refl, refl)

logged_by_any_case :
    (login (at_time 0 (codes "B")) (codes " ana@FARBO.com") [] logged_in).1
    ≡ ok (record {
      access_token = codes "jwt";
      refresh_token = codes "B";
      expires_at = 3600;
      user = operator;
    })
unfolding login trim_space get_by_email store_refresh_token
logged_by_any_case = refl
