-- ===== src/Auth/Users.antt =====
-- user.go and middleware.go: users, their roles, and what a role permits.
use farbo_rastreamento.Prelude.{
  ℕ, Bool, true, false, ◌||◌, Option, none, some, List, [], ◌∷◌, map, ◌==◌, if◌then◌else◌,
}
use farbo_rastreamento.Prelude.Words.{Bytes}
use farbo_rastreamento.Prelude.Maps.{text_eq}
use farbo_rastreamento.Protocols.Text.{to_lower, codes, trim_space}

abbrev pub role_admin : Bytes
role_admin = codes "admin"

abbrev pub role_operator : Bytes
role_operator = codes "operator"

abbrev pub role_viewer : Bytes
role_viewer = codes "viewer"

unfoldable pub valid_role : Bytes → Bool
unfolding text_eq
valid_role role = text_eq role role_admin || text_eq role role_operator || text_eq role role_viewer

pub record User : Type 0 where
  pub id : ℕ
  pub email : Bytes
  pub name : Bytes
  pub role : Bytes
  pub password_hash : Bytes
  pub active : Bool

-- `lower(email) = lower($1)`, for the trimmed argument.
unfoldable pub get_by_email : Bytes → List User → Option User
unfolding text_eq to_lower trim_space
get_by_email email [] = none
get_by_email email (u ∷ us) =
    if text_eq (map to_lower u.email) (map to_lower (trim_space email))
    then some u
    else get_by_email email us

unfoldable pub get_by_id : ℕ → List User → Option User
get_by_id id [] = none
get_by_id id (u ∷ us) = if u.id == id then some u else get_by_id id us

-- The authenticated user of a request.
pub record Principal : Type 0 where
  pub user_id : ℕ
  pub email : Bytes
  pub role : Bytes

-- `Is`: one of the roles.
unfoldable pub has_role : Principal → List Bytes → Bool
unfolding text_eq
has_role p [] = false
has_role p (r ∷ rs) = if text_eq p.role r then true else has_role p rs

unfoldable pub can_send_commands : Principal → Bool
unfolding has_role
can_send_commands p = has_role p (role_admin ∷ role_operator ∷ [])

unfoldable pub can_manage : Principal → Bool
unfolding has_role
can_manage p = has_role p (role_admin ∷ [])

-- What a guarded route answers.
pub data Access : Type 0 where
  unauthorized forbidden granted : Access

-- `RequireRole`, on the principal of the context.
unfoldable pub require_role : List Bytes → Option Principal → Access
unfolding has_role
require_role roles none = unauthorized
require_role roles (some p) = if has_role p roles then granted else forbidden
