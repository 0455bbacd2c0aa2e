-- ===== src/Auth.antt =====
-- Authentication: internal/auth/middleware.go and internal/auth/session.go. The cookie of a request is
-- taken after the session library has checked its signature: its values are those that the server wrote,
-- or none. A handler is a parameter; the middleware runs it or answers 401.
pub mod Access
mod Tests
use container_census.Base.{
  ℕ, ◌≡◌, Bool, true, false, not, ◌&&◌, ◌||◌, Option, none, some, Text, text_eq, codes, ◌==◌,
  if◌then◌else◌,
}

pub record Config : Type 0 where
  pub enabled : Bool
  pub username : Text
  pub password : Text

-- The session's value "authenticated", and the options that its cookie is saved with.
pub record Session : Type 0 where
  pub authenticated : Option Bool
  pub max_age : ℕ
  pub is_deleted : Bool

-- The parts of a request that decide on access: its session, and the user and password of BasicAuth.
pub record Request : Type 0 where
  pub session : Session
  pub basic_auth : Option (Text × Text)

-- What is answered: the handler's response, or 401 with or without a challenge.
pub data Answer (R : Type 0) : Type 0 where
  served : R → Answer R
  challenged : Answer R
  unauthorized : Answer R

-- ConstantTimeCompare gives 1 for equal contents.
pub validate_credentials : Text → Text → Text → Text → Bool
validate_credentials provided_user provided_pass valid_user valid_pass =
    provided_user == valid_user && provided_pass == valid_pass

-- `ok && validateCredentials(...)`.
pub has_credentials : Config → Option (Text × Text) → Bool
unfolding validate_credentials
has_credentials config none = false
has_credentials config (some (user, pass)) =
    validate_credentials user pass config.username config.password

-- `auth, ok := session.Values["authenticated"].(bool); ok && auth`.
abbrev pub is_authenticated : Session → Bool
is_authenticated session = elim session.authenticated [ none ↦ false | some auth ↦ auth ]

-- The session that the store gives for a request without a valid cookie.
abbrev pub new_session : Session
new_session = record { authenticated = none; max_age = 604800; is_deleted = false }

pub create_session : Session → Session
create_session session = record session { authenticated = some true }

pub destroy_session : Session → Session
destroy_session session = record session { authenticated = some false; is_deleted = true }

module _ {R : Type 0} where
  pub basic_auth_middleware : Config → (Request → R) → Request → Answer R
  unfolding has_credentials
  basic_auth_middleware config next r =
      if not config.enabled
      then served (next r)
      else if not (has_credentials config r.basic_auth)
      then challenged
      else served (next r)

  pub session_middleware : Config → (Request → R) → Request → Answer R
  unfolding has_credentials
  session_middleware config next r =
      if not config.enabled
      then served (next r)
      else if is_authenticated r.session
      then served (next r)
      else if has_credentials config r.basic_auth
      then served (next r)
      else unauthorized
