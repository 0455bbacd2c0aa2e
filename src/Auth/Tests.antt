-- ===== src/Auth/Tests.antt =====
-- Witnesses and test data for authentication.
use container_census.Base.{ℕ, ◌≡◌, ◌↔◌, ◌⊎◌, true, false, some, codes}
use container_census.Auth.{
  Config, Request, served, unauthorized, new_session, basic_auth_middleware, session_middleware,
}
use container_census.Auth.Access.{session_middleware_iff}

abbrev config : Config
config = record { enabled = true; username = codes "admin"; password = codes "secret" }

abbrev guess : Request
guess = record { session = new_session; basic_auth = some (codes "admin", codes "1234") }

abbrev page : Request → ℕ
page r = 200

session_middleware_iff_example :
    ((session_middleware config page guess ≡ served 200)
      ↔ (true ≡ false)
        ⊎ (guess.session.authenticated ≡ some true)
        ⊎ (guess.basic_auth ≡ some (config.username, config.password)))
    × ((session_middleware config page guess ≡ served 200)
        ⊎ (session_middleware config page guess ≡ unauthorized))
    × ((basic_auth_middleware config page guess ≡ served 200)
        ↔ (true ≡ false) ⊎ (guess.basic_auth ≡ some (config.username, config.password)))
session_middleware_iff_example = session_middleware_iff config page guess
