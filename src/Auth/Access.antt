-- ===== src/Auth/Access.antt =====
-- Which requests the middlewares of internal/auth let through.
use container_census.Base.{
  ◌≡◌, ◌≢◌, ◌↔◌, ◌⊎◌, inl, inr, true, false, Option, none, some, Text, text_eq, text_beq_iff, arith,
  Bool-cases,
}
use container_census.Auth.{
  Config, Request, served, unauthorized, validate_credentials, has_credentials, is_authenticated,
  create_session, destroy_session, basic_auth_middleware, session_middleware,
}

has_credentials_iff :
    (config : Config) (o : Option (Text × Text))
    → (has_credentials config o ≡ true) ↔ (o ≡ some (config.username, config.password))
unfolding has_credentials validate_credentials
has_credentials_iff config none = (λ h. absurd (ground (arith, h)), λ h. absurd (ground (arith, h)))
has_credentials_iff config (some (user, pass)) = (
  λ h. ground (arith, h, text_beq_iff user config.username, text_beq_iff pass config.password),
  λ h. ground (arith, h, text_beq_iff user config.username, text_beq_iff pass config.password),
)

module _ {R : Type 0} (config : Config) (next : Request → R) (r : Request) where
  -- A request reaches the handler exactly if authentication is off, or its session is authenticated, or
  -- it carries the configured user and password; every other request is answered with 401. The older
  -- middleware lets exactly those through that need no session.
  pub session_middleware_iff :
      ((session_middleware config next r ≡ served (next r))
        ↔ (config.enabled ≡ false)
          ⊎ (r.session.authenticated ≡ some true)
          ⊎ (r.basic_auth ≡ some (config.username, config.password)))
      × ((session_middleware config next r ≡ served (next r))
          ⊎ (session_middleware config next r ≡ unauthorized))
      × ((basic_auth_middleware config next r ≡ served (next r))
          ↔ (config.enabled ≡ false) ⊎ (r.basic_auth ≡ some (config.username, config.password)))
  unfolding session_middleware basic_auth_middleware
  session_middleware_iff =
      let (to, from) = has_credentials_iff config r.basic_auth in
      (
        (
          λ h. elim (Bool-cases config.enabled) [
            | inr off ↦ inl off
            | inl on ↦ elim (Bool-cases (is_authenticated r.session)) [
              | inl known ↦ inr (inl (ground (arith, known)))
              | inr stranger ↦ inr (inr (to (ground (arith, h, on, stranger))))
            ]
          ],
          λ h. elim h [
            | inl off ↦ ground (arith, off)
            | inr (inl known) ↦ ground (arith, known)
            | inr (inr sent) ↦ ground (arith, from sent)
          ],
        ),
        ground arith,
        (
          λ h. elim (Bool-cases config.enabled) [
            | inr off ↦ inl off
            | inl on ↦ inr (to (ground (arith, h, on)))
          ],
          λ h. elim h [ inl off ↦ ground (arith, off) | inr sent ↦ ground (arith, from sent) ],
        ),
      )

  -- A login opens the handler to the browser and a logout closes it to all that carry no credentials.
  pub sessions_lem :
      (session_middleware config next (record r { session = create_session r.session })
        ≡ served (next (record r { session = create_session r.session })))
      × (config.enabled ≡ true
          → r.basic_auth ≢ some (config.username, config.password)
          → session_middleware config next (record r { session = destroy_session r.session })
            ≡ unauthorized)
  unfolding session_middleware create_session destroy_session
  sessions_lem = (
    ground arith,
    λ on other. elim (Bool-cases (has_credentials config r.basic_auth)) [
      | inl valid ↦ absurd (other ((has_credentials_iff config r.basic_auth).0 valid))
      | inr invalid ↦ ground (arith, on, invalid)
    ],
  )
