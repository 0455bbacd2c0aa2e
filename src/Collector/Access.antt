-- ===== src/Collector/Access.antt =====
-- apiKeyMiddleware of cmd/telemetry-collector/main.go: who reads the statistics.
use container_census.Base.{
  ◌≡◌, ◌≢◌, ◌↔◌, ◌⊎◌, inl, inr, refl, sym, ◌∙◌, false, ◌&&◌, [], ◌∷◌, ◌++◌, Text, text_eq,
  text_beq_iff, text_beq, codes, is_empty, ◌==◌, if◌then◌else◌, ltb, length, take, drop,
  take-append-drop, arith, Bool-cases,
}

-- The method and the two headers of a request that are read; a header that is not there is empty.
pub record StatsRequest : Type 0 where
  pub method : Text
  pub x_api_key : Text
  pub authorization : Text

-- The answer: the handler's, the empty answer to a preflight request, or 401.
pub data StatsAnswer (R : Type 0) : Type 0 where
  handled : R → StatsAnswer R
  preflight : StatsAnswer R
  refused : StatsAnswer R

-- The token of `Authorization: Bearer ...`.
pub bearer : Text → Text
bearer header =
    if ltb 7 (length header) && take 7 header == codes "Bearer " then drop 7 header else []

pub sent_key : StatsRequest → Text
unfolding bearer
sent_key r = if is_empty r.x_api_key then bearer r.authorization else r.x_api_key

module _ {R : Type 0} where
  pub api_key_middleware : Text → (StatsRequest → R) → StatsRequest → StatsAnswer R
  unfolding sent_key
  api_key_middleware key next r =
      if is_empty key
      then handled (next r)
      else if sent_key r == key
      then (if r.method == codes "OPTIONS" then preflight else handled (next r))
      else refused

-- A request carries a key in its own header, or in the other one if its own is empty.
abbrev pub Carries : Text → StatsRequest → Type 0
Carries key r =
    (r.x_api_key ≡ key) ⊎ ((r.x_api_key ≡ []) × (r.authorization ≡ codes "Bearer " ++ key))

bearer-append : (k : Text) → k ≢ [] → bearer (codes "Bearer " ++ k) ≡ k
unfolding bearer text_beq
bearer-append [] named = absurd (named refl)
bearer-append (x ∷ xs) named = ground arith

bearer_iff :
    (key header : Text) → key ≢ [] → (bearer header ≡ key) ↔ (header ≡ codes "Bearer " ++ key)
unfolding bearer
bearer_iff key header some_key = (
  λ h. elim (Bool-cases (ltb 7 (length header) && take 7 header == codes "Bearer ")) [
    | inl e ↦
        let p : take 7 header ≡ codes "Bearer " =
          (text_beq_iff (take 7 header) (codes "Bearer ")).0 (ground (arith, e)) in
        let q : drop 7 header ≡ key = rw e at h in sym (take-append-drop 7 header) ∙ rw (p, q) refl
    | inr e ↦ absurd (some_key (sym (rw e at h)))
  ],
  λ h. rw h (bearer-append key some_key),
)

not_empty : (t : Text) → t ≢ [] → is_empty t ≡ false
not_empty [] h = absurd (h refl)
not_empty (x ∷ xs) h = refl

-- The key that is sent, where the request's own header is `own`.
own_key_iff :
    (key own other : Text)
    → key ≢ []
    → ((if is_empty own then bearer other else own) ≡ key)
      ↔ ((own ≡ key) ⊎ ((own ≡ []) × (other ≡ codes "Bearer " ++ key)))
own_key_iff key [] other some_key = (
  λ h. inr (refl, (bearer_iff key other some_key).0 h),
  λ h. elim h [
    | inl e ↦ absurd (some_key (sym e))
    | inr (_, e) ↦ (bearer_iff key other some_key).1 e
  ],
)
own_key_iff key (x ∷ xs) other some_key =
    (λ h. inl h, λ h. elim h [ inl e ↦ e | inr (e, _) ↦ absurd (ground (arith, e)) ])

module _ {R : Type 0} (key : Text) (next : StatsRequest → R) (r : StatsRequest) where
  keyed_answer :
      key ≢ []
      → (Carries key r
          × (api_key_middleware key next r
              ≡ (if r.method == codes "OPTIONS" then preflight else handled (next r))))
        ⊎ ((¬ (Carries key r)) × (api_key_middleware key next r ≡ refused))
  unfolding api_key_middleware sent_key
  keyed_answer some_key =
      let (to, from) = own_key_iff key r.x_api_key r.authorization some_key in
      let keyed : is_empty key ≡ false = not_empty key some_key in
      elim (Bool-cases (sent_key r == key)) [
        | inl e ↦ inl (to ((text_beq_iff (sent_key r) key).0 e), ground (arith, keyed, e))
        | inr e ↦ inr (
          (λ c. ground (arith, e, (text_beq_iff (sent_key r) key).1 (from c))),
          ground (arith, keyed, e),
        )
      ]

  -- Where a key is configured, a request is refused exactly if it does not carry that key, in X-API-Key
  -- or, with that header empty, as a bearer token; the handler runs exactly for the requests that carry it
  -- and are not preflight requests.
  pub api_key_middleware_iff :
      key ≢ []
      → ((api_key_middleware key next r ≡ refused) ↔ ¬ (Carries key r))
        × ((api_key_middleware key next r ≡ handled (next r))
            ↔ Carries key r × (r.method ≢ codes "OPTIONS"))
  api_key_middleware_iff some_key =
      let method = text_beq_iff r.method (codes "OPTIONS") in
      elim (keyed_answer some_key) [
        | inl (carried, q) ↦ elim (Bool-cases (r.method == codes "OPTIONS")) [
          | inl e ↦
              let p : api_key_middleware key next r ≡ preflight = ground (arith, q, e) in
              (
                ((λ h. absurd (ground (arith, h, p))), (λ none. absurd (none carried))),
                ((λ h. absurd (ground (arith, h, p))), (λ (_, other). absurd (other (method.0 e)))),
              )
          | inr e ↦
              let p : api_key_middleware key next r ≡ handled (next r) = ground (arith, q, e) in
              (
                ((λ h. absurd (ground (arith, h, p))), (λ none. absurd (none carried))),
                ((λ _. (carried, λ m. ground (arith, e, method.1 m))), (λ _. p)),
              )
        ]
        | inr (missing, q) ↦ (
          ((λ _. missing), (λ _. q)),
          ((λ h. absurd (ground (arith, h, q))), (λ (c, _). absurd (missing c))),
        )
      ]
