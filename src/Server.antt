-- ===== src/Server.antt =====
-- The two functions detectHostType, of cmd/server/main.go and of internal/api/agent_handlers.go: the
-- kind of a host by its address. A slice of the first bytes is `take`, which the code guards by the
-- length.
pub mod Scans
pub mod ImageUpdates
mod Tests
use container_census.Base.{
  ℕ, ◌+◌, ◌≤◌, ◌≡◌, refl, sym, ap, subst, ◌∙◌, ◌↔◌, ◌⊎◌, inl, inr, Bool, true, false, ◌&&◌, ◌||◌,
  List, [], ◌∷◌, ◌++◌, Text, text_eq, text_beq, text_beq_iff, codes, ◌==◌, is_empty, if◌then◌else◌,
  leb, length, take, arith, zero, suc, Bool-cases, ◌<◌,
}

-- `len(address) >= n && address[:n] == prefix`.
pub begins : ℕ → Text → Text → Bool
begins n prefix address = leb n (length address) && take n address == prefix

-- The function of cmd/server/main.go.
pub detect_host_type : Text → Text
unfolding begins
detect_host_type address =
    if is_empty address || address == codes "local"
    then codes "unix"
    else if begins 7 (codes "agent://") address
    then codes "agent"
    else if begins 7 (codes "http://") address
    then codes "agent"
    else if begins 8 (codes "https://") address
    then codes "agent"
    else if begins 7 (codes "unix://") address
    then codes "unix"
    else if begins 6 (codes "tcp://") address
    then codes "tcp"
    else if begins 6 (codes "ssh://") address
    then codes "ssh"
    else codes "unknown"

-- `strings.HasPrefix(address, prefix)`.
abbrev pub has_prefix : Text → Text → Bool
has_prefix prefix address = begins (length prefix) prefix address

-- The function of internal/api/agent_handlers.go.
pub added_host_type : Text → Text
added_host_type address =
    if has_prefix (codes "agent://") address
      || has_prefix (codes "http://") address
      || has_prefix (codes "https://") address
    then codes "agent"
    else if has_prefix (codes "unix://") address
    then codes "unix"
    else if has_prefix (codes "tcp://") address
    then codes "tcp"
    else if has_prefix (codes "ssh://") address
    then codes "ssh"
    else if is_empty address || address == codes "local"
    then codes "unix"
    else codes "unknown"

length-take_le : (n : ℕ) (xs : Text) → length (take n xs) ≤ n
length-take_le zero xs = omega arith
length-take_le (suc n) [] = omega arith
length-take_le (suc n) (x ∷ xs) = omega (arith, length-take_le n xs)

-- Seven bytes are never the eight of `agent://`.
begins-agent : (address : Text) → begins 7 (codes "agent://") address ≡ false
unfolding begins
begins-agent address = elim (Bool-cases (begins 7 (codes "agent://") address)) [
  | inr e ↦ e
  | inl e ↦
      let q : take 7 address ≡ codes "agent://" =
        (text_beq_iff (take 7 address) (codes "agent://")).0 (ground arith) in
      absurd (omega (arith, length-take_le 7 address, ap length q))
]

not_local :
    (address : Text)
    → is_empty address ≡ false
    → (address == codes "local") ≡ false
    → has_prefix (codes "agent://") address ≡ false
    → detect_host_type address ≡ added_host_type address
unfolding detect_host_type added_host_type
not_local address filled other h = ground (arith, filled, other, h, begins-agent address)

same_host_type :
    (address : Text)
    → has_prefix (codes "agent://") address ≡ false
    → detect_host_type address ≡ added_host_type address
unfolding detect_host_type added_host_type begins text_beq
same_host_type [] h = refl
same_host_type (x ∷ xs) h = elim (Bool-cases ((x ∷ xs) == codes "local")) [
  | inl e ↦
      let q : codes "local" ≡ x ∷ xs = sym ((text_beq_iff (x ∷ xs) (codes "local")).0 e) in
      subst (λ a. detect_host_type a ≡ added_host_type a) q refl
  | inr e ↦ not_local (x ∷ xs) refl e h
]

agent_prefix :
    (rest : Text)
    → (detect_host_type (codes "agent://" ++ rest) ≡ codes "unknown")
      × (added_host_type (codes "agent://" ++ rest) ≡ codes "agent")
unfolding detect_host_type added_host_type begins text_beq
agent_prefix rest = (ground (arith, begins-agent (codes "agent://" ++ rest)), ground arith)

take_prefix : (n : ℕ) (xs : Text) → (rest : Text) × (xs ≡ take n xs ++ rest)
take_prefix zero xs = (xs, refl)
take_prefix (suc n) [] = ([], refl)
take_prefix (suc n) (x ∷ xs) = let (rest, e) = take_prefix n xs in (rest, ap (λ ys. x ∷ ys) e)

agent_types :
    (address : Text)
    → has_prefix (codes "agent://") address ≡ true
    → (detect_host_type address ≡ codes "unknown") × (added_host_type address ≡ codes "agent")
unfolding begins
agent_types address h =
    let (rest, e) = take_prefix 8 address in
    let q : take 8 address ≡ codes "agent://" =
      (text_beq_iff (take 8 address) (codes "agent://")).0 (ground arith) in
    subst (λ a. (detect_host_type a ≡ codes "unknown") × (added_host_type a ≡ codes "agent"))
      (ap (λ p. p ++ rest) (sym q) ∙ sym e) (agent_prefix rest)

-- The two functions that tell the kind of a host by its address agree exactly on the addresses that do
-- not begin with `agent://`; on those that do, the one of cmd/server answers `unknown` and the one of
-- internal/api answers `agent`.
detect-added_iff :
    (address : Text)
    → ((detect_host_type address ≡ added_host_type address)
        ↔ (has_prefix (codes "agent://") address ≡ false))
      × (has_prefix (codes "agent://") address ≡ true
          → (detect_host_type address ≡ codes "unknown")
            × (added_host_type address ≡ codes "agent"))
detect-added_iff address = (
  (
    λ same. elim (Bool-cases (has_prefix (codes "agent://") address)) [
      | inr other ↦ other
      | inl agent ↦ let (a, b) = agent_types address agent in absurd (cc (same, a, b))
    ],
    same_host_type address,
  ),
  agent_types address,
)
