-- ===== src/Version/Order.antt =====
-- isNewerVersion of internal/version/version.go as an order on versions.
use container_census.Base.{
  ℕ, ◌<◌, ◌≡◌, ◌≢◌, ◌↔◌, ◌⊎◌, inl, inr, refl, ap, ◌∙◌, true, [], ◌∷◌, ◌++◌, Option, some, Text,
  text_eq, text_beq_iff, codes, decimal, decimal-occurs, ◌^◌, ◌==◌, split, split-append, split-none,
  occurs, occurs-append, arith, Bool-cases,
}
use container_census.Base.Int.{ℤ, pos, ◌<ℤ◌}
use container_census.Version.{
  Triple, dot, part_value, parse_version, compare_parts, is_newer_version,
}

-- The order of semantic versions: major first, then minor, then patch.
infix 50 ◌≺◌
abbrev pub ◌≺◌ : Triple → Triple → Type 0
v ≺ w =
    (v.major <ℤ w.major)
    ⊎ (v.major ≡ w.major) × (v.minor <ℤ w.minor)
    ⊎ (v.major ≡ w.major) × (v.minor ≡ w.minor) × (v.patch <ℤ w.patch)

compare_parts-lex_iff :
    (v w : Triple)
    → (compare_parts ((w.major, v.major) ∷ (w.minor, v.minor) ∷ (w.patch, v.patch) ∷ []) ≡ true)
      ↔ (v ≺ w)
unfolding compare_parts
compare_parts-lex_iff v w = (λ h. ground (arith, h), λ h. ground (arith, h))

lex_trans : (u v w : Triple) → u ≺ v → v ≺ w → u ≺ w
lex_trans u v w h k = ground (arith, h, k)

module _ (atoi : Text → Option ℤ) where
  -- A version is newer than another one exactly if the latter is not "dev" and is less in the order of
  -- semantic versions.
  pub is_newer_version_iff :
      (new_ver current_ver : Text)
      → (is_newer_version atoi new_ver current_ver ≡ true)
        ↔ (current_ver ≢ codes "dev")
          × (parse_version atoi current_ver ≺ parse_version atoi new_ver)
  unfolding is_newer_version compare_parts
  is_newer_version_iff new_ver current_ver =
      let (to, from) =
        compare_parts-lex_iff (parse_version atoi current_ver) (parse_version atoi new_ver) in
      let dev = text_beq_iff current_ver (codes "dev") in
      elim (Bool-cases (current_ver == codes "dev")) [
        | inl is_dev ↦ (
          λ h. absurd (ground (arith, is_dev, h)),
          λ (not_dev, less). absurd (not_dev (dev.0 is_dev)),
        )
        | inr not_dev ↦ (
          λ h. (λ q. absurd (ground (arith, not_dev, dev.1 q)), to (ground (arith, not_dev, h))),
          λ (_, less). ground (arith, not_dev, from less),
        )
      ]

  -- The order is transitive, so successive releases are newer than each other.
  pub is_newer_version_trans :
      (a b c : Text)
      → is_newer_version atoi a b ≡ true
      → is_newer_version atoi b c ≡ true
      → is_newer_version atoi a c ≡ true
  is_newer_version_trans a b c ab bc =
      let (_, less) = (is_newer_version_iff a b).0 ab in
      let (named, less2) = (is_newer_version_iff b c).0 bc in
      (is_newer_version_iff a c).1 (
        named,
        lex_trans (parse_version atoi c) (parse_version atoi b) (parse_version atoi a) less2 less,
      )

-- The text X.Y.Z.
abbrev pub dotted : ℕ → ℕ → ℕ → Text
dotted x y z = decimal x ++ (dot ∷ (decimal y ++ (dot ∷ decimal z)))

split-dotted : (x y z : ℕ) → split dot (dotted x y z) ≡ decimal x ∷ decimal y ∷ decimal z ∷ []
split-dotted x y z =
    split-append dot (decimal x) (decimal y ++ (dot ∷ decimal z)) (decimal-occurs dot x refl)
    ∙ ap (λ parts. decimal x ∷ parts)
        (split-append dot (decimal y) (decimal z) (decimal-occurs dot y refl)
          ∙ ap (λ parts. decimal y ∷ parts)
              (split-none dot (decimal z) (decimal-occurs dot z refl)))

-- A version X.Y.Z is parsed into its numbers, where Atoi reads the digits of each of them back.
pub parse_version-dotted :
    (atoi : Text → Option ℤ) (x y z : ℕ)
    → ((n : ℕ) → n < 2 ^ 63 → atoi (decimal n) ≡ some (pos n))
    → x < 2 ^ 63
    → y < 2 ^ 63
    → z < 2 ^ 63
    → parse_version atoi (dotted x y z) ≡ record { major = pos x; minor = pos y; patch = pos z }
unfolding parse_version part_value
parse_version-dotted atoi x y z reads hx hy hz =
    rw (split-dotted x y z, reads x hx, reads y hy, reads z hz) refl

-- Such a version is not "dev".
pub dotted-not_dev : (x y z : ℕ) → dotted x y z ≢ codes "dev"
dotted-not_dev x y z q = absurd (
    ground (
      arith,
      occurs-append dot (decimal x) (dot ∷ (decimal y ++ (dot ∷ decimal z))),
      ap (occurs dot) q,
    ))
