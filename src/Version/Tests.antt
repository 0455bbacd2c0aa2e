-- ===== src/Version/Tests.antt =====
-- Witnesses and test data for the version check. Atoi reads the digits of
-- a number, and no sign.
use mathlib.Core.List.{reverse, reverse-reverse}
use container_census.Base.{
  ℕ, ◌^◌, ◌<◌, ◌≡◌, ◌↔◌, ◌⊎◌, ap, ◌∙◌, true, ◌++◌, Option, none, some, ok, Text, text_eq, codes,
  decimal, arith, value_rev, value-digits_rev, digits_rev, suc,
}
use container_census.Base.Int.{ℤ, pos}
use container_census.Version.Order.{dotted}
use container_census.Version.Check.{replied, check_latest_version, release_available_iff}

abbrev atoi : Text → Option ℤ
atoi text = some (pos (value_rev (reverse text)))

atoi-decimal : (n : ℕ) → n < 2 ^ 63 → atoi (decimal n) ≡ some (pos n)
unfolding decimal
atoi-decimal n h =
    ap (λ m. some (pos m))
      (ap value_rev (reverse-reverse (digits_rev (suc n) n))
        ∙ value-digits_rev (suc n) n (omega arith))

release_available_iff_example :
    ((check_latest_version atoi
        (dotted 1 9 3)
        1000
        (replied 200
          (ok (record { tag_name = codes "v" ++ dotted 1 10 0; html_url = codes "url" })))
        none).1.update_available
      ≡ true)
    ↔ (1 < 1) ⊎ ◌≡◌ {A = ℕ} 1 1 × (9 < 10) ⊎ ◌≡◌ {A = ℕ} 1 1 × ◌≡◌ {A = ℕ} 9 10 × (3 < 0)
release_available_iff_example =
    release_available_iff atoi 1000 (codes "url") 1 10 0 1 9 3 atoi-decimal
      (omega arith, omega arith, omega arith) (omega arith, omega arith, omega arith)
