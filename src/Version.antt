-- ===== src/Version.antt =====
-- The version check, internal/version/version.go. `atoi` is strconv.Atoi, `none` for its error.
pub mod Order
pub mod Check
mod Tests
use container_census.Base.{
  ℕ, zero, suc, ◌+◌, ◌≤◌, ◌≡◌, Bool, true, false, not, ◌&&◌, ◌||◌, List, [], ◌∷◌, Option, none,
  some, Text, text_eq, codes, decimal, ◌==◌, if◌then◌else◌, split, get_elem?,
}
use container_census.Base.Int.{ℤ, pos, negsuc, ltb_ℤ}

pub record Triple : Type 0 where
  pub major : ℤ
  pub minor : ℤ
  pub patch : ℤ

-- `"."`.
abbrev pub dot : ℕ
dot = 46

-- The loop over major, minor and patch.
pub compare_parts : List (ℤ × ℤ) → Bool
compare_parts [] = false
compare_parts ((new_part, current_part) ∷ rest) =
    let later = compare_parts rest in
    if ltb_ℤ current_part new_part
    then true
    else if ltb_ℤ new_part current_part
    then false
    else later

module _ (atoi : Text → Option ℤ) where
  -- `result[i]` after the loop: zero if there is no such part or it is no number.
  pub part_value : Option Text → ℤ
  part_value none = pos 0
  part_value (some part) = elim (atoi part) [ none ↦ pos 0 | some num ↦ num ]

  pub parse_version : Text → Triple
  unfolding part_value
  parse_version ver =
      let parts = split dot ver in
      record {
        major = part_value (get_elem? parts 0);
        minor = part_value (get_elem? parts 1);
        patch = part_value (get_elem? parts 2);
      }

  pub is_newer_version : Text → Text → Bool
  unfolding parse_version compare_parts
  is_newer_version new_ver current_ver =
      if current_ver == codes "dev"
      then false
      else let n = parse_version new_ver in
        let c = parse_version current_ver in
        compare_parts ((n.major, c.major) ∷ (n.minor, c.minor) ∷ (n.patch, c.patch) ∷ [])
