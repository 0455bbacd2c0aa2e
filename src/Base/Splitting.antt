-- ===== src/Base/Splitting.antt =====
-- The functions of Go's package strings that the program takes texts apart with: Split and Join with a
-- separator of one character, TrimSpace, TrimPrefix and Contains of one character.
use Prim.Native.Nat.{ℕ}
use mathlib.Core.Path.{◌≡◌, refl}
use mathlib.Core.Bool.{Bool, false, ◌||◌, ◌&&◌}
use mathlib.Core.List.{List, [], ◌∷◌, ◌++◌, reverse}
use mathlib.Core.Option.{Option, none, some}
use native.Mathlib.Omega.{arith}
use container_census.Base.Tests.{if◌then◌else◌, leb, nat_beq, Bool-cases}
use mathlib.Core.Logic.{inl, inr}
use container_census.Base.Texts.{Text, occurs}

-- The first part of a text and the parts behind it.
pub prepend : ℕ → List Text → List Text
prepend c [] = (c ∷ []) ∷ []
prepend c (part ∷ parts) = (c ∷ part) ∷ parts

pub split : ℕ → Text → List Text
unfolding prepend
split sep [] = [] ∷ []
split sep (c ∷ text) = if nat_beq c sep then [] ∷ split sep text else prepend c (split sep text)

pub join : ℕ → List Text → Text
join sep [] = []
join sep (part ∷ []) = part
join sep (part ∷ other ∷ parts) = part ++ (sep ∷ join sep (other ∷ parts))

-- `unicode.IsSpace`.
pub is_space : ℕ → Bool
is_space c =
    leb 9 c && leb c 13
    || nat_beq c 32
    || nat_beq c 133
    || nat_beq c 160
    || nat_beq c 5760
    || leb 8192 c && leb c 8202
    || nat_beq c 8232
    || nat_beq c 8233
    || nat_beq c 8239
    || nat_beq c 8287
    || nat_beq c 12288

pub trim_left : Text → Text
unfolding is_space
trim_left [] = []
trim_left (c ∷ text) = let rest = trim_left text in if is_space c then rest else c ∷ text

unfoldable pub trim_space : Text → Text
unfolding trim_left
trim_space text = reverse (trim_left (reverse (trim_left text)))

-- The rest of a text behind a prefix that it has.
pub behind : Text → Text → Option Text
behind [] text = some text
behind (p ∷ prefix) [] = none
behind (p ∷ prefix) (c ∷ text) = if nat_beq p c then behind prefix text else none

unfoldable pub trim_prefix : Text → Text → Text
unfolding behind
trim_prefix prefix text = elim (behind prefix text) [ none ↦ text | some rest ↦ rest ]

-- A part without the separator is split off whole.
pub split-append :
    (sep : ℕ) (part text : Text)
    → occurs sep part ≡ false
    → split sep (part ++ (sep ∷ text)) ≡ part ∷ split sep text
unfolding split prepend
split-append sep [] text h = ground arith
split-append sep (c ∷ part) text h =
    ground (arith, h, split-append sep part text (ground (arith, h)))

pub split-none : (sep : ℕ) (part : Text) → occurs sep part ≡ false → split sep part ≡ part ∷ []
unfolding split prepend
split-none sep [] h = refl
split-none sep (c ∷ part) h = ground (arith, h, split-none sep part (ground (arith, h)))

join-prepend : (sep c : ℕ) (parts : List Text) → join sep (prepend c parts) ≡ c ∷ join sep parts
unfolding join prepend
join-prepend sep c [] = refl
join-prepend sep c (part ∷ []) = refl
join-prepend sep c (part ∷ other ∷ parts) = refl

-- A split has a first part.
pub split-cons :
    (sep : ℕ) (text : Text) → (part : Text) × (parts : List Text) × (split sep text ≡ part ∷ parts)
unfolding split prepend
split-cons sep [] = ([], [], refl)
split-cons sep (c ∷ text) =
    let (part, parts, e) = split-cons sep text in
    elim (Bool-cases (nat_beq c sep)) [
      | inl q ↦ ([], split sep text, ground (arith, q))
      | inr q ↦ (c ∷ part, parts, ground (arith, q, e))
    ]

-- Joining with the separator takes back the split.
pub join-split : (sep : ℕ) (text : Text) → join sep (split sep text) ≡ text
unfolding split prepend join
join-split sep [] = refl
join-split sep (c ∷ text) =
    let (part, parts, e) = split-cons sep text in
    elim (Bool-cases (nat_beq c sep)) [
      | inl q ↦ ground (arith, q, e, join-split sep text)
      | inr q ↦ ground (arith, q, join-prepend sep c (split sep text), join-split sep text)
    ]

pub behind-append : (prefix text : Text) → behind prefix (prefix ++ text) ≡ some text
unfolding behind
behind-append [] text = refl
behind-append (p ∷ prefix) text = ground (arith, behind-append prefix text)
