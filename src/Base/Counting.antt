-- ===== src/Base/Counting.antt =====
-- Searches and counts over maps, filters and rearrangements.
use mathlib.Core.Path.{◌≡◌, refl, ap, ◌∙◌}
use mathlib.Core.Logic.{inl, inr}
use mathlib.Core.Bool.{Bool, ◌&&◌, ◌||◌}
use mathlib.Core.List.{List, [], ◌∷◌, map, Permᴰ}
use Prim.Native.Nat.{suc}
use native.Mathlib.Omega.{arith}
use container_census.Base.Tests.{Bool-cases, if◌then◌else◌}
use container_census.Base.Lists.{any, keep, count_if}

module _ {ℓ κ} {A : Type ℓ} {B : Type κ} (f : A → B) (p : B → Bool) where
  pub any-map : (xs : List A) → any p (map f xs) ≡ any (λ x. p (f x)) xs
  any-map [] = refl
  any-map (x ∷ xs) = ap (λ b. p (f x) || b) (any-map xs)

  pub count_if-map : (xs : List A) → count_if p (map f xs) ≡ count_if (λ x. p (f x)) xs
  count_if-map [] = refl
  count_if-map (x ∷ xs) = ap (λ n. if p (f x) then suc n else n) (count_if-map xs)

module _ {ℓ} {A : Type ℓ} (p : A → Bool) where
  pub any-keep : (q : A → Bool) (xs : List A) → any p (keep q xs) ≡ any (λ x. q x && p x) xs
  any-keep q [] = refl
  any-keep q (x ∷ xs) = elim (Bool-cases (q x)) [
    | inl e ↦ rw e (ap (λ b. p x || b) (any-keep q xs))
    | inr e ↦ rw e (any-keep q xs)
  ]

  pub count_if-keep :
      (q : A → Bool) (xs : List A) → count_if p (keep q xs) ≡ count_if (λ x. q x && p x) xs
  count_if-keep q [] = refl
  count_if-keep q (x ∷ xs) = elim (Bool-cases (q x)) [
    | inl e ↦ rw e (ap (λ n. if p x then suc n else n) (count_if-keep q xs))
    | inr e ↦ rw e (count_if-keep q xs)
  ]

  pub any-perm : {xs ys : List A} → Permᴰ xs ys → any p xs ≡ any p ys
  any-perm Permᴰ.nil = refl
  any-perm (Permᴰ.cons q h) = ground (arith, ap p q, any-perm h)
  any-perm (Permᴰ.swap q r) = ground (arith, ap p q, ap p r)
  any-perm (Permᴰ.trans g h) = any-perm g ∙ any-perm h

  pub count_if-perm : {xs ys : List A} → Permᴰ xs ys → count_if p xs ≡ count_if p ys
  count_if-perm Permᴰ.nil = refl
  count_if-perm (Permᴰ.cons q h) = ground (arith, ap p q, count_if-perm h)
  count_if-perm (Permᴰ.swap q r) = ground (arith, ap p q, ap p r)
  count_if-perm (Permᴰ.trans g h) = count_if-perm g ∙ count_if-perm h
