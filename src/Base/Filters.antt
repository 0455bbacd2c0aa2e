-- ===== src/Base/Filters.antt =====
-- Filters over filters, and over a map that a filter does not see.
use mathlib.Core.Path.{◌≡◌, refl}
use mathlib.Core.Logic.{inl, inr}
use mathlib.Core.Bool.{Bool, true, false, ◌&&◌}
use mathlib.Core.List.{List, [], ◌∷◌, map, Memᴰ}
use native.Mathlib.Omega.{arith}
use container_census.Base.Tests.{Bool-cases}
use container_census.Base.Lists.{keep}

module _ {ℓ} {A : Type ℓ} where
  pub keep-and : (p q : A → Bool) (xs : List A) → keep (λ x. p x && q x) xs ≡ keep q (keep p xs)
  keep-and p q [] = refl
  keep-and p q (x ∷ xs) = elim (Bool-cases (p x)) [
    | inl e ↦ ground (arith, e, keep-and p q xs)
    | inr e ↦ ground (arith, e, keep-and p q xs)
  ]

  pub keep_comm : (p q : A → Bool) (xs : List A) → keep p (keep q xs) ≡ keep q (keep p xs)
  keep_comm p q [] = refl
  keep_comm p q (x ∷ xs) = elim (Bool-cases (p x)) [
    | inl e ↦ elim (Bool-cases (q x)) [
      | inl d ↦ ground (arith, e, d, keep_comm p q xs)
      | inr d ↦ ground (arith, e, d, keep_comm p q xs)
    ]
    | inr e ↦ elim (Bool-cases (q x)) [
      | inl d ↦ ground (arith, e, d, keep_comm p q xs)
      | inr d ↦ ground (arith, e, d, keep_comm p q xs)
    ]
  ]

  pub keep-all : (p : A → Bool) (xs : List A) → ((x : A) → Memᴰ x xs → p x ≡ true) → keep p xs ≡ xs
  keep-all p [] h = refl
  keep-all p (x ∷ xs) h =
      ground (arith, h x (Memᴰ.head refl), keep-all p xs (λ y m. h y (Memᴰ.tail m)))

  pub keep-none :
      (p : A → Bool) (xs : List A) → ((x : A) → Memᴰ x xs → p x ≡ false) → keep p xs ≡ []
  keep-none p [] h = refl
  keep-none p (x ∷ xs) h =
      ground (arith, h x (Memᴰ.head refl), keep-none p xs (λ y m. h y (Memᴰ.tail m)))

  pub keep-map :
      (p : A → Bool) (f : A → A) (xs : List A)
      → ((x : A) → Memᴰ x xs → p (f x) ≡ p x)
      → keep p (map f xs) ≡ map f (keep p xs)
  keep-map p f [] h = refl
  keep-map p f (x ∷ xs) h = elim (Bool-cases (p x)) [
    | inl e ↦ ground (arith, e, h x (Memᴰ.head refl), keep-map p f xs (λ y m. h y (Memᴰ.tail m)))
    | inr e ↦ ground (arith, e, h x (Memᴰ.head refl), keep-map p f xs (λ y m. h y (Memᴰ.tail m)))
  ]

  pub map-same : (f : A → A) (xs : List A) → ((x : A) → Memᴰ x xs → f x ≡ x) → map f xs ≡ xs
  map-same f [] h = refl
  map-same f (x ∷ xs) h =
      ground (arith, h x (Memᴰ.head refl), map-same f xs (λ y m. h y (Memᴰ.tail m)))

  -- What a first filter drops is not missed by a second one that drops it too.
  pub keep-keep :
      (p q : A → Bool) (xs : List A)
      → ((x : A) → p x ≡ true → q x ≡ true)
      → keep p (keep q xs) ≡ keep p xs
  keep-keep p q [] h = refl
  keep-keep p q (x ∷ xs) h = elim (Bool-cases (p x)) [
    | inl e ↦ ground (arith, e, h x e, keep-keep p q xs h)
    | inr e ↦ elim (Bool-cases (q x)) [
      | inl d ↦ ground (arith, e, d, keep-keep p q xs h)
      | inr d ↦ ground (arith, e, d, keep-keep p q xs h)
    ]
  ]

  -- Two filters that agree on a list.
  pub keep_congr :
      (p q : A → Bool) (xs : List A) → ((x : A) → Memᴰ x xs → p x ≡ q x) → keep p xs ≡ keep q xs
  keep_congr p q [] h = refl
  keep_congr p q (x ∷ xs) h =
      ground (arith, h x (Memᴰ.head refl), keep_congr p q xs (λ y m. h y (Memᴰ.tail m)))
