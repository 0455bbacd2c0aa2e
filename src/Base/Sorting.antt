-- ===== src/Base/Sorting.antt =====
-- Insertion into a sorted list, as `ORDER BY` gives it: elements that the order does not tell apart keep
-- their places.
use mathlib.Core.Path.{◌≡◌, refl}
use mathlib.Core.Bool.{Bool, true, false}
use mathlib.Core.List.{List, [], ◌∷◌, Permᴰ}
use mathlib.Core.List.Permᴰ
use container_census.Base.Tests.{if◌then◌else◌, Bool-cases}
use mathlib.Core.Logic.{inl, inr}

module _ {ℓ} {A : Type ℓ} (before : A → A → Bool) where
  -- `before a b` says that `a` goes in front of a later `b`.
  abbrev pub sort_in : A → List A → List A
  sort_in x [] = x ∷ []
  sort_in x (y ∷ ys) = if before y x then y ∷ sort_in x ys else x ∷ y ∷ ys

  abbrev pub sort_by : List A → List A
  sort_by [] = []
  sort_by (x ∷ xs) = sort_in x (sort_by xs)

  sort_in-perm : (x : A) (ys : List A) → Permᴰ (sort_in x ys) (x ∷ ys)
  sort_in-perm x [] = Permᴰ.refl (x ∷ [])
  sort_in-perm x (y ∷ ys) = elim (Bool-cases (before y x)) [
    | inl e ↦ rw e (Permᴰ.trans (Permᴰ.cons refl (sort_in-perm x ys)) (Permᴰ.swap refl refl))
    | inr e ↦ rw e (Permᴰ.refl (x ∷ y ∷ ys))
  ]

  pub sort_by-perm : (xs : List A) → Permᴰ (sort_by xs) xs
  sort_by-perm [] = Permᴰ.nil
  sort_by-perm (x ∷ xs) =
      Permᴰ.trans (sort_in-perm x (sort_by xs)) (Permᴰ.cons refl (sort_by-perm xs))

  -- No element goes in front of the one before it.
  abbrev pub IsOrdered : List A → Type 0
  IsOrdered [] = Unit
  IsOrdered (x ∷ []) = Unit
  IsOrdered (x ∷ y ∷ ys) = (before y x ≡ false) × IsOrdered (y ∷ ys)

  module _ (asym : (x y : A) → before x y ≡ true → before y x ≡ false) where
    sort_in-IsOrdered : (x : A) (ys : List A) → IsOrdered ys → IsOrdered (sort_in x ys)
    sort_in-IsOrdered x [] h = tt
    sort_in-IsOrdered x (y ∷ []) h = elim (Bool-cases (before y x)) [
      | inl e ↦ rw e (asym y x e, tt)
      | inr e ↦ rw e (e, tt)
    ]
    sort_in-IsOrdered x (y ∷ z ∷ zs) h = elim (Bool-cases (before y x)) [
      | inr e ↦ rw e (e, h)
      | inl e ↦
          let rest = sort_in-IsOrdered x (z ∷ zs) h.1 in
          elim (Bool-cases (before z x)) [
            | inl d ↦ rw (e, d) (h.0, rw d at rest)
            | inr d ↦ rw (e, d) (asym y x e, (d, h.1))
          ]
    ]

    pub sort_by-IsOrdered : (xs : List A) → IsOrdered (sort_by xs)
    sort_by-IsOrdered [] = tt
    sort_by-IsOrdered (x ∷ xs) = sort_in-IsOrdered x (sort_by xs) (sort_by-IsOrdered xs)
