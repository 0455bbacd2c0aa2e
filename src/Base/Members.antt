-- ===== src/Base/Members.antt =====
-- Membership in a list, as a family, against the searches and filters of Base/Lists.antt.
use mathlib.Core.Path.{◌≡◌, refl, sym, ap, ◌∙◌}
use mathlib.Core.Logic.{◌⊎◌, inl, inr}
use mathlib.Core.Bool.{Bool, true, false}
use mathlib.Core.List.{List, [], ◌∷◌, ◌++◌, map, Memᴰ, Permᴰ}
use native.Mathlib.Omega.{arith}
use container_census.Base.Tests.{Bool-cases}
use container_census.Base.Lists.{any, keep, count_if, length, take, drop}
use Prim.Native.Nat.{ℕ, zero, suc, ◌≤◌, min}

module _ {ℓ} {A : Type ℓ} where
  pub any-mem : (p : A → Bool) (xs : List A) → any p xs ≡ true → (x : A) × Memᴰ x xs × (p x ≡ true)
  any-mem p [] h = cc
  any-mem p (x ∷ xs) h = elim (Bool-cases (p x)) [
    | inl e ↦ (x, Memᴰ.head refl, e)
    | inr e ↦ let (y, m, q) = any-mem p xs (rw e at h) in (y, Memᴰ.tail m, q)
  ]

  pub mem-any : (p : A → Bool) {x : A} (xs : List A) → Memᴰ x xs → p x ≡ true → any p xs ≡ true
  mem-any p [] m h = elim m [ ]
  mem-any p (y ∷ xs) (Memᴰ.head e) h = ground (arith, ap p e)
  mem-any p (y ∷ xs) (Memᴰ.tail m) h = ground (arith, mem-any p xs m h)

  pub mem-not_any :
      (p : A → Bool) {x : A} (xs : List A) → any p xs ≡ false → Memᴰ x xs → p x ≡ false
  mem-not_any p [] h m = elim m [ ]
  mem-not_any p (y ∷ xs) h (Memᴰ.head e) = ground (arith, ap p e)
  mem-not_any p (y ∷ xs) h (Memᴰ.tail m) = ground (arith, mem-not_any p xs (ground arith) m)

  pub not_any-of_mem :
      (p : A → Bool) (xs : List A) → ((x : A) → Memᴰ x xs → p x ≡ false) → any p xs ≡ false
  not_any-of_mem p [] h = refl
  not_any-of_mem p (x ∷ xs) h =
      ground (arith, h x (Memᴰ.head refl), not_any-of_mem p xs (λ y m. h y (Memᴰ.tail m)))

  pub keep-mem :
      (p : A → Bool) {x : A} (xs : List A) → Memᴰ x (keep p xs) → Memᴰ x xs × (p x ≡ true)
  keep-mem p [] m = elim m [ ]
  keep-mem p {x} (y ∷ xs) m = elim (Bool-cases (p y)) [
    | inl e ↦ kept (rw e at m) e (keep-mem p xs)
    | inr e ↦ let (m', q) = keep-mem p xs (rw e at m) in (Memᴰ.tail m', q)
  ]
    where
      kept :
          Memᴰ x (y ∷ keep p xs)
          → p y ≡ true
          → (Memᴰ x (keep p xs) → Memᴰ x xs × (p x ≡ true))
          → Memᴰ x (y ∷ xs) × (p x ≡ true)
      kept (Memᴰ.head e) q rest = (Memᴰ.head e, ground (arith, ap p e))
      kept (Memᴰ.tail m') q rest = let (m'', r) = rest m' in (Memᴰ.tail m'', r)

  pub mem-keep : (p : A → Bool) {x : A} (xs : List A) → Memᴰ x xs → p x ≡ true → Memᴰ x (keep p xs)
  mem-keep p [] m h = elim m [ ]
  mem-keep p (y ∷ xs) (Memᴰ.head e) h = rw (ap p (sym e) ∙ h) (Memᴰ.head e)
  mem-keep p (y ∷ xs) (Memᴰ.tail m) h = elim (Bool-cases (p y)) [
    | inl q ↦ rw q (Memᴰ.tail (mem-keep p xs m h))
    | inr q ↦ rw q (mem-keep p xs m h)
  ]

  pub mem-append_left : {x : A} (xs ys : List A) → Memᴰ x xs → Memᴰ x (xs ++ ys)
  mem-append_left [] ys m = elim m [ ]
  mem-append_left (y ∷ xs) ys (Memᴰ.head e) = Memᴰ.head e
  mem-append_left (y ∷ xs) ys (Memᴰ.tail m) = Memᴰ.tail (mem-append_left xs ys m)

  pub mem-append_right : {x : A} (xs ys : List A) → Memᴰ x ys → Memᴰ x (xs ++ ys)
  mem-append_right [] ys m = m
  mem-append_right (y ∷ xs) ys m = Memᴰ.tail (mem-append_right xs ys m)

  pub append-mem : {x : A} (xs ys : List A) → Memᴰ x (xs ++ ys) → Memᴰ x xs ⊎ Memᴰ x ys
  append-mem [] ys m = inr m
  append-mem (y ∷ xs) ys (Memᴰ.head e) = inl (Memᴰ.head e)
  append-mem (y ∷ xs) ys (Memᴰ.tail m) = elim (append-mem xs ys m) [
    | inl a ↦ inl (Memᴰ.tail a)
    | inr b ↦ inr b
  ]

  pub count_if-all :
      (p : A → Bool) (xs : List A) → ((x : A) → Memᴰ x xs → p x ≡ true) → count_if p xs ≡ length xs
  count_if-all p [] h = refl
  count_if-all p (x ∷ xs) h =
      ground (arith, h x (Memᴰ.head refl), count_if-all p xs (λ y m. h y (Memᴰ.tail m)))

  pub count_if_mono :
      (p q : A → Bool) (xs : List A)
      → ((x : A) → p x ≡ true → q x ≡ true)
      → count_if p xs ≤ count_if q xs
  count_if_mono p q [] h = omega arith
  count_if_mono p q (x ∷ xs) h = ground (arith, h x, count_if_mono p q xs h)

  pub count_if-take : (p : A → Bool) (n : ℕ) (xs : List A) → count_if p (take n xs) ≤ count_if p xs
  count_if-take p zero xs = omega arith
  count_if-take p (suc n) [] = omega arith
  count_if-take p (suc n) (x ∷ xs) = ground (arith, count_if-take p n xs)

  pub length-take : (n : ℕ) (xs : List A) → length (take n xs) ≡ min n (length xs)
  length-take zero xs = omega arith
  length-take (suc n) [] = omega arith
  length-take (suc n) (x ∷ xs) = omega (arith, length-take n xs)

  pub take-mem : (n : ℕ) {x : A} (xs : List A) → Memᴰ x (take n xs) → Memᴰ x xs
  take-mem zero xs m = elim m [ ]
  take-mem (suc n) [] m = elim m [ ]
  take-mem (suc n) (y ∷ xs) (Memᴰ.head e) = Memᴰ.head e
  take-mem (suc n) (y ∷ xs) (Memᴰ.tail m) = Memᴰ.tail (take-mem n xs m)

  pub drop-mem : (n : ℕ) {x : A} (xs : List A) → Memᴰ x (drop n xs) → Memᴰ x xs
  drop-mem zero xs m = m
  drop-mem (suc n) [] m = elim m [ ]
  drop-mem (suc n) (y ∷ xs) m = Memᴰ.tail (drop-mem n xs m)

  -- A rearrangement has the same members.
  pub mem-perm : {x : A} {xs ys : List A} → Permᴰ xs ys → Memᴰ x xs → Memᴰ x ys
  mem-perm Permᴰ.nil m = m
  mem-perm (Permᴰ.cons q p) (Memᴰ.head e) = Memᴰ.head (e ∙ q)
  mem-perm (Permᴰ.cons q p) (Memᴰ.tail m) = Memᴰ.tail (mem-perm p m)
  mem-perm (Permᴰ.swap q r) (Memᴰ.head e) = Memᴰ.tail (Memᴰ.head (e ∙ q))
  mem-perm (Permᴰ.swap q r) (Memᴰ.tail (Memᴰ.head e)) = Memᴰ.head (e ∙ r)
  mem-perm (Permᴰ.swap q r) (Memᴰ.tail (Memᴰ.tail m)) = Memᴰ.tail (Memᴰ.tail m)
  mem-perm (Permᴰ.trans p q) m = mem-perm q (mem-perm p m)

  pub perm-sym : {xs ys : List A} → Permᴰ xs ys → Permᴰ ys xs
  perm-sym Permᴰ.nil = Permᴰ.nil
  perm-sym (Permᴰ.cons q p) = Permᴰ.cons (sym q) (perm-sym p)
  perm-sym (Permᴰ.swap q r) = Permᴰ.swap (sym r) (sym q)
  perm-sym (Permᴰ.trans p q) = Permᴰ.trans (perm-sym q) (perm-sym p)

module _ {ℓ κ} {A : Type ℓ} {B : Type κ} (f : A → B) where
  pub map-mem : {y : B} (xs : List A) → Memᴰ y (map f xs) → (x : A) × Memᴰ x xs × (y ≡ f x)
  map-mem [] m = elim m [ ]
  map-mem (x ∷ xs) (Memᴰ.head e) = (x, Memᴰ.head refl, e)
  map-mem (x ∷ xs) (Memᴰ.tail m) = let (z, m', e) = map-mem xs m in (z, Memᴰ.tail m', e)

  pub mem-map : {x : A} (xs : List A) → Memᴰ x xs → Memᴰ (f x) (map f xs)
  mem-map [] m = elim m [ ]
  mem-map (y ∷ xs) (Memᴰ.head e) = Memᴰ.head (ap f e)
  mem-map (y ∷ xs) (Memᴰ.tail m) = Memᴰ.tail (mem-map xs m)
