-- ===== src/Base/Decimal.antt =====
-- Decimal digits of a number, as Go's `%d` writes them.
use container_census.Base.Texts.{Text, occurs}
use container_census.Base.Tests.{if◌then◌else◌, ltb, leb}
use Prim.Native.Nat.{ℕ, zero, suc, ◌+◌, ◌*◌, ◌/◌, ◌%◌, ◌<◌}
use mathlib.Core.Path.{◌≡◌, refl, sym, ap, ◌∙◌}
use mathlib.Core.Bool.{Bool, true, false, ◌&&◌, ◌||◌}
use mathlib.Core.List.{[], ◌∷◌, reverse, ◌++◌, reverse-cons}
use container_census.Base.Lists.{all}
use native.Mathlib.Omega.{arith}

-- The digits from the last one on; `fuel` above the number is enough.
pub digits_rev : ℕ → ℕ → Text
digits_rev zero n = []
digits_rev (suc fuel) n =
    let rest = digits_rev fuel (n / 10) in if ltb n 10 then (48 + n) ∷ [] else (48 + n % 10) ∷ rest

-- The number that such digits stand for.
pub value_rev : Text → ℕ
value_rev [] = 0
value_rev (d ∷ ds) = d % 48 + 10 * value_rev ds

pub value-digits_rev : (fuel n : ℕ) → n < fuel → value_rev (digits_rev fuel n) ≡ n
unfolding digits_rev value_rev
value-digits_rev zero n h = absurd (omega arith)
value-digits_rev (suc fuel) n h = ground (arith, value-digits_rev fuel (n / 10))

-- `%d` of a number.
unfoldable pub decimal : ℕ → Text
unfolding digits_rev
decimal n = reverse (digits_rev (suc n) n)

abbrev pub is_digit : ℕ → Bool
is_digit d = leb 48 d && ltb d 58

pub digits_rev-is_digit : (fuel n : ℕ) → all is_digit (digits_rev fuel n) ≡ true
unfolding digits_rev
digits_rev-is_digit zero n = refl
digits_rev-is_digit (suc fuel) n = ground (arith, digits_rev-is_digit fuel (n / 10))

-- Distinct numbers have distinct digits.
pub digits_rev-injective : (m n : ℕ) → digits_rev (suc m) m ≡ digits_rev (suc n) n → m ≡ n
digits_rev-injective m n e =
    sym (value-digits_rev (suc m) m (omega arith))
    ∙ ap value_rev e
    ∙ value-digits_rev (suc n) n (omega arith)

pub occurs-append : (c : ℕ) (xs ys : Text) → occurs c (xs ++ ys) ≡ (occurs c xs || occurs c ys)
occurs-append c [] ys = refl
occurs-append c (x ∷ xs) ys = ground (arith, occurs-append c xs ys)

pub occurs-reverse : (c : ℕ) (xs : Text) → occurs c (reverse xs) ≡ occurs c xs
occurs-reverse c [] = refl
occurs-reverse c (x ∷ xs) =
    rw (reverse-cons x xs, occurs-append c (reverse xs) (x ∷ []), occurs-reverse c xs)
      (ground arith)

-- Only digits occur among digits.
pub digits_rev-occurs :
    (c : ℕ) (ds : Text) → is_digit c ≡ false → all is_digit ds ≡ true → occurs c ds ≡ false
digits_rev-occurs c [] no_digit h = refl
digits_rev-occurs c (d ∷ ds) no_digit h =
    ground (arith, no_digit, h, digits_rev-occurs c ds no_digit (ground (arith, h)))

pub decimal-occurs : (c n : ℕ) → is_digit c ≡ false → occurs c (decimal n) ≡ false
unfolding decimal
decimal-occurs c n no_digit =
    occurs-reverse c (digits_rev (suc n) n)
    ∙ digits_rev-occurs c (digits_rev (suc n) n) no_digit (digits_rev-is_digit (suc n) n)
