-- ===== src/Notifications/Thresholds/Key.antt =====
-- The keys of `thresholdState` (internal/notifications/notifier.go) tell the containers apart.
use mathlib.Core.List.{reverse, reverse-append, reverse-cons, reverse-reverse, append_assoc}
use container_census.Base.{
  ℕ, suc, ◌≡◌, refl, sym, ap, ◌∙◌, false, [], ◌∷◌, ◌++◌, Text, digits_rev, digits_rev-is_digit,
  digits_rev-injective, decimal, arith, occurs, occurs-reverse, digits_rev-occurs,
}
use container_census.Notifications.Thresholds.{threshold_key}

-- Two texts without a dash are cut off at the first dash.
split_dash :
    (xs ys rest rest' : Text)
    → occurs 45 xs ≡ false
    → occurs 45 ys ≡ false
    → xs ++ (45 ∷ rest) ≡ ys ++ (45 ∷ rest')
    → (xs ≡ ys) × (rest ≡ rest')
split_dash [] [] r r' h k e = (refl, cc)
split_dash [] (y ∷ ys) r r' h k e = absurd (ground arith)
split_dash (x ∷ xs) [] r r' h k e = absurd (ground arith)
split_dash (x ∷ xs) (y ∷ ys) r r' h k e =
    let (p, q) = split_dash xs ys r r' (ground arith) (ground arith) (cc) in (cc, q)

reverse-threshold_key :
    (id : Text) (host : ℕ) (ty : Text)
    → reverse (threshold_key id host ty)
      ≡ reverse ty ++ (45 ∷ (digits_rev (suc host) host ++ (45 ∷ reverse id)))
unfolding threshold_key decimal
reverse-threshold_key id host ty =
    simp (reverse-append, reverse-cons, reverse-reverse, append_assoc)

reverse-injective : (xs ys : Text) → reverse xs ≡ reverse ys → xs ≡ ys
reverse-injective xs ys e = sym (reverse-reverse xs) ∙ ap reverse e ∙ reverse-reverse ys

-- Two trackers share a key only if they are of the same container, host and kind of threshold, where
-- the kinds have no dash in them; a container's id may hold any text.
pub threshold_key-injective :
    (id id' : Text) (host host' : ℕ) (ty ty' : Text)
    → occurs 45 ty ≡ false
    → occurs 45 ty' ≡ false
    → threshold_key id host ty ≡ threshold_key id' host' ty'
    → (id ≡ id') × (host ≡ host') × (ty ≡ ty')
threshold_key-injective id id' host host' ty ty' h h' e =
    let k =
      sym (reverse-threshold_key id host ty) ∙ ap reverse e ∙ reverse-threshold_key id' host' ty' in
    let (same_ty, tail) =
      split_dash (reverse ty) (reverse ty') _ _ (occurs-reverse 45 ty ∙ h)
        (occurs-reverse 45 ty' ∙ h') k in
    let (same_host, same_id) =
      split_dash (digits_rev (suc host) host) (digits_rev (suc host') host') _ _
        (digits_rev-occurs 45 (digits_rev (suc host) host) refl
          (digits_rev-is_digit (suc host) host))
        (digits_rev-occurs 45 (digits_rev (suc host') host') refl
          (digits_rev-is_digit (suc host') host'))
        tail in
    (
      reverse-injective id id' same_id,
      digits_rev-injective host host' same_host,
      reverse-injective ty ty' same_ty,
    )
