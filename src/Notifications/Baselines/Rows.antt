-- ===== src/Notifications/Baselines/Rows.antt =====
-- The rows that SaveContainerBaseline leaves, and what GetContainerBaseline of
-- internal/storage/notifications.go reads from them.
use container_census.Base.{
  ℕ, ◌/◌, ◌<◌, ◌≡◌, refl, sym, ap, ◌∙◌, Bool, true, false, not, List, [], ◌∷◌, ◌++◌, inl, inr, some,
  Text, text_eq, nat_eq, text_beq_iff, ◌==◌, keep, keep-append, keep-keep, append-nil, ==_refl,
  Every, arith, Bool-cases,
}
use container_census.Models.{Time, second, ContainerBaselineStats}
use container_census.Notifications.Baselines.{
  BaselineRow, replace_row, same_image, latest, rows_of, row_stats, is_of, get_container_baseline,
}

pub ==_false_sym : (s t : Text) → (s == t) ≡ false → (t == s) ≡ false
==_false_sym s t h = elim (Bool-cases (t == s)) [
  | inl e ↦ absurd (ground (arith, h, (text_beq_iff s t).1 (sym ((text_beq_iff t s).0 e))))
  | inr e ↦ e
]

keep-keep-Every {ℓ κ} :
    {A : Type ℓ} (P : A → Type κ) (p q : A → Bool) (xs : List A)
    → Every P (keep p xs)
    → Every P (keep p (keep q xs))
keep-keep-Every P p q [] h = tt
keep-keep-Every P p q (x ∷ xs) h = elim (Bool-cases (p x)) [
  | inl e ↦
      let (here, rest) : P x × Every P (keep p xs) = rw e at h in
      elim (Bool-cases (q x)) [
        | inl d ↦ rw (d, e) (here, keep-keep-Every P p q xs rest)
        | inr d ↦ rw d (keep-keep-Every P p q xs rest)
      ]
  | inr e ↦
      let rest = rw e at h in
      elim (Bool-cases (q x)) [
        | inl d ↦ rw (d, e) (keep-keep-Every P p q xs rest)
        | inr d ↦ rw d (keep-keep-Every P p q xs rest)
      ]
]

module _ {F : Type 0} where
  latest-append :
      (now : Time) (b : ContainerBaselineStats F) (rows : List (BaselineRow F))
      → Every (λ row. row.created_at < now / second) rows
      → latest (rows ++ (record { stats = b; created_at = now / second } ∷ []))
        ≡ some (record { stats = b; created_at = now / second })
  latest-append now b [] h = refl
  latest-append now b (row ∷ rows) h = ground (arith, h.0, latest-append now b rows h.1)

  -- Another image of this container, or a row of another container.
  not-same_image :
      (b : ContainerBaselineStats F) (id : Text) (row : BaselineRow F)
      → (b.container_id == id) ≡ false
      → (row.stats.container_id == id) ≡ true
      → same_image b row ≡ false
  unfolding same_image
  not-same_image b id row h q = elim (Bool-cases (row.stats.container_id == b.container_id)) [
    | inl e ↦ absurd (
        ground (
          arith,
          h,
          (text_beq_iff b.container_id id).1 (
              sym ((text_beq_iff row.stats.container_id b.container_id).0 e)
              ∙ (text_beq_iff row.stats.container_id id).0 q),
        ))
    | inr e ↦ ground (arith, e)
  ]

  -- The rows of another container stay.
  pub rows_of-replace_row-other :
      (now : Time) (b : ContainerBaselineStats F) (id : Text) (host_id : ℕ)
      (rows : List (BaselineRow F))
      → (b.container_id == id) ≡ false
      → rows_of id host_id (replace_row now b rows) ≡ rows_of id host_id rows
  unfolding replace_row
  rows_of-replace_row-other now b id host_id rows h =
      keep-append (is_of id host_id) (keep (λ row. not (same_image b row)) rows)
        (record { stats = b; created_at = now / second } ∷ [])
      ∙ ground (
        arith,
        h,
        append-nil (rows_of id host_id rows),
        keep-keep (is_of id host_id) (λ row. not (same_image b row)) rows
            (λ row q. ground (arith, not-same_image b id row h (ground (arith, q)))),
      )

  -- What is saved after every row of its container is read back.
  pub get-replace_row :
      (now : Time) (b : ContainerBaselineStats F) (rows : List (BaselineRow F))
      → Every (λ row. row.created_at < now / second) (rows_of b.container_id b.host_id rows)
      → get_container_baseline b.container_id b.host_id (replace_row now b rows) ≡ some b
  unfolding get_container_baseline replace_row
  get-replace_row now b rows h =
      let here : is_of b.container_id b.host_id (record { stats = b; created_at = now / second })
          ≡ true =
        ground (arith, ==_refl b.container_id, ==_refl b.host_id) in
      let others = keep (λ row. not (same_image b row)) rows in
      ap (λ rs. row_stats (latest rs))
        (keep-append (is_of b.container_id b.host_id) others
            (record { stats = b; created_at = now / second } ∷ [])
          ∙ ap (λ rs. rows_of b.container_id b.host_id others ++ rs) (rw here refl))
      ∙ ap row_stats (
          latest-append now b (rows_of b.container_id b.host_id others) (
            keep-keep-Every (λ row. row.created_at < now / second) (is_of b.container_id b.host_id)
              (λ row. not (same_image b row)) rows h))
