-- ===== src/Storage/Statistics/Removal.antt =====
-- What AggregateOldStats of internal/storage/db.go removes from the containers table.
pub mod Buckets
use container_census.Base.{
  ℕ, ◌+◌, ◌*◌, ◌/◌, ◌≡◌, ◌⊎◌, inl, inr, refl, sym, ap, ◌∙◌, Bool, true, false, not, ◌&&◌, ◌||◌,
  List, [], ◌∷◌, ◌++◌, none, some, map, Text, text_eq, nat_eq, text_beq_iff, nat_beq_iff, ◌==◌,
  ==_refl, if◌then◌else◌, any, any-mem, mem-any, keep, keep-mem, mem-keep, keep_congr,
  mem-append_left, mem-append_right, mem-map, ltb, leb, arith, Memᴰ, Bool-cases,
}
use container_census.Models.{Time, hour, Float64}
use container_census.Storage.Containers.{ContainerRow}
use container_census.Storage.Statistics.{
  AggregateRow, StatsTables, Sqlite, hour_of, is_measured, is_aggregated, same_group,
  representatives, same_bucket, is_bucket_of, replace_all, group_row, aggregate,
  aggregate_old_stats,
}

module _ {F : Type 0} where
  -- A predicate on the bucket of a row only.
  abbrev pub OnBuckets : (AggregateRow F → Bool) → Type 0
  OnBuckets p = (a b : AggregateRow F) → same_bucket a b ≡ true → p b ≡ true → p a ≡ true

  is_bucket_of-OnBuckets : (row : ContainerRow F) → OnBuckets (is_bucket_of row)
  is_bucket_of-OnBuckets row a b q h = ground (
    arith,
    q,
    h,
    text_beq_iff a.container_id b.container_id,
    text_beq_iff row.id b.container_id,
    text_beq_iff row.id a.container_id,
  )

  replace_all-any_old :
      (p : AggregateRow F → Bool)
      → OnBuckets p
      → (new table : List (AggregateRow F)) → any p table ≡ true
      → any p (replace_all new table) ≡ true
  unfolding replace_all
  replace_all-any_old p on [] table h = h
  replace_all-any_old p on (a ∷ new) table h =
      let (b, m, q) = any-mem p table h in
      let rest = keep (λ c. not (same_bucket a c)) table in
      replace_all-any_old p on new (rest ++ (a ∷ [])) (elim (Bool-cases (same_bucket a b)) [
        | inl e ↦
            mem-any p (rest ++ (a ∷ [])) (mem-append_right rest (a ∷ []) (Memᴰ.head refl))
              (on a b e q)
        | inr e ↦
            mem-any p (rest ++ (a ∷ []))
              (mem-append_left rest (a ∷ [])
                (mem-keep (λ c. not (same_bucket a c)) table m (ground (arith, e))))
              q
      ])

  -- What is inserted is there, or was replaced by another row of its bucket.
  pub replace_all-any :
      (p : AggregateRow F → Bool)
      → OnBuckets p
      → (new table : List (AggregateRow F)) → any p new ≡ true
      → any p (replace_all new table) ≡ true
  unfolding replace_all
  replace_all-any p on [] table h = absurd (ground (arith, h))
  replace_all-any p on (a ∷ new) table h = elim (Bool-cases (p a)) [
    | inl e ↦
        let rest = keep (λ c. not (same_bucket a c)) table in
        replace_all-any_old p on new (rest ++ (a ∷ []))
          (mem-any p (rest ++ (a ∷ [])) (mem-append_right rest (a ∷ []) (Memᴰ.head refl)) e)
    | inr e ↦
        replace_all-any p on new (keep (λ c. not (same_bucket a c)) table ++ (a ∷ []))
          (ground (arith, e, h))
  ]

  same_group_refl : (r : ContainerRow F) → same_group r r ≡ true
  same_group_refl r = ground (
    arith,
    ==_refl r.id,
    ==_refl r.name,
    ==_refl r.host_id,
    ==_refl r.host_name,
    ==_refl (hour_of r.scanned_at),
  )

  pub representatives-any :
      (r : ContainerRow F) (rs : List (ContainerRow F))
      → Memᴰ r rs
      → any (same_group r) (representatives rs) ≡ true
  unfolding representatives
  representatives-any r [] m = elim m [ ]
  representatives-any r (x ∷ rs) (Memᴰ.head e) =
      elim (Bool-cases (any (same_group x) (representatives rs))) [
        | inl q ↦ rw q (rw e q)
        | inr q ↦ rw (q, e) (ground (arith, same_group_refl x))
      ]
  representatives-any r (x ∷ rs) (Memᴰ.tail m) =
      let ih = representatives-any r rs m in
      elim (Bool-cases (any (same_group x) (representatives rs))) [
        | inl q ↦ rw q ih
        | inr q ↦ rw q (ground (arith, ih))
      ]

module _ {F : Type 0} (fl : Float64 F) (sql : Sqlite F) (now : Time) (db : StatsTables F) where
  group_row-bucket :
      (old : List (ContainerRow F)) (r s : ContainerRow F)
      → same_group r s ≡ true
      → is_bucket_of r (group_row fl sql old s) ≡ true
  unfolding group_row
  group_row-bucket old r s h = ground (arith, h)

  -- Each row that is aggregated has its bucket.
  pub aggregated-bucket :
      (row : ContainerRow F)
      → Memᴰ row db.containers
      → is_aggregated now row ≡ true
      → any (is_bucket_of row) (aggregate fl sql now db) ≡ true
  unfolding aggregate
  aggregated-bucket row m h =
      let old = keep (is_aggregated now) db.containers in
      let (s, k, q) =
        any-mem (same_group row) (representatives old)
          (representatives-any row old (mem-keep (is_aggregated now) db.containers m h)) in
      replace_all-any (is_bucket_of row) (is_bucket_of-OnBuckets row)
        (map (group_row fl sql old) (representatives old)) db.aggregates
        (mem-any (is_bucket_of row) (map (group_row fl sql old) (representatives old))
          (mem-map (group_row fl sql old) (representatives old) k) (group_row-bucket old row s q))

  -- A pass removes exactly the rows with statistics of the scans over an hour ago.
  pub aggregate_old_stats-containers :
      (aggregate_old_stats fl sql now db).0.containers
      ≡ keep (λ row. not (is_aggregated now row)) db.containers
  unfolding aggregate_old_stats
  aggregate_old_stats-containers =
      keep_congr
        (λ row. not (is_aggregated now row && any (is_bucket_of row) (aggregate fl sql now db)))
        (λ row. not (is_aggregated now row)) db.containers
        (λ row m. elim (Bool-cases (is_aggregated now row)) [
          | inl e ↦ ground (arith, e, aggregated-bucket row m e)
          | inr e ↦ ground (arith, e)
        ])
