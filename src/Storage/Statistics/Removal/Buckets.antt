-- ===== src/Storage/Statistics/Removal/Buckets.antt =====
-- The hourly rows that AggregateOldStats of internal/storage/db.go leaves, and what a second pass makes of
-- an hour that the first one saw in part.
use container_census.Base.{
  ◌≡◌, ◌⊎◌, inl, inr, refl, sym, ap, subst, ◌∙◌, true, false, not, List, [], ◌∷◌, ◌++◌, map,
  text_eq, nat_eq, text_beq_iff, ==_refl, any, any-mem, mem-not_any, keep, keep-mem, keep_congr,
  length, append-mem, mem-map, map-mem, arith, Memᴰ, Bool-cases,
}
use container_census.Models.{Time, Float64}
use container_census.Storage.Containers.{ContainerRow}
use container_census.Storage.Statistics.{
  AggregateRow, StatsTables, Sqlite, hour_of, is_aggregated, same_group, representatives,
  same_bucket, is_bucket_of, replace_all, group_row, aggregate, aggregate_old_stats,
}
use container_census.Storage.Statistics.Removal.{
  representatives-any, aggregate_old_stats-containers,
}

module _ {F : Type 0} where
  -- What a pass leaves is new, or is in the bucket of nothing that is new.
  replace_all-mem :
      (new table : List (AggregateRow F)) (a : AggregateRow F)
      → Memᴰ a (replace_all new table)
      → Memᴰ a new ⊎ (Memᴰ a table × (any (λ g. same_bucket g a) new ≡ false))
  unfolding replace_all
  replace_all-mem [] table a m = inr (m, refl)
  replace_all-mem (g ∷ new) table a m =
      let rest = keep (λ b. not (same_bucket g b)) table in
      elim (replace_all-mem new (rest ++ (g ∷ [])) a m) [
        | inl k ↦ inl (Memᴰ.tail k)
        | inr (k, other) ↦ elim (append-mem rest (g ∷ []) k) [
          | inl old ↦
              let (l, q) = keep-mem (λ b. not (same_bucket g b)) table old in
              inr (l, ground (arith, q, other))
          | inr (Memᴰ.head e) ↦ inl (Memᴰ.head e)
          | inr (Memᴰ.tail l) ↦ elim l [ ]
        ]
      ]

  cons-mem :
      {x r : ContainerRow F} {xs ys : List (ContainerRow F)}
      → (Memᴰ r xs → Memᴰ r ys)
      → Memᴰ r (x ∷ xs)
      → Memᴰ r (x ∷ ys)
  cons-mem f (Memᴰ.head e) = Memᴰ.head e
  cons-mem f (Memᴰ.tail k) = Memᴰ.tail (f k)

  representatives-mem :
      (r : ContainerRow F) (rs : List (ContainerRow F)) → Memᴰ r (representatives rs) → Memᴰ r rs
  unfolding representatives
  representatives-mem r [] m = m
  representatives-mem r (x ∷ rs) m = elim (Bool-cases (any (same_group x) (representatives rs))) [
    | inl q ↦ Memᴰ.tail (representatives-mem r rs (rw q at m))
    | inr q ↦ cons-mem (representatives-mem r rs) (rw q at m)
  ]

  -- A container keeps its name and its host's name.
  abbrev pub IsNamed : List (ContainerRow F) → Type 0
  IsNamed rows =
      (r s : ContainerRow F)
      → Memᴰ r rows
      → Memᴰ s rows
      → r.id ≡ s.id
      → r.host_id ≡ s.host_id
      → (r.name ≡ s.name) × (r.host_name ≡ s.host_name)

  -- Among named rows, a group is what shares a bucket.
  same_group-bucket :
      (rows : List (ContainerRow F)) (a : AggregateRow F) (r s : ContainerRow F)
      → IsNamed rows
      → Memᴰ r rows
      → Memᴰ s rows
      → is_bucket_of r a ≡ true
      → same_group r s ≡ is_bucket_of s a
  same_group-bucket rows a r s named m k h =
      let of_r = text_beq_iff r.id a.container_id in
      elim (Bool-cases (is_bucket_of s a)) [
        | inl e ↦
            let same_id : r.id ≡ s.id =
              of_r.0 (ground (arith, h))
              ∙ sym ((text_beq_iff s.id a.container_id).0 (ground (arith, e))) in
            let (p, q) = named r s m k same_id (ground (arith, h, e)) in
            ground (
              arith,
              h,
              e,
              (text_beq_iff r.id s.id).1 same_id,
              (text_beq_iff r.name s.name).1 p,
              (text_beq_iff r.host_name s.host_name).1 q,
            )
        | inr e ↦ elim (Bool-cases (same_group r s)) [
          | inl d ↦
              let same_id = sym ((text_beq_iff r.id s.id).0 (ground (arith, d))) in
              let here =
                (text_beq_iff s.id a.container_id).1 (same_id ∙ of_r.0 (ground (arith, h))) in
              absurd (ground (arith, h, d, e, here))
          | inr d ↦ d ∙ sym e
        ]
      ]

module _ {F : Type 0} (fl : Float64 F) (sql : Sqlite F) where
  group_row-bucket :
      (old : List (ContainerRow F)) (r : ContainerRow F)
      → (is_bucket_of r (group_row fl sql old r) ≡ true)
        × ((group_row fl sql old r).sample_count ≡ length (keep (same_group r) old))
  unfolding group_row
  group_row-bucket old r =
      (ground (arith, ==_refl r.id, ==_refl r.host_id, ==_refl (hour_of r.scanned_at)), refl)

  new_row-replaces :
      (old : List (ContainerRow F)) (row r : ContainerRow F) (a : AggregateRow F)
      → same_group row r ≡ true
      → is_bucket_of row a ≡ true
      → same_bucket (group_row fl sql old r) a ≡ true
  unfolding group_row
  new_row-replaces old row r a q h =
      let same_id = sym ((text_beq_iff row.id r.id).0 (ground (arith, q))) in
      let here =
        (text_beq_iff r.id a.container_id).1
          (same_id ∙ (text_beq_iff row.id a.container_id).0 (ground (arith, h))) in
      ground (arith, q, h, here)

  -- The rows of a bucket count the rows that this pass aggregates, whatever the bucket held before.
  pub aggregate-count :
      (now : Time) (db : StatsTables F) (row : ContainerRow F) (a : AggregateRow F)
      → IsNamed (keep (is_aggregated now) db.containers)
      → Memᴰ row (keep (is_aggregated now) db.containers)
      → Memᴰ a (aggregate fl sql now db)
      → is_bucket_of row a ≡ true
      → a.sample_count
        ≡ length (keep (λ s. is_bucket_of s a) (keep (is_aggregated now) db.containers))
  unfolding aggregate
  aggregate-count now db row a named m k h =
      let old = keep (is_aggregated now) db.containers in
      let new = map (group_row fl sql old) (representatives old) in
      let (s, l, q) =
        any-mem (same_group row) (representatives old) (representatives-any row old m) in
      elim (replace_all-mem new db.aggregates a k) [
        | inl fresh ↦
            let (r, n, e) = map-mem (group_row fl sql old) (representatives old) fresh in
            let (bucket, count) = group_row-bucket old r in
            let of_a : is_bucket_of r a ≡ true = ap (is_bucket_of r) e ∙ bucket in
            ap (λ (b : AggregateRow F). b.sample_count) e
            ∙ count
            ∙ ap length (
                keep_congr (same_group r) (λ t. is_bucket_of t a) old
                  (λ t mt. same_group-bucket old a r t named (representatives-mem r old n) mt of_a))
        | inr (stale, other) ↦ absurd (
            ground (
              arith,
              new_row-replaces old row s a q h,
              mem-not_any (λ g. same_bucket g a) new other
                  (mem-map (group_row fl sql old) (representatives old) l),
            ))
      ]

  -- What the first pass removed is counted by no bucket of the second.
  abbrev pub second_containers :
      Time → StatsTables F → List (ContainerRow F) → List (ContainerRow F)
  second_containers first db scans =
      keep (λ row. not (is_aggregated first row)) db.containers ++ scans

  abbrev pub after_first : Time → StatsTables F → List (ContainerRow F) → StatsTables F
  after_first first db scans = record {
    containers = (aggregate_old_stats fl sql first db).0.containers ++ scans;
    aggregates = (aggregate_old_stats fl sql first db).0.aggregates;
  }

  -- A second pass over an hour that the first one saw in part: after new scans, the row of a bucket with
  -- something to aggregate counts only the rows that the first pass left in the table and the new ones.
  -- The rows of the same hour that the first pass removed are counted nowhere any more. (The names of
  -- containers and hosts do not change.)
  pub aggregate_again :
      (first second : Time) (db : StatsTables F) (scans : List (ContainerRow F))
      (row : ContainerRow F) (a : AggregateRow F)
      → IsNamed (keep (is_aggregated second) (second_containers first db scans))
      → Memᴰ row (keep (is_aggregated second) (second_containers first db scans))
      → Memᴰ a (aggregate_old_stats fl sql second (after_first first db scans)).0.aggregates
      → is_bucket_of row a ≡ true
      → a.sample_count
        ≡ length (
            keep
              (λ s. is_bucket_of s a)
              (keep (is_aggregated second) (second_containers first db scans)))
  unfolding aggregate_old_stats
  aggregate_again first second db scans row a named m k h =
      let p : (aggregate_old_stats fl sql first db).0.containers ++ scans
          ≡ second_containers first db scans =
        ap (λ rows. rows ++ scans) (aggregate_old_stats-containers fl sql first db) in
      let q = ap (keep (is_aggregated second)) p in
      aggregate-count second (after_first first db scans) row a (subst IsNamed (sym q) named)
        (subst (Memᴰ row) (sym q) m) k h
      ∙ ap (λ rows. length (keep (λ s. is_bucket_of s a) rows)) q
