-- ===== src/Storage/Containers/RoundTrip/Keys.antt =====
-- The primary key and the latest scan of a host, of the table containers of internal/storage/db.go.
use container_census.Base.{
  ℕ, ◌≤◌, ◌≡◌, ◌≢◌, sym, ap, ◌∙◌, inl, inr, true, List, [], ◌∷◌, none, some, text_eq, text_beq_iff,
  nat_eq, Memᴰ, mem-not_any, arith, Option-cases,
}
use container_census.Models.{Time}
use container_census.Storage.Containers.{ContainerRow, same_key, max_scan, is_latest}
use container_census.Storage.Containers.RoundTrip.{IsKeyed}

module _ {F : Type 0} where
  -- Rows with the same primary key are the same row.
  pub keyed_same :
      (table : List (ContainerRow F)) (r s : ContainerRow F)
      → IsKeyed table
      → Memᴰ r table
      → Memᴰ s table
      → r.id ≡ s.id
      → r.host_id ≡ s.host_id
      → r.scanned_at ≡ s.scanned_at
      → r ≡ s
  unfolding same_key
  keyed_same [] r s k m n a b c = elim m [ ]
  keyed_same (t ∷ rows) r s k (Memᴰ.head e) (Memᴰ.head f) a b c = e ∙ sym f
  keyed_same (t ∷ rows) r s k (Memᴰ.tail m) (Memᴰ.tail n) a b c = keyed_same rows r s k.1 m n a b c
  keyed_same (t ∷ rows) r s k (Memᴰ.head e) (Memᴰ.tail n) a b c =
      let other = mem-not_any (λ row. same_key row t) rows k.0 n in
      absurd (
        ground (
          arith,
          other,
          (text_beq_iff s.id t.id).1 (sym a ∙ ap (λ row. row.id) e),
          sym b ∙ ap (λ row. row.host_id) e,
          sym c ∙ ap (λ row. row.scanned_at) e,
        ))
  keyed_same (t ∷ rows) r s k (Memᴰ.tail m) (Memᴰ.head f) a b c =
      let other = mem-not_any (λ row. same_key row t) rows k.0 m in
      absurd (
        ground (
          arith,
          other,
          (text_beq_iff r.id t.id).1 (a ∙ ap (λ row. row.id) f),
          b ∙ ap (λ row. row.host_id) f,
          c ∙ ap (λ row. row.scanned_at) f,
        ))

  max_scan-some :
      (host_id : ℕ) (rows : List (ContainerRow F)) (row : ContainerRow F)
      → Memᴰ row rows
      → row.host_id ≡ host_id
      → max_scan host_id rows ≢ none
  unfolding max_scan
  max_scan-some host_id [] row m q h = elim m [ ]
  max_scan-some host_id (r ∷ rows) row (Memᴰ.head e) q h =
      elim (Option-cases (max_scan host_id rows)) [
        | inl n ↦ ground (arith, n, h, q, ap (λ x. x.host_id) e)
        | inr (u, n) ↦ ground (arith, n, h, q, ap (λ x. x.host_id) e)
      ]
  max_scan-some host_id (r ∷ rows) row (Memᴰ.tail m) q h =
      let rest = max_scan-some host_id rows row m q in
      elim (Option-cases (max_scan host_id rows)) [
        | inl n ↦ rest n
        | inr (u, n) ↦ ground (arith, n, h)
      ]

  max_scan-bound :
      (host_id : ℕ) (t : Time) (rows : List (ContainerRow F)) (row : ContainerRow F)
      → Memᴰ row rows
      → row.host_id ≡ host_id
      → max_scan host_id rows ≡ some t
      → row.scanned_at ≤ t
  unfolding max_scan
  max_scan-bound host_id t [] row m q h = elim m [ ]
  max_scan-bound host_id t (r ∷ rows) row (Memᴰ.head e) q h =
      elim (Option-cases (max_scan host_id rows)) [
        | inl n ↦ ground (arith, n, q, h, ap (λ x. x.host_id) e, ap (λ x. x.scanned_at) e)
        | inr (u, n) ↦ ground (arith, n, q, h, ap (λ x. x.host_id) e, ap (λ x. x.scanned_at) e)
      ]
  max_scan-bound host_id t (r ∷ rows) row (Memᴰ.tail m) q h =
      elim (Option-cases (max_scan host_id rows)) [
        | inl n ↦ absurd (max_scan-some host_id rows row m q n)
        | inr (u, n) ↦ ground (arith, n, h, max_scan-bound host_id u rows row m q n)
      ]

  -- No row of the host is later than one of its latest scan.
  pub is_latest-bound :
      (table : List (ContainerRow F)) (r row : ContainerRow F)
      → is_latest table r ≡ true
      → Memᴰ row table
      → row.host_id ≡ r.host_id
      → row.scanned_at ≤ r.scanned_at
  unfolding is_latest
  is_latest-bound table r row h m q = elim (Option-cases (max_scan r.host_id table)) [
    | inl n ↦ absurd (ground (arith, n, h))
    | inr (u, n) ↦ ground (arith, n, h, max_scan-bound r.host_id u table row m q n)
  ]
