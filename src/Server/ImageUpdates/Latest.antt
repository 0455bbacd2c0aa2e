-- ===== src/Server/ImageUpdates/Latest.antt =====
-- The latest row of a container, of the table containers, and the latest scan of its host.
use container_census.Base.{
  ℕ, ◌≤◌, ◌≡◌, refl, sym, ap, inl, inr, List, [], ◌∷◌, Option, none, some, Text, text_eq,
  text_beq_iff, nat_eq, Memᴰ, Option-cases, arith, true,
}
use container_census.Models.{Time}
use container_census.Storage.Containers.{ContainerRow, is_latest}
use container_census.Storage.Containers.RoundTrip.Keys.{is_latest-bound}
use container_census.Server.ImageUpdates.{max_of}

abbrev IsMax : Time → Option Time → Type 0
IsMax t none = Unit
IsMax t (some u) = u ≤ t

module _ {F : Type 0} where
  -- No row of the host is later than `t`.
  abbrev UpTo : ℕ → Time → List (ContainerRow F) → Type 0
  UpTo host_id t rows =
      (row : ContainerRow F) → Memᴰ row rows → row.host_id ≡ host_id → row.scanned_at ≤ t

  max_of-le :
      (id : Text) (host_id : ℕ) (t : Time) (rows : List (ContainerRow F))
      → UpTo host_id t rows
      → IsMax t (max_of id host_id rows)
  unfolding max_of
  max_of-le id host_id t [] h = tt
  max_of-le id host_id t (row ∷ rows) h =
      let rest = max_of-le id host_id t rows (λ r m. h r (Memᴰ.tail m)) in
      elim (Option-cases (max_of id host_id rows)) [
        | inl e ↦ ground (arith, e, rest, h row (Memᴰ.head refl))
        | inr (u, e) ↦ ground (arith, e, rest, h row (Memᴰ.head refl))
      ]

  -- The time of a row that no row of its host is later than.
  max_of-eq :
      (t : Time) (rows : List (ContainerRow F)) (row : ContainerRow F)
      → Memᴰ row rows
      → row.scanned_at ≡ t
      → UpTo row.host_id t rows
      → max_of row.id row.host_id rows ≡ some t
  unfolding max_of
  max_of-eq t [] row m s h = elim m [ ]
  max_of-eq t (r ∷ rows) row (Memᴰ.head e) s h =
      let rest = max_of-le row.id row.host_id t rows (λ x m. h x (Memᴰ.tail m)) in
      let ids = (text_beq_iff r.id row.id).1 (sym (ap (λ x. x.id) e)) in
      elim (Option-cases (max_of row.id row.host_id rows)) [
        | inl n ↦ ground (arith, n, ids, s, ap (λ x. x.host_id) e, ap (λ x. x.scanned_at) e)
        | inr (u, n) ↦
            ground (arith, n, rest, ids, s, ap (λ x. x.host_id) e, ap (λ x. x.scanned_at) e)
      ]
  max_of-eq t (r ∷ rows) row (Memᴰ.tail m) s h =
      let rest = max_of-eq t rows row m s (λ x m'. h x (Memᴰ.tail m')) in
      ground (arith, rest, h r (Memᴰ.head refl))

  -- A row of the latest scan of its host is the latest of its container.
  pub max_of-is_latest :
      (table : List (ContainerRow F)) (row : ContainerRow F)
      → Memᴰ row table
      → is_latest table row ≡ true
      → max_of row.id row.host_id table ≡ some row.scanned_at
  max_of-is_latest table row m h =
      max_of-eq row.scanned_at table row m refl (λ x n q. is_latest-bound table row x h n q)
