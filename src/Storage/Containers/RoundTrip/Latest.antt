-- ===== src/Storage/Containers/RoundTrip/Latest.antt =====
-- GetContainersByHost of internal/storage/db.go after SaveContainers.
use container_census.Base.{
  ℕ, ◌≤◌, ◌<◌, ◌≡◌, ◌↔◌, inl, inr, refl, ap, ◌∙◌, true, ◌&&◌, List, [], ◌∷◌, ◌++◌, map, Option,
  none, some, text_eq, nat_eq, ◌==◌, keep, keep-mem, mem-keep, append-mem, map-mem, mem-map,
  mem-append_right, Memᴰ, arith, Option-cases, sort_by, sort_by-perm, mem-perm, perm-sym,
}
use container_census.Models.{Time, Float64, Container}
use container_census.Storage.Containers.RoundTrip.{save_containers_appends}
use container_census.Storage.Containers.{
  ContainerRow, to_row, save_containers, scan_container, max_scan, is_latest,
  get_containers_by_host, text_lt,
}

abbrev MaxUpTo : Time → Option Time → Type 0
MaxUpTo t none = Unit
MaxUpTo t (some u) = u ≤ t

module _ {F : Type 0} where
  -- No row of a host is later than `t`.
  abbrev HostUpTo : ℕ → Time → List (ContainerRow F) → Type 0
  HostUpTo host_id t rows =
      (row : ContainerRow F) → Memᴰ row rows → row.host_id ≡ host_id → row.scanned_at ≤ t

  max_scan-le :
      (host_id : ℕ) (t : Time) (rows : List (ContainerRow F))
      → HostUpTo host_id t rows
      → MaxUpTo t (max_scan host_id rows)
  unfolding max_scan
  max_scan-le host_id t [] h = tt
  max_scan-le host_id t (row ∷ rows) h =
      let rest = max_scan-le host_id t rows (λ r m. h r (Memᴰ.tail m)) in
      elim (Option-cases (max_scan host_id rows)) [
        | inl e ↦ ground (arith, e, rest, h row (Memᴰ.head refl))
        | inr (u, e) ↦ ground (arith, e, rest, h row (Memᴰ.head refl))
      ]

  max_scan-eq :
      (host_id : ℕ) (t : Time) (rows : List (ContainerRow F)) (row : ContainerRow F)
      → Memᴰ row rows
      → row.host_id ≡ host_id
      → row.scanned_at ≡ t
      → HostUpTo host_id t rows
      → max_scan host_id rows ≡ some t
  unfolding max_scan
  max_scan-eq host_id t [] row m q s h = elim m [ ]
  max_scan-eq host_id t (r ∷ rows) row (Memᴰ.head e) q s h =
      let rest = max_scan-le host_id t rows (λ x m. h x (Memᴰ.tail m)) in
      elim (Option-cases (max_scan host_id rows)) [
        | inl n ↦ ground (arith, n, q, s, ap (λ x. x.host_id) e, ap (λ x. x.scanned_at) e)
        | inr (u, n) ↦
            ground (arith, n, rest, q, s, ap (λ x. x.host_id) e, ap (λ x. x.scanned_at) e)
      ]
  max_scan-eq host_id t (r ∷ rows) row (Memᴰ.tail m) q s h =
      let rest = max_scan-eq host_id t rows row m q s (λ x m'. h x (Memᴰ.tail m')) in
      ground (arith, rest, h r (Memᴰ.head refl))

  is_latest_iff :
      (host_id : ℕ) (t : Time) (table : List (ContainerRow F)) (row : ContainerRow F)
      → max_scan host_id table ≡ some t
      → ((row.host_id == host_id && is_latest table row) ≡ true)
        ↔ (row.host_id ≡ host_id) × (row.scanned_at ≡ t)
  unfolding is_latest
  is_latest_iff host_id t table row latest = (
    λ h.
        let own : row.host_id ≡ host_id = ground (arith, h) in
        (own, ground (arith, h, latest, ap (λ n. max_scan n table) own)),
    λ (own, at). ground (arith, own, at, latest, ap (λ n. max_scan n table) own),
  )

module _ {F : Type 0} (fl : Float64 F) where
  -- The containers that GetContainersByHost gives for a host are those of the rows of its latest scan.
  mem-get_containers_by_host_iff :
      (host_id : ℕ) (t : Time) (table : List (ContainerRow F)) (x : Container F)
      → max_scan host_id table ≡ some t
      → Memᴰ x (get_containers_by_host fl host_id table) ↔ (
          (row : ContainerRow F) × Memᴰ row table
          × (row.host_id ≡ host_id)
          × (row.scanned_at ≡ t)
          × (x ≡ scan_container fl row))
  unfolding get_containers_by_host is_latest
  mem-get_containers_by_host_iff host_id t table x latest =
      let test = λ (row : ContainerRow F). row.host_id == host_id && is_latest table row in
      let order = sort_by-perm (λ r s. text_lt r.name s.name) (keep test table) in
      (
        λ m.
            let (row, m', e) =
              map-mem (scan_container fl) (sort_by (λ r s. text_lt r.name s.name) (keep test table))
                m in
            let (m2, passes) = keep-mem test table (mem-perm order m') in
            let (own, at) = (is_latest_iff host_id t table row latest).0 passes in
            (row, m2, own, at, e),
        λ (row, m, own, at, e). rw e (
            mem-map (scan_container fl) (sort_by (λ r s. text_lt r.name s.name) (keep test table)) (
              mem-perm (perm-sym order)
                (mem-keep test table m ((is_latest_iff host_id t table row latest).1 (own, at))))),
      )

  -- After a scan of a host was stored, later than all its rows, GetContainersByHost gives the containers
  -- of that scan as they are read back, and no others.
  pub mem-get_containers_by_host-save_containers_iff :
      (host_id : ℕ) (t : Time) (cs : List (Container F)) (table : List (ContainerRow F))
      (first : Container F)
      → ((c : Container F) → Memᴰ c cs → (c.host_id ≡ host_id) × (c.scanned_at ≡ t))
      → ((row : ContainerRow F) → Memᴰ row table → row.host_id ≡ host_id → row.scanned_at < t)
      → Memᴰ first cs
      → (save_containers cs table).1 ≡ none
      → (x : Container F)
      → Memᴰ x (get_containers_by_host fl host_id (save_containers cs table).0)
        ↔ ((c : Container F) × Memᴰ c cs × (x ≡ scan_container fl (to_row c)))
  unfolding to_row
  mem-get_containers_by_host-save_containers_iff host_id t cs table first scan older m saved x =
      let rows = table ++ map to_row cs in
      let latest =
        max_scan-eq host_id t rows (to_row first)
          (mem-append_right table (map to_row cs) (mem-map to_row cs m)) (scan first m).0
          (scan first m).1
          (λ row m' own. elim (append-mem table (map to_row cs) m') [
            | inl old ↦ omega (arith, older row old own)
            | inr new ↦
                let (c, m2, e) = map-mem to_row cs new in
                omega (arith, ap (λ r. r.scanned_at) e, (scan c m2).1)
          ]) in
      let (to, from) = mem-get_containers_by_host_iff host_id t rows x latest in
      rw (save_containers_appends cs table saved) (
        λ g.
            let (row, m', own, at, e) = to g in
            elim (append-mem table (map to_row cs) m') [
              | inl old ↦ absurd (omega (arith, older row old own, at))
              | inr new ↦
                  let (c, m2, r) = map-mem to_row cs new in (c, m2, e ∙ ap (scan_container fl) r)
            ],
        λ (c, m', e). from (
          to_row c,
          mem-append_right table (map to_row cs) (mem-map to_row cs m'),
          (scan c m').0,
          (scan c m').1,
          e,
        ),
      )
