-- ===== src/Server/ImageUpdates/ToCheck.antt =====
-- The rows whose containers runImageUpdateChecker of cmd/server/main.go checks.
use container_census.Base.{
  ℕ, ◌≡◌, refl, sym, ap, ◌∙◌, inl, inr, Bool, true, false, ◌&&◌, List, map, Option, some, Text,
  text_eq, text_beq_iff, nat_eq, any, keep, Memᴰ, count_if, sort_by, sort_by-perm, mem-perm,
  perm-sym, map-mem, mem-map, keep-mem, mem-keep, mem-any, not_any-of_mem, any-map, any-keep,
  any-perm, count_if-map, count_if-keep, count_if-perm, Bool-cases, arith,
}
use container_census.Models.{Time, Float64, Container}
use container_census.Storage.Containers.{
  ContainerRow, is_time, is_latest, get_latest_containers, scan_container, by_host_and_name,
}
use container_census.Storage.Containers.RoundTrip.{IsKeyed}
use container_census.Storage.Containers.RoundTrip.Keys.{keyed_same}
use container_census.Server.ImageUpdates.{max_of, is_checked, containers_to_check}
use container_census.Server.ImageUpdates.Latest.{max_of-is_latest}
use container_census.Server.ImageUpdates.Loop.{is_row_of}

module _ {F : Type 0} where
  abbrev pub latest_in : List (ContainerRow F) → Text → ℕ → Option Time
  latest_in table id host_id = max_of id host_id table

module _ {F : Type 0} (fl : Float64 F) where
  -- The row is of the latest scan of its host, and its container is one to check.
  abbrev pub is_due : Bool → List (ContainerRow F) → ContainerRow F → Bool
  is_due only_latest table row =
      is_latest table row && is_checked only_latest (scan_container fl row)

  -- The containers to check are those of the rows that are due.
  pub to_check-mem :
      (only_latest : Bool) (table : List (ContainerRow F)) {c : Container F}
      → Memᴰ c (containers_to_check fl only_latest table)
      → (row : ContainerRow F) × Memᴰ row table
        × (is_due only_latest table row ≡ true)
        × (c ≡ scan_container fl row)
  unfolding containers_to_check get_latest_containers
  to_check-mem only_latest table {c} m =
      let (m', checked) = keep-mem (is_checked only_latest) _ m in
      let (row, m2, e) = map-mem (scan_container fl) _ m' in
      let (m3, latest) =
        keep-mem (is_latest table) table
          (mem-perm (sort_by-perm by_host_and_name (keep (is_latest table) table)) m2) in
      (row, m3, ground (arith, latest, checked, ap (is_checked only_latest) e), e)

  pub mem-to_check :
      (only_latest : Bool) (table : List (ContainerRow F)) (row : ContainerRow F)
      → Memᴰ row table
      → is_due only_latest table row ≡ true
      → Memᴰ (scan_container fl row) (containers_to_check fl only_latest table)
  unfolding containers_to_check get_latest_containers
  mem-to_check only_latest table row m h =
      mem-keep (is_checked only_latest) _
        (mem-map (scan_container fl) _ (
          mem-perm (perm-sym (sort_by-perm by_host_and_name (keep (is_latest table) table)))
            (mem-keep (is_latest table) table m (ground (arith, h)))))
        (ground (arith, h))

  and_assoc : (a b c : Bool) → (a && (b && c)) ≡ ((a && b) && c)
  and_assoc true b c = refl
  and_assoc false b c = refl

  pub any-to_check :
      (p : Container F → Bool) (only_latest : Bool) (table : List (ContainerRow F))
      → any p (containers_to_check fl only_latest table)
        ≡ any (λ row. is_due only_latest table row && p (scan_container fl row)) table
  unfolding containers_to_check get_latest_containers
  any-to_check p only_latest table =
      let f = scan_container fl in
      let q = is_checked only_latest in
      let sorted = sort_by by_host_and_name (keep (is_latest table) table) in
      any-keep p q (map f sorted)
      ∙ any-map f (λ c. q c && p c) sorted
      ∙ any-perm (λ row. q (f row) && p (f row))
          (sort_by-perm by_host_and_name (keep (is_latest table) table))
      ∙ any-keep (λ row. q (f row) && p (f row)) (is_latest table) table
      ∙ (λ i. any (λ row. and_assoc (is_latest table row) (q (f row)) (p (f row)) i) table)

  pub count_if-to_check :
      (p : Container F → Bool) (only_latest : Bool) (table : List (ContainerRow F))
      → count_if p (containers_to_check fl only_latest table)
        ≡ count_if (λ row. is_due only_latest table row && p (scan_container fl row)) table
  unfolding containers_to_check get_latest_containers
  count_if-to_check p only_latest table =
      let f = scan_container fl in
      let q = is_checked only_latest in
      let sorted = sort_by by_host_and_name (keep (is_latest table) table) in
      count_if-keep p q (map f sorted)
      ∙ count_if-map f (λ c. q c && p c) sorted
      ∙ count_if-perm (λ row. q (f row) && p (f row))
          (sort_by-perm by_host_and_name (keep (is_latest table) table))
      ∙ count_if-keep (λ row. q (f row) && p (f row)) (is_latest table) table
      ∙ (λ i. count_if (λ row. and_assoc (is_latest table row) (q (f row)) (p (f row)) i) table)

  pub is_due-row :
      (only_latest : Bool) (table : List (ContainerRow F)) (row : ContainerRow F)
      → IsKeyed table
      → Memᴰ row table
      → (c : Container F) → Memᴰ c (containers_to_check fl only_latest table)
      → is_row_of (latest_in table) c row ≡ true
      → (is_due only_latest table row ≡ true) × (c ≡ scan_container fl row)
  unfolding scan_container
  is_due-row only_latest table row k m c m' own =
      let (r, m2, due, e) = to_check-mem only_latest table m' in
      let top = max_of-is_latest table r m2 (ground (arith, due)) in
      let its : is_row_of (latest_in table) (scan_container fl r) row ≡ true =
        ap (λ x. is_row_of (latest_in table) x row) (sym e) ∙ own in
      let ids = (text_beq_iff row.id r.id).0 (ground (arith, its)) in
      let at : is_time row.scanned_at (some r.scanned_at) ≡ true =
        ap (is_time row.scanned_at) (sym top) ∙ ground (arith, its) in
      let same = keyed_same table row r k m m2 ids (ground (arith, its)) (ground (arith, at)) in
      (ap (is_due only_latest table) same ∙ due, e ∙ ap (scan_container fl) (sym same))

  pub any-is_due :
      (only_latest : Bool) (table : List (ContainerRow F)) (row : ContainerRow F)
      → IsKeyed table
      → Memᴰ row table
      → any (λ c. is_row_of (latest_in table) c row) (containers_to_check fl only_latest table)
        ≡ is_due only_latest table row
  unfolding scan_container
  any-is_due only_latest table row k m =
      let cs = containers_to_check fl only_latest table in
      elim (Bool-cases (is_due only_latest table row)) [
        | inl due ↦
            let top = max_of-is_latest table row m (ground (arith, due)) in
            mem-any (λ c. is_row_of (latest_in table) c row) cs
              (mem-to_check only_latest table row m due)
              (ground (arith, (text_beq_iff row.id row.id).1 refl, ap (is_time row.scanned_at) top))
            ∙ sym due
        | inr not_due ↦
            not_any-of_mem (λ c. is_row_of (latest_in table) c row) cs
              (λ c m'. elim (Bool-cases (is_row_of (latest_in table) c row)) [
                | inr other ↦ other
                | inl own ↦
                    absurd
                      (ground (arith, not_due, (is_due-row only_latest table row k m c m' own).0))
              ])
            ∙ sym not_due
      ]
