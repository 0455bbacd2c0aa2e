-- ===== src/Storage/Containers/RoundTrip.antt =====
-- What SaveContainers of internal/storage/db.go stores, against what is read back.
pub mod Latest
pub mod Keys
use container_census.Base.{
  ℕ, zero, suc, ◌+◌, ◌≤◌, ◌<◌, ◌≡◌, ◌≢◌, ◌↔◌, ◌⊎◌, inl, inr, refl, sym, ap, subst, ◌∙◌, Bool, true,
  false, not, ◌&&◌, ◌||◌, List, [], ◌∷◌, ◌++◌, map, Option, none, some, Text, text_eq, nat_eq,
  text_beq_iff, ◌==◌, if◌then◌else◌, any, append-nil, append_assoc, arith, ltb, Result, ok, err,
  Result-cases, Bool-cases,
}
use container_census.Models.{Time, Float64, Container}
use container_census.Storage.Containers.{
  ContainerRow, to_row, same_key, insert_rows, commit, save_containers, scan_container,
}

module _ {F : Type 0} (fl : Float64 F) where
  -- The fields of a container that storing it loses are at their zero values.
  abbrev pub IsStorable : Container F → Type 0
  IsStorable c =
      (c.image_size ≡ 0)
      × (c.restart_count ≡ 0)
      × (c.memory_limit ≡ 0
          → (c.cpu_percent ≡ fl.zero_f) × (c.memory_usage ≡ 0) × (c.memory_percent ≡ fl.zero_f))

  -- A stored container is read back as it was exactly if it has no image size, no restarts and, where its
  -- memory limit is zero, no other statistics: those fields come back as zero.
  pub scan_container-to_row_iff :
      (c : Container F) → (scan_container fl (to_row c) ≡ c) ↔ IsStorable c
  unfolding scan_container to_row
  scan_container-to_row_iff c = (
    λ h. (
      sym (ap (λ d. d.image_size) h),
      sym (ap (λ d. d.restart_count) h),
      λ zero_limit.
          let collected : ltb 0 c.memory_limit ≡ false = ground (arith, zero_limit) in
          (
            ground (arith, collected, ap (λ d. d.cpu_percent) h),
            ground (arith, collected, ap (λ d. d.memory_usage) h),
            ground (arith, collected, ap (λ d. d.memory_percent) h),
          ),
    ),
    λ (sizes, restarts, stats). ground (arith, sizes, restarts, stats),
  )

module _ {F : Type 0} where
  insert_rows-ok :
      (cs : List (Container F)) (table rows : List (ContainerRow F))
      → insert_rows cs table ≡ ok rows
      → rows ≡ table ++ map to_row cs
  unfolding insert_rows
  insert_rows-ok [] table rows h = ground (arith, h, append-nil table)
  insert_rows-ok (c ∷ cs) table rows h = elim (Bool-cases (any (same_key (to_row c)) table)) [
    | inl e ↦ absurd (ground (arith, e, h))
    | inr e ↦
        insert_rows-ok cs (table ++ (to_row c ∷ [])) rows (ground (arith, e, h))
        ∙ append_assoc table (to_row c ∷ []) (map to_row cs)
  ]

  -- No two rows have the same primary key.
  abbrev pub IsKeyed : List (ContainerRow F) → Type 0
  IsKeyed [] = Unit
  IsKeyed (row ∷ rows) = (any (λ other. same_key other row) rows ≡ false) × IsKeyed rows

  -- A scan that was saved without an error is appended.
  pub save_containers_appends :
      (cs : List (Container F)) (table : List (ContainerRow F))
      → (save_containers cs table).1 ≡ none
      → (save_containers cs table).0 ≡ table ++ map to_row cs
  unfolding save_containers commit
  save_containers_appends cs table h = elim (Result-cases (insert_rows cs table)) [
    | inl (rows, e) ↦ rw e (insert_rows-ok cs table rows e)
    | inr (text, e) ↦ absurd (ground (arith, e, h))
  ]

  any-snoc :
      (p : ContainerRow F → Bool) (rows : List (ContainerRow F)) (row : ContainerRow F)
      → any p rows ≡ false
      → p row ≡ false
      → any p (rows ++ (row ∷ [])) ≡ false
  any-snoc p [] row h q = ground (arith, q)
  any-snoc p (r ∷ rows) row h q = ground (arith, h, any-snoc p rows row (ground (arith, h)) q)

  snoc-IsKeyed :
      (rows : List (ContainerRow F)) (row : ContainerRow F)
      → IsKeyed rows
      → any (same_key row) rows ≡ false
      → IsKeyed (rows ++ (row ∷ []))
  snoc-IsKeyed [] row h q = (refl, tt)
  snoc-IsKeyed (r ∷ rows) row h q = (
    any-snoc (λ other. same_key other r) rows row h.0 (ground (arith, q)),
    snoc-IsKeyed rows row h.1 (ground (arith, q)),
  )

  insert_rows-IsKeyed :
      (cs : List (Container F)) (table rows : List (ContainerRow F))
      → IsKeyed table
      → insert_rows cs table ≡ ok rows
      → IsKeyed rows
  unfolding insert_rows
  insert_rows-IsKeyed [] table rows k h = subst IsKeyed (ground (arith, h)) k
  insert_rows-IsKeyed (c ∷ cs) table rows k h =
      elim (Bool-cases (any (same_key (to_row c)) table)) [
        | inl e ↦ absurd (ground (arith, e, h))
        | inr e ↦
            insert_rows-IsKeyed cs (table ++ (to_row c ∷ [])) rows
              (snoc-IsKeyed table (to_row c) k e) (ground (arith, e, h))
      ]

  -- SaveContainers is atomic: it appends the rows of the whole scan, or it reports an error and leaves the
  -- table. The primary keys stay distinct.
  pub save_containers_lem :
      (cs : List (Container F)) (table : List (ContainerRow F))
      → IsKeyed table
      → IsKeyed (save_containers cs table).0
        × (((save_containers cs table).0 ≡ table ++ map to_row cs)
              × ((save_containers cs table).1 ≡ none)
            ⊎ ((save_containers cs table).0 ≡ table) × ((save_containers cs table).1 ≢ none))
  unfolding save_containers commit
  save_containers_lem cs table h = elim (Result-cases (insert_rows cs table)) [
    | inl (rows, e) ↦
        rw e (insert_rows-IsKeyed cs table rows h e, inl (insert_rows-ok cs table rows e, refl))
    | inr (text, e) ↦ rw e (h, inr (refl, λ q. absurd (ground (arith, q))))
  ]
