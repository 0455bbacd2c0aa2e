-- ===== src/Server/ImageUpdates/Loop.antt =====
-- The loop of runImageUpdateChecker of cmd/server/main.go over the containers to check.
use container_census.Base.{
  ℕ, suc, ◌+◌, ◌≡◌, refl, sym, ap, ◌∙◌, inl, inr, Bool, false, not, ◌&&◌, List, [], ◌∷◌, map,
  map-same, Option, none, some, Result, ok, err, Text, text_eq, nat_eq, ◌==◌, if◌then◌else◌, any,
  count_if, Bool-cases, Result-cases, arith,
}
use container_census.Models.{Time, Container}
use container_census.Storage.Containers.{ContainerRow, is_time}
use container_census.Registry.{ImageName, ImageUpdateInfo, check_image_update}
use container_census.Server.ImageUpdates.{
  max_of, save_container_update_status, can_log, check_turn, check_loop,
}

-- What the registry's answer gives.
abbrev pub is_found : Result ImageUpdateInfo → Bool
is_found (ok info) = info.available
is_found (err e) = false

abbrev pub is_crash : Result ImageUpdateInfo → Bool
is_crash (ok info) = info.available && not (can_log info)
is_crash (err e) = false

module _ {F : Type 0} where
  -- The row with the status of an answer.
  abbrev pub answered_row : Time → Result ImageUpdateInfo → ContainerRow F → ContainerRow F
  answered_row now (ok info) row = record row {
    update_available = info.available;
    last_update_check = some now;
  }
  answered_row now (err e) row = row

  -- The row is the latest of the container, where `latest` gives the time of that row.
  abbrev pub is_row_of : (Text → ℕ → Option Time) → Container F → ContainerRow F → Bool
  is_row_of latest c row =
      row.id == c.id && row.host_id == c.host_id && is_time row.scanned_at (latest c.id c.host_id)

  -- A change of rows that keeps their primary keys keeps the latest times.
  max_of-map :
      (f : ContainerRow F → ContainerRow F)
      → ((row : ContainerRow F)
          → ((f row).id ≡ row.id)
            × ((f row).host_id ≡ row.host_id)
            × ((f row).scanned_at ≡ row.scanned_at))
      → (id : Text) (host_id : ℕ) (table : List (ContainerRow F))
      → max_of id host_id (map f table) ≡ max_of id host_id table
  unfolding max_of
  max_of-map f h id host_id [] = refl
  max_of-map f h id host_id (row ∷ rows) =
      let (a, b, c) = h row in rw (a, b, c, max_of-map f h id host_id rows) refl

module _ {F : Type 0} (get_image_digest : ImageName → Result Text)
    (get_image_created_time : ImageName → Result Time) where
  abbrev pub answer : Container F → Result ImageUpdateInfo
  answer c = check_image_update get_image_digest get_image_created_time c.image c.image_id

module _ {F : Type 0} (get_image_digest : ImageName → Result Text)
    (get_image_created_time : ImageName → Result Time) (now : Container F → Time) where
  abbrev pub step_row : (Text → ℕ → Option Time) → Container F → ContainerRow F → ContainerRow F
  step_row latest c row =
      if is_row_of latest c row
      then answered_row (now c) (answer get_image_digest get_image_created_time c) row
      else row

  abbrev pub step_rows :
      (Text → ℕ → Option Time) → List (Container F) → ContainerRow F → ContainerRow F
  step_rows latest [] row = row
  step_rows latest (c ∷ cs) row = step_rows latest cs (step_row latest c row)

  step_row-key :
      (latest : Text → ℕ → Option Time) (c : Container F) (row : ContainerRow F)
      → ((step_row latest c row).id ≡ row.id)
        × ((step_row latest c row).host_id ≡ row.host_id)
        × ((step_row latest c row).scanned_at ≡ row.scanned_at)
  step_row-key latest c row = elim (Bool-cases (is_row_of latest c row)) [
    | inr other ↦ rw other (refl, refl, refl)
    | inl own ↦ elim (Result-cases (answer get_image_digest get_image_created_time c)) [
      | inl (info, e) ↦ rw (own, e) (refl, refl, refl)
      | inr (text, e) ↦ rw (own, e) (refl, refl, refl)
    ]
  ]

  map-twice :
      (f g : ContainerRow F → ContainerRow F) (rows : List (ContainerRow F))
      → map g (map f rows) ≡ map (λ row. g (f row)) rows
  map-twice f g [] = refl
  map-twice f g (row ∷ rows) = ap (λ rest. g (f row) ∷ rest) (map-twice f g rows)

  check_turn_lem :
      (latest : Text → ℕ → Option Time) (a : Result ImageUpdateInfo) (c : Container F)
      (table : List (ContainerRow F)) (found : ℕ)
      → max_of c.id c.host_id table ≡ latest c.id c.host_id
      → check_turn now a c (table, found) ≡ (
          if is_crash a
          then none
          else some (
            map (λ row. if is_row_of latest c row then answered_row (now c) a row else row) table,
            if is_found a then suc found else found,
          ))
  unfolding check_turn save_container_update_status
  check_turn_lem latest (err e) c table found h =
      ap (λ t. some (t, found)) (sym (map-same _ table (λ row m. ground arith)))
  check_turn_lem latest (ok info) c table found h = rw h (elim (Bool-cases info.available) [
    | inr old ↦ rw old refl
    | inl new ↦ elim (Bool-cases (can_log info)) [
      | inr short ↦ rw (new, short) refl
      | inl long ↦ rw (new, long) refl
    ]
  ])

  abbrev next :
      List (Container F) → Option (List (ContainerRow F) × ℕ) → Option (List (ContainerRow F) × ℕ)
  next cs none = none
  next cs (some state) = check_loop get_image_digest get_image_created_time now cs state

  -- The loop gives each row the statuses of its containers, and it panics exactly if the answer for a
  -- container makes it.
  pub check_loop_lem :
      (latest : Text → ℕ → Option Time) (cs : List (Container F)) (table : List (ContainerRow F))
      (found : ℕ)
      → ((id : Text) (host_id : ℕ) → max_of id host_id table ≡ latest id host_id)
      → check_loop get_image_digest get_image_created_time now cs (table, found) ≡ (
          if any (λ c. is_crash (answer get_image_digest get_image_created_time c)) cs
          then none
          else some (
            map (step_rows latest cs) table,
            found + count_if (λ c. is_found (answer get_image_digest get_image_created_time c)) cs,
          ))
  unfolding check_loop
  check_loop_lem latest [] table found h =
      ap (λ t. some (t, found)) (sym (map-same (λ row. row) table (λ row m. refl)))
      ∙ ap (λ n. some (map (λ row. row) table, n)) (omega arith)
  check_loop_lem latest (c ∷ cs) table found h =
      let stepped = map (step_row latest c) table in
      let crashes = any (λ d. is_crash (answer get_image_digest get_image_created_time d)) cs in
      let count = count_if (λ d. is_found (answer get_image_digest get_image_created_time d)) cs in
      let rest = λ (n : ℕ).
        (check_loop_lem latest cs stepped n (λ id host_id.
            max_of-map (step_row latest c) (step_row-key latest c) id host_id table ∙ h id host_id)
          ∙ ap (λ t. if crashes then none else some (t, n + count))
              (map-twice (step_row latest c) (step_rows latest cs) table)) in
      ap (next cs) (
        check_turn_lem latest (answer get_image_digest get_image_created_time c) c table found
          (h c.id c.host_id))
      ∙ (elim (Bool-cases (is_crash (answer get_image_digest get_image_created_time c))) [
        | inl crash ↦ rw crash refl
        | inr calm ↦
            elim (Bool-cases (is_found (answer get_image_digest get_image_created_time c))) [
              | inl new ↦
                  rw (calm, new)
                    (rest (suc found)
                      ∙ ap
                          (λ n.
                            if crashes
                            then none
                            else some (map (step_rows latest (c ∷ cs)) table, n))
                          (omega arith))
              | inr old ↦ rw (calm, old) (rest found)
            ]
      ])
