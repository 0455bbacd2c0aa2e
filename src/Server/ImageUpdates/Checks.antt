-- ===== src/Server/ImageUpdates/Checks.antt =====
-- A check of the images by runImageUpdateChecker of cmd/server/main.go, row by row of the table containers.
use container_census.Base.{
  ℕ, ◌≡◌, refl, sym, ap, ◌∙◌, inl, inr, Bool, true, false, ◌&&◌, List, [], ◌∷◌, map, Option, none,
  some, Result, ok, err, Text, text_eq, nat_eq, if◌then◌else◌, any, Memᴰ, count_if, Bool-cases,
  arith,
}
use container_census.Models.{Time, Float64, Container}
use container_census.Storage.Containers.{ContainerRow, scan_container}
use container_census.Storage.Containers.RoundTrip.{IsKeyed}
use container_census.Registry.{ImageName, ImageUpdateInfo}
use container_census.Server.ImageUpdates.{containers_to_check, check_images}
use container_census.Server.ImageUpdates.Loop.{
  is_found, is_crash, answered_row, is_row_of, answer, step_rows, check_loop_lem,
}
use container_census.Server.ImageUpdates.ToCheck.{
  is_due, latest_in, is_due-row, any-is_due, any-to_check, count_if-to_check,
}

module _ {F : Type 0} (fl : Float64 F) (get_image_digest : ImageName → Result Text)
    (get_image_created_time : ImageName → Result Time) (now : Container F → Time) where
  abbrev pub answer_for : ContainerRow F → Result ImageUpdateInfo
  answer_for row = answer get_image_digest get_image_created_time (scan_container fl row)

  -- The row after the check.
  abbrev pub checked_row : Bool → List (ContainerRow F) → ContainerRow F → ContainerRow F
  checked_row only_latest table row =
      if is_due fl only_latest table row
      then answered_row (now (scan_container fl row)) (answer_for row) row
      else row

  -- A row is due whose update the log line cannot show.
  abbrev pub panics : Bool → List (ContainerRow F) → Bool
  panics only_latest table =
      any (λ row. is_due fl only_latest table row && is_crash (answer_for row)) table

  -- The number of the rows that are due and have an update.
  abbrev pub updates_found : Bool → List (ContainerRow F) → ℕ
  updates_found only_latest table =
      count_if (λ row. is_due fl only_latest table row && is_found (answer_for row)) table

  same_or : {A : Type 0} {x y : A} (b : Bool) → x ≡ y → (if b then x else y) ≡ y
  same_or true q = q
  same_or false q = refl

  answered_row-key :
      (latest : Text → ℕ → Option Time) (t : Time) (a : Result ImageUpdateInfo) (c : Container F)
      (row : ContainerRow F)
      → is_row_of latest c (answered_row t a row) ≡ is_row_of latest c row
  answered_row-key latest t (ok info) c row = refl
  answered_row-key latest t (err e) c row = refl

  answered_row-twice :
      (t : Time) (a : Result ImageUpdateInfo) (row : ContainerRow F)
      → answered_row t a (answered_row t a row) ≡ answered_row t a row
  answered_row-twice t (ok info) row = refl
  answered_row-twice t (err e) row = refl

  -- A row whose containers are all the same one.
  step_rows-one :
      (latest : Text → ℕ → Option Time) (d : Container F) (cs : List (Container F))
      (row : ContainerRow F)
      → ((c : Container F) → Memᴰ c cs → is_row_of latest c row ≡ true → c ≡ d)
      → step_rows get_image_digest get_image_created_time now latest cs row ≡ (
          if any (λ c. is_row_of latest c row) cs
          then answered_row (now d) (answer get_image_digest get_image_created_time d) row
          else row)
  step_rows-one latest d [] row h = refl
  step_rows-one latest d (c ∷ cs) row h = elim (Bool-cases (is_row_of latest c row)) [
    | inr other ↦ rw other (step_rows-one latest d cs row (λ x m. h x (Memᴰ.tail m)))
    | inl own ↦
        let a = answer get_image_digest get_image_created_time d in
        let written = answered_row (now d) a row in
        rw own (
          ap
            (λ x.
              step_rows get_image_digest get_image_created_time now latest cs
                (answered_row (now x) (answer get_image_digest get_image_created_time x) row))
            (h c (Memᴰ.head refl) own)
          ∙ step_rows-one latest d cs written
              (λ x m e. h x (Memᴰ.tail m) (sym (answered_row-key latest (now d) a x row) ∙ e))
          ∙ same_or _ (answered_row-twice (now d) a row))
  ]

  map_congr :
      (f g : ContainerRow F → ContainerRow F) (rows : List (ContainerRow F))
      → ((row : ContainerRow F) → Memᴰ row rows → f row ≡ g row)
      → map f rows ≡ map g rows
  map_congr f g [] h = refl
  map_congr f g (row ∷ rows) h =
      ground (arith, h row (Memᴰ.head refl), map_congr f g rows (λ x m. h x (Memᴰ.tail m)))

  -- Where no two rows have the same primary key, a check gives the registry's answer to each row of the
  -- latest scan of its host whose container runs and, if only those are checked, has an image of the tag
  -- "latest", and keeps the other rows and those without an answer; it counts the updates that it found.
  -- It panics exactly if there is such a row for which an update is found with one of the digests shorter
  -- than the log line expects.
  pub check_images_lem :
      (only_latest : Bool) (table : List (ContainerRow F))
      → IsKeyed table
      → check_images get_image_digest get_image_created_time now fl only_latest table ≡ (
          if panics only_latest table
          then none
          else some (map (checked_row only_latest table) table, updates_found only_latest table))
  unfolding check_images
  check_images_lem only_latest table k =
      let cs = containers_to_check fl only_latest table in
      let rows =
        map_congr (step_rows get_image_digest get_image_created_time now (latest_in table) cs)
          (checked_row only_latest table) table
          (λ row m.
            step_rows-one (latest_in table) (scan_container fl row) cs row
              (λ c m' own. (is_due-row fl only_latest table row k m c m' own).1)
            ∙ ap
                (λ b.
                  if b
                  then answered_row (now (scan_container fl row)) (answer_for row) row
                  else row)
                (any-is_due fl only_latest table row k m)) in
      check_loop_lem get_image_digest get_image_created_time now (latest_in table) cs table 0
        (λ id host_id. refl)
      ∙ rw
          (
            any-to_check fl (λ c. is_crash (answer get_image_digest get_image_created_time c))
                only_latest table,
            count_if-to_check fl (λ c. is_found (answer get_image_digest get_image_created_time c))
                only_latest table,
            rows,
          )
          (ap
            (λ n.
              if any (λ row. is_due fl only_latest table row && is_crash (answer_for row)) table
              then none
              else some (map (checked_row only_latest table) table, n))
            (omega arith))
