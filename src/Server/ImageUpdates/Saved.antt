-- ===== src/Server/ImageUpdates/Saved.antt =====
-- SaveImageUpdateSettings and GetImageUpdateSettings of internal/storage/db.go.
use container_census.Base.{
  ℕ, ◌≤◌, ◌≡◌, ◌≢◌, ◌↔◌, ◌⊎◌, inl, inr, refl, ap, ◌∙◌, Bool, true, false, List, [], ◌∷◌, ◌++◌, map,
  Option, none, some, Text, text_eq, text_beq, text_beq_iff, codes, ◌==◌, if◌then◌else◌, any,
  decimal, Bool-cases, Option-cases, arith,
}
use container_census.Server.ImageUpdates.{
  ImageUpdateSettings, validate_updates, is_true, scanned_or, read_row, read_rows,
  get_image_update_settings, upsert, show_bool, save_image_update_settings,
}

-- What the rows of one key make of a value.
abbrev read_key {ℓ} : {A : Type ℓ} → (Text → A → A) → Text → List (Text × Text) → A → A
read_key f key [] a = a
read_key f key (row ∷ rows) a = read_key f key rows (if row.0 == key then f row.1 a else a)

module _ {ℓ} {A : Type ℓ} (f : Text → A → A) where
  read_key-append :
      (key k value : Text) (rows : List (Text × Text)) (a : A)
      → read_key f key (rows ++ ((k, value) ∷ [])) a
        ≡ (if k == key then f value (read_key f key rows a) else read_key f key rows a)
  read_key-append key k value [] a = refl
  read_key-append key k value (row ∷ rows) a =
      read_key-append key k value rows (if row.0 == key then f row.1 a else a)

  -- A row of another key is not read.
  read_key-other :
      (key k value : Text) (rows : List (Text × Text)) (a : A)
      → (k == key) ≡ false
      → read_key f key (map (λ row. if row.0 == k then (k, value) else row) rows) a
        ≡ read_key f key rows a
  read_key-other key k value [] a q = refl
  read_key-other key k value (row ∷ rows) a q = elim (Bool-cases (row.0 == k)) [
    | inl e ↦
        let other : (row.0 == key) ≡ false = ap (λ t. t == key) ((text_beq_iff row.0 k).0 e) ∙ q in
        rw (e, q, other) (read_key-other key k value rows a q)
    | inr e ↦ rw e (read_key-other key k value rows (if row.0 == key then f row.1 a else a) q)
  ]

  read_key-upsert_other :
      (key k value : Text) (rows : List (Text × Text)) (a : A)
      → (k == key) ≡ false
      → read_key f key (upsert k value rows) a ≡ read_key f key rows a
  unfolding upsert
  read_key-upsert_other key k value rows a q = elim (Bool-cases (any (λ row. row.0 == k) rows)) [
    | inl e ↦ rw e (read_key-other key k value rows a q)
    | inr e ↦ rw e (
        read_key-append key k value rows a
        ∙ ap (λ b. if b then f value (read_key f key rows a) else read_key f key rows a) q)
  ]

  -- Rows of the key that all have the value give what the value gives.
  read_key-same :
      (key value : Text) (w : A) (rows : List (Text × Text)) (a : A)
      → ((b : A) → f value b ≡ w)
      → (any (λ row. row.0 == key) rows ≡ true) ⊎ (a ≡ w)
      → read_key f key (map (λ row. if row.0 == key then (key, value) else row) rows) a ≡ w
  read_key-same key value w [] a c h = elim h [ inl q ↦ absurd (ground (arith, q)) | inr q ↦ q ]
  read_key-same key value w (row ∷ rows) a c h = elim (Bool-cases (row.0 == key)) [
    | inl e ↦
        rw (e, (text_beq_iff key key).1 refl)
          (read_key-same key value w rows (f value a) c (inr (c a)))
    | inr e ↦
        let rest =
          elim h
            as (λ _.
              (any (λ other. other.0 == key) rows ≡ true)
              ⊎ ((if row.0 == key then f row.1 a else a) ≡ w)) [
                | inl q ↦ inl (ground (arith, e, q))
                | inr q ↦ inr (rw e q)
              ] in
        rw e (read_key-same key value w rows (if row.0 == key then f row.1 a else a) c rest)
  ]

  read_key-upsert :
      (key value : Text) (w : A) (rows : List (Text × Text)) (a : A)
      → ((b : A) → f value b ≡ w)
      → read_key f key (upsert key value rows) a ≡ w
  unfolding upsert
  read_key-upsert key value w rows a c = elim (Bool-cases (any (λ row. row.0 == key) rows)) [
    | inl e ↦ rw e (read_key-same key value w rows a c (inl e))
    | inr e ↦ rw e (read_key-append key key value rows a ∙ rw ((text_beq_iff key key).1 refl) (c _))
  ]

abbrev auto_key : Text
auto_key = codes "auto_check_enabled"

abbrev hours_key : Text
hours_key = codes "check_interval_hours"

abbrev tags_key : Text
tags_key = codes "only_check_latest_tags"

module _ (scan : Text → Option ℕ) where
  -- The settings that the rows give over some settings, key by key.
  abbrev read_keys : List (Text × Text) → ImageUpdateSettings → ImageUpdateSettings
  read_keys rows s = record {
    auto_check_enabled = read_key (λ value _. is_true value) auto_key rows s.auto_check_enabled;
    check_interval_hours =
        read_key (λ value n. scanned_or n (scan value)) hours_key rows s.check_interval_hours;
    only_check_latest_tags =
        read_key (λ value _. is_true value) tags_key rows s.only_check_latest_tags;
  }

  read_row_lem :
      (key value : Text) (s : ImageUpdateSettings)
      → read_row scan key value s ≡ read_keys ((key, value) ∷ []) s
  unfolding read_row text_beq
  read_row_lem key value s = elim (Bool-cases (key == auto_key)) [
    | inl a ↦ let at = (text_beq_iff key auto_key).0 a in rw at refl
    | inr a ↦ elim (Bool-cases (key == hours_key)) [
      | inl b ↦ let at = (text_beq_iff key hours_key).0 b in rw at refl
      | inr b ↦ elim (Bool-cases (key == tags_key)) [
        | inl c ↦ rw (a, b, c) refl
        | inr c ↦ rw (a, b, c) refl
      ]
    ]
  ]

  read_rows_lem :
      (rows : List (Text × Text)) (s : ImageUpdateSettings)
      → read_rows scan rows s ≡ read_keys rows s
  unfolding read_rows
  read_rows_lem [] s = refl
  read_rows_lem ((key, value) ∷ rows) s =
      read_rows_lem rows (read_row scan key value s)
      ∙ ap (read_keys rows) (read_row_lem key value s)

  abbrev saved_table : ImageUpdateSettings → List (Text × Text) → List (Text × Text)
  saved_table s table = upsert tags_key (show_bool s.only_check_latest_tags) (
      upsert hours_key (decimal s.check_interval_hours)
        (upsert auto_key (show_bool s.auto_check_enabled) table))

  is_true-show_bool : (b : Bool) → is_true (show_bool b) ≡ b
  unfolding text_beq
  is_true-show_bool true = refl
  is_true-show_bool false = refl

  get-saved_table :
      ((n : ℕ) → scan (decimal n) ≡ some n)
      → (s : ImageUpdateSettings) (table : List (Text × Text))
      → get_image_update_settings scan (saved_table s table) ≡ s
  unfolding get_image_update_settings text_beq
  get-saved_table printed s table =
      let flag = λ (value : Text) (_ : Bool). is_true value in
      let hour = λ (value : Text) (n : ℕ). scanned_or n (scan value) in
      let t1 = upsert auto_key (show_bool s.auto_check_enabled) table in
      let t2 = upsert hours_key (decimal s.check_interval_hours) t1 in
      let auto =
        (read_key-upsert_other flag auto_key tags_key (show_bool s.only_check_latest_tags) t2 false
            refl
          ∙ read_key-upsert_other flag auto_key hours_key (decimal s.check_interval_hours) t1 false
              refl
          ∙ read_key-upsert flag auto_key (show_bool s.auto_check_enabled) s.auto_check_enabled
              table false (λ _. is_true-show_bool s.auto_check_enabled)) in
      let hours =
        (read_key-upsert_other hour hours_key tags_key (show_bool s.only_check_latest_tags) t2 24
            refl
          ∙ read_key-upsert hour hours_key (decimal s.check_interval_hours) s.check_interval_hours
              t1 24 (λ n. rw (printed s.check_interval_hours) refl)) in
      let tags =
        read_key-upsert flag tags_key (show_bool s.only_check_latest_tags) s.only_check_latest_tags
          t2 true (λ _. is_true-show_bool s.only_check_latest_tags) in
      read_rows_lem (saved_table s table) _ ∙ rw (auto, hours, tags) refl

  validate_updates_iff :
      (s : ImageUpdateSettings)
      → (validate_updates s ≡ none) ↔ (1 ≤ s.check_interval_hours) × (s.check_interval_hours ≤ 168)
  unfolding validate_updates
  validate_updates_iff s = ground arith

  -- Where Sscanf reads the number that was printed, the settings of image updates are saved exactly if the
  -- interval is from 1 to 168 hours, and are then read back as they were; others are refused, and the
  -- table stays.
  pub save_image_update_settings_lem :
      ((n : ℕ) → scan (decimal n) ≡ some n)
      → (s : ImageUpdateSettings) (table : List (Text × Text))
      → ((1 ≤ s.check_interval_hours)
          × (s.check_interval_hours ≤ 168)
          × ((save_image_update_settings s table).1 ≡ none)
          × (get_image_update_settings scan (save_image_update_settings s table).0 ≡ s))
        ⊎ ((¬ ((1 ≤ s.check_interval_hours) × (s.check_interval_hours ≤ 168)))
            × ((save_image_update_settings s table).1 ≢ none)
            × ((save_image_update_settings s table).0 ≡ table))
  unfolding save_image_update_settings
  save_image_update_settings_lem printed s table = elim (Option-cases (validate_updates s)) [
    | inl q ↦ inl (
      ((validate_updates_iff s).0 q).0,
      ((validate_updates_iff s).0 q).1,
      rw (q, save_image_update_settings) refl,
      rw (q, save_image_update_settings) (get-saved_table printed s table),
    )
    | inr (e, q) ↦ inr (
      (λ (low, high). absurd (ground (arith, q, (validate_updates_iff s).1 (low, high)))),
      rw (q, save_image_update_settings) (λ p. absurd (ground (arith, p))),
      rw (q, save_image_update_settings) refl,
    )
  ]
