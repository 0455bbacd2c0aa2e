-- ===== src/Notifications/Baselines/Laws.antt =====
-- The baseline that the anomaly detection reads after a pass of internal/notifications/baseline.go.
use container_census.Base.{
  ℕ, ◌/◌, ◌≤◌, ltb, length, ◌<◌, ◌≡◌, refl, sym, ap, ◌∙◌, false, List, [], ◌∷◌, inl, inr, Option,
  none, some, Text, text_eq, nat_eq, ◌==◌, mem-not_any, any, Memᴰ, Every, arith, Result, ok, err,
  Bool-cases, Option-cases,
}
use container_census.Models.{
  Time, second, Float64, Container, ContainerBaselineStats, ContainerStatsPoint,
}
use container_census.Notifications.Baselines.{
  BaselineRow, Source, replace_row, latest, rows_of, row_stats, get_container_baseline, averages,
  baseline_of, calculate_baseline, save_container_baseline, update_container, update_loop,
  update_host_baselines, add_count, as_result,
}
use container_census.Notifications.Baselines.Rows.{
  ==_false_sym, rows_of-replace_row-other, get-replace_row,
}

module _ {F : Type 0} (fl : Float64 F) (db : Source F) (now : Time) where
  -- The baseline that is computed and stored.
  abbrev pub if_saved : ContainerBaselineStats F → Option Text → Option (ContainerBaselineStats F)
  if_saved b none = some b
  if_saved b (some e) = none

  abbrev pub saved :
      Option (Result (Option (ContainerBaselineStats F))) → Option (ContainerBaselineStats F)
  saved none = none
  saved (some (err e)) = none
  saved (some (ok none)) = none
  saved (some (ok (some b))) = if_saved b (db.save_error b)

  abbrev pub or_before :
      Option (ContainerBaselineStats F)
      → Option (ContainerBaselineStats F)
      → Option (ContainerBaselineStats F)
  or_before none before = before
  or_before (some b) before = some b

  update_container-other :
      (r : Option (Result (Option (ContainerBaselineStats F)))) (id : Text) (host_id : ℕ)
      (rows : List (BaselineRow F))
      → ((b : ContainerBaselineStats F) → r ≡ some (ok (some b)) → (b.container_id == id) ≡ false)
      → rows_of id host_id (update_container fl db now r rows).0 ≡ rows_of id host_id rows
  unfolding update_container save_container_baseline
  update_container-other none id host_id rows h = refl
  update_container-other (some (err e)) id host_id rows h = refl
  update_container-other (some (ok none)) id host_id rows h = refl
  update_container-other (some (ok (some b))) id host_id rows h =
      elim (Option-cases (db.save_error b)) [
        | inl n ↦ rw n (rows_of-replace_row-other now b id host_id rows (h b refl))
        | inr (e, q) ↦ rw q refl
      ]

  update_container-get :
      (r : Option (Result (Option (ContainerBaselineStats F)))) (id : Text) (host_id : ℕ)
      (rows : List (BaselineRow F))
      → ((b : ContainerBaselineStats F)
          → r ≡ some (ok (some b))
          → (b.container_id ≡ id) × (b.host_id ≡ host_id))
      → Every (λ row. row.created_at < now / second) (rows_of id host_id rows)
      → get_container_baseline id host_id (update_container fl db now r rows).0
        ≡ or_before (saved r) (get_container_baseline id host_id rows)
  unfolding update_container save_container_baseline
  update_container-get none id host_id rows k h = refl
  update_container-get (some (err e)) id host_id rows k h = refl
  update_container-get (some (ok none)) id host_id rows k h = refl
  update_container-get (some (ok (some b))) id host_id rows k h =
      elim (Option-cases (db.save_error b)) [
        | inl n ↦
            let (q, p) = k b refl in
            let older : Every (λ row. row.created_at < now / second)
                (rows_of b.container_id b.host_id rows) =
              rw (q, p) h in
            rw n (
              ap (λ i. get_container_baseline i host_id (replace_row now b rows)) (sym q)
              ∙ ap (λ i. get_container_baseline b.container_id i (replace_row now b rows)) (sym p)
              ∙ get-replace_row now b rows older)
        | inr (e, q) ↦ rw q refl
      ]

  -- A baseline carries the names of its container.
  baseline_of-key :
      (id : Text) (host_id : ℕ) (name image_id : Text) (r : Result (List (ContainerStatsPoint F)))
      (b : ContainerBaselineStats F)
      → baseline_of fl now id host_id name image_id r ≡ ok (some b)
      → (b.container_id ≡ id) × (b.host_id ≡ host_id)
  unfolding baseline_of averages
  baseline_of-key id host_id name image_id (err e) b h = absurd (ground (arith, h))
  baseline_of-key id host_id name image_id (ok points) b h = ground (arith, h)

  abbrev baseline_for : ℕ → Container F → Option (Result (Option (ContainerBaselineStats F)))
  baseline_for host_id c = calculate_baseline fl db now c.id host_id c.name c.image_id

  baseline_for-key :
      (host_id : ℕ) (c : Container F) (b : ContainerBaselineStats F)
      → baseline_for host_id c ≡ some (ok (some b))
      → (b.container_id ≡ c.id) × (b.host_id ≡ host_id)
  unfolding calculate_baseline
  baseline_for-key host_id c b h = elim (Bool-cases (ltb (length c.id) 12)) [
    | inl short ↦ absurd (ground (arith, short, h))
    | inr fits ↦
        baseline_of-key c.id host_id c.name c.image_id (db.get_container_stats c.id host_id 48) b
          (ground (arith, fits, h))
  ]

  baseline_for-other :
      (host_id : ℕ) (c : Container F) (id : Text) (rows : List (BaselineRow F))
      → (c.id == id) ≡ false
      → rows_of id host_id (update_container fl db now (baseline_for host_id c) rows).0
        ≡ rows_of id host_id rows
  baseline_for-other host_id c id rows h =
      update_container-other (baseline_for host_id c) id host_id rows
        (λ b q. rw (baseline_for-key host_id c b q).0 h)

  -- The loop after one turn.
  abbrev goes_on :
      ℕ → List (Container F) → List (BaselineRow F) × Option ℕ → List (BaselineRow F) × Option ℕ
  goes_on host_id cs (rows, none) = (rows, none)
  goes_on host_id cs (rows, some n) = add_count fl db now n (update_loop fl db now host_id cs rows)

  add_count-rows : (n : ℕ) (r : List (BaselineRow F) × Option ℕ) → (add_count fl db now n r).0 ≡ r.0
  add_count-rows n (rows, none) = refl
  add_count-rows n (rows, some m) = refl

  goes_on-other :
      (host_id : ℕ) (cs : List (Container F)) (id : Text) (r : List (BaselineRow F) × Option ℕ)
      → ((rows : List (BaselineRow F))
          → rows_of id host_id (update_loop fl db now host_id cs rows).0 ≡ rows_of id host_id rows)
      → rows_of id host_id (goes_on host_id cs r).0 ≡ rows_of id host_id r.0
  goes_on-other host_id cs id (rows, none) rest = refl
  goes_on-other host_id cs id (rows, some n) rest =
      ap (rows_of id host_id) (add_count-rows n (update_loop fl db now host_id cs rows)) ∙ rest rows

  update_loop-other :
      (host_id : ℕ) (cs : List (Container F)) (id : Text) (rows : List (BaselineRow F))
      → any (λ c. c.id == id) cs ≡ false
      → rows_of id host_id (update_loop fl db now host_id cs rows).0 ≡ rows_of id host_id rows
  unfolding update_loop
  update_loop-other host_id [] id rows h = refl
  update_loop-other host_id (c ∷ cs) id rows h =
      goes_on-other host_id cs id (update_container fl db now (baseline_for host_id c) rows)
        (λ rows'. update_loop-other host_id cs id rows' (ground (arith, h)))
      ∙ baseline_for-other host_id c id rows (ground (arith, h))

  -- A turn for an id that is long enough does not panic.
  update_container-some :
      (host_id : ℕ) (c : Container F) (rows : List (BaselineRow F))
      → 12 ≤ length c.id
      → (n : ℕ) × ((update_container fl db now (baseline_for host_id c) rows).1 ≡ some n)
  unfolding update_container calculate_baseline save_container_baseline
  update_container-some host_id c rows h = elim (Bool-cases (ltb (length c.id) 12)) [
    | inl short ↦ absurd (ground (arith, short, h))
    | inr fits ↦ rw fits (
        of_result (
          baseline_of fl now c.id host_id c.name c.image_id
            (db.get_container_stats c.id host_id 48)))
  ]
    where
      of_result :
          (r : Result (Option (ContainerBaselineStats F)))
          → (n : ℕ) × ((update_container fl db now (some r) rows).1 ≡ some n)
      of_result (err e) = (0, refl)
      of_result (ok none) = (0, refl)
      of_result (ok (some b)) = elim (Option-cases (db.save_error b)) [
        | inl q ↦ (1, rw q refl)
        | inr (e, q) ↦ (0, rw q refl)
      ]

  -- No two containers have the same id.
  abbrev pub HasDistinctIds : List (Container F) → Type 0
  HasDistinctIds [] = Unit
  HasDistinctIds (c ∷ cs) = (any (λ d. d.id == c.id) cs ≡ false) × HasDistinctIds cs

  abbrev pub HasFullId : Container F → Type 0
  HasFullId c = 12 ≤ length c.id

  goes_on-some :
      (host_id : ℕ) (cs : List (Container F)) (r : List (BaselineRow F) × Option ℕ) {n : ℕ}
      → r.1 ≡ some n
      → (goes_on host_id cs r).0 ≡ (update_loop fl db now host_id cs r.0).0
  goes_on-some host_id cs (rows, none) h = absurd (ground (arith, h))
  goes_on-some host_id cs (rows, some n) h =
      add_count-rows n (update_loop fl db now host_id cs rows)

  update_loop-cons :
      (host_id : ℕ) (c : Container F) (cs : List (Container F)) (rows : List (BaselineRow F))
      → 12 ≤ length c.id
      → (update_loop fl db now host_id (c ∷ cs) rows).0
        ≡ (update_loop fl db now host_id cs
            (update_container fl db now (baseline_for host_id c) rows).0).0
  unfolding update_loop
  update_loop-cons host_id c cs rows h =
      goes_on-some host_id cs (update_container fl db now (baseline_for host_id c) rows)
        (update_container-some host_id c rows h).1

  update_loop-get :
      (host_id : ℕ) (cs : List (Container F)) (c : Container F) (rows : List (BaselineRow F))
      → HasDistinctIds cs
      → Every HasFullId cs
      → Memᴰ c cs
      → Every (λ row. row.created_at < now / second) (rows_of c.id host_id rows)
      → get_container_baseline c.id host_id (update_loop fl db now host_id cs rows).0
        ≡ or_before (saved (baseline_for host_id c)) (get_container_baseline c.id host_id rows)
  unfolding get_container_baseline
  update_loop-get host_id [] c rows d full m h = elim m [ ]
  update_loop-get host_id (x ∷ cs) c rows d full (Memᴰ.head e) h =
      let alone : any (λ y. y.id == c.id) cs ≡ false = rw e d.0 in
      ap (get_container_baseline c.id host_id) (update_loop-cons host_id x cs rows full.0)
      ∙ ap (λ rs. row_stats (latest rs))
          (update_loop-other host_id cs c.id
            (update_container fl db now (baseline_for host_id x) rows).0 alone)
      ∙ rw (sym e) (
          update_container-get (baseline_for host_id c) c.id host_id rows
            (baseline_for-key host_id c) h)
  update_loop-get host_id (x ∷ cs) c rows d full (Memᴰ.tail m) h =
      let differ = ==_false_sym c.id x.id (mem-not_any (λ y. y.id == x.id) cs d.0 m) in
      let same = baseline_for-other host_id x c.id rows differ in
      ap (get_container_baseline c.id host_id) (update_loop-cons host_id x cs rows full.0)
      ∙ update_loop-get host_id cs c (update_container fl db now (baseline_for host_id x) rows).0
          d.1 full.1 m (rw same h)
      ∙ ap (λ rs. or_before (saved (baseline_for host_id c)) (row_stats (latest rs))) same

  as_result-rows : (r : List (BaselineRow F) × Option ℕ) → (as_result fl db now r).0 ≡ r.0
  as_result-rows (rows, none) = refl
  as_result-rows (rows, some n) = refl

  -- A pass over the containers of a host, whose ids are distinct and have at least 12 characters, in a later
  -- second than the stored baselines of one of them: the baseline that is read for that container is then
  -- the one computed from its last 48 hours and saved, or the one that was read before where there is not
  -- enough data or its query or its statement fails. No error about another container changes it.
  pub update_host_baselines-get :
      (host_id : ℕ) (cs : List (Container F)) (c : Container F) (rows : List (BaselineRow F))
      → db.get_containers_by_host host_id ≡ ok cs
      → HasDistinctIds cs
      → Every HasFullId cs
      → Memᴰ c cs
      → Every (λ row. row.created_at < now / second) (rows_of c.id host_id rows)
      → get_container_baseline c.id host_id (update_host_baselines fl db now host_id rows).0
        ≡ or_before
            (saved (calculate_baseline fl db now c.id host_id c.name c.image_id))
            (get_container_baseline c.id host_id rows)
  unfolding update_host_baselines
  update_host_baselines-get host_id cs c rows found d full m h = rw found (
      ap (get_container_baseline c.id host_id)
        (as_result-rows (update_loop fl db now host_id cs rows))
      ∙ update_loop-get host_id cs c rows d full m h)
