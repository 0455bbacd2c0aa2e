-- ===== src/Server/ImageUpdates/Notify.antt =====
-- The notifications of runImageUpdateChecker of cmd/server/main.go.
use container_census.Base.{
  ℕ, ◌+◌, ◌≤◌, ◌<◌, ◌≡◌, ◌↔◌, ◌⊎◌, inl, inr, refl, sym, ap, ◌∙◌, subst, Bool, true, false, not,
  ◌&&◌, List, [], ◌∷◌, ◌++◌, none, some, Result, Text, nat_eq, ◌==◌, if◌then◌else◌, any, Memᴰ,
  any-mem, map, append-mem, mem-append_left, mem-append_right, count_if, ltb, Bool-cases, arith,
}
use container_census.Models.{Time, Float64, Container}
use container_census.Storage.Containers.{ContainerRow, scan_container}
use container_census.Storage.Containers.RoundTrip.{IsKeyed}
use container_census.Server.ImageUpdates.Checks.{
  checked_row, check_images_lem, panics, updates_found,
}
use container_census.Registry.{ImageName}
use container_census.Server.ImageUpdates.{
  ImageUpdateSettings, containers_to_check, hosts_with_updates, process_hosts, notify_hosts,
  check_tick,
}
use container_census.Server.ImageUpdates.ToCheck.{is_due, to_check-mem, mem-to_check}

only : {h k : ℕ} → Memᴰ h (k ∷ []) → h ≡ k
only (Memᴰ.head e) = e
only (Memᴰ.tail m) = absurd (elim m [ ])

snoc-count :
    (h k : ℕ) (seen : List ℕ)
    → count_if (λ host. host == h) (seen ++ (k ∷ []))
      ≡ count_if (λ host. host == h) seen + (if k == h then 1 else 0)
snoc-count h k [] = ground arith
snoc-count h k (s ∷ seen) = ground (arith, snoc-count h k seen)

fresh-count :
    (k : ℕ) (seen : List ℕ)
    → any (λ host. host == k) seen ≡ false
    → count_if (λ host. host == k) seen ≡ 0
fresh-count k [] q = refl
fresh-count k (s ∷ seen) q = ground (arith, q, fresh-count k seen (ground (arith, q)))

count_if-snoc :
    (h k : ℕ) (seen : List ℕ)
    → any (λ host. host == k) seen ≡ false
    → count_if (λ host. host == h) seen ≤ 1
    → count_if (λ host. host == h) (seen ++ (k ∷ [])) ≤ 1
count_if-snoc h k seen q l = elim (Bool-cases (k == h)) [
  | inl e ↦
      let same : k ≡ h = ground (arith, e) in
      let none_yet =
        subst (λ y. count_if (λ host. host == y) seen ≡ 0) same (fresh-count k seen q) in
      ground (arith, e, none_yet, snoc-count h k seen)
  | inr e ↦ ground (arith, e, l, snoc-count h k seen)
]

module _ {F : Type 0} where
  -- The hosts are those seen before and those of the containers with an update.
  mem-hosts_with_updates_iff :
      (cs : List (Container F)) (seen : List ℕ) (h : ℕ)
      → Memᴰ h (hosts_with_updates cs seen)
        ↔ Memᴰ h seen
          ⊎ ((c : Container F) × Memᴰ c cs × (c.update_available ≡ true) × (c.host_id ≡ h))
  unfolding hosts_with_updates
  mem-hosts_with_updates_iff [] seen h =
      ((λ m. inl m), (λ x. elim x [ inl m ↦ m | inr (c, m, u, q) ↦ absurd (elim m [ ]) ]))
  mem-hosts_with_updates_iff (c ∷ cs) seen h =
      let skip = mem-hosts_with_updates_iff cs seen h in
      let add = mem-hosts_with_updates_iff cs (seen ++ (c.host_id ∷ [])) h in
      elim (Bool-cases (c.update_available && not (any (λ host. host == c.host_id) seen))) [
        | inl new ↦ rw new (
          λ m. elim (add.0 m) [
            | inl old ↦ elim (append-mem seen (c.host_id ∷ []) old) [
              | inl n ↦ inl n
              | inr n ↦ inr (c, Memᴰ.head refl, ground (arith, new), sym (only n))
            ]
            | inr (d, n, u, q) ↦ inr (d, Memᴰ.tail n, u, q)
          ],
          λ x. elim x [
            | inl n ↦ add.1 (inl (mem-append_left seen (c.host_id ∷ []) n))
            | inr (d, Memᴰ.head e, u, q) ↦ add.1 (
                inl (
                  mem-append_right seen (c.host_id ∷ [])
                    (Memᴰ.head (sym q ∙ ap (λ y. y.host_id) e))))
            | inr (d, Memᴰ.tail n, u, q) ↦ add.1 (inr (d, n, u, q))
          ],
        )
        | inr old ↦ rw old (
          λ m. elim (skip.0 m) [ inl n ↦ inl n | inr (d, n, u, q) ↦ inr (d, Memᴰ.tail n, u, q) ],
          λ x. elim x [
            | inl n ↦ skip.1 (inl n)
            | inr (d, Memᴰ.head e, u, q) ↦
                let up = sym (ap (λ y. y.update_available) e) ∙ u in
                let (k, n, same) =
                  any-mem (λ host. host == c.host_id) seen (ground (arith, old, up)) in
                let there : k ≡ h = ground (arith, same, q, ap (λ y. y.host_id) e) in
                skip.1 (inl (subst (λ y. Memᴰ y seen) there n))
            | inr (d, Memᴰ.tail n, u, q) ↦ skip.1 (inr (d, n, u, q))
          ],
        )
      ]

  -- Each host stands once.
  count-hosts_with_updates :
      (cs : List (Container F)) (seen : List ℕ)
      → ((h : ℕ) → count_if (λ host. host == h) seen ≤ 1)
      → (h : ℕ) → count_if (λ host. host == h) (hosts_with_updates cs seen) ≤ 1
  unfolding hosts_with_updates
  count-hosts_with_updates [] seen l h = l h
  count-hosts_with_updates (c ∷ cs) seen l h =
      elim (Bool-cases (c.update_available && not (any (λ host. host == c.host_id) seen))) [
        | inl new ↦ rw new (
            count-hosts_with_updates cs (seen ++ (c.host_id ∷ []))
              (λ k. count_if-snoc k c.host_id seen (ground (arith, new)) (l k)) h)
        | inr old ↦ rw old (count-hosts_with_updates cs seen l h)
      ]

module _ {F : Type 0} (fl : Float64 F) where
  -- Each of the hosts stands once, and they are those of the rows that are due and had an update, if any
  -- update was found.
  abbrev pub NotifiedHosts : Bool → List (ContainerRow F) → ℕ → List ℕ → Type 0
  NotifiedHosts only_latest table found hosts =
      ((h : ℕ) → count_if (λ host. host == h) hosts ≤ 1)
      × ((h : ℕ)
          → Memᴰ h hosts
            ↔ (0 < found)
              × ((row : ContainerRow F) × Memᴰ row table
                  × (is_due fl only_latest table row ≡ true)
                  × (row.update_available ≡ true)
                  × (row.host_id ≡ h)))

module _ {F N : Type 0} (fl : Float64 F) (get_image_digest : ImageName → Result Text)
    (get_image_created_time : ImageName → Result Time) (now : Container F → Time)
    (process_host : ℕ → List (ContainerRow F) → N → N) where
  notify_hosts_lem :
      (only_latest : Bool) (table checked : List (ContainerRow F)) (found : ℕ) (notifier : N)
      → (hosts : List ℕ) × (notify_hosts process_host
            (containers_to_check fl only_latest table)
            found
            checked
            notifier
          ≡ process_hosts process_host hosts checked notifier)
        × NotifiedHosts fl only_latest table found hosts
  unfolding notify_hosts process_hosts scan_container
  notify_hosts_lem only_latest table checked found notifier =
      let cs = containers_to_check fl only_latest table in
      elim (Bool-cases (ltb 0 found)) [
        | inr none_found ↦ (
          [],
          rw none_found refl,
          (
            λ h. ground arith,
            λ h. (
              λ m. absurd (elim m [ ]),
              λ (positive, _). absurd (ground (arith, none_found, positive)),
            ),
          ),
        )
        | inl some_found ↦ (
          hosts_with_updates cs [],
          rw some_found refl,
          (
            count-hosts_with_updates cs [] (λ h. ground arith),
            λ h. (
              λ m. (
                ground (arith, some_found),
                elim ((mem-hosts_with_updates_iff cs [] h).0 m) [
                  | inl n ↦ absurd (elim n [ ])
                  | inr (c, n, u, q) ↦
                      let (row, n2, due, e) = to_check-mem fl only_latest table n in
                      (
                        row,
                        n2,
                        due,
                        sym (ap (λ y. y.update_available) e) ∙ u,
                        sym (ap (λ y. y.host_id) e) ∙ q,
                      )
                ],
              ),
              λ (positive, (row, m, due, u, q)).
                  (mem-hosts_with_updates_iff cs [] h).1 (
                    inr (scan_container fl row, mem-to_check fl only_latest table row m due, u, q)),
            ),
          ),
        )
      ]

  -- A check that is enabled, over rows of which no two have the same primary key, panics, or stores the
  -- statuses of the rows and runs the notifier over them, once for each of some hosts: if it found an
  -- update, for the hosts with a row that was due and that had an update already before the check, and
  -- otherwise for none.
  pub check_tick_lem :
      (s : ImageUpdateSettings) (table : List (ContainerRow F)) (notifier : N)
      → s.auto_check_enabled ≡ true
      → IsKeyed table
      → (hosts : List ℕ) × NotifiedHosts fl s.only_check_latest_tags table
          (updates_found fl get_image_digest get_image_created_time now s.only_check_latest_tags
            table)
          hosts
        × (check_tick fl get_image_digest get_image_created_time now process_host s table notifier
            ≡ (if panics fl get_image_digest get_image_created_time now s.only_check_latest_tags
                  table
                then none
                else let checked =
                    map
                      (checked_row fl get_image_digest get_image_created_time now
                        s.only_check_latest_tags table)
                      table in
                  some (checked, process_hosts process_host hosts checked notifier)))
  unfolding check_tick
  check_tick_lem s table notifier on k =
      let latest = s.only_check_latest_tags in
      let checked =
        map (checked_row fl get_image_digest get_image_created_time now latest table) table in
      let found = updates_found fl get_image_digest get_image_created_time now latest table in
      let (hosts, runs, whose) = notify_hosts_lem latest table checked found notifier in
      (
        hosts,
        whose,
        rw (on, check_images_lem fl get_image_digest get_image_created_time now latest table k)
            (elim (Bool-cases
              (panics fl get_image_digest get_image_created_time now latest table)) [
                | inl crash ↦ rw crash refl
                | inr calm ↦ rw calm (ap (λ n. some (checked, n)) runs)
              ]),
      )
