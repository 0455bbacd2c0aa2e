-- ===== src/Notifications/Detect/Laws.antt =====
-- Which containers are reported as anomalous (internal/notifications/notifier.go, detectAnomalies).
use container_census.Base.{
  ℕ, ◌≡◌, ◌≢◌, refl, sym, subst, ap, ◌∙◌, ◌↔◌, ◌⊎◌, inl, inr, true, List, [], ◌∷◌, some, Text,
  text_eq, nat_eq, codes, ◌==◌, text_beq_iff, Memᴰ, append-mem, mem-append_left, mem-append_right,
  Option-cases, Bool-cases, arith,
}
use container_census.Models.{Time, Float64, Container, NotificationEvent, ContainerBaselineStats}
use container_census.Notifications.Detect.{
  Database, increase, anomaly_event, compare_baseline, anomaly_events, anomaly_loop,
  detect_anomalies,
}

mem-single : {A : Type 0} {x y : A} → Memᴰ x (y ∷ []) → x ≡ y
mem-single (Memᴰ.head e) = e
mem-single (Memᴰ.tail m) = elim m [ ]

module _ {F : Type 0} (fl : Float64 F) (db : Database F) (now : Time) where
  abbrev pub Increased : Container F → ContainerBaselineStats F → Type 0
  Increased c baseline =
      (fl.lt_f fl.quarter (increase fl c.cpu_percent baseline.avg_cpu_percent) ≡ true)
      ⊎ (fl.lt_f fl.quarter (increase fl c.memory_percent baseline.avg_memory_percent) ≡ true)

  -- A running container with a memory limit that uses over a quarter more than its baseline.
  abbrev pub IsAnomalous : Container F → Type 0
  IsAnomalous c =
      (c.state ≡ codes "running")
      × (c.memory_limit ≢ 0)
      × (baseline : ContainerBaselineStats F) × (db.get_container_baseline c.id c.host_id
          ≡ some (some baseline))
      × Increased c baseline

  -- What the detector says of one container.
  abbrev Reported : Container F → List (NotificationEvent F) → Type 0
  Reported c events =
      (events ≡ []) × ¬ IsAnomalous c
      ⊎ (IsAnomalous c × ((e : NotificationEvent F) × (events ≡ e ∷ []) × (e.container_id ≡ c.id)))

  anomaly_event-id :
      (c : Container F) (baseline : ContainerBaselineStats F)
      → (anomaly_event fl now c baseline).container_id ≡ c.id
  unfolding anomaly_event
  anomaly_event-id c baseline = refl

  compared-Reported :
      (c : Container F) (baseline : ContainerBaselineStats F)
      → c.state ≡ codes "running"
      → c.memory_limit ≢ 0
      → db.get_container_baseline c.id c.host_id ≡ some (some baseline)
      → Reported c (compare_baseline fl now c baseline)
  unfolding compare_baseline
  compared-Reported c baseline run limited found =
      elim (Bool-cases (fl.lt_f fl.quarter (increase fl c.cpu_percent baseline.avg_cpu_percent))) [
        | inl cpu ↦ inr (
          (run, limited, baseline, found, inl cpu),
          (anomaly_event fl now c baseline, ground (arith, cpu), anomaly_event-id c baseline),
        )
        | inr no_cpu ↦
            elim (Bool-cases
              (fl.lt_f fl.quarter (increase fl c.memory_percent baseline.avg_memory_percent))) [
                | inl memory ↦ inr (
                  (run, limited, baseline, found, inr memory),
                  (
                    anomaly_event fl now c baseline,
                    ground (arith, no_cpu, memory),
                    anomaly_event-id c baseline,
                  ),
                )
                | inr no_memory ↦ inl (
                  ground (arith, no_cpu, no_memory),
                  λ (_, _, b, q, i). ground (arith, found, q, i, no_cpu, no_memory),
                )
              ]
      ]

  anomaly_events-Reported : (c : Container F) → Reported c (anomaly_events fl db now c)
  unfolding anomaly_events
  anomaly_events-Reported c = elim (Bool-cases (c.state == codes "running")) [
    | inr idle ↦ inl (
      ground (arith, idle),
      λ h. ground (arith, idle, text_beq_iff c.state (codes "running"), h.0),
    )
    | inl running ↦ elim (Bool-cases (c.memory_limit == 0)) [
      | inl unlimited ↦
          inl (ground (arith, running, unlimited), λ h. ground (arith, unlimited, h.1))
      | inr limited ↦ elim (Option-cases (db.get_container_baseline c.id c.host_id)) [
        | inl failed ↦
            inl (
              ground (arith, running, limited, failed),
              λ (_, _, b, q, _). ground (arith, failed, q),
            )
        | inr (found, read) ↦ elim (Option-cases found) [
          | inl missing ↦ inl (
            ground (arith, running, limited, read, missing),
            λ (_, _, b, q, _). ground (arith, read, missing, q),
          )
          | inr (baseline, here) ↦
              let q : anomaly_events fl db now c ≡ compare_baseline fl now c baseline =
                ground (arith, running, limited, read, here) in
              subst (Reported c) (sym q) (
                compared-Reported c baseline
                  (ground (arith, running, text_beq_iff c.state (codes "running")))
                  (ground (arith, limited)) (ground (arith, read, here)))
        ]
      ]
    ]
  ]

  loop-mem :
      (cs : List (Container F)) (e : NotificationEvent F)
      → Memᴰ e (anomaly_loop fl db now cs)
      → (c : Container F) × Memᴰ c cs × (c.id ≡ e.container_id) × IsAnomalous c
  unfolding anomaly_loop
  loop-mem [] e m = elim m [ ]
  loop-mem (c ∷ cs) e m =
      elim (append-mem (anomaly_events fl db now c) (anomaly_loop fl db now cs) m) [
        | inl here ↦ elim (anomaly_events-Reported c) [
          | inl (q, _) ↦ elim (subst (Memᴰ e) q here) [ ]
          | inr (a, (e', q, i)) ↦ (
            c,
            Memᴰ.head refl,
            sym i ∙ ap (λ x. x.container_id) (sym (mem-single (subst (Memᴰ e) q here))),
            a,
          )
        ]
        | inr later ↦ let (c', m', q, a) = loop-mem cs e later in (c', Memᴰ.tail m', q, a)
      ]

  mem-loop :
      (cs : List (Container F)) (c : Container F)
      → Memᴰ c cs
      → IsAnomalous c
      → (e : NotificationEvent F) × Memᴰ e (anomaly_loop fl db now cs) × (e.container_id ≡ c.id)
  unfolding anomaly_loop
  mem-loop [] c m a = elim m [ ]
  mem-loop (d ∷ cs) c (Memᴰ.head s) a = elim (anomaly_events-Reported d) [
    | inl (_, normal) ↦ absurd (normal (subst IsAnomalous s a))
    | inr (_, (e, q, i)) ↦ (
      e,
      mem-append_left (anomaly_events fl db now d) (anomaly_loop fl db now cs)
          (subst (Memᴰ e) (sym q) (Memᴰ.head refl)),
      i ∙ ap (λ x. x.id) (sym s),
    )
  ]
  mem-loop (d ∷ cs) c (Memᴰ.tail m) a =
      let (e, m', q) = mem-loop cs c m a in
      (e, mem-append_right (anomaly_events fl db now d) (anomaly_loop fl db now cs) m', q)

  -- An anomaly is reported for a container's id exactly if one of the host's containers has that id and
  -- is running, has a memory limit, and uses over a quarter more processor time or memory than its
  -- baseline (where the query for the containers succeeds).
  pub detect_anomalies_iff :
      (host_id : ℕ) (containers : List (Container F)) (events : List (NotificationEvent F))
      (id : Text)
      → db.get_containers_by_host host_id ≡ some containers
      → detect_anomalies fl db now host_id ≡ some events
      → ((e : NotificationEvent F) × Memᴰ e events × (e.container_id ≡ id))
        ↔ ((c : Container F) × Memᴰ c containers × (c.id ≡ id) × IsAnomalous c)
  unfolding detect_anomalies
  detect_anomalies_iff host_id containers events id q r =
      let same : anomaly_loop fl db now containers ≡ events = ground (arith, q, r) in
      rw (← same) (
        λ (e, m, i). let (c, m', j, a) = loop-mem containers e m in (c, m', j ∙ i, a),
        λ (c, m, i, a). let (e, m', j) = mem-loop containers c m a in (e, m', j ∙ i),
      )
