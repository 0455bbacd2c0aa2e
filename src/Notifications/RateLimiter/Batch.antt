-- ===== src/Notifications/RateLimiter/Batch.antt =====
-- What the batch queue of internal/notifications/ratelimiter.go delivers.
use mathlib.Core.List.{append-nil, append_assoc}
use container_census.Base.{
  ℕ, ◌≡◌, refl, subst, sym, ◌∙◌, ap, true, List, [], ◌∷◌, ◌++◌, arith, if◌then◌else◌, keep, take,
  lookup, insert, IsMap, lookup-insert, insert-IsMap, nat_eq, nat_beq_iff, ◌==◌, none, keep-append,
  inl, inr, Bool-cases,
}
use container_census.Models.{NotificationTask}
use container_census.Notifications.RateLimiter.{
  RateLimiter, Groups, group_of, channel_groups, batch_summary, batch_summaries, flush, send_batch,
}

module _ {F : Type 0} where
  -- The tasks for one channel, in their order.
  abbrev pub on_channel : ℕ → List (NotificationTask F) → List (NotificationTask F)
  on_channel c = keep (λ t. t.channel == c)

  -- A group begins with a task for its channel.
  abbrev Headed : ℕ → List (NotificationTask F) → Type 0
  Headed k [] = Unit
  Headed k (t ∷ ts) = t.channel ≡ k

  abbrev AllHeaded : Groups F → Type 0
  AllHeaded [] = Unit
  AllHeaded ((k, ts) ∷ gs) = Headed k ts × AllHeaded gs

  group_of-insert :
      (k c : ℕ) (ts : List (NotificationTask F)) (gs : Groups F)
      → group_of c (insert k ts gs) ≡ (if k == c then ts else group_of c gs)
  group_of-insert k c ts gs = ground (arith, lookup-insert k c ts gs)

  group_of-channel_groups :
      (c : ℕ) (gs : Groups F) (batch : List (NotificationTask F))
      → group_of c (channel_groups gs batch) ≡ group_of c gs ++ on_channel c batch
  unfolding channel_groups
  group_of-channel_groups c gs [] = sym (append-nil _)
  group_of-channel_groups c gs (t ∷ batch) =
      let new = group_of t.channel gs ++ t ∷ [] in
      ground (
        arith,
        group_of-channel_groups c (insert t.channel new gs) batch,
        group_of-insert t.channel c new gs,
        append_assoc (group_of t.channel gs) (t ∷ []) (on_channel c batch),
      )

  Headed-append :
      (k : ℕ) (ts : List (NotificationTask F)) (t : NotificationTask F)
      → Headed k ts
      → t.channel ≡ k
      → Headed k (ts ++ t ∷ [])
  Headed-append k [] t h e = e
  Headed-append k (s ∷ ts) t h e = h

  group_of-Headed : (k : ℕ) (gs : Groups F) → AllHeaded gs → Headed k (group_of k gs)
  unfolding lookup
  group_of-Headed k [] h = tt
  group_of-Headed k ((j, ts) ∷ gs) h = elim (Bool-cases (j == k)) [
    | inl e ↦ rw (e, group_of, Headed) (subst (λ x. Headed x ts) ((nat_beq_iff j k).0 e) h.0)
    | inr e ↦ rw (e, group_of, Headed) (group_of-Headed k gs h.1)
  ]

  insert-AllHeaded :
      (k : ℕ) (ts : List (NotificationTask F)) (gs : Groups F)
      → Headed k ts
      → AllHeaded gs
      → AllHeaded (insert k ts gs)
  unfolding insert
  insert-AllHeaded k ts [] h g = (h, tt)
  insert-AllHeaded k ts ((j, us) ∷ gs) h g = ground (arith, insert-AllHeaded k ts gs h g.1)

  channel_groups_lem :
      (gs : Groups F) (batch : List (NotificationTask F))
      → IsMap gs
      → AllHeaded gs
      → IsMap (channel_groups gs batch) × AllHeaded (channel_groups gs batch)
  unfolding channel_groups
  channel_groups_lem gs [] m h = (m, h)
  channel_groups_lem gs (t ∷ batch) m h =
      let old = group_of t.channel gs in
      channel_groups_lem (insert t.channel (old ++ t ∷ []) gs) batch
        (insert-IsMap t.channel (old ++ t ∷ []) gs m)
        (insert-AllHeaded t.channel (old ++ t ∷ []) gs
          (Headed-append t.channel old t (group_of-Headed t.channel gs h) refl) h)

  on_channel-summary :
      (c k : ℕ) (ts : List (NotificationTask F))
      → Headed k ts
      → on_channel c (batch_summary ts) ≡ (if k == c then take 1 ts else [])
  unfolding batch_summary
  on_channel-summary c k [] h = ground arith
  on_channel-summary c k (t ∷ ts) h = ground arith

  on_channel-absent :
      (c : ℕ) (gs : Groups F)
      → AllHeaded gs
      → lookup c gs ≡ none
      → on_channel c (batch_summaries gs) ≡ []
  unfolding batch_summaries lookup
  on_channel-absent c [] h e = refl
  on_channel-absent c ((k, ts) ∷ gs) h e = ground (
    arith,
    keep-append (λ (t : NotificationTask F). t.channel == c) (batch_summary ts)
        (batch_summaries gs),
    on_channel-summary c k ts h.0,
    on_channel-absent c gs h.1,
  )

  on_channel-batch_summaries :
      (c : ℕ) (gs : Groups F)
      → IsMap gs
      → AllHeaded gs
      → on_channel c (batch_summaries gs) ≡ take 1 (group_of c gs)
  unfolding batch_summaries lookup
  on_channel-batch_summaries c [] m h = refl
  on_channel-batch_summaries c ((k, ts) ∷ gs) m h = ground (
    arith,
    keep-append (λ (t : NotificationTask F). t.channel == c) (batch_summary ts)
        (batch_summaries gs),
    on_channel-summary c k ts h.0,
    on_channel-batch_summaries c gs m.1 h.1,
    on_channel-absent c gs h.1,
    append-nil (take 1 ts),
  )

  on_channel-channel_groups :
      (c : ℕ) (queue : List (NotificationTask F))
      → on_channel c (batch_summaries (channel_groups [] queue)) ≡ take 1 (on_channel c queue)
  unfolding lookup
  on_channel-channel_groups c queue =
      let (m, h) = channel_groups_lem [] queue tt tt in
      on_channel-batch_summaries c (channel_groups [] queue) m h
      ∙ ap (take 1) (group_of-channel_groups c [] queue)

  on_channel-flush :
      (rl : RateLimiter F) (c : ℕ) (queue : List (NotificationTask F))
      → rl.batch_queue ≡ queue
      → rl.notifier ≡ true
      → ((flush rl queue).0.batch_queue ≡ [])
        × (on_channel c (flush rl queue).1 ≡ take 1 (on_channel c queue))
  unfolding flush
  on_channel-flush rl c [] e n = (e, refl)
  on_channel-flush rl c (t ∷ batch) e n = (refl, rw n (on_channel-channel_groups c (t ∷ batch)))

  -- Once the notifier is set, a batch run empties the queue and sends, for each channel, the oldest
  -- queued task of that channel and none of the others.
  pub on_channel-send_batch :
      (rl : RateLimiter F) (c : ℕ)
      → rl.notifier ≡ true
      → ((send_batch rl).0.batch_queue ≡ [])
        × (on_channel c (send_batch rl).1 ≡ take 1 (on_channel c rl.batch_queue))
  unfolding send_batch
  on_channel-send_batch rl c n = on_channel-flush rl c rl.batch_queue refl n
