-- ===== src/Notifications/Pipeline/Sending.antt =====
-- sendNotifications (internal/notifications/notifier.go) against the tokens of the rate limiter.
use mathlib.Core.List.{append-nil, append_assoc}
use container_census.Base.{
  ℕ, zero, suc, ◌+◌, ◌-◌, ◌<◌, ◌≡◌, refl, sym, ◌∙◌, ap, true, false, List, [], ◌∷◌, ◌++◌, length,
  take, drop, arith, ◌≢◌, ◌⊎◌, inl, inr, Memᴰ, Bool-cases,
}
use container_census.Models.{Time, hour, NotificationTask}
use container_census.Notifications.RateLimiter.{RateLimiter, refill, allow, add_to_batch}
use container_census.Notifications.Pipeline.{send_notifications}

module _ {F : Type 0} where
  -- The limiter has no refill to make at this clock reading.
  abbrev pub Settled : Time → RateLimiter F → Type 0
  Settled now rl = now < rl.last_reset + hour

  -- What the loop leaves and sends when `n` tokens are at hand.
  abbrev Split : ℕ → (ℕ → Time) → RateLimiter F → List (NotificationTask F) → Type 0
  Split n clock rl tasks =
      let r = send_notifications clock rl tasks in
      (r.1 ≡ take n tasks)
      × (r.0.batch_queue ≡ rl.batch_queue ++ drop n tasks)
      × (r.0.tokens ≡ n - length tasks)

  allow_some :
      (now : Time) (rl : RateLimiter F) (n : ℕ)
      → Settled now rl
      → rl.tokens ≡ suc n
      → allow now rl ≡ (record rl { tokens = n }, true)
  unfolding allow
  allow_some now rl n s e = ground arith

  allow_none :
      (now : Time) (rl : RateLimiter F)
      → Settled now rl
      → rl.tokens ≡ 0
      → allow now rl ≡ (rl, false)
  unfolding allow
  allow_none now rl s e = ground arith

  send-Split :
      (n : ℕ) (clock : ℕ → Time) (rl : RateLimiter F) (tasks : List (NotificationTask F))
      → ((i : ℕ) → i < length tasks → Settled (clock i) rl)
      → rl.tokens ≡ n
      → Split n clock rl tasks
  unfolding send_notifications add_to_batch
  send-Split zero clock rl [] s e = (refl, sym (append-nil _), e ∙ omega arith)
  send-Split (suc n) clock rl [] s e = (refl, sym (append-nil _), e ∙ omega arith)
  send-Split zero clock rl (task ∷ tasks) s e =
      let (a, b, c) =
        send-Split zero (λ i. clock (suc i)) (add_to_batch task rl) tasks
          (λ i l. s (suc i) (omega (arith, l))) e in
      rw (allow_none (clock 0) rl (s 0 (omega arith)) e)
        (a, b ∙ append_assoc rl.batch_queue (task ∷ []) tasks, c ∙ omega arith)
  send-Split (suc n) clock rl (task ∷ tasks) s e =
      let (a, b, c) =
        send-Split n (λ i. clock (suc i)) (record rl { tokens = n }) tasks
          (λ i l. s (suc i) (omega (arith, l))) refl in
      rw (allow_some (clock 0) rl n (s 0 (omega arith)) e) (ap (◌∷◌ task) a, b, c ∙ omega arith)

  allow-refill : (now : Time) (rl : RateLimiter F) → allow now (refill now rl) ≡ allow now rl
  unfolding allow
  allow-refill now rl = ground arith

  send-refill :
      (clock : ℕ → Time) (rl : RateLimiter F) (task : NotificationTask F)
      (tasks : List (NotificationTask F))
      → send_notifications clock (refill (clock 0) rl) (task ∷ tasks)
        ≡ send_notifications clock rl (task ∷ tasks)
  unfolding send_notifications
  send-refill clock rl task tasks = rw (allow-refill (clock 0) rl)

  refill-queue : (now : Time) (rl : RateLimiter F) → (refill now rl).batch_queue ≡ rl.batch_queue
  unfolding refill
  refill-queue now rl = ground arith

  -- Of the tasks of one scan, of which there is at least one, the first are sent at once, as many as
  -- the limiter has tokens after the refill that is due at the first of them; all others go to the end of
  -- the batch queue in their order, and the tokens fall by what was sent. Each turn of the loop reads the
  -- clock, and no other refill falls due meanwhile.
  pub send_notifications_lem :
      (clock : ℕ → Time) (rl : RateLimiter F) (tasks : List (NotificationTask F))
      → tasks ≢ []
      → ((i : ℕ) → i < length tasks → Settled (clock i) (refill (clock 0) rl))
      → let n = (refill (clock 0) rl).tokens in
        let r = send_notifications clock rl tasks in
        (r.1 ≡ take n tasks)
        × (r.0.batch_queue ≡ rl.batch_queue ++ drop n tasks)
        × (r.0.tokens ≡ n - length tasks)
  send_notifications_lem clock rl [] h settled = absurd (h refl)
  send_notifications_lem clock rl (task ∷ tasks) h settled =
      let first = refill (clock 0) rl in
      let (a, b, c) = send-Split first.tokens clock first (task ∷ tasks) settled refl in
      let e = send-refill clock rl task tasks in
      (
        ap (λ r. r.1) (sym e) ∙ a,
        ap (λ r. r.0.batch_queue) (sym e)
            ∙ b
            ∙ ap (λ q. q ++ drop first.tokens (task ∷ tasks)) (refill-queue (clock 0) rl),
        ap (λ r. r.0.tokens) (sym e) ∙ c,
      )

  allow-queue : (now : Time) (rl : RateLimiter F) → (allow now rl).0.batch_queue ≡ rl.batch_queue
  unfolding allow
  allow-queue now rl = ground arith

  -- What is sent, and what is added to the queue, are given tasks.
  pub send_notifications-mem :
      (clock : ℕ → Time) (rl : RateLimiter F) (tasks : List (NotificationTask F))
      → let r = send_notifications clock rl tasks in
        (added : List (NotificationTask F)) × (r.0.batch_queue ≡ rl.batch_queue ++ added)
        × ((t : NotificationTask F) → Memᴰ t r.1 ⊎ Memᴰ t added → Memᴰ t tasks)
  unfolding send_notifications add_to_batch
  send_notifications-mem clock rl [] =
      ([], sym (append-nil _), λ t h. elim h [ inl m ↦ elim m [ ] | inr m ↦ elim m [ ] ])
  send_notifications-mem clock rl (task ∷ tasks) =
      let (rl', allowed) = allow (clock 0) rl in
      let later = λ (i : ℕ). clock (suc i) in
      let queue = allow-queue (clock 0) rl in
      elim (Bool-cases allowed) [
        | inl e ↦
            let (added, q, given) = send_notifications-mem later rl' tasks in
            rw e (
              added,
              q ∙ ap (λ old. old ++ added) queue,
              λ t h. elim h [
                | inl (Memᴰ.head same) ↦ Memᴰ.head same
                | inl (Memᴰ.tail m) ↦ Memᴰ.tail (given t (inl m))
                | inr m ↦ Memᴰ.tail (given t (inr m))
              ],
            )
        | inr e ↦
            let (added, q, given) = send_notifications-mem later (add_to_batch task rl') tasks in
            rw e (
              task ∷ added,
              q
                  ∙ append_assoc rl'.batch_queue (task ∷ []) added
                  ∙ ap (λ old. old ++ (task ∷ added)) queue,
              λ t h. elim h [
                | inl m ↦ Memᴰ.tail (given t (inl m))
                | inr (Memᴰ.head same) ↦ Memᴰ.head same
                | inr (Memᴰ.tail m) ↦ Memᴰ.tail (given t (inr m))
              ],
            )
      ]
