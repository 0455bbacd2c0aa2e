-- ===== src/Notifications/Channels/Retry.antt =====
-- The three attempts of the webhook and ntfy channels (internal/notifications/channels).
use container_census.Base.{
  ℕ, zero, suc, ◌+◌, ◌≤◌, ◌<◌, ◌≡◌, ◌↔◌, inl, inr, none, some, [], Text, arith, Option-cases, subst,
  sym,
}
use native.Mathlib.Decide.{dec_lt}
use container_census.Models.{NotificationEvent}
use container_census.Notifications.Channels.{
  webhook, Reply, status, broken, Http, WebhookConfig, webhook_message, attempt_outcome,
  send_attempts, send,
}

-- An attempt got a response with a status from 200 to 299.
abbrev pub Accepted : Reply → Type 0
Accepted (status code) = (200 ≤ code) × (code < 300)
Accepted (broken e) = ⊥

attempt_outcome_iff : (n : ℕ) (r : Reply) → (attempt_outcome n r ≡ none) ↔ Accepted r
unfolding attempt_outcome
attempt_outcome_iff n (status code) = (ground arith, ground arith)
attempt_outcome_iff n (broken e) = (ground arith, ground arith)

-- One of the attempts from the first up to the end is accepted.
abbrev AcceptedWithin : (ℕ → Reply) → ℕ → ℕ → Type 0
AcceptedWithin reply first end = (k : ℕ) × (first ≤ k) × (k < end) × Accepted (reply k)

send_attempts_iff :
    (reply : ℕ → Reply) (left attempt : ℕ) (last : Text)
    → (send_attempts reply left attempt last ≡ none) ↔ AcceptedWithin reply attempt (attempt + left)
unfolding send_attempts
send_attempts_iff reply zero attempt last =
    (λ h. absurd (ground arith), λ (k, a, b, c). absurd (omega arith))
send_attempts_iff reply (suc left) attempt last =
    elim (Option-cases (attempt_outcome attempt (reply attempt))) [
      | inl e ↦ (
        λ h. (attempt, omega arith, omega arith, (attempt_outcome_iff attempt (reply attempt)).0 e),
        λ h. ground (arith, e),
      )
      | inr (t, e) ↦
          let (to, from) = send_attempts_iff reply left (suc attempt) t in
          (
            λ h. let (k, a, b, c) = to (ground (arith, e, h)) in (k, omega arith, omega arith, c),
            λ (k, a, b, c). rw (e, send_attempts) (from (k, later k a c e, omega arith, c)),
          )
    ]
  where
    later :
        {t : Text} (k : ℕ)
        → attempt ≤ k
        → Accepted (reply k)
        → attempt_outcome attempt (reply attempt) ≡ some t
        → suc attempt ≤ k
    later k a c e = elim (dec_lt attempt k) [
      | yes h ↦ h
      | no h ↦
          let same : attempt ≡ k = omega arith in
          let none_here =
            (attempt_outcome_iff attempt (reply attempt)).1
              (subst (λ n. Accepted (reply n)) (sym same) c) in
          absurd (ground (arith, none_here, e))
    ]

module _ {F : Type 0} (http : Http F) where
  -- A webhook delivery reports success exactly if one of the attempts 1, 2 and 3 to the configured URL
  -- gets a status from 200 to 299.
  pub send-webhook_iff :
      (name : Text) (config : WebhookConfig) (message : Text) (event : NotificationEvent F)
      → (send http (webhook name config) message event ≡ none) ↔ (
          (k : ℕ) × (1 ≤ k)
          × (k < 4)
          × Accepted (http config.url (webhook_message message event) k))
  unfolding send
  send-webhook_iff name config message event =
      let (to, from) = send_attempts_iff (http config.url (webhook_message message event)) 3 1 [] in
      (λ h. to (ground (arith, h)), λ k. ground (arith, from k))
