-- ===== src/Telemetry/Submitter/Attempts.antt =====
-- submitToEndpoint and sendRequest of internal/telemetry/submitter.go.
use container_census.Base.{ℕ, ◌≡◌, ◌↔◌, ◌⊎◌, inl, inr, none, ok, Text, Option-cases, arith}
use container_census.Notifications.Channels.{Reply, status, broken}
use container_census.Notifications.Channels.Retry.{Accepted}
use container_census.Telemetry.Types.{TelemetryEndpoint}
use container_census.Telemetry.Submitter.{
  Net, Wire, reply_error, send_request, wait_error, retry_loop, submit_to_endpoint,
}

reply_error_iff : (r : Reply) → (reply_error r ≡ none) ↔ Accepted r
unfolding reply_error
reply_error_iff (status code) = (ground arith, ground arith)
reply_error_iff (broken e) = (ground arith, ground arith)

send_request_iff :
    (wire : Wire) (attempt : ℕ)
    → (send_request wire attempt ≡ none)
      ↔ (wire.request_error ≡ none) × Accepted (wire.reply attempt)
unfolding send_request
send_request_iff wire attempt = elim (Option-cases wire.request_error) [
  | inl n ↦ (
    λ h. (n, (reply_error_iff (wire.reply attempt)).0 (ground (arith, n, h))),
    λ (q, a). ground (arith, n, (reply_error_iff (wire.reply attempt)).1 a),
  )
  | inr (e, n) ↦ (λ h. absurd (ground (arith, n, h)), λ (q, a). absurd (ground (arith, n, q)))
]

-- A submission of a report that can be encoded succeeds exactly if the request can be made and either
-- its first attempt gets a status from 200 to 299, or the context outlives the wait of ten seconds and
-- the second attempt gets such a status.
pub submit_to_endpoint_iff :
    (net : Net) (ep : TelemetryEndpoint) (body : Text)
    → (submit_to_endpoint net ep (ok body) ≡ none)
      ↔ ((net ep body).request_error ≡ none)
        × (Accepted ((net ep body).reply 0)
            ⊎ ((net ep body).interrupted 10000000000 ≡ none) × Accepted ((net ep body).reply 1))
unfolding submit_to_endpoint retry_loop wait_error
submit_to_endpoint_iff net ep body =
    let wire = net ep body in
    let (to0, from0) = send_request_iff wire 0 in
    let (to1, from1) = send_request_iff wire 1 in
    elim (Option-cases (send_request wire 0)) [
      | inl n ↦ (λ h. ((to0 n).0, inl (to0 n).1), λ h. ground (arith, n))
      | inr (e, n) ↦ elim (Option-cases (wire.interrupted 10000000000)) [
        | inl w ↦ (
          λ h. let (q, a) = to1 (ground (arith, n, w, h)) in (q, inr (w, a)),
          λ (q, h). elim h [
            | inl a ↦ absurd (ground (arith, n, from0 (q, a)))
            | inr (v, a) ↦ ground (arith, n, w, from1 (q, a))
          ],
        )
        | inr (u, w) ↦ (
          λ h. absurd (ground (arith, n, w, h)),
          λ (q, h). elim h [
            | inl a ↦ absurd (ground (arith, n, from0 (q, a)))
            | inr (v, a) ↦ absurd (ground (arith, w, v))
          ],
        )
      ]
    ]
