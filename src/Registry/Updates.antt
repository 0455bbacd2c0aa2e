-- ===== src/Registry/Updates.antt =====
-- CheckImageUpdate of internal/registry/registry.go.
use container_census.Base.{
  ◌≡◌, ◌≢◌, ◌↔◌, inl, inr, sym, ap, ◌∙◌, true, Result, ok, err, ok_injective, Text, text_eq,
  text_beq_iff, codes, ◌==◌, Result-cases, ◌++◌, Bool-cases, arith,
}
use container_census.Models.{Time}
use container_census.Registry.{
  ImageName, ImageUpdateInfo, parse_image_name, normalize_digest, check_image_update, compared_info,
  created_or_zero,
}

compared_available :
    (image_name tag local remote : Text) (created : Time)
    → normalize_digest local ≢ normalize_digest remote
    → (compared_info image_name tag local remote created).available ≡ true
unfolding compared_info
compared_available image_name tag local remote created differ =
    elim (Bool-cases (normalize_digest local == normalize_digest remote)) [
      | inl same ↦
          absurd (differ ((text_beq_iff (normalize_digest local) (normalize_digest remote)).0 same))
      | inr other ↦ ground (arith, other)
    ]

module _ (get_image_digest : ImageName → Result Text)
    (get_image_created_time : ImageName → Result Time) where
  -- An update is reported exactly if the reference has the tag "latest", the registry gives a digest for
  -- it, and the two digests differ once they are normalized; an error is returned exactly if the tag is
  -- "latest" and the registry gives no digest.
  pub check_image_update_iff :
      (image_name local : Text)
      → (((info : ImageUpdateInfo) × (check_image_update get_image_digest get_image_created_time
                image_name local
              ≡ ok info)
            × (info.available ≡ true))
          ↔ ((parse_image_name image_name).tag ≡ codes "latest")
            × ((remote : Text) × (get_image_digest (parse_image_name image_name) ≡ ok remote)
                × (normalize_digest local ≢ normalize_digest remote)))
        × (((e : Text) × (check_image_update get_image_digest get_image_created_time image_name
                  local
                ≡ err e))
            ↔ ((parse_image_name image_name).tag ≡ codes "latest")
              × ((e : Text) × (get_image_digest (parse_image_name image_name) ≡ err e)))
  unfolding check_image_update compared_info
  check_image_update_iff image_name local =
      let parsed = parse_image_name image_name in
      let tags = text_beq_iff parsed.tag (codes "latest") in
      elim (Bool-cases (parsed.tag == codes "latest")) [
        | inr other ↦ (
          (
            λ (info, q, a). absurd (ground (arith, other, q, a)),
            λ (q, h). absurd (ground (arith, other, tags.1 q)),
          ),
          (
            λ (e, q). absurd (ground (arith, other, q)),
            λ (q, h). absurd (ground (arith, other, tags.1 q)),
          ),
        )
        | inl latest ↦ elim (Result-cases (get_image_digest parsed)) [
          | inr (e, failed) ↦ (
            (
              λ (info, q, a). absurd (ground (arith, latest, failed, q)),
              λ (q, (r, g, d)). absurd (ground (arith, failed, g)),
            ),
            (
              λ _. (tags.0 latest, (e, failed)),
              λ _. (codes "failed to get remote digest: " ++ e, ground (arith, latest, failed)),
            ),
          )
          | inl (remote, found) ↦ (
            (
              λ (info, q, a). (
                tags.0 latest,
                (
                  remote,
                  found,
                  λ same. absurd (
                      ground (
                        arith,
                        latest,
                        found,
                        q,
                        a,
                        (text_beq_iff (normalize_digest local) (normalize_digest remote)).1 same,
                      )),
                ),
              ),
              λ (q, (r, g, d)). (
                compared_info image_name parsed.tag local remote
                    (created_or_zero (get_image_created_time parsed)),
                ground (arith, latest, found),
                compared_available image_name parsed.tag local remote
                    (created_or_zero (get_image_created_time parsed))
                    (λ same. d (same ∙ ap normalize_digest (ok_injective (sym found ∙ g)))),
              ),
            ),
            (
              λ (e, q). absurd (ground (arith, latest, found, q)),
              λ (q, (e, g)). absurd (ground (arith, found, g)),
            ),
          )
        ]
      ]
