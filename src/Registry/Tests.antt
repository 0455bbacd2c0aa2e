-- ===== src/Registry/Tests.antt =====
-- Witnesses and test data for the registry client.
use container_census.Base.{◌≡◌, ◌≢◌, ◌↔◌, refl, Result, ok, err, Text, codes, trim_space, true}
use container_census.Models.{Time}
use container_census.Registry.{
  ImageName, ImageUpdateInfo, parse_image_name, normalize_digest, check_image_update,
}
use container_census.Registry.Names.{tagged, within}
use container_census.Registry.Updates.{check_image_update_iff}

local_bare :
    trim_space
      (tagged (codes "localhost") (tagged (within (codes "5000") (codes "app")) (codes "latest")))
    ≡ tagged (codes "localhost") (tagged (within (codes "5000") (codes "app")) (codes "latest"))
unfolding trim_space
local_bare = refl

abbrev digest_of : ImageName → Result Text
digest_of parsed = ok (codes "sha256:bb")

abbrev created_of : ImageName → Result Time
created_of parsed = err (codes "no manifest")

check_image_update_iff_example :
    (((info : ImageUpdateInfo) × (check_image_update digest_of created_of
            (codes "nginx")
            (codes "aa")
          ≡ ok info)
        × (info.available ≡ true))
      ↔ ((parse_image_name (codes "nginx")).tag ≡ codes "latest")
        × ((remote : Text) × (digest_of (parse_image_name (codes "nginx")) ≡ ok remote)
            × (normalize_digest (codes "aa") ≢ normalize_digest remote)))
    × (((e : Text) × (check_image_update digest_of created_of (codes "nginx") (codes "aa") ≡ err e))
        ↔ ((parse_image_name (codes "nginx")).tag ≡ codes "latest")
          × ((e : Text) × (digest_of (parse_image_name (codes "nginx")) ≡ err e)))
check_image_update_iff_example =
    check_image_update_iff digest_of created_of (codes "nginx") (codes "aa")
