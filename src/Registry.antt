-- ===== src/Registry.antt =====
-- The registry client, internal/registry/registry.go: the names of images, and the check for an update.
-- The requests for the digest and the creation time of an image are parameters.
pub mod Names
pub mod Updates
mod Tests
use container_census.Base.{
  ℕ, zero, suc, ◌+◌, ◌≤◌, ◌<◌, ◌≡◌, Bool, true, false, not, ◌&&◌, ◌||◌, List, [], ◌∷◌, ◌++◌, Option,
  none, some, Result, ok, err, Text, text_eq, codes, ◌==◌, if◌then◌else◌, split, join, trim_space,
  trim_prefix, occurs, last?, length, take, ltb,
}
use container_census.Models.{Time}

pub record ImageName : Type 0 where
  pub registry : Text
  pub repository : Text
  pub tag : Text

abbrev pub docker_hub : Text
docker_hub = codes "registry-1.docker.io"

-- `":"`, `"/"` and `"."`.
abbrev pub colon : ℕ
colon = 58

abbrev pub slash : ℕ
slash = 47

abbrev pub full_stop : ℕ
full_stop = 46

-- The tag of the parts between colons.
pub tag_of : List Text → Text
tag_of [] = codes "latest"
tag_of (name ∷ []) = codes "latest"
tag_of (name ∷ part ∷ parts) = elim (last? (part ∷ parts)) [ none ↦ [] | some tag ↦ tag ]

abbrev pub first_part : List Text → Text
first_part [] = []
first_part (part ∷ parts) = part

-- The registry and the repository of the parts between slashes of a name without its tag.
pub place_of : Text → List Text → Text × Text
place_of name [] = (docker_hub, name)
place_of name (part ∷ []) = (docker_hub, codes "library/" ++ part)
place_of name (host ∷ part ∷ parts) =
    if occurs full_stop host || occurs colon host
    then (host, join slash (part ∷ parts))
    else (docker_hub, name)

pub parse_image_name : Text → ImageName
unfolding tag_of place_of
parse_image_name image_name =
    let parts = split colon (trim_space image_name) in
    let name = first_part parts in
    let (registry, repository) = place_of name (split slash name) in
    record { registry = registry; repository = repository; tag = tag_of parts }

pub normalize_digest : Text → Text
normalize_digest digest =
    let bare = trim_prefix (codes "sha256:") (trim_space digest) in
    if ltb 64 (length bare) then take 12 bare else bare

pub record ImageUpdateInfo : Type 0 where
  pub available : Bool
  pub local_digest : Text
  pub remote_digest : Text
  pub remote_created : Time
  pub image_name : Text
  pub tag : Text

-- An error of the second request only costs the creation time.
pub created_or_zero : Result Time → Time
created_or_zero (ok t) = t
created_or_zero (err e) = 0

-- The result of the comparison of the digests.
pub compared_info : Text → Text → Text → Text → Time → ImageUpdateInfo
unfolding normalize_digest
compared_info image_name tag local_digest remote_digest created =
    let normalized_local = normalize_digest local_digest in
    let normalized_remote = normalize_digest remote_digest in
    record {
      available = not (normalized_local == normalized_remote);
      local_digest = normalized_local;
      remote_digest = normalized_remote;
      remote_created = created;
      image_name = image_name;
      tag = tag;
    }

module _ (get_image_digest : ImageName → Result Text)
    (get_image_created_time : ImageName → Result Time) where
  pub check_image_update : Text → Text → Result ImageUpdateInfo
  unfolding parse_image_name compared_info created_or_zero
  check_image_update image_name local_digest =
      let parsed = parse_image_name image_name in
      if not (parsed.tag == codes "latest")
      then ok (record {
        available = false;
        local_digest = local_digest;
        remote_digest = [];
        remote_created = 0;
        image_name = image_name;
        tag = parsed.tag;
      })
      else elim (get_image_digest parsed) [
        | err e ↦ err (codes "failed to get remote digest: " ++ e)
        | ok remote_digest ↦ ok (
            compared_info image_name parsed.tag local_digest remote_digest
              (created_or_zero (get_image_created_time parsed)))
      ]
