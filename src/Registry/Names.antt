-- ===== src/Registry/Names.antt =====
-- parseImageName of internal/registry/registry.go against the parts of a reference.
use container_census.Base.{
  ◌≡◌, refl, sym, ap, ◌∙◌, false, List, [], ◌∷◌, ◌++◌, Text, codes, split, split-append, split-none,
  join, join-split, trim_space, occurs, occurs-append, arith, if◌then◌else◌, split-cons,
}
use container_census.Registry.{
  ImageName, docker_hub, colon, slash, full_stop, tag_of, place_of, parse_image_name,
}

-- A reference `name:tag`, where `name` may hold slashes, and one with a registry's port.
abbrev pub tagged : Text → Text → Text
tagged name tag = name ++ (colon ∷ tag)

abbrev pub within : Text → Text → Text
within host repository = host ++ (slash ∷ repository)

abbrev named : Text × Text → Text → ImageName
named (registry, repository) tag = record {
  registry = registry;
  repository = repository;
  tag = tag;
}

parse_image_name-of_parts :
    (text name : Text) (parts : List Text)
    → trim_space text ≡ text
    → split colon text ≡ name ∷ parts
    → parse_image_name text ≡ named (place_of name (split slash name)) (tag_of (name ∷ parts))
unfolding parse_image_name
parse_image_name-of_parts text name parts bare q = rw (bare, q) refl

place_of-within :
    (host repository : Text)
    → occurs slash host ≡ false
    → occurs colon host ≡ false
    → place_of (within host repository) (split slash (within host repository))
      ≡ (if occurs full_stop host then (host, repository) else (docker_hub, within host repository))
unfolding place_of
place_of-within host repository no_slash no_colon =
    let (part, parts, e) = split-cons slash repository in
    let joined : join slash (part ∷ parts) ≡ repository =
      ap (join slash) (sym e) ∙ join-split slash repository in
    rw (split-append slash host repository no_slash, e) (ground (arith, no_colon, joined))

-- A reference host/repository:tag without a colon in its other parts is taken apart into these parts if
-- the host has a dot; without one, the image is one of Docker Hub and keeps the first part in its name.
pub parse_image_name-tagged :
    (host repository tag : Text)
    → trim_space (tagged (within host repository) tag) ≡ tagged (within host repository) tag
    → occurs slash host ≡ false
    → occurs colon host ≡ false
    → occurs colon repository ≡ false
    → occurs colon tag ≡ false
    → parse_image_name (tagged (within host repository) tag) ≡ (
        if occurs full_stop host
        then record { registry = host; repository = repository; tag = tag }
        else record { registry = docker_hub; repository = within host repository; tag = tag })
unfolding tag_of
parse_image_name-tagged host repository tag bare no_slash no_colon h k =
    let name = within host repository in
    let clean : occurs colon name ≡ false =
      ground (arith, occurs-append colon host (slash ∷ repository), no_colon, h) in
    parse_image_name-of_parts (tagged name tag) name (tag ∷ []) bare
      (split-append colon name tag clean ∙ ap (λ ps. name ∷ ps) (split-none colon tag k))
    ∙ ground (arith, place_of-within host repository no_slash no_colon)

-- A registry's port loses the registry: of host:port/repository:tag only the host and the tag are kept,
-- and the image is looked up as an official image of Docker Hub with the name of that host.
pub parse_image_name_port :
    (host port repository tag : Text)
    → trim_space (tagged host (tagged (within port repository) tag))
      ≡ tagged host (tagged (within port repository) tag)
    → occurs slash host ≡ false
    → occurs colon host ≡ false
    → occurs colon port ≡ false
    → occurs colon repository ≡ false
    → occurs colon tag ≡ false
    → parse_image_name (tagged host (tagged (within port repository) tag))
      ≡ record { registry = docker_hub; repository = codes "library/" ++ host; tag = tag }
unfolding tag_of place_of
parse_image_name_port host port repository tag bare no_slash no_colon h1 h2 h3 =
    let rest = within port repository in
    let clean : occurs colon rest ≡ false =
      ground (arith, occurs-append colon port (slash ∷ repository), h1, h2) in
    parse_image_name-of_parts (tagged host (tagged rest tag)) host (rest ∷ tag ∷ []) bare (
      split-append colon host (tagged rest tag) no_colon
      ∙ ap (λ ps. host ∷ ps)
          (split-append colon rest tag clean ∙ ap (λ ps. rest ∷ ps) (split-none colon tag h3)))
    ∙ rw (split-none slash host no_slash) refl
