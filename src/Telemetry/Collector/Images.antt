-- ===== src/Telemetry/Collector/Images.antt =====
-- The map of images in CollectReport of internal/telemetry/collector.go.
use container_census.Base.{
  ℕ, suc, ◌+◌, ◌≡◌, refl, List, [], ◌∷◌, Option, none, some, Text, text_eq, nat_eq, length, lookup,
  insert, arith, Memᴰ,
}
use container_census.Models.{Container}
use container_census.Telemetry.Types.{ImageStat}
use container_census.Telemetry.Collector.{sum_of, add_stat, add_image, image_map}

-- The sum over the entries of a map after an assignment.
sum_of-insert {ℓ} :
    {V : Type ℓ} (f : Text × V → ℕ) (g : Option V → ℕ) (key : Text) (value : V)
    (m : List (Text × V))
    → g none ≡ 0
    → ((j : Text) (v : V) → f (j, v) ≡ g (some v))
    → sum_of f (insert key value m) + g (lookup key m) ≡ sum_of f m + g (some value)
unfolding insert lookup
sum_of-insert f g key value [] h k = ground (arith, h, k key value)
sum_of-insert f g key value ((j, old) ∷ m) h k =
    ground (arith, k key value, k j old, sum_of-insert f g key value m h k)

abbrev count_of : Option ImageStat → ℕ
count_of none = 0
count_of (some stat) = stat.count

abbrev size_of : Option ImageStat → ℕ
size_of none = 0
size_of (some stat) = stat.size_bytes

module _ {F : Type 0} where
  add_stat-count :
      (c : Container F) (o : Option ImageStat) → (add_stat c o).count ≡ suc (count_of o)
  unfolding add_stat
  add_stat-count c none = refl
  add_stat-count c (some stat) = refl

  add_stat-size :
      (c : Container F) (o : Option ImageStat)
      → c.image_size ≡ 0
      → (add_stat c o).size_bytes ≡ size_of o
  unfolding add_stat
  add_stat-size c none h = h
  add_stat-size c (some stat) h = ground (arith, h)

  add_image-count :
      (c : Container F) (images : List (Text × ImageStat))
      → sum_of (λ entry. entry.1.count) (add_image c images)
        ≡ suc (sum_of (λ entry. entry.1.count) images)
  unfolding add_image
  add_image-count c images = omega (
    arith,
    sum_of-insert (λ entry. entry.1.count) count_of c.image (add_stat c (lookup c.image images))
        images refl (λ key stat. refl),
    add_stat-count c (lookup c.image images),
  )

  -- Each container is counted under one image.
  pub image_map-count :
      (cs : List (Container F)) (images : List (Text × ImageStat))
      → sum_of (λ entry. entry.1.count) (image_map cs images)
        ≡ sum_of (λ entry. entry.1.count) images + length cs
  unfolding image_map
  image_map-count [] images = omega arith
  image_map-count (c ∷ cs) images =
      omega (arith, image_map-count cs (add_image c images), add_image-count c images)

  -- Containers without a size add none.
  pub image_map-size :
      (cs : List (Container F)) (images : List (Text × ImageStat))
      → ((c : Container F) → Memᴰ c cs → c.image_size ≡ 0)
      → sum_of (λ entry. entry.1.size_bytes) (image_map cs images)
        ≡ sum_of (λ entry. entry.1.size_bytes) images
  unfolding image_map add_image
  image_map-size [] images h = refl
  image_map-size (c ∷ cs) images h = omega (
    arith,
    image_map-size cs (add_image c images) (λ d m. h d (Memᴰ.tail m)),
    sum_of-insert (λ entry. entry.1.size_bytes) size_of c.image (add_stat c (lookup c.image images))
        images refl (λ key stat. refl),
    add_stat-size c (lookup c.image images) (h c (Memᴰ.head refl)),
  )
