-- ===== src/Server/Scans/Queue.antt =====
-- The images that queueImagesForScanning of cmd/server/main.go queues.
use container_census.Base.{
  ℕ, ◌≡◌, refl, not, ◌&&◌, ◌||◌, List, [], ◌∷◌, ◌++◌, Text, text_eq, text_beq_iff, ◌==◌,
  if◌then◌else◌, is_empty, is_some, any, lookup, insert, lookup-insert, ==_refl, IsMap, arith,
  Bool-cases, inl, inr,
}
use container_census.Models.{Container}
use container_census.Server.Scans.{Services, ImageContainer, queue_loop, queue_images_for_scanning}

module _ {F : Type 0} where
  -- The first container of each image that was not seen, with the name of its image.
  abbrev pub fresh_images : List (Text × Text) → List (Container F) → List (Text × Text)
  fresh_images seen [] = []
  fresh_images seen (c ∷ cs) =
      if is_empty c.image_id || is_some (lookup c.image_id seen)
      then fresh_images seen cs
      else (c.image_id, c.image) ∷ fresh_images (insert c.image_id c.image seen) cs

  -- An image is among them exactly if it is no empty text, was not seen, and a container has it.
  fresh_images-lookup :
      (id : Text) (seen : List (Text × Text)) (cs : List (Container F))
      → is_some (lookup id (fresh_images seen cs))
        ≡ (not (is_empty id) && not (is_some (lookup id seen)) && any (λ c. c.image_id == id) cs)
  unfolding lookup
  fresh_images-lookup id seen [] = ground arith
  fresh_images-lookup id seen (c ∷ cs) = ground (
    arith,
    fresh_images-lookup id seen cs,
    fresh_images-lookup id (insert c.image_id c.image seen) cs,
    lookup-insert c.image_id id c.image seen,
    text_beq_iff c.image_id id,
  )

  fresh_images-IsMap :
      (seen : List (Text × Text)) (cs : List (Container F)) → IsMap (fresh_images seen cs)
  fresh_images-IsMap seen [] = tt
  fresh_images-IsMap seen (c ∷ cs) =
      elim (Bool-cases (is_empty c.image_id || is_some (lookup c.image_id seen))) [
        | inl old ↦ rw old (fresh_images-IsMap seen cs)
        | inr fresh ↦ rw fresh (
          ground (
            arith,
            fresh_images-lookup c.image_id (insert c.image_id c.image seen) cs,
            lookup-insert c.image_id c.image_id c.image seen,
            ==_refl c.image_id,
          ),
          fresh_images-IsMap (insert c.image_id c.image seen) cs,
        )
      ]

module _ {F Q N : Type 0} (services : Services F Q N) where
  -- The calls of QueueScan for a list of images.
  abbrev pub queue_each : List (Text × Text) → Q → Q
  queue_each [] q = q
  queue_each ((id, name) ∷ images) q = queue_each images (services.queue_image id name q)

  queue_loop-queue_each :
      (host_id : ℕ) (seen : List (Text × Text)) (cs : List (Container F))
      (mapped : List ImageContainer) (q : Q)
      → (queue_loop services host_id seen cs (mapped, q)).1 ≡ queue_each (fresh_images seen cs) q
  unfolding queue_loop
  queue_loop-queue_each host_id seen [] mapped q = refl
  queue_loop-queue_each host_id seen (c ∷ cs) mapped q =
      let mapped1 =
        mapped ++ (record { image_id = c.image_id; container_id = c.id; host_id = host_id } ∷ []) in
      ground (
        arith,
        queue_loop-queue_each host_id seen cs mapped q,
        queue_loop-queue_each host_id (insert c.image_id c.image seen) cs mapped1
            (services.queue_image c.image_id c.image q),
      )

  -- After a scan, the scheduler is asked to queue each image once: the calls are for distinct images, and
  -- an image is among them exactly if its id is not empty and one of the containers was made from it.
  pub queue_images_for_scanning_lem :
      (cs : List (Container F)) (host_id : ℕ) (mapped : List ImageContainer) (q : Q)
      → (images : List (Text × Text)) × ((queue_images_for_scanning services cs host_id
            (mapped, q)).1
          ≡ queue_each images q)
        × IsMap images
        × ((id : Text)
            → is_some (lookup id images) ≡ (not (is_empty id) && any (λ c. c.image_id == id) cs))
  unfolding queue_images_for_scanning lookup
  queue_images_for_scanning_lem cs host_id mapped q = (
    fresh_images [] cs,
    queue_loop-queue_each host_id [] cs mapped q,
    fresh_images-IsMap [] cs,
    λ id. ground (arith, fresh_images-lookup id [] cs),
  )
