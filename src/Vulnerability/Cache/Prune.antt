-- ===== src/Vulnerability/Cache/Prune.antt =====
-- PruneExpired (internal/vulnerability/cache.go).
use container_census.Base.{
  ℕ, ◌+◌, ◌≡◌, refl, [], ◌∷◌, Option, none, some, Text, text_eq, text_beq_iff, lookup, length,
  if◌then◌else◌, arith, IsMap,
}
use container_census.Models.{Time}
use container_census.Vulnerability.Types.{VulnerabilityScan}
use container_census.Vulnerability.Cache.{Cache, Scans, is_fresh, prune_loop, prune_expired, size}

-- What a map entry is worth at this time.
abbrev pub only_fresh : Time → ℕ → Option VulnerabilityScan → Option VulnerabilityScan
only_fresh now ttl none = none
only_fresh now ttl (some scan) = if is_fresh now ttl scan then some scan else none

prune_loop-length :
    (now : Time) (ttl : ℕ) (scans : Scans)
    → length (prune_loop now ttl scans).0 + (prune_loop now ttl scans).1 ≡ length scans
unfolding prune_loop
prune_loop-length now ttl [] = omega arith
prune_loop-length now ttl ((k, scan) ∷ scans) = ground (arith, prune_loop-length now ttl scans)

prune_loop-lookup :
    (now : Time) (ttl : ℕ) (scans : Scans) (image_id : Text)
    → IsMap scans
    → lookup image_id (prune_loop now ttl scans).0 ≡ only_fresh now ttl (lookup image_id scans)
unfolding prune_loop lookup
prune_loop-lookup now ttl [] image_id m = refl
prune_loop-lookup now ttl ((k, scan) ∷ scans) image_id m =
    ground (arith, prune_loop-lookup now ttl scans image_id m.1, text_beq_iff k image_id)

-- Pruning keeps the fresh scans in memory and drops all others, and returns how many it dropped.
pub prune_expired_lem :
    {S : Type 0} (now : Time) (c : Cache S) (image_id : Text)
    → IsMap c.scans
    → let (c', removed) = prune_expired now c in
      (lookup image_id c'.scans ≡ only_fresh now c.ttl (lookup image_id c.scans))
      × (size c' + removed ≡ size c)
unfolding prune_expired size
prune_expired_lem now c image_id m =
    (prune_loop-lookup now c.ttl c.scans image_id m, prune_loop-length now c.ttl c.scans)
