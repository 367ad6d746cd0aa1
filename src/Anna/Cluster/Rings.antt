-- ===== src/Anna/Cluster/Rings.antt =====
-- The hash rings of the tiers, GlobalRingMap, and the threads on them.
use testbed.Prelude.{ℕ, Bool, true, false, List, [], ◌∷◌, if◌then◌else◌}
use testbed.Anna.HashRing.Servers.{HashRing}
use testbed.Anna.Cluster.{Tier, tier_unspecified, memory, disk, routing}

-- The enumerator's number.
unfoldable pub tier_id : Tier → ℕ
tier_id tier_unspecified = 0
tier_id memory = 1
tier_id disk = 2
tier_id routing = 3

unfoldable pub same_tier : Tier → Tier → Bool
same_tier tier_unspecified tier_unspecified = true
same_tier memory memory = true
same_tier disk disk = true
same_tier routing routing = true
same_tier _ _ = false

-- An unordered map: the pairs in the order in which it is gone through.
abbrev pub GlobalRingMap : Type 0
GlobalRingMap = List (Tier × HashRing)

abbrev pub empty_ring : HashRing
empty_ring = record { nodes = []; unique_servers = []; server_join_count = [] }

-- `global_hash_rings[tier]`, which is an empty ring for a tier that is missing.
unfoldable pub ring_at : Tier → GlobalRingMap → HashRing
ring_at tier [] = empty_ring
ring_at tier ((t, r) ∷ rings) = if same_tier t tier then r else ring_at tier rings

unfoldable pub set_ring : Tier → HashRing → GlobalRingMap → GlobalRingMap
set_ring tier r [] = (tier, r) ∷ []
set_ring tier r ((t, old) ∷ rings) =
    let rest = set_ring tier r rings in if same_tier t tier then (t, r) ∷ rings else (t, old) ∷ rest
