-- ===== src/Anna/Cluster.antt =====
-- How the parts of anna tell each other who is in the cluster: the tiers of
-- src/dist/anna/include/proto/metadata.proto, the addresses of src/dist/anna/include/kvs_threads.hpp, and
-- the messages whose fields are parted by a character.
pub mod Rings
pub mod Fields
pub mod Departing
pub mod Joining
pub mod Membership
mod Examples
use testbed.Prelude.{ℕ, ◌+◌, Option, some, none, List, [], ◌∷◌, ◌++◌, Bytes}

pub data Tier : Type 0 where
  tier_unspecified : Tier
  memory : Tier
  disk : Tier
  routing : Tier

-- Tier_Name, the enumerator's name.
unfoldable pub tier_name : Tier → Bytes
tier_name tier_unspecified =
    84 ∷ 73 ∷ 69 ∷ 82 ∷ 95 ∷ 85 ∷ 78 ∷ 83 ∷ 80 ∷ 69 ∷ 67 ∷ 73 ∷ 70 ∷ 73 ∷ 69 ∷ 68 ∷ []
tier_name memory = 77 ∷ 69 ∷ 77 ∷ 79 ∷ 82 ∷ 89 ∷ []
tier_name disk = 68 ∷ 73 ∷ 83 ∷ 75 ∷ []
tier_name routing = 82 ∷ 79 ∷ 85 ∷ 84 ∷ 73 ∷ 78 ∷ 71 ∷ []

-- ':' and '_'.
abbrev pub colon : ℕ
colon = 58

abbrev pub underscore : ℕ
underscore = 95

-- "tcp://".
abbrev tcp : Bytes
tcp = 116 ∷ 99 ∷ 112 ∷ 58 ∷ 47 ∷ 47 ∷ []

abbrev pub k_node_join_port : ℕ
k_node_join_port = 6000

abbrev pub k_node_depart_port : ℕ
k_node_depart_port = 6050

abbrev pub k_self_depart_port : ℕ
k_self_depart_port = 6100

abbrev pub k_gossip_port : ℕ
k_gossip_port = 6250

abbrev pub k_routing_notify_port : ℕ
k_routing_notify_port = 6400

abbrev pub k_monitoring_notify_port : ℕ
k_monitoring_notify_port = 6600

abbrev pub k_depart_done_port : ℕ
k_depart_done_port = 6700

-- "tcp://" + ip + ":" + std::to_string(tid + port), the shape of every address that is connected to.
unfoldable pub connect_address : (ℕ → Bytes) → Bytes → ℕ → ℕ → Bytes
connect_address to_string ip tid port = tcp ++ (ip ++ (colon ∷ to_string (tid + port)))

-- Fields with a character between each two.
unfoldable pub parted : ℕ → Bytes → List Bytes → Bytes
parted delim first [] = first
parted delim first (field ∷ fields) = first ++ (delim ∷ parted delim field fields)

-- What a handler comes to: it returns, an exception leaves it, or it reads memory that is not its own:
-- past the end of a vector, or through a null pointer.
pub data Handled {ℓ} (A : Type ℓ) : Type ℓ where
  returned : A → Handled A
  thrown : Handled A
  overrun : Handled A
