-- ===== src/Anna/Routing/Addresses.antt =====
-- What a client is told of where its keys are, by src/dist/anna/src/route/address_handler.cpp and
-- src/dist/anna/src/route/replication_response_handler.cpp.
use testbed.Prelude.{ℕ, ◌≡◌, some, List, [], ◌∷◌, Bytes}
use testbed.Anna.HashRing.Servers.{ServerThread}
use testbed.Anna.Cluster.{Tier}
use testbed.Anna.Routing.{KeyAddress, Lookup, ips_of, threads_of}

module _ (to_string : ℕ → Bytes) (get_responsible_threads : Lookup) (all_tiers : List Tier) where
  -- Every key has its threads, and the entries are those.
  abbrev pub AreKnown : List Bytes → List KeyAddress → Type 0
  AreKnown [] [] = Unit
  AreKnown [] (entry ∷ entries) = ⊥
  AreKnown (key ∷ keys) [] = ⊥
  AreKnown (key ∷ keys) (entry ∷ entries) =
      ((threads : List ServerThread) × (threads_of get_responsible_threads all_tiers key
          ≡ some threads)
        × (entry ≡ (key, ips_of to_string threads)))
      × AreKnown keys entries
