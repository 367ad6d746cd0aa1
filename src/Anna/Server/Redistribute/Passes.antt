-- ===== src/Anna/Server/Redistribute/Passes.antt =====
-- What passes of the redistribution in src/dist/anna/src/kvs/server.cpp leave to be sent.
use testbed.Prelude.{
  ℕ, zero, suc, ◌<◌, ◌≤◌, ◌≡◌, refl, ◌∙◌, Bool, false, ◌||◌, some, none, List, [], ◌∷◌, Bytes,
  bytes_eq, length, take, if◌then◌else◌, Bool-cases, inl, inr, arith,
}
use testbed.Anna.Lattice.SetLattice.{StringSet, elem}
use testbed.Anna.Lattice.MapLattice.{StringMap, find, contains}
use testbed.Anna.Kvs.{Serializer}
use testbed.Anna.Kvs.Store.{value_or}
use testbed.Anna.Server.Maps.{map_erase, set_at, find-map_erase}
use testbed.Anna.Server.Gossip.{PutTuple, has_key, send_gossip-absent}
use testbed.Anna.Server.Redistribute.{
  Joins, is_empty, collect, erase_addresses, finish, redistribute, redistribute_pass,
  redistribute_passes,
}
use testbed.Anna.Server.Redistribute.Collect.{IsSets, collect-first}

find-erase_addresses {ℓ} :
    {V : Type ℓ} (addresses : List Bytes) (a : Bytes) (m : StringMap V)
    → find a (erase_addresses addresses m) ≡ (if elem a addresses then none else find a m)
unfolding erase_addresses elem
find-erase_addresses [] a m = refl
find-erase_addresses (b ∷ addresses) a m = elim (Bool-cases (elem a addresses)) [
  | inl e ↦ rw (find-erase_addresses addresses a (map_erase b m), e) (ground arith)
  | inr e ↦
      rw (find-erase_addresses addresses a (map_erase b m), e, find-map_erase b a m) (ground arith)
]

missing_still :
    (b c : Bytes) (m : StringMap StringSet)
    → contains c m ≡ false
    → contains c (map_erase b m) ≡ false
unfolding contains
missing_still b c m h = ground (arith, find-map_erase b c m)

map_erase-IsSets : (b : Bytes) (m : StringMap StringSet) → IsSets m → IsSets (map_erase b m)
unfolding map_erase
map_erase-IsSets b [] h = tt
map_erase-IsSets b ((a, keys) ∷ m) h = elim (Bool-cases (bytes_eq a b)) [
  | inl e ↦ rw e (map_erase-IsSets b m h.2)
  | inr e ↦ rw e (missing_still b a m h.0, h.1, map_erase-IsSets b m h.2)
]

erase_addresses-IsSets :
    (addresses : List Bytes) (m : StringMap StringSet)
    → IsSets m
    → IsSets (erase_addresses addresses m)
unfolding erase_addresses
erase_addresses-IsSets [] m h = h
erase_addresses-IsSets (a ∷ addresses) m h =
    erase_addresses-IsSets addresses (map_erase a m) (map_erase-IsSets a m h)

is_empty-find :
    (m : StringMap StringSet) (a : Bytes) (keys : StringSet)
    → find a m ≡ some keys
    → is_empty m ≡ false
unfolding is_empty find
is_empty-find [] a keys h = cc
is_empty-find (x ∷ m) a keys h = refl

abbrev pub Fits : ℕ → StringMap StringSet → Type 0
Fits t m = (a : Bytes) → length (value_or [] (find a m)) ≤ t

module _ {S : Type 0} (serializers : ℕ → Serializer S) where
  -- A key that none of the messages has for the address.
  unfoldable pub ever_sent : Bytes → Bytes → List (StringMap (List PutTuple)) → Bool
  ever_sent address y [] = false
  ever_sent address y (messages ∷ more) =
      has_key y (value_or [] (find address messages)) || ever_sent address y more

  pass_stuck :
      (t : ℕ) (a : Bytes) (keys : StringSet) (j : Joins S)
      → 0 < t
      → IsSets j.join_gossip_map
      → find a j.join_gossip_map ≡ some keys
      → t < length keys
      → (let (messages, j') = redistribute_pass serializers t j in
          (find a j'.join_gossip_map ≡ some keys)
          × (j'.join_remove_set ≡ j.join_remove_set)
          × (j'.stored_key_map ≡ j.stored_key_map)
          × IsSets j'.join_gossip_map
          × ((y : Bytes)
              → elem y (take t keys) ≡ false
              → has_key y (value_or [] (find a messages)) ≡ false))
  unfolding redistribute_pass redistribute finish value_or elem set_at find
  pass_stuck t a keys j pos sets h more =
      let (removed, addr) = collect t j.join_gossip_map ([], []) in
      let (done, given) = collect-first t pos j.join_gossip_map a [] [] sets in
      let stays : elem a removed ≡ false = done ∙ rw h (ground arith) in
      let here : find a (erase_addresses removed j.join_gossip_map) ≡ some keys =
        find-erase_addresses removed a j.join_gossip_map ∙ rw stays h in
      rw
        (
          is_empty-find j.join_gossip_map a keys h,
          is_empty-find (erase_addresses removed j.join_gossip_map) a keys here,
        )
        (
          here,
          refl,
          refl,
          erase_addresses-IsSets removed j.join_gossip_map sets,
          λ y e.
              send_gossip-absent serializers addr a y j.stored_key_map j.store
                (given y ∙ rw h (rw e refl)),
        )

  -- A joining thread for which more keys are to be sent than the threshold never gets those past the
  -- threshold, however many passes there are: its set is the same after all of them, and as long as it is,
  -- no key that the server is no longer responsible for is removed. The threshold is not 0.
  pub redistribute_passes-stuck :
      (n t : ℕ) (address : Bytes) (keys : StringSet) (j : Joins S)
      → 0 < t
      → IsSets j.join_gossip_map
      → find address j.join_gossip_map ≡ some keys
      → t < length keys
      → (let (messages, j') = redistribute_passes serializers n t j in
          (find address j'.join_gossip_map ≡ some keys)
          × (j'.join_remove_set ≡ j.join_remove_set)
          × (j'.stored_key_map ≡ j.stored_key_map)
          × ((y : Bytes) → elem y (take t keys) ≡ false → ever_sent address y messages ≡ false))
  unfolding redistribute_passes ever_sent
  redistribute_passes-stuck zero t a keys j pos sets h more = (h, refl, refl, λ y e. refl)
  redistribute_passes-stuck (suc n) t a keys j pos sets h more =
      let (here, removing, stored, sets', unsent) = pass_stuck t a keys j pos sets h more in
      let (here', removing', stored', unsent') =
        redistribute_passes-stuck n t a keys (redistribute_pass serializers t j).1 pos sets' here
          more in
      (here', removing' ∙ removing, stored' ∙ stored, λ y e. rw (unsent y e) (unsent' y e))
