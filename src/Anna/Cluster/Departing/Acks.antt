-- ===== src/Anna/Cluster/Departing/Acks.antt =====
-- The acknowledgements of a departing node at the monitor: depart_done_handler of
-- src/dist/anna/src/monitor/depart_done_handler.cpp.
use testbed.Prelude.{
  ℕ, zero, suc, ◌+◌, ◌-◌, ◌%◌, ◌<◌, ◌≤◌, ◌≡◌, ◌≢◌, refl, ap, ◌∙◌, false, Option, some, none, List,
  [], ◌∷◌, ◌++◌, Bytes, bytes_eq_iff, if◌then◌else◌, ◌==◌, Bool-cases, inl, inr, arith,
}
use testbed.Anna.Lattice.MapLattice.{StringMap, find, update}
use testbed.Anna.Lattice.MapLattice.Laws.{find-update, mapped}
use testbed.Anna.Lattice.Scalars.{u32_mod}
use testbed.Anna.Kvs.{Serializer, KeyProperty}
use testbed.Anna.HashRing.Servers.{ServerThread}
use testbed.Anna.Server.Maps.{map_erase, find-map_erase}
use testbed.Anna.Metadata.{split}
use testbed.Anna.Cluster.{
  Tier, tier_unspecified, memory, disk, routing, tier_name, colon, underscore, parted, Handled,
  returned, thrown, overrun,
}
use testbed.Anna.Cluster.Fields.{IsFree, split-parted}
use testbed.Anna.Cluster.Rings.{GlobalRingMap}
use testbed.Anna.Cluster.Departing.{
  Departures, self_depart_handler, depart_ack, depart_done_handler, ack_tokens, take_ack, count_ack,
  departed, memory_word, ebs_word, remove_word,
}

-- `stoi` throws on a text that begins with neither a space, a sign nor a digit; capital letters do not.
abbrev pub RefusesCapitals : (Bytes → Option ℕ) → Type 0
RefusesCapitals stoi = (c : ℕ) (rest : Bytes) → 65 ≤ c → c ≤ 90 → stoi (c ∷ rest) ≡ none

tier_name-refused :
    (stoi : Bytes → Option ℕ) → RefusesCapitals stoi → (t : Tier) → stoi (tier_name t) ≡ none
unfolding tier_name
tier_name-refused stoi h tier_unspecified = h 84 _ (omega arith) (omega arith)
tier_name-refused stoi h memory = h 77 _ (omega arith) (omega arith)
tier_name-refused stoi h disk = h 68 _ (omega arith) (omega arith)
tier_name-refused stoi h routing = h 82 _ (omega arith) (omega arith)

tier_name-filled : (t : Tier) → tier_name t ≢ []
unfolding tier_name
tier_name-filled tier_unspecified = λ e. cc
tier_name-filled memory = λ e. cc
tier_name-filled disk = λ e. cc
tier_name-filled routing = λ e. cc

tier_name-IsFree : (t : Tier) → t ≢ tier_unspecified → IsFree underscore (tier_name t)
unfolding tier_name
tier_name-IsFree tier_unspecified n = absurd (n refl)
tier_name-IsFree memory n = (refl, (refl, (refl, (refl, (refl, (refl, tt))))))
tier_name-IsFree disk n = (refl, (refl, (refl, (refl, tt))))
tier_name-IsFree routing n = (refl, (refl, (refl, (refl, (refl, (refl, (refl, tt)))))))

module _ {S : Type 0} (to_string : ℕ → Bytes) (hasher : ServerThread → ℕ) (k_virtual_thread_num : ℕ)
    (serializers : ℕ → Serializer S)
    (get_responsible_threads : GlobalRingMap → Bytes → Option (List ServerThread)) where
  -- The acknowledgement that a node of a tier sends when it has left makes the monitor's handler throw,
  -- whatever nodes it waits for: the node sends its tier's name where a number is read. Its addresses
  -- contain no '_'.
  pub self_depart-thrown :
      (stoi : Bytes → Option ℕ) (thread_id : ℕ) (self_tier : Tier) (thread_num : ℕ)
      (public_ip private_ip : Bytes) (rings : GlobalRingMap)
      (stored_key_map : StringMap KeyProperty) (routing_ips monitoring_ips : List Bytes)
      (serialized : Bytes) (s : S) (now : ℕ) (d : Departures)
      → RefusesCapitals stoi
      → self_tier ≢ tier_unspecified
      → IsFree underscore public_ip
      → IsFree underscore private_ip
      → depart_done_handler stoi now
          (self_depart_handler to_string hasher k_virtual_thread_num serializers
            get_responsible_threads thread_id self_tier thread_num public_ip private_ip rings
            stored_key_map routing_ips monitoring_ips serialized s).ack.1
          d
        ≡ thrown
  unfolding self_depart_handler depart_ack depart_done_handler ack_tokens take_ack
  self_depart-thrown stoi id t n p q rings stored r m serialized s now d refuses named fp fq =
      let tokens =
        split-parted underscore p (q ∷ tier_name t ∷ []) fp (fq, (tier_name-IsFree t named, tt))
          (tier_name-filled t) in
      rw (tokens, tier_name-refused stoi refuses t) refl

unfoldable pub then_acks :
    Handled Departures → (Departures → Handled Departures) → Handled Departures
then_acks (returned d) next = next d
then_acks thrown next = thrown
then_acks overrun next = overrun

-- `n` acknowledgements of one text, one after the other.
unfoldable pub take_acks : (Bytes → Option ℕ) → ℕ → Bytes → ℕ → Departures → Handled Departures
take_acks stoi now serialized zero d = returned d
take_acks stoi now serialized (suc n) d =
    then_acks (depart_done_handler stoi now serialized d) (take_acks stoi now serialized n)

one_less : (n : ℕ) → suc n < u32_mod → (suc n + u32_mod - 1) % u32_mod ≡ n
one_less n h = omega arith

-- Nothing but the count of the node has changed.
abbrev pub IsCounted : Bytes → ℕ → Departures → Departures → Type 0
IsCounted ip n d d' =
    (find ip d'.departing_node_map ≡ some n)
    × (d'.removals ≡ d.removals)
    × (d'.removing_memory_node ≡ d.removing_memory_node)
    × (d'.removing_ebs_node ≡ d.removing_ebs_node)

-- The node is no longer waited for, and the management node was told to remove it, once.
abbrev pub IsRemoved : Bytes → ℕ → Departures → Departures → Type 0
IsRemoved ip tier_id d d' =
    (find ip d'.departing_node_map ≡ none)
    × (d'.removals
        ≡ d.removals
          ++ (parted colon remove_word (ip ∷ (if tier_id == 1 then memory_word else ebs_word) ∷ [])
              ∷ []))
    × (d'.removing_memory_node ≡ (if tier_id == 1 then false else d.removing_memory_node))
    × (d'.removing_ebs_node ≡ (if tier_id == 1 then d.removing_ebs_node else false))

module _ (stoi : Bytes → Option ℕ) (now : ℕ) (serialized public_ip private_ip tier : Bytes)
    (tier_id : ℕ) where
  count_more :
      (m : ℕ) (d : Departures)
      → suc (suc m) < u32_mod
      → find private_ip d.departing_node_map ≡ some (suc (suc m))
      → IsCounted private_ip (suc m) d (count_ack now tier_id private_ip (some (suc (suc m))) d)
  unfolding count_ack mapped
  count_more m d h e =
      let more : (suc m == 0) ≡ false = ground arith in
      let here : find private_ip (update private_ip (λ old. suc m) d.departing_node_map)
          ≡ some (suc m) =
        rw
          (
            find-update private_ip private_ip (λ old. suc m) d.departing_node_map,
            (bytes_eq_iff private_ip private_ip).1 refl,
            e,
          )
          refl in
      rw (one_less (suc m) h, more) (here, refl, refl, refl)

  count_last :
      (d : Departures)
      → IsRemoved private_ip tier_id d (count_ack now tier_id private_ip (some 1) d)
  unfolding count_ack departed
  count_last d =
      let left : (1 + u32_mod - 1) % u32_mod ≡ 0 = omega arith in
      let gone : find private_ip
            (map_erase private_ip (update private_ip (λ old. 0) d.departing_node_map))
          ≡ none =
        rw
          (
            find-map_erase private_ip private_ip
                (update private_ip (λ old. 0) d.departing_node_map),
            (bytes_eq_iff private_ip private_ip).1 refl,
          )
          refl in
      elim (Bool-cases (tier_id == 1)) [
        | inl e ↦ rw (left, e) (gone, refl, refl, refl)
        | inr e ↦ rw (left, e) (gone, refl, refl, refl)
      ]

  acked :
      (d : Departures) (o : Option ℕ)
      → split serialized underscore [] ≡ public_ip ∷ private_ip ∷ tier ∷ []
      → stoi tier ≡ some tier_id
      → find private_ip d.departing_node_map ≡ o
      → depart_done_handler stoi now serialized d ≡ returned (count_ack now tier_id private_ip o d)
  unfolding depart_done_handler ack_tokens take_ack
  acked d o tokens number e = rw (tokens, number, e) refl

  module _ (tokens : split serialized underscore [] ≡ public_ip ∷ private_ip ∷ tier ∷ [])
      (number : stoi tier ≡ some tier_id) where
    acks_run_down :
        (acks left count : ℕ) (d : Departures)
        → acks + left ≡ count
        → suc count < u32_mod
        → find private_ip d.departing_node_map ≡ some (suc count)
        → (d' : Departures) × (take_acks stoi now serialized acks d ≡ returned d')
          × IsCounted private_ip (suc left) d d'
    unfolding take_acks then_acks
    acks_run_down zero left count d sum h e =
        let same : count ≡ left = omega (arith, sum) in
        (d, refl, (e ∙ ap (λ (n : ℕ). some (suc n)) same, refl, refl, refl))
    acks_run_down (suc acks) left zero d sum h e = absurd (omega (arith, sum))
    acks_run_down (suc acks) left (suc count) d sum h e =
        let d1 = count_ack now tier_id private_ip (some (suc (suc count))) d in
        let (found, sent, mem, ebs) = count_more count d h e in
        let (d', run, (found', sent', mem', ebs')) =
          acks_run_down acks left count d1 (omega (arith, sum)) (omega arith) found in
        (
          d',
          rw (acked d (some (suc (suc count))) tokens number e) run,
          (found', sent' ∙ sent, mem' ∙ mem, ebs' ∙ ebs),
        )

    acks_leave :
        (count : ℕ) (d : Departures)
        → suc count < u32_mod
        → find private_ip d.departing_node_map ≡ some (suc count)
        → (d' : Departures) × (take_acks stoi now serialized (suc count) d ≡ returned d')
          × IsRemoved private_ip tier_id d d'
    unfolding take_acks then_acks
    acks_leave zero d h e = (
      count_ack now tier_id private_ip (some 1) d,
      rw (acked d (some 1) tokens number e) refl,
      count_last d,
    )
    acks_leave (suc count) d h e =
        let d1 = count_ack now tier_id private_ip (some (suc (suc count))) d in
        let (found, sent, mem, ebs) = count_more count d h e in
        let (d', run, (gone, sent', mem', ebs')) = acks_leave count d1 (omega arith) found in
        (
          d',
          rw (acked d (some (suc (suc count))) tokens number e) run,
          (gone, sent' ∙ rw sent refl, mem' ∙ rw mem refl, ebs' ∙ rw ebs refl),
        )

  -- A node for which as many acknowledgements are expected as its count is removed by the last of them and
  -- no earlier: until then only its count falls, and then the flag of its tier is cleared, the node is no
  -- longer waited for and the management node is told to remove it, once. This is for acknowledgements with
  -- the tier's number in the third place.
  pub depart_countdown :
      (count : ℕ) (d : Departures)
      → split serialized underscore [] ≡ public_ip ∷ private_ip ∷ tier ∷ []
      → stoi tier ≡ some tier_id
      → suc count < u32_mod
      → find private_ip d.departing_node_map ≡ some (suc count)
      → ((acks left : ℕ)
          → acks + left ≡ count
          → (d' : Departures) × (take_acks stoi now serialized acks d ≡ returned d')
            × IsCounted private_ip (suc left) d d')
        × ((d' : Departures) × (take_acks stoi now serialized (suc count) d ≡ returned d')
            × IsRemoved private_ip tier_id d d')
  depart_countdown count d tokens number h e = (
    λ acks left sum. acks_run_down tokens number acks left count d sum h e,
    acks_leave tokens number count d h e,
  )
