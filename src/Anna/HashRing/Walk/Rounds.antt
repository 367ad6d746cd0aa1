-- ===== src/Anna/HashRing/Walk/Rounds.antt =====
-- When the walk of `responsible_global` ends, and which nodes it finds.
use testbed.Prelude.{
  length-take, ℕ, zero, suc, ◌+◌, ◌-◌, ◌*◌, ◌≤◌, ◌<◌, ◌≡◌, refl, sym, ap, subst, ◌∙◌, Bool, true,
  false, Option, some, none, List, [], ◌∷◌, ◌++◌, length, take, take-length_append,
  take_of_length_le, take-append_le, ltb, arith, Bool-cases, inl, inr,
}
use testbed.Anna.HashRing.{Nodes, ring_find, ring_begin, lower_bound, ring_empty}
use testbed.Anna.HashRing.Walk.Distinct.{
  AreDifferent, distinct-AreDifferent, take-AreDifferent, threads_of, distinct, Extends,
  distinct_none, distinct_step, distinct-append, add_thread-length, distinct-Extends,
  distinct_longer,
}
use testbed.Anna.HashRing.Walk.{or_begin, seek, start, add_thread, walk, responsible_global}

module _ {ℓ} {T : Type ℓ} (same : T → T → Bool) where
  module _ (nodes : Nodes T) (rep : ℕ) where
    more_fuel :
        (f g : ℕ) (pos : Nodes T) (acc : List T)
        → f ≡ g
        → walk same nodes rep f pos acc ≡ walk same nodes rep g pos acc
    more_fuel f g pos acc e = ap (λ (k : ℕ). walk same nodes rep k pos acc) e

    take-Extends : (xs ys : List T) → rep ≡ length xs → Extends same xs ys → take rep ys ≡ xs
    unfolding Extends
    take-Extends xs ys e (more, e') = rw (e, e') (take-length_append xs more)

    walk-enough :
        (fuel : ℕ) (k : ℕ) (t : T) (pos : Nodes T) (acc : List T)
        → rep ≤ length acc
        → walk same nodes rep (suc fuel) ((k, t) ∷ pos) acc ≡ some acc
    unfolding walk
    walk-enough fuel k t [] acc le = ground (arith, le)
    walk-enough fuel k t (n ∷ ns) acc le = ground (arith, le)

    pub walk-last :
        (fuel : ℕ) (k : ℕ) (t : T) (acc : List T)
        → length acc < rep
        → walk same nodes rep (suc fuel) ((k, t) ∷ []) acc
          ≡ walk same nodes rep fuel nodes (add_thread same t acc)
    unfolding walk
    walk-last fuel k t acc lt = ground (arith, lt)

    pub walk-next :
        (fuel : ℕ) (k : ℕ) (t : T) (n : ℕ × T) (ns : Nodes T) (acc : List T)
        → length acc < rep
        → walk same nodes rep (suc fuel) ((k, t) ∷ n ∷ ns) acc
          ≡ walk same nodes rep fuel (n ∷ ns) (add_thread same t acc)
    unfolding walk
    walk-next fuel k t n ns acc lt = ground (arith, lt)

    -- A lap that does not find enough goes on with the next.
    walk-lap :
        (fuel : ℕ) (k : ℕ) (t : T) (pos : Nodes T) (acc : List T)
        → length (distinct same acc (threads_of ((k, t) ∷ pos))) < rep
        → walk same nodes rep (length ((k, t) ∷ pos) + fuel) ((k, t) ∷ pos) acc
          ≡ walk same nodes rep fuel nodes (distinct same acc (threads_of ((k, t) ∷ pos)))
    unfolding distinct
    walk-lap fuel k t [] acc lt =
        more_fuel (1 + fuel) (suc fuel) ((k, t) ∷ []) acc (omega arith)
        ∙ walk-last fuel k t acc (omega (arith, distinct_longer same acc (t ∷ []), lt))
    walk-lap fuel k t ((k', t') ∷ ns) acc lt =
        more_fuel (suc (suc (length ns)) + fuel) (suc (suc (length ns) + fuel))
          ((k, t) ∷ (k', t') ∷ ns) acc (omega arith)
        ∙ walk-next (suc (length ns) + fuel) k t (k', t') ns acc
            (omega (arith, distinct_longer same acc (t ∷ t' ∷ threads_of ns), lt))
        ∙ walk-lap fuel k' t' ns (add_thread same t acc) lt

    walk-stops_full :
        (fuel : ℕ) (k : ℕ) (t : T) (pos : Nodes T) (acc : List T)
        → rep ≡ length acc
        → walk same nodes rep (suc fuel) ((k, t) ∷ pos) acc
          ≡ some (take rep (distinct same acc (threads_of ((k, t) ∷ pos))))
    walk-stops_full fuel k t pos acc e =
        let ts = threads_of ((k, t) ∷ pos) in
        walk-enough fuel k t pos acc (omega arith)
        ∙ ap some (sym (take-Extends acc (distinct same acc ts) e (distinct-Extends same acc ts)))

    walk-enough_any :
        (fuel : ℕ) (pos : Nodes T) (acc : List T)
        → 0 < length pos
        → 0 < fuel
        → rep ≤ length acc
        → walk same nodes rep fuel pos acc ≡ some acc
    walk-enough_any fuel [] acc nonempty enough le = absurd (omega arith)
    walk-enough_any zero ((k, t) ∷ pos) acc nonempty enough le = absurd (omega arith)
    walk-enough_any (suc fuel) ((k, t) ∷ pos) acc nonempty enough le =
        walk-enough fuel k t pos acc le

    walk-stops_last :
        (some_node : 0 < length nodes) (fuel : ℕ) (k : ℕ) (t : T) (acc : List T)
        → length acc < rep
        → rep ≤ length (distinct same acc (t ∷ []))
        → 0 < fuel
        → walk same nodes rep (suc fuel) ((k, t) ∷ []) acc
          ≡ some (take rep (distinct same acc (t ∷ [])))
    walk-stops_last some_node fuel k t acc lt reaches enough =
        let acc' = add_thread same t acc in
        let one : distinct same acc (t ∷ []) ≡ acc' =
          distinct_step same acc t [] ∙ distinct_none same acc' in
        let reached : rep ≤ length acc' =
          omega (arith, reaches, ap (λ (q : List T). length q) one) in
        walk-last fuel k t acc lt
        ∙ walk-enough_any fuel nodes acc' some_node enough reached
        ∙ ap some (
            sym (
              ap (λ (q : List T). take rep q) one
              ∙ take_of_length_le rep acc' (omega (arith, lt, add_thread-length same t acc))))

    walk-stops :
        (some_node : 0 < length nodes) (fuel : ℕ) (k : ℕ) (t : T) (pos : Nodes T) (acc : List T)
        → length acc ≤ rep
        → rep ≤ length (distinct same acc (threads_of ((k, t) ∷ pos)))
        → length pos + 1 < fuel
        → walk same nodes rep fuel ((k, t) ∷ pos) acc
          ≡ some (take rep (distinct same acc (threads_of ((k, t) ∷ pos))))
    walk-stops some_node zero k t pos acc le reaches enough = absurd (omega arith)
    walk-stops some_node (suc fuel) k t [] acc le reaches enough =
        elim (Bool-cases (ltb (length acc) rep)) [
          | inl few ↦
              walk-stops_last some_node fuel k t acc (ground (arith, few)) reaches (omega arith)
          | inr full ↦ walk-stops_full fuel k t [] acc (ground (arith, full, le))
        ]
    walk-stops some_node (suc fuel) k t ((k', t') ∷ ns) acc le reaches enough =
        elim (Bool-cases (ltb (length acc) rep)) [
          | inl few ↦
              walk-next fuel k t (k', t') ns acc (ground (arith, few))
              ∙ walk-stops some_node fuel k' t' ns (add_thread same t acc)
                  (ground (arith, few, add_thread-length same t acc)) (reach reaches) (omega arith)
              ∙ ap (λ (q : List T). some (take rep q)) unfolded
          | inr full ↦ walk-stops_full fuel k t ((k', t') ∷ ns) acc (ground (arith, full, le))
        ]
      where
        unfolded :
            distinct same (add_thread same t acc) (t' ∷ threads_of ns)
            ≡ distinct same acc (t ∷ t' ∷ threads_of ns)
        unfolded = sym (distinct_step same acc t (t' ∷ threads_of ns))

        reach :
            rep ≤ length (distinct same acc (t ∷ t' ∷ threads_of ns))
            → rep ≤ length (distinct same (add_thread same t acc) (t' ∷ threads_of ns))
        reach h = omega (arith, h, ap (λ (q : List T). length q) unfolded)

    walk-stops_any :
        (some_node : 0 < length nodes) (fuel : ℕ) (pos : Nodes T) (acc : List T)
        → 0 < length pos
        → length acc ≤ rep
        → rep ≤ length (distinct same acc (threads_of pos))
        → length pos < fuel
        → walk same nodes rep fuel pos acc ≡ some (take rep (distinct same acc (threads_of pos)))
    walk-stops_any some_node fuel [] acc nonempty le reaches enough = absurd (omega arith)
    walk-stops_any some_node fuel ((k, t) ∷ pos) acc nonempty le reaches enough =
        walk-stops some_node fuel k t pos acc le reaches (omega arith)

    -- Within two laps the walk ends.
    walk-around :
        (fuel : ℕ) (k : ℕ) (t : T) (pos : Nodes T)
        → 0 < length nodes
        → rep ≤ length (distinct same [] (threads_of ((k, t) ∷ pos) ++ threads_of nodes))
        → length pos + length nodes + 2 < fuel
        → walk same nodes rep fuel ((k, t) ∷ pos) []
          ≡ some (take rep (distinct same [] (threads_of ((k, t) ∷ pos) ++ threads_of nodes)))
    unfolding Extends
    walk-around fuel k t pos some_node reaches enough = go (ltb (length lap) rep) refl
      where
        lap : List T
        lap = distinct same [] (threads_of ((k, t) ∷ pos))

        both :
            distinct same [] (threads_of ((k, t) ∷ pos) ++ threads_of nodes)
            ≡ distinct same lap (threads_of nodes)
        both = distinct-append same [] (threads_of ((k, t) ∷ pos)) (threads_of nodes)

        go :
            (b : Bool)
            → ltb (length lap) rep ≡ b
            → walk same nodes rep fuel ((k, t) ∷ pos) []
              ≡ some (take rep (distinct same [] (threads_of ((k, t) ∷ pos) ++ threads_of nodes)))
        go true e =
            more_fuel fuel (length ((k, t) ∷ pos) + (fuel - length ((k, t) ∷ pos))) ((k, t) ∷ pos)
              [] (omega arith)
            ∙ walk-lap (fuel - length ((k, t) ∷ pos)) k t pos [] (ground (arith, e))
            ∙ walk-stops_any some_node (fuel - length ((k, t) ∷ pos)) nodes lap some_node
                (ground (arith, e)) (omega (arith, reaches, ap (λ (q : List T). length q) both))
                (omega arith)
            ∙ ap some (sym (ap (λ (q : List T). take rep q) both))
        go false e =
            let enough_there : rep ≤ length lap = ground (arith, e) in
            let (more, grown) = distinct-Extends same lap (threads_of nodes) in
            let short : take rep (distinct same lap (threads_of nodes)) ≡ take rep lap =
              ap (λ (q : List T). take rep q) grown ∙ take-append_le rep lap more enough_there in
            walk-stops some_node fuel k t pos [] (omega arith) (ground (arith, e)) (omega arith)
            ∙ ap some (sym (ap (λ (q : List T). take rep q) both ∙ short))

module _ {ℓ} {T : Type ℓ} where
  seek-length : (hash : ℕ) (nodes : Nodes T) → length (seek hash nodes) ≤ length nodes
  unfolding seek
  seek-length hash [] = omega arith
  seek-length hash ((k, t) ∷ nodes) = ground (arith, seek-length hash nodes)

  seek-lower_bound :
      (hash : ℕ) (nodes : Nodes T) → ring_begin (seek hash nodes) ≡ lower_bound hash nodes
  unfolding seek lower_bound ring_begin
  seek-lower_bound hash [] = refl
  seek-lower_bound hash ((k, t) ∷ nodes) = ground (arith, seek-lower_bound hash nodes)

  start-length :
      (hash : ℕ) (nodes : Nodes T)
      → 0 < length nodes
      → (k : ℕ) × (t : T) × (pos : Nodes T) × (start hash nodes ≡ (k, t) ∷ pos)
        × (length pos < length nodes)
  unfolding start
  start-length hash [] some_node = absurd (omega arith)
  start-length hash ((k, t) ∷ ns) some_node = go (seek hash ((k, t) ∷ ns)) refl
    where
      go :
          (found : Nodes T)
          → seek hash ((k, t) ∷ ns) ≡ found
          → (k' : ℕ) × (t' : T) × (pos : Nodes T) × (start hash ((k, t) ∷ ns) ≡ (k', t') ∷ pos)
            × (length pos < suc (length ns))
      go [] e = (k, t, ns, ap (λ (q : Nodes T). or_begin ((k, t) ∷ ns) q) e, omega arith)
      go ((k', t') ∷ pos) e = (
        k',
        t',
        pos,
        ap (λ (q : Nodes T). or_begin ((k, t) ∷ ns) q) e,
        omega (arith, seek-length hash ((k, t) ∷ ns), ap (λ (q : Nodes T). length q) e),
      )

  or_begin-ring_begin :
      (nodes found : Nodes T)
      → ring_begin (or_begin nodes found)
        ≡ elim (ring_begin found) [ none ↦ ring_begin nodes | some it ↦ some it ]
  unfolding ring_begin
  or_begin-ring_begin nodes [] = refl
  or_begin-ring_begin nodes (n ∷ ns) = refl

  -- The walk starts at the node that `find` returns.
  pub start-ring_find :
      (hash : ℕ) (nodes : Nodes T) → ring_begin (start hash nodes) ≡ ring_find hash nodes
  unfolding start ring_find ring_empty seek ring_begin
  start-ring_find hash [] = refl
  start-ring_find hash ((k, t) ∷ ns) =
      or_begin-ring_begin ((k, t) ∷ ns) (seek hash ((k, t) ∷ ns))
      ∙ ap (λ (o : Option (ℕ × T)). elim o [ none ↦ ring_begin ((k, t) ∷ ns) | some it ↦ some it ])
          (seek-lower_bound hash ((k, t) ∷ ns))

module _ {ℓ} {T : Type ℓ} (same : T → T → Bool) where
  pub responsible_global-distinct :
      (fuel hash global_rep : ℕ) (nodes : Nodes T)
      → 0 < length nodes
      → global_rep ≤ length (distinct same [] (threads_of (start hash nodes) ++ threads_of nodes))
      → 2 * length nodes + 2 < fuel
      → responsible_global same fuel hash global_rep nodes
        ≡ some
            (take global_rep (distinct same [] (threads_of (start hash nodes) ++ threads_of nodes)))
  unfolding responsible_global
  responsible_global-distinct fuel hash rep [] some_node reaches enough = absurd (omega arith)
  responsible_global-distinct fuel hash rep (n ∷ ns) some_node reaches enough =
      let (k, t, pos, e, short) = start-length hash (n ∷ ns) some_node in
      let rest = suc (length ns) in
      subst
        (λ (q : Nodes T).
          rep ≤ length (distinct same [] (threads_of q ++ threads_of (n ∷ ns)))
          → walk same (n ∷ ns) rep fuel q []
            ≡ some (take rep (distinct same [] (threads_of q ++ threads_of (n ∷ ns)))))
        (sym e)
        (λ reaches'. walk-around same (n ∷ ns) rep fuel k t pos some_node reaches' (omega arith))
        reaches

  -- With at least as many different nodes on the ring as copies are asked for, the walk ends, and finds as
  -- many nodes as copies, of which no two are the same: the first so many that are met on the way round the
  -- ring, from the one that the key is found at on. The ring is not empty, and the fuel is more than two laps.
  pub responsible_global-AreDifferent :
      (fuel hash global_rep : ℕ) (nodes : Nodes T)
      → 0 < length nodes
      → global_rep ≤ length (distinct same [] (threads_of (start hash nodes) ++ threads_of nodes))
      → 2 * length nodes + 2 < fuel
      → (found : List T) × (responsible_global same fuel hash global_rep nodes ≡ some found)
        × (length found ≡ global_rep)
        × AreDifferent same found
        × (found
            ≡ take global_rep
                (distinct same [] (threads_of (start hash nodes) ++ threads_of nodes)))
  responsible_global-AreDifferent fuel hash rep nodes some_node reaches enough =
      let met = distinct same [] (threads_of (start hash nodes) ++ threads_of nodes) in
      (
        take rep met,
        responsible_global-distinct fuel hash rep nodes some_node reaches enough,
        omega (arith, length-take rep met),
        take-AreDifferent same rep met (distinct-AreDifferent same [] _ tt),
        refl,
      )
