-- ===== src/Anna/Server/Replication/Handed.antt =====
-- A key that a server gives up is handed to the threads that are responsible for it: the handlers of
-- src/dist/anna/src/kvs for a node that joins and, in Changed, for a change of replication.
use testbed.Prelude.{
  ℕ, ◌≡◌, refl, subst, ◌∙◌, Bool, true, false, Option, some, none, List, [], ◌∷◌, Bytes, bytes_eq,
  bytes_eq_iff, ltb, if◌then◌else◌, Bool-cases, inl, inr, arith,
}
use testbed.Anna.Lattice.SetLattice.{StringSet, elem, set_insert}
use testbed.Anna.Lattice.SetLattice.Laws.{elem-insert}
use testbed.Anna.Lattice.MapLattice.{StringMap}
use testbed.Anna.Kvs.{KeyProperty}
use testbed.Anna.HashRing.Servers.{ServerThread}
use testbed.Anna.HashRing.Walk.{has}
use testbed.Anna.Cluster.{connect_address, k_gossip_port}
use testbed.Anna.Cluster.Departing.{add_to_threads}
use testbed.Anna.Cluster.Joining.{NodeState, add_rejoined, hand_over, hand_over_keys}
use testbed.Anna.Cluster.Rings.{GlobalRingMap}
use testbed.Anna.Server.Maps.{change, set_at, set_at-change}

module _ (to_string : ℕ → Bytes) where
  abbrev gossip_address : ServerThread → Bytes
  gossip_address st = connect_address to_string st.private_ip st.tid k_gossip_port

  -- Every thread of the list is sent the key.
  abbrev pub AreHanded : Bytes → List ServerThread → StringMap StringSet → Type 0
  AreHanded key [] m = Unit
  AreHanded key (thread ∷ threads) m =
      (elem key (set_at (gossip_address thread) m) ≡ true) × AreHanded key threads m

  -- What is to be sent stays to be sent.
  abbrev Grows : StringMap StringSet → StringMap StringSet → Type 0
  Grows m m' = (a y : Bytes) → elem y (set_at a m) ≡ true → elem y (set_at a m') ≡ true

  change-Grows : (a key : Bytes) (m : StringMap StringSet) → Grows m (change a (set_insert key) m)
  change-Grows a key m b y h = elim (Bool-cases (bytes_eq a b)) [
    | inl e ↦
        rw (set_at-change a b (set_insert key) m, e)
          (elem-insert key y (set_at b m) ∙ ground (arith, h))
    | inr e ↦ rw (set_at-change a b (set_insert key) m, e) h
  ]

  change-has :
      (a key : Bytes) (m : StringMap StringSet)
      → elem key (set_at a (change a (set_insert key) m)) ≡ true
  change-has a key m =
      rw (set_at-change a a (set_insert key) m, (bytes_eq_iff a a).1 refl)
        (elem-insert key key (set_at a m) ∙ rw ((bytes_eq_iff key key).1 refl) refl)

  pub add_to_threads-Grows :
      (key : Bytes) (threads : List ServerThread) (m : StringMap StringSet)
      → Grows m (add_to_threads to_string key threads m)
  unfolding add_to_threads
  add_to_threads-Grows key [] m a y h = h
  add_to_threads-Grows key (thread ∷ threads) m a y h =
      add_to_threads-Grows key threads (change (gossip_address thread) (set_insert key) m) a y
        (change-Grows (gossip_address thread) key m a y h)

  AreHanded-Grows :
      (key : Bytes) (threads : List ServerThread) (m m' : StringMap StringSet)
      → Grows m m'
      → AreHanded key threads m
      → AreHanded key threads m'
  AreHanded-Grows key [] m m' g h = tt
  AreHanded-Grows key (thread ∷ threads) m m' g h =
      (g (gossip_address thread) key h.0, AreHanded-Grows key threads m m' g h.1)

  add_to_threads-AreHanded :
      (key : Bytes) (threads : List ServerThread) (m : StringMap StringSet)
      → AreHanded key threads (add_to_threads to_string key threads m)
  unfolding add_to_threads
  add_to_threads-AreHanded key [] m = tt
  add_to_threads-AreHanded key (thread ∷ threads) m =
      let next = change (gossip_address thread) (set_insert key) m in
      (
        add_to_threads-Grows key threads next (gossip_address thread) key
            (change-has (gossip_address thread) key m),
        add_to_threads-AreHanded key threads next,
      )

  module _ (is_self : ServerThread → ServerThread → Bool) (wt : ServerThread) {R : Type 0}
      (responsible : R → Bytes → Option (List ServerThread)) where
    -- Every key that is to be removed is to be sent to all threads that were found responsible for it, of
    -- which this thread is none.
    abbrev pub IsHandedOver : StringSet → StringMap StringSet → Type 0
    IsHandedOver remove_set m =
        (key : Bytes)
        → elem key remove_set ≡ true
        → (known : R) × (threads : List ServerThread) × (responsible known key ≡ some threads)
          × (has is_self wt threads ≡ false)
          × AreHanded key threads m

    pub IsHandedOver-Grows :
        (remove_set : StringSet) (m m' : StringMap StringSet)
        → Grows m m'
        → IsHandedOver remove_set m
        → IsHandedOver remove_set m'
    IsHandedOver-Grows remove_set m m' g h key e =
        let (known, threads, found, away, handed) = h key e in
        (known, threads, found, away, AreHanded-Grows key threads m m' g handed)

    pub IsHandedOver-insert :
        (key : Bytes) (known : R) (threads : List ServerThread) (remove_set : StringSet)
        (m : StringMap StringSet)
        → responsible known key ≡ some threads
        → has is_self wt threads ≡ false
        → IsHandedOver remove_set m
        → IsHandedOver (set_insert key remove_set) (add_to_threads to_string key threads m)
    IsHandedOver-insert key known threads remove_set m found away h y e =
        elim (Bool-cases (bytes_eq key y)) [
          | inl q ↦
              subst
                (λ x.
                  (k : R) × (ts : List ServerThread) × (responsible k x ≡ some ts)
                  × (has is_self wt ts ≡ false)
                  × AreHanded x ts (add_to_threads to_string key threads m))
                ((bytes_eq_iff key y).0 q)
                (known, threads, found, away, add_to_threads-AreHanded key threads m)
          | inr q ↦
              IsHandedOver-Grows remove_set m (add_to_threads to_string key threads m)
                (add_to_threads-Grows key threads m) h y
                (ground (arith, elem-insert key y remove_set, e, q))
        ]

  module _ (is_self : ServerThread → ServerThread → Bool) (wt : ServerThread)
      (get_responsible_threads : GlobalRingMap → Bytes → Option (List ServerThread)) where
    abbrev IsJoined : NodeState → Type 0
    IsJoined s = IsHandedOver is_self wt get_responsible_threads s.join_remove_set s.join_gossip_map

    if-IsJoined :
        (b : Bool) (x y : NodeState)
        → (b ≡ true → IsJoined x)
        → (b ≡ false → IsJoined y)
        → IsJoined (if b then x else y)
    if-IsJoined true x y h k = h refl
    if-IsJoined false x y h k = k refl

    add_rejoined-Grows :
        (key ip : Bytes) (threads : List ServerThread) (m : StringMap StringSet)
        → Grows m (add_rejoined to_string key ip threads m)
    unfolding add_rejoined
    add_rejoined-Grows key ip [] m a y h = h
    add_rejoined-Grows key ip (thread ∷ threads) m a y h =
        elim (Bool-cases (bytes_eq thread.private_ip ip)) [
          | inl e ↦ rw e (
              add_rejoined-Grows key ip threads (change (gossip_address thread) (set_insert key) m)
                a y (change-Grows (gossip_address thread) key m a y h))
          | inr e ↦ rw e (add_rejoined-Grows key ip threads m a y h)
        ]

    hand_over-IsJoined :
        (count : ℕ) (ip key : Bytes) (rings : GlobalRingMap) (o : Option (List ServerThread))
        (s : NodeState)
        → get_responsible_threads rings key ≡ o
        → IsJoined s
        → IsJoined (hand_over to_string is_self wt count ip key o s)
    unfolding hand_over
    hand_over-IsJoined count ip key rings none s e h = h
    hand_over-IsJoined count ip key rings (some threads) s found h =
        if-IsJoined (ltb 0 count) _ _
          (λ e.
            IsHandedOver-Grows is_self wt get_responsible_threads s.join_remove_set
              s.join_gossip_map (add_rejoined to_string key ip threads s.join_gossip_map)
              (add_rejoined-Grows key ip threads s.join_gossip_map) h)
          (λ e.
            if-IsJoined (has is_self wt threads) s _ (λ e'. h)
              (λ e'.
                IsHandedOver-insert is_self wt get_responsible_threads key rings threads
                  s.join_remove_set s.join_gossip_map found e' h))

    -- A node that joins makes this thread put a key on the list of keys to remove only if the thread is not
    -- responsible for it on rings that it has come to know, and to hand it to every thread that is.
    pub hand_over_keys-IsHandedOver :
        (count : ℕ) (ip : Bytes) (rings : GlobalRingMap) (stored : StringMap KeyProperty)
        (s : NodeState)
        → IsHandedOver is_self wt get_responsible_threads s.join_remove_set s.join_gossip_map
        → (let s' =
              hand_over_keys to_string is_self wt count ip
                (get_responsible_threads rings)
                stored
                s in
            IsHandedOver is_self wt get_responsible_threads s'.join_remove_set s'.join_gossip_map)
    unfolding hand_over_keys
    hand_over_keys-IsHandedOver count ip rings [] s h = h
    hand_over_keys-IsHandedOver count ip rings ((key, p) ∷ stored) s h =
        hand_over_keys-IsHandedOver count ip rings stored _
          (hand_over-IsJoined count ip key rings (get_responsible_threads rings key) s refl h)
