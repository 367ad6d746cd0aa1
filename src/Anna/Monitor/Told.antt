-- ===== src/Anna/Monitor/Told.antt =====
-- What the monitor tells of keys' replication factors when it changes them: the second loop of
-- change_replication_factor of src/dist/anna/src/monitor/replication_helpers.cpp, and the whole.
use testbed.Prelude.{
  ℕ, ◌≡◌, refl, sym, ap, ◌∙◌, Bool, true, false, some, List, [], ◌∷◌, ◌++◌, Bytes, bytes_eq,
  if◌then◌else◌, Bool-cases, inl, inr,
}
use testbed.Anna.Lattice.SetLattice.{StringSet, elem}
use testbed.Anna.Lattice.MapLattice.{StringMap, find}
use testbed.Anna.Kvs.Store.{value_or, find-kvs_put}
use testbed.Anna.HashRing.Servers.{ServerThread}
use testbed.Anna.Cluster.{Tier}
use testbed.Anna.Cluster.Rings.{same_tier}
use testbed.Anna.Server.Requests.{list_default}
use testbed.Anna.Server.Requests.Answered.{push_at_as_put}
use testbed.Anna.Server.Replication.{
  Factors, KeyReplication, replication_default, change_replication, set_factor, k_all_tiers,
}
use testbed.Anna.Server.Replication.Change.{ReplicationFactor, factor_of}
use testbed.Anna.Monitor.{
  Updates, touch, restore, tell_threads, tell_routing, tell_tiers, tell_key, tell_keys,
  prepare_replication_factor_update, prepared, tell_and_restore, change_replication_factor,
  after_requests,
}
use testbed.Anna.Monitor.Prepare.{rep_at}
use testbed.Anna.Monitor.Sending.{Inbox, send_requests}
use testbed.Anna.Monitor.Kept.{
  IsMap, asked, original, rep_at-change_replication, rep_at-restore, prepare_changes-rep_at,
}

-- The same factor for every tier, with 0 for one that is missing.
abbrev pub AreSame : KeyReplication → KeyReplication → Type 0
AreSame r q =
    ((tier : Tier) → factor_of tier r.global_replication ≡ factor_of tier q.global_replication)
    × (r.local_replication ≡ q.local_replication)

abbrev AreSameReps : StringMap KeyReplication → StringMap KeyReplication → Type 0
AreSameReps m m' = (key : Bytes) → AreSame (rep_at key m) (rep_at key m')

set_factor-factor_of :
    (tier t : Tier) (n : ℕ) (m : Factors)
    → n ≡ factor_of tier m
    → factor_of t (set_factor tier n m) ≡ factor_of t m
unfolding factor_of set_factor
set_factor-factor_of tier t n [] h = elim (Bool-cases (same_tier tier t)) [
  | inl e ↦ rw e h
  | inr e ↦ rw e refl
]
set_factor-factor_of tier t n ((u, k) ∷ m) h = elim (Bool-cases (same_tier u tier)) [
  | inl e ↦ rw (e, h, e) refl
  | inr e ↦ elim (Bool-cases (same_tier u t)) [
    | inl q ↦ rw (e, q) refl
    | inr q ↦ rw (e, q) (set_factor-factor_of tier t n m (h ∙ rw e refl))
  ]
]

touch-AreSameReps :
    (tier : Tier) (key : Bytes) (m : StringMap KeyReplication)
    → AreSameReps (change_replication key (touch tier) m) m
unfolding touch
touch-AreSameReps tier key m j = elim (Bool-cases (bytes_eq key j)) [
  | inl e ↦
      rw (rep_at-change_replication key j (touch tier) m, e)
        (λ t. set_factor-factor_of tier t _ (rep_at j m).global_replication refl, refl)
  | inr e ↦ rw (rep_at-change_replication key j (touch tier) m, e) (λ t. refl, refl)
]

abbrev of_update : ReplicationFactor → KeyReplication
of_update u = record { global_replication = u.global; local_replication = u.local }

-- The updates are of keys that have not failed, and carry the factors of the map.
abbrev pub AreTrue : StringSet → StringMap KeyReplication → List ReplicationFactor → Type 0
AreTrue failed m [] = Unit
AreTrue failed m (u ∷ us) =
    ((elem u.key failed ≡ false) × AreSame (of_update u) (rep_at u.key m)) × AreTrue failed m us

abbrev AreAllTrue : StringSet → StringMap KeyReplication → Updates → Type 0
AreAllTrue failed m updates =
    (address : Bytes) → AreTrue failed m (value_or [] (find address updates))

AreTrue-append :
    (failed : StringSet) (m : StringMap KeyReplication) (us : List ReplicationFactor)
    (u : ReplicationFactor)
    → AreTrue failed m us
    → elem u.key failed ≡ false
    → AreSame (of_update u) (rep_at u.key m)
    → AreTrue failed m (us ++ (u ∷ []))
AreTrue-append failed m [] u h e s = ((e, s), _)
AreTrue-append failed m (v ∷ us) u (here, h) e s = (here, AreTrue-append failed m us u h e s)

prepare_update-AreAllTrue :
    (failed : StringSet) (m : StringMap KeyReplication) (updates : Updates) (key : Bytes)
    (rep : KeyReplication) (a : Bytes)
    → AreAllTrue failed m updates
    → elem key failed ≡ false
    → AreSame rep (rep_at key m)
    → AreAllTrue failed m (prepare_replication_factor_update key rep a updates)
unfolding prepare_replication_factor_update value_or
prepare_update-AreAllTrue failed m updates key rep a h e s b =
    let u : ReplicationFactor = record {
      key = key;
      global = rep.global_replication;
      local = rep.local_replication;
    } in
    elim (Bool-cases (bytes_eq a b)) [
      | inl q ↦
          rw (push_at_as_put a u updates, find-kvs_put list_default a b (u ∷ []) updates, q)
            (AreTrue-append failed m (value_or [] (find b updates)) u (h b) e s)
      | inr q ↦
          rw (push_at_as_put a u updates, find-kvs_put list_default a b (u ∷ []) updates, q) (h b)
    ]

module _ (to_string : ℕ → Bytes) (failed : StringSet) (m0 : StringMap KeyReplication) where
  tell_threads-AreAllTrue :
      (key : Bytes) (rep : KeyReplication) (threads : List ServerThread) (updates : Updates)
      → AreAllTrue failed m0 updates
      → elem key failed ≡ false
      → AreSame rep (rep_at key m0)
      → AreAllTrue failed m0 (tell_threads to_string key rep threads updates)
  unfolding tell_threads
  tell_threads-AreAllTrue key rep [] updates h e s = h
  tell_threads-AreAllTrue key rep (thread ∷ threads) updates h e s =
      tell_threads-AreAllTrue key rep threads _
        (prepare_update-AreAllTrue failed m0 updates key rep _ h e s) e s

  tell_routing-AreAllTrue :
      (key : Bytes) (rep : KeyReplication) (ips : List Bytes) (updates : Updates)
      → AreAllTrue failed m0 updates
      → elem key failed ≡ false
      → AreSame rep (rep_at key m0)
      → AreAllTrue failed m0 (tell_routing to_string key rep ips updates)
  unfolding tell_routing
  tell_routing-AreAllTrue key rep [] updates h e s = h
  tell_routing-AreAllTrue key rep (ip ∷ ips) updates h e s =
      tell_routing-AreAllTrue key rep ips _
        (prepare_update-AreAllTrue failed m0 updates key rep _ h e s) e s

  -- The map has the factors that it had, and what is told are those.
  abbrev IsTrueTo : StringMap KeyReplication × Updates → Type 0
  IsTrueTo (m, updates) = AreSameReps m m0 × AreAllTrue failed m0 updates

  module _ (responsible_global : Bytes → ℕ → Tier → List ServerThread)
      (routing_ips : List Bytes) where
    tell_tiers-IsTrueTo :
        (key : Bytes) (orig : KeyReplication) (tiers : List Tier) (m : StringMap KeyReplication)
        (updates : Updates)
        → elem key failed ≡ false
        → IsTrueTo (m, updates)
        → IsTrueTo (tell_tiers to_string responsible_global routing_ips key orig tiers (m, updates))
    unfolding tell_tiers
    tell_tiers-IsTrueTo key orig [] m updates e h = h
    tell_tiers-IsTrueTo key orig (tier ∷ tiers) m updates e (s, h) =
        let touched : AreSameReps (change_replication key (touch tier) m) m0 = λ j. (
          λ t. (touch-AreSameReps tier key m j).0 t ∙ (s j).0 t,
          (touch-AreSameReps tier key m j).1 ∙ (s j).1,
        ) in
        tell_tiers-IsTrueTo key orig tiers _ _ e
          (touched, tell_threads-AreAllTrue key _ _ updates h e (touched key))

    tell_key-IsTrueTo :
        (key : Bytes) (orig : KeyReplication) (m : StringMap KeyReplication) (updates : Updates)
        → elem key failed ≡ false
        → IsTrueTo (m, updates)
        → IsTrueTo (tell_key to_string responsible_global routing_ips key orig (m, updates))
    unfolding tell_key
    tell_key-IsTrueTo key orig m updates e h =
        let (s, told) = tell_tiers-IsTrueTo key orig k_all_tiers m updates e h in
        (s, tell_routing-AreAllTrue key _ routing_ips _ told e (s key))

    tell_keys-IsTrueTo :
        (orig requests : StringMap KeyReplication) (acc : StringMap KeyReplication × Updates)
        → IsTrueTo acc
        → IsTrueTo (tell_keys to_string responsible_global routing_ips failed orig requests acc)
    unfolding tell_keys
    tell_keys-IsTrueTo orig [] acc h = h
    tell_keys-IsTrueTo orig ((key, new_rep) ∷ requests) (m, updates) h =
        tell_keys-IsTrueTo orig requests _ (told (elem key failed) refl)
      where
        told :
            (b : Bool)
            → elem key failed ≡ b
            → IsTrueTo (
                if b
                then (m, updates)
                else tell_key to_string responsible_global routing_ips key
                    (rep_at key orig)
                    (m, updates))
        told true e = h
        told false e = tell_key-IsTrueTo key (rep_at key orig) m updates e h

AreTrue-trans :
    (failed : StringSet) (m m' : StringMap KeyReplication) (us : List ReplicationFactor)
    → ((key : Bytes) → elem key failed ≡ false → AreSame (rep_at key m) (rep_at key m'))
    → AreTrue failed m us
    → AreTrue failed m' us
AreTrue-trans failed m m' [] h true' = _
AreTrue-trans failed m m' (u ∷ us) h ((e, s), more) =
    ((e, (λ t. s.0 t ∙ (h u.key e).0 t, s.1 ∙ (h u.key e).1)), AreTrue-trans failed m m' us h more)

module _ (to_string : ℕ → Bytes) (response_address : Bytes) (target_of : Bytes → Bytes)
    (serialize : Bytes → KeyReplication → Bytes) where
  module _ (responsible_global : Bytes → ℕ → Tier → List ServerThread)
      (routing_ips : List Bytes) where
    -- The requests have one entry for each key, and each of the messages for the servers is answered or
    -- times out. Then the change returns. It leaves every key with the factors asked for, unless they pass
    -- for those that it had, and with the factors from before if no request names it or its request
    -- failed; a key that is reported as failed and that no request names loses its factors. Every update
    -- that is sent is of a key that did not fail, and carries the factors that the monitor then has of it.
    pub change_replication_factor-told :
        (requests m : StringMap KeyReplication) (rid : ℕ) (messages left : Inbox)
        (failed : StringSet)
        → IsMap requests
        → send_requests
            (prepared to_string response_address target_of serialize responsible_global routing_ips
              requests m rid).addr_request_map
            messages
            []
          ≡ some (failed, left)
        → (let p =
              prepared to_string response_address target_of serialize responsible_global routing_ips
                requests m rid in
            let r =
              tell_and_restore to_string response_address target_of serialize responsible_global
                routing_ips requests p
                (failed, left) in
            (change_replication_factor to_string response_address target_of serialize
                responsible_global routing_ips requests m rid messages
              ≡ some r)
            × ((key : Bytes)
                → AreSame (rep_at key r.key_replication_map) (
                    if elem key failed
                    then original (find key requests) (rep_at key m) replication_default.bottom
                    else asked (find key requests) (rep_at key m)))
            × ((address : Bytes)
                → AreTrue failed r.key_replication_map (value_or [] (find address r.updates))))
    unfolding change_replication_factor after_requests prepared tell_and_restore rep_at find
        value_or
    change_replication_factor-told requests m rid messages left failed h e =
        let p =
          prepared to_string response_address target_of serialize responsible_global routing_ips
            requests m rid in
        let orig = p.orig_key_replication_map_info in
        let now = p.key_replication_map in
        let told =
          tell_keys-IsTrueTo to_string failed now responsible_global routing_ips orig requests
            (now, []) (λ key. (λ t. refl, refl), λ a. _) in
        let after =
          (tell_keys to_string responsible_global routing_ips failed orig requests (now, [])).0 in
        let fields : (j : Bytes) → _ = λ j.
          prepare_changes-rep_at to_string response_address target_of serialize requests
            (record {
              key_replication_map = m;
              orig_key_replication_map_info = [];
              addr_request_map = [];
              rid = rid;
            })
            j h in
        (
          ap
              (after_requests to_string response_address target_of serialize responsible_global
                routing_ips requests p)
              e,
          λ key. elim (Bool-cases (elem key failed)) [
            | inl f ↦ rw (rep_at-restore failed orig after key, f, (fields key).1) (λ t. refl, refl)
            | inr f ↦ rw (rep_at-restore failed orig after key, f, sym (fields key).0) (told.0 key)
          ],
          λ a.
              AreTrue-trans failed now (restore failed orig after) _
                (λ key f.
                  rw (rep_at-restore failed orig after key, f)
                    (λ t. sym ((told.0 key).0 t), sym (told.0 key).1))
                (told.1 a),
        )
