-- ===== src/Anna/Server/Requests/Refused.antt =====
-- A PUT that is refused, in src/dist/anna/src/kvs/user_request_handler.cpp.
use testbed.Prelude.{
  ℕ, ◌+◌, ◌%◌, ◌≡◌, refl, ap, length, ◌∙◌, ◌≤◌, ◌≢◌, suc, zero, Bool, true, false, ◌||◌, ◌&&◌, not,
  Option, some, none, List, [], ◌∷◌, Bytes, ◌==◌, Bool-cases, inl, inr, arith,
}
use testbed.Anna.Lattice.Scalars.{u32_mod}
use testbed.Anna.Lattice.SetLattice.{set_insert}
use testbed.Anna.Lattice.MapLattice.{find}
use testbed.Anna.Kvs.{Serializer, AnnaError, KeyProperty, process_put}
use testbed.Anna.HashRing.Servers.{ServerThread}
use testbed.Anna.HashRing.Walk.{has}
use testbed.Anna.Cluster.{returned}
use testbed.Anna.Server.Requests.Answered.{calls_null-enumerated}
use testbed.Anna.Server.Requests.{
  handle_tuple, serve_tuple, is_own, RequestType, KeyTuple, KeyRequest, ServerState, conflicts,
  put_tuple, process_tuple, answer_tuple, track_access,
}

unfoldable pub refuses : ℕ → Option KeyProperty → Bool
refuses zero stored = true
refuses (suc n) none = false
refuses (suc n) (some p) = elim p.type_ [ zero ↦ false | suc m ↦ not (m == n) ]

refuses-conflicts :
    (n : ℕ) (stored : Option KeyProperty) → ((n == 0) || conflicts n stored) ≡ refuses n stored
unfolding refuses conflicts
refuses-conflicts zero stored = refl
refuses-conflicts (suc n) none = ground arith
refuses-conflicts (suc n) (some p) = by_type p.type_
  where
    by_type :
        (t : ℕ)
        → ((suc n == 0) || (not (t == 0) && not (t == suc n)))
          ≡ elim t [ zero ↦ false | suc m ↦ not (m == n) ]
    by_type zero = ground arith
    by_type (suc m) = ground arith

pub refuses-typed : (n : ℕ) (stored : Option KeyProperty) → refuses n stored ≡ false → n ≢ 0
unfolding refuses
refuses-typed zero stored h = absurd (cc)
refuses-typed (suc n) stored h = λ e. omega (arith, e)

-- A PUT is refused without a type, and where the key is stored with another type than its own.
unfoldable pub is_refused : {S : Type 0} → KeyTuple → ServerState S → Bool
is_refused tuple st = refuses tuple.lattice_type (find tuple.key st.stored_key_map)

-- What a reader of keys can see.
abbrev pub Unchanged : {S : Type 0} → ServerState S → ServerState S → Type 0
Unchanged st st' =
    (st'.store ≡ st.store)
    × (st'.stored_key_map ≡ st.stored_key_map)
    × (st'.local_changeset ≡ st.local_changeset)

module _ {S : Type 0} (serializers : ℕ → Serializer S)
    (get_responsible_threads : Bytes → Option (List ServerThread))
    (is_self : ServerThread → ServerThread → Bool) (wt : ServerThread) (clock : ℕ → ℕ) where
  pub answer_tuple-silent :
      (request : KeyRequest) (tuple : KeyTuple) (threads : ℕ) (st : ServerState S)
      → request.type' ≡ RequestType.put
      → (let (ts, st') =
            answer_tuple serializers get_responsible_threads is_self wt clock request tuple threads
              st in
          ((tp : KeyTuple) × (ts ≡ tp ∷ []) × (tp.error ≡ AnnaError.no_error))
          × (is_refused tuple st ≡ true → Unchanged st st')
          × (is_refused tuple st ≡ false
              → (let (store, stored_key_map) =
                    process_put
                      (serializers tuple.lattice_type)
                      tuple.key
                      tuple.lattice_type
                      tuple.payload
                      st.store
                      st.stored_key_map in
                  (st'.store ≡ store)
                  × (st'.stored_key_map ≡ stored_key_map)
                  × (st'.local_changeset ≡ set_insert tuple.key st.local_changeset)))
          × (st'.access_count ≡ (st.access_count + 1) % u32_mod))
  unfolding answer_tuple process_tuple put_tuple track_access is_refused
  answer_tuple-silent request tuple threads st put =
      let tests = refuses-conflicts tuple.lattice_type (find tuple.key st.stored_key_map) in
      elim (Bool-cases (is_refused tuple st)) [
        | inl e ↦
            rw (put, tests ∙ e, e)
              ((_, refl, refl), λ h. (refl, refl, refl), λ h. absurd (cc), refl)
        | inr e ↦
            rw (put, tests ∙ e, e)
              ((_, refl, refl), λ h. absurd (cc), λ h. (refl, refl, refl), refl)
      ]

  -- A PUT of a lattice type of the enumeration, for a key of this thread, is answered without an error
  -- whether it is made or not. One without a lattice type, or for a key that is stored with another type,
  -- changes neither what is stored nor what is gossiped; any other is in what is stored and gossiped. Both
  -- are counted as an access.
  pub handle_tuple-silent :
      (metadata : Bool) (request : KeyRequest) (tuple : KeyTuple) (threads : List ServerThread)
      (st : ServerState S)
      → request.type' ≡ RequestType.put
      → tuple.lattice_type ≤ 6
      → get_responsible_threads tuple.key ≡ some threads
      → has is_self wt threads ≡ true
      → (tp : KeyTuple) × (st' : ServerState S) × (handle_tuple serializers get_responsible_threads
            is_self wt clock
            (some metadata)
            request
            tuple
            st
          ≡ returned (tp ∷ [], st'))
        × (tp.error ≡ AnnaError.no_error)
        × (is_refused tuple st ≡ true → Unchanged st st')
        × (is_refused tuple st ≡ false
            → (let (store, stored_key_map) =
                  process_put
                    (serializers tuple.lattice_type)
                    tuple.key
                    tuple.lattice_type
                    tuple.payload
                    st.store
                    st.stored_key_map in
                (st'.store ≡ store)
                × (st'.stored_key_map ≡ stored_key_map)
                × (st'.local_changeset ≡ set_insert tuple.key st.local_changeset)))
        × (st'.access_count ≡ (st.access_count + 1) % u32_mod)
  unfolding handle_tuple serve_tuple is_own
  handle_tuple-silent metadata request tuple threads st put enumerated known self =
      let ((tp, one, fine), refused, made, counted) =
        answer_tuple-silent request tuple (length threads) st put in
      let st' =
        (answer_tuple serializers get_responsible_threads is_self wt clock request tuple
          (length threads) st).1 in
      let served : answer_tuple serializers get_responsible_threads is_self wt clock request tuple
            (length threads) st
          ≡ (tp ∷ [], st') =
        ap (λ ts. (ts, st')) one in
      (
        tp,
        st',
        rw
            (
              calls_null-enumerated request.type' tuple.lattice_type
                  (find tuple.key st.stored_key_map) enumerated,
              known,
              self,
            )
            (ap returned served),
        fine,
        refused,
        made,
        counted,
      )
