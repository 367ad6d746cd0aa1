-- ===== src/Anna/Server/Gossip.antt =====
-- send_gossip of src/dist/anna/src/kvs/utils.cpp: what a server thread sends to others of the keys that it
-- stores. The serializers of the lattice types are a function of the type's number, over one store.
use testbed.Prelude.{
  ℕ, ◌≡◌, refl, sym, ap, subst, ◌∙◌, bytes_eq_iff, Bool, true, false, ◌||◌, Option, some, none,
  List, [], ◌∷◌, ◌++◌, Bytes, bytes_eq, if◌then◌else◌, Bool-cases, inl, inr, arith,
}
use testbed.Anna.Lattice.SetLattice.{StringSet, elem}
use testbed.Anna.Lattice.MapLattice.{StringMap, find}
use testbed.Anna.Kvs.{AnnaError, Serializer, KeyProperty, process_get}
use testbed.Anna.Kvs.Store.{value_or}
use testbed.Anna.Server.Caches.{is_no_error}
use testbed.Anna.Server.Maps.{set_at}

-- What prepare_put_tuple adds to a request.
pub record PutTuple : Type 0 where
  pub key : Bytes
  pub lattice_type : ℕ
  pub payload : Bytes

unfoldable pub tuple_unless_error : Bytes → ℕ → Bytes → AnnaError → List PutTuple
tuple_unless_error key type' payload error =
    if is_no_error error
    then record { key = key; lattice_type = type'; payload = payload } ∷ []
    else []

module _ {S : Type 0} (serializers : ℕ → Serializer S) where
  -- A key that is not stored is skipped.
  unfoldable pub gossip_key : Bytes → Option KeyProperty → S → List PutTuple × S
  gossip_key key none s = ([], s)
  gossip_key key (some p) s =
      let ((payload, error), s) = process_get (serializers p.type_) key s in
      (tuple_unless_error key p.type_ payload error, s)

  unfoldable pub gossip_keys : List Bytes → StringMap KeyProperty → S → List PutTuple × S
  gossip_keys [] stored_key_map s = ([], s)
  gossip_keys (key ∷ keys) stored_key_map s =
      let (tuples, s) = gossip_key key (find key stored_key_map) s in
      let (more, s) = gossip_keys keys stored_key_map s in (tuples ++ more, s)

  unfoldable pub send_gossip :
      StringMap StringSet → StringMap KeyProperty → S → StringMap (List PutTuple) × S
  send_gossip [] stored_key_map s = ([], s)
  send_gossip ((address, keys) ∷ addr_keyset_map) stored_key_map s =
      let (tuples, s) = gossip_keys keys stored_key_map s in
      let (messages, s) = send_gossip addr_keyset_map stored_key_map s in
      ((address, tuples) ∷ messages, s)

unfoldable pub has_key : Bytes → List PutTuple → Bool
has_key y [] = false
has_key y (t ∷ tuples) = bytes_eq t.key y || has_key y tuples

has_key-append :
    (y : Bytes) (xs ys : List PutTuple) → has_key y (xs ++ ys) ≡ (has_key y xs || has_key y ys)
unfolding has_key
has_key-append y [] ys = refl
has_key-append y (t ∷ xs) ys = ground (arith, has_key-append y xs ys)

module _ {S : Type 0} (serializers : ℕ → Serializer S) where
  gossip_key-other :
      (key y : Bytes) (p : Option KeyProperty) (s : S)
      → bytes_eq key y ≡ false
      → has_key y (gossip_key serializers key p s).0 ≡ false
  unfolding gossip_key has_key tuple_unless_error
  gossip_key-other key y none s h = refl
  gossip_key-other key y (some p) s h =
      elim (Bool-cases (is_no_error (process_get (serializers p.type_) key s).0.1)) [
        | inl e ↦ rw e (ground arith)
        | inr e ↦ rw e refl
      ]

  gossip_keys-absent :
      (keys : List Bytes) (y : Bytes) (stored : StringMap KeyProperty) (s : S)
      → elem y keys ≡ false
      → has_key y (gossip_keys serializers keys stored s).0 ≡ false
  unfolding gossip_keys has_key elem
  gossip_keys-absent [] y stored s h = refl
  gossip_keys-absent (key ∷ keys) y stored s h =
      let (here, s') = gossip_key serializers key (find key stored) s in
      rw
        (
          has_key-append y here (gossip_keys serializers keys stored s').0,
          gossip_key-other key y (find key stored) s (ground arith),
        )
        (gossip_keys-absent keys y stored s' (ground arith))

  -- A message has no key that is not in the set of its address.
  pub send_gossip-absent :
      (addr_keyset_map : StringMap StringSet) (address y : Bytes) (stored : StringMap KeyProperty)
      (s : S)
      → elem y (set_at address addr_keyset_map) ≡ false
      → has_key y (value_or [] (find address (send_gossip serializers addr_keyset_map stored s).0))
        ≡ false
  unfolding send_gossip set_at find value_or has_key
  send_gossip-absent [] address y stored s h = refl
  send_gossip-absent ((a, keys) ∷ rest) address y stored s h =
      elim (Bool-cases (bytes_eq a address)) [
        | inl e ↦ rw e (gossip_keys-absent keys y stored s (ground (arith, e, h)))
        | inr e ↦ rw e (
            send_gossip-absent rest address y stored (gossip_keys serializers keys stored s).1
              (ground (arith, e, h)))
      ]

  -- Whether the serializer of a stored key's type reads the key without an error.
  abbrev pub IsReadable : Bytes → KeyProperty → S → Type 0
  IsReadable y p s = is_no_error (process_get (serializers p.type_) y s).0.1 ≡ true

  module _ (y : Bytes) (p : KeyProperty)
      (stable : (key : Bytes) (type' : ℕ) (s : S)
        → IsReadable y p s
        → IsReadable y p (process_get (serializers type') key s).1) where
    gossip_key-IsReadable :
        (key : Bytes) (o : Option KeyProperty) (s : S)
        → IsReadable y p s
        → IsReadable y p (gossip_key serializers key o s).1
    unfolding gossip_key
    gossip_key-IsReadable key none s h = h
    gossip_key-IsReadable key (some q) s h = stable key q.type_ s h

    gossip_keys-IsReadable :
        (keys : List Bytes) (stored : StringMap KeyProperty) (s : S)
        → IsReadable y p s
        → IsReadable y p (gossip_keys serializers keys stored s).1
    unfolding gossip_keys
    gossip_keys-IsReadable [] stored s h = h
    gossip_keys-IsReadable (key ∷ keys) stored s h =
        gossip_keys-IsReadable keys stored (gossip_key serializers key (find key stored) s).1
          (gossip_key-IsReadable key (find key stored) s h)

    gossip_key-present :
        (o : Option KeyProperty) (s : S)
        → o ≡ some p
        → IsReadable y p s
        → has_key y (gossip_key serializers y o s).0 ≡ true
    unfolding gossip_key has_key tuple_unless_error
    gossip_key-present o s e h = rw (e, h, (bytes_eq_iff y y).1 refl) refl

    gossip_keys-present :
        (keys : List Bytes) (stored : StringMap KeyProperty) (s : S)
        → elem y keys ≡ true
        → find y stored ≡ some p
        → IsReadable y p s
        → has_key y (gossip_keys serializers keys stored s).0 ≡ true
    unfolding gossip_keys has_key elem
    gossip_keys-present [] stored s there known h = absurd (cc)
    gossip_keys-present (key ∷ keys) stored s there known h =
        let (here, s') = gossip_key serializers key (find key stored) s in
        let more = (gossip_keys serializers keys stored s').0 in
        elim (Bool-cases (bytes_eq key y)) [
          | inl e ↦
              let same : key ≡ y = (bytes_eq_iff key y).0 e in
              let first : has_key y here ≡ true =
                subst (λ k. has_key y (gossip_key serializers k (find k stored) s).0 ≡ true)
                  (sym same) (gossip_key-present (find y stored) s known h) in
              rw (has_key-append y here more, first) refl
          | inr e ↦
              has_key-append y here more
              ∙ ap (λ b. has_key y here || b)
                  (gossip_keys-present keys stored s' (ground (arith, there, e)) known
                    (gossip_key-IsReadable key (find key stored) s h))
              ∙ ground arith
        ]

    -- A key that is to be sent to an address, and stored and readable, is in the message to it.
    pub send_gossip-present :
        (addr_keyset_map : StringMap StringSet) (address : Bytes) (stored : StringMap KeyProperty)
        (s : S)
        → elem y (set_at address addr_keyset_map) ≡ true
        → find y stored ≡ some p
        → IsReadable y p s
        → has_key y
            (value_or [] (find address (send_gossip serializers addr_keyset_map stored s).0))
          ≡ true
    unfolding send_gossip set_at find value_or has_key elem
    send_gossip-present [] address stored s there known h = absurd (cc)
    send_gossip-present ((a, keys) ∷ rest) address stored s there known h =
        elim (Bool-cases (bytes_eq a address)) [
          | inl e ↦ rw e (gossip_keys-present keys stored s (ground (arith, e, there)) known h)
          | inr e ↦ rw e (
              send_gossip-present rest address stored (gossip_keys serializers keys stored s).1
                (ground (arith, e, there)) known (gossip_keys-IsReadable keys stored s h))
        ]
