-- ===== src/Anna/Kvs/Requests.antt =====
-- process_put and process_get of src/dist/anna/src/kvs/utils.cpp over the memory serializers.
use testbed.Prelude.{
  ℕ, ◌≡◌, refl, Bool, false, some, none, Bytes, bytes_eq_iff, if◌then◌else◌, arith, [], ◌∷◌,
}
use testbed.Anna.Lattice.Interface.{Lattice}
use testbed.Anna.Lattice.SetLattice.{StringSet, set_size}
use testbed.Anna.Lattice.MapLattice.{StringMap, find, contains, at}
use testbed.Anna.Lattice.MapLattice.Laws.{missing}
use testbed.Anna.Kvs.{
  AnnaError, KeyProperty, set_lattice, kvs_put, kvs_size, memory_get, memory_put, memory_serializer,
  set_is_empty, set_serializer, ordered_set_serializer, process_get, process_put,
}
use testbed.Anna.Kvs.Store.{value_or, find-kvs_put, kvs_get-there, kvs_get-missing, find-cons}

module _ {ℓ} {V : Type ℓ} (l : Lattice V) where
  kvs_size-there :
      (size : V → ℕ) (k : Bytes) (a : V) (db : StringMap V)
      → find k db ≡ some a
      → kvs_size l size k db ≡ (size a, db)
  unfolding kvs_size at
  kvs_size-there size k a db n = ground arith

  put-find :
      (k : Bytes) (v : V) (db : StringMap V)
      → find k (kvs_put l k v db) ≡ some (l.merge (value_or l.bottom (find k db)) v)
  put-find k v db = rw (find-kvs_put l k k v db, (bytes_eq_iff k k).1 refl) refl

  pub memory_put-kvs_put :
      (size : V → ℕ) (deserialize : Bytes → V) (k payload : Bytes) (db : StringMap V)
      → memory_put l size deserialize k payload db ≡ (
        size (l.merge (value_or l.bottom (find k db)) (deserialize payload)),
        kvs_put l k (deserialize payload) db,
      )
  unfolding memory_put
  memory_put-kvs_put size deserialize k payload db =
      kvs_size-there size k (l.merge (value_or l.bottom (find k db)) (deserialize payload))
        (kvs_put l k (deserialize payload) db) (put-find k (deserialize payload) db)

  pub memory_get-there :
      (is_empty : V → Bool) (serialize : V → Bytes) (k : Bytes) (a : V) (db : StringMap V)
      → find k db ≡ some a
      → memory_get l is_empty serialize k AnnaError.no_error db
        ≡ ((serialize a, if is_empty a then AnnaError.key_dne else AnnaError.no_error), db)
  unfolding memory_get
  memory_get-there is_empty serialize k a db n =
      rw (kvs_get-there l k a AnnaError.no_error db n) refl

  memory_get-missing :
      (is_empty : V → Bool) (serialize : V → Bytes) (k : Bytes) (db : StringMap V)
      → find k db ≡ none
      → memory_get l is_empty serialize k AnnaError.no_error db
        ≡ ((serialize l.bottom, AnnaError.key_dne), (k, l.bottom) ∷ db)
  unfolding memory_get
  memory_get-missing is_empty serialize k db n =
      rw (kvs_get-missing l k AnnaError.no_error db n) ground arith

module _ {ℓ} {V : Type ℓ} (l : Lattice V) (is_empty : V → Bool) (size : V → ℕ)
    (serialize : V → Bytes) (deserialize : Bytes → V)
    (deserialize-serialize : (v : V) → deserialize (serialize v) ≡ v) where
  -- In a memory serializer whose `deserialize` inverts `serialize`, a put of a serialized value and then
  -- a get of the key: the get returns the value merged into what was there, the default value if
  -- nothing, reports key_dne exactly when the test takes what it returns for empty, and the get
  -- changes nothing.
  pub process_put-process_get :
      (key : Bytes) (lattice_type : ℕ) (v : V) (kvs : StringMap V)
      (stored_key_map : StringMap KeyProperty)
      → let serializer = memory_serializer l is_empty size serialize deserialize in
        let after = process_put serializer key lattice_type (serialize v) kvs stored_key_map in
        let kept = l.merge (value_or l.bottom (find key kvs)) v in
        process_get serializer key after.0 ≡ (
          (serialize kept, if is_empty kept then AnnaError.key_dne else AnnaError.no_error),
          after.0,
        )
  unfolding process_put process_get memory_serializer
  process_put-process_get key lattice_type v kvs stored_key_map =
      rw (memory_put-kvs_put l size deserialize key (serialize v) kvs, deserialize-serialize v)
        (memory_get-there l is_empty serialize key (l.merge (value_or l.bottom (find key kvs)) v)
          (kvs_put l key v kvs) (put-find l key v kvs))

-- Of a key that is missing, the set serializer reports key_dne at every get, and the ordered set's only
-- at the first: that one stored the empty set under the key.
pub process_get-missing_sets :
    (serialize : StringSet → Bytes) (deserialize : Bytes → StringSet) (key : Bytes)
    (kvs : StringMap StringSet)
    → contains key kvs ≡ false
    → let sets = set_serializer serialize deserialize in
      let ordered_sets = ordered_set_serializer serialize deserialize in
      (((process_get sets key kvs).0.1 ≡ AnnaError.key_dne)
        × ((process_get sets key (process_get sets key kvs).1).0.1 ≡ AnnaError.key_dne))
      × (((process_get ordered_sets key kvs).0.1 ≡ AnnaError.key_dne)
          × ((process_get ordered_sets key (process_get ordered_sets key kvs).1).0.1
              ≡ AnnaError.no_error))
unfolding process_get memory_serializer set_serializer ordered_set_serializer set_is_empty set_size
process_get-missing_sets serialize deserialize key kvs h =
    let n = missing key kvs h in
    let stored = find-cons key set_lattice.bottom kvs in
    let again = (key, set_lattice.bottom) ∷ kvs in
    rw
      (
        memory_get-missing set_lattice set_is_empty serialize key kvs n,
        memory_get-missing set_lattice (λ val. false) serialize key kvs n,
        memory_get-there set_lattice set_is_empty serialize key [] again stored,
        memory_get-there set_lattice (λ val. false) serialize key [] again stored,
      )
      ((refl, refl), (refl, refl))
