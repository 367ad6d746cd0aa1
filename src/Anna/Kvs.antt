-- ===== src/Anna/Kvs.antt =====
-- The in-memory store of a server thread: KVStore of src/dist/anna/include/kvs/base_kv_store.hpp, the
-- serializers of src/dist/anna/include/kvs/server_utils.hpp, and process_get and process_put of
-- src/dist/anna/src/kvs/utils.cpp. Protocol buffers are a parameter: `serialize` and `deserialize`.
pub mod Store
pub mod Sets
pub mod Requests
use testbed.Prelude.{
  ℕ, zero, suc, ◌+◌, ◌%◌, Bool, true, false, Option, some, none, List, [], ◌∷◌, Bytes, bytes_eq,
  length, if◌then◌else◌, ◌==◌,
}
use testbed.Anna.Lattice.Interface.{Lattice}
use testbed.Anna.Lattice.Scalars.{
  u32_mod, TimestampValuePair, lww_do_merge, PriorityValuePair, priority_do_merge,
}
use testbed.Anna.Lattice.Causal.{
  VectorClockValuePair, MultiKeyCausalPayload, single_do_merge, single_size, multi_do_merge,
  multi_size,
}
use testbed.Anna.Lattice.SetLattice.{StringSet, set_do_merge, set_size}
use testbed.Anna.Lattice.MapLattice.{StringMap, find, contains, update, at, map_remove}

pub data AnnaError : Type 0 where
  no_error : AnnaError
  key_dne : AnnaError
  wrong_thread : AnnaError
  timeout : AnnaError
  lattice_error : AnnaError
  no_servers : AnnaError

-- `V get(k, error)`: the value, the error afterwards and the store afterwards.
unfoldable pub kvs_get {ℓ} :
    {V : Type ℓ} → Lattice V → Bytes → AnnaError → StringMap V → (V × AnnaError) × StringMap V
kvs_get l k error db =
    let error = if contains k db then error else AnnaError.key_dne in
    let (v, db) = at l k db in ((v, error), db)

unfoldable pub kvs_put {ℓ} : {V : Type ℓ} → Lattice V → Bytes → V → StringMap V → StringMap V
kvs_put l k v db = let (there, db) = at l k db in update k (λ element. l.merge element v) db

unfoldable pub kvs_size {ℓ} :
    {V : Type ℓ} → Lattice V → (V → ℕ) → Bytes → StringMap V → ℕ × StringMap V
kvs_size l size k db = let (v, db) = at l k db in (size v, db)

unfoldable pub kvs_remove {ℓ} : {V : Type ℓ} → Bytes → StringMap V → StringMap V
kvs_remove k db = map_remove k db

abbrev pub lww_lattice : Lattice (TimestampValuePair Bytes)
lww_lattice = record { bottom = record { timestamp = 0; value = [] }; merge = lww_do_merge }

abbrev pub set_lattice : Lattice StringSet
set_lattice = record { bottom = []; merge = set_do_merge }

-- The class Serializer, over the state that its implementation keeps.
pub record Serializer {ℓ} (S : Type ℓ) : Type ℓ where
  pub get : Bytes → AnnaError → S → (Bytes × AnnaError) × S
  pub put : Bytes → Bytes → S → ℕ × S
  pub remove : Bytes → S → S

-- `put` and `remove` are the same in every memory serializer, and `get` differs in which values it
-- takes for a missing key.
unfoldable pub memory_get {ℓ} :
    {V : Type ℓ}
    → Lattice V
    → (V → Bool)
    → (V → Bytes)
    → Bytes
    → AnnaError
    → StringMap V
    → (Bytes × AnnaError) × StringMap V
memory_get l is_empty serialize key error kvs =
    let ((val, error), kvs) = kvs_get l key error kvs in
    let error = if is_empty val then AnnaError.key_dne else error in ((serialize val, error), kvs)

unfoldable pub memory_put {ℓ} :
    {V : Type ℓ} → Lattice V → (V → ℕ) → (Bytes → V) → Bytes → Bytes → StringMap V → ℕ × StringMap V
memory_put l size deserialize key serialized kvs =
    let val = deserialize serialized in kvs_size l size key (kvs_put l key val kvs)

-- The memory serializers, over the default value and the merge of their values, the test that `get`
-- has, the size that `put` returns, and the two conversions.
unfoldable pub memory_serializer {ℓ} :
    {V : Type ℓ}
    → Lattice V
    → (V → Bool)
    → (V → ℕ)
    → (V → Bytes)
    → (Bytes → V)
    → Serializer (StringMap V)
memory_serializer l is_empty size serialize deserialize = record {
  get = memory_get l is_empty serialize;
  put = memory_put l size deserialize;
  remove = kvs_remove;
}

-- `value == ""`.
unfoldable pub lww_is_empty : TimestampValuePair Bytes → Bool
lww_is_empty p = bytes_eq p.value []

unfoldable pub lww_size : TimestampValuePair Bytes → ℕ
lww_size p = (length p.value + 8) % u32_mod

unfoldable pub lww_serializer :
    (TimestampValuePair Bytes → Bytes)
    → (Bytes → TimestampValuePair Bytes)
    → Serializer (StringMap (TimestampValuePair Bytes))
lww_serializer serialize deserialize =
    memory_serializer lww_lattice lww_is_empty lww_size serialize deserialize

unfoldable pub set_is_empty : StringSet → Bool
set_is_empty s = set_size s == 0

unfoldable pub set_serializer :
    (StringSet → Bytes) → (Bytes → StringSet) → Serializer (StringMap StringSet)
set_serializer serialize deserialize =
    memory_serializer set_lattice set_is_empty set_size serialize deserialize

-- Its `get` has no test of the value.
unfoldable pub ordered_set_serializer :
    (StringSet → Bytes) → (Bytes → StringSet) → Serializer (StringMap StringSet)
ordered_set_serializer serialize deserialize =
    memory_serializer set_lattice (λ val. false) set_size serialize deserialize

abbrev pub single_lattice : Lattice (VectorClockValuePair StringSet)
single_lattice = record {
  bottom = record { vector_clock = []; value = [] };
  merge = single_do_merge set_lattice;
}

unfoldable pub single_key_causal_serializer :
    (VectorClockValuePair StringSet → Bytes)
    → (Bytes → VectorClockValuePair StringSet)
    → Serializer (StringMap (VectorClockValuePair StringSet))
single_key_causal_serializer serialize deserialize =
    memory_serializer single_lattice (λ val. set_is_empty val.value) (single_size set_size)
      serialize deserialize

abbrev pub multi_lattice : Lattice (MultiKeyCausalPayload StringSet)
multi_lattice = record {
  bottom = record { vector_clock = []; dependencies = []; value = [] };
  merge = multi_do_merge set_lattice;
}

unfoldable pub multi_key_causal_serializer :
    (MultiKeyCausalPayload StringSet → Bytes)
    → (Bytes → MultiKeyCausalPayload StringSet)
    → Serializer (StringMap (MultiKeyCausalPayload StringSet))
multi_key_causal_serializer serialize deserialize =
    memory_serializer multi_lattice (λ val. set_is_empty val.value) (multi_size set_size) serialize
      deserialize

-- Over the type of priorities, `double`, its comparison and its INT_MAX.
unfoldable pub priority_serializer :
    {P : Type 0}
    → (P → P → Bool)
    → P
    → (PriorityValuePair P Bytes → Bytes)
    → (Bytes → PriorityValuePair P Bytes)
    → Serializer (StringMap (PriorityValuePair P Bytes))
priority_serializer compare_ int_max serialize deserialize =
    memory_serializer
      (record {
        bottom = record { priority = int_max; value = [] };
        merge = priority_do_merge compare_;
      })
      (λ val. bytes_eq val.value []) (λ val. (8 + length val.value) % u32_mod) serialize deserialize

unfoldable pub process_get {ℓ} : {S : Type ℓ} → Serializer S → Bytes → S → (Bytes × AnnaError) × S
process_get serializer key s = serializer.get key AnnaError.no_error s

-- The fields of KeyProperty, with the lattice type as the number of its enumerator.
pub record KeyProperty : Type 0 where
  pub size_ : ℕ
  pub type_ : ℕ

unfoldable pub set_property : Bytes → KeyProperty → StringMap KeyProperty → StringMap KeyProperty
set_property key p stored_key_map =
    if contains key stored_key_map
    then update key (λ old. p) stored_key_map
    else (key, p) ∷ stored_key_map

unfoldable pub process_put {ℓ} :
    {S : Type ℓ}
    → Serializer S
    → Bytes
    → ℕ
    → Bytes
    → S
    → StringMap KeyProperty
    → S × StringMap KeyProperty
process_put serializer key lattice_type payload s stored_key_map =
    let (size, s) = serializer.put key payload s in
    (s, set_property key (record { size_ = size; type_ = lattice_type }) stored_key_map)
