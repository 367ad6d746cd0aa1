-- ===== src/Com/Table.antt =====
-- The hash table of src/com/assoc.h. It is the vendored src/com/libcuckoo, and enters as a parameter with the
-- documented behaviour of `insert_or_assign` and `find`.
use testbed.Prelude.{◌≡◌, Option, some, Bytes, bytes_eq, if◌then◌else◌}

pub record HashTable : Type 1 where
  pub Table : Type 0
  pub insert_or_assign : Bytes → Bytes → Table → Table
  pub find : Bytes → Table → Option Bytes
  pub find-insert_or_assign :
      (k j v : Bytes) (t : Table)
      → find j (insert_or_assign k v t) ≡ (if bytes_eq k j then some v else find j t)
