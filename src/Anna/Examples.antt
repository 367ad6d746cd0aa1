-- ===== src/Anna/Examples.antt =====
-- The theorems about anna at concrete values.
use mathlib.Core.List.{Permᴰ}
use testbed.Prelude.{◌||◌, ◌≡◌, refl, true, false, Bool, [], ◌∷◌, arith, Bytes, bytes_eq}
use testbed.Anna.Lattice.Interface.{Lattice}
use testbed.Anna.Lattice.Scalars.{bool_do_merge}
use testbed.Anna.Lattice.MapLattice.{StringMap, find, contains}
use testbed.Anna.Lattice.MapLattice.Laws.{IsKeyed}
use testbed.Anna.Kvs.Store.{puts}
use testbed.Anna.Kvs.{set_lattice}
use testbed.Anna.Kvs.Sets.{set_of, put_in, puts-sets}
use testbed.Anna.Lattice.SetLattice.{elem}

abbrev bool_lattice : Lattice Bool
bool_lattice = record { bottom = false; merge = bool_do_merge }

abbrev key_a : Bytes
key_a = 97 ∷ []

abbrev key_b : Bytes
key_b = 98 ∷ []

abbrev bools : StringMap Bool
bools = (key_a, false) ∷ []

abbrev more_bools : StringMap Bool
more_bools = (key_a, true) ∷ (key_b, false) ∷ []

bool_comm : (x y : Bool) → bool_do_merge x y ≡ bool_do_merge y x
unfolding bool_do_merge
bool_comm x y = ground arith

bool_assoc :
    (x y z : Bool) → bool_do_merge (bool_do_merge x y) z ≡ bool_do_merge x (bool_do_merge y z)
unfolding bool_do_merge
bool_assoc x y z = ground arith

bools-IsKeyed : IsKeyed bools
unfolding IsKeyed contains find
bools-IsKeyed = (refl, tt)

more_bools-IsKeyed : IsKeyed more_bools
unfolding IsKeyed contains find bytes_eq
more_bools-IsKeyed = (refl, (refl, tt))

-- Two puts in the one order and in the other.
puts-sets_example :
    (elem key_b
        (set_of key_a (puts set_lattice ((key_a, key_b ∷ []) ∷ (key_b, key_a ∷ []) ∷ []) []))
      ≡ elem key_b
          (set_of key_a (puts set_lattice ((key_b, key_a ∷ []) ∷ (key_a, key_b ∷ []) ∷ []) [])))
    × (elem key_b
          (set_of key_a (puts set_lattice ((key_a, key_b ∷ []) ∷ (key_b, key_a ∷ []) ∷ []) []))
        ≡ (elem key_b (set_of key_a [])
            || put_in key_a key_b ((key_a, key_b ∷ []) ∷ (key_b, key_a ∷ []) ∷ [])))
puts-sets_example =
    puts-sets ((key_a, key_b ∷ []) ∷ (key_b, key_a ∷ []) ∷ [])
      ((key_b, key_a ∷ []) ∷ (key_a, key_b ∷ []) ∷ []) [] (Permᴰ.swap refl refl) key_a key_b
