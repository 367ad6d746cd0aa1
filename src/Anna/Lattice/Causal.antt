-- ===== src/Anna/Lattice/Causal.antt =====
-- SingleKeyCausalLattice and MultiKeyCausalLattice of src/dist/anna/common/include/lattices: values with the vector
-- clocks of their writes.
pub mod Laws
use testbed.Prelude.{
  ℕ, Bool, true, false, ◌&&◌, not, Option, some, none, List, [], ◌∷◌, Bytes, length, ◌+◌, ◌*◌, ◌%◌,
  if◌then◌else◌, ◌==◌,
}
use testbed.Anna.Lattice.Interface.{Lattice}
use testbed.Anna.Lattice.Scalars.{u32_mod, max_do_merge}
use testbed.Anna.Lattice.MapLattice.{StringMap, find, map_do_merge, map_size}

abbrev pub max_lattice : Lattice ℕ
max_lattice = record { bottom = 0; merge = max_do_merge }

abbrev pub VectorClock : Type 0
VectorClock = StringMap ℕ

-- Each pair of the first map is in the second.
unfoldable pub clock_within : VectorClock → VectorClock → Bool
clock_within [] rhs = true
clock_within ((k, n) ∷ clock) rhs =
    elim (find k rhs) [ none ↦ false | some m ↦ n == m ] && clock_within clock rhs

-- `operator==` of Lattice, on maps.
unfoldable pub clock_eq : VectorClock → VectorClock → Bool
clock_eq clock rhs = (map_size clock == map_size rhs) && clock_within clock rhs

pub record VectorClockValuePair (T : Type 0) : Type 0 where
  pub vector_clock : VectorClock
  pub value : T

-- The size of a clock in bytes: `size().reveal() * 2 * sizeof(unsigned)`.
unfoldable pub clock_size : VectorClock → ℕ
clock_size clock = map_size clock * 8

unfoldable pub single_size : {T : Type 0} → (T → ℕ) → VectorClockValuePair T → ℕ
single_size size p = (clock_size p.vector_clock + size p.value) % u32_mod

unfoldable pub single_do_merge :
    {T : Type 0}
    → Lattice T
    → VectorClockValuePair T
    → VectorClockValuePair T
    → VectorClockValuePair T
single_do_merge l element p =
    let prev = element.vector_clock in
    let merged = map_do_merge max_lattice element.vector_clock p.vector_clock in
    if clock_eq merged p.vector_clock
    then record { vector_clock = merged; value = p.value }
    else if not (clock_eq merged prev)
    then record { vector_clock = merged; value = l.merge element.value p.value }
    else record { vector_clock = merged; value = element.value }

pub record MultiKeyCausalPayload (T : Type 0) : Type 0 where
  pub vector_clock : VectorClock
  pub dependencies : StringMap VectorClock
  pub value : T

unfoldable pub dependencies_size : StringMap VectorClock → ℕ
dependencies_size [] = 0
dependencies_size ((k, clock) ∷ rest) = length k + clock_size clock + dependencies_size rest

unfoldable pub multi_size : {T : Type 0} → (T → ℕ) → MultiKeyCausalPayload T → ℕ
multi_size size p =
    (clock_size p.vector_clock + dependencies_size p.dependencies + size p.value) % u32_mod

abbrev pub clock_lattice : Lattice VectorClock
clock_lattice = record { bottom = []; merge = map_do_merge max_lattice }

unfoldable pub multi_do_merge :
    {T : Type 0}
    → Lattice T
    → MultiKeyCausalPayload T
    → MultiKeyCausalPayload T
    → MultiKeyCausalPayload T
multi_do_merge l element p =
    let prev = element.vector_clock in
    let merged = map_do_merge max_lattice element.vector_clock p.vector_clock in
    if clock_eq merged p.vector_clock
    then record { vector_clock = merged; dependencies = p.dependencies; value = p.value }
    else if not (clock_eq merged prev)
    then record {
      vector_clock = merged;
      dependencies = map_do_merge clock_lattice element.dependencies p.dependencies;
      value = l.merge element.value p.value;
    }
    else record {
      vector_clock = merged;
      dependencies = element.dependencies;
      value = element.value;
    }
