-- ===== src/Anna/Lattice/Causal/Laws.antt =====
-- The merges of SingleKeyCausalLattice and MultiKeyCausalLattice.
use testbed.Prelude.{◌≡◌, Bytes, arith, Bool-cases}
use testbed.Anna.Lattice.Interface.{Lattice}
use testbed.Anna.Lattice.MapLattice.{find, map_do_merge}
use testbed.Anna.Lattice.MapLattice.Laws.{IsKeyed, joined, find-map_do_merge}
use testbed.Anna.Lattice.Causal.{
  clock_eq, max_lattice, VectorClockValuePair, single_do_merge, MultiKeyCausalPayload,
  multi_do_merge,
}

single_do_merge-clock :
    {T : Type 0} (l : Lattice T) (element p : VectorClockValuePair T)
    → (single_do_merge l element p).vector_clock
      ≡ map_do_merge max_lattice element.vector_clock p.vector_clock
unfolding single_do_merge
single_do_merge-clock l element p = ground (
  arith,
  Bool-cases
      (clock_eq (map_do_merge max_lattice element.vector_clock p.vector_clock) p.vector_clock),
)

-- Whichever version dominates, the clock that is kept has at every key the two counters merged, if the
-- incoming clock has distinct keys.
pub find-single_do_merge :
    {T : Type 0} (l : Lattice T) (element p : VectorClockValuePair T) (k : Bytes)
    → IsKeyed p.vector_clock
    → find k (single_do_merge l element p).vector_clock
      ≡ joined max_lattice (find k element.vector_clock) (find k p.vector_clock)
find-single_do_merge l element p k d =
    rw (single_do_merge-clock l element p)
      (find-map_do_merge max_lattice element.vector_clock p.vector_clock k d)

unfoldable pub forget : {T : Type 0} → MultiKeyCausalPayload T → VectorClockValuePair T
forget p = record { vector_clock = p.vector_clock; value = p.value }

-- But for the dependencies, the multi-key causal lattice merges as the single-key one does.
pub forget-multi_do_merge :
    {T : Type 0} (l : Lattice T) (element p : MultiKeyCausalPayload T)
    → forget (multi_do_merge l element p) ≡ single_do_merge l (forget element) (forget p)
unfolding forget multi_do_merge single_do_merge
forget-multi_do_merge l element p = ground arith
