-- ===== src/Anna/Lattice/Scalars.antt =====
-- BoolLattice, MaxLattice, LWWPairLattice and PriorityLattice of src/dist/anna/common/include/lattices: values that
-- are replaced as a whole.
pub mod Laws
use testbed.Prelude.{ℕ, ◌+◌, ◌-◌, ◌%◌, Bool, ◌||◌, ltb, leb, if◌then◌else◌}

unfoldable pub bool_do_merge : Bool → Bool → Bool
bool_do_merge element e = element || e

abbrev pub u32_mod : ℕ
u32_mod = 4294967296

-- MaxLattice<unsigned>. The element goes through `int current`, and the comparison takes it back to
-- `unsigned`: both keep its 32 bits.
unfoldable pub max_do_merge : ℕ → ℕ → ℕ
max_do_merge element e = let current = element % u32_mod in if ltb current e then e else element

unfoldable pub max_add : ℕ → ℕ → ℕ
max_add element n = (element + n) % u32_mod

unfoldable pub max_subtract : ℕ → ℕ → ℕ
max_subtract element n = (element + u32_mod - n) % u32_mod

pub record TimestampValuePair {ℓ} (T : Type ℓ) : Type ℓ where
  pub timestamp : ℕ
  pub value : T

-- LWWPairLattice: the later timestamp wins, and of two equal ones the one that comes in.
unfoldable pub lww_do_merge {ℓ} :
    {T : Type ℓ} → TimestampValuePair T → TimestampValuePair T → TimestampValuePair T
lww_do_merge element p = if leb element.timestamp p.timestamp then p else element

pub record PriorityValuePair {ℓ κ} (P : Type ℓ) (V : Type κ) : Type (ℓ ⊔ κ) where
  pub priority : P
  pub value : V

-- PriorityLattice, over the comparison that it is given: the lesser priority wins, and of two that do
-- not differ the one that is there.
unfoldable pub priority_do_merge {ℓ κ} :
    {P : Type ℓ} {V : Type κ}
    → (P → P → Bool)
    → PriorityValuePair P V
    → PriorityValuePair P V
    → PriorityValuePair P V
priority_do_merge compare_ element p = if compare_ p.priority element.priority then p else element
