-- ===== src/Dpdk/Ports.antt =====
-- The port table that the processes of src/dpdk share (common.h), and its arrays.
pub use testbed.Prelude.{put}
use testbed.Prelude.{ℕ, zero, suc, ◌≤◌, ◌≡◌, refl, List, [], ◌∷◌, ◌++◌, arith}

-- An array is a function; a write at an index that the source's array does not have is a `fault`.
pub data Outcome {ℓ} (A : Type ℓ) : Type ℓ where
  done : A → Outcome A
  fault : Outcome A
  out_of_fuel : Outcome A

abbrev pub after {ℓ ℓ'} : {A : Type ℓ} {B : Type ℓ'} → Outcome A → (A → Outcome B) → Outcome B
after (done a) f = f a
after fault f = fault
after out_of_fuel f = out_of_fuel

pub after-same {ℓ ℓ'} :
    {A : Type ℓ} {B : Type ℓ'} (o : Outcome A) (f g : A → Outcome B)
    → ((a : A) → f a ≡ g a)
    → after o f ≡ after o g
after-same (done a) f g same = same a
after-same fault f g same = refl
after-same out_of_fuel f g same = refl

pub record RxStats : Type 0 where
  pub rx : ℕ → ℕ

pub record TxStats : Type 0 where
  pub tx : ℕ → ℕ
  pub tx_drop : ℕ → ℕ

pub record PortInfo : Type 0 where
  pub num_ports : ℕ
  pub id : ℕ → ℕ
  pub rx_stats : RxStats
  pub tx_stats : ℕ → TxStats

abbrev pub max_clients : ℕ
max_clients = 16

-- The first `n` entries of an array.
unfoldable pub entries : ℕ → (ℕ → ℕ) → List ℕ
entries zero f = []
entries (suc n) f = entries n f ++ (f n ∷ [])

entries-put_above : (n i x : ℕ) (f : ℕ → ℕ) → n ≤ i → entries n (put i x f) ≡ entries n f
unfolding entries
entries-put_above zero i x f le = refl
entries-put_above (suc n) i x f le =
    let there : put i x f n ≡ f n = ground arith in
    rw (entries-put_above n i x f (omega arith), there) refl

pub entries-put : (n x : ℕ) (f : ℕ → ℕ) → entries (suc n) (put n x f) ≡ entries n f ++ (x ∷ [])
unfolding entries
entries-put n x f =
    let there : put n x f n ≡ x = ground arith in
    rw (entries-put_above n n x f (omega arith), there) refl
