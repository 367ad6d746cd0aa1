-- ===== src/Memcached/Shares.antt =====
-- A list that is shared out by ascending bounds.
use testbed.Prelude.{
  ℕ, zero, suc, ◌+◌, ◌-◌, ◌≤◌, ◌<◌, ◌≡◌, refl, sym, ap, ◌∙◌, List, [], ◌++◌, take, drop, take_add,
  arith,
}

module _ {ℓ} {B : Type ℓ} (bound : ℕ → ℕ) where
  -- What lies between two neighbouring bounds.
  abbrev pub share : ℕ → List B → List B
  share t xs = take (bound (suc t) - bound t) (drop (bound t) xs)

  -- The first `n` shares, one after the other.
  abbrev pub shares : ℕ → List B → List B
  shares zero xs = []
  shares (suc t) xs = shares t xs ++ share t xs

  pub shares-take :
      (n : ℕ) (xs : List B)
      → bound 0 ≡ 0
      → ((t : ℕ) → t < n → bound t ≤ bound (suc t))
      → shares n xs ≡ take (bound n) xs
  shares-take zero xs z up = rw z refl
  shares-take (suc n) xs z up =
      let upper : bound n + (bound (suc n) - bound n) ≡ bound (suc n) =
        omega (arith, up n (omega arith)) in
      rw (shares-take n xs z (λ t lt. up t (omega arith)))
        (sym (take_add (bound n) (bound (suc n) - bound n) xs) ∙ ap (λ (k : ℕ). take k xs) upper)
