-- ===== src/Utils/Tracer/Split.antt =====
-- `supersplit` of src/utils/tracer.h on a line of words and a rest.
use testbed.Prelude.{
  ℕ, zero, suc, ◌+◌, ◌<◌, ◌≤◌, ◌≡◌, refl, ap, ◌∙◌, true, false, some, none, List, [], ◌∷◌, ◌++◌,
  Bytes, length, length-append, ◌==◌, arith, Option-cases, inl, inr,
}
use testbed.Utils.Tracer.{break_on, last_field, split_loop, supersplit}

-- A word without the separator.
abbrev pub IsWord : ℕ → Bytes → Type 0
IsWord c [] = Unit
IsWord c (b ∷ s) = ((b == c) ≡ false) × IsWord c s

abbrev pub AreWords : ℕ → List Bytes → Type 0
AreWords c [] = Unit
AreWords c (w ∷ ws) = IsWord c w × AreWords c ws

-- The words, each before a separator, and then the rest.
unfoldable pub line_of : ℕ → List Bytes → Bytes → Bytes
line_of c [] t = t
line_of c (w ∷ ws) t = w ++ (c ∷ line_of c ws t)

-- The fields of what is left when the limit is reached: the code adds it again where it has a separator.
unfoldable pub rest_fields : ℕ → Bytes → List Bytes
rest_fields c t = elim (break_on c t) [
  | none ↦ last_field t
  | some (before, after) ↦ t ∷ last_field t
]

break_on-word : (c : ℕ) (w r : Bytes) → IsWord c w → break_on c (w ++ (c ∷ r)) ≡ some (w, r)
unfolding break_on
break_on-word c [] r f = ground arith
break_on-word c (b ∷ w) r f = rw (f.0, break_on-word c w r f.1) refl

==_refl : (n : ℕ) → (n == n) ≡ true
==_refl n = ground arith

split_loop-limit : (fuel c n : ℕ) (t : Bytes) → split_loop (suc fuel) c n n t ≡ rest_fields c t
unfolding split_loop rest_fields
split_loop-limit fuel c n t = elim (Option-cases (break_on c t)) [
  | inl e ↦ ground (arith, e)
  | inr ((before, after), e) ↦ ground (arith, e, ==_refl n)
]

split_loop-next :
    (fuel c n found : ℕ) (w r s : Bytes)
    → break_on c s ≡ some (w, r)
    → (found == n) ≡ false
    → split_loop (suc fuel) c n found s ≡ w ∷ split_loop fuel c n (suc found) r
unfolding split_loop
split_loop-next fuel c n found w r s e before = ground arith

split_loop-line :
    (fuel c n found : ℕ) (ws : List Bytes) (t : Bytes)
    → AreWords c ws
    → length ws < fuel
    → found + length ws ≡ n
    → split_loop fuel c n found (line_of c ws t) ≡ ws ++ rest_fields c t
unfolding split_loop line_of
split_loop-line zero c n found ws t f lt e = absurd (omega arith)
split_loop-line (suc fuel) c n found [] t f lt e =
    let same : found ≡ n = omega arith in rw same (split_loop-limit fuel c n t)
split_loop-line (suc fuel) c n found (w ∷ ws) t f lt e =
    let before : (found == n) ≡ false = ground arith in
    split_loop-next fuel c n found w (line_of c ws t) (w ++ (c ∷ line_of c ws t))
      (break_on-word c w (line_of c ws t) f.0) before
    ∙ ap (λ fields. w ∷ fields)
        (split_loop-line fuel c n (suc found) ws t f.1 (omega arith) (omega arith))

length-line_of : (c : ℕ) (ws : List Bytes) (t : Bytes) → length ws ≤ length (line_of c ws t)
unfolding line_of
length-line_of c [] t = omega arith
length-line_of c (w ∷ ws) t =
    let rest = length-line_of c ws t in
    let whole = length-append w (c ∷ line_of c ws t) in omega (arith, rest, whole)

-- A line of `n` words and a rest is split into these words and the rest, which stands twice in the
-- result where it contains a separator.
pub supersplit-line_of :
    (c : ℕ) (ws : List Bytes) (t : Bytes)
    → AreWords c ws
    → supersplit (line_of c ws t) c (length ws) ≡ ws ++ rest_fields c t
unfolding supersplit
supersplit-line_of c ws t f =
    let enough = length-line_of c ws t in
    split_loop-line (suc (length (line_of c ws t))) c (length ws) 0 ws t f (omega (arith, enough))
      (omega arith)
