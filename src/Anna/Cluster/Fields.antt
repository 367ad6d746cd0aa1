-- ===== src/Anna/Cluster/Fields.antt =====
-- A message of fields is split into its fields, by `split` of src/dist/anna/common/include/common.hpp.
use testbed.Prelude.{
  ℕ, ◌≡◌, ◌≢◌, refl, sym, ap, ◌∙◌, true, false, List, [], ◌∷◌, ◌++◌, append-nil, append_assoc,
  Bytes, ◌==◌, arith,
}
use testbed.Anna.Metadata.{split}
use testbed.Anna.Cluster.{parted}

-- The character is not in the field.
abbrev pub IsFree : ℕ → Bytes → Type 0
IsFree delim [] = Unit
IsFree delim (c ∷ field) = ((c == delim) ≡ false) × IsFree delim field

abbrev pub AreFree : ℕ → List Bytes → Type 0
AreFree delim [] = Unit
AreFree delim (field ∷ fields) = IsFree delim field × AreFree delim fields

-- The last field is not empty, since an empty one at the end is no item.
abbrev pub EndsFilled : Bytes → List Bytes → Type 0
EndsFilled first [] = first ≢ []
EndsFilled first (field ∷ fields) = EndsFilled field fields

pub split_item :
    (delim : ℕ) (field rest item : Bytes)
    → IsFree delim field
    → split (field ++ (delim ∷ rest)) delim item ≡ (item ++ field) ∷ split rest delim []
unfolding split
split_item delim [] rest item h =
    let this : (delim == delim) ≡ true = ground arith in
    rw this (ap (λ i. i ∷ split rest delim []) (sym (append-nil item)))
split_item delim (c ∷ field) rest item h = rw h.0 (
    split_item delim field rest (item ++ (c ∷ [])) h.1
    ∙ ap (λ i. i ∷ split rest delim []) (append_assoc item (c ∷ []) field))

pub split_last :
    (delim : ℕ) (field item : Bytes)
    → IsFree delim field
    → item ++ field ≢ []
    → split field delim item ≡ (item ++ field) ∷ []
unfolding split
split_last delim [] [] h n = absurd (n refl)
split_last delim [] (c ∷ item) h n = ap (λ i. (c ∷ i) ∷ []) (sym (append-nil item))
split_last delim (c ∷ field) item h n =
    let assoc = append_assoc item (c ∷ []) field in
    rw h.0 (
      split_last delim field (item ++ (c ∷ [])) h.1 (λ e. n (sym assoc ∙ e))
      ∙ ap (λ i. i ∷ []) assoc)

-- A message of fields that do not contain the character between them, the last not empty, is split into
-- these fields.
pub split-parted :
    (delim : ℕ) (first : Bytes) (fields : List Bytes)
    → IsFree delim first
    → AreFree delim fields
    → EndsFilled first fields
    → split (parted delim first fields) delim [] ≡ first ∷ fields
unfolding parted
split-parted delim first [] h hs n = split_last delim first [] h n
split-parted delim first (field ∷ fields) h hs n =
    split_item delim first (parted delim field fields) [] h
    ∙ ap (λ l. first ∷ l) (split-parted delim field fields hs.0 hs.1 n)
