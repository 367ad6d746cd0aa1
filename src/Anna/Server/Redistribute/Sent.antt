-- ===== src/Anna/Server/Redistribute/Sent.antt =====
-- What one pass of the redistribution in src/dist/anna/src/kvs/server.cpp sends to an address.
use testbed.Prelude.{
  ℕ, suc, ◌-◌, ◌<◌, ◌≡◌, refl, sym, ap, ◌∙◌, Bool, false, ◌||◌, List, [], ◌∷◌, Bytes, bytes_eq,
  bytes_eq_iff, length, take, take-nil, leb, Bool-cases, inl, inr, arith,
}
use testbed.Anna.Lattice.SetLattice.{StringSet, elem, set_insert}
use testbed.Anna.Lattice.SetLattice.Laws.{IsDistinct, elem-insert}
use testbed.Anna.Lattice.MapLattice.{StringMap}
use testbed.Anna.Server.Maps.{change, set_at, set_at-change}
use testbed.Anna.Server.Redistribute.{send_keys}

-- No key of the list has been sent.
abbrev pub IsFresh : List Bytes → StringSet → Type 0
IsFresh [] sent = Unit
IsFresh (k ∷ keys) sent = (elem k sent ≡ false) × IsFresh keys sent

bytes_eq_comm : (x y : Bytes) → bytes_eq x y ≡ bytes_eq y x
bytes_eq_comm x y = elim (Bool-cases (bytes_eq x y)) [
  | inl e ↦ e ∙ sym ((bytes_eq_iff y x).1 (sym ((bytes_eq_iff x y).0 e)))
  | inr e ↦ elim (Bool-cases (bytes_eq y x)) [
    | inl q ↦ (bytes_eq_iff x y).1 (sym ((bytes_eq_iff y x).0 q)) ∙ sym q
    | inr q ↦ e ∙ sym q
  ]
]

IsFresh-cons :
    (keys : List Bytes) (k : Bytes) (sent : StringSet)
    → elem k keys ≡ false
    → IsFresh keys sent
    → IsFresh keys (k ∷ sent)
unfolding elem
IsFresh-cons [] k sent d f = tt
IsFresh-cons (j ∷ keys) k sent d f =
    (ground (arith, d, f.0, bytes_eq_comm j k), IsFresh-cons keys k sent (ground (arith, d)) f.1)

pub IsFresh-nil : (keys : List Bytes) → IsFresh keys []
unfolding elem
IsFresh-nil [] = tt
IsFresh-nil (k ∷ keys) = (refl, IsFresh-nil keys)

set_at-change_insert :
    (a y k : Bytes) (m : StringMap StringSet)
    → elem y (set_at a (change a (set_insert k) m)) ≡ (bytes_eq k y || elem y (set_at a m))
set_at-change_insert a y k m =
    rw (set_at-change a a (set_insert k) m, (bytes_eq_iff a a).1 refl)
      (elem-insert k y (set_at a m))

pub elem-nil_or : (y : Bytes) (b : Bool) → b ≡ (elem y [] || b)
unfolding elem
elem-nil_or y b = ground arith

elem-take_one :
    (y k : Bytes) (keys : List Bytes) (n : ℕ) → n ≡ 1 → elem y (take n (k ∷ keys)) ≡ bytes_eq k y
unfolding elem
elem-take_one y k keys n e = rw e (ground arith)

elem-take_more :
    (y k : Bytes) (keys : List Bytes) (n m : ℕ)
    → n ≡ suc m
    → elem y (take n (k ∷ keys)) ≡ (bytes_eq k y || elem y (take m keys))
unfolding elem
elem-take_more y k keys n m e = rw e refl

set_insert_new : (k : Bytes) (sent : StringSet) → elem k sent ≡ false → set_insert k sent ≡ k ∷ sent
unfolding set_insert
set_insert_new k sent h = rw h refl

elem-cons : (y k : Bytes) (s : StringSet) → elem y (k ∷ s) ≡ (bytes_eq k y || elem y s)
unfolding elem
elem-cons y k s = refl

or-swap : (a b c : Bool) → (a || (b || c)) ≡ ((b || a) || c)
or-swap a b c = ground arith

-- Of different keys, none of them sent, as many are sent as there is room for.
send_keys-take :
    (threshold : ℕ) (address : Bytes) (keys : List Bytes) (sent : StringSet)
    (m : StringMap StringSet)
    → IsDistinct keys
    → IsFresh keys sent
    → length sent < threshold
    → (y : Bytes)
    → (let (sent', m') = send_keys threshold address keys sent m in
        let now = elem y (take (threshold - length sent) keys) in
        (elem y sent' ≡ (now || elem y sent))
        × (elem y (set_at address m') ≡ (now || elem y (set_at address m))))
unfolding send_keys
send_keys-take t a [] sent m d f h y =
    rw (take-nil (t - length sent))
      (elem-nil_or y (elem y sent), elem-nil_or y (elem y (set_at a m)))
send_keys-take t a (k ∷ keys) sent m d f h y =
    rw (set_insert_new k sent f.0) (elim (Bool-cases (leb t (suc (length sent)))) [
      | inl full ↦
          rw (full, elem-take_one y k keys (t - length sent) (ground (arith, full, h)))
            (elem-cons y k sent, set_at-change_insert a y k m)
      | inr room ↦
          let (ih, ihm) =
            send_keys-take t a keys (k ∷ sent) (change a (set_insert k) m) d.1
              (IsFresh-cons keys k sent d.0 f.1) (ground (arith, room)) y in
          let now = elem y (take (t - suc (length sent)) keys) in
          rw
            (
              room,
              elem-take_more y k keys (t - length sent) (t - suc (length sent))
                  (ground (arith, room, h)),
            )
            (
              ih ∙ rw (elem-cons y k sent) (or-swap now (bytes_eq k y) (elem y sent)),
              ihm
                  ∙ rw (set_at-change_insert a y k m)
                      (or-swap now (bytes_eq k y) (elem y (set_at a m))),
            )
    ])

pub send_keys-other :
    (threshold : ℕ) (address other : Bytes) (keys : List Bytes) (sent : StringSet)
    (m : StringMap StringSet)
    → bytes_eq address other ≡ false
    → set_at other (send_keys threshold address keys sent m).1 ≡ set_at other m
unfolding send_keys
send_keys-other t a o [] sent m h = refl
send_keys-other t a o (k ∷ keys) sent m h =
    let kept : set_at o (change a (set_insert k) m) ≡ set_at o m =
      rw (set_at-change a o (set_insert k) m, h) refl in
    elim (Bool-cases (leb t (length (set_insert k sent)))) [
      | inl full ↦ rw full kept
      | inr room ↦
          rw room
            (send_keys-other t a o keys (set_insert k sent) (change a (set_insert k) m) h ∙ kept)
    ]

-- With nothing sent yet.
pub send_keys-first :
    (threshold : ℕ) (address : Bytes) (keys : List Bytes) (m : StringMap StringSet)
    → IsDistinct keys
    → 0 < threshold
    → (y : Bytes)
    → (let (sent', m') = send_keys threshold address keys [] m in
        (elem y sent' ≡ elem y (take threshold keys))
        × (elem y (set_at address m')
            ≡ (elem y (take threshold keys) || elem y (set_at address m))))
unfolding elem
send_keys-first t a keys m d h y =
    let (sends, adds) = send_keys-take t a keys [] m d (IsFresh-nil keys) (omega arith) y in
    let all_room : t - length {A = Bytes} [] ≡ t = omega arith in
    let early = ap (λ (n : ℕ). elem y (take n keys)) all_room in
    (ground (arith, sends, early), ground (arith, adds, early))
