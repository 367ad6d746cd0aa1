-- ===== src/Anna/Monitor/Kept.antt =====
-- What the monitor keeps of keys' replication factors: the first and the last loop of
-- change_replication_factor of src/dist/anna/src/monitor/replication_helpers.cpp.
use testbed.Prelude.{
  ℕ, ◌≡◌, refl, sym, ap, ◌∙◌, subst, Bool, true, false, Option, some, none, List, [], ◌∷◌, Bytes,
  bytes_eq, bytes_eq_iff, if◌then◌else◌, Bool-cases, inl, inr, arith,
}
use testbed.Anna.Lattice.Interface.{Lattice}
use testbed.Anna.Lattice.SetLattice.{elem}
use testbed.Anna.Lattice.MapLattice.{StringMap, find, at, contains}
use testbed.Anna.Kvs.{kvs_put}
use testbed.Anna.Kvs.Store.{value_or, find-kvs_put}
use testbed.Anna.Metadata.{MetadataType, get_data_metadata_key}
use testbed.Anna.Server.Redistribute.{is_empty}
use testbed.Anna.Server.Replication.{KeyReplication, replication_default, change_replication}
use testbed.Anna.Monitor.{restore}
use testbed.Anna.Monitor.Prepare.{
  Preparing, rep_at, same_replication, prepare_change, prepare_changes,
  prepare_metadata_put_request, prepare_metadata_request,
}

abbrev changing : (KeyReplication → KeyReplication) → Lattice KeyReplication
changing f = record { bottom = replication_default.bottom; merge = λ old v. f old }

change_replication_as_put :
    (k : Bytes) (f : KeyReplication → KeyReplication) (m : StringMap KeyReplication)
    → change_replication k f m ≡ kvs_put (changing f) k replication_default.bottom m
unfolding change_replication kvs_put at
change_replication_as_put k f m = refl

pub rep_at-change_replication :
    (k j : Bytes) (f : KeyReplication → KeyReplication) (m : StringMap KeyReplication)
    → rep_at j (change_replication k f m) ≡ (if bytes_eq k j then f (rep_at j m) else rep_at j m)
unfolding rep_at value_or
rep_at-change_replication k j f m =
    rw (change_replication_as_put k f m, find-kvs_put (changing f) k j replication_default.bottom m)
      (by_key (bytes_eq k j))
  where
    by_key :
        (b : Bool)
        → value_or replication_default.bottom
            (if b then some (f (value_or replication_default.bottom (find j m))) else find j m)
          ≡ (if b
              then f (value_or replication_default.bottom (find j m))
              else value_or replication_default.bottom (find j m))
    by_key true = refl
    by_key false = refl

pub rep_at-restore :
    (failed : List Bytes) (orig m : StringMap KeyReplication) (j : Bytes)
    → rep_at j (restore failed orig m) ≡ (if elem j failed then rep_at j orig else rep_at j m)
unfolding restore elem
rep_at-restore [] orig m j = refl
rep_at-restore (k ∷ failed) orig m j = elim (Bool-cases (bytes_eq k j)) [
  | inl e ↦
      rw
        (
          rep_at-restore failed orig (change_replication k (λ old. rep_at k orig) m) j,
          rep_at-change_replication k j (λ old. rep_at k orig) m,
          e,
          sym (ap (λ x. rep_at x orig) ((bytes_eq_iff k j).0 e)),
        )
        (ground arith)
  | inr e ↦
      rw
        (
          rep_at-restore failed orig (change_replication k (λ old. rep_at k orig) m) j,
          rep_at-change_replication k j (λ old. rep_at k orig) m,
          e,
        )
        refl
]

-- No key has two entries.
abbrev pub IsMap : StringMap KeyReplication → Type 0
IsMap [] = Unit
IsMap ((key, rep) ∷ m) = (find key m ≡ none) × IsMap m

-- What a request asks for takes the place of other factors.
unfoldable pub asked : Option KeyReplication → KeyReplication → KeyReplication
asked none old = old
asked (some new_rep) old = if same_replication new_rep old then old else new_rep

-- What is kept of a key's factors for the case that its request fails.
unfoldable pub original : Option KeyReplication → KeyReplication → KeyReplication → KeyReplication
original none old missing = missing
original (some new_rep) old missing = old

module _ (to_string : ℕ → Bytes) (response_address : Bytes) (target_of : Bytes → Bytes)
    (serialize : Bytes → KeyReplication → Bytes) where
  put_request_same :
      (target key value : Bytes) (p : Preparing)
      → (let q = prepare_metadata_put_request to_string response_address target key value p in
          (q.key_replication_map ≡ p.key_replication_map)
          × (q.orig_key_replication_map_info ≡ p.orig_key_replication_map_info))
  unfolding prepare_metadata_put_request prepare_metadata_request
  put_request_same target key value p = elim (Bool-cases (is_empty target)) [
    | inl e ↦ rw e (refl, refl)
    | inr e ↦ elim (Bool-cases (contains target p.addr_request_map)) [
      | inl q ↦ rw (e, q) (refl, refl)
      | inr q ↦ rw (e, q) (refl, refl)
    ]
  ]

  prepare_change-rep_at :
      (key : Bytes) (new_rep : KeyReplication) (p : Preparing) (j : Bytes)
      → (let q = prepare_change to_string response_address target_of serialize key new_rep p in
          (rep_at j q.key_replication_map ≡ (
            if bytes_eq key j
            then asked (some new_rep) (rep_at key p.key_replication_map)
            else rep_at j p.key_replication_map))
          × (rep_at j q.orig_key_replication_map_info ≡ (
              if bytes_eq key j
              then rep_at key p.key_replication_map
              else rep_at j p.orig_key_replication_map_info)))
  unfolding prepare_change asked
  prepare_change-rep_at key new_rep p j =
      let m = p.key_replication_map in
      let there = rep_at key m in
      let orig = p.orig_key_replication_map_info in
      elim (Bool-cases (same_replication new_rep there)) [
        | inl s ↦ rw s (elim (Bool-cases (bytes_eq key j)) [
          | inl e ↦
              rw
                (
                  rep_at-change_replication key j (λ old. old) m,
                  rep_at-change_replication key j (λ old. there) orig,
                  e,
                )
                (sym (ap (λ x. rep_at x m) ((bytes_eq_iff key j).0 e)), refl)
          | inr e ↦
              rw
                (
                  rep_at-change_replication key j (λ old. old) m,
                  rep_at-change_replication key j (λ old. there) orig,
                  e,
                )
                (refl, refl)
        ])
        | inr s ↦
            let changed : Preparing = record p {
              key_replication_map = change_replication key (λ old. new_rep) m;
              orig_key_replication_map_info = change_replication key (λ old. there) orig;
            } in
            let rep_key = get_data_metadata_key key MetadataType.replication in
            let (kept, kept_orig) =
              put_request_same (target_of rep_key) rep_key (serialize key new_rep) changed in
            rw s (
              ap (rep_at j) kept ∙ rep_at-change_replication key j (λ old. new_rep) m,
              ap (rep_at j) kept_orig ∙ rep_at-change_replication key j (λ old. there) orig,
            )
      ]

  pub prepare_changes-rep_at :
      (requests : StringMap KeyReplication) (p : Preparing) (j : Bytes)
      → IsMap requests
      → (let q = prepare_changes to_string response_address target_of serialize requests p in
          (rep_at j q.key_replication_map
            ≡ asked (find j requests) (rep_at j p.key_replication_map))
          × (rep_at j q.orig_key_replication_map_info
              ≡ original
                  (find j requests)
                  (rep_at j p.key_replication_map)
                  (rep_at j p.orig_key_replication_map_info)))
  unfolding prepare_changes find asked original
  prepare_changes-rep_at [] p j h = (refl, refl)
  prepare_changes-rep_at ((key, new_rep) ∷ requests) p j (once, h) =
      let q1 = prepare_change to_string response_address target_of serialize key new_rep p in
      let (now, orig) = prepare_change-rep_at key new_rep p j in
      let (rest, rest_orig) = prepare_changes-rep_at requests q1 j h in
      elim (Bool-cases (bytes_eq key j)) [
        | inl e ↦
            let k : key ≡ j = (bytes_eq_iff key j).0 e in
            let gone : find j requests ≡ none = subst (λ x. find x requests ≡ none) k once in
            rw e (
              rest
                  ∙ ap (λ o. asked o (rep_at j q1.key_replication_map)) gone
                  ∙ now
                  ∙ rw e (ap (λ x. asked (some new_rep) (rep_at x p.key_replication_map)) k),
              rest_orig
                  ∙ ap
                      (λ o.
                        original o (rep_at j q1.key_replication_map)
                          (rep_at j q1.orig_key_replication_map_info))
                      gone
                  ∙ orig
                  ∙ rw e (ap (λ x. rep_at x p.key_replication_map) k),
            )
        | inr e ↦ rw e (
          rest ∙ ap (asked (find j requests)) (now ∙ rw e refl),
          rest_orig
              ∙ ap (λ x. original (find j requests) x (rep_at j q1.orig_key_replication_map_info))
                  (now ∙ rw e refl)
              ∙ ap (original (find j requests) (rep_at j p.key_replication_map)) (orig ∙ rw e refl),
        )
      ]
