-- ===== src/Anna/Routing/Changes/Learned.antt =====
-- What a router knows after replication_change_handler of
-- src/dist/anna/src/route/replication_change_handler.cpp.
use testbed.Prelude.{
  ℕ, ◌≡◌, refl, sym, ap, ◌∙◌, subst, Bool, true, false, ◌||◌, ◌&&◌, List, [], ◌∷◌, Bytes, bytes_eq,
  bytes_eq_iff, if◌then◌else◌, Bool-cases, inl, inr,
}
use testbed.Anna.Lattice.MapLattice.{StringMap}
use testbed.Anna.Cluster.{Tier, tier_unspecified, memory, disk, routing}
use testbed.Anna.Cluster.Rings.{same_tier}
use testbed.Anna.Server.Redistribute.{is_empty}
use testbed.Anna.Server.Replication.{
  Factors, KeyReplication, learn_replication, set_factor, set_factors,
}
use testbed.Anna.Server.Replication.Change.{ReplicationFactor, factor_of, learn_change}
use testbed.Anna.Monitor.Prepare.{rep_at}
use testbed.Anna.Monitor.Kept.{rep_at-change_replication}
use testbed.Anna.Routing.Changes.{learn_change, learn_changes, route_replication_change_handler}

same_tier_path : (a b : Tier) → same_tier a b ≡ true → a ≡ b
unfolding same_tier
same_tier_path tier_unspecified tier_unspecified e = refl
same_tier_path memory memory e = refl
same_tier_path disk disk e = refl
same_tier_path routing routing e = refl
same_tier_path tier_unspecified memory e = cc
same_tier_path tier_unspecified disk e = cc
same_tier_path tier_unspecified routing e = cc
same_tier_path memory tier_unspecified e = cc
same_tier_path memory disk e = cc
same_tier_path memory routing e = cc
same_tier_path disk tier_unspecified e = cc
same_tier_path disk memory e = cc
same_tier_path disk routing e = cc
same_tier_path routing tier_unspecified e = cc
same_tier_path routing memory e = cc
same_tier_path routing disk e = cc

factor_of-set_factor :
    (tier t : Tier) (n : ℕ) (m : Factors)
    → factor_of t (set_factor tier n m) ≡ (if same_tier tier t then n else factor_of t m)
unfolding factor_of set_factor
factor_of-set_factor tier t n [] = refl
factor_of-set_factor tier t n ((u, k) ∷ m) = elim (Bool-cases (same_tier u tier)) [
  | inl e ↦ rw e (elim (Bool-cases (same_tier tier t)) [
    | inl q ↦ rw (ap (λ x. same_tier x t) (same_tier_path u tier e), q) refl
    | inr q ↦ rw (ap (λ x. same_tier x t) (same_tier_path u tier e), q) refl
  ])
  | inr e ↦ elim (Bool-cases (same_tier tier t)) [
    | inl q ↦
        rw
          (
            e,
            factor_of-set_factor tier t n m,
            q,
            subst (λ x. same_tier u x ≡ false) (same_tier_path tier t q) e,
          )
          refl
    | inr q ↦ rw (e, factor_of-set_factor tier t n m, q) refl
  ]
]

-- Whether a list names a tier.
unfoldable pub names : Tier → Factors → Bool
names tier [] = false
names tier ((t, n) ∷ m) = same_tier t tier || names tier m

-- Every factor of the list is the one of the second.
abbrev pub AreOf : Factors → Factors → Type 0
AreOf [] there = Unit
AreOf ((tier, n) ∷ m) there = (n ≡ factor_of tier there) × AreOf m there

factor_of-set_factors :
    (new m there : Factors) (t : Tier)
    → AreOf new there
    → factor_of t (set_factors new m) ≡ (if names t new then factor_of t there else factor_of t m)
unfolding set_factors names
factor_of-set_factors [] m there t h = refl
factor_of-set_factors ((tier, n) ∷ new) m there t (here, h) = elim (Bool-cases (same_tier tier t)) [
  | inl e ↦ elim (Bool-cases (names t new)) [
    | inl q ↦ rw (factor_of-set_factors new (set_factor tier n m) there t h, e, q) refl
    | inr q ↦
        rw (factor_of-set_factors new (set_factor tier n m) there t h, e, q)
          (factor_of-set_factor tier t n m
            ∙ rw e (here ∙ ap (λ x. factor_of x there) (same_tier_path tier t e)))
  ]
  | inr e ↦
      rw
        (
          factor_of-set_factors new (set_factor tier n m) there t h,
          e,
          factor_of-set_factor tier t n m,
        )
        (rw e refl)
]

learn_nothing :
    (g l : Factors) (r : KeyReplication)
    → is_empty g && is_empty l ≡ true
    → learn_replication (g, l) r ≡ r
unfolding learn_replication set_factors is_empty
learn_nothing [] [] r e = refl
learn_nothing [] (x ∷ l) r e = cc
learn_nothing (x ∷ g) l r e = cc

rep_at-learn_change :
    (u : ReplicationFactor) (m : StringMap KeyReplication) (j : Bytes)
    → rep_at j (learn_change u m) ≡ (
        if bytes_eq u.key j then learn_replication (u.global, u.local) (rep_at j m) else rep_at j m)
unfolding learn_change
rep_at-learn_change u m j = elim (Bool-cases (is_empty u.global && is_empty u.local)) [
  | inl e ↦ elim (Bool-cases (bytes_eq u.key j)) [
    | inl q ↦ rw (e, q) (sym (learn_nothing u.global u.local (rep_at j m) e))
    | inr q ↦ rw (e, q) refl
  ]
  | inr e ↦ rw e (rep_at-change_replication u.key j (learn_replication (u.global, u.local)) m)
]

-- Whether an update of the key names the tier among its global, or its local, factors.
unfoldable pub names_global : Bytes → Tier → List ReplicationFactor → Bool
names_global key tier [] = false
names_global key tier (u ∷ us) =
    names_global key tier us || (bytes_eq u.key key && names tier u.global)

unfoldable pub names_local : Bytes → Tier → List ReplicationFactor → Bool
names_local key tier [] = false
names_local key tier (u ∷ us) =
    names_local key tier us || (bytes_eq u.key key && names tier u.local)

-- The updates carry factors of one map.
abbrev pub AreUpdatesOf : List ReplicationFactor → StringMap KeyReplication → Type 0
AreUpdatesOf [] there = Unit
AreUpdatesOf (u ∷ us) there =
    (AreOf u.global (rep_at u.key there).global_replication
      × AreOf u.local (rep_at u.key there).local_replication)
    × AreUpdatesOf us there

learn_change-factor :
    (u : ReplicationFactor) (m there : StringMap KeyReplication) (j : Bytes) (t : Tier)
    → AreOf u.global (rep_at u.key there).global_replication
    → AreOf u.local (rep_at u.key there).local_replication
    → (factor_of t (rep_at j (learn_change u m)).global_replication ≡ (
        if bytes_eq u.key j && names t u.global
        then factor_of t (rep_at j there).global_replication
        else factor_of t (rep_at j m).global_replication))
      × (factor_of t (rep_at j (learn_change u m)).local_replication ≡ (
          if bytes_eq u.key j && names t u.local
          then factor_of t (rep_at j there).local_replication
          else factor_of t (rep_at j m).local_replication))
unfolding learn_replication
learn_change-factor u m there j t g l = elim (Bool-cases (bytes_eq u.key j)) [
  | inl e ↦
      let k : u.key ≡ j = (bytes_eq_iff u.key j).0 e in
      rw (rep_at-learn_change u m j, e)
        (
          factor_of-set_factors u.global (rep_at j m).global_replication
              (rep_at j there).global_replication t
              (subst (λ x. AreOf u.global (rep_at x there).global_replication) k g),
          factor_of-set_factors u.local (rep_at j m).local_replication
              (rep_at j there).local_replication t
              (subst (λ x. AreOf u.local (rep_at x there).local_replication) k l),
        )
  | inr e ↦ rw (rep_at-learn_change u m j, e) (refl, refl)
]

either :
    {A : Type 0} (b c : Bool) (x y z : A)
    → z ≡ (if c then x else y)
    → (if b then x else z) ≡ (if b || c then x else y)
either true c x y z e = refl
either false c x y z e = e

learn_changes-factor_of :
    (updates : List ReplicationFactor) (m there : StringMap KeyReplication)
    → AreUpdatesOf updates there
    → (key : Bytes) (tier : Tier)
    → (factor_of tier (rep_at key (learn_changes updates m)).global_replication ≡ (
        if names_global key tier updates
        then factor_of tier (rep_at key there).global_replication
        else factor_of tier (rep_at key m).global_replication))
      × (factor_of tier (rep_at key (learn_changes updates m)).local_replication ≡ (
          if names_local key tier updates
          then factor_of tier (rep_at key there).local_replication
          else factor_of tier (rep_at key m).local_replication))
unfolding learn_changes names_global names_local
learn_changes-factor_of [] m there h key tier = (refl, refl)
learn_changes-factor_of (u ∷ us) m there ((g, l), h) key tier =
    let (global, local) = learn_changes-factor_of us (learn_change u m) there h key tier in
    let (first, first_local) = learn_change-factor u m there key tier g l in
    (
      global ∙ either (names_global key tier us) _ _ _ _ first,
      local ∙ either (names_local key tier us) _ _ _ _ first_local,
    )

-- The updates carry factors of one map of replications. Then any thread of a router that takes them has
-- that map's factor wherever an update of the key names the tier, and the factor that it had elsewhere,
-- among the global factors as among the local ones.
pub route_replication_change_handler-factor_of :
    (to_string : ℕ → Bytes) (k_routing_thread_count : ℕ) (serialized : Bytes)
    (updates : List ReplicationFactor) (thread_id : ℕ) (ip : Bytes)
    (m there : StringMap KeyReplication)
    → AreUpdatesOf updates there
    → (key : Bytes) (tier : Tier)
    → (let m' =
          (route_replication_change_handler to_string k_routing_thread_count serialized updates
            thread_id ip m).1 in
        (factor_of tier (rep_at key m').global_replication ≡ (
          if names_global key tier updates
          then factor_of tier (rep_at key there).global_replication
          else factor_of tier (rep_at key m).global_replication))
        × (factor_of tier (rep_at key m').local_replication ≡ (
            if names_local key tier updates
            then factor_of tier (rep_at key there).local_replication
            else factor_of tier (rep_at key m).local_replication)))
unfolding route_replication_change_handler
route_replication_change_handler-factor_of to_string n serialized updates thread_id ip m there h key
      tier =
    learn_changes-factor_of updates m there h key tier
