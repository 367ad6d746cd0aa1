-- ===== src/Anna/HashRing/Servers.antt =====
-- HashRing of src/dist/anna/include/hash_ring.hpp: the hash ring of a tier's server threads, each of which
-- stands on it several times. `std::to_string`, the hash and the number of virtual threads are parameters.
pub mod Placed
use testbed.Prelude.{
  ℕ, zero, suc, ◌≡◌, refl, ◌∙◌, Bool, true, false, List, [], ◌∷◌, ◌++◌, Bytes, bytes_eq,
  bytes_eq_iff, if◌then◌else◌, ltb, arith, Bool-cases, inl, inr,
}
use testbed.Anna.HashRing.{Nodes, ring_insert, ring_erase}
use testbed.Anna.HashRing.Walk.{has}

pub record ServerThread : Type 0 where
  pub public_ip : Bytes
  pub private_ip : Bytes
  pub tid : ℕ
  pub virtual_num : ℕ

-- `private_ip_ + ":" + std::to_string(tid_)`.
unfoldable pub id : (ℕ → Bytes) → ServerThread → Bytes
id to_string st = st.private_ip ++ (58 ∷ to_string st.tid)

-- `operator==`.
unfoldable pub same_thread : (ℕ → Bytes) → ServerThread → ServerThread → Bool
same_thread to_string l r = bytes_eq (id to_string l) (id to_string r)

-- A map from addresses to join counts is a list in which the first entry of an address counts. A missing
-- count reads as 0; that `operator[]` also stores that 0 makes no difference to what is read.
unfoldable pub join_count_of : Bytes → List (Bytes × ℕ) → ℕ
join_count_of ip [] = 0
join_count_of ip ((other, n) ∷ counts) =
    let rest = join_count_of ip counts in if bytes_eq other ip then n else rest

unfoldable pub erase_count : Bytes → List (Bytes × ℕ) → List (Bytes × ℕ)
erase_count ip [] = []
erase_count ip ((other, n) ∷ counts) =
    let rest = erase_count ip counts in if bytes_eq other ip then rest else (other, n) ∷ rest

pub record HashRing : Type 0 where
  pub nodes : Nodes ServerThread
  pub unique_servers : List ServerThread
  pub server_join_count : List (Bytes × ℕ)

abbrev thread : Bytes → Bytes → ℕ → ℕ → ServerThread
thread public_ip private_ip tid virtual_num = record {
  public_ip = public_ip;
  private_ip = private_ip;
  tid = tid;
  virtual_num = virtual_num;
}

-- The loops over the virtual threads, the first `n` of them.
unfoldable pub insert_virtual :
    (ServerThread → ℕ) → Bytes → Bytes → ℕ → ℕ → Nodes ServerThread → Nodes ServerThread
insert_virtual hasher public_ip private_ip tid zero nodes = nodes
insert_virtual hasher public_ip private_ip tid (suc n) nodes =
    ring_insert hasher (thread public_ip private_ip tid n)
      (insert_virtual hasher public_ip private_ip tid n nodes)

unfoldable pub erase_virtual :
    (ServerThread → ℕ) → Bytes → Bytes → ℕ → ℕ → Nodes ServerThread → Nodes ServerThread
erase_virtual hasher public_ip private_ip tid zero nodes = nodes
erase_virtual hasher public_ip private_ip tid (suc n) nodes =
    ring_erase hasher (thread public_ip private_ip tid n)
      (erase_virtual hasher public_ip private_ip tid n nodes)

module _ (to_string : ℕ → Bytes) (hasher : ServerThread → ℕ) (k_virtual_thread_num : ℕ) where
  unfoldable pub join : Bytes → Bytes → ℕ → ℕ → HashRing → Bool × HashRing
  join public_ip private_ip join_count tid r =
      let counts = (private_ip, join_count) ∷ erase_count private_ip r.server_join_count in
      let new_thread = thread public_ip private_ip tid 0 in
      if has (same_thread to_string) new_thread r.unique_servers
      then (if ltb (join_count_of private_ip r.server_join_count) join_count
          then (true, record r { server_join_count = counts })
          else (false, r))
      else (
        true,
        record {
          nodes = insert_virtual hasher public_ip private_ip tid k_virtual_thread_num r.nodes;
          unique_servers = new_thread ∷ r.unique_servers;
          server_join_count = counts;
        },
      )

  unfoldable pub without : ServerThread → List ServerThread → List ServerThread
  without st [] = []
  without st (x ∷ xs) =
      let rest = without st xs in if same_thread to_string x st then rest else x ∷ rest

  unfoldable pub remove : Bytes → Bytes → ℕ → HashRing → HashRing
  remove public_ip private_ip tid r = record {
    nodes = erase_virtual hasher public_ip private_ip tid k_virtual_thread_num r.nodes;
    unique_servers = without (thread public_ip private_ip tid 0) r.unique_servers;
    server_join_count = erase_count private_ip r.server_join_count;
  }

  pub same_thread_refl : (st : ServerThread) → same_thread to_string st st ≡ true
  unfolding same_thread
  same_thread_refl st = (bytes_eq_iff (id to_string st) (id to_string st)).1 refl

  join_known :
      (public_ip private_ip : Bytes) (join_count tid : ℕ) (r : HashRing)
      → has (same_thread to_string) (thread public_ip private_ip tid 0) r.unique_servers ≡ true
      → join public_ip private_ip join_count tid r ≡ (
          if ltb (join_count_of private_ip r.server_join_count) join_count
          then (
            true,
            record r {
              server_join_count =
                  (private_ip, join_count) ∷ erase_count private_ip r.server_join_count;
            },
          )
          else (false, r))
  unfolding join
  join_known p q c tid r known = rw known refl

  join_stale :
      (public_ip private_ip : Bytes) (join_count tid : ℕ) (r : HashRing)
      → has (same_thread to_string) (thread public_ip private_ip tid 0) r.unique_servers ≡ true
      → ltb (join_count_of private_ip r.server_join_count) join_count ≡ false
      → join public_ip private_ip join_count tid r ≡ (false, r)
  join_stale p q c tid r known stale = join_known p q c tid r known ∙ rw stale refl

  join_count_of_first :
      (ip : Bytes) (c : ℕ) (counts : List (Bytes × ℕ)) → join_count_of ip ((ip, c) ∷ counts) ≡ c
  unfolding join_count_of
  join_count_of_first ip c counts = rw ((bytes_eq_iff ip ip).1 refl) refl

  has_first :
      (st : ServerThread) (xs : List ServerThread) → has (same_thread to_string) st (st ∷ xs) ≡ true
  unfolding has
  has_first st xs = rw (same_thread_refl st) refl

  -- What a join leaves: the server is known, and the count is not below the one that it came with.
  pub join-known :
      (public_ip private_ip : Bytes) (join_count tid : ℕ) (r : HashRing)
      → (let r' = (join public_ip private_ip join_count tid r).1 in
          (has (same_thread to_string) (thread public_ip private_ip tid 0) r'.unique_servers ≡ true)
          × (ltb (join_count_of private_ip r'.server_join_count) join_count ≡ false))
  unfolding join
  join-known p q c tid r =
      go (has (same_thread to_string) (thread p q tid 0) r.unique_servers) refl
        (ltb (join_count_of q r.server_join_count) c) refl
    where
      counts : List (Bytes × ℕ)
      counts = (q, c) ∷ erase_count q r.server_join_count

      level : ltb (join_count_of q counts) c ≡ false
      level = rw (join_count_of_first q c (erase_count q r.server_join_count)) (ground arith)

      go :
          (b : Bool)
          → has (same_thread to_string) (thread p q tid 0) r.unique_servers ≡ b
          → (d : Bool) → ltb (join_count_of q r.server_join_count) c ≡ d
          → (let r' = (join p q c tid r).1 in
              (has (same_thread to_string) (thread p q tid 0) r'.unique_servers ≡ true)
              × (ltb (join_count_of q r'.server_join_count) c ≡ false))
      go true e true e' = rw (e, e') (e, level)
      go true e false e' = rw (e, e') (e, e')
      go false e d e' = rw e (has_first (thread p q tid 0) r.unique_servers, level)

  -- A server that joins a second time with the same count is refused, and the ring is left as it is; with
  -- whatever count it comes again, its virtual threads are not put on the ring a second time.
  pub join-join :
      (public_ip private_ip : Bytes) (join_count tid : ℕ) (r : HashRing)
      → (let r' = (join public_ip private_ip join_count tid r).1 in
          (join public_ip private_ip join_count tid r' ≡ (false, r'))
          × ((later : ℕ)
              → ((join public_ip private_ip later tid r').1.nodes ≡ r'.nodes)
                × ((join public_ip private_ip later tid r').1.unique_servers ≡ r'.unique_servers)))
  join-join p q c tid r =
      let (known, stale) = join-known p q c tid r in
      (
        join_stale p q c tid (join p q c tid r).1 known stale,
        λ later. again later (join p q c tid r).1 known,
      )
    where
      again :
          (later : ℕ) (r' : HashRing)
          → has (same_thread to_string) (thread p q tid 0) r'.unique_servers ≡ true
          → ((join p q later tid r').1.nodes ≡ r'.nodes)
            × ((join p q later tid r').1.unique_servers ≡ r'.unique_servers)
      again later r' known = elim (Bool-cases (ltb (join_count_of q r'.server_join_count) later)) [
        | inl newer ↦ rw (join_known p q later tid r' known, newer) (refl, refl)
        | inr stale ↦ rw (join_known p q later tid r' known, stale) (refl, refl)
      ]
