-- ===== src/Anna/Metadata.antt =====
-- The keys under which Anna keeps what it knows of other keys and of its servers:
-- src/dist/anna/include/metadata.hpp, with `split` of src/dist/anna/common/include/common.hpp.
-- `std::to_string` and `Tier_Name` are parameters, in the form of their results.
pub mod Keys
use testbed.Prelude.{
  ℕ, suc, ◌+◌, ◌-◌, ◌%◌, ◌≡◌, refl, Bool, true, Option, some, none, List, [], ◌∷◌, ◌++◌, Bytes,
  take, drop, bytes_eq, if◌then◌else◌, ◌==◌,
}

-- '|'.
abbrev pub k_metadata_delimiter : ℕ
k_metadata_delimiter = 124

-- "ANNA_METADATA".
abbrev pub k_metadata_identifier : Bytes
k_metadata_identifier = 65 ∷ 78 ∷ 78 ∷ 65 ∷ 95 ∷ 77 ∷ 69 ∷ 84 ∷ 65 ∷ 68 ∷ 65 ∷ 84 ∷ 65 ∷ []

-- "replication".
abbrev k_metadata_type_replication : Bytes
k_metadata_type_replication = 114 ∷ 101 ∷ 112 ∷ 108 ∷ 105 ∷ 99 ∷ 97 ∷ 116 ∷ 105 ∷ 111 ∷ 110 ∷ []

-- `string::npos`.
abbrev npos : ℕ
npos = 18446744073709551615

pub data MetadataType : Type 0 where
  replication server_stats key_access key_size : MetadataType

-- "stats", "access" and "size"; `none` for the default of the `switch`.
unfoldable pub type_name : MetadataType → Option Bytes
type_name replication = none
type_name server_stats = some (115 ∷ 116 ∷ 97 ∷ 116 ∷ 115 ∷ [])
type_name key_access = some (97 ∷ 99 ∷ 99 ∷ 101 ∷ 115 ∷ 115 ∷ [])
type_name key_size = some (115 ∷ 105 ∷ 122 ∷ 101 ∷ [])

-- The first overload, of a server thread's addresses, a thread's number and a tier's name.
unfoldable pub get_server_metadata_key : Bytes → Bytes → Bytes → Bytes → MetadataType → Bytes
get_server_metadata_key public_ip private_ip thread_num tier_name type' = elim (type_name type') [
  | none ↦ []
  | some metadata_type ↦
      k_metadata_identifier
      ++ (k_metadata_delimiter
          ∷ (metadata_type
              ++ (k_metadata_delimiter
                  ∷ (public_ip
                      ++ (k_metadata_delimiter
                          ∷ (private_ip
                              ++ (k_metadata_delimiter
                                  ∷ (thread_num ++ (k_metadata_delimiter ∷ tier_name)))))))))
]

-- The second overload, of a data key.
unfoldable pub get_data_metadata_key : Bytes → MetadataType → Bytes
get_data_metadata_key data_key replication =
    k_metadata_identifier
    ++ (k_metadata_delimiter ∷ (k_metadata_type_replication ++ (k_metadata_delimiter ∷ data_key)))
get_data_metadata_key data_key server_stats = []
get_data_metadata_key data_key key_access = []
get_data_metadata_key data_key key_size = []

unfoldable pub index_of : ℕ → ℕ → Bytes → ℕ
index_of c i [] = npos
index_of c i (b ∷ bs) = let rest = index_of c (suc i) bs in if b == c then i else rest

-- `string::find` of a character from a position on.
unfoldable pub find_from : ℕ → Bytes → ℕ → ℕ
find_from c s pos = index_of c pos (drop pos s)

unfoldable pub get_key_from_metadata : Bytes → Bytes
get_key_from_metadata metadata_key =
    let n_id = find_from k_metadata_delimiter metadata_key 0 in
    let first = (n_id + 1) % 18446744073709551616 in
    let n_type = find_from k_metadata_delimiter metadata_key first in
    let metadata_type = take (n_type - first) (drop first metadata_key) in
    if bytes_eq metadata_type k_metadata_type_replication
    then drop ((n_type + 1) % 18446744073709551616) metadata_key
    else []

-- `item` is what `getline` has read so far.
unfoldable pub split : Bytes → ℕ → Bytes → List Bytes
split [] delim [] = []
split [] delim (b ∷ item) = (b ∷ item) ∷ []
split (c ∷ s) delim item =
    let next = split s delim [] in
    let more = split s delim (item ++ (c ∷ [])) in if c == delim then item ∷ next else more

-- `none` where `v[0]` is read of an empty vector.
unfoldable pub is_metadata : Bytes → Option Bool
is_metadata key = elim (split key k_metadata_delimiter []) [
  | [] ↦ none
  | item ∷ _ ↦ some (bytes_eq item k_metadata_identifier)
]

-- The metadata key of a data key, whatever bytes that holds, is told from data keys and gives the data key
-- back. That of a server gives back the empty key, and is told from data keys, but for the type that has no
-- such key: the test then reads the first part of an empty key, which has none.
pub get_metadata_key-get_key_from_metadata :
    (data_key public_ip private_ip thread_num tier_name : Bytes)
    → (get_key_from_metadata (get_data_metadata_key data_key replication) ≡ data_key)
      × (is_metadata (get_data_metadata_key data_key replication) ≡ some true)
      × ((type' : MetadataType)
          → (get_key_from_metadata
                (get_server_metadata_key public_ip private_ip thread_num tier_name type')
              ≡ [])
            × (is_metadata (get_server_metadata_key public_ip private_ip thread_num tier_name type')
                ≡ elim type' [ replication ↦ none | _ ↦ some true ]))
unfolding get_data_metadata_key get_server_metadata_key type_name get_key_from_metadata is_metadata
    split find_from index_of bytes_eq
get_metadata_key-get_key_from_metadata data_key p q n tier = (refl, refl, by_type)
  where
    by_type :
        (type' : MetadataType)
        → (get_key_from_metadata (get_server_metadata_key p q n tier type') ≡ [])
          × (is_metadata (get_server_metadata_key p q n tier type')
              ≡ elim type' [ replication ↦ none | _ ↦ some true ])
    by_type replication = (refl, refl)
    by_type server_stats = (refl, refl)
    by_type key_access = (refl, refl)
    by_type key_size = (refl, refl)
