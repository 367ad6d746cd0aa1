-- ===== src/Utils/Examples.antt =====
-- The theorems about the reader of workload files at concrete lines.
use testbed.Prelude.{◌≡◌, refl, [], ◌∷◌, some, arith, map, false}
use testbed.Utils.Tracer.{lookup, update, load}
use testbed.Utils.Tracer.Loading.{Entry, print_entry, IsPrintable, request_of, load-print_entry}

-- `READ t user1 x`.
abbrev read_entry : Entry
read_entry = record {
  op = lookup;
  table = 116 ∷ [];
  key = 117 ∷ 115 ∷ 101 ∷ 114 ∷ 49 ∷ [];
  val = 120 ∷ [];
}

-- `UPDATE t user2 y z`, whose value contains a space.
abbrev update_entry : Entry
update_entry = record {
  op = update;
  table = 116 ∷ [];
  key = 117 ∷ 115 ∷ 101 ∷ 114 ∷ 50 ∷ [];
  val = 121 ∷ 32 ∷ 122 ∷ [];
}

read_entry-IsPrintable : IsPrintable read_entry
read_entry-IsPrintable = record {
  table-IsWord = (refl, tt);
  key-IsWord = (refl, (refl, (refl, (refl, (refl, tt)))));
  has_prefix = omega arith;
  has_value = omega arith;
}

update_entry-IsPrintable : IsPrintable update_entry
update_entry-IsPrintable = record {
  table-IsWord = (refl, tt);
  key-IsWord = (refl, (refl, (refl, (refl, (refl, tt)))));
  has_prefix = omega arith;
  has_value = omega arith;
}

load-print_entry_example :
    load 10 (map print_entry (read_entry ∷ update_entry ∷ [])) 3
    ≡ some (record {
      requests = map (request_of (λ k. k)) (read_entry ∷ update_entry ∷ []);
      number_of_requests = 5;
      is_complete = false;
    })
load-print_entry_example =
    load-print_entry 10 3 (read_entry ∷ update_entry ∷ [])
      (read_entry-IsPrintable, (update_entry-IsPrintable, tt)) (omega arith)
