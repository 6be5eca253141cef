-- ===== src/BusinessId/Store/Table.antt =====
-- src/teaql/sql/business_id.py: what the allocator's three statements do to `teaql_business_id_space`. The
-- database is not part of the program: the interface states what SQL says of a SELECT by the key, an INSERT
-- under a unique key and a conditional UPDATE, each of them atomic. `updated_at` is written, never read.
use teaql_python.Base.{ℕ, ◌+◌, ◌≡◌, ◌≢◌, Option, none, some, if◌then◌else◌, ◌==◌, list_eq, nat_eq}
use teaql_python.Base.Integers.{ℤ, pos}
use teaql_python.Base.Text.{Text}

-- `current_value` and `version` of a row
pub record Row : Type 0 where
  pub current_value : ℤ
  pub version : ℤ

abbrev pub row : ℕ → ℕ → Row
row current version = record { current_value = pos current; version = pos version }

pub record Table (S : Type 0) : Type 0 where
  pub find : Text → S → Option Row
  -- the number of changed rows, or the exception of a duplicate key
  pub insert : Text → ℕ → S → S × Option ℕ
  -- the row of a key, if it holds the version and the value, gets the next value and version
  pub update : Text → (version current next : ℕ) → S → S × ℕ
  pub insert_new :
      (k : Text) (n : ℕ) (s : S)
      → find k s ≡ none
      → ((insert k n s).1 ≡ some 1)
        × ((j : Text) → find j (insert k n s).0 ≡ (if j == k then some (row n 1) else find j s))
  pub insert_taken :
      (k : Text) (n : ℕ) (s : S) (r : Row) → find k s ≡ some r → insert k n s ≡ (s, none)
  pub update_hit :
      (k : Text) (version current next : ℕ) (s : S)
      → find k s ≡ some (row current version)
      → ((update k version current next s).1 ≡ 1)
        × ((j : Text)
            → find j (update k version current next s).0
              ≡ (if j == k then some (row next (version + 1)) else find j s))
  pub update_miss :
      (k : Text) (version current next : ℕ) (s : S)
      → find k s ≢ some (row current version)
      → update k version current next s ≡ (s, 0)
