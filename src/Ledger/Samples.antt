-- ===== src/Ledger/Samples.antt =====
-- src/teaql/core/entity.py: runs of the ledger at concrete inputs.
use teaql_python.Base.{
  ℕ, ◌≡◌, refl, true, false, not, ◌&&◌, none, some, [], ◌∷◌, if◌then◌else◌, ◌==◌, list_eq, nat_eq,
  arith,
}
use teaql_python.Base.Dict.{lookup-nil, lookup, insert, erase, update, keys}
use teaql_python.Base.Sets.{add}
use teaql_python.Base.Text.{Text, text, blank}
use teaql_python.Ledger.Defs.{
  EntityKey, key_eq, version_conflict, ok, err, write, set_change, get_change, set_fields,
  put_values, rekey_changes,
}
use teaql_python.Ledger.Root.{
  EntityRoot, new_root, set_field, find_field, get_field, set_original_version, conflicts,
  original_version, has_pending, move, move_key, rekey, clear_entity, accept_committed_version,
}
use teaql_python.Ledger.Merge.{
  unite, entity_snapshot, import_version, import_added, import_removed, import_trace, import_entry,
  source_keys, refuses, import_all, snapshots, merge_from,
}
use teaql_python.Ledger.Reads.{get_field-set_field, accept-clear_entity}
use teaql_python.Ledger.Merging.{disagree, Merged, merge_from-conflict, merge_from-Merged}
use teaql_python.Ledger.Renaming.{Renamed}
use teaql_python.Ledger.Reachability.{
  Reachable, created, called, set_call, version_call, Reachable-RootIsSound, Reachable-Renamed,
  Reachable-merged,
}
use teaql_python.Ledger.Soundness.{RootIsSound}

abbrev order_1 : EntityKey
order_1 = record { entity = text "Order"; id = 1 }

abbrev order_2 : EntityKey
order_2 = record { entity = text "Order"; id = 2 }

abbrev status : Text
status = text "status"

-- order 1 was loaded in a version, and its status was set to 5
abbrev loaded : ℕ → EntityRoot ℕ
loaded version = record {
  current = (order_1, (status, some 5) ∷ []) ∷ [];
  outer = [];
  original_versions = (order_1, version) ∷ [];
  new_keys = [];
  deleted_keys = [];
  trace_chains = [];
}

abbrev versioned : EntityRoot ℕ
versioned = record {
  current = [];
  outer = [];
  original_versions = (order_1, 3) ∷ [];
  new_keys = [];
  deleted_keys = [];
  trace_chains = [];
}

versioned_run : set_original_version {V = ℕ} order_1 3 new_root ≡ ok versioned
unfolding set_original_version conflicts original_version lookup insert key_eq
versioned_run = refl

loaded_run : set_field order_1 status (some 5) versioned ≡ ok (loaded 3)
unfolding set_field set_change write insert lookup key_eq list_eq blank
loaded_run = refl

loaded-Reachable : Reachable (loaded 3)
loaded-Reachable =
    called versioned (loaded 3)
      (called new_root versioned created (version_call order_1 3 new_root versioned versioned_run))
      (set_call order_1 status (some 5) versioned (loaded 3) loaded_run)

Reachable-RootIsSound_example : RootIsSound (loaded 3)
Reachable-RootIsSound_example = Reachable-RootIsSound (loaded 3) loaded-Reachable

-- a change set above it, in which the status is `None`
abbrev above : EntityRoot ℕ
above = record (loaded 3) { current = []; outer = (loaded 3).current ∷ [] }

abbrev hidden : EntityRoot ℕ
hidden = record above { current = (order_1, (status, none) ∷ []) ∷ [] }

hidden_run : set_field order_1 status none above ≡ ok hidden
unfolding set_field set_change write insert lookup key_eq list_eq blank
hidden_run = refl

get_field-set_field_example : get_field order_1 status hidden ≡ some 5
unfolding find_field get_change lookup key_eq list_eq
get_field-set_field_example =
    get_field-set_field order_1 order_1 status status none above hidden hidden_run

accept-clear_entity_example :
    (r' : EntityRoot ℕ) × (accept_committed_version order_1 4 (clear_entity order_1 (loaded 3))
      ≡ ok r')
    × ((k : EntityKey)
        → (lookup k r'.original_versions
            ≡ (if k == order_1 then some 4 else lookup k (loaded 3).original_versions))
          × (has_pending k r' ≡ (not (k == order_1) && has_pending k (loaded 3))))
accept-clear_entity_example = accept-clear_entity order_1 4 (loaded 3)

-- order 1 renamed to order 2
abbrev moved : EntityRoot ℕ
moved = record (loaded 3) {
  current = (order_2, (status, some 5) ∷ []) ∷ [];
  original_versions = (order_2, 3) ∷ [];
}

moved_run : rekey order_1 order_2 (loaded 3) ≡ ok moved
unfolding rekey conflicts original_version rekey_changes put_values move move_key insert lookup
    erase update key_eq list_eq
moved_run = refl

idle_run : has_pending order_2 (loaded 3) ≡ false
unfolding has_pending lookup key_eq list_eq
idle_run = refl

Reachable-Renamed_example : Renamed order_1 order_2 (loaded 3) moved
Reachable-Renamed_example =
    Reachable-Renamed order_1 order_2 (loaded 3) moved loaded-Reachable (λ e. ground arith) idle_run
      moved_run

conflict_run : disagree (loaded 3) (loaded 4) order_1 ≡ true
unfolding lookup key_eq list_eq
conflict_run = refl

merge_from-conflict_example : merge_from (loaded 3) (loaded 4) ≡ err version_conflict
merge_from-conflict_example = merge_from-conflict (loaded 3) (loaded 4) order_1 conflict_run

merge_run : merge_from (loaded 3) versioned ≡ ok (loaded 3)
unfolding merge_from refuses snapshots entity_snapshot import_all import_entry import_version
    import_added import_removed import_trace source_keys unite conflicts original_version set_fields
    set_change write insert lookup keys add key_eq list_eq blank
merge_run = refl

merge_from-Merged_example : Merged (loaded 3) order_1 versioned (loaded 3)
merge_from-Merged_example = merge_from-Merged (loaded 3) versioned (loaded 3) order_1 merge_run

Reachable-merged_example : (r' : EntityRoot ℕ) × (merge_from (loaded 3) new_root ≡ ok r')
Reachable-merged_example =
    Reachable-merged (loaded 3) new_root loaded-Reachable
      (λ k. ground (arith, lookup-nil {V = ℕ} k))
