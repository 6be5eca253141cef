-- ===== src/Ledger/Root.antt =====
-- src/teaql/core/entity.py: `EntityRoot`, the pending changes that one entity graph shares. The stack of
-- change sets, which is never empty, is its innermost set `current` with the others in `outer`, the
-- nearest first. The lock is held through every method, so a method is one step. A raised exception is an
-- `err`; every test that raises comes before the first write, but for a blank field inside an import.
use teaql_python.Base.{
  ℕ, Bool, false, not, ◌&&◌, ◌||◌, Option, none, some, List, [], ◌∷◌, map, if◌then◌else◌, any,
  contains, ◌==◌, nat_eq, list_eq, eqb, option_eq,
}
use teaql_python.Base.Dict.{Dict, lookup, insert, erase, get_or, has}
use teaql_python.Base.Sets.{add, discard}
use teaql_python.Base.Text.{Text, text}
use teaql_python.Ledger.Defs.{
  EntityKey, key_eq, TraceNode, type_error, runtime_error, version_conflict, pending_changes,
  Result, ok, err, Fields, ChangeSet, set_change, get_change, rekey_changes,
}

pub record EntityRoot (V : Type 0) : Type 0 where
  pub current : ChangeSet V
  pub outer : List (ChangeSet V)
  pub original_versions : Dict EntityKey ℕ
  pub new_keys : List EntityKey
  pub deleted_keys : List EntityKey
  pub trace_chains : Dict EntityKey (List TraceNode)

-- what `_snapshot` takes of one entity
pub record Entry (V : Type 0) : Type 0 where
  pub key : EntityKey
  pub values : Fields V
  pub version : Option ℕ
  pub added : Bool
  pub removed : Bool
  pub trace : Option (List TraceNode)

-- `node.kind != 'auditReason'`
abbrev pub is_foreign : TraceNode → Bool
is_foreign node = not (node.kind == text "auditReason")

-- the inner loop of `rekey`, on one node
abbrev pub rename_node : EntityKey → EntityKey → TraceNode → TraceNode
rename_node old new node =
    let name = if node.name == [] then node.entity_type else node.name in
    if name == old.entity && node.entity_id == some old.id
    then record node { entity_id = some new.id }
    else node

abbrev pub rename_chains :
    EntityKey → EntityKey → Dict EntityKey (List TraceNode) → Dict EntityKey (List TraceNode)
rename_chains old new [] = []
rename_chains old new ((key, chain) ∷ d) =
    (key, map (rename_node old new) chain) ∷ rename_chains old new d

-- `if old in d: d[new] = d.pop(old)`
unfoldable pub move : {A : Type 0} → EntityKey → EntityKey → Dict EntityKey A → Dict EntityKey A
move old new d = elim (lookup old d) [ none ↦ d | some a ↦ insert new a (erase old d) ]

-- `if old in s: s.remove(old); s.add(new)`
unfoldable pub move_key : EntityKey → EntityKey → List EntityKey → List EntityKey
move_key old new s = if contains s old then add new (discard old s) else s

module _ {V : Type 0} where
  -- `EntityRoot()`
  abbrev pub new_root : EntityRoot V
  new_root = record {
    current = [];
    outer = [];
    original_versions = [];
    new_keys = [];
    deleted_keys = [];
    trace_chains = [];
  }

  -- `set_trace_chain`
  unfoldable pub set_trace_chain : EntityKey → List TraceNode → EntityRoot V → Result (EntityRoot V)
  set_trace_chain key nodes r =
      if any is_foreign nodes
      then err type_error
      else ok (record r { trace_chains = insert key nodes r.trace_chains })

  -- `trace_chain`
  unfoldable pub trace_chain : EntityKey → EntityRoot V → List TraceNode
  trace_chain key r = get_or key [] r.trace_chains

  -- `push_change_set`
  unfoldable pub push_change_set : EntityRoot V → EntityRoot V
  push_change_set r = record r { current = []; outer = r.current ∷ r.outer }

  -- `pop_change_set`
  unfoldable pub pop_change_set : EntityRoot V → Result (ChangeSet V × EntityRoot V)
  pop_change_set r = elim r.outer [
    | [] ↦ err runtime_error
    | below ∷ rest ↦ ok (r.current, record r { current = below; outer = rest })
  ]

  -- `set`
  unfoldable pub set_field : EntityKey → Text → Option V → EntityRoot V → Result (EntityRoot V)
  set_field key field value r = elim (set_change key field value r.current) [
    | err e ↦ err e
    | ok changes ↦ ok (record r { current = changes })
  ]

  -- `get`: the innermost change set in which the field has a value that is not `None`
  unfoldable pub find_field : EntityKey → Text → List (ChangeSet V) → Option V
  find_field key field [] = none
  find_field key field (changes ∷ below) = elim (get_change key field changes) [
    | none ↦ find_field key field below
    | some v ↦ some v
  ]

  unfoldable pub get_field : EntityKey → Text → EntityRoot V → Option V
  get_field key field r = find_field key field (r.current ∷ r.outer)

  -- `mark_as_new`
  unfoldable pub mark_as_new : EntityKey → EntityRoot V → EntityRoot V
  mark_as_new key r = record r { new_keys = add key r.new_keys }

  -- `mark_as_deleted`
  unfoldable pub mark_as_deleted : EntityKey → EntityRoot V → EntityRoot V
  mark_as_deleted key r = record r {
    current = erase key r.current;
    outer = map (erase key) r.outer;
    deleted_keys = add key r.deleted_keys;
  }

  -- `original_version`
  unfoldable pub original_version : EntityKey → EntityRoot V → Option ℕ
  original_version key r = lookup key r.original_versions

  -- `_validate_version`: whether it raises
  unfoldable pub conflicts : EntityKey → Option ℕ → EntityRoot V → Bool
  conflicts key none r = false
  conflicts key (some incoming) r = elim (original_version key r) [
    | none ↦ false
    | some original ↦ not (eqb incoming original)
  ]

  -- `set_original_version`
  unfoldable pub set_original_version : EntityKey → ℕ → EntityRoot V → Result (EntityRoot V)
  set_original_version key version r =
      if conflicts key (some version) r
      then err version_conflict
      else ok (record r { original_versions = insert key version r.original_versions })

  -- `has_pending`
  unfoldable pub has_pending : EntityKey → EntityRoot V → Bool
  has_pending key r =
      contains r.new_keys key || contains r.deleted_keys key || any (has key) (r.current ∷ r.outer)

  -- `accept_committed_version`
  unfoldable pub accept_committed_version : EntityKey → ℕ → EntityRoot V → Result (EntityRoot V)
  accept_committed_version key version r =
      if has_pending key r
      then err pending_changes
      else ok (record r { original_versions = insert key version r.original_versions })

  -- `clear_committed`
  unfoldable pub clear_committed : EntityRoot V → EntityRoot V
  clear_committed r = record r { current = []; new_keys = []; deleted_keys = []; trace_chains = [] }

  -- `clear_entity`
  unfoldable pub clear_entity : EntityKey → EntityRoot V → EntityRoot V
  clear_entity key r = record r {
    current = erase key r.current;
    outer = map (erase key) r.outer;
    new_keys = discard key r.new_keys;
    deleted_keys = discard key r.deleted_keys;
    trace_chains = erase key r.trace_chains;
  }

  -- `rekey`
  unfoldable pub rekey : EntityKey → EntityKey → EntityRoot V → Result (EntityRoot V)
  rekey old new r =
      if old == new
      then ok r
      else if conflicts new (original_version old r) r
      then err version_conflict
      else ok (record {
        current = rekey_changes old new r.current;
        outer = map (rekey_changes old new) r.outer;
        original_versions = move old new r.original_versions;
        new_keys = move_key old new r.new_keys;
        deleted_keys = move_key old new r.deleted_keys;
        trace_chains = rename_chains old new (move old new r.trace_chains);
      })
