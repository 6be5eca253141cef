-- ===== src/Ledger/Merge.antt =====
-- src/teaql/core/entity.py: the import of one `EntityRoot` into another. The caller's test `other is self`
-- returns at once; here the two ledgers are two objects. The source's keys form a Python set, whose order
-- of iteration is not specified; the list of them is in the order in which the source unites the sets.
use teaql_python.Base.{
  ℕ, Bool, Option, none, some, List, [], ◌∷◌, ◌++◌, if◌then◌else◌, any, contains, list_eq,
}
use teaql_python.Base.Dict.{keys, lookup, insert, get_or}
use teaql_python.Base.Sets.{add}
use teaql_python.Ledger.Defs.{
  EntityKey, key_eq, TraceNode, version_conflict, Result, ok, err, set_fields,
}
use teaql_python.Ledger.Root.{EntityRoot, Entry, conflicts, mark_as_new, mark_as_deleted}

-- a list without the repetitions
unfoldable pub unite : List EntityKey → List EntityKey
unite [] = []
unite (k ∷ ks) = add k (unite ks)

module _ {V : Type 0} where
  -- `_snapshot`
  unfoldable pub entity_snapshot : EntityKey → EntityRoot V → Entry V
  entity_snapshot key r = record {
    key = key;
    values = get_or key [] r.current;
    version = lookup key r.original_versions;
    added = contains r.new_keys key;
    removed = contains r.deleted_keys key;
    trace = lookup key r.trace_chains;
  }

  -- `_import`, its writes one after the other
  unfoldable pub import_version : EntityKey → Option ℕ → EntityRoot V → EntityRoot V
  import_version key none r = r
  import_version key (some version) r = record r {
    original_versions = insert key version r.original_versions;
  }

  unfoldable pub import_added : EntityKey → Bool → EntityRoot V → EntityRoot V
  import_added key added r = if added then mark_as_new key r else r

  unfoldable pub import_removed : EntityKey → Bool → EntityRoot V → EntityRoot V
  import_removed key removed r = if removed then mark_as_deleted key r else r

  unfoldable pub import_trace : EntityKey → Option (List TraceNode) → EntityRoot V → EntityRoot V
  import_trace key none r = r
  import_trace key (some nodes) r = record r { trace_chains = insert key nodes r.trace_chains }

  abbrev pub import_rest : Entry V → EntityRoot V → EntityRoot V
  import_rest e r =
      let r1 = import_version e.key e.version r in
      let r2 = import_removed e.key e.removed (import_added e.key e.added r1) in
      import_trace e.key e.trace r2

  unfoldable pub import_entry : Entry V → EntityRoot V → Result (EntityRoot V)
  import_entry e r = elim (set_fields e.key e.values r.current) [
    | err x ↦ err x
    | ok changes ↦ ok (import_rest e (record r { current = changes }))
  ]

  -- the keys that `merge_from` visits
  unfoldable pub source_keys : EntityRoot V → List EntityKey
  source_keys other = unite (
      keys other.original_versions
      ++ (other.new_keys
          ++ (other.deleted_keys ++ (keys other.trace_chains ++ keys other.current))))

  -- the first loop: whether some entry's version is refused
  unfoldable pub refuses : List (Entry V) → EntityRoot V → Bool
  refuses entries r = any (λ e. conflicts e.key e.version r) entries

  -- the second loop
  unfoldable pub import_all : List (Entry V) → EntityRoot V → Result (EntityRoot V)
  import_all [] r = ok r
  import_all (e ∷ rest) r = elim (import_entry e r) [ err x ↦ err x | ok r' ↦ import_all rest r' ]

  unfoldable pub snapshots : EntityRoot V → List EntityKey → List (Entry V)
  snapshots other [] = []
  snapshots other (k ∷ ks) = entity_snapshot k other ∷ snapshots other ks

  -- `merge_from`
  unfoldable pub merge_from : EntityRoot V → EntityRoot V → Result (EntityRoot V)
  merge_from other r =
      let entries = snapshots other (source_keys other) in
      if refuses entries r then err version_conflict else import_all entries r

  -- `merge_entity_from`
  unfoldable pub merge_entity_from : EntityRoot V → EntityKey → EntityRoot V → Result (EntityRoot V)
  merge_entity_from other key r =
      let e = entity_snapshot key other in
      if conflicts key e.version r then err version_conflict else import_entry e r
