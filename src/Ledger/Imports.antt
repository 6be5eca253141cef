-- ===== src/Ledger/Imports.antt =====
-- src/teaql/core/entity.py: the versions and the marks of a ledger after another ledger is merged into it.
use teaql_python.Base.{
  ℕ, ◌≡◌, refl, sym, ◌∙◌, subst, Bool, true, false, ◌&&◌, ◌||◌, inl, inr, Option, none, some, List,
  [], ◌∷◌, arith, if◌then◌else◌, contains, ◌==◌,
}
use teaql_python.Base.Dict.{lookup, lookup-insert, over}
use teaql_python.Base.Sets.{contains-add}
use teaql_python.Ledger.Defs.{
  EntityKey, key_eq, TraceNode, LedgerError, ok, err, Result-cases, ok_inj, ChangeSet, set_fields,
}
use teaql_python.Ledger.Root.{EntityRoot, Entry, mark_as_new, mark_as_deleted}
use teaql_python.Ledger.Merge.{
  entity_snapshot, import_version, import_added, import_removed, import_trace, import_rest,
  import_entry, import_all, snapshots,
}

module _ {V : Type 0} where
  lookup-import_version :
      (key k : EntityKey) (version : Option ℕ) (r : EntityRoot V)
      → lookup k (import_version key version r).original_versions ≡ (
          if k == key
          then over version (lookup k r.original_versions)
          else lookup k r.original_versions)
  unfolding import_version
  lookup-import_version key k none r = ground (arith, key_eq.equal_iff k key)
  lookup-import_version key k (some v) r = lookup-insert k key v r.original_versions

  import_added-news :
      (key k : EntityKey) (added : Bool) (r : EntityRoot V)
      → contains (import_added key added r).new_keys k
        ≡ (contains r.new_keys k || (k == key && added))
  unfolding import_added mark_as_new
  import_added-news key k added r = ground (arith, contains-add key k r.new_keys)

  import_removed-deleted :
      (key k : EntityKey) (removed : Bool) (r : EntityRoot V)
      → contains (import_removed key removed r).deleted_keys k
        ≡ (contains r.deleted_keys k || (k == key && removed))
  unfolding import_removed mark_as_deleted
  import_removed-deleted key k removed r = ground (arith, contains-add key k r.deleted_keys)

  import_version-marks :
      (key : EntityKey) (version : Option ℕ) (r : EntityRoot V)
      → ((import_version key version r).new_keys ≡ r.new_keys)
        × ((import_version key version r).deleted_keys ≡ r.deleted_keys)
  unfolding import_version
  import_version-marks key none r = (refl, refl)
  import_version-marks key (some v) r = (refl, refl)

  import_added-rest :
      (key : EntityKey) (added : Bool) (r : EntityRoot V)
      → ((import_added key added r).original_versions ≡ r.original_versions)
        × ((import_added key added r).deleted_keys ≡ r.deleted_keys)
  unfolding import_added mark_as_new
  import_added-rest key true r = (refl, refl)
  import_added-rest key false r = (refl, refl)

  import_removed-rest :
      (key : EntityKey) (removed : Bool) (r : EntityRoot V)
      → ((import_removed key removed r).original_versions ≡ r.original_versions)
        × ((import_removed key removed r).new_keys ≡ r.new_keys)
  unfolding import_removed mark_as_deleted
  import_removed-rest key true r = (refl, refl)
  import_removed-rest key false r = (refl, refl)

  import_trace-rest :
      (key : EntityKey) (trace : Option (List TraceNode)) (r : EntityRoot V)
      → ((import_trace key trace r).original_versions ≡ r.original_versions)
        × ((import_trace key trace r).new_keys ≡ r.new_keys)
        × ((import_trace key trace r).deleted_keys ≡ r.deleted_keys)
  unfolding import_trace
  import_trace-rest key none r = (refl, refl, refl)
  import_trace-rest key (some nodes) r = (refl, refl, refl)

  -- the versions and the marks of one key after the writes of one entry
  abbrev pub Written : Entry V → EntityKey → EntityRoot V → EntityRoot V → Type 0
  Written e k r r' =
      (lookup k r'.original_versions ≡ (
        if k == e.key
        then over e.version (lookup k r.original_versions)
        else lookup k r.original_versions))
      × (contains r'.new_keys k ≡ (contains r.new_keys k || (k == e.key && e.added)))
      × (contains r'.deleted_keys k ≡ (contains r.deleted_keys k || (k == e.key && e.removed)))

  import_rest-Written :
      (e : Entry V) (k : EntityKey) (r : EntityRoot V) → Written e k r (import_rest e r)
  import_rest-Written e k r =
      let r1 = import_version e.key e.version r in
      let r2 = import_added e.key e.added r1 in
      let r3 = import_removed e.key e.removed r2 in
      ground (
        arith,
        lookup-import_version e.key k e.version r,
        import_version-marks e.key e.version r,
        import_added-news e.key k e.added r1,
        import_added-rest e.key e.added r1,
        import_removed-deleted e.key k e.removed r2,
        import_removed-rest e.key e.removed r2,
        import_trace-rest e.key e.trace r3,
      )

  pub import_entry-ok :
      (e : Entry V) (c : ChangeSet V) (r : EntityRoot V)
      → set_fields e.key e.values r.current ≡ ok c
      → import_entry e r ≡ ok (import_rest e (record r { current = c }))
  unfolding import_entry
  import_entry-ok e c r g = rw (g, import_entry) refl

  pub import_entry-err :
      (e : Entry V) (x : LedgerError) (r : EntityRoot V)
      → set_fields e.key e.values r.current ≡ err x
      → import_entry e r ≡ err x
  unfolding import_entry
  import_entry-err e x r g = rw (g, import_entry) refl

  import_entry-Written :
      (e : Entry V) (k : EntityKey) (r r' : EntityRoot V)
      → import_entry e r ≡ ok r'
      → Written e k r r'
  import_entry-Written e k r r' h = elim (Result-cases (set_fields e.key e.values r.current)) [
    | inl (c, g) ↦
        let same = ok_inj _ r' (sym (import_entry-ok e c r g) ∙ h) in
        subst (Written e k r) same (import_rest-Written e k (record r { current = c }))
    | inr (x, g) ↦ ground (arith, import_entry-err e x r g)
  ]

  -- The versions and the marks of one key, when the entries of `ks` were imported into `r`.
  abbrev pub Imported :
      EntityRoot V → List EntityKey → EntityKey → EntityRoot V → EntityRoot V → Type 0
  Imported other ks k r r' =
      (lookup k r'.original_versions ≡ (
        if contains ks k
        then over (lookup k other.original_versions) (lookup k r.original_versions)
        else lookup k r.original_versions))
      × (contains r'.new_keys k
          ≡ (contains r.new_keys k || (contains ks k && contains other.new_keys k)))
      × (contains r'.deleted_keys k
          ≡ (contains r.deleted_keys k || (contains ks k && contains other.deleted_keys k)))

  entity_snapshot-Imported :
      (other : EntityRoot V) (key k : EntityKey) (r r' : EntityRoot V)
      → import_entry (entity_snapshot key other) r ≡ ok r'
      → Imported other (key ∷ []) k r r'
  unfolding entity_snapshot
  entity_snapshot-Imported other key k r r' h =
      ground
        (arith, import_entry-Written (entity_snapshot key other) k r r' h, key_eq.equal_iff k key)

  Imported-cons :
      (other : EntityRoot V) (key : EntityKey) (ks : List EntityKey) (k : EntityKey)
      (r r1 r2 : EntityRoot V)
      → Imported other (key ∷ []) k r r1
      → Imported other ks k r1 r2
      → Imported other (key ∷ ks) k r r2
  Imported-cons other key ks k r r1 r2 (v, n, d) (v', n', d') = ground arith

  pub import_all-cons :
      (e : Entry V) (es : List (Entry V)) (r r1 : EntityRoot V)
      → import_entry e r ≡ ok r1
      → import_all (e ∷ es) r ≡ import_all es r1
  unfolding import_all
  import_all-cons e es r r1 g = rw (g, import_all) refl

  pub import_all-err :
      (e : Entry V) (es : List (Entry V)) (r : EntityRoot V) (x : LedgerError)
      → import_entry e r ≡ err x
      → import_all (e ∷ es) r ≡ err x
  unfolding import_all
  import_all-err e es r x g = rw (g, import_all) refl

  pub import_all-Imported :
      (other : EntityRoot V) (ks : List EntityKey) (k : EntityKey) (r r' : EntityRoot V)
      → import_all (snapshots other ks) r ≡ ok r'
      → Imported other ks k r r'
  unfolding import_all snapshots
  import_all-Imported other [] k r r' h =
      subst (Imported other [] k r) (ok_inj r r' h) (refl, ground arith, ground arith)
  import_all-Imported other (key ∷ ks) k r r' h =
      let e = entity_snapshot key other in
      let es = snapshots other ks in
      elim (Result-cases (import_entry e r)) [
        | inl (r1, g) ↦
            let rest = sym (import_all-cons e es r r1 g) ∙ h in
            Imported-cons other key ks k r r1 r' (entity_snapshot-Imported other key k r r1 g)
              (import_all-Imported other ks k r1 r' rest)
        | inr (x, g) ↦ ground (arith, import_all-err e es r x g)
      ]
