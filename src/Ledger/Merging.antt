-- ===== src/Ledger/Merging.antt =====
-- src/teaql/core/entity.py: when `EntityRoot.merge_from` raises, and what the ledger holds when it does not.
use teaql_python.Base.{
  ℕ, ◌≡◌, refl, sym, ◌∙◌, Bool, true, false, not, ◌||◌, inl, inr, Option, none, some, List, [], ◌∷◌,
  ◌++◌, arith, any, contains, is_some, eqb, Bool-cases,
}
use teaql_python.Base.Dict.{lookup, over, get_or, contains-keys}
use teaql_python.Base.Sets.{contains-add}
use teaql_python.Base.Text.{Text, blank}
use teaql_python.Ledger.Defs.{
  EntityKey, key_eq, version_conflict, ok, err, Fields, ChangeSet, write, set_change, set_fields,
}
use teaql_python.Ledger.Root.{EntityRoot, original_version, conflicts}
use teaql_python.Ledger.Merge.{
  unite, entity_snapshot, import_rest, source_keys, refuses, import_all, snapshots, merge_from,
}
use teaql_python.Ledger.Changes.{NoBlank, AllNamed, AllNamed-get_or}
use teaql_python.Ledger.Imports.{import_all-Imported, import_entry-ok, import_all-cons}

contains-append :
    (k : EntityKey) (s t : List EntityKey) → contains (s ++ t) k ≡ (contains s k || contains t k)
contains-append k [] t = refl
contains-append k (j ∷ s) t = ground (arith, contains-append k s t)

contains-unite : (k : EntityKey) (ks : List EntityKey) → contains (unite ks) k ≡ contains ks k
unfolding unite
contains-unite k [] = refl
contains-unite k (j ∷ ks) = ground (arith, contains-add j k (unite ks), contains-unite k ks)

module _ {V : Type 0} where
  contains-source_keys :
      (other : EntityRoot V) (k : EntityKey)
      → contains (source_keys other) k ≡ (
          is_some (lookup k other.original_versions)
          || (contains other.new_keys k
              || (contains other.deleted_keys k
                  || (is_some (lookup k other.trace_chains) || is_some (lookup k other.current)))))
  unfolding source_keys
  contains-source_keys other k =
      rw
        (
          contains-unite, contains-append, contains-append, contains-append, contains-append,
          contains-keys, contains-keys, contains-keys,
        )
        refl

  -- whether the two ledgers have loaded different versions of an entity
  abbrev pub disagree : EntityRoot V → EntityRoot V → EntityKey → Bool
  disagree other r k = elim (lookup k other.original_versions) [
    | none ↦ false
    | some incoming ↦ elim (lookup k r.original_versions) [
      | none ↦ false
      | some original ↦ not (eqb incoming original)
    ]
  ]

  conflicts-elim :
      (k : EntityKey) (version : Option ℕ) (r : EntityRoot V)
      → conflicts k version r ≡ (elim version [
        | none ↦ false
        | some incoming ↦ elim (lookup k r.original_versions) [
          | none ↦ false
          | some original ↦ not (eqb incoming original)
        ]
      ])
  unfolding conflicts original_version
  conflicts-elim k none r = refl
  conflicts-elim k (some v) r = refl

  refuses-disagree :
      (other r : EntityRoot V) (ks : List EntityKey)
      → refuses (snapshots other ks) r ≡ any (disagree other r) ks
  unfolding refuses snapshots entity_snapshot
  refuses-disagree other r [] = refl
  refuses-disagree other r (k ∷ ks) =
      ground
        (arith, conflicts-elim k (lookup k other.original_versions) r, refuses-disagree other r ks)

  -- the keys that the import does not visit have nothing to import
  unvisited :
      (other r : EntityRoot V) (k : EntityKey)
      → contains (source_keys other) k ≡ false
      → disagree other r k ≡ false
  unvisited other r k h = ground (arith, contains-source_keys other k)

  any-disagree :
      (other r : EntityRoot V) (ks : List EntityKey) (k : EntityKey)
      → contains ks k ≡ true
      → disagree other r k ≡ true
      → any (disagree other r) ks ≡ true
  any-disagree other r [] k h g = ground arith
  any-disagree other r (j ∷ ks) k h g =
      ground (arith, any-disagree other r ks k, key_eq.equal_iff k j)

  none-disagree :
      (other r : EntityRoot V) (ks : List EntityKey)
      → ((k : EntityKey) → disagree other r k ≡ false)
      → any (disagree other r) ks ≡ false
  none-disagree other r [] h = refl
  none-disagree other r (k ∷ ks) h = ground (arith, h k, none-disagree other r ks h)

  pub merge_from-refused :
      (other r : EntityRoot V)
      → refuses (snapshots other (source_keys other)) r ≡ true
      → merge_from other r ≡ err version_conflict
  unfolding merge_from
  merge_from-refused other r h = rw h refl

  pub merge_from-imported :
      (other r : EntityRoot V)
      → refuses (snapshots other (source_keys other)) r ≡ false
      → merge_from other r ≡ import_all (snapshots other (source_keys other)) r
  unfolding merge_from
  merge_from-imported other r h = rw h refl

  -- If the two ledgers have loaded different versions of some entity, `merge_from` raises the version
  -- conflict.
  pub merge_from-conflict :
      (other r : EntityRoot V) (k : EntityKey)
      → disagree other r k ≡ true
      → merge_from other r ≡ err version_conflict
  merge_from-conflict other r k h = elim (Bool-cases (contains (source_keys other) k)) [
    | inl visited ↦
        let found = any-disagree other r (source_keys other) k visited h in
        merge_from-refused other r (refuses-disagree other r (source_keys other) ∙ found)
    | inr f ↦ ground (arith, unvisited other r k f)
  ]

  -- the versions and the marks of one key once `other` was merged into `r`
  abbrev pub Merged : EntityRoot V → EntityKey → EntityRoot V → EntityRoot V → Type 0
  Merged other k r r' =
      (lookup k r'.original_versions
        ≡ over (lookup k other.original_versions) (lookup k r.original_versions))
      × (contains r'.new_keys k ≡ (contains r.new_keys k || contains other.new_keys k))
      × (contains r'.deleted_keys k ≡ (contains r.deleted_keys k || contains other.deleted_keys k))

  -- When `merge_from` returns, every entity has the version that either ledger had for it, and it is marked
  -- new, or deleted, just when one of the two ledgers had marked it so.
  pub merge_from-Merged :
      (other r r' : EntityRoot V) (k : EntityKey) → merge_from other r ≡ ok r' → Merged other k r r'
  merge_from-Merged other r r' k h =
      elim (Bool-cases (refuses (snapshots other (source_keys other)) r)) [
        | inl t ↦ ground (arith, merge_from-refused other r t)
        | inr f ↦
            let imported = sym (merge_from-imported other r f) ∙ h in
            ground (
              arith,
              import_all-Imported other (source_keys other) k r r' imported,
              contains-source_keys other k,
            )
      ]

  pub set_fields-cons :
      (key : EntityKey) (field : Text) (value : Option V) (values : Fields V) (c : ChangeSet V)
      → blank field ≡ false
      → set_fields key ((field, value) ∷ values) c ≡ set_fields key values (write key field value c)
  unfolding set_fields set_change
  set_fields-cons key field value values c b = rw (b, set_fields, set_change) refl

  set_fields-total :
      (key : EntityKey) (values : Fields V) (c : ChangeSet V)
      → NoBlank values
      → (c' : ChangeSet V) × (set_fields key values c ≡ ok c')
  unfolding set_fields
  set_fields-total key [] c _ = (c, refl)
  set_fields-total key ((field, value) ∷ values) c (b, n) =
      let (c', g) = set_fields-total key values (write key field value c) n in
      (c', set_fields-cons key field value values c b ∙ g)

  import_all-total :
      (other : EntityRoot V) (ks : List EntityKey) (r : EntityRoot V)
      → AllNamed other.current
      → (r' : EntityRoot V) × (import_all (snapshots other ks) r ≡ ok r')
  unfolding snapshots import_all entity_snapshot
  import_all-total other [] r n = (r, refl)
  import_all-total other (k ∷ ks) r n =
      let (c, g) =
        set_fields-total k (get_or k [] other.current) r.current
          (AllNamed-get_or k other.current n) in
      let e = entity_snapshot k other in
      let (r', h) = import_all-total other ks (import_rest e (record r { current = c })) n in
      (r', import_all-cons e (snapshots other ks) r _ (import_entry-ok e c r g) ∙ h)

  pub merge_from-total :
      (other r : EntityRoot V)
      → AllNamed other.current
      → ((k : EntityKey) → disagree other r k ≡ false)
      → (r' : EntityRoot V) × (merge_from other r ≡ ok r')
  merge_from-total other r n h =
      let (r', g) = import_all-total other (source_keys other) r n in
      let agreed =
        refuses-disagree other r (source_keys other)
        ∙ none-disagree other r (source_keys other) h in
      (r', merge_from-imported other r agreed ∙ g)
