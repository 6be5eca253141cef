-- ===== src/Ledger/Soundness.antt =====
-- src/teaql/core/entity.py: the names of the fields in a ledger's change sets, through each method.
use teaql_python.Base.{
  ℕ, ◌≡◌, refl, sym, ◌∙◌, subst, Bool, true, false, inl, inr, Option, none, some, List, [], ◌∷◌,
  arith, list_eq, nat_eq, map, Bool-cases, All,
}
use teaql_python.Base.Dict.{lookup, insert, erase, update, get_or, update-NodupKeys}
use teaql_python.Base.Text.{Text, blank}
use teaql_python.Ledger.Defs.{
  EntityKey, key_eq, TraceNode, value_error, ok, err, Result-cases, ok_inj, Fields, ChangeSet,
  write, set_change, set_fields, put_values, rekey_changes,
}
use teaql_python.Ledger.Root.{EntityRoot, Entry, mark_as_new, mark_as_deleted}
use teaql_python.Ledger.Merge.{
  import_entry, import_rest, import_version, import_added, import_removed, import_trace, import_all,
}
use teaql_python.Ledger.Changes.{
  IsTidy, NoBlank, AllNamed, get_or-NodupKeys, AllNamed-get_or, insert-IsTidy, erase-IsTidy,
  write-IsTidy, write-insert, rekey-put_values, handed,
}
use teaql_python.Ledger.Imports.{import_entry-ok, import_entry-err, import_all-cons, import_all-err}
use teaql_python.Ledger.Merging.{set_fields-cons}

module _ {V : Type 0} where
  insert-NoBlank :
      (field : Text) (value : Option V) (d : Fields V)
      → blank field ≡ false
      → NoBlank d
      → NoBlank (insert field value d)
  unfolding insert
  insert-NoBlank field value [] b _ = (b, tt)
  insert-NoBlank field value ((f, w) ∷ d) b (n, m) =
      ground (arith, insert-NoBlank field value d b m)

  update-NoBlank : (d other : Fields V) → NoBlank d → NoBlank other → NoBlank (update d other)
  unfolding update
  update-NoBlank d [] n _ = n
  update-NoBlank d ((f, w) ∷ other) n (b, m) =
      update-NoBlank (insert f w d) other (insert-NoBlank f w d b n) m

  insert-AllNamed :
      (key : EntityKey) (fields : Fields V) (c : ChangeSet V)
      → NoBlank fields
      → AllNamed c
      → AllNamed (insert key fields c)
  unfolding insert
  insert-AllNamed key fields [] n _ = (n, tt)
  insert-AllNamed key fields ((k, w) ∷ c) n (m, ms) =
      ground (arith, insert-AllNamed key fields c n ms)

  erase-AllNamed : (key : EntityKey) (c : ChangeSet V) → AllNamed c → AllNamed (erase key c)
  unfolding erase
  erase-AllNamed key [] _ = tt
  erase-AllNamed key ((k, w) ∷ c) (n, ns) = ground (arith, erase-AllNamed key c ns)

  -- a change set in which no entity has a field twice and no field has a blank name
  abbrev pub IsSound : ChangeSet V → Type 0
  IsSound c = IsTidy c × AllNamed c

  pub write-IsSound :
      (key : EntityKey) (field : Text) (value : Option V) (c : ChangeSet V)
      → blank field ≡ false
      → IsSound c
      → IsSound (write key field value c)
  write-IsSound key field value c b (t, n) = (
    write-IsTidy key field value c t,
    rw (write-insert key field value c)
        (insert-AllNamed key _ c (insert-NoBlank field value _ b (AllNamed-get_or key c n)) n),
  )

  pub erase-IsSound : (key : EntityKey) (c : ChangeSet V) → IsSound c → IsSound (erase key c)
  erase-IsSound key c (t, n) = (erase-IsTidy key c t, erase-AllNamed key c n)

  put_values-IsSound :
      (new : EntityKey) (values : Option (Fields V)) (c : ChangeSet V)
      → NoBlank (handed values)
      → IsSound c
      → IsSound (put_values new values c)
  unfolding put_values
  put_values-IsSound new none c _ s = s
  put_values-IsSound new (some []) c _ s = s
  put_values-IsSound new (some (v ∷ values)) c n (t, ns) = (
    insert-IsTidy new _ c
        (update-NodupKeys (get_or new [] c) (v ∷ values) (get_or-NodupKeys new c t)) t,
    insert-AllNamed new _ c
        (update-NoBlank (get_or new [] c) (v ∷ values) (AllNamed-get_or new c ns) n) ns,
  )

  pub rekey-IsSound :
      (old new : EntityKey) (c : ChangeSet V) → IsSound c → IsSound (rekey_changes old new c)
  rekey-IsSound old new c (t, n) = rw (rekey-put_values old new c) (
      put_values-IsSound new (lookup old c) (erase old c) (AllNamed-get_or old c n)
        (erase-IsSound old c (t, n)))

  set_fields-blank :
      (key : EntityKey) (field : Text) (value : Option V) (values : Fields V) (c : ChangeSet V)
      → blank field ≡ true
      → set_fields key ((field, value) ∷ values) c ≡ err value_error
  unfolding set_fields set_change
  set_fields-blank key field value values c b = rw (b, set_fields, set_change) refl

  set_fields-IsSound :
      (key : EntityKey) (values : Fields V) (c c' : ChangeSet V)
      → IsSound c
      → set_fields key values c ≡ ok c'
      → IsSound c'
  unfolding set_fields
  set_fields-IsSound key [] c c' s h = subst IsSound (ok_inj c c' h) s
  set_fields-IsSound key ((field, value) ∷ values) c c' s h = elim (Bool-cases (blank field)) [
    | inl b ↦ ground (arith, set_fields-blank key field value values c b)
    | inr n ↦
        set_fields-IsSound key values (write key field value c) c'
          (write-IsSound key field value c n s)
          (sym (set_fields-cons key field value values c n) ∙ h)
  ]

  pub map-All :
      (f : ChangeSet V → ChangeSet V) (cs : List (ChangeSet V))
      → ((c : ChangeSet V) → IsSound c → IsSound (f c))
      → All IsSound cs
      → All IsSound (map f cs)
  map-All f [] h _ = tt
  map-All f (c ∷ cs) h (s, ss) = (h c s, map-All f cs h ss)

  -- the whole stack of change sets is sound
  abbrev pub RootIsSound : EntityRoot V → Type 0
  RootIsSound r = All IsSound (r.current ∷ r.outer)

  pub mark_as_deleted-RootIsSound :
      (key : EntityKey) (r : EntityRoot V) → RootIsSound r → RootIsSound (mark_as_deleted key r)
  unfolding mark_as_deleted
  mark_as_deleted-RootIsSound key r (s, ss) =
      (erase-IsSound key r.current s, map-All (erase key) r.outer (erase-IsSound key) ss)

  version-RootIsSound :
      (key : EntityKey) (version : Option ℕ) (r : EntityRoot V)
      → RootIsSound r
      → RootIsSound (import_version key version r)
  unfolding import_version
  version-RootIsSound key none r s = s
  version-RootIsSound key (some v) r s = s

  added-RootIsSound :
      (key : EntityKey) (added : Bool) (r : EntityRoot V)
      → RootIsSound r
      → RootIsSound (import_added key added r)
  unfolding import_added mark_as_new
  added-RootIsSound key true r s = s
  added-RootIsSound key false r s = s

  removed-RootIsSound :
      (key : EntityKey) (removed : Bool) (r : EntityRoot V)
      → RootIsSound r
      → RootIsSound (import_removed key removed r)
  unfolding import_removed
  removed-RootIsSound key true r s = mark_as_deleted-RootIsSound key r s
  removed-RootIsSound key false r s = s

  trace-RootIsSound :
      (key : EntityKey) (trace : Option (List TraceNode)) (r : EntityRoot V)
      → RootIsSound r
      → RootIsSound (import_trace key trace r)
  unfolding import_trace
  trace-RootIsSound key none r s = s
  trace-RootIsSound key (some nodes) r s = s

  import_rest-RootIsSound :
      (e : Entry V) (r : EntityRoot V) → RootIsSound r → RootIsSound (import_rest e r)
  import_rest-RootIsSound e r s =
      let r1 = import_version e.key e.version r in
      let r2 = import_added e.key e.added r1 in
      trace-RootIsSound e.key e.trace (import_removed e.key e.removed r2) (
        removed-RootIsSound e.key e.removed r2
          (added-RootIsSound e.key e.added r1 (version-RootIsSound e.key e.version r s)))

  pub import_entry-RootIsSound :
      (e : Entry V) (r r' : EntityRoot V)
      → RootIsSound r
      → import_entry e r ≡ ok r'
      → RootIsSound r'
  import_entry-RootIsSound e r r' (s, ss) h =
      elim (Result-cases (set_fields e.key e.values r.current)) [
        | inl (c, g) ↦
            let same = ok_inj _ r' (sym (import_entry-ok e c r g) ∙ h) in
            subst RootIsSound same (
              import_rest-RootIsSound e (record r { current = c })
                (set_fields-IsSound e.key e.values r.current c s g, ss))
        | inr (x, g) ↦ ground (arith, import_entry-err e x r g)
      ]

  pub import_all-RootIsSound :
      (es : List (Entry V)) (r r' : EntityRoot V)
      → RootIsSound r
      → import_all es r ≡ ok r'
      → RootIsSound r'
  unfolding import_all
  import_all-RootIsSound [] r r' s h = subst RootIsSound (ok_inj r r' h) s
  import_all-RootIsSound (e ∷ es) r r' s h = elim (Result-cases (import_entry e r)) [
    | inl (r1, g) ↦
        import_all-RootIsSound es r1 r' (import_entry-RootIsSound e r r1 s g)
          (sym (import_all-cons e es r r1 g) ∙ h)
    | inr (x, g) ↦ ground (arith, import_all-err e es r x g)
  ]
