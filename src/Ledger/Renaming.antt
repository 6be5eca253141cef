-- ===== src/Ledger/Renaming.antt =====
-- src/teaql/core/entity.py: `EntityRoot.rekey`, which gives a saved entity its final identifier.
use teaql_python.Base.{
  ◌≡◌, refl, sym, ◌∙◌, subst, true, false, ◌||◌, inl, inr, Option, none, some, List, [], ◌∷◌, arith,
  list_eq, nat_eq, if◌then◌else◌, any, map, contains, ◌==◌, Bool-cases, Option-cases, All,
}
use teaql_python.Base.Dict.{Dict, lookup, erase, has, over, lookup-nil, lookup-insert, lookup-erase}
use teaql_python.Base.Sets.{discard, contains-add, contains-discard}
use teaql_python.Base.Text.{Text}
use teaql_python.Ledger.Defs.{
  EntityKey, key_eq, version_conflict, ok, err, ok_inj, Fields, ChangeSet, get_change, put_values,
  rekey_changes,
}
use teaql_python.Ledger.Root.{
  EntityRoot, find_field, get_field, has_pending, original_version, conflicts, move, move_key,
  rename_chains, rekey,
}
use teaql_python.Ledger.Changes.{
  IsTidy, get_change-get_or, renamed_field, get_change-rekey, rekey-put_values,
}

lookup-move :
    {A : Type 0} (old new k : EntityKey) (d : Dict EntityKey A)
    → ¬ (old ≡ new)
    → lookup k (move old new d) ≡ (
        if k == new
        then over (lookup old d) (lookup new d)
        else if k == old
        then none
        else lookup k d)
unfolding move
lookup-move old new k d apart = elim (Option-cases (lookup old d)) [
  | inl g ↦ rw (g, move) (ground (arith, key_eq.equal_iff k new, key_eq.equal_iff k old))
  | inr (a, g) ↦
      rw (g, move)
        (ground (
          arith,
          lookup-insert k new a (erase old d),
          lookup-erase k old d,
          key_eq.equal_iff k new,
          key_eq.equal_iff k old,
        ))
]

contains-move_key :
    (old new k : EntityKey) (s : List EntityKey)
    → ¬ (old ≡ new)
    → contains (move_key old new s) k ≡ (
        if k == new
        then contains s old || contains s new
        else if k == old
        then false
        else contains s k)
unfolding move_key
contains-move_key old new k s apart = ground (
  arith,
  contains-add new k (discard old s),
  contains-discard old k s,
  key_eq.equal_iff k new,
  key_eq.equal_iff k old,
)

-- The new key is marked if one of the two was, and the old one is not.
abbrev pub MarkMoves : EntityKey → EntityKey → List EntityKey → List EntityKey → Type 0
MarkMoves old new s s' =
    (contains s' new ≡ (contains s old || contains s new)) × (contains s' old ≡ false)

move_key-MarkMoves :
    (old new : EntityKey) (s : List EntityKey)
    → ¬ (old ≡ new)
    → MarkMoves old new s (move_key old new s)
move_key-MarkMoves old new s apart = (
  ground (arith, contains-move_key old new new s apart, key_eq.equal_iff new new),
  ground (
    arith,
    contains-move_key old new old s apart,
    key_eq.equal_iff old new,
    key_eq.equal_iff old old,
  ),
)

module _ {V : Type 0} where
  has-put_values :
      (new k : EntityKey) (values : Option (Fields V)) (c : ChangeSet V)
      → ¬ (k ≡ new)
      → lookup k (put_values new values c) ≡ lookup k c
  unfolding put_values
  has-put_values new k none c _ = refl
  has-put_values new k (some []) c _ = refl
  has-put_values new k (some (v ∷ values)) c apart =
      lookup-insert k new _ c ∙ ground (arith, key_eq.equal_iff k new)

  has-rekey :
      (old new : EntityKey) (c : ChangeSet V)
      → ¬ (old ≡ new)
      → lookup old (rekey_changes old new c) ≡ none
  has-rekey old new c apart = rw (rekey-put_values old new c) (
      has-put_values new old (lookup old c) (erase old c) apart
      ∙ (lookup-erase old old c ∙ ground (arith, key_eq.equal_iff old old)))

  any-rekey :
      (old new : EntityKey) (cs : List (ChangeSet V))
      → ¬ (old ≡ new)
      → any (has old) (map (rekey_changes old new) cs) ≡ false
  any-rekey old new [] _ = refl
  any-rekey old new (c ∷ cs) apart = rw (has-rekey old new c apart) (any-rekey old new cs apart)

  -- a field of an entity that is neither the old one nor the new one
  find_field-other :
      (old new k : EntityKey) (f : Text) (cs : List (ChangeSet V))
      → All IsTidy cs
      → ¬ (old ≡ new)
      → ¬ (k ≡ new)
      → find_field k f (map (rekey_changes old new) cs)
        ≡ (if k == old then none else find_field k f cs)
  unfolding find_field
  find_field-other old new k f [] _ apart kn = ground arith
  find_field-other old new k f (c ∷ cs) (t, ts) apart kn = ground (
    arith,
    get_change-rekey old new k f c t apart,
    find_field-other old new k f cs ts apart kn,
    key_eq.equal_iff k new,
  )

  renamed_field-fresh :
      (old new : EntityKey) (f : Text) (c : ChangeSet V)
      → has new c ≡ false
      → renamed_field old new f c ≡ get_change old f c
  renamed_field-fresh old new f c h =
      rw (get_change-get_or old f c) (ground (arith, lookup-nil {V = Option V} f))

  find_field-moved :
      (old new : EntityKey) (f : Text) (cs : List (ChangeSet V))
      → All IsTidy cs
      → ¬ (old ≡ new)
      → any (has new) cs ≡ false
      → find_field new f (map (rekey_changes old new) cs) ≡ find_field old f cs
  unfolding find_field
  find_field-moved old new f [] _ apart fresh = refl
  find_field-moved old new f (c ∷ cs) (t, ts) apart fresh = ground (
    arith,
    get_change-rekey old new new f c t apart,
    renamed_field-fresh old new f c,
    find_field-moved old new f cs ts apart,
    key_eq.equal_iff new new,
  )

  -- What `rekey` does: the fields and the version of the old key are the new key's, which had no pending
  -- change before, a mark of either key is the new key's, the old key is no longer known, and every other
  -- entity is as it was.
  abbrev pub Renamed : EntityKey → EntityKey → EntityRoot V → EntityRoot V → Type 0
  Renamed old new r r' =
      ((f : Text) → get_field new f r' ≡ get_field old f r)
      × (has_pending old r' ≡ false)
      × (lookup old r'.original_versions ≡ none)
      × (lookup new r'.original_versions
          ≡ over (lookup old r.original_versions) (lookup new r.original_versions))
      × MarkMoves old new r.new_keys r'.new_keys
      × MarkMoves old new r.deleted_keys r'.deleted_keys
      × ((k : EntityKey)
          → ¬ (k ≡ old)
          → ¬ (k ≡ new)
          → ((f : Text) → get_field k f r' ≡ get_field k f r)
            × (lookup k r'.original_versions ≡ lookup k r.original_versions)
            × (contains r'.new_keys k ≡ contains r.new_keys k)
            × (contains r'.deleted_keys k ≡ contains r.deleted_keys k))

  -- the ledger that `rekey` makes
  abbrev pub renamed : EntityKey → EntityKey → EntityRoot V → EntityRoot V
  renamed old new r = record {
    current = rekey_changes old new r.current;
    outer = map (rekey_changes old new) r.outer;
    original_versions = move old new r.original_versions;
    new_keys = move_key old new r.new_keys;
    deleted_keys = move_key old new r.deleted_keys;
    trace_chains = rename_chains old new (move old new r.trace_chains);
  }

  renamed-Renamed :
      (old new : EntityKey) (r : EntityRoot V)
      → ¬ (old ≡ new)
      → All IsTidy (r.current ∷ r.outer)
      → any (has new) (r.current ∷ r.outer) ≡ false
      → Renamed old new r (renamed old new r)
  unfolding get_field has_pending
  renamed-Renamed old new r apart tidy fresh = (
    λ f. find_field-moved old new f (r.current ∷ r.outer) tidy apart fresh,
    ground (
      arith,
      contains-move_key old new old r.new_keys apart,
      contains-move_key old new old r.deleted_keys apart,
      any-rekey old new (r.current ∷ r.outer) apart,
      key_eq.equal_iff old new,
      key_eq.equal_iff old old,
    ),
    ground (
      arith,
      lookup-move old new old r.original_versions apart,
      key_eq.equal_iff old new,
      key_eq.equal_iff old old,
    ),
    ground (arith, lookup-move old new new r.original_versions apart, key_eq.equal_iff new new),
    move_key-MarkMoves old new r.new_keys apart,
    move_key-MarkMoves old new r.deleted_keys apart,
    λ k ko kn. (
      λ f. ground (
        arith,
        find_field-other old new k f (r.current ∷ r.outer) tidy apart kn,
        key_eq.equal_iff k old,
      ),
      ground (
        arith,
        lookup-move old new k r.original_versions apart,
        key_eq.equal_iff k new,
        key_eq.equal_iff k old,
      ),
      marks k ko kn r.new_keys,
      marks k ko kn r.deleted_keys,
    ),
  )
    where
      marks :
          (k : EntityKey)
          → ¬ (k ≡ old)
          → ¬ (k ≡ new)
          → (s : List EntityKey) → contains (move_key old new s) k ≡ contains s k
      marks k ko kn s = ground (
        arith,
        contains-move_key old new k s apart,
        key_eq.equal_iff k new,
        key_eq.equal_iff k old,
      )

  rekey-conflicts :
      (old new : EntityKey) (r : EntityRoot V)
      → ¬ (old ≡ new)
      → rekey old new r ≡ (
          if conflicts new (original_version old r) r
          then err version_conflict
          else ok (renamed old new r))
  unfolding rekey
  rekey-conflicts old new r apart = elim (Bool-cases (old == new)) [
    | inl h ↦ ground (arith, key_eq.equal_iff old new)
    | inr h ↦ rw (h, rekey) refl
  ]

  pub rekey-same :
      (old new : EntityKey) (r : EntityRoot V) → (old == new) ≡ true → rekey old new r ≡ ok r
  unfolding rekey
  rekey-same old new r h = rw (h, rekey) refl

  pub rekey-ok :
      (old new : EntityKey) (r r' : EntityRoot V)
      → ¬ (old ≡ new)
      → rekey old new r ≡ ok r'
      → renamed old new r ≡ r'
  rekey-ok old new r r' apart h =
      let g = sym (rekey-conflicts old new r apart) ∙ h in
      elim (Bool-cases (conflicts new (original_version old r) r)) [
        | inl t ↦ ground arith
        | inr f ↦ ok_inj _ r' (sym (rw f refl) ∙ g)
      ]

  pub rekey-Renamed :
      (old new : EntityKey) (r r' : EntityRoot V)
      → ¬ (old ≡ new)
      → All IsTidy (r.current ∷ r.outer)
      → any (has new) (r.current ∷ r.outer) ≡ false
      → rekey old new r ≡ ok r'
      → Renamed old new r r'
  rekey-Renamed old new r r' apart tidy fresh h =
      subst (Renamed old new r) (rekey-ok old new r r' apart h)
        (renamed-Renamed old new r apart tidy fresh)
