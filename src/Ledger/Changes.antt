-- ===== src/Ledger/Changes.antt =====
-- src/teaql/core/entity.py: what `EntityChangeSet` reads back after each of its writes.
use teaql_python.Base.{
  ◌≡◌, refl, false, ◌&&◌, Option, none, some, [], ◌∷◌, arith, if◌then◌else◌, ◌==◌, list_eq, nat_eq,
}
use teaql_python.Base.Dict.{
  lookup, insert, erase, update, over, get_or, lookup-nil, get_or-insert, get_or-erase,
  lookup-update, NodupKeys, insert-NodupKeys,
}
use teaql_python.Base.Text.{Text, blank}
use teaql_python.Ledger.Defs.{
  EntityKey, key_eq, Fields, ChangeSet, write, get_change, put_values, rekey_changes,
}

module _ {V : Type 0} where
  -- no entity has a field twice
  abbrev pub IsTidy : ChangeSet V → Type 0
  IsTidy [] = Unit
  IsTidy ((_, fields) ∷ changes) = NodupKeys fields × IsTidy changes

  -- no field has a blank name
  abbrev pub NoBlank : Fields V → Type 0
  NoBlank [] = Unit
  NoBlank ((field, _) ∷ fields) = (blank field ≡ false) × NoBlank fields

  abbrev pub AllNamed : ChangeSet V → Type 0
  AllNamed [] = Unit
  AllNamed ((_, fields) ∷ changes) = NoBlank fields × AllNamed changes

  pub AllNamed-get_or : (key : EntityKey) (c : ChangeSet V) → AllNamed c → NoBlank (get_or key [] c)
  unfolding lookup
  AllNamed-get_or key [] _ = tt
  AllNamed-get_or key ((k, fields) ∷ c) (b, n) = ground (arith, AllNamed-get_or key c n)

  pub get_or-NodupKeys :
      (key : EntityKey) (c : ChangeSet V) → IsTidy c → NodupKeys (get_or key [] c)
  unfolding lookup
  get_or-NodupKeys key [] _ = tt
  get_or-NodupKeys key ((k, fields) ∷ c) (u, t) = ground (arith, get_or-NodupKeys key c t)

  pub insert-IsTidy :
      (key : EntityKey) (fields : Fields V) (c : ChangeSet V)
      → NodupKeys fields
      → IsTidy c
      → IsTidy (insert key fields c)
  unfolding insert
  insert-IsTidy key fields [] u _ = (u, tt)
  insert-IsTidy key fields ((k, w) ∷ c) u (v, t) = ground (arith, insert-IsTidy key fields c u t)

  pub erase-IsTidy : (key : EntityKey) (c : ChangeSet V) → IsTidy c → IsTidy (erase key c)
  unfolding erase
  erase-IsTidy key [] _ = tt
  erase-IsTidy key ((k, w) ∷ c) (v, t) = ground (arith, erase-IsTidy key c t)

  pub get_change-get_or :
      (k : EntityKey) (f : Text) (c : ChangeSet V)
      → get_change k f c ≡ get_or f none (get_or k [] c)
  unfolding get_change
  get_change-get_or k f c = refl

  pub write-insert :
      (key : EntityKey) (field : Text) (value : Option V) (c : ChangeSet V)
      → write key field value c ≡ insert key (insert field value (get_or key [] c)) c
  unfolding write
  write-insert key field value c = refl

  pub get_change-write :
      (key k : EntityKey) (field f : Text) (value : Option V) (c : ChangeSet V)
      → get_change k f (write key field value c)
        ≡ (if k == key && f == field then value else get_change k f c)
  get_change-write key k field f value c =
      rw
        (
          get_change-get_or k f (write key field value c),
          get_change-get_or k f c,
          write-insert key field value c,
          get_or-insert k key [] (insert field value (get_or key [] c)) c,
        )
        (ground (arith, key_eq.equal_iff k key, get_or-insert f field none value (get_or key [] c)))

  pub write-IsTidy :
      (key : EntityKey) (field : Text) (value : Option V) (c : ChangeSet V)
      → IsTidy c
      → IsTidy (write key field value c)
  write-IsTidy key field value c t =
      rw (write-insert key field value c)
        (insert-IsTidy key _ c (insert-NodupKeys field value _ (get_or-NodupKeys key c t)) t)

  pub get_change-erase :
      (key k : EntityKey) (f : Text) (c : ChangeSet V)
      → get_change k f (erase key c) ≡ (if k == key then none else get_change k f c)
  get_change-erase key k f c =
      rw (get_change-get_or k f (erase key c), get_change-get_or k f c, get_or-erase k key [] c)
        (ground (arith, lookup-nil {V = Option V} f))

  -- The fields an entity has once another entity was renamed to it: those of the renamed one, and its own
  -- where the renamed one had none.
  abbrev pub renamed_field : EntityKey → EntityKey → Text → ChangeSet V → Option V
  renamed_field old new f c =
      elim (over (lookup f (get_or old [] c)) (lookup f (get_or new [] c))) [
        | none ↦ none
        | some value ↦ value
      ]

  -- the fields that a renaming hands over
  abbrev pub handed : Option (Fields V) → Fields V
  handed values = elim values [ none ↦ [] | some values ↦ values ]

  get_or-put_values :
      (new k : EntityKey) (values : Option (Fields V)) (c : ChangeSet V)
      → get_or k [] (put_values new values c)
        ≡ (if k == new then update (get_or new [] c) (handed values) else get_or k [] c)
  unfolding put_values update
  get_or-put_values new k none c = ground (arith, key_eq.equal_iff k new)
  get_or-put_values new k (some []) c = ground (arith, key_eq.equal_iff k new)
  get_or-put_values new k (some (v ∷ values)) c =
      get_or-insert k new [] (update (get_or new [] c) (v ∷ values)) c

  pub rekey-put_values :
      (old new : EntityKey) (c : ChangeSet V)
      → rekey_changes old new c ≡ put_values new (lookup old c) (erase old c)
  unfolding rekey_changes
  rekey-put_values old new c = refl

  pub get_change-rekey :
      (old new k : EntityKey) (f : Text) (c : ChangeSet V)
      → IsTidy c
      → ¬ (old ≡ new)
      → get_change k f (rekey_changes old new c) ≡ (
          if k == new
          then renamed_field old new f c
          else if k == old
          then none
          else get_change k f c)
  get_change-rekey old new k f c t apart =
      rw
        (
          get_change-get_or k f (rekey_changes old new c),
          get_change-get_or k f c,
          rekey-put_values old new c,
          get_or-put_values new k (lookup old c) (erase old c),
          get_or-erase k old [] c,
          get_or-erase new old [] c,
        )
        (ground (
          arith,
          key_eq.equal_iff new old,
          lookup-nil {V = Option V} f,
          lookup-update f (get_or new [] c) (get_or old [] c) (get_or-NodupKeys old c t),
        ))
