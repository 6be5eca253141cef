-- ===== src/Ledger/Reads.antt =====
-- src/teaql/core/entity.py: what a ledger reads after a write, and what is pending once an entity is cleared.
use teaql_python.Base.{
  ℕ, ◌≡◌, refl, sym, ◌∙◌, subst, true, false, not, ◌&&◌, inl, inr, Option, some, List, [], ◌∷◌,
  arith, if◌then◌else◌, any, map, ◌==◌, list_eq, nat_eq, Bool-cases,
}
use teaql_python.Base.Dict.{Dict, lookup, insert, erase, has, over, lookup-insert, lookup-erase}
use teaql_python.Base.Sets.{contains-discard}
use teaql_python.Base.Text.{Text, blank}
use teaql_python.Ledger.Defs.{
  EntityKey, key_eq, value_error, ok, err, ok_inj, ChangeSet, write, set_change, get_change,
}
use teaql_python.Ledger.Root.{
  EntityRoot, set_field, find_field, get_field, has_pending, clear_entity, accept_committed_version,
}
use teaql_python.Ledger.Changes.{get_change-write}

module _ {V : Type 0} where
  pub set_field-blank :
      (key : EntityKey) (field : Text) (value : Option V) (r : EntityRoot V)
      → blank field ≡ true
      → set_field key field value r ≡ err value_error
  unfolding set_field set_change
  set_field-blank key field value r b = rw (b, set_field, set_change) refl

  pub set_field-named :
      (key : EntityKey) (field : Text) (value : Option V) (r : EntityRoot V)
      → blank field ≡ false
      → set_field key field value r ≡ ok (record r { current = write key field value r.current })
  unfolding set_field set_change
  set_field-named key field value r b = rw (b, set_field, set_change) refl

  pub find_field-cons :
      (k : EntityKey) (f : Text) (c : ChangeSet V) (cs : List (ChangeSet V))
      → find_field k f (c ∷ cs) ≡ over (get_change k f c) (find_field k f cs)
  unfolding find_field
  find_field-cons k f c cs = ground (arith)

  get_field-cons :
      (k : EntityKey) (f : Text) (r : EntityRoot V)
      → get_field k f r ≡ over (get_change k f r.current) (find_field k f r.outer)
  unfolding get_field
  get_field-cons k f r = find_field-cons k f r.current r.outer

  -- When `set` returns, `get` of the written field gives the value; a `None` that was written gives what the
  -- outer change sets have for the field. Every other field of every entity reads as before.
  pub get_field-set_field :
      (key k : EntityKey) (field f : Text) (value : Option V) (r r' : EntityRoot V)
      → set_field key field value r ≡ ok r'
      → get_field k f r'
        ≡ (if k == key && f == field then over value (find_field k f r.outer) else get_field k f r)
  get_field-set_field key k field f value r r' h = elim (Bool-cases (blank field)) [
    | inl b ↦ ground (arith, set_field-blank key field value r b)
    | inr n ↦
        let same = ok_inj _ r' (sym (set_field-named key field value r n) ∙ h) in
        subst
          (λ x. get_field k f x ≡ (
            if k == key && f == field
            then over value (find_field k f r.outer)
            else get_field k f r))
          same
          (rw
            (
              get_field-cons k f (record r { current = write key field value r.current }),
              get_field-cons k f r,
              get_change-write key k field f value r.current,
            )
            (ground (arith, key_eq.equal_iff k key)))
  ]

  any-erase :
      (key k : EntityKey) (cs : List (ChangeSet V))
      → any (has k) (map (erase key) cs) ≡ (not (k == key) && any (has k) cs)
  any-erase key k [] = ground arith
  any-erase key k (c ∷ cs) = ground (arith, lookup-erase k key c, any-erase key k cs)

  pub has_pending-clear_entity :
      (key k : EntityKey) (r : EntityRoot V)
      → has_pending k (clear_entity key r) ≡ (not (k == key) && has_pending k r)
  unfolding has_pending clear_entity
  has_pending-clear_entity key k r = ground (
    arith,
    contains-discard key k r.new_keys,
    contains-discard key k r.deleted_keys,
    lookup-erase k key r.current,
    any-erase key k r.outer,
  )

  accept-idle :
      (key : EntityKey) (version : ℕ) (r : EntityRoot V)
      → has_pending key r ≡ false
      → accept_committed_version key version r
        ≡ ok (record r { original_versions = insert key version r.original_versions })
  unfolding accept_committed_version
  accept-idle key version r h = rw h refl

  same-pending :
      (k : EntityKey) (r : EntityRoot V) (versions : Dict EntityKey ℕ)
      → has_pending k (record r { original_versions = versions }) ≡ has_pending k r
  unfolding has_pending
  same-pending k r versions = refl

  -- Once an entity's changes are cleared, `accept_committed_version` returns for it: the version is the
  -- entity's own then, the other entities keep theirs, the entity has nothing pending, and the other
  -- entities have pending what they had.
  pub accept-clear_entity :
      (key : EntityKey) (version : ℕ) (r : EntityRoot V)
      → (r' : EntityRoot V) × (accept_committed_version key version (clear_entity key r) ≡ ok r')
        × ((k : EntityKey)
            → (lookup k r'.original_versions
                ≡ (if k == key then some version else lookup k r.original_versions))
              × (has_pending k r' ≡ (not (k == key) && has_pending k r)))
  unfolding clear_entity
  accept-clear_entity key version r =
      let cleared = clear_entity key r in
      let r' = record cleared {
        original_versions = insert key version cleared.original_versions;
      } in
      (
        r',
        accept-idle key version cleared
            (ground (arith, has_pending-clear_entity key key r, key_eq.equal_iff key key)),
        λ k. (
          lookup-insert k key version r.original_versions,
          same-pending k cleared _ ∙ has_pending-clear_entity key k r,
        ),
      )
