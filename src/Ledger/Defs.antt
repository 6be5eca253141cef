-- ===== src/Ledger/Defs.antt =====
-- src/teaql/core/entity.py: `EntityKey` and `EntityChangeSet`. An identifier is a number;
-- a field value is an `Option V`, its `none` Python's `None`. A raised exception is an `err`. The key's own test of its
-- entity name is `new_key`.
use teaql_python.Base.{
  ℕ, ◌≡◌, refl, ◌↔◌, ◌⊎◌, inl, inr, Bool, true, ◌&&◌, Option, none, some, [], ◌∷◌, arith,
  if◌then◌else◌, Eq, ◌==◌, nat_eq, list_eq, list_beq_iff, eqb, option_eq,
}
use teaql_python.Base.Dict.{Dict, lookup, insert, erase, update, get_or}
use teaql_python.Base.Text.{Text, blank}

pub data LedgerError : Type 0 where
  value_error type_error runtime_error : LedgerError
  version_conflict pending_changes : LedgerError

pub data Result {ℓ} (A : Type ℓ) : Type ℓ where
  ok : A → Result A
  err : LedgerError → Result A

pub record EntityKey : Type 0 where
  pub entity : Text
  pub id : ℕ

-- `__post_init__`: an entity name that is empty or all spaces is refused
unfoldable pub new_key : Text → ℕ → Result EntityKey
new_key entity id =
    if blank entity then err value_error else ok (record { entity = entity; id = id })

key_beq : EntityKey → EntityKey → Bool
unfolding list_eq
key_beq k j = k.entity == j.entity && eqb k.id j.id

key_beq_iff : (k j : EntityKey) → (key_beq k j ≡ true) ↔ (k ≡ j)
unfolding key_beq list_eq
key_beq_iff k j = (
  λ h. ground (arith, list_beq_iff k.entity j.entity),
  λ h. ground (arith, list_beq_iff k.entity j.entity),
)

instance unfoldable pub key_eq : Eq EntityKey
unfolding key_beq key_beq_iff
key_eq = record { equal = key_beq; equal_iff = key_beq_iff }

-- `TraceNode` of src/teaql/core/mutation.py
pub record TraceNode : Type 0 where
  pub entity_type : Text
  pub entity_id : Option ℕ
  pub comment : Text
  pub kind : Text
  pub name : Text

pub Result-cases :
    {A : Type 0} (x : Result A) → ((a : A) × (x ≡ ok a)) ⊎ ((e : LedgerError) × (x ≡ err e))
Result-cases (ok a) = inl (a, refl)
Result-cases (err e) = inr (e, refl)

pub ok_inj : {A : Type 0} (a b : A) → ok a ≡ ok b → a ≡ b
ok_inj a b h = ground arith

-- the pending fields of one entity
abbrev pub Fields : Type 0 → Type 0
Fields V = Dict Text (Option V)

-- `EntityChangeSet`, its `_changes`
abbrev pub ChangeSet : Type 0 → Type 0
ChangeSet V = Dict EntityKey (Fields V)

module _ {V : Type 0} where
  -- `setdefault(key, {})[field] = value`
  unfoldable pub write : EntityKey → Text → Option V → ChangeSet V → ChangeSet V
  unfolding key_eq list_eq lookup insert
  write key field value changes = insert key (insert field value (get_or key [] changes)) changes

  -- `EntityChangeSet.set`
  unfoldable pub set_change : EntityKey → Text → Option V → ChangeSet V → Result (ChangeSet V)
  unfolding write
  set_change key field value changes =
      if blank field then err value_error else ok (write key field value changes)

  -- `EntityChangeSet.get`; a missing field and a `None` look alike
  unfoldable pub get_change : EntityKey → Text → ChangeSet V → Option V
  unfolding key_eq list_eq lookup
  get_change key field changes = get_or field none (get_or key [] changes)

  -- `EntityChangeSet.merge_from`, over the fields of one entity and then over the entities
  unfoldable pub set_fields : EntityKey → Fields V → ChangeSet V → Result (ChangeSet V)
  unfolding set_change
  set_fields key [] changes = ok changes
  set_fields key ((field, value) ∷ rest) changes = elim (set_change key field value changes) [
    | err e ↦ err e
    | ok changes' ↦ set_fields key rest changes'
  ]

  unfoldable pub merge_changes : ChangeSet V → ChangeSet V → Result (ChangeSet V)
  unfolding set_fields
  merge_changes changes [] = ok changes
  merge_changes changes ((key, values) ∷ rest) = elim (set_fields key values changes) [
    | err e ↦ err e
    | ok changes' ↦ merge_changes changes' rest
  ]

  -- `if values: self._changes.setdefault(new_key, {}).update(values)`
  unfoldable pub put_values : EntityKey → Option (Fields V) → ChangeSet V → ChangeSet V
  unfolding key_eq list_eq lookup insert update
  put_values new none rest = rest
  put_values new (some []) rest = rest
  put_values new (some (v ∷ values)) rest =
      insert new (update (get_or new [] rest) (v ∷ values)) rest

  -- `EntityChangeSet.rekey`
  unfoldable pub rekey_changes : EntityKey → EntityKey → ChangeSet V → ChangeSet V
  unfolding key_eq list_eq lookup erase put_values
  rekey_changes old new changes = put_values new (lookup old changes) (erase old changes)
