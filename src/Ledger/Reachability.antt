-- ===== src/Ledger/Reachability.antt =====
-- src/teaql/core/entity.py: the ledgers that the methods of `EntityRoot` can make, in any order of calls.
use teaql_python.Base.{
  ℕ, ◌≡◌, refl, sym, ◌∙◌, subst, true, false, inl, inr, Option, List, ◌∷◌, arith, list_eq, nat_eq,
  ◌==◌, Bool-cases, All, All-map,
}
use teaql_python.Base.Dict.{erase}
use teaql_python.Base.Text.{Text, blank}
use teaql_python.Ledger.Defs.{
  EntityKey, key_eq, TraceNode, version_conflict, ok, err, ok_inj, ChangeSet, rekey_changes,
}
use teaql_python.Ledger.Root.{
  EntityRoot, new_root, set_trace_chain, push_change_set, pop_change_set, set_field, mark_as_new,
  mark_as_deleted, set_original_version, accept_committed_version, clear_committed, clear_entity,
  rekey, conflicts, has_pending,
}
use teaql_python.Ledger.Merge.{
  merge_from, merge_entity_from, refuses, entity_snapshot, snapshots, source_keys, import_entry,
}
use teaql_python.Ledger.Changes.{AllNamed}
use teaql_python.Ledger.Soundness.{
  IsSound, RootIsSound, map-All, mark_as_deleted-RootIsSound, import_entry-RootIsSound,
  import_all-RootIsSound, rekey-IsSound, write-IsSound, erase-IsSound,
}
use teaql_python.Ledger.Merging.{
  disagree, merge_from-total, merge_from-refused, merge_from-imported,
}
use teaql_python.Ledger.Renaming.{Renamed, rekey-Renamed, rekey-ok, rekey-same}
use teaql_python.Ledger.Reads.{set_field-blank, set_field-named}

module _ {V : Type 0} where
  -- one call of a method that changes the ledger and returns
  pub data LedgerCall : EntityRoot V → EntityRoot V → Type 0 where
    set_trace_chain_call :
        (key : EntityKey) (nodes : List TraceNode) (r r' : EntityRoot V)
        → set_trace_chain key nodes r ≡ ok r'
        → LedgerCall r r'
    push_call : (r : EntityRoot V) → LedgerCall r (push_change_set r)
    pop_call :
        (c : ChangeSet V) (r r' : EntityRoot V) → pop_change_set r ≡ ok (c, r') → LedgerCall r r'
    set_call :
        (key : EntityKey) (field : Text) (value : Option V) (r r' : EntityRoot V)
        → set_field key field value r ≡ ok r'
        → LedgerCall r r'
    new_call : (key : EntityKey) (r : EntityRoot V) → LedgerCall r (mark_as_new key r)
    deleted_call : (key : EntityKey) (r : EntityRoot V) → LedgerCall r (mark_as_deleted key r)
    version_call :
        (key : EntityKey) (version : ℕ) (r r' : EntityRoot V)
        → set_original_version key version r ≡ ok r'
        → LedgerCall r r'
    accept_call :
        (key : EntityKey) (version : ℕ) (r r' : EntityRoot V)
        → accept_committed_version key version r ≡ ok r'
        → LedgerCall r r'
    clear_committed_call : (r : EntityRoot V) → LedgerCall r (clear_committed r)
    clear_entity_call : (key : EntityKey) (r : EntityRoot V) → LedgerCall r (clear_entity key r)
    rekey_call :
        (old new : EntityKey) (r r' : EntityRoot V) → rekey old new r ≡ ok r' → LedgerCall r r'

  -- the ledgers that calls make from new ones
  pub data Reachable : EntityRoot V → Type 0 where
    created : Reachable new_root
    called : (r r' : EntityRoot V) → Reachable r → LedgerCall r r' → Reachable r'
    merged :
        (other r r' : EntityRoot V)
        → Reachable other
        → Reachable r
        → merge_from other r ≡ ok r'
        → Reachable r'
    entity_merged :
        (other : EntityRoot V) (key : EntityKey) (r r' : EntityRoot V)
        → Reachable other
        → Reachable r
        → merge_entity_from other key r ≡ ok r'
        → Reachable r'

  -- the change sets are as they were
  abbrev Stays : EntityRoot V → EntityRoot V → Type 0
  Stays r r' = (r'.current ≡ r.current) × (r'.outer ≡ r.outer)

  set_trace_chain-Stays :
      (key : EntityKey) (nodes : List TraceNode) (r r' : EntityRoot V)
      → set_trace_chain key nodes r ≡ ok r'
      → Stays r r'
  unfolding set_trace_chain
  set_trace_chain-Stays key nodes r r' h = ground arith

  set_original_version-Stays :
      (key : EntityKey) (version : ℕ) (r r' : EntityRoot V)
      → set_original_version key version r ≡ ok r'
      → Stays r r'
  unfolding set_original_version
  set_original_version-Stays key version r r' h = ground arith

  accept-Stays :
      (key : EntityKey) (version : ℕ) (r r' : EntityRoot V)
      → accept_committed_version key version r ≡ ok r'
      → Stays r r'
  unfolding accept_committed_version
  accept-Stays key version r r' h = ground arith

  Stays-RootIsSound : (r r' : EntityRoot V) → Stays r r' → RootIsSound r → RootIsSound r'
  Stays-RootIsSound r r' (c, o) s =
      subst (All (IsSound {V = V})) {x = r.current ∷ r.outer} {y = r'.current ∷ r'.outer}
        (ground arith) s

  set_field-RootIsSound :
      (key : EntityKey) (field : Text) (value : Option V) (r r' : EntityRoot V)
      → RootIsSound r
      → set_field key field value r ≡ ok r'
      → RootIsSound r'
  set_field-RootIsSound key field value r r' (s, ss) h = elim (Bool-cases (blank field)) [
    | inl b ↦ ground (arith, set_field-blank key field value r b)
    | inr n ↦
        subst RootIsSound (ok_inj _ r' (sym (set_field-named key field value r n) ∙ h))
          (write-IsSound key field value r.current n s, ss)
  ]

  pop-outer :
      (c : ChangeSet V) (r r' : EntityRoot V)
      → pop_change_set r ≡ ok (c, r')
      → r.outer ≡ (r'.current ∷ r'.outer)
  unfolding pop_change_set
  pop-outer c r r' h = ground arith

  pop-RootIsSound :
      (c : ChangeSet V) (r r' : EntityRoot V)
      → RootIsSound r
      → pop_change_set r ≡ ok (c, r')
      → RootIsSound r'
  pop-RootIsSound c r r' (s, ss) h = subst (All (IsSound {V = V})) (pop-outer c r r' h) ss

  rekey-RootIsSound :
      (old new : EntityKey) (r r' : EntityRoot V)
      → RootIsSound r
      → rekey old new r ≡ ok r'
      → RootIsSound r'
  rekey-RootIsSound old new r r' (s, ss) h = elim (Bool-cases (old == new)) [
    | inl e ↦ subst RootIsSound (ok_inj r r' (sym (rekey-same old new r e) ∙ h)) (s, ss)
    | inr n ↦
        subst RootIsSound (rekey-ok old new r r' (λ e. ground (arith, key_eq.equal_iff old new)) h)
          (
            rekey-IsSound old new r.current s,
            map-All (rekey_changes old new) r.outer (rekey-IsSound old new) ss,
          )
  ]

  LedgerCall-RootIsSound : (r r' : EntityRoot V) → LedgerCall r r' → RootIsSound r → RootIsSound r'
  unfolding push_change_set mark_as_new clear_committed clear_entity
  LedgerCall-RootIsSound _ _ (set_trace_chain_call key nodes r r' h) s =
      Stays-RootIsSound r r' (set_trace_chain-Stays key nodes r r' h) s
  LedgerCall-RootIsSound _ _ (push_call r) s = ((tt, tt), s)
  LedgerCall-RootIsSound _ _ (pop_call c r r' h) s = pop-RootIsSound c r r' s h
  LedgerCall-RootIsSound _ _ (set_call key field value r r' h) s =
      set_field-RootIsSound key field value r r' s h
  LedgerCall-RootIsSound _ _ (new_call key r) s = s
  LedgerCall-RootIsSound _ _ (deleted_call key r) s = mark_as_deleted-RootIsSound key r s
  LedgerCall-RootIsSound _ _ (version_call key version r r' h) s =
      Stays-RootIsSound r r' (set_original_version-Stays key version r r' h) s
  LedgerCall-RootIsSound _ _ (accept_call key version r r' h) s =
      Stays-RootIsSound r r' (accept-Stays key version r r' h) s
  LedgerCall-RootIsSound _ _ (clear_committed_call r) (s, ss) = ((tt, tt), ss)
  LedgerCall-RootIsSound _ _ (clear_entity_call key r) (s, ss) =
      (erase-IsSound key r.current s, map-All (erase key) r.outer (erase-IsSound key) ss)
  LedgerCall-RootIsSound _ _ (rekey_call old new r r' h) s = rekey-RootIsSound old new r r' s h

  merge_from-RootIsSound :
      (other r r' : EntityRoot V) → RootIsSound r → merge_from other r ≡ ok r' → RootIsSound r'
  merge_from-RootIsSound other r r' s h =
      elim (Bool-cases (refuses (snapshots other (source_keys other)) r)) [
        | inl t ↦ ground (arith, merge_from-refused other r t)
        | inr f ↦
            import_all-RootIsSound (snapshots other (source_keys other)) r r' s
              (sym (merge_from-imported other r f) ∙ h)
      ]

  merge_entity_from-refused :
      (other : EntityRoot V) (key : EntityKey) (r : EntityRoot V)
      → conflicts key (entity_snapshot key other).version r ≡ true
      → merge_entity_from other key r ≡ err version_conflict
  unfolding merge_entity_from
  merge_entity_from-refused other key r h = rw (h, merge_entity_from) refl

  merge_entity_from-imported :
      (other : EntityRoot V) (key : EntityKey) (r : EntityRoot V)
      → conflicts key (entity_snapshot key other).version r ≡ false
      → merge_entity_from other key r ≡ import_entry (entity_snapshot key other) r
  unfolding merge_entity_from
  merge_entity_from-imported other key r h = rw (h, merge_entity_from) refl

  merge_entity_from-RootIsSound :
      (other : EntityRoot V) (key : EntityKey) (r r' : EntityRoot V)
      → RootIsSound r
      → merge_entity_from other key r ≡ ok r'
      → RootIsSound r'
  merge_entity_from-RootIsSound other key r r' s h =
      elim (Bool-cases (conflicts key (entity_snapshot key other).version r)) [
        | inl t ↦ ground (arith, merge_entity_from-refused other key r t)
        | inr f ↦
            import_entry-RootIsSound (entity_snapshot key other) r r' s
              (sym (merge_entity_from-imported other key r f) ∙ h)
      ]

  -- In every change set of a ledger that calls of the methods have made, in any order, no entity has a field
  -- twice and no field has a blank name.
  pub Reachable-RootIsSound : (r : EntityRoot V) → Reachable r → RootIsSound r
  Reachable-RootIsSound _ created = ((tt, tt), tt)
  Reachable-RootIsSound _ (called r r' w c) =
      LedgerCall-RootIsSound r r' c (Reachable-RootIsSound r w)
  Reachable-RootIsSound _ (merged other r r' _ w h) =
      merge_from-RootIsSound other r r' (Reachable-RootIsSound r w) h
  Reachable-RootIsSound _ (entity_merged other key r r' _ w h) =
      merge_entity_from-RootIsSound other key r r' (Reachable-RootIsSound r w) h

  -- In a ledger that calls of the methods have made, `rekey` to another key with nothing pending, when it
  -- returns, gives the new key every field of the old one and the old key's version where there was one,
  -- marks the new key as new, or as deleted, exactly if one of the two keys was marked so, leaves nothing
  -- pending, no mark and no version for the old key, and changes neither the fields nor the version nor the
  -- marks of any other entity.
  pub Reachable-Renamed :
      (old new : EntityKey) (r r' : EntityRoot V)
      → Reachable r
      → ¬ (old ≡ new)
      → has_pending new r ≡ false
      → rekey old new r ≡ ok r'
      → Renamed old new r r'
  unfolding has_pending
  Reachable-Renamed old new r r' w apart idle h =
      rekey-Renamed old new r r' apart
        (All-map (r.current ∷ r.outer) (λ _ s. s.0) (Reachable-RootIsSound r w)) (ground arith) h

  Reachable-AllNamed : (r : EntityRoot V) → Reachable r → AllNamed r.current
  Reachable-AllNamed r w = let ((_, n), _) = Reachable-RootIsSound r w in n

  -- `merge_from` of a ledger that calls of the methods have made returns if no entity was loaded in two
  -- versions.
  pub Reachable-merged :
      (other r : EntityRoot V)
      → Reachable other
      → ((k : EntityKey) → disagree other r k ≡ false)
      → (r' : EntityRoot V) × (merge_from other r ≡ ok r')
  Reachable-merged other r w agree = merge_from-total other r (Reachable-AllNamed other w) agree
