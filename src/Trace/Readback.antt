-- ===== src/Trace/Readback.antt =====
-- src/teaql/core/trace.py: the readback path of a mutation.
use teaql_python.Base.{
  ◌≡◌, refl, ◌∙◌, sym, ap, true, false, List, [], ◌∷◌, ◌++◌, inl, inr, if◌then◌else◌, if-keeps,
  list_eq, nat_eq, ◌==◌, All, Bool-cases,
}
use teaql_python.Base.Text.{Text, text}
use teaql_python.Ledger.Defs.{TraceNode}
use teaql_python.Trace.Paths.{
  frame, is_kind, is_complete, first_name, last_entity, operation_frame, subject_frame,
  provider_frame, sql_frame, relations_of, new_path, canonical_sql_trace_path, operation_name,
  readback_node, readback_nodes, physical_readback_path,
}
use teaql_python.Trace.Canonical.{KeepsSmall, kind_of-frame, of_kind, select-All}

cons_eq : {m n : TraceNode} {k l : List TraceNode} → m ≡ n → k ≡ l → m ∷ k ≡ n ∷ l
cons_eq e f = rw (e, f) refl

module _ (lower : Text → Text) (keeps : KeepsSmall lower) where
  operation_read :
      (root name comment : Text)
      → readback_node lower root (frame (text "operation") name comment)
        ≡ frame (text "operation") name (text "query")
  unfolding list_eq
  operation_read root name comment =
      rw (kind_of-frame lower keeps (text "operation") name comment refl refl) refl

  request_read :
      (root name : Text)
      → readback_node lower root (frame (text "request") name []) ≡ frame (text "request") name []
  unfolding list_eq
  request_read root name = rw (kind_of-frame lower keeps (text "request") name [] refl refl) refl

  entity_read :
      (root name : Text)
      → readback_node lower root (frame (text "entity") name []) ≡ frame (text "request") root []
  unfolding list_eq
  entity_read root name = rw (kind_of-frame lower keeps (text "entity") name [] refl refl) refl

  provider_read :
      (root name : Text)
      → readback_node lower root (frame (text "provider") name []) ≡ frame (text "provider") name []
  unfolding list_eq
  provider_read root name = rw (kind_of-frame lower keeps (text "provider") name [] refl refl) refl

  sql_read :
      (root name : Text)
      → readback_node lower root (frame (text "sql") name [])
        ≡ frame (text "sql") (text "select") []
  unfolding list_eq
  sql_read root name = rw (kind_of-frame lower keeps (text "sql") name [] refl refl) refl

  -- relations are kept, whatever stands behind them
  relations_read :
      (root : Text) (rs ends : List TraceNode)
      → All (λ n. is_kind lower (text "relation") n ≡ true) rs
      → readback_nodes lower root (rs ++ ends) ≡ rs ++ readback_nodes lower root ends
  unfolding list_eq
  relations_read root [] ends h = refl
  relations_read root (n ∷ rs) ends (k, h) =
      rw (of_kind lower (text "relation") n k) (ap (λ l. n ∷ l) (relations_read root rs ends h))

  operation_name-new_path :
      (name comment : Text) (rest : List TraceNode)
      → operation_name lower (frame (text "operation") name comment ∷ rest) ≡ name
  unfolding list_eq
  operation_name-new_path [] comment rest =
      rw (kind_of-frame lower keeps (text "operation") [] comment refl refl) refl
  operation_name-new_path (c ∷ s) comment rest =
      rw (kind_of-frame lower keeps (text "operation") (c ∷ s) comment refl refl) refl

  subject_read :
      (nodes : List TraceNode) (root operation : Text)
      → readback_node lower root (subject_frame lower nodes operation)
        ≡ frame
            (text "request")
            (if lower operation == text "select" then first_name nodes else root)
            []
  subject_read nodes root operation = elim (Bool-cases (lower operation == text "select")) [
    | inl query ↦ rw query (request_read root (first_name nodes))
    | inr write ↦ rw write (entity_read root (last_entity lower nodes (first_name nodes)))
  ]

  -- what a readback reads of a new path
  abbrev read_path : (nodes : List TraceNode) (backend : Text) → List TraceNode
  read_path nodes backend =
      frame (text "operation") (first_name nodes) (text "query")
      ∷ frame (text "request") (first_name nodes) []
      ∷ (relations_of lower nodes
          ++ (provider_frame lower backend ∷ frame (text "sql") (text "select") [] ∷ []))

  subject_to_request :
      (nodes : List TraceNode) (operation : Text)
      → readback_node lower (first_name nodes) (subject_frame lower nodes operation)
        ≡ frame (text "request") (first_name nodes) []
  subject_to_request nodes operation =
      subject_read nodes (first_name nodes) operation
      ∙ ap (λ name. frame (text "request") name [])
          (if-keeps (λ x. x ≡ first_name nodes) (lower operation == text "select")
            {x = first_name nodes} {y = first_name nodes} (λ _. refl) (λ _. refl))

  ends_read :
      (root : Text) (backend operation : Text)
      → readback_nodes lower root (provider_frame lower backend ∷ sql_frame lower operation ∷ [])
        ≡ provider_frame lower backend ∷ frame (text "sql") (text "select") [] ∷ []
  ends_read root backend operation =
      cons_eq (provider_read root (provider_frame lower backend).name)
        (cons_eq (sql_read root (lower operation)) refl)

  new_path_read :
      (nodes : List TraceNode) (backend operation : Text)
      → physical_readback_path lower (new_path lower nodes backend operation)
        ≡ read_path nodes backend
  unfolding physical_readback_path
  new_path_read nodes backend operation =
      let root = first_name nodes in
      let first = operation_frame lower nodes operation in
      let ends = provider_frame lower backend ∷ sql_frame lower operation ∷ [] in
      let rest = relations_of lower nodes ++ ends in
      ap (λ name. readback_nodes lower name (new_path lower nodes backend operation))
        (operation_name-new_path root first.comment (subject_frame lower nodes operation ∷ rest))
      ∙ cons_eq (operation_read root root first.comment) (
          cons_eq (subject_to_request nodes operation) (
            relations_read root (relations_of lower nodes) ends
              (select-All (is_kind lower (text "relation")) nodes)
            ∙ ap (λ l. relations_of lower nodes ++ l) (ends_read root backend operation)))

  select_path :
      (nodes : List TraceNode) (backend : Text)
      → new_path lower nodes backend (text "select") ≡ read_path nodes backend
  unfolding list_eq
  select_path nodes backend = rw (keeps (text "select") refl) refl

  -- If `str.lower` leaves small ASCII letters as they are, then for a trace that is no canonical path yet the
  -- readback path of the canonical path of any statement is the canonical path of a SELECT of the same trace.
  pub physical_readback_path-canonical_sql_trace_path :
      (nodes : List TraceNode) (backend operation : Text)
      → is_complete lower nodes ≡ false
      → physical_readback_path lower (canonical_sql_trace_path lower nodes backend operation)
        ≡ canonical_sql_trace_path lower nodes backend (text "select")
  unfolding canonical_sql_trace_path
  physical_readback_path-canonical_sql_trace_path nodes backend operation h =
      rw h (new_path_read nodes backend operation ∙ sym (select_path nodes backend))
