-- ===== src/Trace/Paths.antt =====
-- src/teaql/core/trace.py. A copy of a node is the node. Python's `str.lower` is a parameter.
use teaql_python.Base.{
  Bool, not, ◌&&◌, ◌||◌, Option, none, some, List, [], ◌∷◌, ◌++◌, if◌then◌else◌, any, select, eqb,
  ◌==◌, list_eq, nat_eq,
}
use teaql_python.Base.Text.{Text, text, blank}
use teaql_python.Ledger.Defs.{TraceNode}

-- `name or entity_type`
abbrev pub trace_name : TraceNode → Text
trace_name node = elim node.name [ [] ↦ node.entity_type | c ∷ s ↦ c ∷ s ]

abbrev pub unknown : Text
unknown = text "unknown"

-- the first name that is not blank
abbrev pub first_name : List TraceNode → Text
first_name [] = unknown
first_name (n ∷ ns) =
    let rest = first_name ns in if blank (trace_name n) then rest else trace_name n

-- `TraceNode(kind=…, name=…, comment=…)`
abbrev pub frame : Text → Text → Text → TraceNode
frame kind name comment = record {
  entity_type = [];
  entity_id = none;
  comment = comment;
  kind = kind;
  name = name;
}

abbrev pub is_intent : Text → Bool
is_intent kind = kind == text "comment" || kind == text "purpose" || kind == text "auditreason"

module _ (lower : Text → Text) where
  -- `_kind`
  unfoldable pub kind_of : TraceNode → Text
  kind_of node = lower (select (λ c. not (eqb c 0x5f)) node.kind)

  abbrev pub is_kind : Text → TraceNode → Bool
  is_kind kind node = kind_of node == kind

  -- the last entity with a name that is not blank, or the given name
  abbrev pub last_entity : List TraceNode → Text → Text
  last_entity [] name = name
  last_entity (n ∷ ns) name =
      last_entity ns
        (if is_kind (text "entity") n && not (blank (trace_name n)) then trace_name n else name)

  -- `{'operation', 'provider', 'sql'} <= kinds`
  abbrev pub is_complete : List TraceNode → Bool
  is_complete nodes =
      any (is_kind (text "operation")) nodes
      && any (is_kind (text "provider")) nodes
      && any (is_kind (text "sql")) nodes

  abbrev pub without_intents : List TraceNode → List TraceNode
  without_intents nodes = select (λ n. not (is_intent (kind_of n))) nodes

  abbrev pub operation_frame : List TraceNode → Text → TraceNode
  operation_frame nodes operation =
      frame (text "operation") (first_name nodes)
        (if lower operation == text "select" then text "query" else text "mutation")

  abbrev pub subject_frame : List TraceNode → Text → TraceNode
  subject_frame nodes operation =
      let root = first_name nodes in
      if lower operation == text "select"
      then frame (text "request") root []
      else frame (text "entity") (last_entity nodes root) []

  abbrev pub provider_frame : Text → TraceNode
  provider_frame backend = frame (text "provider") (if blank backend then unknown else backend) []

  abbrev pub sql_frame : Text → TraceNode
  sql_frame operation = frame (text "sql") (lower operation) []

  abbrev pub relations_of : List TraceNode → List TraceNode
  relations_of nodes = select (is_kind (text "relation")) nodes

  -- the path of a statement that has none yet
  abbrev pub new_path : List TraceNode → Text → Text → List TraceNode
  new_path nodes backend operation =
      operation_frame nodes operation
      ∷ subject_frame nodes operation
      ∷ (relations_of nodes ++ (provider_frame backend ∷ sql_frame operation ∷ []))

  unfoldable pub canonical_sql_trace_path : List TraceNode → Text → Text → List TraceNode
  canonical_sql_trace_path nodes backend operation =
      if is_complete nodes then without_intents nodes else new_path nodes backend operation

  -- `trace_intent`: the last comment of each kind
  abbrev pub last_comment : Text → List TraceNode → Option Text → Option Text
  last_comment kind [] found = found
  last_comment kind (n ∷ ns) found =
      last_comment kind ns (if is_kind kind n then some n.comment else found)

  abbrev pub trace_intent : List TraceNode → Option Text × Option Text × Option Text
  trace_intent nodes = (
    last_comment (text "comment") nodes none,
    last_comment (text "purpose") nodes none,
    last_comment (text "auditreason") nodes none,
  )

  -- the name of the first operation
  abbrev pub operation_name : List TraceNode → Text
  operation_name [] = unknown
  operation_name (n ∷ ns) =
      let rest = operation_name ns in if is_kind (text "operation") n then trace_name n else rest

  abbrev pub readback_node : Text → TraceNode → TraceNode
  readback_node root n =
      if is_kind (text "operation") n
      then record n { comment = text "query" }
      else if is_kind (text "entity") n
      then frame (text "request") root []
      else if is_kind (text "sql") n
      then record n { name = text "select"; comment = [] }
      else n

  abbrev pub readback_nodes : Text → List TraceNode → List TraceNode
  readback_nodes root [] = []
  readback_nodes root (n ∷ ns) = readback_node root n ∷ readback_nodes root ns

  unfoldable pub physical_readback_path : List TraceNode → List TraceNode
  physical_readback_path nodes = readback_nodes (operation_name nodes) nodes
