-- ===== src/Trace/Samples.antt =====
-- src/teaql/core/trace.py: the paths of one mutation.
use teaql_python.Base.{
  ℕ, ◌+◌, ◌≡◌, refl, false, ◌&&◌, some, List, [], ◌∷◌, if◌then◌else◌, leb, map, arith, list_eq,
}
use teaql_python.Base.Text.{Text, text, blank}
use teaql_python.Ledger.Defs.{TraceNode}
use teaql_python.Trace.Paths.{
  frame, kind_of, is_complete, canonical_sql_trace_path, physical_readback_path,
}
use teaql_python.Trace.Canonical.{KeepsSmall, canonical_sql_trace_path_lem}
use teaql_python.Trace.Readback.{physical_readback_path-canonical_sql_trace_path}

-- lower case in ASCII
abbrev small : ℕ → ℕ
small c = if leb 0x41 c && leb c 0x5a then c + 32 else c

abbrev to_lower : Text → Text
to_lower s = map small s

to_lower-KeepsSmall : KeepsSmall to_lower
to_lower-KeepsSmall [] h = refl
to_lower-KeepsSmall (c ∷ s) h = ground (arith, h, to_lower-KeepsSmall s)

abbrev order_1 : TraceNode
order_1 = record {
  entity_type = text "Order";
  entity_id = some 1;
  comment = [];
  kind = text "entity";
  name = [];
}

abbrev nodes : List TraceNode
nodes =
    frame (text "auditReason") (text "Order") (text "paid")
    ∷ order_1
    ∷ frame (text "relation") (text "lines") []
    ∷ []

abbrev path : List TraceNode
path =
    frame (text "operation") (text "Order") (text "mutation")
    ∷ frame (text "entity") (text "Order") []
    ∷ frame (text "relation") (text "lines") []
    ∷ frame (text "provider") (text "sqlite") []
    ∷ frame (text "sql") (text "update") []
    ∷ []

nodes-path : canonical_sql_trace_path to_lower nodes (text "sqlite") (text "UPDATE") ≡ path
unfolding canonical_sql_trace_path kind_of list_eq blank
nodes-path = refl

path-readback :
    physical_readback_path to_lower path
    ≡ frame (text "operation") (text "Order") (text "query")
      ∷ frame (text "request") (text "Order") []
      ∷ frame (text "relation") (text "lines") []
      ∷ frame (text "provider") (text "sqlite") []
      ∷ frame (text "sql") (text "select") []
      ∷ []
unfolding physical_readback_path kind_of list_eq
path-readback = refl

canonical_sql_trace_path_lem_example :
    let path = canonical_sql_trace_path to_lower nodes (text "sqlite") (text "UPDATE") in
    canonical_sql_trace_path to_lower path (text "mysql") (text "select") ≡ path
canonical_sql_trace_path_lem_example =
    canonical_sql_trace_path_lem to_lower to_lower-KeepsSmall nodes (text "sqlite") (text "UPDATE")
      (text "mysql") (text "select")

-- nothing in the trace of the mutation is a frame of a path
nodes_open : is_complete to_lower nodes ≡ false
unfolding kind_of list_eq
nodes_open = refl

physical_readback_path-canonical_sql_trace_path_example :
    physical_readback_path to_lower
      (canonical_sql_trace_path to_lower nodes (text "sqlite") (text "UPDATE"))
    ≡ canonical_sql_trace_path to_lower nodes (text "sqlite") (text "select")
physical_readback_path-canonical_sql_trace_path_example =
    physical_readback_path-canonical_sql_trace_path to_lower to_lower-KeepsSmall nodes
      (text "sqlite") (text "UPDATE") nodes_open
