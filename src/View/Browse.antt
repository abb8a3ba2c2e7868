-- ===== src/View/Browse.antt =====
-- Browsing one node in src/server/ua_services_view.c, with the continuation points of a session.
use opc_ua.Common.{
  ℕ, zero, suc, ◌+◌, ◌%◌, ◌^◌, not, ◌&&◌, ltb, ◌==◌, if◌then◌else◌, Option, none, some, List, [],
  ◌∷◌, length, bit_or,
}
use opc_ua.Status.{
  good, bad_reference_type_id_invalid, bad_browse_direction_invalid, bad_node_id_unknown,
  bad_out_of_memory,
}
use opc_ua.Types.{UaString, NodeId, null_string, is_null}
use opc_ua.NodeStore.Operations.{get}
use opc_ua.View.Nodes.{Reference, Nodes, UaNode, Memory, reference_type_class}
use opc_ua.View.Subtypes.{Subtypes, subtypes, failed, endless, find_sub_types}
use opc_ua.View.Description.{
  BrowseDescription, ReferenceDescription, Filter, all_types, listed, forward, inverse, both,
  fill_description, fill_status, return_relevant_node,
}

-- `struct ContinuationPointEntry`
pub record ContinuationPoint : Type 0 where
  pub identifier : UaString
  pub browse_description : BrowseDescription
  pub continuation_index : ℕ
  pub max_references : ℕ

-- The members of a `UA_Session` that count and list its continuation points.
pub record Points : Type 0 where
  pub available : ℕ
  pub entries : List ContinuationPoint

-- `MAXCONTINUATIONPOINTS`
abbrev pub max_continuation_points : ℕ
max_continuation_points = 5

-- The assignments of `UA_Session_init`.
abbrev pub no_points : Points
no_points = record { available = max_continuation_points; entries = [] }

-- `UA_BrowseResult`
pub record BrowseResult : Type 0 where
  pub status_code : ℕ
  pub continuation_point : UaString
  pub references : List ReferenceDescription

abbrev pub result_of_status : ℕ → BrowseResult
result_of_status status = record {
  status_code = status;
  continuation_point = null_string;
  references = [];
}

-- The loop over the references: the descriptions, the status, and the references behind the last
-- one it looked at.
pub record Page : Type 0 where
  pub descriptions : List ReferenceDescription
  pub status : ℕ
  pub rest : List Reference

abbrev pub with_description : ReferenceDescription → ℕ → Page → Page
with_description d status p = record p {
  descriptions = d ∷ p.descriptions;
  status = bit_or status p.status;
}

-- The rest of the loop behind a reference that is not relevant, or with its node.
abbrev pub per_node : Option UaNode → ℕ → (ℕ → Page) → (UaNode → Page) → Page
per_node none room other relevant = other room
per_node (some n) room other relevant = relevant n

-- The loop over the references from a place on, with the descriptions made so far, the relevant
-- nodes still to be skipped, and the descriptions there is still room for.
unfoldable pub page :
    Memory → Nodes → BrowseDescription → Filter → List Reference → ℕ → ℕ → ℕ → Page
page m ns descr types [] count skip room = record { descriptions = []; status = good; rest = [] }
page m ns descr types (r ∷ rs) count skip zero = record {
  descriptions = [];
  status = good;
  rest = r ∷ rs;
}
page m ns descr types (r ∷ rs) count (suc skip) (suc room) =
    per_node (return_relevant_node ns descr types r) (suc room)
      (page m ns descr types rs count (suc skip))
      (λ n. page m ns descr types rs count skip (suc room))
page m ns descr types (r ∷ rs) count zero (suc room) =
    per_node (return_relevant_node ns descr types r) (suc room)
      (page m ns descr types rs count zero)
      (λ n.
        with_description (fill_description (m.describe count) n r descr.result_mask)
          (fill_status (m.describe count) n descr.result_mask)
          (page m ns descr types rs (count + 1) zero room))

-- The references that match a browse description: a filter, a status, or no end of the search.
pub data Relevant : Type 0 where
  matching : Filter → Relevant
  rejected : ℕ → Relevant
  spinning : Relevant

abbrev pub of_subtypes : Subtypes → Relevant
of_subtypes (subtypes ids) = matching (listed ids)
of_subtypes (failed status) = rejected status
of_subtypes endless = spinning

-- The check of a reference type that is taken alone.
abbrev pub of_root : NodeId → Option UaNode → Relevant
of_root id none = rejected bad_reference_type_id_invalid
of_root id (some n) =
    if n.members.node_class == reference_type_class
    then matching (listed (id ∷ []))
    else rejected bad_reference_type_id_invalid

unfoldable pub relevant_types : ℕ → Memory → Nodes → BrowseDescription → Relevant
unfolding find_sub_types
relevant_types fuel m ns descr =
    if is_null descr.reference_type_id
    then matching all_types
    else if descr.include_subtypes
    then of_subtypes (find_sub_types fuel m ns descr.reference_type_id)
    else of_root descr.reference_type_id (get ns descr.reference_type_id)

-- How far the browsing of a node comes: an early return with a status, the loop over its
-- references, or no end of the search for subtypes.
pub data Browsed : Type 0 where
  ended : ℕ → Browsed
  paged : Page → Browsed
  lost : Browsed

-- `real_maxrefs`, on 32 bits
unfoldable pub real_maxrefs : ℕ → ℕ → ℕ
real_maxrefs maxrefs size =
    let most = if maxrefs == 0 then size % 2 ^ 32 else maxrefs in
    if ltb size most then size else most

-- From the node that is browsed on.
unfoldable pub browse_node :
    Memory → Nodes → BrowseDescription → ℕ → ℕ → Filter → Option UaNode → Browsed
unfolding page real_maxrefs
browse_node m ns descr maxrefs skip types none = ended bad_node_id_unknown
browse_node m ns descr maxrefs skip types (some n) =
    let refs = n.members.references in
    if length refs == 0
    then ended good
    else if not m.references
    then ended bad_out_of_memory
    else paged (page m ns descr types refs 0 skip (real_maxrefs maxrefs (length refs)))

unfoldable pub browse_relevant : Memory → Nodes → BrowseDescription → ℕ → ℕ → Relevant → Browsed
unfolding browse_node
browse_relevant m ns descr maxrefs skip (matching types) =
    browse_node m ns descr maxrefs skip types (get ns descr.node_id)
browse_relevant m ns descr maxrefs skip (rejected status) = ended status
browse_relevant m ns descr maxrefs skip spinning = lost

-- `Service_Browse_single` up to the end of its loop, with what it has from its arguments or from
-- the continuation point.
unfoldable pub browse_from : ℕ → Memory → Nodes → BrowseDescription → ℕ → ℕ → Browsed
unfolding relevant_types browse_relevant
browse_from fuel m ns descr maxrefs skip =
    let d = descr.browse_direction in
    if not (d == both) && not (d == forward) && not (d == inverse)
    then ended bad_browse_direction_invalid
    else browse_relevant m ns descr maxrefs skip (relevant_types fuel m ns descr)
