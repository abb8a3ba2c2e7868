-- ===== src/View/Translate.antt =====
-- TranslateBrowsePathsToNodeIds in src/server/ua_services_view.c.
use opc_ua.Common.{
  ℕ, ◌+◌, ◌-◌, ◌^◌, Bool, true, false, not, ◌&&◌, leb, ◌==◌, if◌then◌else◌, Option, none, some,
  List, [], ◌∷◌, ◌++◌, length,
}
use opc_ua.Status.{good, bad_nothing_to_do, bad_out_of_memory, bad_node_id_unknown, bad_no_match}
use opc_ua.Types.{NodeId, ExpandedNodeId, QualifiedName, string_equal, is_null}
use opc_ua.NodeStore.Operations.{get}
use opc_ua.View.Nodes.{Reference, Nodes, UaNode, Memory, null_expanded}
use opc_ua.View.Subtypes.{find_sub_types}
use opc_ua.View.Description.{Filter, all_types, listed, is_listed}
use opc_ua.View.Browse.{Relevant, matching, rejected, spinning, of_subtypes}

-- `UA_RelativePathElement`
pub record PathElement : Type 0 where
  pub reference_type_id : NodeId
  pub is_inverse : Bool
  pub include_subtypes : Bool
  pub target_name : QualifiedName

-- `UA_BrowsePathTarget`
pub record Target : Type 0 where
  pub target_id : ExpandedNodeId
  pub remaining_path_index : ℕ

-- What `walkBrowsePath` leaves: a status with the targets so far, a call of realloc with a pointer
-- that does not come from malloc, or no end of the search for subtypes.
pub data Walk : Type 0 where
  walked : ℕ → List Target → Walk
  undefined : Walk
  endless : Walk

-- The reference types of an element.
unfoldable pub element_types : ℕ → Memory → Nodes → PathElement → Relevant
element_types fuel m ns e =
    if is_null e.reference_type_id
    then matching all_types
    else if not e.include_subtypes
    then matching (listed (e.reference_type_id ∷ []))
    else of_subtypes (find_sub_types fuel m ns e.reference_type_id)

abbrev pub same : Bool → Bool → Bool
same true b = b
same false b = not b

-- The direction of a reference is compared only if its type is.
unfoldable pub follows : Filter → PathElement → Reference → Bool
follows all_types e r = true
follows (listed ts) e r = same r.is_inverse e.is_inverse && is_listed r.reference_type_id ts

unfoldable pub is_named : QualifiedName → QualifiedName → Bool
is_named a b = (a.namespace_index == b.namespace_index) && string_equal a.name b.name

abbrev pub if_named : PathElement → Option UaNode → Option UaNode
if_named e none = none
if_named e (some n) = if is_named e.target_name n.members.browse_name then some n else none

-- The node that a reference leads to, if an element allows it.
unfoldable pub next_node : Nodes → Filter → PathElement → Reference → Option UaNode
unfolding follows is_named
next_node ns types e r = if follows types e r then if_named e (get ns r.target_id.node_id) else none

abbrev pub target_of : UaNode → Target
target_of n = record {
  target_id = record null_expanded { node_id = n.node_id };
  remaining_path_index = 2 ^ 32 - 1;
}

-- The target is added; the array has ten places, and what is passed to realloc for more is the
-- address of the pointer to it.
unfoldable pub add_target : (ℕ → ℕ) → UaNode → List Target → Walk
add_target copied n ts =
    let status = copied (length ts) in
    if leb 10 (length ts)
    then undefined
    else if status == good
    then walked good (ts ++ target_of n ∷ [])
    else walked status ts

-- The next round of the loop, if no error has occurred.
abbrev pub and_then : Walk → (List Target → Walk) → Walk
and_then (walked status ts) rest = if status == good then rest ts else walked status ts
and_then undefined rest = undefined
and_then endless rest = endless

-- The rest of the loop behind a reference that is not followed, or with the node it leads to.
abbrev pub per_next : Option UaNode → List Target → (List Target → Walk) → (UaNode → Walk) → Walk
per_next none ts other next = other ts
per_next (some n) ts other next = next n

-- The loop over the references, with what is done at the node of one that is followed.
unfoldable pub walk_references :
    Nodes
    → Filter
    → PathElement
    → (UaNode → List Target → Walk)
    → List Reference
    → List Target
    → Walk
walk_references ns types e visit [] ts = walked good ts
walk_references ns types e visit (r ∷ rs) ts =
    per_next (next_node ns types e r) ts (walk_references ns types e visit rs)
      (λ n. and_then (visit n ts) (walk_references ns types e visit rs))

abbrev pub walk_types :
    Nodes
    → Relevant
    → PathElement
    → (UaNode → List Target → Walk)
    → List Reference
    → List Target
    → Walk
walk_types ns (matching types) e visit rs ts = walk_references ns types e visit rs ts
walk_types ns (rejected status) e visit rs ts = walked status ts
walk_types ns spinning e visit rs ts = endless

-- `walkBrowsePath` along the elements that are left; behind the last one stands the branch that adds
-- the target.
unfoldable pub walk_browse_path :
    ℕ → Memory → (ℕ → ℕ) → Nodes → List PathElement → UaNode → List Target → Walk
unfolding add_target
walk_browse_path fuel m copied ns [] n ts = add_target copied n ts
walk_browse_path fuel m copied ns (e ∷ es) n ts =
    walk_types ns (element_types fuel m ns e) e (walk_browse_path fuel m copied ns es)
      n.members.references ts

-- `UA_BrowsePathResult`
pub record PathResult : Type 0 where
  pub status_code : ℕ
  pub targets : List Target

pub data Translated : Type 0 where
  translated : PathResult → Translated
  broken : Translated
  unending : Translated

abbrev pub path_error : ℕ → Translated
path_error status = translated (record { status_code = status; targets = [] })

abbrev pub path_result : List Target → Translated
path_result [] = path_error bad_no_match
path_result (t ∷ ts) = translated (record { status_code = good; targets = t ∷ ts })

abbrev pub finish_walk : Walk → Translated
finish_walk (walked status ts) = if status == good then path_result ts else path_error status
finish_walk undefined = broken
finish_walk endless = unending

unfoldable pub translate_from :
    ℕ → Memory → (ℕ → ℕ) → Nodes → List PathElement → Option UaNode → Translated
unfolding walk_browse_path
translate_from fuel m copied ns path none = path_error bad_node_id_unknown
translate_from fuel m copied ns path (some n) =
    finish_walk (walk_browse_path fuel m copied ns path n [])

-- `Service_TranslateBrowsePathsToNodeIds_single`; `copied` has the statuses of the copies of ids
unfoldable pub translate_single :
    ℕ → Memory → (ℕ → ℕ) → Nodes → NodeId → List PathElement → Translated
unfolding translate_from
translate_single fuel m copied ns start [] = path_error bad_nothing_to_do
translate_single fuel m copied ns start (e ∷ es) =
    if not m.references
    then path_error bad_out_of_memory
    else translate_from fuel m copied ns (e ∷ es) (get ns start)

-- `Service_TranslateBrowsePathsToNodeIds`: a service result, or that of each path.
unfoldable pub translate_each :
    ℕ → (ℕ → Memory) → (ℕ → ℕ → ℕ) → ℕ → Nodes → List (NodeId × List PathElement) → List Translated
unfolding translate_single
translate_each fuel ms copied i ns [] = []
translate_each fuel ms copied i ns (p ∷ ps) =
    translate_single fuel (ms i) (copied i) ns p.0 p.1 ∷ translate_each fuel ms copied (i + 1) ns ps

unfoldable pub translate :
    ℕ
    → Bool
    → (ℕ → Memory)
    → (ℕ → ℕ → ℕ)
    → Nodes
    → List (NodeId × List PathElement)
    → ℕ × List Translated
unfolding translate_each
translate fuel allocated ms copied ns [] = (bad_nothing_to_do, [])
translate fuel allocated ms copied ns (p ∷ ps) =
    if not allocated
    then (bad_out_of_memory, [])
    else (good, translate_each fuel ms copied 0 ns (p ∷ ps))
