-- ===== src/Management/Nodes.antt =====
-- Deleting nodes in src/server/ua_services_nodemanagement.c.
use opc_ua.Common.{
  ℕ, zero, suc, ◌+◌, ◌-◌, ◌^◌, Bool, true, false, not, ◌&&◌, ◌==◌, if◌then◌else◌, Option, none,
  some, List, [], ◌∷◌, ◌++◌, length, get_elem?,
}
use opc_ua.Status.{good, bad_node_id_invalid, bad_nothing_to_do, bad_out_of_memory}
use opc_ua.Types.{NodeId, numeric, null_node_id}
use opc_ua.NodeStore.Operations.{Result, returned, endless, get, remove}
use opc_ua.View.Nodes.{
  Reference, Members, Nodes, UaNode, Memory, object_class, has_subtype, null_expanded,
}
use opc_ua.View.Description.{BrowseDescription, ReferenceDescription, inverse}
use opc_ua.View.Browse.{Points}
use opc_ua.View.Points.{browse_single}
use opc_ua.View.Points
use opc_ua.Management.References.{
  DeleteItem, Outcome, done, undefined, and_delete, delete_references_single,
}

abbrev pub object_type_class : ℕ
object_type_class = 8

-- The item that deletes a reference back to the node, whose reference type is not set.
abbrev pub back_item : NodeId → Reference → DeleteItem
back_item id r = record {
  source_node_id = r.target_id.node_id;
  reference_type_id = null_node_id;
  is_forward = r.is_inverse;
  target_node_id = record null_expanded { node_id = id };
  delete_bidirectional = false;
}

abbrev pub references_of : Option UaNode → List Reference
references_of none = []
references_of (some n) = n.members.references

-- One round of the loop over the references of the node, which are read again in each round.
abbrev pub delete_back : Nodes → NodeId → Option Reference → (Nodes → Outcome) → Outcome
delete_back ns id none rest = done good ns
delete_back ns id (some r) rest = and_delete (delete_references_single ns (back_item id r)) rest

-- The loop from a place on; the first number is that of the rounds left.
unfoldable pub delete_backs : ℕ → ℕ → NodeId → Nodes → Outcome
unfolding delete_references_single
delete_backs zero i id ns = done good ns
delete_backs (suc rounds) i id ns =
    delete_back ns id (get_elem? (references_of (get ns id)) i) (delete_backs rounds (i + 1) id)

-- The browse description that looks for the types of an object.
abbrev pub types_of : NodeId → BrowseDescription
types_of id = record {
  node_id = id;
  browse_direction = inverse;
  reference_type_id = record { namespace_index = 0; identifier = numeric has_subtype };
  include_subtypes = true;
  node_class_mask = object_type_class;
  result_mask = 0;
}

abbrev pub is_destroying : (NodeId → Bool) → Option UaNode → Bool
is_destroying has_destructor none = false
is_destroying has_destructor (some n) =
    (n.members.node_class == object_type_class) && has_destructor n.node_id

-- The types whose destructors are called, of those that are described.
unfoldable pub destructors : (NodeId → Bool) → Nodes → List ReferenceDescription → List NodeId
destructors has_destructor ns [] = []
destructors has_destructor ns (d ∷ ds) =
    if is_destroying has_destructor (get ns d.node_id.node_id)
    then d.node_id.node_id ∷ destructors has_destructor ns ds
    else destructors has_destructor ns ds

-- What the deletion of a node leaves: its status, the types whose destructors were called, the store
-- and the continuation points of the administrator; a crash, or no end of a search.
pub data Deleted : Type 0 where
  deleted : ℕ → List NodeId → Nodes → Points → Deleted
  crashed : Deleted
  unending : Deleted

abbrev pub deleted_as : List NodeId → Points → Result Members → Deleted
deleted_as types s (returned status ns) = deleted status types ns s
deleted_as types s endless = unending

-- The destructors, and the removal of the node.
abbrev pub destroyed : (NodeId → Bool) → Bool → NodeId → Nodes → Points.Outcome → Deleted
destroyed has_destructor allocated id ns (Points.answered r s) =
    deleted_as (destructors has_destructor ns r.references) s (remove allocated ns id)
destroyed has_destructor allocated id ns Points.endless = unending

unfoldable pub delete_emptied :
    (NodeId → Bool) → ℕ → Memory → Bool → NodeId → UaNode → Points → Outcome → Deleted
unfolding destructors
delete_emptied has_destructor fuel m allocated id n s undefined = crashed
delete_emptied has_destructor fuel m allocated id n s (done status ns) =
    if n.members.node_class == object_class
    then destroyed has_destructor allocated id ns
        (browse_single fuel m ns (types_of id) (2 ^ 32 - 1) s)
    else deleted_as [] s (remove allocated ns id)

unfoldable pub delete_found :
    (NodeId → Bool) → ℕ → Memory → Bool → Nodes → Points → NodeId → Bool → Option UaNode → Deleted
unfolding delete_emptied delete_backs
delete_found has_destructor fuel m allocated ns s id delete_references none =
    deleted bad_node_id_invalid [] ns s
delete_found has_destructor fuel m allocated ns s id delete_references (some n) =
    delete_emptied has_destructor fuel m allocated id n s (
      if delete_references
      then delete_backs (length n.members.references) 0 id ns
      else done good ns)

-- `Service_DeleteNodes_single`; `has_destructor` says which types have one, and `allocated` whether
-- the smaller table of the store can be allocated
unfoldable pub delete_nodes_single :
    (NodeId → Bool) → ℕ → Memory → Bool → Nodes → Points → NodeId → Bool → Deleted
unfolding delete_found
delete_nodes_single has_destructor fuel m allocated ns s id delete_references =
    delete_found has_destructor fuel m allocated ns s id delete_references (get ns id)

-- What `Service_DeleteNodes` leaves: the service result, the results of the items, the types whose
-- destructors were called, the store and the continuation points of the administrator.
pub data Response : Type 0 where
  replied : ℕ → List ℕ → List NodeId → Nodes → Points → Response
  broken : Response

abbrev pub with_deleted : ℕ → List NodeId → Response → Response
with_deleted status called (replied r statuses types ns s) =
    replied r (status ∷ statuses) (called ++ types) ns s
with_deleted status called broken = broken

abbrev pub then_node : Deleted → (Nodes → Points → Response) → Response
then_node (deleted status types ns s) rest = with_deleted status types (rest ns s)
then_node crashed rest = broken
then_node unending rest = broken

-- The loop of `Service_DeleteNodes`; an item is an id with whether references to it are to be
-- deleted.
unfoldable pub delete_nodes_each :
    (NodeId → Bool) → ℕ → Memory → Bool → List (NodeId × Bool) → Nodes → Points → Response
unfolding delete_nodes_single
delete_nodes_each has_destructor fuel m allocated [] ns s = replied good [] [] ns s
delete_nodes_each has_destructor fuel m allocated (item ∷ items) ns s =
    then_node (delete_nodes_single has_destructor fuel m allocated ns s item.0 item.1)
      (delete_nodes_each has_destructor fuel m allocated items)

-- `Service_DeleteNodes`; `results` says whether there is memory for the results
unfoldable pub delete_nodes :
    (NodeId → Bool) → ℕ → Memory → Bool → Bool → List (NodeId × Bool) → Nodes → Points → Response
unfolding delete_nodes_each
delete_nodes has_destructor fuel m allocated results [] ns s = replied bad_nothing_to_do [] [] ns s
delete_nodes has_destructor fuel m allocated results (item ∷ items) ns s =
    if not results
    then replied bad_out_of_memory [] [] ns s
    else delete_nodes_each has_destructor fuel m allocated (item ∷ items) ns s
