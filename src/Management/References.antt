-- ===== src/Management/References.antt =====
-- Adding and deleting references in src/server/ua_services_nodemanagement.c.
use opc_ua.Common.{
  ℕ, zero, suc, ◌-◌, Bool, true, false, not, ◌&&◌, ◌||◌, ltb, ◌==◌, if◌then◌else◌, Option, none,
  some, List, [], ◌∷◌, ◌++◌, length, get_elem?, set, take, bit_or,
}
use opc_ua.Status.{
  good, bad_out_of_memory, bad_node_id_unknown, bad_not_implemented,
  uncertain_reference_not_deleted,
}
use opc_ua.Types.{UaString, content, NodeId, ExpandedNodeId, null_node_id, node_id_equal}
use opc_ua.NodeStore.Table.{Search, found, free, spins, contains_node_id, entry}
use opc_ua.NodeStore.Operations.{write}
use opc_ua.View.Nodes.{Reference, Members, Nodes, UaNode, null_expanded}

-- `UA_AddReferencesItem`; the class of the target is not read
pub record AddItem : Type 0 where
  pub source_node_id : NodeId
  pub reference_type_id : NodeId
  pub is_forward : Bool
  pub target_server_uri : UaString
  pub target_node_id : ExpandedNodeId

-- `UA_DeleteReferencesItem`
pub record DeleteItem : Type 0 where
  pub source_node_id : NodeId
  pub reference_type_id : NodeId
  pub is_forward : Bool
  pub target_node_id : ExpandedNodeId
  pub delete_bidirectional : Bool

-- The outcomes of the allocations for one reference: of the array, and of the copies of two ids.
pub record Slot : Type 0 where
  pub grown : Bool
  pub type_copied : ℕ
  pub target_copied : ℕ

-- What an editing function leaves in the node, with its status; or a call of realloc with a pointer
-- that was freed.
pub data Edited : Type 0 where
  edited : ℕ → Members → Edited
  misused : Edited

-- What a call leaves of the store, with its status.
pub data Outcome : Type 0 where
  done : ℕ → Nodes → Outcome
  undefined : Outcome

abbrev pub edit_done : Nodes → ℕ → UaNode → Edited → Outcome
edit_done ns j n (edited status ms) = done status (write ns j (some (record n { members = ms })))
edit_done ns j n misused = undefined

abbrev pub edit_entry : (Members → Edited) → Nodes → ℕ → Option UaNode → Outcome
edit_entry f ns j none = done bad_node_id_unknown ns
edit_entry f ns j (some n) = edit_done ns j n (f n.members)

abbrev pub edit_at : (Members → Edited) → Nodes → Search → Outcome
edit_at f ns (found j) = edit_entry f ns j (entry ns.entries j)
edit_at f ns (free j) = done bad_node_id_unknown ns
edit_at f ns spins = done bad_node_id_unknown ns

-- `UA_Server_editNode`: the callback changes the node in its entry.
unfoldable pub edit_node : (Members → Edited) → Nodes → NodeId → Outcome
edit_node f ns id = edit_at f ns (contains_node_id ns id)

abbrev pub reference_of : AddItem → Reference
reference_of item = record {
  reference_type_id = item.reference_type_id;
  is_inverse = not item.is_forward;
  target_id = item.target_node_id;
}

-- `addOneWayReference`; the pointer to the references goes to realloc
unfoldable pub add_one_way_reference : Slot → AddItem → Members → Edited
add_one_way_reference room item ms =
    let status = bit_or room.type_copied room.target_copied in
    if ms.released
    then misused
    else if not room.grown
    then edited bad_out_of_memory ms
    else if status == good
    then edited good (record ms { references = ms.references ++ reference_of item ∷ [] })
    else edited status ms

-- The item for the other direction.
abbrev pub second_item : AddItem → AddItem
second_item item = record item {
  target_node_id = record (item.target_node_id) { node_id = item.source_node_id };
  source_node_id = item.target_node_id.node_id;
  is_forward = not item.is_forward;
}

-- The second edit, if the first one was good.
abbrev pub then_edit : Outcome → (Nodes → Outcome) → Outcome
then_edit undefined next = undefined
then_edit (done status ns) next = if status == good then next ns else done status ns

-- `Service_AddReferences_single`
unfoldable pub add_references_single : Slot → Slot → Nodes → AddItem → Outcome
unfolding edit_node add_one_way_reference
add_references_single here there ns item =
    let second = second_item item in
    if ltb 0 (length (content item.target_server_uri))
    then done bad_not_implemented ns
    else then_edit (edit_node (add_one_way_reference here item) ns item.source_node_id)
        (λ ns'. edit_node (add_one_way_reference there second) ns' second.source_node_id)

-- The three tests of a reference that is to be deleted.
unfoldable pub is_meant : DeleteItem → Reference → Bool
is_meant item r =
    node_id_equal item.target_node_id.node_id r.target_id.node_id
    && node_id_equal item.reference_type_id r.reference_type_id
    && (if item.is_forward then not r.is_inverse else r.is_inverse)

abbrev pub override : ℕ → List Reference → Option Reference → List Reference
override i refs none = refs
override i refs (some r) = take (length refs - 1) (set refs i r)

-- The last entry overrides the one at the place, and the array ends before it.
unfoldable pub overwrite : ℕ → List Reference → List Reference
overwrite i refs = override i refs (get_elem? refs (length refs - 1))

abbrev pub take_out :
    DeleteItem
    → List Reference
    → ℕ
    → Option Reference
    → Option (List Reference)
    → Option (List Reference)
take_out item refs i none rest = rest
take_out item refs i (some r) rest = if is_meant item r then some (overwrite i refs) else rest

-- The loop from the last reference to the first; the number is that of the references left to look
-- at.
unfoldable pub delete_from : DeleteItem → List Reference → ℕ → Option (List Reference)
unfolding is_meant overwrite
delete_from item refs zero = none
delete_from item refs (suc i) = take_out item refs i (get_elem? refs i) (delete_from item refs i)

-- The end of `deleteOneWayReference`; the pointer to the freed references stays in the node.
abbrev pub delete_done : Members → Option (List Reference) → Edited
delete_done ms none = edited uncertain_reference_not_deleted ms
delete_done ms (some []) = edited good (record ms { references = []; released = true })
delete_done ms (some (r ∷ rs)) = edited good (record ms { references = r ∷ rs })

-- `deleteOneWayReference`
unfoldable pub delete_one_way_reference : DeleteItem → Members → Edited
unfolding delete_from
delete_one_way_reference item ms =
    delete_done ms (delete_from item ms.references (length ms.references))

-- The item for the other direction, whose reference type is not set.
abbrev pub second_delete : DeleteItem → DeleteItem
second_delete item = record {
  source_node_id = item.target_node_id.node_id;
  reference_type_id = null_node_id;
  is_forward = not item.is_forward;
  target_node_id = record null_expanded { node_id = item.source_node_id };
  delete_bidirectional = false;
}

-- The second deletion, whatever the first one returned.
abbrev pub and_delete : Outcome → (Nodes → Outcome) → Outcome
and_delete undefined next = undefined
and_delete (done status ns) next = next ns

-- `Service_DeleteReferences_single`
unfoldable pub delete_references_single : Nodes → DeleteItem → Outcome
unfolding edit_node delete_one_way_reference
delete_references_single ns item =
    let first = edit_node (delete_one_way_reference item) ns item.source_node_id in
    let second = second_delete item in
    if not item.delete_bidirectional || not (item.target_node_id.server_index == 0)
    then first
    else and_delete first
        (λ ns'. edit_node (delete_one_way_reference second) ns' second.source_node_id)
