-- ===== src/Management/Loss.antt =====
-- References that are not deleted, and a pointer that is used after it was freed, in
-- src/server/ua_services_nodemanagement.c.
use opc_ua.Common.{
  ℕ, zero, suc, ◌+◌, ◌≡◌, refl, ap, ◌∙◌, Bool, true, false, Option, none, some, [], ◌∷◌, length,
  get_elem?,
}
use opc_ua.Status.{good}
use opc_ua.Types.{content, NodeId}
use opc_ua.NodeStore.Operations.{get}
use opc_ua.View.Nodes.{Reference, Members, Nodes, UaNode, Memory}
use opc_ua.View.Browse.{Points}
use opc_ua.Management.References.{
  AddItem, DeleteItem, Slot, edited, misused, Outcome, done, undefined, edit_node,
  add_one_way_reference, add_references_single, is_meant, overwrite, delete_from,
  delete_one_way_reference, second_delete, delete_references_single,
}
use opc_ua.Management.Nodes.{
  references_of, back_item, delete_back, delete_backs, delete_emptied, delete_found,
  delete_nodes_single,
}
use opc_ua.Management.Editing.{edit_node-get, edit_node-misused}
use opc_ua.Management.Unset.{AllTyped, edit_node-unset}

one_way :
    (ns : Nodes) (item : DeleteItem)
    → item.delete_bidirectional ≡ false
    → delete_references_single ns item
      ≡ edit_node (delete_one_way_reference item) ns item.source_node_id
unfolding delete_references_single
one_way ns item e = rw e refl

freed :
    (room : Slot) (item : AddItem) (ms : Members)
    → ms.released ≡ true
    → add_one_way_reference room item ms ≡ misused
unfolding add_one_way_reference
freed room item ms h = rw h refl

delete_back-typed :
    (id : NodeId) (ns : Nodes) (o : Option Reference) (rest : Nodes → Outcome)
    → AllTyped ns
    → rest ns ≡ done good ns
    → delete_back ns id o rest ≡ done good ns
delete_back-typed id ns none rest t e = refl
delete_back-typed id ns (some r) rest t e =
    let (status, edit) = edit_node-unset (back_item id r) refl ns r.target_id.node_id t in
    rw (one_way ns (back_item id r) refl, edit) e

pub delete_backs-typed :
    (rounds i : ℕ) (id : NodeId) (ns : Nodes)
    → AllTyped ns
    → delete_backs rounds i id ns ≡ done good ns
unfolding delete_backs
delete_backs-typed zero i id ns t = refl
delete_backs-typed (suc rounds) i id ns t =
    delete_back-typed id ns (get_elem? (references_of (get ns id)) i)
      (delete_backs rounds (i + 1) id) t (delete_backs-typed rounds (i + 1) id ns t)

delete_found-flag :
    (has_destructor : NodeId → Bool) (fuel : ℕ) (m : Memory) (allocated : Bool) (ns : Nodes)
    (s : Points) (id : NodeId) (o : Option UaNode)
    → AllTyped ns
    → delete_found has_destructor fuel m allocated ns s id true o
      ≡ delete_found has_destructor fuel m allocated ns s id false o
unfolding delete_found
delete_found-flag has_destructor fuel m allocated ns s id none t = refl
delete_found-flag has_destructor fuel m allocated ns s id (some n) t =
    ap (delete_emptied has_destructor fuel m allocated id n s)
      (delete_backs-typed (length n.members.references) 0 id ns t)

-- If every reference has a type other than the null id, then Service_DeleteNodes_single does the same
-- whether it is to delete the references to the node or not: it deletes none.
pub delete_nodes_single-flag :
    (has_destructor : NodeId → Bool) (fuel : ℕ) (m : Memory) (allocated : Bool) (ns : Nodes)
    (s : Points) (id : NodeId)
    → AllTyped ns
    → delete_nodes_single has_destructor fuel m allocated ns s id true
      ≡ delete_nodes_single has_destructor fuel m allocated ns s id false
unfolding delete_nodes_single
delete_nodes_single-flag has_destructor fuel m allocated ns s id t =
    delete_found-flag has_destructor fuel m allocated ns s id (get ns id) t

-- After the first deletion, the deletion of the reference in the other direction changes nothing.
pub delete_references_single-second :
    (ns ns' : Nodes) (item : DeleteItem) (status : ℕ)
    → item.delete_bidirectional ≡ true
    → item.target_node_id.server_index ≡ 0
    → edit_node (delete_one_way_reference item) ns item.source_node_id ≡ done status ns'
    → AllTyped ns'
    → (status' : ℕ) × (delete_references_single ns item ≡ done status' ns')
unfolding delete_references_single
delete_references_single-second ns ns' item status both here first t =
    let (status', edit) =
      edit_node-unset (second_delete item) refl ns' item.target_node_id.node_id t in
    (status', rw (both, here, first) edit)

-- The only reference of a node is found, and the pointer to it is freed.
delete_one_way_reference-last :
    (item : DeleteItem) (ms : Members) (r : Reference)
    → ms.references ≡ r ∷ []
    → is_meant item r ≡ true
    → delete_one_way_reference item ms
      ≡ edited good (record ms { references = []; released = true })
unfolding delete_one_way_reference delete_from overwrite
delete_one_way_reference-last item ms r only meant = rw (only, meant) refl

add_references_single-undefined :
    (here there : Slot) (ns : Nodes) (item : AddItem)
    → length (content item.target_server_uri) ≡ 0
    → edit_node (add_one_way_reference here item) ns item.source_node_id ≡ undefined
    → add_references_single here there ns item ≡ undefined
unfolding add_references_single
add_references_single-undefined here there ns item empty e = rw (empty, e) refl

-- When the only reference of a stored node is deleted in this direction alone, a call of
-- Service_AddReferences_single that comes next, from that node and with an empty URI of the target
-- server, hands the freed pointer to realloc, whatever the memory.
pub add_references_single-freed :
    (ns : Nodes) (item : DeleteItem) (n : UaNode) (r : Reference) (here there : Slot)
    (added : AddItem)
    → get ns item.source_node_id ≡ some n
    → n.members.references ≡ r ∷ []
    → is_meant item r ≡ true
    → item.delete_bidirectional ≡ false
    → added.source_node_id ≡ item.source_node_id
    → length (content added.target_server_uri) ≡ 0
    → (ns' : Nodes) × (delete_references_single ns item ≡ done good ns')
      × (add_references_single here there ns' added ≡ undefined)
add_references_single-freed ns item n r here there added stored only meant single same empty =
    let freed_members = record (n.members) { references = []; released = true } in
    let (ns', edit, kept) =
      edit_node-get (delete_one_way_reference item) ns item.source_node_id n good freed_members
        stored (delete_one_way_reference-last item n.members r only meant) in
    (
      ns',
      rw (one_way ns item single) edit,
      add_references_single-undefined here there ns' added empty (
          ap (edit_node (add_one_way_reference here added) ns') same
          ∙ edit_node-misused (add_one_way_reference here added) ns' item.source_node_id
              (record n { members = freed_members }) kept.own
              (freed here added freed_members refl)),
    )
