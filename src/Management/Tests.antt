-- ===== src/Management/Tests.antt =====
-- Three nodes, and the theorems on references at them.
use opc_ua.Common.{ℕ, ◌≡◌, refl, true, false, none, some, List, [], ◌∷◌, replicate}
use opc_ua.Status.{good}
use opc_ua.Types.{
  null_string, NodeId, numeric, bytes_equal, string_equal, guid_equal, identifier_equal,
  node_id_equal, is_null, ExpandedNodeId,
}
use opc_ua.NodeStore.Hash.{
  mul32, rotate, mix_block, mix_tail, mix_blocks, finish, hash_array, hash_string, identifier_hash,
  hash,
}
use opc_ua.NodeStore.Table.{probe, contains_node_id}
use opc_ua.NodeStore.Operations.{
  get, Result, returned, endless, fill, insert_at, wants_id, insert_node,
}
use opc_ua.View.Nodes.{Reference, Members, Nodes, UaNode, Memory, null_text, null_name}
use opc_ua.View.Browse.{no_points}
use opc_ua.View.Paging.{all_copied}
use opc_ua.Management.References.{
  AddItem, DeleteItem, done, undefined, edit_node, add_one_way_reference, add_references_single,
  is_meant, overwrite, delete_from, delete_one_way_reference, delete_references_single,
}
use opc_ua.Management.Services.{add_references, add_references_each, replied}
use opc_ua.Management.Nodes.{delete_nodes_single}
use opc_ua.Management.Linking.{
  room, with_reference, forward_reference, inverse_reference, undo, add_references_single-get,
  delete_references_single-add,
}
use opc_ua.Management.Unset.{AllTyped, EntriesTyped-AllTyped}
use opc_ua.Management.Loss.{delete_nodes_single-flag, add_references_single-freed}

program : Unit {0}
unfolding bytes_equal string_equal guid_equal identifier_equal node_id_equal is_null mul32 rotate
    mix_block mix_tail mix_blocks finish hash_array hash_string identifier_hash hash probe
    contains_node_id fill insert_at wants_id insert_node get edit_node add_one_way_reference
    add_references_single is_meant overwrite delete_from delete_one_way_reference
    delete_references_single
program = tt

abbrev id : ℕ → NodeId
id n = record { namespace_index = 0; identifier = numeric n }

abbrev expanded : ℕ → ExpandedNodeId
expanded n = record { node_id = id n; namespace_uri = null_string; server_index = 0 }

abbrev organizes : Reference
organizes = record { reference_type_id = id 35; is_inverse = false; target_id = expanded 3 }

abbrev node : ℕ → List Reference → UaNode
node n rs = record {
  node_id = id n;
  members = record {
    node_class = 2;
    browse_name = null_name;
    display_name = null_text;
    references = rs;
    released = false;
  };
}

abbrev put : UaNode → Result Members → Result Members
put n endless = endless
put n (returned status ns) = insert_node ns n

abbrev store_of : Result Members → Nodes
store_of (returned status ns) = ns
store_of endless = record { entries = []; size = 0; count = 0; size_prime_index = 0 }

abbrev nodes : Nodes
nodes = store_of (
    put (node 3 []) (
      put (node 2 []) (
        put (node 1 (organizes ∷ [])) (
          returned good
            (record { entries = replicate 7 none; size = 7; count = 0; size_prime_index = 0 })))))

abbrev item : AddItem
item = record {
  source_node_id = id 1;
  reference_type_id = id 47;
  is_forward = true;
  target_server_uri = null_string;
  target_node_id = expanded 2;
}

stored_source : get nodes (id 1) ≡ some (node 1 (organizes ∷ []))
unfolding program
stored_source = refl

stored_target : get nodes (id 2) ≡ some (node 2 [])
unfolding program
stored_target = refl

ids_apart : node_id_equal (id 1) (id 2) ≡ false
unfolding program
ids_apart = refl

add_references_single-get_example :
    (ns' : Nodes) × (add_references_single room room nodes item ≡ done good ns')
    × (get ns' (id 1) ≡ some (with_reference (forward_reference item) (node 1 (organizes ∷ []))))
    × (get ns' (id 2) ≡ some (with_reference (inverse_reference item) (node 2 [])))
    × ((other : NodeId)
        → node_id_equal (id 1) other ≡ false
        → node_id_equal (id 2) other ≡ false
        → get ns' other ≡ get nodes other)
add_references_single-get_example =
    add_references_single-get nodes item (node 1 (organizes ∷ [])) (node 2 []) refl ids_apart
      stored_source stored_target refl refl

delete_references_single-add_example :
    (added deleted : Nodes) × (add_references_single room room nodes item ≡ done good added)
    × (delete_references_single added (undo item) ≡ done good deleted)
    × (get deleted (id 1) ≡ get nodes (id 1))
    × (get deleted (id 2) ≡ some (with_reference (inverse_reference item) (node 2 [])))
    × ((other : NodeId)
        → node_id_equal (id 1) other ≡ false
        → node_id_equal (id 2) other ≡ false
        → get deleted other ≡ get nodes other)
delete_references_single-add_example =
    delete_references_single-add nodes item (node 1 (organizes ∷ [])) (node 2 []) organizes [] refl
      ids_apart stored_source stored_target refl refl refl

abbrev only_one : DeleteItem
only_one = record {
  source_node_id = id 1;
  reference_type_id = id 35;
  is_forward = true;
  target_node_id = expanded 3;
  delete_bidirectional = false;
}

meant : is_meant only_one organizes ≡ true
unfolding program
meant = refl

add_references_single-freed_example :
    (ns' : Nodes) × (delete_references_single nodes only_one ≡ done good ns')
    × (add_references_single room room ns' item ≡ undefined)
add_references_single-freed_example =
    add_references_single-freed nodes only_one (node 1 (organizes ∷ [])) organizes room room item
      stored_source refl meant refl refl refl

nodes-AllTyped : AllTyped nodes
unfolding program
nodes-AllTyped = EntriesTyped-AllTyped nodes (tt, (tt, (tt, (tt, (tt, ((refl, tt), (tt, tt)))))))

abbrev memory : Memory
memory = record {
  results = true;
  grow = λ n. true;
  copy = λ n. good;
  references = true;
  describe = λ n. all_copied;
  point = true;
  identifier = null_string;
}

-- The reference from the first node to the third stays.
delete_nodes_single-flag_example :
    delete_nodes_single (λ n. true) 9 memory true nodes no_points (id 3) true
    ≡ delete_nodes_single (λ n. true) 9 memory true nodes no_points (id 3) false
delete_nodes_single-flag_example =
    delete_nodes_single-flag (λ n. true) 9 memory true nodes no_points (id 3) nodes-AllTyped

-- Service_AddReferences writes none of the results that it allocates.
unwritten :
    (ns' : Nodes) × (add_references true (λ i. room) (λ i. room) (item ∷ []) nodes
      ≡ replied good (none ∷ []) ns')
unfolding program add_references add_references_each
unwritten = (_, refl)
