-- ===== src/View/Tests.antt =====
-- A small address space, and the theorems of the view services at it.
use opc_ua.Common.{
  ℕ, ◌≡◌, refl, inl, ◌==◌, if◌then◌else◌, true, false, Bool, none, some, List, [], ◌∷◌, replicate,
}
use opc_ua.Status.{good}
use opc_ua.Types.{
  chars, null_string, NodeId, numeric, bytes_equal, string_equal, guid_equal, identifier_equal,
  node_id_equal, is_null, numeric_member, QualifiedName,
}
use opc_ua.NodeStore.Hash.{
  mul32, rotate, mix_block, mix_tail, mix_blocks, finish, hash_array, hash_string, identifier_hash,
  hash,
}
use opc_ua.NodeStore.Table.{probe, contains_node_id}
use opc_ua.NodeStore.Operations.{
  returned, endless, Result, fill, insert_at, wants_id, insert_node, get,
}
use opc_ua.View.Nodes.{Reference, Members, Nodes, UaNode, Memory, null_text}
use opc_ua.View.Subtypes.{
  leads_to_subtype, append_id, collect_from, collect_node, collect, find_from, find_sub_types,
}
use opc_ua.View.Hierarchy.{In, targets, children}
use opc_ua.View.Ending.{Grants}
use opc_ua.View.Paging.{all_copied}
use opc_ua.View.Subtypes
use opc_ua.View.Search.{find_sub_types-cycle}

unfoldable pub program : Unit {0}
unfolding bytes_equal string_equal guid_equal identifier_equal node_id_equal is_null mul32 rotate
    mix_block mix_tail mix_blocks finish hash_array hash_string identifier_hash hash probe
    contains_node_id fill insert_at wants_id insert_node get leads_to_subtype append_id collect_from
    collect_node collect find_from find_sub_types targets children
program = tt

abbrev pub id : ℕ → NodeId
id n = record { namespace_index = 0; identifier = numeric n }

abbrev pub name : ℕ → QualifiedName
name n = record { namespace_index = 0; name = chars (n ∷ []) }

-- A reference of a type to a node.
abbrev to : ℕ → Bool → ℕ → Reference
to type inverse n = record {
  reference_type_id = id type;
  is_inverse = inverse;
  target_id = record { node_id = id n; namespace_uri = null_string; server_index = 0 };
}

abbrev pub node : ℕ → ℕ → List Reference → UaNode
node n class rs = record {
  node_id = id n;
  members = record {
    node_class = class;
    browse_name = name n;
    display_name = null_text;
    references = rs;
    released = false;
  };
}

abbrev references_type : UaNode
references_type = node 31 32 (to 45 false 33 ∷ to 45 false 32 ∷ [])

abbrev hierarchical : UaNode
hierarchical = node 33 32 (to 45 false 35 ∷ to 45 true 31 ∷ [])

abbrev organizes : UaNode
organizes = node 35 32 (to 45 true 33 ∷ [])

-- A reference type that is its own subtype.
abbrev looping : UaNode
looping = node 90 32 (to 45 false 90 ∷ [])

abbrev pub folder : UaNode
folder = node 85 1 (to 35 false 1 ∷ to 40 false 61 ∷ to 35 false 2 ∷ to 35 true 84 ∷ [])

abbrev put : UaNode → Result Members → Result Members
put n endless = endless
put n (returned status ns) = insert_node ns n

abbrev store_of : Result Members → Nodes
store_of (returned status ns) = ns
store_of endless = record { entries = []; size = 0; count = 0; size_prime_index = 0 }

abbrev blank : Nodes
blank = record { entries = replicate 13 none; size = 13; count = 0; size_prime_index = 1 }

abbrev full : Result Members
full = put (node 1 2 []) (
    put (node 2 2 []) (
      put folder (
        put looping
          (put organizes (put hierarchical (put references_type (returned good blank)))))))

abbrev pub nodes : Nodes
nodes = store_of full

pub stored_folder : get nodes (id 85) ≡ some folder
unfolding program
stored_folder = refl

abbrev pub memory : Memory
memory = record {
  results = true;
  grow = λ n. true;
  copy = λ n. good;
  references = true;
  describe = λ n. all_copied;
  point = true;
  identifier = chars (7 ∷ 8 ∷ []);
}

memory-Grants : Grants memory
memory-Grants = record { results = refl; grow = λ n. refl; copy = λ n. refl }

-- More than the direct subtypes weigh together.
abbrev weight : NodeId → ℕ
weight n =
    if numeric_member n.identifier == 31
    then 5
    else if numeric_member n.identifier == 33
    then 3
    else 1

looping_child : In (id 90) (children nodes (id 90))
unfolding program
looping_child = inl refl

stored_looping : get nodes (id 90) ≡ some looping
unfolding program
stored_looping = refl

find_sub_types-cycle_example : find_sub_types 50 memory nodes (id 90) ≡ Subtypes.endless
find_sub_types-cycle_example =
    find_sub_types-cycle memory nodes (id 90) 50 looping memory-Grants looping_child stored_looping
      refl
