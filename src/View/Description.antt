-- ===== src/View/Description.antt =====
-- The references that a browse request asks for, and their descriptions, in
-- src/server/ua_services_view.c.
use opc_ua.Common.{
  ℕ, Bool, true, false, not, ◌&&◌, ◌||◌, ◌==◌, if◌then◌else◌, Option, none, some, List, [], ◌∷◌,
  bit_and, bit_or,
}
use opc_ua.Types.{
  NodeId, ExpandedNodeId, QualifiedName, LocalizedText, null_node_id, node_id_equal, numeric_member,
}
use opc_ua.NodeStore.Operations.{get}
use opc_ua.View.Nodes.{
  Reference, Nodes, UaNode, Copies, object_class, variable_class, has_type_definition, null_name,
  null_text, null_expanded, copy_or,
}

-- `UA_ReferenceDescription`
pub record ReferenceDescription : Type 0 where
  pub reference_type_id : NodeId
  pub is_forward : Bool
  pub node_id : ExpandedNodeId
  pub browse_name : QualifiedName
  pub display_name : LocalizedText
  pub node_class : ℕ
  pub type_definition : ExpandedNodeId

-- `UA_BrowseDescription`
pub record BrowseDescription : Type 0 where
  pub node_id : NodeId
  pub browse_direction : ℕ
  pub reference_type_id : NodeId
  pub include_subtypes : Bool
  pub node_class_mask : ℕ
  pub result_mask : ℕ

abbrev pub forward : ℕ
forward = 0

abbrev pub inverse : ℕ
inverse = 1

abbrev pub both : ℕ
both = 2

-- A bit of a mask.
abbrev pub has : ℕ → ℕ → Bool
has mask bit = not (bit_and mask bit == 0)

-- The reference that the loop for the type definition ends with: the first one whose type has the
-- number of HasTypeDefinition.
unfoldable pub find_type_definition : List Reference → Option ExpandedNodeId
find_type_definition [] = none
find_type_definition (r ∷ rs) =
    if numeric_member r.reference_type_id.identifier == has_type_definition
    then some r.target_id
    else find_type_definition rs

-- The type definition that is copied: of an object or a variable, if the mask asks for it.
unfoldable pub type_definition_of : ℕ → UaNode → Option ExpandedNodeId
unfolding find_type_definition
type_definition_of mask curr =
    if has mask 32
      && ((curr.members.node_class == object_class) || (curr.members.node_class == variable_class))
    then find_type_definition curr.members.references
    else none

abbrev pub copy_definition : ℕ → Option ExpandedNodeId → ExpandedNodeId
copy_definition status none = null_expanded
copy_definition status (some id) = copy_or status null_expanded id

-- The description that `fillReferenceDescription` fills.
unfoldable pub fill_description : Copies → UaNode → Reference → ℕ → ReferenceDescription
unfolding type_definition_of
fill_description c curr r mask = record {
  reference_type_id =
      if has mask 1
      then copy_or c.reference_type_id null_node_id r.reference_type_id
      else null_node_id;
  is_forward = has mask 2 && not r.is_inverse;
  node_id = record null_expanded { node_id = copy_or c.node_id null_node_id curr.node_id };
  browse_name =
      if has mask 8 then copy_or c.browse_name null_name curr.members.browse_name else null_name;
  display_name =
      if has mask 16 then copy_or c.display_name null_text curr.members.display_name else null_text;
  node_class = if has mask 4 then curr.members.node_class else 0;
  type_definition = copy_definition c.type_definition (type_definition_of mask curr);
}

-- `retval |= status` under a test
abbrev pub or_if : Bool → ℕ → ℕ → ℕ
or_if test retval status = if test then bit_or retval status else retval

abbrev pub is_some {ℓ} : {A : Type ℓ} → Option A → Bool
is_some none = false
is_some (some a) = true

-- The status that `fillReferenceDescription` returns; the copy of a node class is an assignment.
unfoldable pub fill_status : Copies → UaNode → ℕ → ℕ
unfolding type_definition_of
fill_status c curr mask =
    let ids = or_if (has mask 1) c.node_id c.reference_type_id in
    let names = or_if (has mask 16) (or_if (has mask 8) ids c.browse_name) c.display_name in
    or_if (is_some (type_definition_of mask curr)) names c.type_definition

-- The types that a reference may have: all, or those of a list.
pub data Filter : Type 0 where
  all_types : Filter
  listed : List NodeId → Filter

unfoldable pub is_listed : NodeId → List NodeId → Bool
is_listed id [] = false
is_listed id (t ∷ ts) = node_id_equal id t || is_listed id ts

unfoldable pub of_type : Filter → Reference → Bool
unfolding is_listed
of_type all_types r = true
of_type (listed ts) r = is_listed r.reference_type_id ts

abbrev pub of_class : ℕ → Option UaNode → Option UaNode
of_class mask none = none
of_class mask (some n) =
    if not (mask == 0) && (bit_and n.members.node_class mask == 0) then none else some n

-- The first two tests of `returnRelevantNode`.
unfoldable pub in_direction : ℕ → Reference → Bool
in_direction d r = not (r.is_inverse && (d == forward)) && not (not r.is_inverse && (d == inverse))

-- `returnRelevantNode`
unfoldable pub return_relevant_node : Nodes → BrowseDescription → Filter → Reference → Option UaNode
unfolding in_direction of_type
return_relevant_node ns descr types r =
    if not (in_direction descr.browse_direction r)
    then none
    else if not (of_type types r)
    then none
    else of_class descr.node_class_mask (get ns r.target_id.node_id)
