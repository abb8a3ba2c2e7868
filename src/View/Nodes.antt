-- ===== src/View/Nodes.antt =====
-- The nodes of src/server/ua_nodes.h as the view services read them, and what these services are
-- handed by the environment.
use opc_ua.Common.{ℕ, Bool, ◌==◌, if◌then◌else◌, List}
use opc_ua.Status.{good}
use opc_ua.Types.{
  UaString, NodeId, ExpandedNodeId, QualifiedName, LocalizedText, null_string, null_node_id,
}
use opc_ua.NodeStore.Table.{Node, NodeStore}

-- `UA_ReferenceNode`
pub record Reference : Type 0 where
  pub reference_type_id : NodeId
  pub is_inverse : Bool
  pub target_id : ExpandedNodeId

-- The members that every class of nodes has, less the description and the masks, which are not
-- browsed; `released` says that the memory which the pointer `references` points to was freed.
pub record Members : Type 0 where
  pub node_class : ℕ
  pub browse_name : QualifiedName
  pub display_name : LocalizedText
  pub references : List Reference
  pub released : Bool

abbrev pub Nodes : Type 0
Nodes = NodeStore Members

abbrev pub UaNode : Type 0
UaNode = Node Members

abbrev pub object_class : ℕ
object_class = 1

abbrev pub variable_class : ℕ
variable_class = 2

abbrev pub reference_type_class : ℕ
reference_type_class = 32

abbrev pub has_type_definition : ℕ
has_type_definition = 40

abbrev pub has_subtype : ℕ
has_subtype = 45

abbrev pub null_name : QualifiedName
null_name = record { namespace_index = 0; name = null_string }

abbrev pub null_text : LocalizedText
null_text = record { locale = null_string; text = null_string }

abbrev pub null_expanded : ExpandedNodeId
null_expanded = record { node_id = null_node_id; namespace_uri = null_string; server_index = 0 }

-- What a copy leaves behind: the value, or the null value after an error.
abbrev pub copy_or {ℓ} : {A : Type ℓ} → ℕ → A → A → A
copy_or status null value = if status == good then value else null

-- The statuses of the copies into one description of a reference.
pub record Copies : Type 0 where
  pub node_id : ℕ
  pub reference_type_id : ℕ
  pub browse_name : ℕ
  pub display_name : ℕ
  pub type_definition : ℕ

-- The outcomes of the allocations of one call: of the array of subtypes, of its growth from a size,
-- of the copy into one of its places, of the array of descriptions, of the copies into one of
-- these, and of a continuation point; and the random identifier of that one.
pub record Memory : Type 0 where
  pub results : Bool
  pub grow : ℕ → Bool
  pub copy : ℕ → ℕ
  pub references : Bool
  pub describe : ℕ → Copies
  pub point : Bool
  pub identifier : UaString
