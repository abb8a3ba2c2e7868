-- ===== src/NodeStore/Editing.antt =====
-- The node that a pointer from `UA_NodeStore_get` points to is changed in place, in
-- src/server/ua_nodestore.c.
use opc_ua.Common.{ℕ, ◌≡◌, ◌≢◌, ap, ◌∙◌, true, false, none, some}
use opc_ua.Types.{NodeId, node_id_equal}
use opc_ua.NodeStore.Table.{Node, NodeStore, found, contains_node_id, entry}
use opc_ua.NodeStore.Operations.{get, get_at, write}
use opc_ua.NodeStore.Equality.{node_id_equal-left, node_id_equal_refl}
use opc_ua.NodeStore.Probe.{get_or-set, get_or-inside}
use opc_ua.NodeStore.Lookup.{contains-found, contains-replace, get_at-set_other}
use opc_ua.Common.{set}

-- If a node is got under an id, and is changed in place but for its id, then it is got under that id
-- with the change, and ids that are not equal to it get what they got before.
pub write-get {ℓ} :
    {A : Type ℓ} (ns : NodeStore A) (id : NodeId) (j : ℕ) (n n' : Node A)
    → contains_node_id ns id ≡ found j
    → entry ns.entries j ≡ some n
    → n'.node_id ≡ n.node_id
    → (get (write ns j (some n')) id ≡ some n')
      × ((other : NodeId)
          → node_id_equal id other ≡ false
          → get (write ns j (some n')) other ≡ get ns other)
unfolding get
write-get {A} ns id j n n' at_j node_j same_id =
    let (m, node_m, equal_m) = contains-found ns id at_j in
    let same : node_id_equal n.node_id n'.node_id ≡ true =
      rw same_id (node_id_equal_refl n.node_id) in
    let elsewhere : (other : NodeId)
        → node_id_equal id other ≡ false
        → contains_node_id ns other ≢ found j =
      λ other apart h.
        let (k, node_k, equal_k) = contains-found ns other h in
        let here : k ≡ m = cc (node_m, node_k) in
        cc (
          node_id_equal-left m.node_id id other equal_m,
          apart,
          ap (λ (p : Node A). node_id_equal p.node_id other) here,
          equal_k,
        ) in
    (
      ap (get_at (set ns.entries j (some n'))) (contains-replace ns id n' n j same node_j ∙ at_j)
          ∙ get_or-set ns.entries j (some n') none (get_or-inside ns.entries j node_j),
      λ other apart.
          ap (get_at (set ns.entries j (some n'))) (contains-replace ns other n' n j same node_j)
          ∙ get_at-set_other ns.entries j (some n') (contains_node_id ns other)
              (elsewhere other apart),
    )
