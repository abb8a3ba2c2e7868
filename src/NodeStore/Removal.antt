-- ===== src/NodeStore/Removal.antt =====
-- What `UA_NodeStore_remove` of src/server/ua_nodestore.c does to the nodes behind the removed one.
use opc_ua.Common.{ℕ, zero, suc, ◌<◌, ◌≡◌, ◌≢◌, refl, ap, ◌∙◌, arith, Bool, none, some, set}
use opc_ua.Status.{good}
use opc_ua.Types.{NodeId}
use opc_ua.NodeStore.Hash.{hash, first_index, step}
use opc_ua.NodeStore.Table.{Node, Entries, NodeStore, found, free, entry, probe, contains_node_id}
use opc_ua.NodeStore.Probe.{get_or-set, get_or-set_other, get_or-inside}
use opc_ua.NodeStore.Lookup.{contains-found}
use opc_ua.NodeStore.Operations.{returned, clear, get, remove, remove_at, shrink}

-- A search whose first entry is free ends there.
probe-here {ℓ} :
    {A : Type ℓ} (fuel : ℕ) (es : Entries A) (size by : ℕ) (id : NodeId) (i : ℕ)
    → 0 < fuel
    → entry es i ≡ none
    → probe fuel es size by id i ≡ free i
unfolding probe
probe-here zero es size by id i pos h = absurd (omega arith)
probe-here (suc fuel) es size by id i pos h = rw h refl

-- `deleteEntry` leaves no mark, and a search stops at a free entry: when the node that stands
-- where the search for another id starts is removed, and the table is not rehashed, the other
-- node is still stored and is not found any more.
pub remove-hides {ℓ} :
    {A : Type ℓ} (ns : NodeStore A) (allocated : Bool) (id : NodeId) (i : ℕ) (y : NodeId) (j : ℕ)
    (m : Node A)
    → contains_node_id ns id ≡ found i
    → shrink allocated (clear ns i) ≡ returned good (clear ns i)
    → first_index (hash y) ns.size ≡ i
    → contains_node_id ns y ≡ found j
    → entry ns.entries j ≡ some m
    → j ≢ i
    → 0 < ns.size
    → (remove allocated ns id ≡ returned good (clear ns i))
      × (entry (clear ns i).entries j ≡ some m)
      × (get ns y ≡ some m)
      × (get (clear ns i) y ≡ none)
unfolding remove remove_at get clear contains_node_id
remove-hides ns allocated id i y j m at_i stays start at_j node_j apart pos =
    let (x, node_i, same) = contains-found ns id at_i in
    let vacant : entry (set ns.entries i none) (first_index (hash y) ns.size) ≡ none =
      ap (λ l. entry (set ns.entries i none) l) start
      ∙ get_or-set ns.entries i none none (get_or-inside ns.entries i node_i) in
    (
      rw at_i stays,
      get_or-set_other ns.entries i j none none apart ∙ node_j,
      rw at_j node_j,
      rw
          (probe-here ns.size (set ns.entries i none) ns.size (step (hash y) ns.size) y
            (first_index (hash y) ns.size) pos vacant)
          refl,
    )
