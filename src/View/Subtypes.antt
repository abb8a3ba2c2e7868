-- ===== src/View/Subtypes.antt =====
-- The search for the subtypes of a reference type in src/server/ua_services_view.c.
use opc_ua.Common.{
  ℕ, zero, suc, ◌+◌, ◌*◌, Bool, not, ◌&&◌, leb, ◌==◌, if◌then◌else◌, Option, none, some, List, [],
  ◌∷◌, ◌++◌, length,
}
use opc_ua.Status.{good, bad_no_match, bad_reference_type_id_invalid, bad_out_of_memory}
use opc_ua.Types.{NodeId, numeric_member}
use opc_ua.NodeStore.Operations.{get}
use opc_ua.View.Nodes.{Reference, Nodes, UaNode, Memory, reference_type_class, has_subtype}

-- The array `results`: the ids before `index`, those from `index` to `last`, and its size; and the
-- status.
pub record Collected : Type 0 where
  pub visited : List NodeId
  pub pending : List NodeId
  pub results_size : ℕ
  pub status : ℕ

-- What `findSubTypes` answers; `endless` if its loop has not ended within the fuel.
pub data Subtypes : Type 0 where
  subtypes : List NodeId → Subtypes
  failed : ℕ → Subtypes
  endless : Subtypes

-- The test of a reference: of the bytes of the identifier of its type, whatever its kind and its
-- namespace.
unfoldable pub leads_to_subtype : Reference → Bool
leads_to_subtype r =
    (numeric_member r.reference_type_id.identifier == has_subtype) && not r.is_inverse

-- The id that is found goes to the place `last`, which may ask for a larger array.
unfoldable pub append_id : Memory → NodeId → Collected → Collected
append_id m id s =
    let last = length s.visited + length s.pending in
    let full = leb s.results_size last in
    if full && not (m.grow s.results_size)
    then record s { status = bad_out_of_memory }
    else if m.copy last == good
    then record s {
      pending = s.pending ++ id ∷ [];
      results_size = if full then s.results_size * 2 else s.results_size;
    }
    else record s { status = m.copy last }

-- The loop over the references of a node, which an error leaves.
unfoldable pub collect_from : Memory → List Reference → Collected → Collected
unfolding leads_to_subtype append_id
collect_from m [] s = s
collect_from m (r ∷ rs) s =
    let next = append_id m r.target_id.node_id s in
    let found = if next.status == good then collect_from m rs next else next in
    let other = collect_from m rs s in if leads_to_subtype r then found else other

-- The references of a node, if it is there and is a reference type.
unfoldable pub collect_node : Memory → Option UaNode → Collected → Collected
unfolding collect_from
collect_node m none s = s
collect_node m (some n) s =
    if n.members.node_class == reference_type_class
    then collect_from m n.members.references s
    else s

-- The loop over the array, one round for each place.
unfoldable pub collect : ℕ → Memory → Nodes → Collected → Subtypes
unfolding collect_node
collect zero m ns s = endless
collect (suc fuel) m ns s = elim s.pending [
  | [] ↦ subtypes s.visited
  | id ∷ ids ↦
      let next =
        collect_node m (get ns id) (record s { visited = s.visited ++ id ∷ []; pending = ids }) in
      let rest = collect fuel m ns next in if next.status == good then rest else failed next.status
]

abbrev pub start : NodeId → Collected
start root = record { visited = []; pending = root ∷ []; results_size = 20; status = good }

-- The checks before the loop.
unfoldable pub find_from : ℕ → Memory → Nodes → NodeId → Option UaNode → Subtypes
unfolding collect
find_from fuel m ns root none = failed bad_no_match
find_from fuel m ns root (some n) =
    if not (n.members.node_class == reference_type_class)
    then failed bad_reference_type_id_invalid
    else if not m.results
    then failed bad_out_of_memory
    else if not (m.copy 0 == good)
    then failed (m.copy 0)
    else collect fuel m ns (start root)

-- `findSubTypes`, with fuel for its loop over the array
unfoldable pub find_sub_types : ℕ → Memory → Nodes → NodeId → Subtypes
unfolding find_from
find_sub_types fuel m ns root = find_from fuel m ns root (get ns root)
