-- ===== src/Management/Unset.antt =====
-- The deletion of a reference whose type is not set, in src/server/ua_services_nodemanagement.c.
use opc_ua.Common.{
  ℕ, zero, suc, ◌≡◌, refl, subst, arith, false, Option, none, some, List, [], ◌∷◌, length,
  get_elem?, All,
}
use opc_ua.Status.{uncertain_reference_not_deleted}
use opc_ua.Types.{NodeId, null_node_id, node_id_equal}
use opc_ua.NodeStore.Operations.{get}
use opc_ua.NodeStore.Table.{Entries, entry}
use opc_ua.NodeStore.Lookup.{get-found}
use opc_ua.View.Nodes.{Reference, Members, Nodes, UaNode}
use opc_ua.Management.References.{
  DeleteItem, edited, done, edit_node, is_meant, take_out, delete_from, delete_one_way_reference,
}
use opc_ua.Management.Editing.{edit_node-unchanged}

-- The reference has a type other than the null id.
abbrev pub IsTyped : Reference → Type 0
IsTyped r = node_id_equal null_node_id r.reference_type_id ≡ false

-- Every reference of a stored node has.
abbrev pub AllTyped : Nodes → Type 0
AllTyped ns = (id : NodeId) (n : UaNode) → get ns id ≡ some n → All IsTyped n.members.references

abbrev EntryTyped : Option UaNode → Type 0
EntryTyped none = Unit {0}
EntryTyped (some n) = All IsTyped n.members.references

abbrev pub EntriesTyped : Entries Members → Type 0
EntriesTyped es = All EntryTyped es

entry-IsTyped :
    (es : Entries Members) (j : ℕ) (n : UaNode)
    → EntriesTyped es
    → entry es j ≡ some n
    → All IsTyped n.members.references
entry-IsTyped [] j n t h = cc
entry-IsTyped (x ∷ es) zero n t h = subst EntryTyped h t.0
entry-IsTyped (x ∷ es) (suc j) n t h = entry-IsTyped es j n t.1 h

-- It is enough that the entries of the store do.
pub EntriesTyped-AllTyped : (ns : Nodes) → EntriesTyped ns.entries → AllTyped ns
EntriesTyped-AllTyped ns t id n stored =
    let (j, _, node_j) = get-found ns id stored in entry-IsTyped ns.entries j n t node_j

get_elem?-IsTyped :
    (rs : List Reference) (i : ℕ) (r : Reference)
    → All IsTyped rs
    → get_elem? rs i ≡ some r
    → IsTyped r
get_elem?-IsTyped [] i r t h = cc
get_elem?-IsTyped (x ∷ rs) zero r t h = ground (arith)
get_elem?-IsTyped (x ∷ rs) (suc i) r t h = get_elem?-IsTyped rs i r t.1 h

module _ (item : DeleteItem) (unset : item.reference_type_id ≡ null_node_id) where
  is_meant-unset : (r : Reference) → IsTyped r → is_meant item r ≡ false
  unfolding is_meant
  is_meant-unset r t = rw unset (ground arith)

  take_out-unset :
      (refs : List Reference) (i : ℕ) (o : Option Reference) (rest : Option (List Reference))
      → ((r : Reference) → o ≡ some r → IsTyped r)
      → rest ≡ none
      → take_out item refs i o rest ≡ none
  take_out-unset refs i none rest t e = e
  take_out-unset refs i (some r) rest t e = rw (is_meant-unset r (t r refl)) e

  delete_from-unset :
      (refs : List Reference) (k : ℕ) → All IsTyped refs → delete_from item refs k ≡ none
  unfolding delete_from
  delete_from-unset refs zero t = refl
  delete_from-unset refs (suc i) t =
      take_out-unset refs i (get_elem? refs i) (delete_from item refs i)
        (λ r h. get_elem?-IsTyped refs i r t h) (delete_from-unset refs i t)

  delete_one_way_reference-unset :
      (ms : Members)
      → All IsTyped ms.references
      → delete_one_way_reference item ms ≡ edited uncertain_reference_not_deleted ms
  unfolding delete_one_way_reference
  delete_one_way_reference-unset ms t =
      rw (delete_from-unset ms.references (length ms.references) t) refl

  pub edit_node-unset :
      (ns : Nodes) (id : NodeId)
      → AllTyped ns
      → (status : ℕ) × (edit_node (delete_one_way_reference item) ns id ≡ done status ns)
  edit_node-unset ns id t = edit_node-unchanged (delete_one_way_reference item) ns id (λ n stored.
      (uncertain_reference_not_deleted, delete_one_way_reference-unset n.members (t id n stored)))
