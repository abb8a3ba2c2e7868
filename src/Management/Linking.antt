-- ===== src/Management/Linking.antt =====
-- What adding a reference does, and that deleting it undoes it, in
-- src/server/ua_services_nodemanagement.c.
use opc_ua.Common.{
  Bool, not, ℕ, zero, suc, ◌-◌, ◌≡◌, refl, sym, ap, ◌∙◌, inl, inr, arith, Bool-cases, true, false,
  some, List, [], ◌∷◌, ◌++◌, length, length-append, get_elem?, set, take,
}
use opc_ua.Status.{good}
use opc_ua.Types.{content, NodeId, node_id_equal}
use opc_ua.NodeStore.Operations.{get}
use opc_ua.NodeStore.Equality.{node_id_equal_refl, node_id_equal-left}
use opc_ua.View.Nodes.{Reference, Members, Nodes, UaNode}
use opc_ua.Management.References.{
  AddItem, DeleteItem, Slot, edited, done, edit_node, reference_of, add_one_way_reference,
  second_item, add_references_single, is_meant, overwrite, delete_from, delete_done,
  delete_one_way_reference, delete_references_single,
}
use opc_ua.Management.Editing.{edit_node-get}

-- Everything is allocated.
abbrev pub room : Slot
room = record { grown = true; type_copied = good; target_copied = good }

-- The reference that an item asks for at its source, and the one at its target.
abbrev pub forward_reference : AddItem → Reference
forward_reference item = record {
  reference_type_id = item.reference_type_id;
  is_inverse = not item.is_forward;
  target_id = item.target_node_id;
}

abbrev pub inverse_reference : AddItem → Reference
inverse_reference item = record {
  reference_type_id = item.reference_type_id;
  is_inverse = item.is_forward;
  target_id = record (item.target_node_id) { node_id = item.source_node_id };
}

not-not : (b : Bool) → not (not b) ≡ b
not-not true = refl
not-not false = refl

inverse_reference-second :
    (item : AddItem) → reference_of (second_item item) ≡ inverse_reference item
inverse_reference-second item =
    ap (λ b. record (inverse_reference item) { is_inverse = b }) (not-not item.is_forward)

-- The node with one more reference.
abbrev pub with_reference : Reference → UaNode → UaNode
with_reference r n = record n {
  members = record (n.members) { references = n.members.references ++ r ∷ [] };
}

add_one_way_reference-added :
    (item : AddItem) (ms : Members)
    → ms.released ≡ false
    → add_one_way_reference room item ms
      ≡ edited good (record ms { references = ms.references ++ reference_of item ∷ [] })
unfolding add_one_way_reference
add_one_way_reference-added item ms h = rw h refl

apart_sym : (a b : NodeId) → node_id_equal a b ≡ false → node_id_equal b a ≡ false
apart_sym a b h = elim (Bool-cases (node_id_equal b a)) [
  | inl same ↦ absurd (cc (node_id_equal-left b a b same, node_id_equal_refl b, h))
  | inr other ↦ other
]

-- With memory, between two stored nodes with ids that are not equal, neither of them with a freed
-- pointer, and without a server URI, Service_AddReferences_single returns GOOD; the source then has
-- the reference behind its others, the target has its inverse, and every other id gets the node that
-- it got before.
pub add_references_single-get :
    (ns : Nodes) (item : AddItem) (source target : UaNode)
    → length (content item.target_server_uri) ≡ 0
    → node_id_equal item.source_node_id item.target_node_id.node_id ≡ false
    → get ns item.source_node_id ≡ some source
    → get ns item.target_node_id.node_id ≡ some target
    → source.members.released ≡ false
    → target.members.released ≡ false
    → (ns' : Nodes) × (add_references_single room room ns item ≡ done good ns')
      × (get ns' item.source_node_id ≡ some (with_reference (forward_reference item) source))
      × (get ns' item.target_node_id.node_id
          ≡ some (with_reference (inverse_reference item) target))
      × ((other : NodeId)
          → node_id_equal item.source_node_id other ≡ false
          → node_id_equal item.target_node_id.node_id other ≡ false
          → get ns' other ≡ get ns other)
unfolding add_references_single
add_references_single-get ns item source target local apart at_source at_target s t =
    let (ns₁, edit₁, kept₁) =
      edit_node-get (add_one_way_reference room item) ns item.source_node_id source good
        (with_reference (reference_of item) source).members at_source
        (add_one_way_reference-added item source.members s) in
    let second = second_item item in
    let (ns₂, edit₂, kept₂) =
      edit_node-get (add_one_way_reference room second) ns₁ second.source_node_id target good
        (with_reference (reference_of second) target).members
        (kept₁.others item.target_node_id.node_id apart ∙ at_target)
        (add_one_way_reference-added second target.members t) in
    (
      ns₂,
      rw (local, edit₁) edit₂,
      kept₂.others item.source_node_id (apart_sym item.source_node_id second.source_node_id apart)
          ∙ kept₁.own,
      kept₂.own ∙ ap (λ r. some (with_reference r target)) (inverse_reference-second item),
      λ other a b. kept₂.others other b ∙ kept₁.others other a,
    )

-- The deletion of the reference that an item added, from its source alone.
abbrev pub undo : AddItem → DeleteItem
undo item = record {
  source_node_id = item.source_node_id;
  reference_type_id = item.reference_type_id;
  is_forward = item.is_forward;
  target_node_id = item.target_node_id;
  delete_bidirectional = false;
}

is_meant-undo : (item : AddItem) → is_meant (undo item) (reference_of item) ≡ true
unfolding is_meant
is_meant-undo item = ground (
  arith,
  node_id_equal_refl item.target_node_id.node_id,
  node_id_equal_refl item.reference_type_id,
)

get_elem?-last :
    (rs : List Reference) (r : Reference) → get_elem? (rs ++ r ∷ []) (length rs) ≡ some r
get_elem?-last [] r = refl
get_elem?-last (x ∷ rs) r = get_elem?-last rs r

take-set_last :
    (rs : List Reference) (r s : Reference)
    → take (length rs) (set (rs ++ r ∷ []) (length rs) s) ≡ rs
take-set_last [] r s = refl
take-set_last (x ∷ rs) r s = ap (λ l. x ∷ l) (take-set_last rs r s)

overwrite-last : (rs : List Reference) (r : Reference) → overwrite (length rs) (rs ++ r ∷ []) ≡ rs
unfolding overwrite
overwrite-last rs r =
    let last : length (rs ++ r ∷ []) - 1 ≡ length rs = rw length-append (omega arith) in
    rw (last, get_elem?-last rs r)
      (ap (λ k. take k (set (rs ++ r ∷ []) (length rs) r)) last ∙ take-set_last rs r r)

delete_from-undo :
    (item : AddItem) (rs : List Reference) (k : ℕ)
    → k ≡ suc (length rs)
    → delete_from (undo item) (rs ++ reference_of item ∷ []) k ≡ some rs
unfolding delete_from
delete_from-undo item rs zero e = absurd (omega arith)
delete_from-undo item rs (suc k) e =
    let at : k ≡ length rs = omega arith in
    rw (at, get_elem?-last rs (reference_of item), is_meant-undo item)
      (ap some (overwrite-last rs (reference_of item)))

delete_done-some :
    (ms : Members) (rs : List Reference) (x : Reference) (xs : List Reference)
    → rs ≡ x ∷ xs
    → delete_done ms (some rs) ≡ edited good (record ms { references = rs })
delete_done-some ms rs x xs e = rw e refl

delete_one_way_reference-undo :
    (item : AddItem) (ms : Members) (x : Reference) (xs : List Reference)
    → ms.references ≡ x ∷ xs
    → delete_one_way_reference
        (undo item)
        (record ms { references = ms.references ++ reference_of item ∷ [] })
      ≡ edited good ms
unfolding delete_one_way_reference
delete_one_way_reference-undo item ms x xs e =
    let more = record ms { references = ms.references ++ reference_of item ∷ [] } in
    let count : length (ms.references ++ reference_of item ∷ []) ≡ suc (length ms.references) =
      rw length-append (omega arith) in
    ap (delete_done more)
      (delete_from-undo item ms.references (length (ms.references ++ reference_of item ∷ [])) count)
    ∙ delete_done-some more ms.references x xs e

delete_references_single-undo :
    (ns : Nodes) (item : AddItem)
    → delete_references_single ns (undo item)
      ≡ edit_node (delete_one_way_reference (undo item)) ns item.source_node_id
unfolding delete_references_single
delete_references_single-undo ns item = refl

-- Under the same conditions, if the source had references before, the deletion of the new reference
-- from the source returns GOOD, and then every id that is not equal to the target's gets the node
-- that it got before; the target keeps the inverse reference.
pub delete_references_single-add :
    (ns : Nodes) (item : AddItem) (source target : UaNode) (x : Reference) (xs : List Reference)
    → length (content item.target_server_uri) ≡ 0
    → node_id_equal item.source_node_id item.target_node_id.node_id ≡ false
    → get ns item.source_node_id ≡ some source
    → get ns item.target_node_id.node_id ≡ some target
    → source.members.released ≡ false
    → target.members.released ≡ false
    → source.members.references ≡ x ∷ xs
    → (added deleted : Nodes) × (add_references_single room room ns item ≡ done good added)
      × (delete_references_single added (undo item) ≡ done good deleted)
      × (get deleted item.source_node_id ≡ get ns item.source_node_id)
      × (get deleted item.target_node_id.node_id
          ≡ some (with_reference (inverse_reference item) target))
      × ((other : NodeId)
          → node_id_equal item.source_node_id other ≡ false
          → node_id_equal item.target_node_id.node_id other ≡ false
          → get deleted other ≡ get ns other)
delete_references_single-add ns item source target x xs local apart at_source at_target s t
      some_refs =
    let (added, add, own, inverse, others) =
      add_references_single-get ns item source target local apart at_source at_target s t in
    let (deleted, edit, kept) =
      edit_node-get (delete_one_way_reference (undo item)) added item.source_node_id
        (with_reference (reference_of item) source) good source.members own
        (delete_one_way_reference-undo item source.members x xs some_refs) in
    (
      added,
      deleted,
      add,
      delete_references_single-undo added item ∙ edit,
      kept.own ∙ sym at_source,
      kept.others item.target_node_id.node_id apart ∙ inverse,
      λ other a b. kept.others other a ∙ others other a b,
    )
