-- ===== src/Management/Editing.antt =====
-- What editing a node does to the store, in src/server/ua_services_attribute.c.
use opc_ua.Common.{ℕ, zero, suc, ◌≡◌, refl, sym, ap, inl, inr, false, some, [], ◌∷◌, set}
use opc_ua.Status.{bad_node_id_unknown}
use opc_ua.Types.{NodeId, node_id_equal}
use opc_ua.NodeStore.Table.{Node, Entries, contains_node_id, entry}
use opc_ua.NodeStore.Operations.{get, write}
use opc_ua.NodeStore.Lookup.{Search-cases, get-found, contains-found}
use opc_ua.NodeStore.Editing.{write-get}
use opc_ua.View.Nodes.{Members, Nodes, UaNode}
use opc_ua.Management.References.{Edited, edited, misused, done, undefined, edit_node}

-- The store after a node under an id was changed to have the members, and no other node was.
pub record IsEdited (ns ns' : Nodes) (id : NodeId) (n : UaNode) (ms : Members) : Type 0 where
  pub own : get ns' id ≡ some (record n { members = ms })
  pub others : (other : NodeId) → node_id_equal id other ≡ false → get ns' other ≡ get ns other

module _ (f : Members → Edited) (ns : Nodes) (id : NodeId) where
  -- The members of a node that is got under the id become what the function leaves.
  pub edit_node-get :
      (n : UaNode) (status : ℕ) (ms : Members)
      → get ns id ≡ some n
      → f n.members ≡ edited status ms
      → (ns' : Nodes) × (edit_node f ns id ≡ done status ns') × IsEdited ns ns' id n ms
  unfolding edit_node
  edit_node-get n status ms stored result =
      let (j, at_j, node_j) = get-found ns id stored in
      let kept = write-get ns id j n (record n { members = ms }) at_j node_j refl in
      (
        write ns j (some (record n { members = ms })),
        rw (at_j, node_j, result) refl,
        record { own = kept.0; others = kept.1 },
      )

  pub edit_node-misused :
      (n : UaNode) → get ns id ≡ some n → f n.members ≡ misused → edit_node f ns id ≡ undefined
  unfolding edit_node
  edit_node-misused n stored result =
      let (j, at_j, node_j) = get-found ns id stored in rw (at_j, node_j, result) refl

set-entry {ℓ} :
    {A : Type ℓ} (es : Entries A) (j : ℕ) (n : Node A)
    → entry es j ≡ some n
    → set es j (some n) ≡ es
set-entry [] j n h = refl
set-entry (x ∷ es) zero n h = ap (λ y. y ∷ es) (sym h)
set-entry (x ∷ es) (suc j) n h = ap (λ l. x ∷ l) (set-entry es j n h)

-- An edit that changes the members of no stored node changes nothing.
pub edit_node-unchanged :
    (f : Members → Edited) (ns : Nodes) (id : NodeId)
    → ((n : UaNode) → get ns id ≡ some n → (status : ℕ) × (f n.members ≡ edited status n.members))
    → (status : ℕ) × (edit_node f ns id ≡ done status ns)
unfolding edit_node get
edit_node-unchanged f ns id same = elim (Search-cases (contains_node_id ns id)) [
  | inl (j, at_j) ↦
      let (n, node_j, _) = contains-found ns id at_j in
      let (status, result) = same n (rw at_j node_j) in
      let whole : write ns j (some n) ≡ ns =
        ap (λ es. record ns { entries = es }) (set-entry ns.entries j n node_j) in
      (status, rw (at_j, node_j, result) (ap (done status) whole))
  | inr (inl (j, at_j)) ↦ (bad_node_id_unknown, rw at_j refl)
  | inr (inr lost) ↦ (bad_node_id_unknown, rw lost refl)
]
