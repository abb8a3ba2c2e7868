-- ===== src/View/Standard.antt =====
-- The hierarchy of reference types as OPC UA part 3 defines it, beside the one that
-- src/server/ua_services_view.c follows: HasSubtype is the type with the id 45 of namespace 0.
use opc_ua.Common.{
  ℕ, zero, suc, ◌<◌, ◌≡◌, refl, subst, sym, ◌↔◌, arith, Bool, true, not, ◌||◌, ◌==◌, if◌then◌else◌,
  Option, none, some, Bool-cases, inl, inr, List, [], ◌∷◌, All,
}
use opc_ua.Types.{
  NodeId, Identifier, numeric, string, guid, byte_string, numeric_member, identifier_equal,
  node_id_equal,
}
use opc_ua.NodeStore.Table.{Entries, entry}
use opc_ua.NodeStore.Operations.{get}
use opc_ua.NodeStore.Lookup.{get-found}
use opc_ua.View.Nodes.{Reference, Members, Nodes, UaNode, reference_type_class}
use opc_ua.View.Subtypes.{leads_to_subtype}
use opc_ua.View.Hierarchy.{In, Subtype, here, next, targets, children_of, children}
use opc_ua.View.Ending.{total, Decreases}

abbrev pub has_subtype_id : NodeId
has_subtype_id = record { namespace_index = 0; identifier = numeric 45 }

-- The targets of the HasSubtype references that go forward.
unfoldable pub standard_targets : List Reference → List NodeId
standard_targets [] = []
standard_targets (r ∷ rs) =
    if node_id_equal r.reference_type_id has_subtype_id
    then (if r.is_inverse then standard_targets rs else r.target_id.node_id ∷ standard_targets rs)
    else standard_targets rs

abbrev pub standard_children_of : Option UaNode → List NodeId
standard_children_of none = []
standard_children_of (some n) =
    if n.members.node_class == reference_type_class
    then standard_targets n.members.references
    else []

-- The direct subtypes of a reference type.
abbrev pub standard_children : Nodes → NodeId → List NodeId
standard_children ns id = standard_children_of (get ns id)

-- A reference type is among its subtypes, and so are the direct subtypes of these.
pub data StandardSubtype (ns : Nodes) (root : NodeId) : NodeId → Type 0 where
  itself : StandardSubtype ns root root
  below :
      {a b : NodeId}
      → StandardSubtype ns root a
      → In b (standard_children ns a)
      → StandardSubtype ns root b

-- The types below a reference type are no cycle: each weighs more than its direct subtypes together.
abbrev pub StandardDecreases : (NodeId → ℕ) → Nodes → NodeId → Type 0
StandardDecreases w ns root =
    (id : NodeId) → StandardSubtype ns root id → total w (standard_children ns id) < w id

-- If the type of a reference has the number 45, it is HasSubtype, and not a type of another namespace
-- or kind of id.
abbrev pub is_standard : Reference → Bool
is_standard r =
    not (numeric_member r.reference_type_id.identifier == 45)
    || node_id_equal r.reference_type_id has_subtype_id

abbrev pub IsStandard : Reference → Type 0
IsStandard r = is_standard r ≡ true

abbrev pub EntryStandard : Option UaNode → Type 0
EntryStandard none = Unit {0}
EntryStandard (some n) = All IsStandard n.members.references

-- So are all references of the nodes in the store.
abbrev pub EntriesStandard : Entries Members → Type 0
EntriesStandard es = All EntryStandard es

entry-Standard :
    (es : Entries Members) (j : ℕ) (n : UaNode)
    → EntriesStandard es
    → entry es j ≡ some n
    → EntryStandard (some n)
entry-Standard [] j n t h = cc
entry-Standard (x ∷ es) zero n t h = subst EntryStandard h t.0
entry-Standard (x ∷ es) (suc j) n t h = entry-Standard es j n t.1 h

get-Standard :
    (ns : Nodes) (id : NodeId) (o : Option UaNode)
    → EntriesStandard ns.entries
    → get ns id ≡ o
    → EntryStandard o
get-Standard ns id none t h = tt
get-Standard ns id (some n) t h =
    let (j, _, node_j) = get-found ns id h in entry-Standard ns.entries j n t node_j

identifier_equal-numeric :
    (i : Identifier) → identifier_equal i (numeric 45) ≡ true → (numeric_member i == 45) ≡ true
unfolding identifier_equal
identifier_equal-numeric (numeric n) h = h
identifier_equal-numeric (string s) h = cc
identifier_equal-numeric (guid g) h = cc
identifier_equal-numeric (byte_string s) h = cc

-- On such a reference the source's test of the number is the right one.
test_standard :
    (r : Reference)
    → IsStandard r
    → (numeric_member r.reference_type_id.identifier == 45)
      ≡ node_id_equal r.reference_type_id has_subtype_id
unfolding node_id_equal
test_standard r h =
    let number = identifier_equal-numeric r.reference_type_id.identifier in ground (arith, number)

targets-standard : (rs : List Reference) → All IsStandard rs → targets rs ≡ standard_targets rs
unfolding targets standard_targets leads_to_subtype
targets-standard [] t = refl
targets-standard (r ∷ rs) (h, t) =
    rw (test_standard r h, targets-standard rs t)
      (elim (Bool-cases (node_id_equal r.reference_type_id has_subtype_id)) [
        | inr other ↦ rw other refl
        | inl typed ↦ elim (Bool-cases r.is_inverse) [
          | inl inverse ↦ rw (typed, inverse) refl
          | inr forward ↦ rw (typed, forward) refl
        ]
      ])

children_of-standard :
    (o : Option UaNode) → EntryStandard o → children_of o ≡ standard_children_of o
children_of-standard none t = refl
children_of-standard (some n) t = rw (targets-standard n.members.references t) refl

module _ (ns : Nodes) (standard : EntriesStandard ns.entries) where
  pub children-standard : (id : NodeId) → children ns id ≡ standard_children ns id
  unfolding children
  children-standard id =
      children_of-standard (get ns id) (get-Standard ns id (get ns id) standard refl)

  Subtype-standard : (root : NodeId) {x : NodeId} → Subtype ns root x → StandardSubtype ns root x
  Subtype-standard root here = itself
  Subtype-standard root (next {a} {b} p c) =
      below (Subtype-standard root p) (subst (In b) (children-standard a) c)

  standard-Subtype : (root : NodeId) {x : NodeId} → StandardSubtype ns root x → Subtype ns root x
  standard-Subtype root itself = here
  standard-Subtype root (below {a} {b} p c) =
      next (standard-Subtype root p) (subst (In b) (sym (children-standard a)) c)

  pub Subtype-iff : (root x : NodeId) → Subtype ns root x ↔ StandardSubtype ns root x
  Subtype-iff root x = (λ p. Subtype-standard root p, λ p. standard-Subtype root p)

  pub standard-Decreases :
      (w : NodeId → ℕ) (root : NodeId) → StandardDecreases w ns root → Decreases w ns root
  standard-Decreases w root falls id p =
      subst (λ ids. total w ids < w id) (sym (children-standard id))
        (falls id (Subtype-standard root p))
