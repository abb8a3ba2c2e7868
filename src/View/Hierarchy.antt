-- ===== src/View/Hierarchy.antt =====
-- What the search for subtypes in src/server/ua_services_view.c finds, and when it ends.
use opc_ua.Common.{
  ℕ, zero, suc, ◌≡◌, refl, sym, ◌∙◌, ap, subst, ◌⊎◌, inl, inr, ◌↔◌, arith, ◌==◌, if◌then◌else◌,
  Option, none, some, Bool-cases, ==_iff, List, [], ◌∷◌, ◌++◌, append-nil, append_assoc,
}
use opc_ua.Status.{good}
use opc_ua.Types.{NodeId}
use opc_ua.NodeStore.Operations.{get}
use opc_ua.View.Nodes.{Reference, Nodes, UaNode, Memory, reference_type_class}
use opc_ua.View.Subtypes.{
  Collected, subtypes, leads_to_subtype, append_id, collect_from, collect_node, collect, start,
  find_from, find_sub_types,
}

pub List-cases {ℓ} : {A : Type ℓ} (l : List A) → (l ≡ []) ⊎ ((x : A) × (xs : List A) × (l ≡ x ∷ xs))
List-cases [] = inl refl
List-cases (x ∷ xs) = inr (x, xs, refl)

abbrev pub In : NodeId → List NodeId → Type 0
In x [] = ⊥
In x (y ∷ ys) = (x ≡ y) ⊎ In x ys

pub In-append : (x : NodeId) (xs ys : List NodeId) → In x (xs ++ ys) ↔ (In x xs ⊎ In x ys)
In-append x [] ys = (inr, λ h. elim h [ inl none_there ↦ absurd none_there | inr p ↦ p ])
In-append x (z ∷ xs) ys = ground (arith, In-append x xs ys)

-- The targets of the forward HasSubtype references.
unfoldable pub targets : List Reference → List NodeId
targets [] = []
targets (r ∷ rs) = if leads_to_subtype r then r.target_id.node_id ∷ targets rs else targets rs

abbrev pub children_of : Option UaNode → List NodeId
children_of none = []
children_of (some n) =
    if n.members.node_class == reference_type_class then targets n.members.references else []

-- The direct subtypes of a reference type.
unfoldable pub children : Nodes → NodeId → List NodeId
unfolding targets
children ns id = children_of (get ns id)

-- A reference type is among its subtypes, and so are the direct subtypes of these.
pub data Subtype (ns : Nodes) (root : NodeId) : NodeId → Type 0 where
  here : Subtype ns root root
  next : {a b : NodeId} → Subtype ns root a → In b (children ns a) → Subtype ns root b

module _ (m : Memory) where
  append_id-good :
      (id : NodeId) (s : Collected)
      → (append_id m id s).status ≡ good
      → s.status ≡ good
      → ((append_id m id s).visited ≡ s.visited)
        × ((append_id m id s).pending ≡ s.pending ++ id ∷ [])
  unfolding append_id
  append_id-good id s h e = ground arith

  collect_from-good :
      (rs : List Reference) (s : Collected)
      → (collect_from m rs s).status ≡ good
      → s.status ≡ good
      → ((collect_from m rs s).visited ≡ s.visited)
        × ((collect_from m rs s).pending ≡ s.pending ++ targets rs)
  unfolding collect_from targets
  collect_from-good [] s h e = (refl, sym (append-nil _))
  collect_from-good (r ∷ rs) s h e =
      let t = append_id m r.target_id.node_id s in
      elim (Bool-cases (leads_to_subtype r)) [
        | inr other ↦ rw other (collect_from-good rs s (rw other at h) e)
        | inl found ↦ rw found (elim (Bool-cases (t.status == good)) [
          | inr broken ↦ let failing = rw (found, broken) at h in absurd (ground arith)
          | inl fine ↦
              let added = append_id-good r.target_id.node_id s ((==_iff _ _).0 fine) e in
              let rest = collect_from-good rs t (rw (found, fine) at h) ((==_iff _ _).0 fine) in
              rw fine (
                rest.0 ∙ added.0,
                rest.1
                    ∙ ap (λ l. l ++ targets rs) added.1
                    ∙ append_assoc s.pending (r.target_id.node_id ∷ []) (targets rs),
              )
        ])
      ]

  collect_node-good :
      (o : Option UaNode) (s : Collected)
      → (collect_node m o s).status ≡ good
      → s.status ≡ good
      → ((collect_node m o s).visited ≡ s.visited)
        × ((collect_node m o s).pending ≡ s.pending ++ children_of o)
  unfolding collect_node
  collect_node-good none s h e = (refl, sym (append-nil _))
  collect_node-good (some n) s h e =
      elim (Bool-cases (n.members.node_class == reference_type_class)) [
        | inl kind ↦ rw kind (collect_from-good n.members.references s (rw kind at h) e)
        | inr kind ↦ rw kind (refl, sym (append-nil _))
      ]

-- One round of the loop, if no error has occurred: the first id that waits is visited, and its
-- direct subtypes wait behind the others.
abbrev pub round : Memory → Nodes → NodeId → List NodeId → Collected → Collected
round m ns id ids s =
    collect_node m (get ns id) (record s { visited = s.visited ++ id ∷ []; pending = ids })

module _ (m : Memory) (ns : Nodes) where
  pub round_lem :
      (id : NodeId) (ids : List NodeId) (s : Collected)
      → (round m ns id ids s).status ≡ good
      → s.status ≡ good
      → ((round m ns id ids s).visited ≡ s.visited ++ id ∷ [])
        × ((round m ns id ids s).pending ≡ ids ++ children ns id)
  unfolding children
  round_lem id ids s h e = collect_node-good m (get ns id) _ h e

  record Inv (root : NodeId) (s : Collected) : Type 0 where
    status : s.status ≡ good
    root_in : In root s.visited ⊎ In root s.pending
    seen : (x : NodeId) → In x s.visited → Subtype ns root x
    waits : (x : NodeId) → In x s.pending → Subtype ns root x
    closed :
        (x b : NodeId) → In x s.visited → In b (children ns x) → In b s.visited ⊎ In b s.pending

  Inv-start : (root : NodeId) → Inv root (start root)
  Inv-start root = record {
    status = refl;
    root_in = inr (inl refl);
    seen = λ x q. absurd q;
    waits = λ x q. elim q [ inl e ↦ subst (Subtype ns root) (sym e) here | inr q' ↦ absurd q' ];
    closed = λ x b q c. absurd q;
  }

  Inv-round :
      (root id : NodeId) (ids : List NodeId) (s : Collected)
      → s.pending ≡ id ∷ ids
      → Inv root s
      → (round m ns id ids s).status ≡ good
      → Inv root (round m ns id ids s)
  Inv-round root id ids s p i h =
      let (v, w) = round_lem id ids s h i.status in
      let t = round m ns id ids s in
      let front : (x : NodeId) → In x s.pending ↔ ((x ≡ id) ⊎ In x ids) =
        λ x. rw p (λ q. q, λ q. q) in
      let old : (x : NodeId) → In x t.visited ↔ (In x s.visited ⊎ In x (id ∷ [])) =
        λ x. rw v (In-append x s.visited (id ∷ [])) in
      let new : (x : NodeId) → In x t.pending ↔ (In x ids ⊎ In x (children ns id)) =
        λ x. rw w (In-append x ids (children ns id)) in
      let own : Subtype ns root id = i.waits id ((front id).1 (inl refl)) in
      record {
        status = h;
        root_in = ground (arith, i.root_in, front root, old root, new root);
        seen = λ x q. ground (arith, i.seen x, old x, own);
        waits = λ x q. ground (arith, i.waits x, front x, new x, next {b = x} own);
        closed = λ x b q c. ground (arith, i.closed x b, old x, old b, front b, new b);
      }

  Inv-complete :
      (root : NodeId) (s : Collected)
      → Inv root s
      → s.pending ≡ []
      → {x : NodeId} → Subtype ns root x
      → In x s.visited
  Inv-complete root s i e here = ground (arith, i.root_in)
  Inv-complete root s i e (next {a} {b} p c) =
      ground (arith, i.closed a b, Inv-complete root s i e p)

  collect-Inv :
      (root : NodeId) (fuel : ℕ) (s : Collected) (ids : List NodeId)
      → Inv root s
      → collect fuel m ns s ≡ subtypes ids
      → (x : NodeId) → In x ids ↔ Subtype ns root x
  unfolding collect
  collect-Inv root zero s ids i h = λ x. absurd (cc)
  collect-Inv root (suc fuel) s ids i h = elim (List-cases s.pending) [
    | inl e ↦
        let all : s.visited ≡ ids = ground arith in
        λ x. rw (← all) (i.seen x, λ w. Inv-complete root s i e w)
    | inr (id, rest, e) ↦
        let t = round m ns id rest s in
        let h' = rw e at h in
        elim (Bool-cases (t.status == good)) [
          | inl fine ↦
              collect-Inv root fuel t ids (Inv-round root id rest s e i ((==_iff _ _).0 fine))
                (rw fine at h')
          | inr broken ↦ let failing = rw broken at h' in λ x. absurd (cc)
        ]
  ]

-- The checks before the loop.
pub find_from-collect :
    (fuel : ℕ) (m : Memory) (ns : Nodes) (root : NodeId) (o : Option UaNode) (ids : List NodeId)
    → find_from fuel m ns root o ≡ subtypes ids
    → collect fuel m ns (start root) ≡ subtypes ids
unfolding find_from
find_from-collect fuel m ns root none ids h = cc
find_from-collect fuel m ns root (some n) ids h = ground arith

-- What findSubTypes returns, if it returns without an error, is the reference type with all its
-- direct and indirect subtypes, and nothing else, whatever the memory.
pub find_sub_types-Subtype :
    (fuel : ℕ) (m : Memory) (ns : Nodes) (root : NodeId) (ids : List NodeId)
    → find_sub_types fuel m ns root ≡ subtypes ids
    → (x : NodeId) → In x ids ↔ Subtype ns root x
unfolding find_sub_types
find_sub_types-Subtype fuel m ns root ids h x =
    let h' = find_from-collect fuel m ns root (get ns root) ids h in
    collect-Inv m ns root fuel (start root) ids (Inv-start m ns root) h' x
