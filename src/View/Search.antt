-- ===== src/View/Search.antt =====
-- The search for subtypes in src/server/ua_services_view.c: its result, and that it does not end on
-- a cycle.
use opc_ua.Common.{
  ℕ, zero, suc, ◌<◌, ◌≡◌, ◌≢◌, refl, inl, inr, arith, ==_iff, Option, none, some, [], ◌∷◌, ◌++◌,
}
use opc_ua.Status.{good}
use opc_ua.Types.{NodeId}
use opc_ua.NodeStore.Operations.{get}
use opc_ua.View.Nodes.{Nodes, UaNode, Memory, reference_type_class}
use opc_ua.View.Subtypes.{Collected, endless, collect, start, find_from, find_sub_types}
use opc_ua.View.Hierarchy.{In, In-append, Subtype, here, children, round, round_lem, List-cases}
use opc_ua.View.Ending.{Decreases, Grants, collect-ends, collect_node-fine}
use opc_ua.Common.{sym, subst}

module _ (m : Memory) (ns : Nodes) (root : NodeId) where
  find_from-ends :
      (fuel : ℕ) (o : Option UaNode)
      → collect fuel m ns (start root) ≢ endless
      → find_from fuel m ns root o ≢ endless
  unfolding find_from
  find_from-ends fuel none h = λ e. cc
  find_from-ends fuel (some n) h = λ e. ground (arith, h)

  find_from-start :
      (fuel : ℕ) (n : UaNode)
      → Grants m
      → n.members.node_class ≡ reference_type_class
      → find_from fuel m ns root (some n) ≡ collect fuel m ns (start root)
  unfolding find_from
  find_from-start fuel n g kind = let allocated = g.results in let copied = g.copy 0 in ground arith

  start-ends :
      (fuel : ℕ) (w : NodeId → ℕ)
      → Decreases w ns root
      → w root < fuel
      → collect fuel m ns (start root) ≢ endless
  start-ends fuel w falls h =
      collect-ends m ns root w falls fuel (start root) refl
        (λ x q. elim q [ inl e ↦ subst (Subtype ns root) (sym e) here | inr q' ↦ absurd q' ])
        (omega arith)

  -- With more rounds than the reference type weighs, findSubTypes ends, whatever the memory, if each
  -- type below it weighs more than its direct subtypes together.
  pub find_sub_types-ends :
      (fuel : ℕ) (w : NodeId → ℕ)
      → Decreases w ns root
      → w root < fuel
      → find_sub_types fuel m ns root ≢ endless
  unfolding find_sub_types
  find_sub_types-ends fuel w falls h = find_from-ends fuel (get ns root) (start-ends fuel w falls h)

  collect-cycle :
      (fuel : ℕ) (s : Collected)
      → Grants m
      → In root (children ns root)
      → s.status ≡ good
      → In root s.pending
      → collect fuel m ns s ≡ endless
  unfolding collect
  collect-cycle zero s g c e q = refl
  collect-cycle (suc fuel) s g c e q = elim (List-cases s.pending) [
    | inl p ↦ absurd (rw p at q)
    | inr (id, ids, p) ↦
        let t = round m ns id ids s in
        let visited = record s { visited = s.visited ++ id ∷ []; pending = ids } in
        let ok = collect_node-fine m g (get ns id) visited e in
        let fine = (==_iff t.status good).1 ok in
        let added = (round_lem m ns id ids s ok e).1 in
        let waits : In root (ids ++ children ns id) =
          (In-append root ids (children ns id)).1 (elim (rw p at q) [
            | inl same ↦ inr (subst (λ x. In root (children ns x)) same c)
            | inr later ↦ inl later
          ]) in
        rw (p, fine) (collect-cycle fuel t g c ok (rw added waits))
  ]

  -- If a stored reference type is a direct subtype of itself, and there is memory, then findSubTypes
  -- runs out of any fuel.
  pub find_sub_types-cycle :
      (fuel : ℕ) (n : UaNode)
      → Grants m
      → In root (children ns root)
      → get ns root ≡ some n
      → n.members.node_class ≡ reference_type_class
      → find_sub_types fuel m ns root ≡ endless
  unfolding find_sub_types
  find_sub_types-cycle fuel n g c stored kind =
      rw (stored, find_from-start fuel n g kind)
        (collect-cycle fuel (start root) g c refl (inl refl))
