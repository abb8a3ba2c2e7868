-- ===== src/View/Ending.antt =====
-- When the search for subtypes in src/server/ua_services_view.c ends.
use opc_ua.Common.{
  ℕ, zero, suc, ◌+◌, ◌<◌, ◌≡◌, ◌≢◌, refl, inl, inr, arith, true, ◌==◌, Option, none, some,
  Bool-cases, ==_iff, List, [], ◌∷◌, ◌++◌, length,
}
use opc_ua.Status.{good}
use opc_ua.Types.{NodeId}
use opc_ua.NodeStore.Operations.{get}
use opc_ua.View.Nodes.{Reference, Nodes, UaNode, Memory}
use opc_ua.View.Subtypes.{
  Collected, subtypes, endless, append_id, collect_from, collect_node, collect,
}
use opc_ua.View.Hierarchy.{In, In-append, Subtype, next, children, round, round_lem, List-cases}

-- The sum of a weight over a list of ids.
abbrev pub total : (NodeId → ℕ) → List NodeId → ℕ
total w [] = 0
total w (id ∷ ids) = w id + total w ids

total-append : (w : NodeId → ℕ) (xs ys : List NodeId) → total w (xs ++ ys) ≡ total w xs + total w ys
total-append w [] ys = omega arith
total-append w (x ∷ xs) ys = omega (arith, total-append w xs ys)

-- The types below a reference type are no cycle: each weighs more than its direct subtypes together.
abbrev pub Decreases : (NodeId → ℕ) → Nodes → NodeId → Type 0
Decreases w ns root = (id : NodeId) → Subtype ns root id → total w (children ns id) < w id

module _ (m : Memory) (ns : Nodes) (root : NodeId) (w : NodeId → ℕ)
    (falls : Decreases w ns root) where
  pub collect-ends :
      (fuel : ℕ) (s : Collected)
      → s.status ≡ good
      → ((x : NodeId) → In x s.pending → Subtype ns root x)
      → total w s.pending < fuel
      → collect fuel m ns s ≢ endless
  unfolding collect
  collect-ends zero s e below h = absurd (omega arith)
  collect-ends (suc fuel) s e below h = elim (List-cases s.pending) [
    | inl p ↦ rw p (λ c. cc)
    | inr (id, ids, p) ↦
        let t = round m ns id ids s in
        let own = below id (rw p (inl refl)) in
        rw p (elim (Bool-cases (t.status == good)) [
          | inr broken ↦ rw broken (λ c. cc)
          | inl fine ↦
              let ok = (==_iff _ _).0 fine in
              let added = (round_lem m ns id ids s ok e).1 in
              rw fine (
                collect-ends fuel t ok
                  (λ x. rw added (λ q. elim ((In-append x ids (children ns id)).0 q) [
                    | inl old ↦ below x (rw p (inr old))
                    | inr new ↦ next own new
                  ]))
                  (rw (added, total-append w ids (children ns id))
                    (omega (arith, rw p at h, falls id own))))
        ])
  ]

-- Every allocation succeeds.
pub record Grants (m : Memory) : Type 0 where
  pub results : m.results ≡ true
  pub grow : (n : ℕ) → m.grow n ≡ true
  pub copy : (n : ℕ) → m.copy n ≡ good

module _ (m : Memory) (g : Grants m) where
  append_id-fine :
      (id : NodeId) (s : Collected) → s.status ≡ good → (append_id m id s).status ≡ good
  unfolding append_id
  append_id-fine id s e =
      let grown = g.grow s.results_size in
      let copied = g.copy (length s.visited + length s.pending) in ground arith

  collect_from-fine :
      (rs : List Reference) (s : Collected) → s.status ≡ good → (collect_from m rs s).status ≡ good
  unfolding collect_from
  collect_from-fine [] s e = e
  collect_from-fine (r ∷ rs) s e =
      let t = append_id m r.target_id.node_id s in
      let added = append_id-fine r.target_id.node_id s e in
      ground (arith, collect_from-fine rs t added, collect_from-fine rs s e)

  pub collect_node-fine :
      (o : Option UaNode) (s : Collected) → s.status ≡ good → (collect_node m o s).status ≡ good
  unfolding collect_node
  collect_node-fine none s e = e
  collect_node-fine (some n) s e = ground (arith, collect_from-fine n.members.references s e)

  pub collect-fine :
      (ns : Nodes) (fuel : ℕ) (s : Collected)
      → s.status ≡ good
      → collect fuel m ns s ≢ endless
      → (ids : List NodeId) × (collect fuel m ns s ≡ subtypes ids)
  unfolding collect
  collect-fine ns zero s e h = absurd (h refl)
  collect-fine ns (suc fuel) s e h = elim (List-cases s.pending) [
    | inl p ↦ (s.visited, rw p refl)
    | inr (id, ids, p) ↦
        let t = round m ns id ids s in
        let ok =
          collect_node-fine (get ns id) (record s { visited = s.visited ++ id ∷ []; pending = ids })
            e in
        let fine = (==_iff t.status good).1 ok in
        let (found, f) = collect-fine ns fuel t ok (rw (p, fine) at h) in (found, rw (p, fine) f)
  ]
