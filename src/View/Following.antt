-- ===== src/View/Following.antt =====
-- Browsing in pages in src/server/ua_services_view.c gives what browsing at once would.
use opc_ua.Common.{
  ℕ, zero, suc, ◌+◌, ◌-◌, ◌≤◌, ◌<◌, ◌%◌, ◌^◌, ◌≡◌, refl, sym, ◌∙◌, ap, inl, inr, arith, Bool-cases,
  true, false, ◌==◌, leb, some, List, [], ◌∷◌, ◌++◌, length, drop, length-take-le,
  length-take-bound, length-drop-le, take-drop,
}
use opc_ua.Status.{good}
use opc_ua.Types.{chars}
use opc_ua.NodeStore.Operations.{get}
use opc_ua.NodeStore.Equality.{string_equal_refl}
use opc_ua.View.Nodes.{Reference, Nodes, UaNode, Memory}
use opc_ua.View.Description.{BrowseDescription, ReferenceDescription, Filter}
use opc_ua.View.Browse.{
  ContinuationPoint, Points, Page, page, matching, relevant_types, ended, paged, real_maxrefs,
  browse_node, browse_relevant, browse_from,
}
use opc_ua.View.Points.{
  find_point, remove_cp, update_point, create_point, browse_single, browse_point, next_found,
  browse_next_single,
}
use opc_ua.View.Paging.{descriptions, IsPage, page-IsPage}
use opc_ua.View.Hierarchy.{List-cases}
use opc_ua.View.Client.{
  prepend, follow, Supplies, IsDirection, real_maxrefs_pos, real_maxrefs-cases, descriptions-le,
}

module _ (fuel : ℕ) (m : Memory) (bs : List ℕ) (sup : Supplies m bs) (ns : Nodes)
    (descr : BrowseDescription) (types : Filter) (n : UaNode)
    (direction : IsDirection descr.browse_direction)
    (found : relevant_types fuel m ns descr ≡ matching types)
    (stored : get ns descr.node_id ≡ some n) (small : length n.members.references < 2 ^ 32)
    (maxrefs : ℕ) (some_refs : 0 < maxrefs) where
  abbrev refs : List Reference
  refs = n.members.references

  abbrev all : List ReferenceDescription
  all = descriptions ns descr types refs

  browse_from_lem :
      (skip : ℕ)
      → 0 < length refs
      → browse_from fuel m ns descr maxrefs skip
        ≡ paged (page m ns descr types refs 0 skip (real_maxrefs maxrefs (length refs)))
  unfolding browse_from browse_relevant browse_node
  browse_from_lem skip h = let allocated = sup.references in rw (found, stored) (ground arith)

  browse_from_empty : (skip : ℕ) → refs ≡ [] → browse_from fuel m ns descr maxrefs skip ≡ ended good
  unfolding browse_from browse_relevant browse_node
  browse_from_empty skip e =
      let empty : (length refs == 0) ≡ true = rw e refl in rw (found, stored) (ground arith)

  all_empty : refs ≡ [] → all ≡ []
  unfolding descriptions
  all_empty e = rw e refl

  -- The continuation point of this browsing, after so many descriptions.
  abbrev point_at : ℕ → ContinuationPoint
  point_at skip = record {
    identifier = m.identifier;
    browse_description = descr;
    continuation_index = skip;
    max_references = maxrefs;
  }

  abbrev points_at : ℕ → Points → Points
  points_at skip s = record { entries = point_at skip ∷ s.entries; available = s.available - 1 }

  find_own :
      (skip : ℕ) (s : Points)
      → find_point (chars bs) (points_at skip s).entries
        ≡ some (record { before = []; point = point_at skip; after = s.entries })
  unfolding find_point
  find_own skip s = rw (sup.identifier, string_equal_refl (chars bs)) refl

  -- The page that a continuation point is used for, if the later pages are right.
  follow_page :
      (rounds skip room : ℕ) (s : Points) (p : Page)
      → 0 < s.available
      → s.available < 2 ^ 16
      → 0 < room
      → IsPage p all (length refs) skip room
      → ((skip' : ℕ)
          → skip + room ≡ skip'
          → skip' ≤ length all
          → follow rounds fuel m ns
              (browse_next_single false fuel m ns (chars bs) (points_at skip' s))
            ≡ some (drop skip' all, s))
      → follow (suc rounds) fuel m ns (
          update_point
            (record { before = []; point = point_at skip; after = s.entries })
            p
            (points_at skip s))
        ≡ some (drop skip all, s)
  unfolding follow update_point remove_cp
  follow_page rounds skip room s p a b positive h later = elim (List-cases p.rest) [
    | inl e ↦
        let back : (s.available - 1 + 1) % 2 ^ 16 ≡ s.available = omega arith in
        simp (h.status, e, h.finished e, back)
    | inr (r, rs, e) ↦
        let count = h.used r rs e in
        let le = length-drop-le skip room all positive (ap length (sym h.taken) ∙ count) in
        let next = skip + room in
        let index : (skip + length p.descriptions) % 2 ^ 32 ≡ next =
          rw count (omega (arith, descriptions-le ns descr types refs)) in
        let turn : follow (suc rounds) fuel m ns (
              update_point (record { before = []; point = point_at skip; after = s.entries }) p
                (points_at skip s))
            ≡ prepend p.descriptions (
                follow rounds fuel m ns
                  (browse_next_single false fuel m ns (chars bs) (points_at next s))) =
          simp (h.status, e, index, sup.identifier) in
        turn
        ∙ ap (prepend p.descriptions) (later next refl le)
        ∙ ap (λ ds. some (ds, s))
            (ap (λ ds. ds ++ drop next all) h.taken ∙ take-drop skip room next all refl)
  ]

  follow_point :
      (rounds skip : ℕ) (s : Points)
      → 0 < length refs
      → 0 < s.available
      → s.available < 2 ^ 16
      → length all + 1 ≤ skip + rounds
      → skip ≤ length all
      → follow rounds fuel m ns (browse_next_single false fuel m ns (chars bs) (points_at skip s))
        ≡ some (drop skip all, s)
  unfolding browse_next_single next_found browse_point
  follow_point zero skip s r a b h k = absurd (omega arith)
  follow_point (suc rounds) skip s r a b h k =
      let room = real_maxrefs maxrefs (length refs) in
      let positive = real_maxrefs_pos maxrefs (length refs) some_refs r in
      rw (find_own skip s, browse_from_lem skip r)
        (follow_page rounds skip room s (page m ns descr types refs 0 skip room) a b positive
          (page-IsPage m sup.describe ns descr types refs 0 skip room)
          (λ skip' e k'. follow_point rounds skip' s r a b (omega arith) k'))

  -- The first page.
  follow_first :
      (rounds : ℕ) (s : Points) (p : Page)
      → 0 < length refs
      → 0 < s.available
      → s.available < 2 ^ 16
      → length refs ≤ rounds
      → IsPage p all (length refs) 0 (real_maxrefs maxrefs (length refs))
      → follow (suc rounds) fuel m ns (create_point m descr maxrefs p s) ≡ some (all, s)
  unfolding follow create_point
  follow_first rounds s p r a b k h =
      let count = length p.descriptions in
      let room = real_maxrefs maxrefs (length refs) in
      let (bound, cases) = real_maxrefs-cases maxrefs (length refs) some_refs in
      let asked : (maxrefs == 0) ≡ false = ground arith in
      let le : count ≤ length all = rw h.taken (length-take-le room all) in
      let few : count ≤ room = rw h.taken (length-take-bound room all) in
      elim (Bool-cases (leb maxrefs count)) [
        | inr small ↦
            let complete : p.descriptions ≡ all = elim (List-cases p.rest) [
              | inl e ↦ h.finished e
              | inr (x, xs, e) ↦
                  absurd (ground (arith, cases, h.used x xs e, h.behind, ap length e))
            ] in
            let small' : leb maxrefs (length all) ≡ false = rw (ap length complete) at small in
            simp (h.status, asked, complete, small')
        | inl full ↦
            let index : count % 2 ^ 32 ≡ count =
              omega (arith, descriptions-le ns descr types refs) in
            let free : (s.available == 0) ≡ false = ground arith in
            let turn : follow (suc rounds) fuel m ns (create_point m descr maxrefs p s)
                ≡ prepend p.descriptions (
                    follow rounds fuel m ns
                      (browse_next_single false fuel m ns (chars bs) (points_at count s))) =
              simp (h.status, asked, full, free, sup.point, index, sup.identifier) in
            let enough : maxrefs ≤ count = ground arith in
            turn
            ∙ ap (prepend p.descriptions) (
                follow_point rounds count s r a b
                  (omega (arith, descriptions-le ns descr types refs)) le)
            ∙ ap (λ ds. some (ds, s))
                (ap (λ ds. ds ++ drop count all) h.taken ∙ take-drop 0 room count all (omega arith))
      ]

  -- Browsing a stored node in pages of maxrefs references, with memory, in a session with a free
  -- continuation point: the client that follows the continuation points gets the descriptions of
  -- exactly the relevant references, in their order, within one call more than the node has
  -- references, and the session has the continuation points that it had before.
  pub browse_single-descriptions :
      (s : Points)
      → 0 < s.available
      → s.available < 2 ^ 16
      → follow (suc (length refs)) fuel m ns (browse_single fuel m ns descr maxrefs s)
        ≡ some (all, s)
  unfolding browse_single follow
  browse_single-descriptions s a b =
      let room = real_maxrefs maxrefs (length refs) in
      elim (List-cases refs) [
        | inl e ↦ rw (browse_from_empty 0 e, all_empty e) refl
        | inr (x, xs, e) ↦
            let positive : 0 < length refs = rw e (omega arith) in
            rw (browse_from_lem 0 positive) (
              follow_first (length refs) s (page m ns descr types refs 0 0 room) positive a b
                (omega arith) (page-IsPage m sup.describe ns descr types refs 0 0 room))
      ]
