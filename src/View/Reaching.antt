-- ===== src/View/Reaching.antt =====
-- Which nodes a browse path leads to in src/server/ua_services_view.c.
use opc_ua.Common.{
  ℕ, ◌≤◌, ◌≡◌, refl, sym, ◌∙◌, ap, inl, inr, arith, Bool-cases, true, false, not, leb,
  if◌then◌else◌, Option, Option-cases, none, some, List, [], ◌∷◌, ◌++◌, append-nil, append_assoc,
  length, length-append, All, map,
}
use mathlib.Core.List.{map-append}
use opc_ua.Status.{good, bad_out_of_memory}
use opc_ua.Types.{NodeId}
use opc_ua.NodeStore.Operations.{get}
use opc_ua.View.Nodes.{Reference, Nodes, UaNode, Memory}
use opc_ua.View.Description.{Filter}
use opc_ua.View.Browse.{matching}
use opc_ua.View.Translate.{
  PathElement, Target, Walk, walked, undefined, element_types, next_node, target_of, add_target,
  and_then, walk_references, walk_browse_path, finish_walk, path_error, broken, path_result,
  translate_from, translate_single,
}

abbrev append_reached : Option UaNode → (UaNode → List UaNode) → List UaNode → List UaNode
append_reached none reach ns = ns
append_reached (some n) reach ns = reach n ++ ns

-- The nodes that the references of a list lead to, and what is reached from each.
unfoldable pub reached_by :
    Nodes → Filter → PathElement → (UaNode → List UaNode) → List Reference → List UaNode
reached_by ns types e reach [] = []
reached_by ns types e reach (r ∷ rs) =
    append_reached (next_node ns types e r) reach (reached_by ns types e reach rs)

-- The nodes at the end of a path, in the order of the references.
unfoldable pub reached : Nodes → (PathElement → Filter) → List PathElement → UaNode → List UaNode
unfolding reached_by
reached ns types [] n = n ∷ []
reached ns types (e ∷ es) n = reached_by ns (types e) e (reached ns types es) n.members.references

-- All targets, or undefined behaviour if they are more than ten.
abbrev pub limited : List Target → List Target → Walk
limited ts more = if leb (length (ts ++ more)) 10 then walked good (ts ++ more) else undefined

limited-append :
    (ts xs ys : List Target) (rest : List Target → Walk)
    → length ts ≤ 10
    → ((zs : List Target) → length zs ≤ 10 → rest zs ≡ limited zs ys)
    → and_then (limited ts xs) rest ≡ limited ts (xs ++ ys)
limited-append ts xs ys rest h k = elim (Bool-cases (leb (length (ts ++ xs)) 10)) [
  | inl fits ↦ rw fits (
      k (ts ++ xs) (ground arith)
      ∙ ap (λ l. if leb (length l) 10 then walked good l else undefined) (append_assoc ts xs ys))
  | inr long ↦
      let over : leb (length (ts ++ (xs ++ ys))) 10 ≡ false =
        ground (arith, length-append ts xs, length-append ts (xs ++ ys), length-append xs ys) in
      rw (long, over) refl
]

module _ (ns : Nodes) (types : Filter) (e : PathElement) (visit : UaNode → List Target → Walk)
    (reach : UaNode → List UaNode)
    (visits : (n : UaNode) (ts : List Target)
      → length ts ≤ 10
      → visit n ts ≡ limited ts (map target_of (reach n))) where
  walk_references-limited :
      (rs : List Reference) (ts : List Target)
      → length ts ≤ 10
      → walk_references ns types e visit rs ts
        ≡ limited ts (map target_of (reached_by ns types e reach rs))
  unfolding walk_references reached_by
  walk_references-limited [] ts h =
      let fits : leb (length (ts ++ [])) 10 ≡ true = rw (append-nil ts) (ground arith) in
      rw fits (ap (walked good) (sym (append-nil ts)))
  walk_references-limited (r ∷ rs) ts h = elim (Option-cases (next_node ns types e r)) [
    | inl f ↦ rw f (walk_references-limited rs ts h)
    | inr (n, f) ↦
        rw (f, visits n ts h, map-append)
          (limited-append ts (map target_of (reach n))
            (map target_of (reached_by ns types e reach rs)) (walk_references ns types e visit rs) h
            (λ zs k. walk_references-limited rs zs k))
  ]

finish-limited :
    (ts : List Target)
    → finish_walk (limited [] ts) ≡ (if leb (length ts) 10 then path_result ts else broken)
finish-limited ts = elim (Bool-cases (leb (length ts) 10)) [
  | inl fits ↦ rw fits refl
  | inr long ↦ rw long refl
]

module _ (fuel : ℕ) (m : Memory) (copied : ℕ → ℕ) (good_copies : (i : ℕ) → copied i ≡ good)
    (ns : Nodes) (types : PathElement → Filter) where
  abbrev pub IsResolved : PathElement → Type 0
  IsResolved e = element_types fuel m ns e ≡ matching (types e)

  add_target-limited :
      (n : UaNode) (ts : List Target)
      → length ts ≤ 10
      → add_target copied n ts ≡ limited ts (target_of n ∷ [])
  unfolding add_target
  add_target-limited n ts h =
      ground (arith, good_copies (length ts), length-append ts (target_of n ∷ []))

  walk_browse_path-limited :
      (path : List PathElement) (n : UaNode) (ts : List Target)
      → All IsResolved path
      → length ts ≤ 10
      → walk_browse_path fuel m copied ns path n ts
        ≡ limited ts (map target_of (reached ns types path n))
  unfolding walk_browse_path reached
  walk_browse_path-limited [] n ts r h = add_target-limited n ts h
  walk_browse_path-limited (e ∷ es) n ts r h = rw (r.0) (
      walk_references-limited ns (types e) e (walk_browse_path fuel m copied ns es)
        (reached ns types es) (λ n' ts' h'. walk_browse_path-limited es n' ts' r.1 h')
        n.members.references ts h)

  translate_from-limited :
      (path : List PathElement) (n : UaNode)
      → All IsResolved path
      → translate_from fuel m copied ns path (some n) ≡ (
          let ts = map target_of (reached ns types path n) in
          if leb (length ts) 10 then path_result ts else broken)
  unfolding translate_from
  translate_from-limited path n r =
      ap finish_walk (walk_browse_path-limited path n [] r (omega arith))
      ∙ finish-limited (map target_of (reached ns types path n))

  -- With memory, a stored starting node and known reference types for every element, a path that is
  -- not empty is translated to exactly the nodes that it leads to, in the order of the references,
  -- or to BADNOMATCH if there are none; with more than ten it is undefined behaviour.
  pub translate_single-reached :
      (start : NodeId) (n : UaNode) (e : PathElement) (es : List PathElement)
      → m.references ≡ true
      → get ns start ≡ some n
      → All IsResolved (e ∷ es)
      → translate_single fuel m copied ns start (e ∷ es) ≡ (
          let ts = map target_of (reached ns types (e ∷ es) n) in
          if leb (length ts) 10 then path_result ts else broken)
  unfolding translate_single
  translate_single-reached start n e es allocated stored r =
      ap
        (λ b.
          if not b
          then path_error bad_out_of_memory
          else translate_from fuel m copied ns (e ∷ es) (get ns start))
        allocated
      ∙ ap (translate_from fuel m copied ns (e ∷ es)) stored
      ∙ translate_from-limited (e ∷ es) n r
