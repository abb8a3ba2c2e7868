-- ===== src/View/Paging.antt =====
-- Browsing in pages in src/server/ua_services_view.c: Browse, and BrowseNext until no continuation
-- point is returned.
use opc_ua.Common.{
  ℕ, zero, suc, ◌+◌, ◌≤◌, ◌≡◌, refl, ◌∙◌, ap, ap₂, inl, inr, arith, Bool, true, false, Option,
  Option-cases, none, some, List, [], ◌∷◌, length, take, drop,
}
use opc_ua.Status.{good}
use opc_ua.View.Nodes.{Reference, Nodes, UaNode, Memory, Copies}
use opc_ua.View.Description.{
  BrowseDescription, ReferenceDescription, Filter, fill_description, fill_status,
  type_definition_of, return_relevant_node, or_if, is_some, has,
}
use opc_ua.View.Browse.{Page, page, with_description}

abbrev pub all_copied : Copies
all_copied = record {
  node_id = good;
  reference_type_id = good;
  browse_name = good;
  display_name = good;
  type_definition = good;
}

abbrev pub describe_node :
    Option UaNode → Reference → ℕ → List ReferenceDescription → List ReferenceDescription
describe_node none r mask ds = ds
describe_node (some n) r mask ds = fill_description all_copied n r mask ∷ ds

-- The descriptions of all relevant references of a node, in their order.
unfoldable pub descriptions :
    Nodes → BrowseDescription → Filter → List Reference → List ReferenceDescription
descriptions ns descr types [] = []
descriptions ns descr types (r ∷ rs) =
    describe_node (return_relevant_node ns descr types r) r descr.result_mask
      (descriptions ns descr types rs)

or_if-good : (test : Bool) (status : ℕ) → status ≡ good → or_if test status good ≡ good
or_if-good true status e = rw e refl
or_if-good false status e = e

fill_status-copied : (n : UaNode) (mask : ℕ) → fill_status all_copied n mask ≡ good
unfolding fill_status
fill_status-copied n mask =
    or_if-good (is_some (type_definition_of mask n)) _
      (or_if-good (has mask 16) _ (or_if-good (has mask 8) _ (or_if-good (has mask 1) good refl)))

-- What a page says: its descriptions are those behind the skipped ones, as many as there is room for;
-- it is the last one, or the room is used up.
pub record IsPage (p : Page) (all : List ReferenceDescription) (size skip room : ℕ) : Type 0 where
  pub status : p.status ≡ good
  pub taken : p.descriptions ≡ take room (drop skip all)
  pub behind : length p.descriptions + length p.rest ≤ size
  pub finished : p.rest ≡ [] → p.descriptions ≡ drop skip all
  pub used : (r : Reference) (rs : List Reference) → p.rest ≡ r ∷ rs → length p.descriptions ≡ room

IsPage-end :
    (size skip room : ℕ)
    → IsPage (record { descriptions = []; status = good; rest = [] }) [] size skip room
IsPage-end size zero zero = ground arith
IsPage-end size zero (suc room) = ground arith
IsPage-end size (suc skip) zero = ground arith
IsPage-end size (suc skip) (suc room) = ground arith

IsPage-wider :
    (p : Page) (all : List ReferenceDescription) (size skip room : ℕ)
    → IsPage p all size skip room
    → IsPage p all (suc size) skip room
IsPage-wider p all size skip room h = record {
  status = h.status;
  taken = h.taken;
  behind = omega (arith, h.behind);
  finished = h.finished;
  used = h.used;
}

IsPage-skip :
    (p : Page) (d : ReferenceDescription) (all : List ReferenceDescription) (size skip room : ℕ)
    → IsPage p all size skip room
    → IsPage p (d ∷ all) (suc size) (suc skip) room
IsPage-skip p d all size skip room h = record {
  status = h.status;
  taken = h.taken;
  behind = omega (arith, h.behind);
  finished = h.finished;
  used = h.used;
}

IsPage-add :
    (p : Page) (d d' : ReferenceDescription) (status : ℕ) (all : List ReferenceDescription)
    (size room : ℕ)
    → d ≡ d'
    → status ≡ good
    → IsPage p all size zero room
    → IsPage (with_description d status p) (d' ∷ all) (suc size) zero (suc room)
IsPage-add p d d' status all size room same e h = record {
  status = rw (e, h.status) refl;
  taken = ap₂ (λ x l. x ∷ l) same h.taken;
  behind = omega (arith, h.behind);
  finished = λ f. ap₂ (λ x l. x ∷ l) same (h.finished f);
  used = λ r rs f. ap suc (h.used r rs f);
}

module _ (m : Memory) (copied : (i : ℕ) → m.describe i ≡ all_copied) (ns : Nodes)
    (descr : BrowseDescription) (types : Filter) where
  pub page-IsPage :
      (refs : List Reference) (count skip room : ℕ)
      → IsPage
          (page m ns descr types refs count skip room)
          (descriptions ns descr types refs)
          (length refs)
          skip
          room
  unfolding page descriptions
  page-IsPage [] count skip room = IsPage-end 0 skip room
  page-IsPage (r ∷ rs) count skip zero = record {
    status = refl;
    taken = refl;
    behind = omega arith;
    finished = λ e. cc;
    used = λ r' rs' e. refl;
  }
  page-IsPage (r ∷ rs) count (suc skip) (suc room) =
      elim (Option-cases (return_relevant_node ns descr types r)) [
        | inl e ↦ rw e (IsPage-wider _ _ _ _ _ (page-IsPage rs count (suc skip) (suc room)))
        | inr (n, e) ↦ rw e (IsPage-skip _ _ _ _ _ _ (page-IsPage rs count skip (suc room)))
      ]
  page-IsPage (r ∷ rs) count zero (suc room) =
      elim (Option-cases (return_relevant_node ns descr types r)) [
        | inl e ↦ rw e (IsPage-wider _ _ _ _ _ (page-IsPage rs count zero (suc room)))
        | inr (n, e) ↦ rw e (
            IsPage-add _ _ _ _ _ _ _
              (ap (λ c. fill_description c n r descr.result_mask) (copied count))
              (ap (λ c. fill_status c n descr.result_mask) (copied count)
                ∙ fill_status-copied n descr.result_mask)
              (page-IsPage rs (count + 1) zero room))
      ]
