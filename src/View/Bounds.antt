-- ===== src/View/Bounds.antt =====
-- The number of continuation points in src/server/ua_services_view.c.
use opc_ua.Common.{
  ℕ, suc, ◌+◌, ◌≡◌, refl, ap, subst, inl, inr, arith, Bool, Bool-cases, true, false, Option, none,
  some, List, [], ◌∷◌, ◌++◌, length, length-append,
}
use opc_ua.Types.{UaString, NodeId, string_equal}
use opc_ua.View.Nodes.{Nodes, Memory}
use opc_ua.View.Description.{BrowseDescription}
use opc_ua.View.Browse.{
  ContinuationPoint, Points, BrowseResult, Page, Browsed, ended, paged, lost, browse_from,
  no_points, max_continuation_points,
}
use opc_ua.View.Points.{
  Outcome, answered, endless, Found, behind, find_point, remove_cp, update_point, create_point,
  advance_point, with_points, browse_single, browse_point, next_found, browse_next_single,
}
use opc_ua.View.Services.{
  Response, replied, unending, with_result, and_then, browse_each, browse_next_each, browse_next,
  browse,
}

-- Every point of the session is available or in use.
abbrev pub IsCounted : Points → Type 0
IsCounted s = s.available + length s.entries ≡ max_continuation_points

abbrev pub AfterCounted : Outcome → Type 0
AfterCounted (answered r s) = IsCounted s
AfterCounted endless = Unit {0}

abbrev pub ReplyCounted : Response → Type 0
ReplyCounted (replied status rs s) = IsCounted s
ReplyCounted unending = Unit {0}

abbrev IsSplit : List ContinuationPoint → Option Found → Type 0
IsSplit cps none = Unit {0}
IsSplit cps (some f) = f.before ++ f.point ∷ f.after ≡ cps

behind-IsSplit :
    (cp : ContinuationPoint) (cps : List ContinuationPoint) (o : Option Found)
    → IsSplit cps o
    → IsSplit (cp ∷ cps) (behind cp o)
behind-IsSplit cp cps none h = tt
behind-IsSplit cp cps (some f) h = ap (λ l. cp ∷ l) h

find_point-IsSplit :
    (id : UaString) (cps : List ContinuationPoint) → IsSplit cps (find_point id cps)
unfolding find_point
find_point-IsSplit id [] = tt
find_point-IsSplit id (cp ∷ cps) = elim (Bool-cases (string_equal cp.identifier id)) [
  | inl same ↦ rw same refl
  | inr other ↦ rw other (behind-IsSplit cp cps (find_point id cps) (find_point-IsSplit id cps))
]

length-split :
    (f : Found) (cps : List ContinuationPoint)
    → f.before ++ f.point ∷ f.after ≡ cps
    → length cps ≡ suc (length f.before + length f.after)
length-split f cps e = rw (← e) (omega (arith, length-append f.before (f.point ∷ f.after)))

remove_cp-IsCounted :
    (f : Found) (s : Points)
    → IsCounted s
    → f.before ++ f.point ∷ f.after ≡ s.entries
    → IsCounted (remove_cp f s)
unfolding remove_cp
remove_cp-IsCounted f s c e =
    omega (arith, length-split f s.entries e, length-append f.before f.after)

update_point-AfterCounted :
    (f : Found) (p : Page) (s : Points)
    → IsCounted s
    → f.before ++ f.point ∷ f.after ≡ s.entries
    → AfterCounted (update_point f p s)
unfolding update_point
update_point-AfterCounted f p s c e =
    let n = advance_point (length p.descriptions) f.point in
    ground (
      arith,
      remove_cp-IsCounted f s c e,
      length-split f s.entries e,
      length-append f.before (n ∷ f.after),
    )

create_point-AfterCounted :
    (m : Memory) (descr : BrowseDescription) (maxrefs : ℕ) (p : Page) (s : Points)
    → IsCounted s
    → AfterCounted (create_point m descr maxrefs p s)
unfolding create_point
create_point-AfterCounted m descr maxrefs p s c = ground arith

with_points-AfterCounted :
    (use_page : Page → Points → Outcome) (b : Browsed) (s : Points)
    → IsCounted s
    → ((p : Page) → AfterCounted (use_page p s))
    → AfterCounted (with_points use_page b s)
with_points-AfterCounted use_page (ended status) s c h = c
with_points-AfterCounted use_page (paged p) s c h = h p
with_points-AfterCounted use_page lost s c h = tt

browse_single-AfterCounted :
    (fuel : ℕ) (m : Memory) (ns : Nodes) (descr : BrowseDescription) (maxrefs : ℕ) (s : Points)
    → IsCounted s
    → AfterCounted (browse_single fuel m ns descr maxrefs s)
unfolding browse_single
browse_single-AfterCounted fuel m ns descr maxrefs s c =
    with_points-AfterCounted (create_point m descr maxrefs) (browse_from fuel m ns descr maxrefs 0)
      s c (λ p. create_point-AfterCounted m descr maxrefs p s c)

next_found-AfterCounted :
    (release : Bool) (fuel : ℕ) (m : Memory) (ns : Nodes) (o : Option Found) (s : Points)
    → IsCounted s
    → IsSplit s.entries o
    → AfterCounted (next_found release fuel m ns o s)
unfolding next_found browse_point
next_found-AfterCounted release fuel m ns none s c e = c
next_found-AfterCounted true fuel m ns (some f) s c e = remove_cp-IsCounted f s c e
next_found-AfterCounted false fuel m ns (some f) s c e =
    let cp = f.point in
    with_points-AfterCounted (update_point f)
      (browse_from fuel m ns cp.browse_description cp.max_references cp.continuation_index) s c
      (λ p. update_point-AfterCounted f p s c e)

with_result-ReplyCounted :
    (r : BrowseResult) (p : Response) → ReplyCounted p → ReplyCounted (with_result r p)
with_result-ReplyCounted r (replied status rs s) c = c
with_result-ReplyCounted r unending c = tt

and_then-ReplyCounted :
    (o : Outcome) (rest : Points → Response)
    → AfterCounted o
    → ((s : Points) → IsCounted s → ReplyCounted (rest s))
    → ReplyCounted (and_then o rest)
and_then-ReplyCounted (answered r s) rest c h = with_result-ReplyCounted r (rest s) (h s c)
and_then-ReplyCounted endless rest c h = tt

browse_each-ReplyCounted :
    (fuel : ℕ) (ms : ℕ → Memory) (i : ℕ) (ns : Nodes) (ds : List BrowseDescription) (maxrefs : ℕ)
    (s : Points)
    → IsCounted s
    → ReplyCounted (browse_each fuel ms i ns ds maxrefs s)
unfolding browse_each
browse_each-ReplyCounted fuel ms i ns [] maxrefs s c = c
browse_each-ReplyCounted fuel ms i ns (d ∷ ds) maxrefs s c =
    and_then-ReplyCounted (browse_single fuel (ms i) ns d maxrefs s) _
      (browse_single-AfterCounted fuel (ms i) ns d maxrefs s c)
      (λ s' c'. browse_each-ReplyCounted fuel ms (i + 1) ns ds maxrefs s' c')

browse_next_each-ReplyCounted :
    (release : Bool) (fuel : ℕ) (ms : ℕ → Memory) (i : ℕ) (ns : Nodes) (ids : List UaString)
    (s : Points)
    → IsCounted s
    → ReplyCounted (browse_next_each release fuel ms i ns ids s)
unfolding browse_next_each browse_next_single
browse_next_each-ReplyCounted release fuel ms i ns [] s c = c
browse_next_each-ReplyCounted release fuel ms i ns (id ∷ ids) s c =
    and_then-ReplyCounted (browse_next_single release fuel (ms i) ns id s) _
      (next_found-AfterCounted release fuel (ms i) ns (find_point id s.entries) s c
        (find_point-IsSplit id s.entries))
      (λ s' c'. browse_next_each-ReplyCounted release fuel ms (i + 1) ns ids s' c')

browse-ReplyCounted :
    (fuel : ℕ) (allocated : Bool) (ms : ℕ → Memory) (ns : Nodes) (view : NodeId)
    (ds : List BrowseDescription) (maxrefs : ℕ) (s : Points)
    → IsCounted s
    → ReplyCounted (browse fuel allocated ms ns view ds maxrefs s)
unfolding browse
browse-ReplyCounted fuel allocated ms ns view [] maxrefs s c = c
browse-ReplyCounted fuel allocated ms ns view (d ∷ ds) maxrefs s c =
    ground (arith, browse_each-ReplyCounted fuel ms 0 ns (d ∷ ds) maxrefs s c)

browse_next-ReplyCounted :
    (release : Bool) (fuel : ℕ) (allocated : Bool) (ms : ℕ → Memory) (ns : Nodes)
    (ids : List UaString) (s : Points)
    → IsCounted s
    → ReplyCounted (browse_next release fuel allocated ms ns ids s)
unfolding browse_next
browse_next-ReplyCounted release fuel allocated ms ns [] s c = c
browse_next-ReplyCounted release fuel allocated ms ns (id ∷ ids) s c =
    ground (arith, browse_next_each-ReplyCounted release fuel ms 0 ns (id ∷ ids) s c)

-- The calls of Browse and BrowseNext that come back, with whatever nodes, memory and arguments.
pub data Step (s s' : Points) : Type 0 where
  browsed :
      (fuel : ℕ) (allocated : Bool) (ms : ℕ → Memory) (ns : Nodes) (view : NodeId)
      (ds : List BrowseDescription) (maxrefs status : ℕ) (rs : List BrowseResult)
      → browse fuel allocated ms ns view ds maxrefs s ≡ replied status rs s'
      → Step s s'
  continued :
      (release : Bool) (fuel : ℕ) (allocated : Bool) (ms : ℕ → Memory) (ns : Nodes)
      (ids : List UaString) (status : ℕ) (rs : List BrowseResult)
      → browse_next release fuel allocated ms ns ids s ≡ replied status rs s'
      → Step s s'

pub data Reach : Points → Type 0 where
  fresh : Reach no_points
  further : {s s' : Points} → Reach s → Step s s' → Reach s'

-- After any calls of Browse and BrowseNext in a new session, whatever the nodes, the memory and the
-- errors, the continuation points that are available and those in the list are five together.
pub Reach-IsCounted : {s : Points} → Reach s → IsCounted s
Reach-IsCounted fresh = refl
Reach-IsCounted (further {s} r (browsed fuel allocated ms ns view ds maxrefs status rs e)) =
    subst ReplyCounted e
      (browse-ReplyCounted fuel allocated ms ns view ds maxrefs s (Reach-IsCounted r))
Reach-IsCounted (further {s} r (continued release fuel allocated ms ns ids status rs e)) =
    subst ReplyCounted e
      (browse_next-ReplyCounted release fuel allocated ms ns ids s (Reach-IsCounted r))
