-- ===== src/View/Points.antt =====
-- The continuation points of a session in src/server/ua_services_view.c: Browse and BrowseNext.
use opc_ua.Common.{
  ℕ, ◌+◌, ◌-◌, ◌%◌, ◌^◌, Bool, not, ◌&&◌, ◌||◌, leb, ◌==◌, if◌then◌else◌, Option, none, some, List,
  [], ◌∷◌, ◌++◌, length,
}
use opc_ua.Status.{good, bad_no_continuation_points, bad_continuation_point_invalid}
use opc_ua.Types.{UaString, null_string, string_equal}
use opc_ua.View.Nodes.{Nodes, Memory}
use opc_ua.View.Description.{BrowseDescription}
use opc_ua.View.Browse.{
  ContinuationPoint, Points, BrowseResult, result_of_status, Page, Browsed, ended, paged, lost,
  browse_from,
}

-- What a call answers, with the continuation points after it; `endless` if the search for subtypes
-- has not ended within the fuel.
pub data Outcome : Type 0 where
  answered : BrowseResult → Points → Outcome
  endless : Outcome

-- The entries of the list before and behind the one that is found.
pub record Found : Type 0 where
  pub before : List ContinuationPoint
  pub point : ContinuationPoint
  pub after : List ContinuationPoint

abbrev pub behind : ContinuationPoint → Option Found → Option Found
behind cp none = none
behind cp (some f) = some (record f { before = cp ∷ f.before })

-- The first continuation point with the identifier.
unfoldable pub find_point : UaString → List ContinuationPoint → Option Found
find_point id [] = none
find_point id (cp ∷ cps) =
    if string_equal cp.identifier id
    then some (record { before = []; point = cp; after = cps })
    else behind cp (find_point id cps)

-- `removeCp`
unfoldable pub remove_cp : Found → Points → Points
remove_cp f s = record s { entries = f.before ++ f.after; available = (s.available + 1) % 2 ^ 16 }

-- The result of a page; its references are deleted after an error.
abbrev pub page_result : Page → BrowseResult
page_result p =
    if p.status == good
    then record {
      status_code = good;
      continuation_point = null_string;
      references = p.descriptions;
    }
    else result_of_status p.status

-- The continuation point after one more page.
abbrev pub advance_point : ℕ → ContinuationPoint → ContinuationPoint
advance_point count cp = record cp { continuation_index = (cp.continuation_index + count) % 2 ^ 32 }

-- What is done with a continuation point that was used.
unfoldable pub update_point : Found → Page → Points → Outcome
unfolding remove_cp
update_point f p s = if not (p.status == good) then answered (page_result p) s else elim p.rest [
  | [] ↦ answered (page_result p) (remove_cp f s)
  | r ∷ rs ↦
      answered (record (page_result p) { continuation_point = f.point.identifier })
        (record s { entries = f.before ++ advance_point (length p.descriptions) f.point ∷ f.after })
]

abbrev pub new_point : Memory → BrowseDescription → ℕ → ℕ → ContinuationPoint
new_point m descr maxrefs count = record {
  identifier = m.identifier;
  browse_description = descr;
  continuation_index = count % 2 ^ 32;
  max_references = maxrefs;
}

-- A new continuation point, if as many references were returned as were asked for.
unfoldable pub create_point : Memory → BrowseDescription → ℕ → Page → Points → Outcome
create_point m descr maxrefs p s =
    let count = length p.descriptions in
    if not (p.status == good)
    then answered (page_result p) s
    else if not (not (maxrefs == 0) && leb maxrefs count)
    then answered (page_result p) s
    else if (s.available == 0) || not m.point
    then answered (record (page_result p) { status_code = bad_no_continuation_points }) s
    else answered (record (page_result p) { continuation_point = m.identifier })
        (record {
          entries = new_point m descr maxrefs count ∷ s.entries;
          available = s.available - 1;
        })

abbrev pub with_points : (Page → Points → Outcome) → Browsed → Points → Outcome
with_points use_page (ended status) s = answered (result_of_status status) s
with_points use_page (paged p) s = use_page p s
with_points use_page lost s = endless

-- `Service_Browse_single` without a continuation point
unfoldable pub browse_single : ℕ → Memory → Nodes → BrowseDescription → ℕ → Points → Outcome
unfolding browse_from create_point
browse_single fuel m ns descr maxrefs s =
    with_points (create_point m descr maxrefs) (browse_from fuel m ns descr maxrefs 0) s

-- `Service_Browse_single` with a continuation point
unfoldable pub browse_point : ℕ → Memory → Nodes → Found → Points → Outcome
unfolding browse_from update_point
browse_point fuel m ns f s =
    let cp = f.point in
    with_points (update_point f)
      (browse_from fuel m ns cp.browse_description cp.max_references cp.continuation_index) s

-- One round of `Service_BrowseNext`, with the point that is found.
unfoldable pub next_found : Bool → ℕ → Memory → Nodes → Option Found → Points → Outcome
unfolding browse_point remove_cp
next_found release fuel m ns none s = answered (result_of_status bad_continuation_point_invalid) s
next_found release fuel m ns (some f) s =
    if release then answered (result_of_status good) (remove_cp f s) else browse_point fuel m ns f s

-- One round of `Service_BrowseNext`
unfoldable pub browse_next_single : Bool → ℕ → Memory → Nodes → UaString → Points → Outcome
unfolding find_point next_found
browse_next_single release fuel m ns id s = next_found release fuel m ns (find_point id s.entries) s
