-- ===== src/View/Services.antt =====
-- The services Browse, BrowseNext, RegisterNodes and UnregisterNodes of
-- src/server/ua_services_view.c.
use opc_ua.Common.{ℕ, ◌+◌, Bool, not, ◌==◌, if◌then◌else◌, List, [], ◌∷◌}
use opc_ua.Status.{good, bad_view_id_unknown, bad_nothing_to_do, bad_out_of_memory}
use opc_ua.Types.{UaString, NodeId, is_null}
use opc_ua.View.Nodes.{Nodes, Memory}
use opc_ua.View.Description.{BrowseDescription}
use opc_ua.View.Browse.{Points, BrowseResult}
use opc_ua.View.Points.{Outcome, answered, endless, browse_single, browse_next_single}

-- The response: the service result with the results, and the continuation points after the call.
pub data Response : Type 0 where
  replied : ℕ → List BrowseResult → Points → Response
  unending : Response

abbrev pub with_result : BrowseResult → Response → Response
with_result r (replied status rs s) = replied status (r ∷ rs) s
with_result r unending = unending

-- One result, and then the rest of the loop, which starts with the points that are left.
abbrev pub and_then : Outcome → (Points → Response) → Response
and_then (answered r s) rest = with_result r (rest s)
and_then endless rest = unending

-- The loop of `Service_Browse`; `ms` has the memory of each round.
unfoldable pub browse_each :
    ℕ → (ℕ → Memory) → ℕ → Nodes → List BrowseDescription → ℕ → Points → Response
unfolding browse_single
browse_each fuel ms i ns [] maxrefs s = replied good [] s
browse_each fuel ms i ns (d ∷ ds) maxrefs s =
    and_then (browse_single fuel (ms i) ns d maxrefs s)
      (λ s'. browse_each fuel ms (i + 1) ns ds maxrefs s')

-- `Service_Browse`; `allocated` says whether there is memory for the results
unfoldable pub browse :
    ℕ → Bool → (ℕ → Memory) → Nodes → NodeId → List BrowseDescription → ℕ → Points → Response
unfolding browse_each
browse fuel allocated ms ns view [] maxrefs s =
    replied (if not (is_null view) then bad_view_id_unknown else bad_nothing_to_do) [] s
browse fuel allocated ms ns view (d ∷ ds) maxrefs s =
    if not (is_null view)
    then replied bad_view_id_unknown [] s
    else if not allocated
    then replied bad_out_of_memory [] s
    else browse_each fuel ms 0 ns (d ∷ ds) maxrefs s

-- The loop of `Service_BrowseNext`
unfoldable pub browse_next_each :
    Bool → ℕ → (ℕ → Memory) → ℕ → Nodes → List UaString → Points → Response
unfolding browse_next_single
browse_next_each release fuel ms i ns [] s = replied good [] s
browse_next_each release fuel ms i ns (id ∷ ids) s =
    and_then (browse_next_single release fuel (ms i) ns id s)
      (λ s'. browse_next_each release fuel ms (i + 1) ns ids s')

-- `Service_BrowseNext`
unfoldable pub browse_next :
    Bool → ℕ → Bool → (ℕ → Memory) → Nodes → List UaString → Points → Response
unfolding browse_next_each
browse_next release fuel allocated ms ns [] s = replied bad_nothing_to_do [] s
browse_next release fuel allocated ms ns (id ∷ ids) s =
    if not allocated
    then replied bad_out_of_memory [] s
    else browse_next_each release fuel ms 0 ns (id ∷ ids) s

-- `Service_RegisterNodes`: the service result and the registered ids; `copied` is the status of
-- their copy
unfoldable pub register_nodes : ℕ → List NodeId → ℕ × List NodeId
register_nodes copied [] = (bad_nothing_to_do, [])
register_nodes copied (id ∷ ids) = if copied == good then (good, id ∷ ids) else (copied, [])

-- `Service_UnregisterNodes`
unfoldable pub unregister_nodes : List NodeId → ℕ
unregister_nodes [] = bad_nothing_to_do
unregister_nodes (id ∷ ids) = good
