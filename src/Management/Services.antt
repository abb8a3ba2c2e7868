-- ===== src/Management/Services.antt =====
-- The services AddReferences and DeleteReferences of src/server/ua_services_nodemanagement.c.
use opc_ua.Common.{ℕ, ◌+◌, Bool, not, if◌then◌else◌, Option, none, some, List, [], ◌∷◌}
use opc_ua.Status.{good, bad_out_of_memory, bad_nothing_to_do}
use opc_ua.View.Nodes.{Nodes}
use opc_ua.Management.References.{
  AddItem, DeleteItem, Slot, Outcome, add_references_single, delete_references_single, done,
  undefined,
}

-- What a service leaves: the service result, the results of the items as far as they are written, and
-- the store.
pub data Response : Type 0 where
  replied : ℕ → List (Option ℕ) → Nodes → Response
  crashed : Response

abbrev pub add_status : Option ℕ → Response → Response
add_status status (replied r statuses ns) = replied r (status ∷ statuses) ns
add_status status crashed = crashed

abbrev pub next_item : (ℕ → Option ℕ) → Outcome → (Nodes → Response) → Response
next_item result undefined rest = crashed
next_item result (done status ns) rest = add_status (result status) (rest ns)

-- The loop of `Service_AddReferences`, which writes no result.
unfoldable pub add_references_each : (ℕ → Slot) → (ℕ → Slot) → ℕ → List AddItem → Nodes → Response
unfolding add_references_single
add_references_each here there i [] ns = replied good [] ns
add_references_each here there i (item ∷ items) ns =
    next_item (λ status. none) (add_references_single (here i) (there i) ns item)
      (add_references_each here there (i + 1) items)

-- `Service_AddReferences`
unfoldable pub add_references : Bool → (ℕ → Slot) → (ℕ → Slot) → List AddItem → Nodes → Response
unfolding add_references_each
add_references allocated here there [] ns = replied bad_nothing_to_do [] ns
add_references allocated here there (item ∷ items) ns =
    if not allocated
    then replied bad_out_of_memory [] ns
    else add_references_each here there 0 (item ∷ items) ns

-- The loop of `Service_DeleteReferences`
unfoldable pub delete_references_each : List DeleteItem → Nodes → Response
unfolding delete_references_single
delete_references_each [] ns = replied good [] ns
delete_references_each (item ∷ items) ns =
    next_item some (delete_references_single ns item) (delete_references_each items)

-- `Service_DeleteReferences`
unfoldable pub delete_references : Bool → List DeleteItem → Nodes → Response
unfolding delete_references_each
delete_references allocated [] ns = replied bad_nothing_to_do [] ns
delete_references allocated (item ∷ items) ns =
    if not allocated
    then replied bad_out_of_memory [] ns
    else delete_references_each (item ∷ items) ns
