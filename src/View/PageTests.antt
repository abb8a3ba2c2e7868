-- ===== src/View/PageTests.antt =====
-- Browsing and walking along paths in the small address space.
use opc_ua.Common.{
  ℕ, ◌≡◌, refl, inl, if◌then◌else◌, arith, true, false, some, List, [], ◌∷◌, length, map, leb,
}
use opc_ua.Status.{good}
use opc_ua.Types.{chars, null_node_id}
use opc_ua.View.Description.{
  BrowseDescription, Filter, listed, return_relevant_node, in_direction, of_type, is_listed,
  fill_description, fill_status, find_type_definition, type_definition_of,
}
use opc_ua.View.Browse.{
  Points, BrowseResult, no_points, result_of_status, matching, relevant_types, browse_from,
  browse_relevant, browse_node, page, real_maxrefs,
}
use opc_ua.View.Points.{
  browse_single, create_point, browse_next_single, find_point, next_found, remove_cp,
}
use opc_ua.View.Services.{replied, browse, browse_each, browse_next, browse_next_each}
use opc_ua.View.Bounds.{IsCounted, fresh, further, browsed, Reach-IsCounted}
use opc_ua.View.Paging.{descriptions}
use opc_ua.View.Client.{follow, Supplies}
use opc_ua.View.Following.{browse_single-descriptions}
use opc_ua.View.Translate.{
  PathElement, element_types, translate_single, target_of, path_result, broken, next_node, follows,
  is_named,
}
use opc_ua.View.Reaching.{reached, reached_by, translate_single-reached}
use opc_ua.View.Tests.{program, id, name, node, folder, nodes, stored_folder, memory}

-- The folder is browsed in pages of one reference.
abbrev description : BrowseDescription
description = record {
  node_id = id 85;
  browse_direction = 0;
  reference_type_id = id 33;
  include_subtypes = true;
  node_class_mask = 0;
  result_mask = 63;
}

abbrev hierarchy : Filter
hierarchy = listed (id 33 ∷ id 35 ∷ [])

hierarchy_found : relevant_types 9 memory nodes description ≡ matching hierarchy
unfolding program relevant_types
hierarchy_found = refl

memory-Supplies : Supplies memory (7 ∷ 8 ∷ [])
memory-Supplies = record {
  references = refl;
  describe = λ n. refl;
  point = refl;
  identifier = refl;
}

browse_single-descriptions_example :
    follow 5 9 memory nodes (browse_single 9 memory nodes description 1 no_points)
    ≡ some (descriptions nodes description hierarchy folder.members.references, no_points)
browse_single-descriptions_example =
    browse_single-descriptions 9 memory (7 ∷ 8 ∷ []) memory-Supplies nodes description hierarchy
      folder (inl refl) hierarchy_found stored_folder (omega arith) 1 (omega arith) no_points
      (omega arith) (omega arith)

two_described : length (descriptions nodes description hierarchy folder.members.references) ≡ 2
unfolding program descriptions return_relevant_node in_direction of_type is_listed
two_described = refl

abbrev after_first : Points
after_first = record {
  entries =
      record {
        identifier = chars (7 ∷ 8 ∷ []);
        browse_description = description;
        continuation_index = 1;
        max_references = 1;
      }
      ∷ [];
  available = 4;
}

first_page :
    (rs : List BrowseResult) × (browse 9 true
        (λ i. memory)
        nodes
        null_node_id
        (description ∷ [])
        1
        no_points
      ≡ replied good rs after_first)
unfolding program descriptions return_relevant_node in_direction of_type is_listed browse
    browse_each browse_single browse_from relevant_types browse_relevant browse_node page
    real_maxrefs create_point fill_description fill_status find_type_definition type_definition_of
first_page = (_, refl)

Reach-IsCounted_example : IsCounted after_first
Reach-IsCounted_example = Reach-IsCounted (
    further fresh (
      browsed 9 true (λ i. memory) nodes null_node_id (description ∷ []) 1 good first_page.0
        first_page.1))

abbrev step_to : ℕ → PathElement
step_to n = record {
  reference_type_id = id 33;
  is_inverse = false;
  include_subtypes = true;
  target_name = name n;
}

step_resolved : element_types 9 memory nodes (step_to 2) ≡ matching hierarchy
unfolding program element_types
step_resolved = refl

translate_single-reached_example :
    translate_single 9 memory (λ i. good) nodes (id 85) (step_to 2 ∷ []) ≡ (
      let ts = map target_of (reached nodes (λ e. hierarchy) (step_to 2 ∷ []) folder) in
      if leb (length ts) 10 then path_result ts else broken)
translate_single-reached_example =
    translate_single-reached 9 memory (λ i. good) (λ i. refl) nodes (λ e. hierarchy) (id 85) folder
      (step_to 2) [] refl stored_folder (step_resolved, tt)

one_target : reached nodes (λ e. hierarchy) (step_to 2 ∷ []) folder ≡ node 2 2 [] ∷ []
unfolding program reached reached_by next_node follows is_named is_listed
one_target = refl

released :
    browse_next true 9 true (λ i. memory) nodes (chars (7 ∷ 8 ∷ []) ∷ []) after_first
    ≡ replied good (result_of_status good ∷ []) no_points
unfolding program browse_next browse_next_each browse_next_single find_point next_found remove_cp
released = refl
