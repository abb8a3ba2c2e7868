-- ===== src/View/Client.antt =====
-- A client that calls Browse and then BrowseNext as long as it gets a continuation point, against
-- src/server/ua_services_view.c.
use opc_ua.Common.{
  ℕ, zero, suc, ◌≤◌, ◌<◌, ◌≡◌, ◌⊎◌, inl, inr, arith, true, false, Option, Option-cases, none, some,
  List, [], ◌∷◌, ◌++◌, length,
}
use opc_ua.Types.{chars, null_string, empty_string}
use opc_ua.View.Nodes.{Reference, Nodes, Memory}
use opc_ua.View.Description.{
  BrowseDescription, ReferenceDescription, Filter, return_relevant_node, forward, inverse, both,
}
use opc_ua.View.Browse.{Points, real_maxrefs}
use opc_ua.View.Points.{Outcome, answered, endless, browse_next_single}
use opc_ua.View.Paging.{all_copied, descriptions}

abbrev pub prepend :
    List ReferenceDescription
    → Option (List ReferenceDescription × Points)
    → Option (List ReferenceDescription × Points)
prepend ds none = none
prepend ds (some (es, s)) = some (ds ++ es, s)

-- The descriptions of the pages from a result on, with the continuation points at the end; `none`
-- if there are more rounds than the fuel, or the search for subtypes has not ended.
unfoldable pub follow :
    ℕ → ℕ → Memory → Nodes → Outcome → Option (List ReferenceDescription × Points)
follow zero fuel m ns o = none
follow (suc rounds) fuel m ns endless = none
follow (suc rounds) fuel m ns (answered r s) = elim r.continuation_point [
  | null_string ↦ some (r.references, s)
  | empty_string ↦ some (r.references, s)
  | chars bs ↦
      prepend r.references
        (follow rounds fuel m ns (browse_next_single false fuel m ns (chars bs) s))
]

-- The memory of the calls: everything is allocated and copied, and the identifier of a continuation
-- point has the bytes.
pub record Supplies (m : Memory) (bs : List ℕ) : Type 0 where
  pub references : m.references ≡ true
  pub describe : (i : ℕ) → m.describe i ≡ all_copied
  pub point : m.point ≡ true
  pub identifier : m.identifier ≡ chars bs

abbrev pub IsDirection : ℕ → Type 0
IsDirection d = (d ≡ forward) ⊎ ((d ≡ inverse) ⊎ (d ≡ both))

pub real_maxrefs_pos : (maxrefs size : ℕ) → 0 < maxrefs → 0 < size → 0 < real_maxrefs maxrefs size
unfolding real_maxrefs
real_maxrefs_pos maxrefs size h k = ground arith

-- There is room for as many references as were asked for or as there are.
pub real_maxrefs-cases :
    (maxrefs size : ℕ)
    → 0 < maxrefs
    → (real_maxrefs maxrefs size ≤ maxrefs)
      × ((real_maxrefs maxrefs size ≡ maxrefs) ⊎ (real_maxrefs maxrefs size ≡ size))
unfolding real_maxrefs
real_maxrefs-cases maxrefs size h = ground arith

pub descriptions-le :
    (ns : Nodes) (descr : BrowseDescription) (types : Filter) (rs : List Reference)
    → length (descriptions ns descr types rs) ≤ length rs
unfolding descriptions
descriptions-le ns descr types [] = omega arith
descriptions-le ns descr types (r ∷ rs) =
    elim (Option-cases (return_relevant_node ns descr types r)) [
      | inl e ↦ rw e (omega (arith, descriptions-le ns descr types rs))
      | inr (n, e) ↦ rw e (omega (arith, descriptions-le ns descr types rs))
    ]
