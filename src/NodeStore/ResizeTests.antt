-- ===== src/NodeStore/ResizeTests.antt =====
-- A table that is resized.
use opc_ua.Common.{
  ℕ, zero, suc, ◌≡◌, refl, subst, arith, true, false, Option, none, some, [], ◌∷◌, drop, All,
}
use opc_ua.Status.{good}
use opc_ua.Types.{node_id_equal}
use opc_ua.NodeStore.Table.{Node, Entries, NodeStore, entry}
use opc_ua.NodeStore.Operations.{returned, resized, expand, get}
use opc_ua.NodeStore.Resizing.{IsDistinct, expand-get}
use opc_ua.NodeStore.Tests.{program, node}

abbrev At : (Node ℕ → Type 0) → Option (Node ℕ) → Type 0
At P none = Unit {0}
At P (some n) = P n

entry-all :
    (P : Node ℕ → Type 0) (es : Entries ℕ)
    → All (At P) es
    → (j : ℕ) (n : Node ℕ) → entry es j ≡ some n
    → P n
entry-all P [] h j n e = cc
entry-all P (x ∷ es) h zero n e = subst (At P) e h.0
entry-all P (x ∷ es) h (suc j) n e = entry-all P es h.1 j n e

-- More nodes than half of the entries.
abbrev crowded : NodeStore ℕ
crowded = record {
  entries = some (node 1) ∷ some (node 5) ∷ none ∷ none ∷ some (node 2) ∷ some (node 9) ∷ none ∷ [];
  size = 7;
  count = 4;
  size_prime_index = 0;
}

abbrev IsOther : Node ℕ → Node ℕ → Type 0
IsOther n m = node_id_equal n.node_id m.node_id ≡ false

crowded-IsDistinct : IsDistinct crowded.entries
unfolding program
crowded-IsDistinct = (
  entry-all (IsOther (node 1)) (drop 1 crowded.entries)
      (refl, (tt, (tt, (refl, (refl, (tt, tt)))))),
  (
    entry-all (IsOther (node 5)) (drop 2 crowded.entries) (tt, (tt, (refl, (refl, (tt, tt))))),
    (
      entry-all (IsOther (node 2)) (drop 5 crowded.entries) (refl, (tt, tt)),
      (entry-all (IsOther (node 9)) (drop 6 crowded.entries) (tt, tt), tt),
    ),
  ),
)

new_size : (resized crowded).size ≡ 13
unfolding program
new_size = refl

expand-get_example :
    (ns' : NodeStore ℕ) × (expand true crowded ≡ returned good ns')
    × ((n : Node ℕ) → get crowded n.node_id ≡ some n → get ns' n.node_id ≡ some n)
unfolding program
expand-get_example =
    expand-get crowded refl (omega arith) (omega arith) (omega arith) refl crowded-IsDistinct
