-- ===== src/NodeStore/Tests.antt =====
-- A small table, and the theorems of the node store at it.
use opc_ua.Common.{ℕ, ◌+◌, ◌≡◌, ◌≢◌, refl, arith, true, Option, none, some, [], ◌∷◌}
use opc_ua.Status.{good}
use opc_ua.Types.{
  UaString, empty_string, null_string, NodeId, numeric, string, bytes_equal, string_equal,
  guid_equal, identifier_equal, node_id_equal, is_null,
}
use opc_ua.NodeStore.Hash.{
  mul32, rotate, mix_block, mix_tail, mix_blocks, finish, hash_array, hash_string, identifier_hash,
  hash,
}
use opc_ua.NodeStore.Table.{
  Node, NodeStore, search_prime, higher_prime_index, spins, probe, contains_node_id,
}
use opc_ua.NodeStore.Cycle.{undivided, is_prime}
use opc_ua.NodeStore.Operations.{
  returned, new_store, move_to, move_entries, keeps_size, resized, expand, fill, try_id,
  find_free_id, insert_at, wants_id, insert_node, insert, get, replace_at, replace, clear, shrink,
  remove_at, remove, iterate, delete_store,
}
use opc_ua.NodeStore.Lookup.{IsTable}
use opc_ua.NodeStore.Termination.{contains_node_id-ends}
use opc_ua.NodeStore.Removal.{remove-hides}

unfoldable pub program : Unit {0}
unfolding bytes_equal string_equal guid_equal identifier_equal node_id_equal is_null mul32 rotate
    mix_block mix_tail mix_blocks finish hash_array hash_string identifier_hash hash search_prime
    higher_prime_index probe contains_node_id undivided is_prime new_store move_to move_entries
    keeps_size resized expand fill try_id find_free_id insert_at wants_id insert_node insert get
    replace_at replace clear shrink remove_at remove iterate delete_store
program = tt

abbrev numbered : ℕ → NodeId
numbered n = record { namespace_index = 1; identifier = numeric n }

abbrev pub node : ℕ → Node ℕ
node n = record { node_id = numbered n; members = 100 + n }

-- Both nodes hash to the place 4; the second one stands four steps on.
abbrev pair : NodeStore ℕ
pair = record {
  entries = none ∷ some (node 5) ∷ none ∷ none ∷ some (node 2) ∷ none ∷ none ∷ [];
  size = 7;
  count = 2;
  size_prime_index = 0;
}

abbrev empty_seven : NodeStore ℕ
empty_seven = record pair {
  entries = none ∷ none ∷ none ∷ none ∷ none ∷ none ∷ none ∷ [];
  count = 0;
}

insert_first :
    insert true empty_seven (node 2)
    ≡ returned good (record pair {
      entries = none ∷ none ∷ none ∷ none ∷ some (node 2) ∷ none ∷ none ∷ [];
      count = 1;
    })
unfolding program
insert_first = refl

get_five : get pair (numbered 5) ≡ some (node 5)
unfolding program
get_five = refl

-- The table for 64 nodes has 127 entries; the one for no node has 7.
new_size : (new_store {A = ℕ}).size ≡ 127
unfolding program
new_size = refl

primes_first : is_prime 127 ≡ true
unfolding program
primes_first = refl

pair-IsTable : IsTable pair
pair-IsTable = record { sized = refl; least = omega arith; most = omega arith }

contains_node_id-ends_example : contains_node_id pair (numbered 8) ≢ spins
unfolding program
contains_node_id-ends_example =
    contains_node_id-ends pair (numbered 8) 0 pair-IsTable refl (omega arith) refl (omega arith)

abbrev newer : Node ℕ
newer = record { node_id = numbered 5; members = 200 }

abbrev named : UaString → NodeId
named s = record { namespace_index = 1; identifier = string s }

remove-hides_example :
    (remove true pair (numbered 2) ≡ returned good (clear pair 4))
    × (◌≡◌ {A = Option (Node ℕ)} (some (node 5)) (some (node 5)))
    × (get pair (numbered 5) ≡ some (node 5))
    × (get (clear pair 4) (numbered 5) ≡ none)
unfolding program
remove-hides_example =
    remove-hides pair true (numbered 2) 4 (numbered 5) 1 (node 5) refl refl refl refl refl
      (omega arith) (omega arith)

-- The NULL string and the empty one compare equal, and hash apart.
null_equal : node_id_equal (named null_string) (named empty_string) ≡ true
unfolding program
null_equal = refl

null_apart : hash (named null_string) ≢ hash (named empty_string)
unfolding program
null_apart h = omega arith

delete_pair : delete_store pair.entries ≡ node 5 ∷ node 2 ∷ []
unfolding program
delete_pair = refl

iterate_pair : iterate pair.entries ≡ node 5 ∷ node 2 ∷ []
unfolding program
iterate_pair = refl
