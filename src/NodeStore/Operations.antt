-- ===== src/NodeStore/Operations.antt =====
-- The exported functions of src/server/ua_nodestore.c.
use opc_ua.Common.{
  ℕ, zero, suc, ◌+◌, ◌-◌, ◌*◌, ◌%◌, ◌^◌, Bool, ◌&&◌, ◌||◌, ltb, leb, ◌==◌, if◌then◌else◌, Option,
  none, some, List, [], ◌∷◌, get_or, set, replicate,
}
use opc_ua.Status.{
  good, bad_internal_error, bad_out_of_memory, bad_node_id_unknown, bad_node_id_exists,
}
use opc_ua.Types.{NodeId, numeric, is_null}
use opc_ua.NodeStore.Hash.{step}
use opc_ua.NodeStore.Table.{
  Node, Entries, NodeStore, primes, higher_prime_index, Search, found, free, spins,
  contains_node_id, entry,
}

-- What a call returns: a status with the store, or no return within the fuel.
pub data Result {ℓ} (A : Type ℓ) : Type ℓ where
  returned : ℕ → NodeStore A → Result A
  endless : Result A

-- The test for an id with no identifier, which asks for a fresh one.
unfoldable pub wants_id : NodeId → Bool
wants_id id = is_null (record id { namespace_index = 0 })

abbrev pub requested_namespace : NodeId → ℕ
requested_namespace id = if id.namespace_index == 0 then 1 else id.namespace_index

module _ {ℓ} {A : Type ℓ} where
  -- `UA_NodeStore_new`, if its memory is allocated
  unfoldable pub new_store : NodeStore A
  unfolding higher_prime_index
  new_store =
      let i = higher_prime_index 64 in
      let size = get_or primes i 0 in
      record { entries = replicate size none; size = size; count = 0; size_prime_index = i }

  -- The write through the pointer to an entry, of a node or of `taken = false`.
  abbrev pub write : NodeStore A → ℕ → Option (Node A) → NodeStore A
  write ns i e = record ns { entries = set ns.entries i e }

  -- Where the pointer of `containsNodeId` goes, whatever it answers: the assignment in `expand`.
  unfoldable pub move_to : Search → Node A → NodeStore A → Option (NodeStore A)
  move_to (found i) n ns = some (write ns i (some n))
  move_to (free i) n ns = some (write ns i (some n))
  move_to spins n ns = none

  abbrev pub and_move :
      Option (NodeStore A) → (NodeStore A → Option (NodeStore A)) → Option (NodeStore A)
  and_move none rest = none
  and_move (some ns) rest = rest ns

  -- The loop of `expand`, over the old entries; `left` is `count - j`.
  unfoldable pub move_entries : Entries A → ℕ → NodeStore A → Option (NodeStore A)
  unfolding move_to
  move_entries [] left ns = some ns
  move_entries (e ∷ es) zero ns = some ns
  move_entries (none ∷ es) (suc left) ns = move_entries es (suc left) ns
  move_entries (some n ∷ es) (suc left) ns =
      and_move (move_to (contains_node_id ns n.node_id) n ns) (move_entries es left)

  -- The test at the head of `expand`.
  unfoldable pub keeps_size : NodeStore A → Bool
  keeps_size ns =
      ltb ((ns.count * 2) % 2 ^ 32) ns.size
      && (ltb ns.size ((ns.count * 8) % 2 ^ 32) || leb ns.size 64)

  -- The new table, still empty.
  unfoldable pub resized : NodeStore A → NodeStore A
  resized ns =
      let i = higher_prime_index ((ns.count * 2) % 2 ^ 32) in
      record {
        entries = replicate (get_or primes i 0) none;
        size = get_or primes i 0;
        count = ns.count;
        size_prime_index = i;
      }

  abbrev pub with_status : ℕ → Option (NodeStore A) → Result A
  with_status status none = endless
  with_status status (some ns) = returned status ns

  -- `expand`; `allocated` says whether `UA_calloc` returned memory
  unfoldable pub expand : Bool → NodeStore A → Result A
  expand allocated ns =
      if keeps_size ns
      then returned good ns
      else if allocated
      then with_status good (move_entries ns.entries ns.count (resized ns))
      else returned bad_out_of_memory ns

  -- `fillEntry` and `ns->count++`
  unfoldable pub fill : NodeStore A → ℕ → Node A → NodeStore A
  fill ns i n = record ns { entries = set ns.entries i (some n); count = (ns.count + 1) % 2 ^ 32 }

  abbrev pub with_numeric : Node A → ℕ → ℕ → Node A
  with_numeric n namespace id = record n {
    node_id = record { namespace_index = namespace; identifier = numeric id };
  }

  -- One round of the search for a free numeric id: the end of the loop, or the rest of it.
  unfoldable pub try_id : NodeStore A → Node A → Search → Result A → Result A
  unfolding fill
  try_id ns m (free i) rest = returned good (fill ns i m)
  try_id ns m (found i) rest = rest
  try_id ns m spins rest = endless

  -- The search for a free numeric id, from `id` on in steps of `by`.
  unfoldable pub find_free_id : ℕ → NodeStore A → Node A → ℕ → ℕ → ℕ → Result A
  unfolding try_id
  find_free_id zero ns n namespace by id = endless
  find_free_id (suc fuel) ns n namespace by id =
      let rest =
        find_free_id fuel ns n namespace by
          (if leb ns.size (id + by) then id + by - ns.size else id + by) in
      let m = with_numeric n namespace id in try_id ns m (contains_node_id ns m.node_id) rest

  -- The insertion of a node that comes with an id.
  unfoldable pub insert_at : NodeStore A → Node A → Search → Result A
  unfolding fill
  insert_at ns n (found i) = returned bad_node_id_exists ns
  insert_at ns n (free i) = returned good (fill ns i n)
  insert_at ns n spins = endless

  -- `UA_NodeStore_insert` after the store has been expanded
  unfoldable pub insert_node : NodeStore A → Node A → Result A
  unfolding find_free_id insert_at wants_id
  insert_node ns n =
      if wants_id n.node_id
      then find_free_id ns.size ns n (requested_namespace n.node_id) (step (ns.count + 1) ns.size)
          (ns.count + 1)
      else insert_at ns n (contains_node_id ns n.node_id)

  abbrev pub insert_expanded : Node A → Result A → Result A
  unfolding insert_node
  insert_expanded n endless = endless
  insert_expanded n (returned status ns) =
      if status == good then insert_node ns n else returned bad_internal_error ns

  -- `UA_NodeStore_insert`
  unfoldable pub insert : Bool → NodeStore A → Node A → Result A
  unfolding expand insert_node
  insert allocated ns n =
      if leb ((ns.size * 3) % 2 ^ 32) ((ns.count * 4) % 2 ^ 32)
      then insert_expanded n (expand allocated ns)
      else insert_node ns n

  abbrev pub get_at : Entries A → Search → Option (Node A)
  get_at es (found i) = entry es i
  get_at es (free i) = none
  get_at es spins = none

  -- `UA_NodeStore_get`
  unfoldable pub get : NodeStore A → NodeId → Option (Node A)
  get ns id = get_at ns.entries (contains_node_id ns id)

  unfoldable pub replace_at : NodeStore A → ℕ → Node A → Search → Result A
  replace_at ns old n (free i) = returned bad_node_id_unknown ns
  replace_at ns old n spins = endless
  replace_at ns old n (found i) =
      if i == old then returned good (write ns i (some n)) else returned bad_internal_error ns

  -- `UA_NodeStore_replace`; `old` is the place of the entry that `oldNode` points into
  unfoldable pub replace : NodeStore A → ℕ → Node A → Result A
  unfolding replace_at
  replace ns old n = replace_at ns old n (contains_node_id ns n.node_id)

  -- `deleteEntry` and `ns->count--`
  unfoldable pub clear : NodeStore A → ℕ → NodeStore A
  clear ns i = record ns {
    entries = set ns.entries i none;
    count = (ns.count + (2 ^ 32 - 1)) % 2 ^ 32;
  }

  -- The outcome of `expand` is not read.
  abbrev pub ignore_status : Result A → Result A
  ignore_status (returned status ns) = returned good ns
  ignore_status endless = endless

  -- The call of `expand` that ends `UA_NodeStore_remove`
  unfoldable pub shrink : Bool → NodeStore A → Result A
  unfolding expand
  shrink allocated ns =
      if ltb ((ns.count * 8) % 2 ^ 32) ns.size && ltb 32 ns.size
      then ignore_status (expand allocated ns)
      else returned good ns

  unfoldable pub remove_at : Bool → NodeStore A → Search → Result A
  unfolding clear shrink
  remove_at allocated ns (free i) = returned bad_node_id_unknown ns
  remove_at allocated ns spins = endless
  remove_at allocated ns (found i) = shrink allocated (clear ns i)

  -- `UA_NodeStore_remove`
  unfoldable pub remove : Bool → NodeStore A → NodeId → Result A
  unfolding remove_at
  remove allocated ns id = remove_at allocated ns (contains_node_id ns id)

  -- The nodes that `UA_NodeStore_iterate` visits, in the order of the entries.
  unfoldable pub iterate : Entries A → List (Node A)
  iterate [] = []
  iterate (none ∷ es) = iterate es
  iterate (some n ∷ es) = n ∷ iterate es

  -- The nodes whose members `UA_NodeStore_delete` deletes, in the order of the entries.
  unfoldable pub delete_store : Entries A → List (Node A)
  delete_store [] = []
  delete_store (none ∷ es) = delete_store es
  delete_store (some n ∷ es) = n ∷ delete_store es
