-- ===== src/NodeStore/Table.antt =====
-- The table of src/server/ua_nodestore.c and the search in it.
use opc_ua.Common.{
  ℕ, zero, suc, ◌+◌, ◌-◌, ◌/◌, ◌%◌, ◌^◌, ltb, leb, ◌==◌, if◌then◌else◌, Option, none, some, List,
  [], ◌∷◌, get_or,
}
use opc_ua.Types.{NodeId, node_id_equal}
use opc_ua.NodeStore.Hash.{hash, first_index, step}

-- A node: its id, and the members that the store only copies.
pub record Node {ℓ} (A : Type ℓ) : Type ℓ where
  pub node_id : NodeId
  pub members : A

-- An entry is free, or holds a node.
abbrev pub Entries {ℓ} : Type ℓ → Type ℓ
Entries A = List (Option (Node A))

pub record NodeStore {ℓ} (A : Type ℓ) : Type ℓ where
  pub entries : Entries A
  pub size : ℕ
  pub count : ℕ
  pub size_prime_index : ℕ

abbrev pub primes : List ℕ
primes =
    7 ∷ 13 ∷ 31 ∷ 61 ∷ 127 ∷ 251 ∷ 509 ∷ 1021 ∷ 2039 ∷ 4093 ∷ 8191 ∷ 16381 ∷ 32749 ∷ 65521 ∷ 131071
    ∷ 262139 ∷ 524287 ∷ 1048573 ∷ 2097143 ∷ 4194301 ∷ 8388593 ∷ 16777213 ∷ 33554393 ∷ 67108859
    ∷ 134217689 ∷ 268435399 ∷ 536870909 ∷ 1073741789 ∷ 2147483647 ∷ 4294967291 ∷ []

-- The binary search for the first prime that is not below `n`; each round halves the range, which
-- starts with 30 places.
unfoldable pub search_prime : ℕ → ℕ → ℕ → ℕ → ℕ
search_prime zero n low high = low
search_prime (suc fuel) n low high =
    let mid = low + (high - low) / 2 in
    let left = search_prime fuel n low mid in
    let right = search_prime fuel n (mid + 1) high in
    if low == high then low else if ltb (get_or primes mid 0) n then right else left

unfoldable pub higher_prime_index : ℕ → ℕ
unfolding search_prime
higher_prime_index n = search_prime 30 n 0 30

-- What `containsNodeId` answers, with the place of its entry; `spins` if its loop has not ended
-- within the fuel.
pub data Search : Type 0 where
  found : ℕ → Search
  free : ℕ → Search
  spins : Search

-- `index += hash2; if(index >= size) index -= size;` on 32 bits
abbrev pub advance : ℕ → ℕ → ℕ → ℕ
advance size by i = let j = (i + by) % 2 ^ 32 in if leb size j then j - size else j

module _ {ℓ} {A : Type ℓ} where
  abbrev pub entry : Entries A → ℕ → Option (Node A)
  entry es i = get_or es i none

  -- What an entry says about an id: the search ends there, or goes on.
  abbrev pub look : NodeId → ℕ → Option (Node A) → Search → Search
  look id i none rest = free i
  look id i (some n) rest = if node_id_equal n.node_id id then found i else rest

  -- The entry at `i`, and then the loop.
  unfoldable pub probe : ℕ → Entries A → ℕ → ℕ → NodeId → ℕ → Search
  probe zero es size by id i = spins
  probe (suc fuel) es size by id i =
      let rest = probe fuel es size by id (advance size by i) in look id i (entry es i) rest

  -- `containsNodeId`, with fuel for one visit to each entry
  unfoldable pub contains_node_id : NodeStore A → NodeId → Search
  unfolding probe
  contains_node_id ns id =
      let h = hash id in
      probe ns.size ns.entries ns.size (step h ns.size) id (first_index h ns.size)
