-- ===== src/NodeStore/Lookup.antt =====
-- What the operations of src/server/ua_nodestore.c do to the nodes that can be found.
use opc_ua.Common.{
  inr, inl, ◌⊎◌, ℕ, ◌-◌, ◌%◌, ◌^◌, ◌<◌, ◌≡◌, ◌≢◌, refl, ap, subst, ◌∙◌, arith, true, false, Option,
  none, some, length, set,
}
use native.Mathlib.Nat.{mod-lt}
use opc_ua.Status.{good, bad_node_id_exists, bad_internal_error}
use opc_ua.Types.{NodeId, node_id_equal}
use opc_ua.NodeStore.Hash.{hash, first_index, step}
use opc_ua.NodeStore.Equality.{node_id_equal_refl, node_id_equal-left, alike_ids, hash-equal}
use opc_ua.NodeStore.Table.{
  Node, Entries, NodeStore, Search, found, free, spins, entry, probe, contains_node_id,
}
use opc_ua.NodeStore.Probe.{
  get_or-set, get_or-set_other, get_or-inside, probe-free, probe-found, probe-fill,
  probe-fill_other, probe-inside, probe-replace, probe-equal,
}
use opc_ua.NodeStore.Operations.{
  returned, write, fill, insert_at, insert_node, wants_id, get, get_at, replace, replace_at,
}

-- The array has as many entries as the table counts, at least three.
pub record IsTable {ℓ} {A : Type ℓ} (ns : NodeStore A) : Type ℓ where
  pub sized : length ns.entries ≡ ns.size
  pub least : 2 < ns.size
  pub most : ns.size < 2 ^ 32

pub Search-cases :
    (r : Search) → ((j : ℕ) × (r ≡ found j)) ⊎ (((j : ℕ) × (r ≡ free j)) ⊎ (r ≡ spins))
Search-cases (found j) = inl (j, refl)
Search-cases (free j) = inr (inl (j, refl))
Search-cases spins = inr (inr refl)

module _ {ℓ} {A : Type ℓ} where
  get_at-found :
      (es : Entries A) (r : Search) {m : Node A}
      → get_at es r ≡ some m
      → (j : ℕ) × (r ≡ found j) × (entry es j ≡ some m)
  get_at-found es (found j) h = (j, refl, h)
  get_at-found es (free j) h = cc
  get_at-found es spins h = cc

  pub get_at-set_other :
      (es : Entries A) (j : ℕ) (v : Option (Node A)) (r : Search)
      → r ≢ found j
      → get_at (set es j v) r ≡ get_at es r
  get_at-set_other es j v (found k) h = get_or-set_other es j k v none (λ e. h (ap found e))
  get_at-set_other es j v (free k) h = refl
  get_at-set_other es j v spins h = refl

module _ {ℓ} {A : Type ℓ} (ns : NodeStore A) (id : NodeId) where
  -- A node that is got was found, and has the id.
  pub get-found :
      {m : Node A}
      → get ns id ≡ some m
      → (j : ℕ) × (contains_node_id ns id ≡ found j) × (entry ns.entries j ≡ some m)
  unfolding get
  get-found h = get_at-found ns.entries (contains_node_id ns id) h

  pub contains-found :
      {j : ℕ}
      → contains_node_id ns id ≡ found j
      → (m : Node A) × (entry ns.entries j ≡ some m) × (node_id_equal m.node_id id ≡ true)
  unfolding contains_node_id
  contains-found h =
      probe-found ns.size (step (hash id) ns.size) id ns.size ns.entries
        (first_index (hash id) ns.size) h

  pub contains-free : {e : ℕ} → contains_node_id ns id ≡ free e → entry ns.entries e ≡ none
  unfolding contains_node_id
  contains-free h =
      probe-free ns.size (step (hash id) ns.size) id ns.size ns.entries
        (first_index (hash id) ns.size) h

  pub contains-inside :
      {e : ℕ} → IsTable ns → contains_node_id ns id ≡ free e → e < length ns.entries
  unfolding contains_node_id
  contains-inside {e} ok h =
      let low = ok.least in
      let first : first_index (hash id) ns.size < ns.size = mod-lt (hash id) (omega arith) in
      let by : hash id % (ns.size - 2) < ns.size - 2 = mod-lt (hash id) (omega arith) in
      rw ok.sized (
        probe-inside ns.size (step (hash id) ns.size) id ns.size ns.entries
          (first_index (hash id) ns.size) first (omega arith) ok.most h)

  pub get-equal_id : {m : Node A} → get ns id ≡ some m → node_id_equal m.node_id id ≡ true
  get-equal_id {m} h =
      let (j, at_j, node_j) = get-found h in
      let (k, node_k, same) = contains-found at_j in
      let here : k ≡ m = cc (node_j, node_k) in
      subst (λ (n : Node A). node_id_equal n.node_id id ≡ true) here same

  -- A node that is written to a free entry leaves the found ones where they are.
  pub contains-fill_other :
      (n : Node A) (e : ℕ) {j : ℕ}
      → entry ns.entries e ≡ none
      → contains_node_id ns id ≡ found j
      → contains_node_id (fill ns e n) id ≡ found j
  unfolding contains_node_id fill
  contains-fill_other n e gone h =
      probe-fill_other ns.size (step (hash id) ns.size) id n e ns.size ns.entries
        (first_index (hash id) ns.size) gone h

  pub contains-replace :
      (n m : Node A) (j : ℕ)
      → node_id_equal m.node_id n.node_id ≡ true
      → entry ns.entries j ≡ some m
      → contains_node_id (write ns j (some n)) id ≡ contains_node_id ns id
  unfolding contains_node_id
  contains-replace n m j same h =
      probe-replace ns.size (step (hash id) ns.size) id n m same j ns.size ns.entries
        (first_index (hash id) ns.size) (get_or-inside ns.entries j h) h

module _ {ℓ} {A : Type ℓ} (ns : NodeStore A) (n : Node A) where
  pub contains-fill :
      {e : ℕ}
      → IsTable ns
      → contains_node_id ns n.node_id ≡ free e
      → contains_node_id (fill ns e n) n.node_id ≡ found e
  unfolding contains_node_id fill
  contains-fill ok h =
      probe-fill ns.size (step (hash n.node_id) ns.size) n.node_id n (node_id_equal_refl n.node_id)
        ns.size ns.entries (first_index (hash n.node_id) ns.size)
        (contains-inside ns n.node_id ok h) h

  -- A new node is found under its id, and a node that could be found still is.
  pub insert_node-get :
      (e : ℕ)
      → IsTable ns
      → wants_id n.node_id ≡ false
      → contains_node_id ns n.node_id ≡ free e
      → (insert_node ns n ≡ returned good (fill ns e n))
        × (get (fill ns e n) n.node_id ≡ some n)
        × ((id : NodeId) (m : Node A) → get ns id ≡ some m → get (fill ns e n) id ≡ some m)
  unfolding insert_node insert_at get fill
  insert_node-get e ok given vacant =
      let gone = contains-free ns n.node_id vacant in
      (
        rw (given, vacant) refl,
        ap (get_at (set ns.entries e (some n))) (contains-fill ok vacant)
            ∙ get_or-set ns.entries e (some n) none (contains-inside ns n.node_id ok vacant),
        λ id m h.
            let (j, at_j, node_j) = get-found ns id h in
            let apart : j ≢ e = λ k. cc (ap (λ l. entry ns.entries l) k, gone, node_j) in
            ap (get_at (set ns.entries e (some n))) (contains-fill_other ns id n e gone at_j)
            ∙ get_or-set_other ns.entries e j (some n) none apart
            ∙ node_j,
      )

  -- An id that a node of the store has is refused, and the store stays as it is.
  pub insert_node-exists :
      (m : Node A)
      → wants_id n.node_id ≡ false
      → get ns n.node_id ≡ some m
      → insert_node ns n ≡ returned bad_node_id_exists ns
  unfolding insert_node insert_at
  insert_node-exists m given h =
      let (j, at_j, node_j) = get-found ns n.node_id h in rw (given, at_j) refl

  -- A replacement in the place of the old node is found in its stead, and a node with another id
  -- as before; in another place it is refused.
  pub replace-get :
      (j old : ℕ) (id : NodeId)
      → contains_node_id ns n.node_id ≡ found j
      → node_id_equal n.node_id id ≡ false
      → old ≢ j
      → (replace ns j n ≡ returned good (write ns j (some n)))
        × (get (write ns j (some n)) n.node_id ≡ some n)
        × (get (write ns j (some n)) id ≡ get ns id)
        × (replace ns old n ≡ returned bad_internal_error ns)
  unfolding replace replace_at get
  replace-get j old id at_j other apart =
      let (m, node_j, same) = contains-found ns n.node_id at_j in
      let elsewhere : contains_node_id ns id ≢ found j = λ h.
        let (k, node_k, equal_k) = contains-found ns id h in
        let here : k ≡ m = cc (node_j, node_k) in
        cc (
          node_id_equal-left m.node_id n.node_id id same,
          other,
          ap (λ (p : Node A). node_id_equal p.node_id id) here,
          equal_k,
        ) in
      (
        rw at_j (ground arith),
        ap (get_at (set ns.entries j (some n)))
              (contains-replace ns n.node_id n m j same node_j ∙ at_j)
            ∙ get_or-set ns.entries j (some n) none (get_or-inside ns.entries j node_j),
        ap (get_at (set ns.entries j (some n))) (contains-replace ns id n m j same node_j)
            ∙ get_at-set_other ns.entries j (some n) (contains_node_id ns id) elsewhere,
        rw at_j (ground arith),
      )

-- Ids that compare equal get the same node, if their strings are both NULL or both not.
pub get-alike {ℓ} :
    {A : Type ℓ} (ns : NodeStore A) (a b : NodeId)
    → node_id_equal a b ≡ true
    → alike_ids a.identifier b.identifier ≡ true
    → get ns a ≡ get ns b
unfolding get contains_node_id
get-alike ns a b h l =
    let start =
      λ (k : ℕ). probe ns.size ns.entries ns.size (step k ns.size) a (first_index k ns.size) in
    ap (get_at ns.entries) (
      ap start (hash-equal a b h l)
      ∙ probe-equal ns.size (step (hash b) ns.size) a b h ns.size ns.entries
          (first_index (hash b) ns.size))
