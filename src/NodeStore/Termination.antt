-- ===== src/NodeStore/Termination.antt =====
-- The loop of `containsNodeId` in src/server/ua_nodestore.c ends when an entry is free.
use opc_ua.Common.{
  ℕ, zero, suc, ◌+◌, ◌-◌, ◌*◌, ◌%◌, ◌^◌, ◌≤◌, ◌<◌, ◌≡◌, ◌≢◌, sym, ap, ◌∙◌, arith, true, leb,
  Bool-cases, Option-cases, inl, inr, none,
}
use native.Mathlib.Nat.{mod-lt, mod-add-mod, mod-eq_of_lt, mod-eq-sub-mod}
use opc_ua.Types.{NodeId, node_id_equal}
use opc_ua.NodeStore.Hash.{hash, first_index, step}
use opc_ua.NodeStore.Table.{Entries, NodeStore, spins, entry, advance, probe, contains_node_id}
use opc_ua.NodeStore.Probe.{advance-inside}
use opc_ua.NodeStore.Cycle.{is_prime, reaches}
use opc_ua.NodeStore.Lookup.{IsTable}

advance-mod :
    (size by i : ℕ) → i < size → by < size → size < 2 ^ 31 → advance size by i ≡ (i + by) % size
advance-mod size by i a b c = elim (Bool-cases (leb size (i + by))) [
  | inl h ↦
      let le : size ≤ i + by = ground arith in
      ground (
        arith,
        mod-eq-sub-mod {n = i + by} {m = size} le,
        mod-eq_of_lt {n = i + by - size} {m = size} (omega arith),
      )
  | inr h ↦ ground (arith, mod-eq_of_lt {n = i + by} {m = size} (ground arith))
]

module _ {ℓ} {A : Type ℓ} (es : Entries A) (size by : ℕ) (id : NodeId) (b : by < size)
    (c : size < 2 ^ 31) where
  -- A free entry `k` steps ahead ends the search within `k + 1` looks.
  probe-ends :
      (k fuel i : ℕ)
      → k < fuel
      → i < size
      → entry es ((i + k * by) % size) ≡ none
      → probe fuel es size by id i ≢ spins
  unfolding probe
  probe-ends k zero i lt a vacant h = absurd (omega arith)
  probe-ends zero (suc fuel) i lt a vacant h =
      let still : i ≡ (i + 0 * by) % size =
        sym (mod-eq_of_lt a) ∙ ap (λ l. l % size) (omega arith) in
      let here : entry es i ≡ none = ap (λ l. entry es l) still ∙ vacant in cc (rw here at h)
  probe-ends (suc k) (suc fuel) i lt a vacant h =
      let j = advance size by i in
      let ahead : (j + k * by) % size ≡ (i + suc k * by) % size =
        ap (λ l. (l + k * by) % size) (advance-mod size by i a b c)
        ∙ mod-add-mod (i + by) size (k * by)
        ∙ ap (λ l. l % size) (omega arith) in
      elim (Option-cases (entry es i)) [
        | inl none_here ↦ cc (rw none_here at h)
        | inr (m, taken) ↦ elim (Bool-cases (node_id_equal m.node_id id)) [
          | inl same ↦ cc (rw (taken, same) at h)
          | inr other ↦
              probe-ends k fuel j (omega arith) (advance-inside size by i a b (omega arith))
                (ap (λ l. entry es l) ahead ∙ vacant) (rw (taken, other) at h)
        ]
      ]

-- In a table of a prime size in which some entry is free, every search ends.
pub contains_node_id-ends {ℓ} :
    {A : Type ℓ} (ns : NodeStore A) (id : NodeId) (j : ℕ)
    → IsTable ns
    → is_prime ns.size ≡ true
    → ns.size < 2 ^ 31
    → entry ns.entries j ≡ none
    → j < ns.size
    → contains_node_id ns id ≢ spins
unfolding contains_node_id
contains_node_id-ends ns id j ok prime small vacant lt =
    let low = ok.least in
    let size = ns.size in
    let start : first_index (hash id) size < size = mod-lt (hash id) (omega arith) in
    let by : hash id % (size - 2) < size - 2 = mod-lt (hash id) (omega arith) in
    let (k, enough, there) =
      reaches size prime (step (hash id) size) (first_index (hash id) size) j (omega arith)
        (omega arith) start lt in
    probe-ends ns.entries size (step (hash id) size) id (omega arith) small k size
      (first_index (hash id) size) enough start (ap (λ l. entry ns.entries l) there ∙ vacant)
