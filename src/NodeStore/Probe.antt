-- ===== src/NodeStore/Probe.antt =====
-- The search of src/server/ua_nodestore.c under a write to one entry.
use opc_ua.Common.{
  ℕ, zero, suc, ◌^◌, ◌<◌, ◌≡◌, ◌≢◌, refl, ap, subst, ◌∙◌, arith, true, ◌==◌, ==_iff, Bool-cases,
  Option-cases, inl, inr, ◌⊎◌, Option, none, some, List, [], ◌∷◌, length, get_or, set,
}
use opc_ua.Types.{NodeId, node_id_equal}
use opc_ua.NodeStore.Equality.{node_id_equal-left, node_id_equal-right}
use opc_ua.NodeStore.Table.{Node, Entries, found, free, entry, advance, probe}

pub get_or-set {ℓ} :
    {A : Type ℓ} (xs : List A) (i : ℕ) (v d : A) → i < length xs → get_or (set xs i v) i d ≡ v
get_or-set [] i v d h = absurd (omega arith)
get_or-set (x ∷ xs) zero v d h = refl
get_or-set (x ∷ xs) (suc i) v d h = get_or-set xs i v d (omega arith)

pub get_or-set_other {ℓ} :
    {A : Type ℓ} (xs : List A) (i j : ℕ) (v d : A) → j ≢ i → get_or (set xs i v) j d ≡ get_or xs j d
get_or-set_other [] i j v d h = refl
get_or-set_other (x ∷ xs) zero zero v d h = absurd (h refl)
get_or-set_other (x ∷ xs) zero (suc j) v d h = refl
get_or-set_other (x ∷ xs) (suc i) zero v d h = refl
get_or-set_other (x ∷ xs) (suc i) (suc j) v d h = get_or-set_other xs i j v d (omega arith)

pub get_or-inside {ℓ} :
    {A : Type ℓ} (xs : List (Option A)) (i : ℕ) {v : A} → get_or xs i none ≡ some v → i < length xs
get_or-inside [] i h = cc
get_or-inside (x ∷ xs) zero h = omega arith
get_or-inside (x ∷ xs) (suc i) h = omega (arith, get_or-inside xs i h)

-- A number is another, or is not.
eq_or_not : (i j : ℕ) → (i ≡ j) ⊎ (i ≢ j)
eq_or_not i j = elim (Bool-cases (i == j)) [
  | inl e ↦ inl ((==_iff i j).0 e)
  | inr e ↦ inr (λ h. cc (e, (==_iff i j).1 h))
]

pub advance-inside :
    (size by i : ℕ) → i < size → by < size → size < 2 ^ 32 → advance size by i < size
advance-inside size by i a b c = ground arith

module _ {ℓ} {A : Type ℓ} (size by : ℕ) (id : NodeId) where
  -- A search that ends at a free entry ends at one that is free.
  pub probe-free :
      (fuel : ℕ) (es : Entries A) (i : ℕ) {e : ℕ}
      → probe fuel es size by id i ≡ free e
      → entry es e ≡ none
  unfolding probe
  probe-free zero es i h = cc
  probe-free (suc fuel) es i {e} h = elim (Option-cases (entry es i)) [
    | inl vacant ↦ subst (λ k. entry es k ≡ none) (cc (rw vacant at h)) vacant
    | inr (m, taken) ↦ elim (Bool-cases (node_id_equal m.node_id id)) [
      | inl same ↦ cc (rw (taken, same) at h)
      | inr other ↦ probe-free fuel es (advance size by i) (rw (taken, other) at h)
    ]
  ]

  pub probe-found :
      (fuel : ℕ) (es : Entries A) (i : ℕ) {j : ℕ}
      → probe fuel es size by id i ≡ found j
      → (m : Node A) × (entry es j ≡ some m) × (node_id_equal m.node_id id ≡ true)
  unfolding probe
  probe-found zero es i h = cc
  probe-found (suc fuel) es i {j} h = elim (Option-cases (entry es i)) [
    | inl vacant ↦ cc (rw vacant at h)
    | inr (m, taken) ↦ elim (Bool-cases (node_id_equal m.node_id id)) [
      | inl same ↦ (m, subst (λ k. entry es k ≡ some m) (cc (rw (taken, same) at h)) taken, same)
      | inr other ↦ probe-found fuel es (advance size by i) (rw (taken, other) at h)
    ]
  ]

  -- A write to a free entry keeps the searches that end at a node.
  pub probe-fill_other :
      (n : Node A) (e : ℕ) (fuel : ℕ) (es : Entries A) (i : ℕ) {j : ℕ}
      → entry es e ≡ none
      → probe fuel es size by id i ≡ found j
      → probe fuel (set es e (some n)) size by id i ≡ found j
  unfolding probe
  probe-fill_other n e zero es i vacant h = cc
  probe-fill_other n e (suc fuel) es i {j} vacant h = elim (Option-cases (entry es i)) [
    | inl none_here ↦ cc (rw none_here at h)
    | inr (m, taken) ↦
        let apart : i ≢ e = λ k. cc (ap (λ l. entry es l) k, taken, vacant) in
        let kept : entry (set es e (some n)) i ≡ some m =
          get_or-set_other es e i (some n) none apart ∙ taken in
        elim (Bool-cases (node_id_equal m.node_id id)) [
          | inl same ↦ rw (kept, same) (rw (taken, same) at h)
          | inr other ↦
              rw (kept, other)
                (probe-fill_other n e fuel es (advance size by i) vacant (rw (taken, other) at h))
        ]
  ]

  -- A search that ends at a free entry finds the node that is written there.
  pub probe-fill :
      (n : Node A)
      → node_id_equal n.node_id id ≡ true
      → (fuel : ℕ) (es : Entries A) (i : ℕ) {e : ℕ} → e < length es
      → probe fuel es size by id i ≡ free e
      → probe fuel (set es e (some n)) size by id i ≡ found e
  unfolding probe
  probe-fill n eq zero es i lt h = cc
  probe-fill n eq (suc fuel) es i {e} lt h = elim (Option-cases (entry es i)) [
    | inl none_here ↦
        let here : i ≡ e = cc (rw none_here at h) in
        let new : entry (set es e (some n)) i ≡ some n =
          ap (λ k. entry (set es e (some n)) k) here ∙ get_or-set es e (some n) none lt in
        rw (new, eq) (ap found here)
    | inr (m, taken) ↦ elim (Bool-cases (node_id_equal m.node_id id)) [
      | inl same ↦ cc (rw (taken, same) at h)
      | inr other ↦
          let later : probe fuel es size by id (advance size by i) ≡ free e =
            rw (taken, other) at h in
          let vacant : entry es e ≡ none = probe-free fuel es (advance size by i) later in
          let apart : i ≢ e = λ k. cc (ap (λ l. entry es l) k, taken, vacant) in
          rw (get_or-set_other es e i (some n) none apart ∙ taken, other)
            (probe-fill n eq fuel es (advance size by i) lt later)
    ]
  ]

  -- A node in the place of one with an equal id changes no search.
  pub probe-replace :
      (n m : Node A)
      → node_id_equal m.node_id n.node_id ≡ true
      → (j : ℕ) (fuel : ℕ) (es : Entries A) (i : ℕ) → j < length es
      → entry es j ≡ some m
      → probe fuel (set es j (some n)) size by id i ≡ probe fuel es size by id i
  unfolding probe
  probe-replace n m eq j zero es i lt at_j = refl
  probe-replace n m eq j (suc fuel) es i lt at_j =
      let rest = probe-replace n m eq j fuel es (advance size by i) lt at_j in
      elim (eq_or_not i j) [
        | inl here ↦
            let old : entry es i ≡ some m = ap (λ k. entry es k) here ∙ at_j in
            let new : entry (set es j (some n)) i ≡ some n =
              ap (λ k. entry (set es j (some n)) k) here ∙ get_or-set es j (some n) none lt in
            rw (new, old, rest, node_id_equal-left m.node_id n.node_id id eq) refl
        | inr apart ↦ rw (get_or-set_other es j i (some n) none apart, rest) refl
      ]

  -- A search stays in the table.
  pub probe-inside :
      (fuel : ℕ) (es : Entries A) (i : ℕ) {e : ℕ}
      → i < size
      → by < size
      → size < 2 ^ 32
      → probe fuel es size by id i ≡ free e
      → e < size
  unfolding probe
  probe-inside zero es i a b c h = cc
  probe-inside (suc fuel) es i {e} a b c h = elim (Option-cases (entry es i)) [
    | inl vacant ↦ subst (λ k. k < size) (cc (rw vacant at h)) a
    | inr (m, taken) ↦ elim (Bool-cases (node_id_equal m.node_id id)) [
      | inl same ↦ cc (rw (taken, same) at h)
      | inr other ↦
          probe-inside fuel es (advance size by i) (advance-inside size by i a b c) b c
            (rw (taken, other) at h)
    ]
  ]

-- Ids that compare equal have the same search.
pub probe-equal {ℓ} :
    {A : Type ℓ} (size by : ℕ) (a b : NodeId)
    → node_id_equal a b ≡ true
    → (fuel : ℕ) (es : Entries A) (i : ℕ) → probe fuel es size by a i ≡ probe fuel es size by b i
unfolding probe
probe-equal size by a b h zero es i = refl
probe-equal size by a b h (suc fuel) es i =
    let rest = probe-equal size by a b h fuel es (advance size by i) in
    elim (Option-cases (entry es i)) [
      | inl vacant ↦ rw vacant refl
      | inr (m, taken) ↦ rw (taken, rest, node_id_equal-right a b m.node_id h) refl
    ]
