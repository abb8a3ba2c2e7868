-- ===== src/NodeStore/Counting.antt =====
-- Counting the nodes in the entries of a table of src/server/ua_nodestore.c.
use opc_ua.Common.{
  ℕ, zero, suc, ◌<◌, ◌≡◌, ◌≢◌, refl, ap, subst, ◌⊎◌, inl, inr, arith, none, some, [], ◌∷◌, length,
  replicate, set,
}
use opc_ua.NodeStore.Table.{Node, Entries, entry}

module _ {ℓ} {A : Type ℓ} where
  -- The number of nodes in a table.
  abbrev pub used : Entries A → ℕ
  used [] = 0
  used (none ∷ es) = used es
  used (some n ∷ es) = suc (used es)

  pub used-free :
      (es : Entries A) → used es < length es → (j : ℕ) × (entry es j ≡ none) × (j < length es)
  used-free [] h = absurd (omega arith)
  used-free (none ∷ es) h = (0, refl, omega arith)
  used-free (some n ∷ es) h =
      let (j, vacant, inside) = used-free es (omega arith) in (suc j, vacant, omega arith)

  pub used-set :
      (es : Entries A) (e : ℕ) (n : Node A)
      → entry es e ≡ none
      → e < length es
      → used (set es e (some n)) ≡ suc (used es)
  used-set [] e n h k = absurd (omega arith)
  used-set (none ∷ es) zero n h k = refl
  used-set (some m ∷ es) zero n h k = absurd (cc)
  used-set (none ∷ es) (suc e) n h k = used-set es e n h (omega arith)
  used-set (some m ∷ es) (suc e) n h k = ap suc (used-set es e n h (omega arith))

  pub used-replicate : (k : ℕ) (es : Entries A) → es ≡ replicate k none → used es ≡ 0
  used-replicate zero es e = rw e refl
  used-replicate (suc k) es e = rw e (used-replicate k (replicate k none) refl)

  pub used-none : (es : Entries A) (j : ℕ) (n : Node A) → used es ≡ 0 → entry es j ≢ some n
  used-none [] j n e h = cc
  used-none (none ∷ es) zero n e h = cc
  used-none (none ∷ es) (suc j) n e h = used-none es j n e h
  used-none (some m ∷ es) j n e h = absurd (omega arith)

  pub entry-set :
      (es : Entries A) (e j : ℕ) (n m : Node A)
      → entry (set es e (some n)) j ≡ some m
      → (n ≡ m) ⊎ (entry es j ≡ some m)
  entry-set [] e j n m h = inr h
  entry-set (x ∷ es) zero zero n m h = inl (cc)
  entry-set (x ∷ es) zero (suc j) n m h = inr h
  entry-set (x ∷ es) (suc e) zero n m h = inr h
  entry-set (x ∷ es) (suc e) (suc j) n m h = entry-set es e j n m h

  pub step-none :
      (P : Node A → Type ℓ) (es : Entries A)
      → ((j : ℕ) (n : Node A) → entry es j ≡ some n → P n)
      → (j : ℕ) (n : Node A) → entry (none ∷ es) j ≡ some n
      → P n
  step-none P es h zero n e = absurd (cc)
  step-none P es h (suc j) n e = h j n e

  pub step-some :
      (P : Node A → Type ℓ) (m : Node A) (es : Entries A)
      → P m
      → ((j : ℕ) (n : Node A) → entry es j ≡ some n → P n)
      → (j : ℕ) (n : Node A) → entry (some m ∷ es) j ≡ some n
      → P n
  step-some P m es p h zero n e = let same : m ≡ n = cc in subst P same p
  step-some P m es p h (suc j) n e = h j n e
