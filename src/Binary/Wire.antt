-- ===== src/Binary/Wire.antt =====
-- What it means that an encoder writes given bytes and that a decoder reads them back, and that
-- both carry over to sequences.
use opc_ua.Common.{
  ℕ, ◌+◌, ◌≡◌, refl, ap, arith, List, [], ◌∷◌, ◌++◌, length, length-append, append_assoc, split_at,
  subst, append-nil,
}
use opc_ua.Status.{good}
use native.Mathlib.Nat.{add_assoc}
use opc_ua.Binary.Stream.{
  done, Encoder, continue_with, ◌then_encode◌, skip, Decoder, ◌>>=◌, pure, checked, on_error, store,
}

-- Between `pre` and `post`, with exactly the room that is needed, the encoder writes `bs`, leaves
-- the rest of the buffer alone, advances the position and returns GOOD.
pub record Writes (e : Encoder) (bs : List ℕ) : Type 0 where
  pub run :
      (pre mid post : List ℕ)
      → length mid ≡ length bs
      → e (record { bytes = pre ++ (mid ++ post); offset = length pre })
        ≡ done good (record { bytes = pre ++ (bs ++ post); offset = length pre + length bs })

-- From `bs` the decoder reads `v`, advances the position behind them, and returns GOOD; the
-- buffer does not change.
pub record Reads {ℓ} {A : Type ℓ} (d : Decoder A) (bs : List ℕ) (v : A) : Type ℓ where
  pub run :
      (pre post : List ℕ)
      → d (record { bytes = pre ++ (bs ++ post); offset = length pre }) ≡ record {
        status = good;
        value = v;
        stream = record { bytes = pre ++ (bs ++ post); offset = length pre + length bs };
      }

pub store-append :
    (pre mid post cs : List ℕ)
    → length mid ≡ length cs
    → store (pre ++ (mid ++ post)) (length pre) cs ≡ pre ++ (cs ++ post)
store-append (x ∷ pre) mid post cs h = ap (λ t. x ∷ t) (store-append pre mid post cs h)
store-append [] [] [] [] h = refl
store-append [] [] (x ∷ post) [] h = refl
store-append [] [] post (c ∷ cs) h = absurd (omega arith)
store-append [] (m ∷ mid) post [] h = absurd (omega arith)
store-append [] (m ∷ mid) post (c ∷ cs) h =
    ap (λ t. c ∷ t) (store-append [] mid post cs (omega arith))

pub length_middle :
    (pre mid post : List ℕ) → length (pre ++ (mid ++ post)) ≡ length pre + length mid + length post
length_middle pre mid post = omega (arith, length-append pre (mid ++ post), length-append mid post)

skip_run :
    (pre mid post : List ℕ)
    → length mid ≡ 0
    → skip (record { bytes = pre ++ (mid ++ post); offset = length pre })
      ≡ done good (record { bytes = pre ++ post; offset = length pre + 0 })
skip_run pre [] post h =
    ap (λ n. done good (record { bytes = pre ++ post; offset = n })) (omega arith)
skip_run pre (m ∷ mid) post h = absurd (omega arith)

pub Writes-skip : Writes skip []
Writes-skip = record { run = skip_run }

pub Writes-then :
    (e f : Encoder) {bs cs : List ℕ}
    → Writes e bs
    → Writes f cs
    → Writes (e then_encode f) (bs ++ cs)
unfolding ◌then_encode◌
Writes-then e f {bs} {cs} he hf = record {
  run = λ pre mid post h.
      let (m₁, m₂, split, len) = split_at (length bs) mid (omega (arith, length-append bs cs)) in
      let len₂ : length m₂ ≡ length cs =
        omega
          (arith, ap (λ (l : List ℕ). length l) split, length-append m₁ m₂, length-append bs cs) in
      let second = hf.run (pre ++ bs) m₂ post len₂ in
      rw (split, append_assoc m₁ m₂ post, he.run pre m₁ (m₂ ++ post) len, continue_with)
        (rw (← append_assoc pre bs (m₂ ++ post), ← length-append pre bs, second)
          (simp (append_assoc, length-append, add_assoc)));
}

pub Reads-pure {ℓ} : {A : Type ℓ} (v : A) → Reads (pure v) [] v
Reads-pure v = record {
  run = λ pre post. ap (λ n. pure v (record { bytes = pre ++ post; offset = n })) (omega arith);
}

module _ {ℓ κ} {A : Type ℓ} {B : Type κ} (d : Decoder A) (f : A → Decoder B) {bs cs : List ℕ}
    {v : A} {w : B} (hd : Reads d bs v) (hf : Reads (f v) cs w) where
  pub Reads-bind : Reads (d >>= f) (bs ++ cs) w
  unfolding ◌>>=◌
  Reads-bind = record {
    run = λ pre post.
        rw (append_assoc bs cs post, hd.run pre (cs ++ post))
          (rw (← append_assoc pre bs (cs ++ post), ← length-append pre bs, hf.run (pre ++ bs) post)
            (simp (append_assoc, length-append, add_assoc)));
  }

  pub Reads-checked :
      (returned : ℕ → ℕ) (zeroed : B) → Reads (checked d returned zeroed f) (bs ++ cs) w
  unfolding checked
  Reads-checked returned zeroed = record {
    run = λ pre post.
        rw (append_assoc bs cs post, hd.run pre (cs ++ post))
          (rw (← append_assoc pre bs (cs ++ post), ← length-append pre bs, hf.run (pre ++ bs) post)
            (simp (append_assoc, length-append, add_assoc)));
  }

pub Reads-on_error {ℓ} :
    {A : Type ℓ} (delete_members : A → A) (d : Decoder A) {bs : List ℕ} {v : A}
    → Reads d bs v
    → Reads (on_error delete_members d) bs v
unfolding on_error
Reads-on_error delete_members d h = record { run = λ pre post. rw (h.run pre post) }

-- A value that is built from the last thing that is read.
pub Reads-map {ℓ κ} :
    {A : Type ℓ} {B : Type κ} (d : Decoder A) (f : A → B) {bs : List ℕ} {v : A}
    → Reads d bs v
    → Reads (d >>= λ x. pure (f x)) bs (f v)
Reads-map d f {bs} {v} h =
    subst (λ cs. Reads (d >>= λ x. pure (f x)) cs (f v)) (append-nil bs)
      (Reads-bind d (λ x. pure (f x)) h (Reads-pure (f v)))
