-- ===== src/Connection/Scanning.antt =====
-- What the loop of `UA_Connection_completeMessages` in src/ua_connection.c passes over.
use opc_ua.Common.{
  ℕ, zero, suc, ◌+◌, ◌-◌, ◌^◌, ◌≤◌, ◌<◌, ◌≡◌, refl, sym, ap, subst, ◌∙◌, arith, true, false, not,
  ltb, leb, if◌then◌else◌, List, [], ◌∷◌, ◌++◌, length, take, drop, get_or, length-append, All, ◌⊎◌,
  inl, inr, append_assoc, drop-append, Bool-cases, lt→ltb, le→ltb,
}
use opc_ua.Status.{good}
use opc_ua.Binary.Stream.{from_le}
use opc_ua.Binary.Integers.{word_decode, uint32_decode}
use opc_ua.Connection.Assembly.{known_type, bad_length, scan}

-- A whole message: a known type, an allowed length, and as many bytes as its header says.
pub record IsMessage (max : ℕ) (m : List ℕ) : Type 0 where
  pub known : known_type (get_or m 0 0) (get_or m 1 0) (get_or m 2 0) ≡ true
  pub stated : from_le (take 4 (drop 4 m)) ≡ length m
  pub least : 16 ≤ length m
  pub most : length m ≤ max

abbrev pub join : List (List ℕ) → List ℕ
join [] = []
join (m ∷ ms) = m ++ join ms

-- The beginning of a message, without its end: no whole header, or fewer bytes than it says.
abbrev pub IsPartial : ℕ → List ℕ → Type 0
IsPartial max r =
    (length r < 16)
    ⊎ ((known_type (get_or r 0 0) (get_or r 1 0) (get_or r 2 0) ≡ true)
        × (bad_length max (from_le (take 4 (drop 4 r))) ≡ false)
        × (length r < from_le (take 4 (drop 4 r))))

drop_none : (n : ℕ) → drop {A = ℕ} n [] ≡ []
drop_none zero = refl
drop_none (suc n) = refl

pub drop_add : (n k : ℕ) (xs : List ℕ) → drop (n + k) xs ≡ drop k (drop n xs)
drop_add zero k xs = ap (λ i. drop i xs) (omega arith)
drop_add (suc n) zero [] = drop_none (suc n + 0)
drop_add (suc n) (suc k) [] = drop_none (suc n + suc k)
drop_add (suc n) k (x ∷ xs) =
    ap (λ i. drop i (x ∷ xs)) {x = suc n + k} {y = suc (n + k)} (omega arith) ∙ drop_add n k xs

get_or-drop : (n k : ℕ) (xs : List ℕ) → get_or xs (n + k) 0 ≡ get_or (drop n xs) k 0
get_or-drop zero k xs = ap (λ i. get_or xs i 0) (omega arith)
get_or-drop (suc n) k [] = refl
get_or-drop (suc n) k (x ∷ xs) =
    ap (λ i. get_or (x ∷ xs) i 0) {x = suc n + k} {y = suc (n + k)} (omega arith)
    ∙ get_or-drop n k xs

length-drop : (n : ℕ) (xs : List ℕ) → length (drop n xs) ≡ length xs - n
length-drop zero xs = omega arith
length-drop (suc n) [] = omega arith
length-drop (suc n) (x ∷ xs) = omega (arith, length-drop n xs)

pub get_or-append : (m r : List ℕ) (k : ℕ) → k < length m → get_or (m ++ r) k 0 ≡ get_or m k 0
get_or-append [] r k h = absurd (omega arith)
get_or-append (x ∷ m) r zero h = refl
get_or-append (x ∷ m) r (suc k) h = get_or-append m r k (omega arith)

pub take-append_first : (k : ℕ) (m r : List ℕ) → k ≤ length m → take k (m ++ r) ≡ take k m
take-append_first zero m r h = refl
take-append_first (suc k) [] r h = absurd (omega arith)
take-append_first (suc k) (x ∷ m) r h = ap (λ t. x ∷ t) (take-append_first k m r (omega arith))

pub take-drop-append :
    (k n : ℕ) (m r : List ℕ) → n + k ≤ length m → take k (drop n (m ++ r)) ≡ take k (drop n m)
take-drop-append k zero m r h = take-append_first k m r (omega arith)
take-drop-append k (suc n) [] r h = absurd (omega arith)
take-drop-append k (suc n) (x ∷ m) r h = take-drop-append k n m r (omega arith)

-- The length field of the message at `pos`.
uint32_decode-at :
    (bytes : List ℕ) (pos : ℕ)
    → pos + 16 ≤ length bytes
    → uint32_decode (record { bytes = bytes; offset = pos + 4 }) ≡ record {
      status = good;
      value = from_le (take 4 (drop 4 (drop pos bytes)));
      stream = record { bytes = bytes; offset = pos + 4 + 4 };
    }
unfolding uint32_decode word_decode
uint32_decode-at bytes pos h =
    rw (le→ltb (length bytes) (pos + 4 + 4) (omega arith), drop_add pos 4 bytes) refl

module _ (max : ℕ) (bytes : List ℕ) (d : ℕ) where
  -- One round, by the bytes from `pos` on.
  pub scan-round :
      (fuel pos : ℕ)
      → pos + 16 ≤ length bytes
      → let t = drop pos bytes in
        let n = from_le (take 4 (drop 4 t)) in
        scan (suc fuel) max bytes pos d ≡ (
          if not (known_type (get_or t 0 0) (get_or t 1 0) (get_or t 2 0))
          then record { pos = pos; delete_at = pos }
          else if bad_length max n
          then record { pos = pos; delete_at = pos }
          else if ltb (length t) n
          then record { pos = pos; delete_at = d }
          else scan fuel max bytes (pos + n) d)
  unfolding scan
  scan-round fuel pos h =
      let t = drop pos bytes in
      let n = from_le (take 4 (drop 4 t)) in
      let left = length-drop pos bytes in
      let enough : leb 16 (length bytes - pos) ≡ true = ground arith in
      let fits : ltb (length bytes) (n + pos) ≡ ltb (length t) n = ground (arith, left) in
      let first : get_or bytes pos 0 ≡ get_or t 0 0 =
        ap (λ i. get_or bytes i 0) (omega arith) ∙ get_or-drop pos 0 bytes in
      rw
        (
          enough,
          uint32_decode-at bytes pos h,
          first,
          get_or-drop pos 1 bytes,
          get_or-drop pos 2 bytes,
          fits,
        )
        refl

  -- A message is passed over.
  pub scan-message :
      (fuel pos : ℕ) (m r : List ℕ)
      → IsMessage max m
      → max < 2 ^ 31
      → drop pos bytes ≡ m ++ r
      → pos ≤ length bytes
      → scan (suc fuel) max bytes pos d ≡ scan fuel max bytes (pos + length m) d
  unfolding bad_length
  scan-message fuel pos m r ok small here inside =
      let long = ok.least in
      let short = ok.most in
      let total : length (drop pos bytes) ≡ length m + length r =
        ap length here ∙ length-append m r in
      let left = length-drop pos bytes in
      let n : from_le (take 4 (drop 4 (m ++ r))) ≡ length m =
        ap from_le (take-drop-append 4 4 m r (omega arith)) ∙ ok.stated in
      let known : known_type (get_or (m ++ r) 0 0) (get_or (m ++ r) 1 0) (get_or (m ++ r) 2 0)
          ≡ true =
        rw
          (
            get_or-append m r 0 (omega arith),
            get_or-append m r 1 (omega arith),
            get_or-append m r 2 (omega arith),
          )
          ok.known in
      let allowed : bad_length max (length m) ≡ false = ground arith in
      let fits : ltb (length (m ++ r)) (length m) ≡ false =
        le→ltb (length (m ++ r)) (length m) (omega (arith, length-append m r)) in
      scan-round fuel pos (omega (arith, total, left)) ∙ rw (here, known, n, allowed, fits) refl

  -- The loop stops before what is not whole.
  scan-partial :
      (fuel pos : ℕ)
      → IsPartial max (drop pos bytes)
      → pos ≤ length bytes
      → scan (suc fuel) max bytes pos d ≡ record { pos = pos; delete_at = d }
  unfolding scan
  scan-partial fuel pos (inl short) inside =
      let left = length-drop pos bytes in
      let few : leb 16 (length bytes - pos) ≡ false = ground (arith, left) in rw few refl
  scan-partial fuel pos (inr (known, allowed, short)) inside =
      elim (Bool-cases (leb 16 (length bytes - pos))) [
        | inr few ↦ rw few refl
        | inl enough ↦
            scan-round fuel pos (ground arith)
            ∙ rw
                (
                  known,
                  allowed,
                  lt→ltb (length (drop pos bytes)) (from_le (take 4 (drop 4 (drop pos bytes))))
                      short,
                )
                refl
      ]

  -- Messages in a row, and then the beginning of one.
  pub scan-join :
      (fuel pos : ℕ) (ms : List (List ℕ)) (r : List ℕ)
      → All (IsMessage max) ms
      → max < 2 ^ 31
      → IsPartial max r
      → drop pos bytes ≡ join ms ++ r
      → pos ≤ length bytes
      → length ms < fuel
      → scan fuel max bytes pos d ≡ record { pos = pos + length (join ms); delete_at = d }
  scan-join zero pos ms r ok small partial here inside enough = absurd (omega arith)
  scan-join (suc fuel) pos [] r ok small partial here inside enough =
      scan-partial fuel pos (subst (IsPartial max) (sym here) partial) inside
      ∙ ap (λ i. record { pos = i; delete_at = d }) (omega arith)
  scan-join (suc fuel) pos (m ∷ ms) r ok small partial here inside enough =
      let here_m : drop pos bytes ≡ m ++ (join ms ++ r) = here ∙ append_assoc m (join ms) r in
      let total : length (drop pos bytes) ≡ length m + length (join ms ++ r) =
        ap length here_m ∙ length-append m (join ms ++ r) in
      let next : drop (pos + length m) bytes ≡ join ms ++ r =
        drop_add pos (length m) bytes
        ∙ ap (drop (length m)) here_m
        ∙ drop-append m (join ms ++ r) in
      scan-message fuel pos m (join ms ++ r) ok.0 small here_m inside
      ∙ scan-join fuel (pos + length m) ms r ok.1 small partial next
          (omega (arith, total, length-drop pos bytes)) (omega arith)
      ∙ ap (λ i. record { pos = i; delete_at = d }) (omega (arith, length-append m (join ms)))
