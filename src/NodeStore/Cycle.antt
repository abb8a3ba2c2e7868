-- ===== src/NodeStore/Cycle.antt =====
-- A step that is not 0 walks through all places of a table of a prime size.
use opc_ua.Common.{
  ℕ, zero, suc, ◌+◌, ◌-◌, ◌*◌, ◌/◌, ◌%◌, ◌≤◌, ◌<◌, ◌≡◌, sym, ap, subst, ◌∙◌, arith, Bool, true,
  ◌&&◌, ◌||◌, ltb→lt, ltb, leb, ◌==◌, ==_iff, Bool-cases, inl, inr,
}
use native.Mathlib.Nat.{mod-lt, div-add-mod, add-mul-mod_self_left, mod-eq_of_lt, mul-le-mul}

-- None of the numbers from 2 on that are below the bound divides `p`.
unfoldable pub undivided : ℕ → ℕ → Bool
undivided p zero = true
undivided p (suc d) = (leb d 1 || ltb 0 (p % d)) && undivided p d

unfoldable pub is_prime : ℕ → Bool
unfolding undivided
is_prime p = ltb 1 p && undivided p p

undivided-at :
    (p bound s : ℕ) → undivided p bound ≡ true → s < bound → (leb s 1 || ltb 0 (p % s)) ≡ true
unfolding undivided
undivided-at p zero s h lt = absurd (omega arith)
undivided-at p (suc d) s h lt = elim (Bool-cases (s == d)) [
  | inl e ↦ subst (λ k. (leb k 1 || ltb 0 (p % k)) ≡ true) (sym ((==_iff s d).0 e)) (ground arith)
  | inr e ↦ undivided-at p d s (ground arith) (ground arith)
]

divisor_one : (p : ℕ) → is_prime p ≡ true → (s : ℕ) → s < p → p % s ≡ 0 → 0 < s → s ≡ 1
unfolding is_prime
divisor_one p prime s lt h pos = let t = undivided-at p p s (ground arith) lt in ground arith

below_factor : (r u p m : ℕ) → r < p → r * u ≡ 1 + p * m → m < u
below_factor r u p m lt h = elim (Bool-cases (ltb m u)) [
  | inl y ↦ ltb→lt m u y
  | inr n ↦
      let product_le : r * u ≤ p * m = mul-le-mul (omega arith) (ground arith) in
      absurd (omega (arith, h, product_le))
]

-- One step back, from the inverse of the remainder to that of the divisor.
inverse_step :
    (p s q r u m d v : ℕ)
    → p ≡ suc (suc v)
    → s * q + r ≡ p
    → r * u ≡ 1 + p * m
    → u ≡ m + 1 + d
    → s * (q * (suc v * u)) ≡ 1 + p * (v + suc v * d)
inverse_step p s q r u m d v hp hd hr hu =
    let w = suc v in
    let a : (s * q + r) * (w * u) ≡ p * (w * u) = ap (λ (k : ℕ). k * (w * u)) hd in
    let b : w * (r * u) ≡ w * (1 + p * m) = ap (λ (k : ℕ). w * k) hr in
    let c : p * (w * u) ≡ p * (w * (m + 1 + d)) = ap (λ (k : ℕ). p * (w * k)) hu in
    omega (arith, a, b, c)

-- Every number below a prime but 0 has an inverse modulo it.
pub inverse :
    (p : ℕ)
    → is_prime p ≡ true
    → (fuel s : ℕ) → 0 < s
    → s < p
    → s < fuel
    → (t : ℕ) × (m : ℕ) × (s * t ≡ 1 + p * m)
inverse p prime zero s pos lt enough = absurd (omega arith)
inverse p prime (suc fuel) s pos lt enough = elim (Bool-cases (p % s == 0)) [
  | inl e ↦ (1, 0, omega (arith, divisor_one p prime s lt ((==_iff (p % s) 0).0 e) pos))
  | inr e ↦
      let r = p % s in
      let small : r < s = mod-lt p pos in
      let (u, m, h) = inverse p prime fuel r (ground arith) (omega arith) (omega arith) in
      let less : m < u = below_factor r u p m (omega arith) h in
      (
        p / s * (suc (p - 2) * u),
        p - 2 + suc (p - 2) * (u - m - 1),
        inverse_step p s (p / s) r u m (u - m - 1) (p - 2) (omega arith) (div-add-mod p s) h
            (omega arith),
      )
]

-- From any place, some number of steps below the size leads to any other.
pub reaches :
    (p : ℕ)
    → is_prime p ≡ true
    → (s i j : ℕ) → 0 < s
    → s < p
    → i < p
    → j < p
    → (k : ℕ) × (k < p) × ((i + k * s) % p ≡ j)
reaches p prime s i j pos lt_s lt_i lt_j =
    let (t, m, h) = inverse p prime (suc s) s pos lt_s (omega arith) in
    let away = j + (p - i) in
    let k = (t * away) % p in
    let c = (t * away) / p in
    let split : p * c + k ≡ t * away = div-add-mod (t * away) p in
    let a : (p * c + k) * s ≡ t * away * s = ap (λ (z : ℕ). z * s) split in
    let b : s * t * away ≡ (1 + p * m) * away = ap (λ (z : ℕ). z * away) h in
    let whole : i + k * s + p * (c * s) ≡ j + p * (1 + m * away) = omega (arith, a, b) in
    (
      k,
      mod-lt (t * away) (omega arith),
      sym (add-mul-mod_self_left (i + k * s) p (c * s))
          ∙ ap (λ (z : ℕ). z % p) whole
          ∙ add-mul-mod_self_left j p (1 + m * away)
          ∙ mod-eq_of_lt lt_j,
    )
