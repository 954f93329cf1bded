-- ===== src/Callback/Jitter/Bounds.antt =====
-- How far the jitter goes (api/callback.go: callbackRetryDelay).
use Prim.Native.Nat.{◌^◌}
use native.Mathlib.Nat.{div-add-mod, mod-lt, mul_comm, mul-le-mul_right, suc-mul}
use test_defense_validation.Base.{
  ℕ, zero, suc, ◌+◌, ◌*◌, ◌/◌, ◌≤◌, ◌<◌, ◌≡◌, ◌⊎◌, inl, inr, refl, arith,
}
use test_defense_validation.Callback.Jitter.{ulp, nearest, rounded, jitter, jittered, four_fifths}

-- The distance of the numbers around n is one, or at most n / 2 ^ 52.
ulp_bound : (k n : ℕ) → (0 < ulp k n) × ((ulp k n ≡ 1) ⊎ (ulp k n * 2 ^ 52 ≤ n))
unfolding ulp
ulp_bound zero n = (omega arith, inl refl)
ulp_bound (suc k) n = ground (arith, ulp_bound k (n / 2))

nearest_close : (u n : ℕ) → 0 < u → (nearest u n ≤ n + u) × (n ≤ nearest u n + u)
nearest_close u n h =
    ground (arith, div-add-mod n u, mod-lt n h, mul_comm u (n / u), suc-mul (n / u) u)

nearest_one : (n : ℕ) → nearest 1 n ≡ n
nearest_one n = ground arith

-- Rounding changes a number by less than 2 ^ -52 of it.
IsClose : ℕ → ℕ → Type 0
IsClose m n = (m * 2 ^ 52 ≤ n * 2 ^ 52 + n) × (n * 2 ^ 52 ≤ m * 2 ^ 52 + n)

rounded-IsClose : (n : ℕ) → IsClose (rounded n) n
unfolding rounded IsClose
rounded-IsClose n =
    let (some_, small) = ulp_bound 160 n in
    elim small [
      | inl one ↦ rw (one, nearest_one n) (omega arith, omega arith)
      | inr few ↦
          let (above, below) = nearest_close (ulp 160 n) n some_ in
          (omega (arith, above, few), omega (arith, below, few))
    ]

jitter_bounds :
    (draw : ℕ)
    → draw < 2 ^ 53
    → (four_fifths * 2 ^ 54 * 2 ^ 52 ≤ jitter draw * 2 ^ 52 + four_fifths * 2 ^ 56)
      × (jitter draw * 5 * 2 ^ 50 ≤ 6 * 2 ^ 107 * 2 ^ 50 + 3 * 2 ^ 107)
unfolding jitter IsClose
jitter_bounds draw small =
    let (a, b) = rounded-IsClose (draw * four_fifths) in
    let (c, d) = rounded-IsClose (four_fifths * 2 ^ 54 + rounded (draw * four_fifths)) in
    (omega (arith, a, b, c, d), omega (arith, a, b, c, d))

-- Between five seconds and 15 minutes, the delay is at least four seconds less a nanosecond and at
-- most 18 minutes.
pub jittered_bounds :
    (draw base : ℕ)
    → draw < 2 ^ 53
    → 5000000000 ≤ base
    → base ≤ 900000000000
    → (4000000000 ≤ jittered draw base + 1) × (jittered draw base ≤ 1080000000000)
unfolding jittered IsClose
jittered_bounds draw base small lo hi =
    let (a, b) = rounded-IsClose (base * jitter draw) in
    let (c, d) = jitter_bounds draw small in
    let least = mul-le-mul_right (jitter draw) lo in
    let most = mul-le-mul_right (jitter draw) hi in
    (omega (arith, a, b, c, d, least, most), omega (arith, a, b, c, d, least, most))
