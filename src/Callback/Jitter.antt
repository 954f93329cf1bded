-- ===== src/Callback/Jitter.antt =====
-- The jitter of a retry delay in float64 (api/callback.go: callbackRetryDelay). A number is a
-- natural one in units of a fixed power of two; each operation is rounded by itself, to the nearest
-- and to even, as on amd64.
pub mod Bounds
use Prim.Native.Nat.{◌^◌}
use test_defense_validation.Base.{
  ℕ, zero, suc, ◌+◌, ◌*◌, ◌/◌, ◌%◌, ◌==◌, ltb, ◌&&◌, ◌||◌, if◌then◌else◌,
}

-- The distance of the float64 numbers around n: one below 2 ^ 53. The halvings are counted.
unfoldable pub ulp : ℕ → ℕ → ℕ
ulp zero n = 1
ulp (suc k) n = let half = ulp k (n / 2) in if ltb n (2 ^ 53) then 1 else 2 * half

abbrev pub nearest : ℕ → ℕ → ℕ
nearest u n =
    let q = n / u in
    let r = n % u in if ltb u (2 * r) || 2 * r == u && q % 2 == 1 then (q + 1) * u else q * u

-- No number here has more than 160 binary digits.
unfoldable pub rounded : ℕ → ℕ
rounded n = nearest (ulp 160 n) n

-- 0.8 is this many times 2 ^ -53, and 0.4 as many times 2 ^ -54.
abbrev pub four_fifths : ℕ
four_fifths = 7205759403792794

-- `0.8 + rand.Float64()*0.4` in units of 2 ^ -107, where rand.Float64() is draw times 2 ^ -53.
unfoldable pub jitter : ℕ → ℕ
jitter draw = rounded (four_fifths * 2 ^ 54 + rounded (draw * four_fifths))

-- `time.Duration(float64(base) * jitter)`.
unfoldable pub jittered : ℕ → ℕ → ℕ
jittered draw base = rounded (base * jitter draw) / 2 ^ 107
