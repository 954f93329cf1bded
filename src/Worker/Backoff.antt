-- ===== src/Worker/Backoff.antt =====
-- The delay between two verifications (api/worker.go: verificationDelay).
use Prim.Native.Nat.{◌^◌, min}
use native.Mathlib.Nat.{pow-suc, mul_assoc, mul_comm, mul-le-mul_left}
use test_defense_validation.Base.{
  ℕ, zero, suc, ◌*◌, ◌≤◌, ◌<◌, ◌≡◌, sym, ap, ◌∙◌, arith, ltb, if◌then◌else◌,
}
use test_defense_validation.Worker.Execute.{five_minutes, double_delay, verification_delay}

pow_pos : (n : ℕ) → 0 < 2 ^ n
pow_pos zero = omega arith
pow_pos (suc n) = omega (arith, pow_pos n, pow-suc 2 n)

doubled_product : (d n : ℕ) → d * 2 ^ suc n ≡ d * 2 * 2 ^ n
doubled_product d n = grind (arith, pow-suc 2 n, mul_assoc d 2 (2 ^ n), mul_comm (2 ^ n) 2)

doubled_bound : (d n : ℕ) → d * 2 ≤ d * 2 * 2 ^ n
doubled_bound d n = omega (arith, mul-le-mul_left (d * 2) (pow_pos n))

double_step :
    (d x later : ℕ)
    → d ≤ five_minutes
    → d * 2 ≤ x
    → (d * 2 ≤ five_minutes → later ≡ min x five_minutes)
    → (if ltb d five_minutes then if ltb five_minutes (d * 2) then five_minutes else later else d)
      ≡ min x five_minutes
double_step d x later h b f = ground arith

-- The loop's delay is the base delay doubled at every attempt, cut at five minutes.
double_delay_lem : (n d : ℕ) → d ≤ five_minutes → double_delay n d ≡ min (d * 2 ^ n) five_minutes
unfolding double_delay
double_delay_lem zero d h = ground arith
double_delay_lem (suc n) d h =
    double_step d (d * 2 * 2 ^ n) (double_delay n (d * 2)) h (doubled_bound d n)
      (double_delay_lem n (d * 2))
    ∙ ap (λ x. min x five_minutes) (sym (doubled_product d n))

-- With a base delay of at most five minutes, the delay after n failed attempts is
-- the base delay times 2^n, or five minutes where that is less.
pub verification_delay_lem :
    (backoff attempt : ℕ)
    → backoff ≤ five_minutes
    → verification_delay backoff attempt ≡ min (backoff * 2 ^ attempt) five_minutes
unfolding verification_delay
verification_delay_lem backoff attempt h = double_delay_lem attempt backoff h
