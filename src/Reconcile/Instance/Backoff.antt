-- ===== src/Reconcile/Instance/Backoff.antt =====
-- The restart delay.
use artzain.Prelude.{ℕ, zero, suc, ◌-◌, ◌*◌, ◌^◌, ◌≤◌, ◌≡◌, min, arith}
use artzain.Words.{u64_max}
use artzain.Reconcile.Instance.{backoff_delay}
use native.Mathlib.Nat.{pow-suc}

pow_pos : (n : ℕ) → 1 ≤ 2 ^ n
pow_pos zero = omega arith
pow_pos (suc n) = omega (arith, pow_pos n, pow-suc 2 n)

pow_mono : (m n : ℕ) → m ≤ n → 2 ^ m ≤ 2 ^ n
pow_mono m zero h = let same : m ≡ 0 = omega arith in rw same (omega arith)
pow_mono zero (suc n) h = omega (arith, pow_pos (suc n))
pow_mono (suc m) (suc n) h = omega (arith, pow_mono m n (omega arith), pow-suc 2 m, pow-suc 2 n)

-- The saturating product never shows: for a 64-bit cap the delay is the base, doubled for each
-- restart after the first and at most twenty times, or the cap where that is less.
backoff_delay_exact :
    (base cap restarts : ℕ)
    → cap ≤ u64_max
    → backoff_delay base cap restarts ≡ min (base * 2 ^ min (restarts - 1) 20) cap
unfolding backoff_delay
backoff_delay_exact base cap restarts h = omega arith

-- More restarts never shorten the delay, which stays between the base (or a lower cap) and the cap.
pub backoff_delay_bounds :
    (base cap r s : ℕ)
    → cap ≤ u64_max
    → r ≤ s
    → (backoff_delay base cap r ≤ backoff_delay base cap s)
      × (min base cap ≤ backoff_delay base cap r)
      × (backoff_delay base cap s ≤ cap)
backoff_delay_bounds base cap r s h le =
    let shifts = pow_mono (min (r - 1) 20) (min (s - 1) 20) (omega arith) in
    let least = pow_pos (min (r - 1) 20) in
    rw (backoff_delay_exact base cap r h, backoff_delay_exact base cap s h)
      (
        bound base cap (2 ^ min (r - 1) 20) (2 ^ min (s - 1) 20) shifts,
        at_least base cap (2 ^ min (r - 1) 20) least,
        omega arith,
      )
  where
    bound : (b c x y : ℕ) → x ≤ y → min (b * x) c ≤ min (b * y) c
    bound b c x y k = grind arith

    at_least : (b c x : ℕ) → 1 ≤ x → min b c ≤ min (b * x) c
    at_least b c x k = grind arith
