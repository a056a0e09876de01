-- ===== src/Detector/Budget.antt =====
-- internal/detector/detector.go: the budget that a readiness probe declares.
use kube_cure.Prelude.{
  ℕ, zero, suc, ◌+◌, ◌*◌, ◌≤◌, ◌<◌, pos, ◌+ℤ◌, ◌*ℤ◌, leb_ℤ, wrap64, wrap64-pos, ◌==◌, ◌≡◌, refl, ap,
  arith, if◌then◌else◌,
}
use kube_cure.Json.{Json}
use kube_cure.Detector.Reasons.{
  second, default_probe_period, default_probe_failure_threshold, probe_grace_buffer,
}
use kube_cure.Detector.Classify.{probe_budget}

times-pos : (a b : ℕ) → pos a *ℤ pos b ≡ pos (a * b)
unfolding ◌*ℤ◌
times-pos a b = ground arith

plus-pos : (a b : ℕ) → pos a +ℤ pos b ≡ pos (a + b)
unfolding ◌+ℤ◌
plus-pos a b = ground arith

-- The period in seconds and the number of failures that count, with what stands in for a 0.
abbrev pub period_of : ℕ → ℕ
period_of p = if p == 0 then 10 else p

abbrev pub threshold_of : ℕ → ℕ
threshold_of t = if t == 0 then 3 else t

abbrev pub seconds : ℕ → ℕ
seconds n = n * 1000000000

period_exact :
    (p : ℕ)
    → seconds (period_of p) < 9223372036854775808
    → (if leb_ℤ (wrap64 (pos p *ℤ second)) (pos 0)
        then default_probe_period
        else wrap64 (pos p *ℤ second))
      ≡ pos (seconds (period_of p))
period_exact zero h = rw (times-pos 0 1000000000, wrap64-pos 0 (omega arith)) refl
period_exact (suc p) h =
    rw (times-pos (suc p) 1000000000, wrap64-pos (seconds (suc p)) (ground arith)) (ground arith)

threshold_exact :
    (t : ℕ)
    → (if leb_ℤ (pos t) (pos 0) then default_probe_failure_threshold else pos t)
      ≡ pos (threshold_of t)
threshold_exact t = ground arith

scale : (t p : ℕ) → t * seconds p ≡ seconds (t * p)
scale t p = omega arith

le_times : (t p : ℕ) → 1 ≤ t → p ≤ t * p
le_times zero p h = absurd (omega arith)
le_times (suc t) p h = omega arith

threshold_ge : (t : ℕ) → 1 ≤ threshold_of t
threshold_ge t = ground arith

sum_exact :
    (delay t p : ℕ)
    → delay + t * p ≤ 9000000000
    → wrap64 (
        wrap64 (wrap64 (pos delay *ℤ second) +ℤ wrap64 (pos t *ℤ pos (seconds p)))
        +ℤ probe_grace_buffer)
      ≡ pos (seconds (delay + t * p) + 15000000000)
sum_exact delay t p h =
    rw
      (
        times-pos delay 1000000000,
        times-pos t (seconds p),
        scale t p,
        wrap64-pos (seconds delay) (omega (arith, h)),
        wrap64-pos (seconds (t * p)) (omega (arith, h)),
        plus-pos (seconds delay) (seconds (t * p)),
        wrap64-pos (seconds delay + seconds (t * p)) (omega (arith, h)),
        plus-pos (seconds delay + seconds (t * p)) 15000000000,
        wrap64-pos (seconds delay + seconds (t * p) + 15000000000) (omega (arith, h)),
      )
      (ap pos (omega arith))

-- For a probe with no negative field and a declared budget of at most nine billion seconds, the
-- arithmetic on int64 is exact: the budget is the initial delay and, for each failure that counts,
-- one period, in nanoseconds, and 15 seconds more. A period of 0 stands for 10 seconds, and a
-- threshold of 0 for 3 failures.
pub probe_budget_exact :
    (delay period threshold : ℕ) (marshalled : Json)
    → delay + threshold_of threshold * period_of period ≤ 9000000000
    → probe_budget (record {
      initial_delay_seconds = pos delay;
      period_seconds = pos period;
      failure_threshold = pos threshold;
      marshalled = marshalled;
    })
      ≡ pos (seconds (delay + threshold_of threshold * period_of period) + 15000000000)
unfolding probe_budget
probe_budget_exact delay period threshold marshalled h =
    let one = le_times (threshold_of threshold) (period_of period) (threshold_ge threshold) in
    rw (period_exact period (omega (arith, one, h)), threshold_exact threshold)
      (sum_exact delay (threshold_of threshold) (period_of period) h)
