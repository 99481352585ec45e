-- ===== src/Selector/Cooldown.antt =====
-- The delays after failures (planner.go: Cooldown and cooldownBounds).
use virtual_cloud_help_servi.Prelude.{
  ℕ, zero, suc, ◌-◌, ◌*◌, ◌/◌, ◌^◌, ◌<◌, ◌≤◌, ◌≡◌, min, ltb, ◌==◌, if◌then◌else◌, Result, ok, err,
  ◌>>=◌, arith,
}
use native.Mathlib.Omega.{pow_step}
use native.Mathlib.Nat.{pow-le-pow_right}
use virtual_cloud_help_servi.Prelude.Text.{Text}
use virtual_cloud_help_servi.GoTime.{Duration, second, minute, hour}

-- The constants of the type; `unknown` is any other string.
pub data FailureClass : Type 0 where
  failure_none failure_dns failure_handshake failure_transfer : FailureClass
  failure_suspected failure_allowlist : FailureClass
  unknown : Text → FailureClass

pub data CooldownFault : Type 0 where
  unknown_failure_class : CooldownFault

unfoldable pub cooldown_bounds : FailureClass → Result CooldownFault (Duration × Duration)
cooldown_bounds failure_dns = ok (5 * second, 2 * minute)
cooldown_bounds failure_handshake = ok (15 * second, 10 * minute)
cooldown_bounds failure_transfer = ok (30 * second, 15 * minute)
cooldown_bounds failure_suspected = ok (2 * minute, 30 * minute)
cooldown_bounds failure_allowlist = ok (15 * minute, 6 * hour)
cooldown_bounds failure_none = err unknown_failure_class
cooldown_bounds (unknown name) = err unknown_failure_class

-- The loop of `Cooldown` with the number of turns left, and what follows it.
unfoldable pub grow : Duration → ℕ → Duration → Duration
grow cap_duration zero delay = if ltb cap_duration delay then cap_duration else delay
grow cap_duration (suc turns) delay =
    let doubled = grow cap_duration turns (delay * 2) in
    if ltb delay cap_duration
    then (if ltb (cap_duration / 2) delay then cap_duration else doubled)
    else if ltb cap_duration delay
    then cap_duration
    else delay

unfoldable pub cooldown : FailureClass → ℕ → Result CooldownFault Duration
cooldown class consecutive_failures = do
  (base, cap_duration) ← cooldown_bounds class
  (if consecutive_failures == 0
      then ok 0
      else ok (grow cap_duration (consecutive_failures - 1) base))

grown : (x n : ℕ) → x ≤ x * 2 ^ n
grown x zero = omega arith
grown x (suc n) = grind (arith, grown x n, pow_step 2 n)

doubled : (x n : ℕ) → x * 2 * 2 ^ n ≡ x * 2 ^ suc n
doubled x n = grind (arith, pow_step 2 n)

grow-min :
    (cap_duration turns delay : ℕ)
    → grow cap_duration turns delay ≡ min cap_duration (delay * 2 ^ turns)
unfolding grow
grow-min cap_duration zero delay = ground arith
grow-min cap_duration (suc turns) delay = ground (
  arith,
  grow-min cap_duration turns (delay * 2),
  doubled delay turns,
  grown delay (suc turns),
  grown (delay * 2) turns,
)

times_le : (x a b : ℕ) → a ≤ b → x * a ≤ x * b
times_le x a b h = grind arith

-- The delay after n > 0 failures is the base doubled n - 1 times, at most the class's cap.
pub cooldown-min :
    (class : FailureClass) (consecutive_failures : ℕ) {base cap_duration : Duration}
    → cooldown_bounds class ≡ ok (base, cap_duration)
    → 0 < consecutive_failures
    → cooldown class consecutive_failures
      ≡ ok (min cap_duration (base * 2 ^ (consecutive_failures - 1)))
unfolding cooldown
cooldown-min class consecutive_failures {base} {cap_duration} h k =
    ground (arith, h, grow-min cap_duration (consecutive_failures - 1) base)

-- Of one class, more failures never give a shorter delay.
pub cooldown_monotone :
    (class : FailureClass) (fewer more : ℕ) {short long : Duration}
    → fewer ≤ more
    → cooldown class fewer ≡ ok short
    → cooldown class more ≡ ok long
    → short ≤ long
unfolding cooldown
cooldown_monotone class fewer more {short} {long} h k l = by_bounds (cooldown_bounds class) k l
  where
    by_bounds :
        (bounds : Result CooldownFault (Duration × Duration))
        → ((bounds >>= λ b. if fewer == 0 then ok 0 else ok (grow b.1 (fewer - 1) b.0)) ≡ ok short)
        → ((bounds >>= λ b. if more == 0 then ok 0 else ok (grow b.1 (more - 1) b.0)) ≡ ok long)
        → short ≤ long
    by_bounds (err fault) a b = absurd (ground arith)
    by_bounds (ok (base, cap_duration)) a b = ground (
      arith,
      grow-min cap_duration (fewer - 1) base,
      grow-min cap_duration (more - 1) base,
      times_le base (2 ^ (fewer - 1)) (2 ^ (more - 1))
          (pow-le-pow_right {n = 2} (omega arith) {i = fewer - 1} {j = more - 1} (omega arith)),
    )
