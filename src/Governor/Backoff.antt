-- ===== src/Governor/Backoff.antt =====
-- crates/cordelia-governor/src/lib.rs: `reconnect_backoff`.
use native.Mathlib.Nat.{pow-suc}
use cordelia_core.Prelude.{
  nat_eq, zero, suc, ◌≤◌, ◌≡◌, refl, arith, ℕ, ◌-◌, ◌*◌, ◌^◌, min, if◌then◌else◌, ◌==◌,
}
use cordelia_core.Protocol.Era.{era_0, from_secs}

-- `u64::saturating_mul`
abbrev saturating_mul : ℕ → ℕ → ℕ
saturating_mul a b = min (a * b) (2 ^ 64 - 1)

-- In nanoseconds, as every duration.
unfoldable pub reconnect_backoff : ℕ → ℕ
reconnect_backoff disconnect_count =
    if disconnect_count == 0
    then 0
    else from_secs (
        min
          (saturating_mul era_0.reconnect_backoff_base_secs
            (2 ^ min disconnect_count era_0.backoff_saturation_count))
          era_0.reconnect_backoff_max_secs)

pow_ge : (k : ℕ) → 32 ≤ 2 ^ (suc (suc (suc (suc (suc k)))))
pow_ge zero = omega arith
pow_ge (suc k) = omega (arith, pow_ge k, pow-suc 2 (suc (suc (suc (suc (suc k))))))

-- For every disconnect count but 0 the wait is 30 s times 2^count, at most 15 min, and it is 0 at 0: the
-- saturation of the exponent and of the product never shows.
pub reconnect_backoff_lem :
    (n : ℕ) → reconnect_backoff n ≡ (if n == 0 then 0 else from_secs (min (2 ^ n * 30) (15 * 60)))
unfolding reconnect_backoff
reconnect_backoff_lem zero = refl
reconnect_backoff_lem (suc zero) = refl
reconnect_backoff_lem (suc (suc zero)) = refl
reconnect_backoff_lem (suc (suc (suc zero))) = refl
reconnect_backoff_lem (suc (suc (suc (suc zero)))) = refl
reconnect_backoff_lem (suc (suc (suc (suc (suc k))))) =
    let n = suc (suc (suc (suc (suc k)))) in
    let capped : min n 5 ≡ 5 = omega arith in
    let left : min (min (30 * 2 ^ min n 5) (2 ^ 64 - 1)) 900 ≡ 900 = rw capped (omega arith) in
    let right : min (2 ^ n * 30) 900 ≡ 900 = omega (arith, pow_ge k) in ground arith
