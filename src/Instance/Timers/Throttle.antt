-- ===== src/Instance/Timers/Throttle.antt =====
-- The throttling of the calculation of routes.
use ospfd.Common.{
  ℕ, zero, suc, min, ◌-◌, ◌^◌, ◌<◌, inl, inr, ◌+◌, ◌*◌, ◌≤◌, ◌≡◌, refl, arith, ◌⊎◌, Option, none,
  some,
}
use native.Mathlib.Nat.{mod-eq_of_lt}
use native.Mathlib.Omega.{pow_step}
use ospfd.Instance.State.{OspfInstance}
use ospfd.Instance.Timers.{millisecond, hold_ms, spf_delay, schedule_spf, spf_due, earlier}

hold_ms-max : (inst : OspfInstance) → hold_ms inst ≤ inst.spf_max_holdtime_ms
unfolding hold_ms
hold_ms-max inst = omega arith

module _ (inst : OspfInstance) (now : ℕ) where
  spf_delay-bound :
      ((spf_delay inst now).0 ≤ inst.spf_delay_ms)
      ⊎ ((spf_delay inst now).0 ≤ inst.spf_max_holdtime_ms)
  unfolding spf_delay
  spf_delay-bound = ground (arith, hold_ms-max inst)

  spf_delay-hold :
      (r h : ℕ)
      → hold_ms inst ≡ h
      → inst.spf_last_run ≡ some r
      → r ≤ now
      → r + h * millisecond ≤ now + (spf_delay inst now).0 * millisecond
  unfolding spf_delay
  spf_delay-hold r h same e past = ground arith

  -- The request is within the hold time, or behind it.
  spf_delay-multiplier :
      (r h : ℕ)
      → hold_ms inst ≡ h
      → inst.spf_last_run ≡ some r
      → r ≤ now
      → ((now < r + h * millisecond)
          × ((spf_delay inst now).1 ≡ min (inst.spf_hold_multiplier + 1) (2 ^ 32 - 1)))
        ⊎ ((r + h * millisecond ≤ now)
            × ((spf_delay inst now).0 ≡ inst.spf_delay_ms)
            × ((spf_delay inst now).1 ≡ 0))
  unfolding spf_delay
  spf_delay-multiplier r h same e past = ground arith

-- A number doubled some times.
abbrev pub doubled : ℕ → ℕ → ℕ
doubled zero n = n
doubled (suc k) n = 2 * doubled k n

doubled_lem : (k n : ℕ) → n * 2 ^ k ≡ doubled k n
doubled_lem zero n = omega arith
doubled_lem (suc k) n = rw pow_step (grind (arith, doubled_lem k n))

-- The hold time of the settings: the shortest, doubled once for each calculation that came too soon
-- before, ten times at most, and not above the longest.
abbrev pub backoff : OspfInstance → ℕ
backoff inst =
    min (doubled (min inst.spf_hold_multiplier 10) inst.spf_holdtime_ms) inst.spf_max_holdtime_ms

hold_ms_lem :
    (inst : OspfInstance)
    → doubled (min inst.spf_hold_multiplier 10) inst.spf_holdtime_ms < 2 ^ 64
    → hold_ms inst ≡ backoff inst
unfolding hold_ms
hold_ms_lem inst fits =
    rw (doubled_lem (min inst.spf_hold_multiplier 10) inst.spf_holdtime_ms, mod-eq_of_lt fits) refl

-- Not behind a time, if there is one.
abbrev pub NotBehind : Option ℕ → ℕ → Type 0
NotBehind none t = Unit {0}
NotBehind (some u) t = t ≤ u

earlier-NotBehind : (o : Option ℕ) (t : ℕ) → NotBehind o (earlier o t)
earlier-NotBehind none t = tt
earlier-NotBehind (some u) t = ground arith

-- Asking for a calculation schedules one, at a time that is not behind one scheduled before and
-- that exceeds the present by the delay or the longest hold time at most.
pub schedule_spf-bound :
    (inst : OspfInstance) (now : ℕ)
    → (t : ℕ) × (spf_due (schedule_spf inst now) ≡ some t)
      × ((t ≤ now + inst.spf_delay_ms * millisecond)
          ⊎ (t ≤ now + inst.spf_max_holdtime_ms * millisecond))
      × NotBehind (spf_due inst) t
unfolding schedule_spf spf_due
schedule_spf-bound inst now =
    let d = (spf_delay inst now).0 in
    (
      earlier inst.spf_scheduled (now + d * millisecond),
      refl,
      ground (arith, spf_delay-bound inst now),
      earlier-NotBehind inst.spf_scheduled (now + d * millisecond),
    )

-- If the last calculation is not in the future and none is scheduled, and the shortest hold time can
-- be doubled in 64 bits as often as the multiplier says, ten times at most, then the one that is
-- scheduled keeps the hold time's distance from the last one: the shortest hold time so doubled, or
-- the longest if that is less. If the request comes within the hold time, the multiplier grows by one
-- up to 2^32 - 1; else it is reset, and the calculation is after the delay.
pub schedule_spf-hold :
    (inst : OspfInstance) (now r : ℕ)
    → spf_due inst ≡ none
    → inst.spf_last_run ≡ some r
    → r ≤ now
    → doubled (min inst.spf_hold_multiplier 10) inst.spf_holdtime_ms < 2 ^ 64
    → (t : ℕ) × (spf_due (schedule_spf inst now) ≡ some t)
      × (r + backoff inst * millisecond ≤ t)
      × (((now < r + backoff inst * millisecond)
            × ((schedule_spf inst now).spf_hold_multiplier
                ≡ min (inst.spf_hold_multiplier + 1) (2 ^ 32 - 1)))
          ⊎ ((r + backoff inst * millisecond ≤ now)
              × (t ≡ now + inst.spf_delay_ms * millisecond)
              × ((schedule_spf inst now).spf_hold_multiplier ≡ 0)))
unfolding schedule_spf spf_due
schedule_spf-hold inst now r e l h fits =
    let d = (spf_delay inst now).0 in
    let same = hold_ms_lem inst fits in
    (
      earlier inst.spf_scheduled (now + d * millisecond),
      refl,
      ground (arith, spf_delay-hold inst now r (backoff inst) same l h),
      elim (spf_delay-multiplier inst now r (backoff inst) same l h) [
        | inl (soon, grown) ↦ inl (soon, grown)
        | inr (late, delay, reset) ↦ inr (late, ground (arith, delay, e), reset)
      ],
    )
