-- ===== src/Executor/Delay.antt =====
-- How long the timer waits.
use frequent_cron.Base.{◌+◌, ◌^◌, ◌<◌, ◌≡◌, arith, string_eq, nat_eq}
use frequent_cron.Base.Int.{ℤ, pos, ◌+ℤ◌, ◌≤ℤ◌, ◌<ℤ◌, negate, IsInt32, to_int32, pos_part, max_ℤ}
use frequent_cron.External.{Double, Random, IsUniform}
use frequent_cron.Executor.{Executor, draw_offset, delay_with, compute_next_delay}

module _ {D : Type 0} (d : Double D) (r : Random D) where
  draw_offset_bounds :
      (e : Executor D r.State)
      → IsUniform r
      → pos 0 <ℤ e.jitter_ms
      → (negate e.jitter_ms ≤ℤ (draw_offset d r e).0) × ((draw_offset d r e).0 ≤ℤ e.jitter_ms)
  unfolding draw_offset
  draw_offset_bounds e u j = ground (arith, u.within (negate e.jitter_ms) e.jitter_ms e.rng)

  delay_with_bounds :
      (f j o : ℤ)
      → pos 0 ≤ℤ f
      → IsInt32 j
      → pos_part f + pos_part j < 2 ^ 31
      → negate j ≤ℤ o
      → o ≤ℤ j
      → (max_ℤ (pos 1) (f +ℤ negate j) ≤ℤ delay_with d r f o)
        × (delay_with d r f o ≤ℤ max_ℤ (pos 1) (f +ℤ j))
  unfolding delay_with to_int32 ◌+ℤ◌
  delay_with_bounds f j o p hj fits lo hi = ground arith

  -- With a positive jitter that keeps the sum in an `int`, the delay lies within the jitter of the
  -- frequency, and is never below 1 ms, under either distribution and whatever is drawn.
  pub compute_next_delay_bounds :
      (e : Executor D r.State)
      → IsUniform r
      → pos 0 ≤ℤ e.frequency
      → pos 0 <ℤ e.jitter_ms
      → IsInt32 e.jitter_ms
      → pos_part e.frequency + pos_part e.jitter_ms < 2 ^ 31
      → (max_ℤ (pos 1) (e.frequency +ℤ negate e.jitter_ms) ≤ℤ (compute_next_delay d r e).0)
        × ((compute_next_delay d r e).0 ≤ℤ max_ℤ (pos 1) (e.frequency +ℤ e.jitter_ms))
  unfolding compute_next_delay
  compute_next_delay_bounds e u p j hj fits =
      let within = draw_offset_bounds e u j in
      let bounds =
        delay_with_bounds e.frequency e.jitter_ms (draw_offset d r e).0 p hj fits within.0
          within.1 in
      ground (arith, bounds)

  -- Without jitter every delay is the frequency itself, and no random number is drawn.
  pub compute_next_delay_exact :
      (e : Executor D r.State)
      → e.jitter_ms ≤ℤ pos 0
      → compute_next_delay d r e ≡ (e.frequency, e.rng)
  unfolding compute_next_delay
  compute_next_delay_exact e h = ground arith

  -- Where the frequency and the jitter that is drawn add up to more than an `int` holds, the delay
  -- is 1 ms and not the sum.
  pub compute_next_delay_overflow :
      (e : Executor D r.State)
      → pos 0 <ℤ e.jitter_ms
      → IsInt32 e.frequency
      → IsInt32 (draw_offset d r e).0
      → pos (2 ^ 31) ≤ℤ e.frequency +ℤ (draw_offset d r e).0
      → (compute_next_delay d r e).0 ≡ pos 1
  unfolding compute_next_delay delay_with to_int32 ◌+ℤ◌
  compute_next_delay_overflow e j hf ho big = ground arith
