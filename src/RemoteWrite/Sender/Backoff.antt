-- ===== src/RemoteWrite/Sender/Backoff.antt =====
-- The bounds of the delay between two attempts.
use native.Mathlib.Nat.{pow-suc}
use ollama_exporter.Base.{
  ltb, if◌then◌else◌, ◌+ℤ◌, ◌≤ℤ◌, ◌<ℤ◌, two63, wrap64, wrap64-id, ℤ, pos, negsuc, ℕ, zero, suc, ◌+◌,
  ◌-◌, ◌*◌, ◌^◌, ◌≤◌, ◌<◌, min, ◌≡◌, some, arith,
}
use ollama_exporter.RemoteWrite.Wire.{SendError}
use ollama_exporter.RemoteWrite.Sender.{
  EndpointConfig, shift64, backoff_upper, jitter, retry_after_of, min_ℤ, raise_to_floor, base_of,
  max_of, compute_backoff,
}

-- What `Int63n` promises.
abbrev pub IsDraw : (ℕ → ℕ) → Type 0
IsDraw draw = (n : ℕ) → 0 < n → draw n < n

abbrev pub exponent : ℕ → ℕ
exponent attempt = if ltb 16 attempt then 16 else attempt

pow2_pos : (e : ℕ) → 0 < 2 ^ e
pow2_pos zero = omega arith
pow2_pos (suc e) = rw (pow-suc 2 e) (omega (arith, pow2_pos e))

shift64_exact : (b e : ℕ) → b * 2 ^ e < two63 → shift64 (pos b) e ≡ pos (b * 2 ^ e)
unfolding shift64
shift64_exact b e h = wrap64-id (pos (b * 2 ^ e)) (omega arith)

-- For a positive base that the shift does not take out of int64, the bound of the jitter is the
-- smaller of the shifted base and the maximum.
pub backoff_upper_exact :
    (b m attempt : ℕ)
    → 0 < b
    → b * 2 ^ exponent attempt < two63
    → backoff_upper (pos b) (pos m) attempt ≡ pos (min (b * 2 ^ exponent attempt) m)
unfolding backoff_upper
backoff_upper_exact b m attempt h k =
    let grows : b ≤ b * 2 ^ exponent attempt = grind (arith, pow2_pos (exponent attempt)) in
    rw (shift64_exact b (exponent attempt) k) (ground arith)

shift64_wraps :
    (d : ℕ) → d * 65536 < two63 → shift64 (pos (281474976710656 + d)) 16 ≡ pos (d * 65536)
unfolding shift64 wrap64
shift64_wraps d h = ground arith

-- For a base that is `d` nanoseconds above 2^48, from the attempt 16 on, the shift loses its high
-- bits: the bound is only `d * 2^16`, where `d` is positive and this does not pass a maximum that
-- is an int64.
pub backoff_upper_wraps :
    (d m attempt : ℕ)
    → 0 < d
    → d * 65536 ≤ m
    → m < two63
    → 16 ≤ attempt
    → backoff_upper (pos (281474976710656 + d)) (pos m) attempt ≡ pos (d * 65536)
unfolding backoff_upper
backoff_upper_wraps d m attempt h k l n =
    let full : exponent attempt ≡ 16 = ground arith in
    rw (full, shift64_wraps d (omega arith)) (ground arith)

max_of_pos : (cfg : EndpointConfig) → pos 0 <ℤ max_of cfg
unfolding max_of
max_of_pos cfg = ground arith

upper_bounds :
    (base max_b : ℤ) (attempt : ℕ)
    → pos 0 <ℤ max_b
    → (pos 0 <ℤ backoff_upper base max_b attempt) × (backoff_upper base max_b attempt ≤ℤ max_b)
unfolding backoff_upper
upper_bounds base max_b attempt h = ground arith

-- The draw lies between 0 and the bound.
jitter_bounds :
    (draw : ℕ → ℕ) (upper : ℤ)
    → IsDraw draw
    → pos 0 <ℤ upper
    → upper <ℤ pos (two63 - 1)
    → (j : ℕ) × (jitter draw upper ≡ some (pos j)) × (pos j ≤ℤ upper)
unfolding jitter ◌+ℤ◌
jitter_bounds draw (negsuc u) d h k = absurd (omega arith)
jitter_bounds draw (pos u) d h k = (
  draw (u + 1),
  ground (arith, wrap64-id (pos (u + 1)) (omega arith)),
  omega (arith, d (u + 1) (omega arith)),
)

raise_bounds :
    (err : SendError) (max_b : ℤ) (j : ℕ)
    → pos j ≤ℤ max_b
    → let w = raise_to_floor err max_b (pos j) in
      (pos 0 ≤ℤ w) × (w ≤ℤ max_b) × (pos j ≤ℤ w) × (min_ℤ (retry_after_of err) max_b ≤ℤ w)
unfolding raise_to_floor
raise_bounds err max_b j h = ground arith

-- With a maximum below the largest int64 and a random source that keeps to its range, the delay is
-- found, is not negative, does not pass the maximum, and is no shorter than the receiver asked
-- for, up to the maximum.
pub compute_backoff_bounds :
    (cfg : EndpointConfig) (attempt : ℕ) (err : SendError) (draw : ℕ → ℕ)
    → IsDraw draw
    → max_of cfg <ℤ pos (two63 - 1)
    → (w : ℤ) × (compute_backoff cfg attempt err draw ≡ some w)
      × (pos 0 ≤ℤ w)
      × (w ≤ℤ max_of cfg)
      × (min_ℤ (retry_after_of err) (max_of cfg) ≤ℤ w)
unfolding compute_backoff
compute_backoff_bounds cfg attempt err draw d m =
    let (positive, small) = upper_bounds (base_of cfg) (max_of cfg) attempt (max_of_pos cfg) in
    let (j, drawn, le) = jitter_bounds draw _ d positive (omega arith) in
    let b = raise_bounds err (max_of cfg) j (omega arith) in
    (raise_to_floor err (max_of cfg) (pos j), rw (drawn, compute_backoff), b.0, b.1, b.3)
