-- ===== src/Cubic/Curve.antt =====
-- The cubic curve: its exact value where nothing overflows, and its shape.
use qperf_go.Prelude.{
  ℕ, ◌+◌, ◌-◌, ◌*◌, ◌/◌, ◌^◌, ◌≤◌, ◌<◌, ◌≡◌, refl, if◌then◌else◌, ltb, ℤ, pos, negsuc, ◌≤ℤ◌, ◌-ℤ◌,
  ◌+i◌, ◌-i◌, *i_pos, arith, sub_ℕ, inl, inr, ap, ◌∙◌, -i_exact, +i_exact, shr_i, div_i, ltb→lt,
  Bool-cases, ltb_ℤ, ◌+ℤ◌, false,
}
use native.Mathlib.Nat.{mul-le-mul, mul_assoc}
use qperf_go.Prelude.Time.{sub_time_exact, add_time}
use qperf_go.Cubic.{cube_factor, elapsed_time, abs_i, cube_delta, cubic_target}

-- As far from the origin the curve is exact, in 1024ths of a second.
abbrev pub max_offset : ℕ
max_offset = 26_000

abbrev pub delta : ℕ → ℕ
delta o = 410 * (o * o * o) * 1252 / 2 ^ 40

abbrev pub curve : ℕ → ℕ → ℕ → ℤ
curve origin k t = if ltb k t then pos (origin + delta (t - k)) else sub_ℕ origin (delta (k - t))

cube_mono : (a b : ℕ) → a ≤ b → a * a * a ≤ b * b * b
cube_mono a b h = mul-le-mul (mul-le-mul h h) h

pub delta_mono : (a b : ℕ) → a ≤ b → delta a ≤ delta b
delta_mono a b h = omega (arith, cube_mono a b h)

cube_delta_exact : (o : ℕ) → o ≤ max_offset → cube_delta (pos o) ≡ pos (delta o)
unfolding cube_delta shr_i
cube_delta_exact o h =
    let s = cube_mono o max_offset h in
    let q = mul-le-mul h h in
    let e = mul_assoc 410 o o in
    let e3 = ap (λ x. x * o) e ∙ mul_assoc 410 (o * o) o in
    rw
      (
        *i_pos 410 o (omega arith),
        *i_pos (410 * o) o (omega (arith, e, q)),
        *i_pos (410 * o * o) o (omega (arith, e3, s)),
        *i_pos (410 * o * o * o) 1252 (omega (arith, e3, s)),
        e3,
      )
      refl

delta_bound : (o : ℕ) → o ≤ max_offset → delta o < 2 ^ 62
delta_bound o h = omega (arith, cube_mono o max_offset h)

pub curve_mono : (origin k t u : ℕ) → t ≤ u → curve origin k t ≤ℤ curve origin k u
curve_mono origin k t u h =
    ground
      (arith, delta_mono (k - u) (k - t) (omega arith), delta_mono (t - k) (u - k) (omega arith))

pub sub_i_pos : (a b : ℕ) → a < 2 ^ 62 → b < 2 ^ 62 → pos a -i pos b ≡ sub_ℕ a b
unfolding ◌-ℤ◌
sub_i_pos a b p q = -i_exact (pos a) (pos b) (omega arith) (omega arith) ∙ ground arith

pub add_i_pos : (a b : ℕ) → a < 2 ^ 62 → b < 2 ^ 62 → pos a +i pos b ≡ pos (a + b)
unfolding ◌+ℤ◌
add_i_pos a b p q = +i_exact (pos a) (pos b) (omega arith) (omega arith) ∙ ground arith

minus :
    (k t : ℕ)
    → k < t
    → t < 2 ^ 62
    → (if ltb_ℤ (sub_ℕ k t) (pos 0) then pos 0 -i sub_ℕ k t else sub_ℕ k t) ≡ pos (t - k)
unfolding ◌-ℤ◌
minus k t p q =
    let e : sub_ℕ k t ≡ negsuc (t - k - 1) = ground arith in
    rw (e, -i_exact (pos 0) (negsuc (t - k - 1)) (omega arith) (omega arith)) (ground arith)

abs_after : (k t : ℕ) → t ≤ max_offset → k < t → abs_i (pos k -i pos t) ≡ pos (t - k)
unfolding abs_i
abs_after k t h p = rw (sub_i_pos k t (omega arith) (omega arith)) (minus k t p (omega arith))

abs_before : (k t : ℕ) → k ≤ max_offset → t ≤ k → abs_i (pos k -i pos t) ≡ pos (k - t)
unfolding abs_i
abs_before k t h p = rw (sub_i_pos k t (omega arith) (omega arith)) (ground arith)

ltb-false : (a b : ℕ) → ltb a b ≡ false → b ≤ a
ltb-false a b h = ground arith

pub target_exact :
    (origin k t : ℕ)
    → origin < 2 ^ 62
    → k ≤ max_offset
    → t ≤ max_offset
    → cubic_target (pos origin) k (pos t) ≡ curve origin k t
unfolding cubic_target
target_exact origin k t h p q = elim (Bool-cases (ltb k t)) [
  | inl e ↦
      let l = ltb→lt k t e in
      rw (abs_after k t q l, cube_delta_exact (t - k) (omega arith))
        (ground (arith, add_i_pos origin (delta (t - k)) h (delta_bound (t - k) (omega arith))))
  | inr e ↦
      let l = ltb-false k t e in
      rw (abs_before k t p l, cube_delta_exact (k - t) (omega arith))
        (ground (arith, sub_i_pos origin (delta (k - t)) h (delta_bound (k - t) (omega arith))))
]

-- The time since the start of the epoch, `d` nanoseconds after it.
abbrev pub ticks : ℕ → ℕ
ticks d = d / 1000 * 1024 / 1_000_000

pub elapsed_time_exact :
    (epoch d event_time delay_min : ℕ)
    → event_time + delay_min ≡ epoch + d
    → d ≤ 25_000_000_000
    → elapsed_time epoch event_time (pos delay_min) ≡ pos (ticks d)
unfolding elapsed_time div_i
elapsed_time_exact epoch d event_time delay_min shift h =
    let at : add_time event_time (pos delay_min) ≡ epoch + d = omega (arith, shift) in
    rw (at, sub_time_exact epoch d (omega arith), *i_pos (d / 1000) 1024 (omega arith)) refl

pub ticks_mono : (d e : ℕ) → d ≤ e → ticks d ≤ ticks e
ticks_mono d e h = omega arith

pub ticks_bound : (d : ℕ) → d ≤ 25_000_000_000 → ticks d ≤ max_offset
ticks_bound d h = omega arith

-- A time to the origin as far off as the distance allows lets the curve start no lower than the
-- window that the epoch started with.
pub curve_start :
    (current drop k t : ℕ)
    → k * k * k ≤ cube_factor * drop
    → pos current ≤ℤ curve (current + drop) k t
curve_start current drop k t h =
    let below : delta (k - t) ≤ drop = omega (arith, h, delta_mono (k - t) k (omega arith)) in
    ground (arith, below)

-- Eight million bytes are close enough.
pub origin_near : (k drop : ℕ) → k * k * k ≤ cube_factor * drop → drop ≤ 8_000_000 → k ≤ max_offset
origin_near k drop h p = elim (Bool-cases (ltb max_offset k)) [
  | inl e ↦ absurd (omega (arith, h, p, cube_mono 26_001 k (ltb→lt max_offset k e)))
  | inr e ↦ ltb-false max_offset k e
]
