-- ===== src/Cubic/Concrete.antt =====
-- A cube root and thousandths, for the examples: what the theorems ask of them holds.
use qperf_go.Prelude.{
  ℕ, zero, suc, ◌*◌, ◌/◌, ◌≤◌, ◌≤ℤ◌, ◌≡◌, refl, ℤ, pos, leb, leb→le, if◌then◌else◌, arith,
  Bool-cases, inl, inr, ◌*ℤ◌, ◌+ℤ◌, ◌-ℤ◌, div_i, pos_part, *ℤ_pos,
}
use native.Mathlib.Nat.{div-le_of_le-mul, mul-le-mul}
use qperf_go.Prelude.FixedPoint.{thousandths, thousandths32}
use qperf_go.Cubic.{Cubic, tcp_growth, alpha, beta, congestion_window_after_packet_loss}
use qperf_go.Cubic.Growth.{Grows, Cubes}

-- The cube root of a number, rounded down, up to 32767.
unfoldable pub root_below : ℕ → ℕ → ℕ
root_below zero x = 0
root_below (suc n) x =
    let rest = root_below n x in if leb (suc n * suc n * suc n) x then suc n else rest

root_below-le : (n x : ℕ) → root_below n x * root_below n x * root_below n x ≤ x
unfolding root_below
root_below-le zero x = omega arith
root_below-le (suc n) x = elim (Bool-cases (leb (suc n * suc n * suc n) x)) [
  | inl e ↦ rw e (leb→le (suc n * suc n * suc n) x e)
  | inr e ↦ rw e (root_below-le n x)
]

abbrev pub cube_root : ℤ → ℕ
cube_root x = root_below 32_767 (pos_part x)

pub cube_root-Cubes : Cubes cube_root
cube_root-Cubes x h = root_below-le 32_767 x

abbrev acked_units : ℕ → ℕ
acked_units a = (a * 1000 * 529 / 1000) * 1_252_000 / 1000

alpha_one : (c : Cubic) → c.num_connections ≡ pos 1 → alpha thousandths32 c ≡ pos 529
unfolding alpha beta ◌*ℤ◌ ◌+ℤ◌ ◌-ℤ◌ div_i
alpha_one c h = rw h refl

quotient-le : (u e : ℕ) → u * 1000 / (e * 1000) ≤ u
quotient-le u zero = omega arith
quotient-le u (suc e) =
    let large : 1000 ≤ suc e * 1000 = omega arith in
    let same : u ≤ u = omega arith in
    div-le_of_le-mul (suc e * 1000) (omega (arith, mul-le-mul large same))

pub thousandths-Grows : Grows thousandths32
unfolding tcp_growth div_i
thousandths-Grows c h a e small some_window p q = (
  acked_units a * 1000 / (e * 1000) / 1000,
  rw (alpha_one c h, p, q) (simp *ℤ_pos refl),
  omega (arith, quotient-le (acked_units a) e),
)

pub thousandths-reno :
    (w : ℕ)
    → thousandths.to_int (thousandths.mul (thousandths.of_int (pos w)) (thousandths.lit 7 10))
      ≤ℤ pos w
unfolding div_i
thousandths-reno w = simp *ℤ_pos (omega arith)

beta_one : (c : Cubic) → c.num_connections ≡ pos 1 → beta thousandths32 c ≡ pos 700
unfolding beta ◌*ℤ◌ ◌+ℤ◌ ◌-ℤ◌ div_i
beta_one c h = rw h refl

pub thousandths-cubic :
    (c : Cubic) (w : ℕ)
    → c.num_connections ≡ pos 1
    → (congestion_window_after_packet_loss thousandths32 c (pos w)).0 ≤ℤ pos w
unfolding congestion_window_after_packet_loss div_i
thousandths-cubic c w h = rw (beta_one c h) (simp *ℤ_pos (omega arith))
