-- ===== src/Server/Data.antt =====
-- The pseudo-random data are the powers of the multiplier.
use qperf_go.Prelude.{
  ℕ, zero, suc, ◌+◌, ◌*◌, ◌%◌, ◌^◌, ◌≡◌, refl, ap, sym, ◌∙◌, ◌<◌, some, get_elem?, length, arith,
}
use native.Mathlib.Nat.{pow-suc}
use qperf_go.Server.{next_seed, pr_data_from, generate_pr_data}

abbrev power : ℕ → ℕ
power k = 48271 ^ k % 2_147_483_647

next_seed-mod : (a : ℕ) → next_seed (a % 2_147_483_647) ≡ a * 48271 % 2_147_483_647
next_seed-mod a = omega arith

next_seed-power : (k : ℕ) → next_seed (power k) ≡ power (suc k)
next_seed-power k = next_seed-mod (48271 ^ k) ∙ ap (λ n. n % 2_147_483_647) (sym (pow-suc 48271 k))

length-pr_data_from : (l seed : ℕ) → length (pr_data_from l seed) ≡ l
unfolding pr_data_from
length-pr_data_from zero seed = refl
length-pr_data_from (suc l) seed = ap suc (length-pr_data_from l (next_seed seed))

nth :
    (l k i : ℕ) → i < l → get_elem? (pr_data_from l (power k)) i ≡ some (power (suc (k + i)) % 256)
unfolding pr_data_from
nth zero k i h = absurd (omega arith)
nth (suc l) k zero h =
    ap (λ n. some (n % 256)) (next_seed-power k ∙ ap (λ n. power (suc n)) (omega arith))
nth (suc l) k (suc i) h =
    ap (λ n. get_elem? (pr_data_from l n) i) (next_seed-power k)
    ∙ nth l (suc k) i (omega arith)
    ∙ ap (λ n. some (power (suc n) % 256)) (omega arith)

-- For every length: the data have that length, and the byte at each place i is the lowest byte of
-- 48271^(i + 1) modulo 2^31 - 1.
pub generate_lem :
    (l : ℕ)
    → (length (generate_pr_data l) ≡ l)
      × ((i : ℕ)
          → i < l
          → get_elem? (generate_pr_data l) i ≡ some (48271 ^ suc i % 2_147_483_647 % 256))
generate_lem l = (
  length-pr_data_from l 1,
  λ i h. nth l 0 i h ∙ ap (λ n. some (power (suc n) % 256)) (omega arith),
)
