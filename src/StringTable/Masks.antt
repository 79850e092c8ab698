-- ===== src/StringTable/Masks.antt =====
-- `&` with one less than a power of two, as the probes use it.
use Prim.Native.Nat.{bit_and, bit_and-bitwise, digits}
use weave_graph.Common.{
  ℕ, zero, suc, ◌+◌, ◌-◌, ◌*◌, ◌/◌, ◌%◌, ◌≤◌, ◌<◌, min, leb, Bool-cases, ◌≡◌, inl, inr, refl, arith,
  if◌then◌else◌,
}
use weave_graph.StringTable.{power_from, slots_for}

-- The powers of two.
abbrev pub power : ℕ → ℕ
power zero = 1
power (suc k) = power k + power k

pub power-pos : (k : ℕ) → 1 ≤ power k
power-pos zero = omega arith
power-pos (suc k) = omega (arith, power-pos k)

and_digits-le : (n a b : ℕ) → digits (λ b. 0) min n a b ≤ b
and_digits-le zero a b = omega arith
and_digits-le (suc n) zero b = omega arith
and_digits-le (suc n) (suc a) b = omega (arith, and_digits-le n (suc a / 2) (b / 2))

-- A masked number is at most the mask.
pub bit_and-le : (a b : ℕ) → bit_and a b ≤ b
bit_and-le a b = rw (bit_and-bitwise a b) (and_digits-le a a b)

digits_step :
    (n a b : ℕ)
    → 1 ≤ a
    → digits (λ b. 0) min (suc n) a b
      ≡ digits (λ b. 0) min n (a / 2) (b / 2) * 2 + min (a % 2) (b % 2)
digits_step n zero b h = absurd (omega arith)
digits_step n (suc a) b h = refl

half_mask : (k : ℕ) → (power (suc k) - 1) / 2 ≡ power k - 1
half_mask k = omega (arith, power-pos k)

odd_mask : (k : ℕ) → (power (suc k) - 1) % 2 ≡ 1
odd_mask k = omega (arith, power-pos k)

half_power : (k : ℕ) → power (suc k) / 2 ≡ power k
half_power k = omega arith

even_power : (k : ℕ) → power (suc k) % 2 ≡ 0
even_power k = omega arith

below_digits : (k n a : ℕ) → a ≤ n → a < power k → digits (λ b. 0) min n a (power k - 1) ≡ a
below_digits k zero a h l = omega arith
below_digits k (suc n) zero h l = omega arith
below_digits zero (suc n) (suc a) h l = absurd (omega arith)
below_digits (suc k) (suc n) (suc a) h l =
    rw (half_mask k, odd_mask k)
      (omega (arith, below_digits k n (suc a / 2) (omega arith) (omega arith)))

pub bit_and-below : (k a : ℕ) → a < power k → bit_and a (power k - 1) ≡ a
bit_and-below k a l = rw (bit_and-bitwise a (power k - 1)) (below_digits k a a (omega arith) l)

digits-power : (k n : ℕ) → power k ≤ n → digits (λ b. 0) min n (power k) (power k - 1) ≡ 0
digits-power zero zero h = absurd (omega arith)
digits-power zero (suc n) h = omega (arith, and_digits-le n 0 0)
digits-power (suc k) zero h = absurd (omega (arith, power-pos k))
digits-power (suc k) (suc n) h =
    rw
      (
        digits_step n (power (suc k)) (power (suc k) - 1) (omega (arith, power-pos k)),
        half_power k,
        even_power k,
        half_mask k,
      )
      (omega (arith, digits-power k n (omega (arith, power-pos k))))

pub bit_and-power : (k : ℕ) → bit_and (power k) (power k - 1) ≡ 0
bit_and-power k =
    rw (bit_and-bitwise (power k) (power k - 1)) (digits-power k (power k) (omega arith))

-- The step of a probe.
pub bit_and-next :
    (k slot : ℕ)
    → slot < power k
    → bit_and (slot + 1) (power k - 1) ≡ (if leb (power k) (slot + 1) then 0 else slot + 1)
bit_and-next k slot h = elim (Bool-cases (leb (power k) (slot + 1))) [
  | inl e ↦ let last : slot + 1 ≡ power k = ground arith in rw (e, last) (bit_and-power k)
  | inr e ↦ rw e (bit_and-below k (slot + 1) (ground arith))
]

power_from-power : (n fuel j : ℕ) → (k : ℕ) × (power_from n fuel (power j) ≡ power k)
power_from-power n zero j = (j, refl)
power_from-power n (suc fuel) j = elim (Bool-cases (leb n (power j))) [
  | inl e ↦ (j, rw e refl)
  | inr e ↦
      let (k, q) = power_from-power n fuel (suc j) in
      let double : 2 * power j ≡ power (suc j) = omega arith in (k, rw (e, double) q)
]

power_from-le : (n fuel p : ℕ) → 1 ≤ p → n ≤ p + fuel → n ≤ power_from n fuel p
power_from-le n zero p h l = omega arith
power_from-le n (suc fuel) p h l = ground (arith, power_from-le n fuel (2 * p))

pub slots_for_lem :
    (needed : ℕ) → (k : ℕ) × (slots_for needed ≡ power k) × (needed ≤ slots_for needed)
slots_for_lem needed =
    let (k, e) = power_from-power needed needed 0 in
    let enough = power_from-le needed needed 1 (omega arith) (omega arith) in
    elim (Bool-cases (leb 16 (power k))) [
      | inl l ↦ (k, ground arith, omega (arith, enough))
      | inr l ↦ (4, ground arith, omega (arith, enough))
    ]
