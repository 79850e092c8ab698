-- ===== src/Provenance/Hash.antt =====
-- The FNV-1a hash loses nothing of its seed: each step can be undone.
use Prim.Native.Nat.{bit_xor}
use weave_graph.Common.{
  ℕ, ◌*◌, ◌%◌, ◌^◌, ◌<◌, Text, [], ◌∷◌, ◌≡◌, inl, inr, refl, arith, In, bit_xor_cancel,
  bit_xor_bound, max,
}
use weave_graph.Provenance.{fnv_offset, fnv_prime, fnv_fold, fnv1a}

-- The prime is odd, so that multiplying with it loses nothing.
times_cancel :
    (x y : ℕ)
    → x < 2 ^ 64
    → y < 2 ^ 64
    → (x * fnv_prime) % 2 ^ 64 ≡ (y * fnv_prime) % 2 ^ 64
    → x ≡ y
times_cancel x y h k e = omega arith

abbrev pub Bytes : Text → Type 0
Bytes bytes = (b : ℕ) → In b bytes → b < 256

xor_small : (hash byte : ℕ) → hash < 2 ^ 64 → byte < 256 → bit_xor hash byte < 2 ^ 64
xor_small hash byte h b = bit_xor_bound 64 hash byte h (omega arith)

xor_same : (a b c : ℕ) → bit_xor a c ≡ bit_xor b c → a ≡ b
xor_same a b c e = bit_xor_cancel (max a b) a b c (omega arith) (omega arith) e

step_small : (n : ℕ) → n % 2 ^ 64 < 2 ^ 64
step_small n = omega arith

fnv_fold-small : (hash : ℕ) (bytes : Text) → hash < 2 ^ 64 → fnv_fold hash bytes < 2 ^ 64
unfolding fnv_fold
fnv_fold-small hash [] h = h
fnv_fold-small hash (b ∷ bytes) h =
    fnv_fold-small ((bit_xor hash b * fnv_prime) % 2 ^ 64) bytes
      (step_small (bit_xor hash b * fnv_prime))

fnv_fold_injective :
    (a b : ℕ) (bytes : Text)
    → a < 2 ^ 64
    → b < 2 ^ 64
    → Bytes bytes
    → fnv_fold a bytes ≡ fnv_fold b bytes
    → a ≡ b
unfolding fnv_fold
fnv_fold_injective a b [] h k small e = e
fnv_fold_injective a b (c ∷ bytes) h k small e = xor_same a b c (
    times_cancel (bit_xor a c) (bit_xor b c) (xor_small a c h (small c (inl refl)))
      (xor_small b c k (small c (inl refl)))
      (fnv_fold_injective ((bit_xor a c * fnv_prime) % 2 ^ 64) ((bit_xor b c * fnv_prime) % 2 ^ 64)
        bytes (step_small (bit_xor a c * fnv_prime)) (step_small (bit_xor b c * fnv_prime))
        (λ x m. small x (inr m)) e))

seed_small : (seed : ℕ) → seed < 2 ^ 64 → bit_xor seed fnv_offset < 2 ^ 64
seed_small seed h = bit_xor_bound 64 seed fnv_offset h (omega arith)

pub fnv1a-small : (bytes : Text) (seed : ℕ) → seed < 2 ^ 64 → fnv1a bytes seed < 2 ^ 64
unfolding fnv1a
fnv1a-small bytes seed h = fnv_fold-small (bit_xor seed fnv_offset) bytes (seed_small seed h)

pub fnv1a_injective :
    (bytes : Text) (a b : ℕ)
    → Bytes bytes
    → a < 2 ^ 64
    → b < 2 ^ 64
    → fnv1a bytes a ≡ fnv1a bytes b
    → a ≡ b
unfolding fnv1a
fnv1a_injective bytes a b small h k e = xor_same a b fnv_offset (
    fnv_fold_injective (bit_xor a fnv_offset) (bit_xor b fnv_offset) bytes (seed_small a h)
      (seed_small b k) small e)
