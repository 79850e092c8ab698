-- ===== src/Provenance.antt =====
-- crates/weave-graph-core/src/provenance.rs: signed records, with the provider that stands in for
-- a real one.
pub mod Hash
pub mod Hex
pub mod Keys
pub mod Verify
pub mod Preimage
mod Tests
use Prim.Native.Nat.{bit_xor}
use weave_graph.Common.{
  ℕ, zero, suc, ◌+◌, ◌*◌, ◌/◌, ◌%◌, ◌^◌, Text, codes, List, [], ◌∷◌, ◌++◌, ltb, Bool, not, ◌==◌,
  nat_eq, list_eq, if◌then◌else◌, decimal,
}

pub record Provenance : Type 0 where
  pub doc_id : ℕ
  pub commit_hash : Text
  pub merkle_root : Text
  pub signature : Text

pub data VerifyResult : Type 0 where
  verified : VerifyResult
  tampered : Text → VerifyResult

pub record MockProvenanceProvider : Type 0 where
  pub key : ℕ

abbrev pub new : MockProvenanceProvider
new = record { key = 11400714819323198485 }

abbrev pub with_key : ℕ → MockProvenanceProvider
with_key key = record { key = key }

abbrev pub fnv_offset : ℕ
fnv_offset = 14695981039346656037

abbrev pub fnv_prime : ℕ
fnv_prime = 1099511628211

-- The `fold` over the bytes; `wrapping_mul` on `u64`.
unfoldable pub fnv_fold : ℕ → Text → ℕ
fnv_fold hash [] = hash
fnv_fold hash (byte ∷ bytes) = fnv_fold ((bit_xor hash byte * fnv_prime) % 2 ^ 64) bytes

unfoldable pub fnv1a : Text → ℕ → ℕ
unfolding fnv_fold
fnv1a bytes seed = fnv_fold (bit_xor seed fnv_offset) bytes

-- The last `width` hexadecimal digits: `{:016x}` of a `u64` for a width of 16.
unfoldable pub hex : ℕ → ℕ → Text
hex zero n = []
hex (suc width) n =
    hex width (n / 16) ++ (if ltb (n % 16) 10 then 48 + n % 16 else 87 + n % 16) ∷ []

-- `format!("{doc_id}\0{commit_hash}")`.
unfoldable pub preimage : ℕ → Text → Text
unfolding decimal
preimage doc_id commit_hash = decimal doc_id ++ 0 ∷ commit_hash

unfoldable pub merkle_root : ℕ → Text → Text
unfolding preimage fnv1a hex
merkle_root doc_id commit_hash = hex 16 (fnv1a (preimage doc_id commit_hash) 0)

unfoldable pub sign : Text → ℕ → Text
unfolding fnv1a hex
sign root key = hex 16 (fnv1a root key)

-- `attach` never fails in this provider.
unfoldable pub attach : MockProvenanceProvider → ℕ → Text → Provenance
unfolding merkle_root sign
attach provider doc_id commit_hash = record {
  doc_id = doc_id;
  commit_hash = commit_hash;
  merkle_root = merkle_root doc_id commit_hash;
  signature = sign (merkle_root doc_id commit_hash) provider.key;
}

abbrev pub root_reason : Text
root_reason = codes "merkle_root does not match (doc_id, commit_hash)"

abbrev pub signature_reason : Text
signature_reason = codes "signature does not verify under this provider"

unfoldable pub verify : MockProvenanceProvider → Provenance → VerifyResult
unfolding merkle_root sign
verify provider p =
    if not (p.merkle_root == merkle_root p.doc_id p.commit_hash)
    then tampered root_reason
    else if not (p.signature == sign p.merkle_root provider.key)
    then tampered signature_reason
    else verified
