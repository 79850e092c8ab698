-- ===== src/Provenance/Tests.antt =====
-- A record signed and altered, and the theorems there.
use weave_graph.Common.{decimal, ℕ, codes, length, ◌≡◌, ◌↔◌, refl, nat_eq, list_eq, arith}
use weave_graph.Provenance.{
  Provenance, verified, tampered, new, with_key, merkle_root, sign, attach, root_reason,
  signature_reason, verify,
}
use weave_graph.Provenance.Keys.{verify-attach}
use weave_graph.Provenance.Verify.{verify_lem}
use weave_graph.Provenance.Preimage.{preimage_injective}

abbrev signed : Provenance
signed = attach new 7 (codes "abc123")

checks :
    (verify new signed ≡ verified)
    × (verify new (record signed { doc_id = 8 }) ≡ tampered root_reason)
    × (verify (with_key 1) signed ≡ tampered signature_reason)
    × (length signed.signature ≡ 16)
    × (decimal 1205 ≡ codes "1205")
unfolding verify attach decimal
checks = (refl, refl, refl, refl, refl)

verify_lem_example :
    ((verify new signed ≡ verified) ↔ (signed ≡ attach new signed.doc_id signed.commit_hash))
    × ((verify new signed ≡ tampered root_reason)
        ↔ (¬ (signed.merkle_root ≡ merkle_root signed.doc_id signed.commit_hash)))
    × ((verify new signed ≡ tampered signature_reason) ↔ (
        (signed.merkle_root ≡ merkle_root signed.doc_id signed.commit_hash)
        × (¬ (signed.signature ≡ sign signed.merkle_root new.key))))
verify_lem_example = verify_lem new signed

verify-attach_example :
    (verify new (attach (with_key 1) 7 (codes "abc")) ≡ verified) ↔ (new.key ≡ 1)
verify-attach_example = verify-attach new (with_key 1) 7 (codes "abc") (omega arith) (omega arith)

preimage_injective_example : (◌≡◌ {A = ℕ} 12 12) × (codes "3" ≡ codes "3")
preimage_injective_example = preimage_injective 12 12 (codes "3") (codes "3") refl
