-- ===== src/Provenance/Keys.antt =====
-- The signature of the mock provider depends on its key.
use weave_graph.Common.{ℕ, ◌^◌, ◌<◌, Text, ◌≡◌, ◌↔◌, refl, sym, ap}
use weave_graph.Provenance.{verified, MockProvenanceProvider, merkle_root, sign, attach, verify}
use weave_graph.Provenance.Hash.{fnv1a-small, fnv1a_injective}
use weave_graph.Provenance.Hex.{hex_injective, hex-small}
use weave_graph.Provenance.Verify.{verify_lem, attached_iff}

sign_injective :
    (doc_id : ℕ) (commit_hash : Text) (a b : ℕ)
    → a < 2 ^ 64
    → b < 2 ^ 64
    → sign (merkle_root doc_id commit_hash) a ≡ sign (merkle_root doc_id commit_hash) b
    → a ≡ b
unfolding sign merkle_root
sign_injective doc_id commit_hash a b h k e =
    let root = merkle_root doc_id commit_hash in
    fnv1a_injective root a b (hex-small 16 _) h k
      (hex_injective 16 _ _ (fnv1a-small root a h) (fnv1a-small root b k) e)

-- A record that one provider attaches verifies under another exactly when the two have the same
-- 64-bit key.
pub verify-attach :
    (provider other : MockProvenanceProvider) (doc_id : ℕ) (commit_hash : Text)
    → provider.key < 2 ^ 64
    → other.key < 2 ^ 64
    → (verify provider (attach other doc_id commit_hash) ≡ verified) ↔ (provider.key ≡ other.key)
unfolding attach
verify-attach provider other doc_id commit_hash h k =
    let p = attach other doc_id commit_hash in
    let ((to, from), _, _) = verify_lem provider p in
    let (same, back) = attached_iff provider p in
    (
      λ v. sign_injective doc_id commit_hash provider.key other.key h k (sym (same (to v)).1),
      λ e. from (back (refl, ap (sign (merkle_root doc_id commit_hash)) (sym e))),
    )
