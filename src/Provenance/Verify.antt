-- ===== src/Provenance/Verify.antt =====
-- What verification accepts, and what it names for a record that was altered.
use weave_graph.Common.{
  get_or, Bool, not, if◌then◌else◌, sym, ap, ◌∙◌, Text, true, false, ◌==◌, ==_iff, nat_eq, list_eq,
  ◌≡◌, ◌↔◌, refl, arith,
}
use weave_graph.Provenance.{
  Provenance, VerifyResult, verified, tampered, MockProvenanceProvider, merkle_root, sign, attach,
  root_reason, signature_reason, verify,
}

-- The result by the two comparisons.
outcome : Bool → Bool → VerifyResult
outcome root signature =
    if not root
    then tampered root_reason
    else if not signature
    then tampered signature_reason
    else verified

reasons_differ : ¬ (root_reason ≡ signature_reason)
reasons_differ h = let first : b'm' ≡ b's' = ap (λ t. get_or t 0 0) h in omega (arith, first)

tampered_reason : (a b : Text) → tampered a ≡ tampered b → a ≡ b
tampered_reason a b h = cc h

outcome_iff :
    (r s : Bool)
    → ((outcome r s ≡ verified) ↔ ((r ≡ true) × (s ≡ true)))
      × ((outcome r s ≡ tampered root_reason) ↔ (r ≡ false))
      × ((outcome r s ≡ tampered signature_reason) ↔ ((r ≡ true) × (s ≡ false)))
unfolding outcome
outcome_iff false s = (
  (λ h. cc h, λ (h, _). cc h),
  (λ _. refl, λ _. refl),
  (λ h. absurd (reasons_differ (tampered_reason root_reason signature_reason h)), λ (h, _). cc h),
)
outcome_iff true false = (
  (λ h. cc h, λ (_, h). cc h),
  (λ h. absurd (reasons_differ (sym (tampered_reason signature_reason root_reason h))), λ h. cc h),
  (λ _. (refl, refl), λ _. refl),
)
outcome_iff true true =
    ((λ _. (refl, refl), λ _. refl), (λ h. cc h, λ h. cc h), (λ h. cc h, λ (_, h). cc h))

verify-outcome :
    (provider : MockProvenanceProvider) (p : Provenance)
    → verify provider p
      ≡ outcome
          (p.merkle_root == merkle_root p.doc_id p.commit_hash)
          (p.signature == sign p.merkle_root provider.key)
unfolding verify outcome
verify-outcome provider p = refl

pub attached_iff :
    (provider : MockProvenanceProvider) (p : Provenance)
    → (p ≡ attach provider p.doc_id p.commit_hash) ↔ (
        (p.merkle_root ≡ merkle_root p.doc_id p.commit_hash)
        × (p.signature ≡ sign p.merkle_root provider.key))
unfolding attach
attached_iff provider p = (
  λ h.
      let root : p.merkle_root ≡ merkle_root p.doc_id p.commit_hash = ap (λ q. q.merkle_root) h in
      (root, ap (λ q. q.signature) h ∙ ap (λ r. sign r provider.key) (sym root)),
  λ (r, s). λ i. record {
    doc_id = p.doc_id;
    commit_hash = p.commit_hash;
    merkle_root = r i;
    signature = (s ∙ ap (λ x. sign x provider.key) r) i;
  },
)

differs_iff : (a b : Text) → ((a == b) ≡ false) ↔ (¬ (a ≡ b))
differs_iff a b = ground (arith, ==_iff a b)

-- A record verifies exactly when it is the one that `attach` makes of its document and commit. Of
-- any other the reason is the root, if that does not recompute, and else the signature.
pub verify_lem :
    (provider : MockProvenanceProvider) (p : Provenance)
    → ((verify provider p ≡ verified) ↔ (p ≡ attach provider p.doc_id p.commit_hash))
      × ((verify provider p ≡ tampered root_reason)
          ↔ (¬ (p.merkle_root ≡ merkle_root p.doc_id p.commit_hash)))
      × ((verify provider p ≡ tampered signature_reason) ↔ (
          (p.merkle_root ≡ merkle_root p.doc_id p.commit_hash)
          × (¬ (p.signature ≡ sign p.merkle_root provider.key))))
verify_lem provider p =
    let r = p.merkle_root == merkle_root p.doc_id p.commit_hash in
    let s = p.signature == sign p.merkle_root provider.key in
    let (fine, root, signature) = outcome_iff r s in
    let root_same = ==_iff p.merkle_root (merkle_root p.doc_id p.commit_hash) in
    let signature_same = ==_iff p.signature (sign p.merkle_root provider.key) in
    let root_differs = differs_iff p.merkle_root (merkle_root p.doc_id p.commit_hash) in
    let signature_differs = differs_iff p.signature (sign p.merkle_root provider.key) in
    rw (verify-outcome provider p) (
      (
        λ h. (attached_iff provider p).1 (root_same.0 (fine.0 h).0, signature_same.0 (fine.0 h).1),
        λ h.
            let (a, b) = (attached_iff provider p).0 h in
            fine.1 (root_same.1 a, signature_same.1 b),
      ),
      (λ h. root_differs.0 (root.0 h), λ h. root.1 (root_differs.1 h)),
      (
        λ h. (root_same.0 (signature.0 h).0, signature_differs.0 (signature.0 h).1),
        λ (a, b). signature.1 (root_same.1 a, signature_differs.1 b),
      ),
    )
