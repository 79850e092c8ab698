-- ===== src/Coupling/Order.antt =====
-- The order of the findings.
use weave_graph.Common.{
  Bool, true, false, nat_eq, list_eq, text_le, text_le_total, text_le_trans, ◌≡◌,
}
use weave_graph.Policy.Order.{lex_parts, lex_total, lex_trans}
use weave_graph.Coupling.{SemanticCouplingFinding, finding_le}

module _ {Similarity : Type 0} where
  -- By the first file, and by the second one where the first is the same.
  abbrev pub InOrder :
      SemanticCouplingFinding Similarity → SemanticCouplingFinding Similarity → Type 0
  InOrder x y =
      (text_le x.file_a y.file_a ≡ true) × (x.file_a ≡ y.file_a → text_le x.file_b y.file_b ≡ true)

module _ {Similarity : Type 0} (below : Similarity → Similarity → Bool) where
  pub finding_le-InOrder :
      (x y : SemanticCouplingFinding Similarity) → finding_le below x y ≡ true → InOrder x y
  unfolding finding_le
  finding_le-InOrder x y h = lex_parts x.file_a y.file_a (text_le x.file_b y.file_b) h

  pub finding_le_total :
      (x y : SemanticCouplingFinding Similarity)
      → finding_le below x y ≡ false
      → finding_le below y x ≡ true
  unfolding finding_le
  finding_le_total x y =
      lex_total x.file_a y.file_a (text_le x.file_b y.file_b) (text_le y.file_b x.file_b)
        (text_le_total x.file_b y.file_b)

  pub finding_le_trans :
      (x y z : SemanticCouplingFinding Similarity)
      → finding_le below x y ≡ true
      → finding_le below y z ≡ true
      → finding_le below x z ≡ true
  unfolding finding_le
  finding_le_trans x y z =
      lex_trans x.file_a y.file_a z.file_a (text_le x.file_b y.file_b) (text_le y.file_b z.file_b)
        (text_le x.file_b z.file_b) (text_le_trans x.file_b y.file_b z.file_b)
