-- ===== src/Policy/Order.antt =====
-- The order of violations, and how a lint report lists them.
use weave_graph.Common.{
  Text, true, false, ◌≡◌, arith, ==_iff, nat_eq, list_eq, text_le, text_le_refl, text_le_total,
  text_le_trans, text_le_antisymm, Bool,
}
use weave_graph.Policy.{lex, violation_le, Violation}

pub lex_total :
    (a b : Text) (p q : Bool) → (p ≡ false → q ≡ true) → lex a b p ≡ false → lex b a q ≡ true
lex_total a b p q h e = ground (arith, ==_iff a b, ==_iff b a, text_le_total a b)

pub lex_trans :
    (a b c : Text) (p q r : Bool)
    → (p ≡ true → q ≡ true → r ≡ true)
    → lex a b p ≡ true
    → lex b c q ≡ true
    → lex a c r ≡ true
lex_trans a b c p q r h e k = ground (
  arith,
  ==_iff a b,
  ==_iff b c,
  ==_iff a c,
  text_le_trans a b c,
  text_le_antisymm a b,
  text_le_refl a,
)

-- What the test says of its two parts.
pub lex_parts :
    (a b : Text) (p : Bool) → lex a b p ≡ true → (text_le a b ≡ true) × (a ≡ b → p ≡ true)
lex_parts a b p h = ground (arith, ==_iff a b, text_le_refl a)

-- By the kind, then by the source prefix, then by the target prefix.
abbrev pub InOrder : Violation → Violation → Type 0
InOrder a b =
    (text_le a.kind b.kind ≡ true)
    × (a.kind ≡ b.kind
        → (text_le a.from b.from ≡ true) × (a.from ≡ b.from → text_le a.to b.to ≡ true))

pub violation_le-InOrder : (a b : Violation) → violation_le a b ≡ true → InOrder a b
unfolding violation_le
violation_le-InOrder a b h =
    let (first, rest) = lex_parts a.kind b.kind (lex a.from b.from (text_le a.to b.to)) h in
    (first, λ same. lex_parts a.from b.from (text_le a.to b.to) (rest same))

pub violation_le_total : (a b : Violation) → violation_le a b ≡ false → violation_le b a ≡ true
unfolding violation_le
violation_le_total a b =
    lex_total a.kind b.kind (lex a.from b.from (text_le a.to b.to))
      (lex b.from a.from (text_le b.to a.to))
      (lex_total a.from b.from (text_le a.to b.to) (text_le b.to a.to) (text_le_total a.to b.to))

pub violation_le_trans :
    (a b c : Violation)
    → violation_le a b ≡ true
    → violation_le b c ≡ true
    → violation_le a c ≡ true
unfolding violation_le
violation_le_trans a b c =
    lex_trans a.kind b.kind c.kind (lex a.from b.from (text_le a.to b.to))
      (lex b.from c.from (text_le b.to c.to)) (lex a.from c.from (text_le a.to c.to))
      (lex_trans a.from b.from c.from (text_le a.to b.to) (text_le b.to c.to) (text_le a.to c.to)
        (text_le_trans a.to b.to c.to))
