-- ===== src/Policy/Rules.antt =====
-- Which violations a lint reports, in which order, and what the current roles change.
use mathlib.Core.List.{Perm}
use weave_graph.Common.{
  [], ◌∷◌, take, ap, ◌∙◌, ◌⊎◌, Option-cases, sort, sort-perm, Pairwise, IsSorted-Pairwise, Text,
  codes, List, filter_map, is_empty, In, In-filter_map, filter_map-In, true, false, Bool-cases,
  none, some, ◌≡◌, refl, sym, ◌↔◌, inl, inr, nat_eq, list_eq, In-sort, sort-IsSorted,
}
use weave_graph.Model.{Node, Edge}
use weave_graph.Policy.{
  BoundaryRule, disallow, require, boundary, Violation, exempt, crossing, example_of, report,
  kind_of, check_rule, violation_le, lint_scoped,
}
use weave_graph.Policy.Crossing.{Waived, Waived-iff, SomeCrosses, some_crosses, crosses_some}
use weave_graph.Policy.Order.{InOrder, violation_le-InOrder, violation_le_total, violation_le_trans}

module _ {Weight : Type 0} (nodes : List Node) (edges : List (Edge Weight)) where
  -- The rule does not hold of the graph.
  abbrev pub Breaks : BoundaryRule → Type 0
  Breaks (disallow b) = SomeCrosses nodes edges b
  Breaks (require b) = ¬ SomeCrosses nodes edges b

  -- The rule is broken, and no current role waives it.
  abbrev pub Fails : List Text → BoundaryRule → Type 0
  Fails roles rule = (¬ Waived (boundary rule) roles) × Breaks rule

  -- The report on a broken rule: its kind, its two prefixes, its owner, and the first five crossing
  -- edges whose two nodes are known, as examples.
  abbrev pub report_of : BoundaryRule → Violation
  report_of (disallow b) = record {
    kind = codes "disallow";
    from = b.from;
    to = b.to;
    examples = filter_map (example_of nodes) (take 5 (crossing nodes edges b));
    owner_role = b.owner_role;
  }
  report_of (require b) = record {
    kind = codes "require";
    from = b.from;
    to = b.to;
    examples = filter_map (example_of nodes) (take 5 (crossing nodes edges b));
    owner_role = b.owner_role;
  }

  -- One report for each rule that fails, in the order of the rules.
  abbrev pub Reports : List Text → List BoundaryRule → List Violation → Type 0
  Reports roles [] reports = reports ≡ []
  Reports roles (rule ∷ rules) reports =
      (Fails roles rule
        × ((rest : List Violation) × (reports ≡ report_of rule ∷ rest) × Reports roles rules rest))
      ⊎ (¬ Fails roles rule) × Reports roles rules reports

  skipped :
      (roles : List Text) (rule : BoundaryRule)
      → exempt (boundary rule) roles ≡ true
      → check_rule nodes edges roles rule ≡ none
  unfolding check_rule
  skipped roles rule waived = rw waived refl

  checked :
      (roles : List Text) (rule : BoundaryRule) (v : Violation)
      → exempt (boundary rule) roles ≡ false
      → (check_rule nodes edges roles rule ≡ some v) ↔ (Breaks rule × (v ≡ report_of rule))
  unfolding check_rule kind_of boundary report
  checked roles (disallow b) v free = elim (Bool-cases (is_empty (crossing nodes edges b))) [
    | inl e ↦ rw (free, e) (λ h. cc, λ (c, l). cc (e, crosses_some nodes edges b c))
    | inr e ↦ rw (free, e) (λ h. (some_crosses nodes edges b e, cc h), λ (c, l). cc l)
  ]
  checked roles (require b) v free = elim (Bool-cases (is_empty (crossing nodes edges b))) [
    | inl e ↦ rw (free, e) (λ h. (λ c. cc (e, crosses_some nodes edges b c), cc h), λ (c, l). cc l)
    | inr e ↦ rw (free, e) (λ h. cc, λ (c, l). absurd (c (some_crosses nodes edges b e)))
  ]

  check_rule_iff :
      (roles : List Text) (rule : BoundaryRule) (v : Violation)
      → (check_rule nodes edges roles rule ≡ some v)
        ↔ ((¬ Waived (boundary rule) roles) × Breaks rule × (v ≡ report_of rule))
  check_rule_iff roles rule v = elim (Bool-cases (exempt (boundary rule) roles)) [
    | inl waived ↦ (
      λ h. cc (h, skipped roles rule waived),
      λ (h, k, l). absurd (h ((Waived-iff (boundary rule) roles).0 waived)),
    )
    | inr free ↦ (
      λ h.
          let (broken, same) = (checked roles rule v free).0 h in
          (λ w. cc (free, (Waived-iff (boundary rule) roles).1 w), broken, same),
      λ (h, k, l). (checked roles rule v free).1 (k, l),
    )
  ]

  check_rules-Reports :
      (roles : List Text) (rules : List BoundaryRule)
      → Reports roles rules (filter_map (check_rule nodes edges roles) rules)
  check_rules-Reports roles [] = refl
  check_rules-Reports roles (rule ∷ rules) =
      elim (Option-cases (check_rule nodes edges roles rule)) [
        | inl e ↦
            let holds : ¬ Fails roles rule = λ (free, broken).
              let reported : none ≡ some (report_of rule) =
                sym e ∙ (check_rule_iff roles rule (report_of rule)).1 (free, broken, refl) in
              absurd (cc reported) in
            rw (e, filter_map) (inr (holds, check_rules-Reports roles rules))
        | inr (v, e) ↦
            let (free, broken, same) = (check_rule_iff roles rule v).0 e in
            let rest = filter_map (check_rule nodes edges roles) rules in
            rw (e, filter_map)
              (inl
                ((free, broken), (rest, ap (λ r. r ∷ rest) same, check_rules-Reports roles rules)))
      ]

  -- The report lists exactly one violation for each rule that is broken and that no current role
  -- waives, with the rule's kind, prefixes and owner. They are sorted by kind, source prefix and
  -- target prefix. A disallowed boundary is broken when the paths of some edge's ends lie under its
  -- prefixes, a required one when this is so of no edge. An allow-list waives its rule as soon as it
  -- shares one role with the current ones.
  pub lint_scoped_lem :
      (rules : List BoundaryRule) (roles : List Text)
      → Pairwise InOrder (lint_scoped nodes edges rules roles)
        × ((reports : List Violation) × Reports roles rules reports
            × Perm (lint_scoped nodes edges rules roles) reports)
        × ((v : Violation)
            → In v (lint_scoped nodes edges rules roles) ↔ (
                (rule : BoundaryRule) × In rule rules
                × (¬ Waived (boundary rule) roles)
                × Breaks rule
                × (v ≡ report_of rule)))
  unfolding lint_scoped
  lint_scoped_lem rules roles =
      let reports = filter_map (check_rule nodes edges roles) rules in
      (
        IsSorted-Pairwise violation_le InOrder violation_le-InOrder (sort violation_le reports)
            (sort-IsSorted violation_le violation_le_total violation_le_trans reports),
        (reports, check_rules-Reports roles rules, sort-perm violation_le reports),
        λ v. (
          λ m.
              let (rule, k, e) =
                In-filter_map (check_rule nodes edges roles) rules v
                  ((In-sort violation_le v reports).0 m) in
              let (free, broken, same) = (check_rule_iff roles rule v).0 e in
              (rule, k, free, broken, same),
          λ (rule, k, free, broken, same). (In-sort violation_le v reports).1 (
              filter_map-In (check_rule nodes edges roles) rules rule v k
                ((check_rule_iff roles rule v).1 (free, broken, same))),
        ),
      )

  -- More roles report no more: a violation under the roles `more` is one under any part of them.
  pub lint_scoped-fewer_roles :
      (rules : List BoundaryRule) (roles more : List Text)
      → ((role : Text) → In role roles → In role more)
      → (v : Violation) → In v (lint_scoped nodes edges rules more)
      → In v (lint_scoped nodes edges rules roles)
  lint_scoped-fewer_roles rules roles more sub v m =
      let (rule, k, free, broken, same) = ((lint_scoped_lem rules more).2 v).0 m in
      ((lint_scoped_lem rules roles).2 v).1
        (rule, k, λ (role, a, c). free (role, a, sub role c), broken, same)
