-- ===== src/Connection/Registry.antt =====
-- The registry of match rules of AddMatchRuleImpl and RemoveMatchRuleImpl of src/DBusConnection.txx, as
-- the handlers of each rule.
use mathlib.Core.Logic.{ite, if_pos, if_neg}
use cxx_bus.Base.{◌≡◌, ◌≢◌, refl, sym, ◌∙◌, subst, Bool, List, [], ◌∷◌, ◌++◌}
use cxx_bus.MatchRule.{MatchRule}
use cxx_bus.Connection.State.{MatchRuleInfo}
use cxx_bus.Connection.Requests.{MatchRule-discrete, add_rule, remove_rule}

-- The handlers of a rule are those of its first entry.
module _ {F : Type 0} where
  abbrev pub registered : MatchRule → List (MatchRuleInfo F) → List F
  registered r [] = []
  registered r (i ∷ infos) = ite (MatchRule-discrete i.rule r) i.callbacks (registered r infos)

  -- No entry is for the rule, and no two entries are for one rule.
  abbrev Absent : MatchRule → List (MatchRuleInfo F) → Type 0
  Absent r [] = Unit
  Absent r (i ∷ infos) = (i.rule ≢ r) × Absent r infos

  abbrev pub Distinct : List (MatchRuleInfo F) → Type 0
  Distinct [] = Unit
  Distinct (i ∷ infos) = Absent i.rule infos × Distinct infos

  registered-Absent :
      (r : MatchRule) (infos : List (MatchRuleInfo F)) → Absent r infos → registered r infos ≡ []
  registered-Absent r [] a = refl
  registered-Absent r (i ∷ infos) a = rw (if_neg _ a.0) (registered-Absent r infos a.1)

  pub registered-add :
      (r q : MatchRule) (c : F) (u : Bool) (infos : List (MatchRuleInfo F))
      → registered r (add_rule q c u infos)
        ≡ ite (MatchRule-discrete q r) (registered r infos ++ (c ∷ [])) (registered r infos)
  unfolding add_rule
  registered-add r q c u [] = refl
  registered-add r q c u (i ∷ infos) = elim (MatchRule-discrete i.rule q) [
    | yes same ↦ elim (MatchRule-discrete q r) [
      | yes own ↦
          rw (if_pos _ same, if_pos _ own, if_pos _ (same ∙ own), if_pos _ (same ∙ own)) refl
      | no other ↦
          let apart : i.rule ≢ r = λ e. other (sym same ∙ e) in
          rw (if_pos _ same, if_neg _ other, if_neg _ apart, if_neg _ apart) refl
    ]
    | no apart ↦ elim (MatchRule-discrete i.rule r) [
      | yes own ↦
          let other : q ≢ r = λ e. apart (own ∙ sym e) in
          rw (if_neg _ apart, if_pos _ own, if_neg _ other, if_pos _ own) refl
      | no foreign ↦
          rw (if_neg _ apart, if_neg _ foreign, if_neg _ foreign) (registered-add r q c u infos)
    ]
  ]

  Absent-add :
      (r q : MatchRule) (c : F) (u : Bool) (infos : List (MatchRuleInfo F))
      → q ≢ r
      → Absent r infos
      → Absent r (add_rule q c u infos)
  unfolding add_rule
  Absent-add r q c u [] other a = (other, tt)
  Absent-add r q c u (i ∷ infos) other a = elim (MatchRule-discrete i.rule q) [
    | yes same ↦ rw (if_pos _ same) a
    | no apart ↦ rw (if_neg _ apart) (a.0, Absent-add r q c u infos other a.1)
  ]

  pub Distinct-add :
      (q : MatchRule) (c : F) (u : Bool) (infos : List (MatchRuleInfo F))
      → Distinct infos
      → Distinct (add_rule q c u infos)
  unfolding add_rule
  Distinct-add q c u [] d = (tt, tt)
  Distinct-add q c u (i ∷ infos) d = elim (MatchRule-discrete i.rule q) [
    | yes same ↦ rw (if_pos _ same) d
    | no apart ↦
        rw (if_neg _ apart)
          (Absent-add i.rule q c u infos (λ e. apart (sym e)) d.0, Distinct-add q c u infos d.1)
  ]

  pub registered-remove :
      (r q : MatchRule) (infos : List (MatchRuleInfo F))
      → Distinct infos
      → registered r (remove_rule q infos) ≡ ite (MatchRule-discrete q r) [] (registered r infos)
  unfolding remove_rule
  registered-remove r q [] d = elim (MatchRule-discrete q r) [
    | yes own ↦ rw (if_pos _ own) refl
    | no other ↦ rw (if_neg _ other) refl
  ]
  registered-remove r q (i ∷ infos) d = elim (MatchRule-discrete i.rule q) [
    | yes same ↦ elim (MatchRule-discrete q r) [
      | yes own ↦
          rw (if_pos _ same, if_pos _ own)
            (registered-Absent r infos (subst (λ x. Absent x infos) (same ∙ own) d.0))
      | no other ↦
          let apart : i.rule ≢ r = λ e. other (sym same ∙ e) in
          rw (if_pos _ same, if_neg _ other, if_neg _ apart) refl
    ]
    | no apart ↦ elim (MatchRule-discrete i.rule r) [
      | yes own ↦
          let other : q ≢ r = λ e. apart (own ∙ sym e) in
          rw (if_neg _ apart, if_pos _ own, if_neg _ other, if_pos _ own) refl
      | no foreign ↦
          rw (if_neg _ apart, if_neg _ foreign, if_neg _ foreign) (registered-remove r q infos d.1)
    ]
  ]

  Absent-remove :
      (r q : MatchRule) (infos : List (MatchRuleInfo F))
      → Absent r infos
      → Absent r (remove_rule q infos)
  unfolding remove_rule
  Absent-remove r q [] a = tt
  Absent-remove r q (i ∷ infos) a = elim (MatchRule-discrete i.rule q) [
    | yes same ↦ rw (if_pos _ same) a.1
    | no apart ↦ rw (if_neg _ apart) (a.0, Absent-remove r q infos a.1)
  ]

  pub Distinct-remove :
      (q : MatchRule) (infos : List (MatchRuleInfo F))
      → Distinct infos
      → Distinct (remove_rule q infos)
  unfolding remove_rule
  Distinct-remove q [] d = tt
  Distinct-remove q (i ∷ infos) d = elim (MatchRule-discrete i.rule q) [
    | yes same ↦ rw (if_pos _ same) d.1
    | no apart ↦ rw (if_neg _ apart) (Absent-remove i.rule q infos d.0, Distinct-remove q infos d.1)
  ]
