-- ===== src/MatchRule/Empty.antt =====
-- When GetRule of src/DBusMatchRule.cpp throws.
use cxx_bus.Base.{
  ℕ, ◌≡◌, ◌↔◌, refl, List, [], ◌∷◌, Option, none, some, Text, ok, err, ◌>>=◌, throw_if,
  empty_match_rule,
}
use cxx_bus.MatchRule.{
  ArgInfo, MatchRule, create, add_to_rule, add_optional, add_arguments, type_string, rule_text,
  is_empty_text, get_rule, map_option, truth,
}

add_optional_inv :
    (o : Option Text) (c : ℕ) (key rule : Text)
    → add_optional o (c ∷ key) rule ≡ []
    → (o ≡ none) × (rule ≡ [])
unfolding add_optional add_to_rule
add_optional_inv none c key rule e = (refl, e)
add_optional_inv (some v) c key [] e = absurd (cc e)
add_optional_inv (some v) c key (d ∷ rule) e = absurd (cc e)

add_arguments_inv :
    (args : List ArgInfo) (suffix rule : Text)
    → add_arguments args suffix rule ≡ []
    → (args ≡ []) × (rule ≡ [])
unfolding add_arguments add_to_rule
add_arguments_inv [] suffix rule e = (refl, e)
add_arguments_inv (a ∷ args) suffix [] e =
    absurd (let (x, y) = add_arguments_inv args suffix _ e in cc y)
add_arguments_inv (a ∷ args) suffix (d ∷ rule) e =
    absurd (let (x, y) = add_arguments_inv args suffix _ e in cc y)

map_option_inv : {A : Type 0} (f : A → Text) (o : Option A) → map_option f o ≡ none → o ≡ none
map_option_inv f none e = refl
map_option_inv f (some a) e = absurd (cc e)

rule_text_inv : (r : MatchRule) → rule_text r ≡ [] → r ≡ create
unfolding rule_text
rule_text_inv r e11 =
    let (q11, e10) = add_optional_inv _ _ _ _ e11 in
    let (q10, e9) = add_optional_inv _ _ _ _ e10 in
    let (q9, e8) = add_arguments_inv _ _ _ e9 in
    let (q8, e7) = add_arguments_inv _ _ _ e8 in
    let (q7, e6) = add_optional_inv _ _ _ _ e7 in
    let (q6, e5) = add_optional_inv _ _ _ _ e6 in
    let (q5, e4) = add_optional_inv _ _ _ _ e5 in
    let (q4, e3) = add_optional_inv _ _ _ _ e4 in
    let (q3, e2) = add_optional_inv _ _ _ _ e3 in
    let (q2, e1) = add_optional_inv _ _ _ _ e2 in
    let (q1, e0) = add_optional_inv _ _ _ _ e1 in
    let p1 : r.message_type ≡ none = map_option_inv type_string r.message_type q1 in
    let p11 : r.eavesdrop ≡ none = map_option_inv truth r.eavesdrop q11 in
    λ i. record {
      message_type = p1 i;
      sender = q2 i;
      interface = q3 i;
      member = q4 i;
      path = q5 i;
      path_namespace = q6 i;
      destination = q7 i;
      args = q8 i;
      arg_paths = q9 i;
      arg_namespace = q10 i;
      eavesdrop = p11 i;
    }

-- GetRule throws exactly on the rule that Create gives, on which nothing has been set.
pub get_rule-create : (r : MatchRule) → (get_rule r ≡ err empty_match_rule) ↔ (r ≡ create)
unfolding get_rule rule_text add_optional add_arguments
get_rule-create r = (λ e. rule_text_inv r (thrown (rule_text r) e), λ e. rw e blank)
  where
    thrown :
        (t : Text)
        → (throw_if (is_empty_text t) empty_match_rule >>= λ _. ok t) ≡ err empty_match_rule
        → t ≡ []
    thrown [] e = refl
    thrown (c ∷ cs) e = absurd (cc e)

    blank : get_rule create ≡ err empty_match_rule
    blank = refl
