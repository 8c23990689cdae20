-- ===== src/MatchRule/Agreement.antt =====
-- What a message that matches a rule has in common with it: DBusMatchRule::Matches of
-- src/DBusMatchRule.cpp.
use cxx_bus.Base.{
  ℕ, ◌≡◌, refl, sym, ap, ◌∙◌, Bool, true, false, ◌&&◌, List, [], ◌∷◌, Option, none, some,
  if◌then◌else◌, Text, text_eq, text_eq_iff, All, Bool-cases, inl, inr, arith, ok, >>=-eq-ok,
  ok-injective,
}
use cxx_bus.Incoming.{IncomingMessage, has_arguments, text_of}
use cxx_bus.MatchRule.{ArgInfo, MatchRule}
use cxx_bus.MatchRule.Arguments.{Walk, walk_signature}
use cxx_bus.MatchRule.Matching.{
  check_text, check_type, check_names, check_args, check_namespace, check_arg_paths,
  check_arg_namespace, check_header, matches, start,
}

-- What the rule has is what the message has.
abbrev pub Agrees : Option Text → Option Text → Type 0
Agrees rule none = rule ≡ none
Agrees none (some t) = Unit
Agrees (some s) (some t) = s ≡ t

check_text-Agrees : (value rule : Option Text) → check_text value rule ≡ true → Agrees rule value
unfolding check_text
check_text-Agrees none none h = refl
check_text-Agrees (some t) none h = tt
check_text-Agrees none (some s) h = absurd (cc h)
check_text-Agrees (some t) (some s) h = sym ((text_eq_iff t s).0 h)

check_names-All :
    (sender : Option Text) (names : List Text)
    → check_names sender names ≡ true
    → All (λ n. sender ≡ some n) names
unfolding check_names check_text
check_names-All sender [] h = tt
check_names-All none (n ∷ names) h = absurd (cc h)
check_names-All (some s) (n ∷ names) h = elim (Bool-cases (text_eq s n)) [
  | inl e ↦ (ap some ((text_eq_iff s n).0 e), check_names-All (some s) names (rw e at h))
  | inr e ↦ absurd (cc (rw e at h))
]

two_true : (a b : Bool) → a && b ≡ true → (a ≡ true) × (b ≡ true)
two_true a b h = ground arith

three_true : (a b c : Bool) → a && b && c ≡ true → (a ≡ true) × (b ≡ true) × (c ≡ true)
three_true a b c h = ground arith

six_true :
    (a b c d e f : Bool)
    → a && b && c && d && e && f ≡ true
    → (b ≡ true) × (c ≡ true) × (d ≡ true) × (e ≡ true) × (f ≡ true)
six_true a b c d e f h = ground arith

check_arg_paths-true :
    (args : List ArgInfo) (w : Walk) (m : Bool) → check_arg_paths args w m ≡ ok true → m ≡ true
unfolding check_arg_paths
check_arg_paths-true [] w m e = ok-injective e
check_arg_paths-true (a ∷ args) w true e = refl
check_arg_paths-true (a ∷ args) w false e = absurd (cc e)

-- A message that matches a rule has the sender, interface, member, path and destination that the
-- rule asks for; its path contains the path namespace of the rule; and its sender is equal to
-- every one of the well-known names, so that none of them is a name of another form.
pub matches-Agrees :
    (fuel : ℕ) (r : MatchRule) (m : IncomingMessage) (names : List Text)
    → matches fuel r m names ≡ ok true
    → Agrees r.sender m.header.sender_of
      × Agrees r.member m.header.method
      × Agrees r.interface m.header.interface_of
      × Agrees r.path m.header.object
      × Agrees r.destination m.header.destination_of
      × (check_namespace r.path_namespace m.header.object ≡ true)
      × All (λ n. m.header.sender_of ≡ some n) names
unfolding matches check_header
matches-Agrees fuel r m names e = elim (Bool-cases (check_header r m.header names)) [
  | inr z ↦ absurd (let bad : ok false ≡ ok true = rw z at e in cc bad)
  | inl q ↦
      let found =
        if has_arguments m
        then walk_signature fuel true (text_of m.header.signature_of) m.body start
        else ok start in
      let (w, ew, e') = >>=-eq-ok found _ (rw q at e) in
      let (p, ep, e'') = >>=-eq-ok (check_arg_paths r.arg_paths w _) _ e' in
      let both : p && check_arg_namespace r.arg_namespace w.strings ≡ true = ok-injective e'' in
      let whole = ap ok (two_true p (check_arg_namespace r.arg_namespace w.strings) both).0 in
      let (d, a, n) =
        three_true (check_text m.header.destination_of r.destination) (check_args r.args w.strings)
          (check_namespace r.path_namespace m.header.object)
          (check_arg_paths-true r.arg_paths w _ (ep ∙ whole)) in
      let (me, se, na, int, pa) =
        six_true (check_type m.header.message_type r.message_type)
          (check_text m.header.method r.member) (check_text m.header.sender_of r.sender)
          (check_names m.header.sender_of names) (check_text m.header.interface_of r.interface)
          (check_text m.header.object r.path) q in
      (
        check_text-Agrees m.header.sender_of r.sender se,
        check_text-Agrees m.header.method r.member me,
        check_text-Agrees m.header.interface_of r.interface int,
        check_text-Agrees m.header.object r.path pa,
        check_text-Agrees m.header.destination_of r.destination d,
        n,
        check_names-All m.header.sender_of names na,
      )
]
