-- ===== src/MatchRule/Building.antt =====
-- What the builder of src/DBusMatchRule.cpp keeps of a match rule.
use cxx_bus.Base.{
  ℕ, ◌≤◌, ◌≡◌, refl, sym, ◌∙◌, subst, Bool, true, false, List, [], ◌∷◌, ◌++◌, Option, none, some,
  ltb, arith, All, Text, Result, ok, ◌>>=◌, >>=-eq-ok, ok-injective, throw_if, invalid_match_rule,
}
use cxx_bus.Message.{
  MessageType, method_call, method_return, error, signal, invalid, none_type, optional,
}
use cxx_bus.Message.Fields.{IsProtocolType}
use cxx_bus.MatchRule.{
  ArgInfo, MatchRule, create, with_type, with_sender, with_interface, with_member, with_destination,
  with_argument_namespace, with_eavesdrop, with_path, with_path_namespace, with_argument,
  with_argument_path, is_some,
}

-- One call on the builder.
pub data Call : Type 0 where
  type_call : MessageType → Call
  sender_call interface_call member_call path_call path_namespace_call destination_call :
      Text → Call
  argument_call argument_path_call : ℕ → Text → Call
  argument_namespace_call : Text → Call
  eavesdrop_call : Bool → Call

abbrev pub apply : Call → MatchRule → Result MatchRule
apply (type_call t) r = with_type t r
apply (sender_call s) r = ok (with_sender s r)
apply (interface_call s) r = ok (with_interface s r)
apply (member_call s) r = ok (with_member s r)
apply (path_call s) r = with_path s r
apply (path_namespace_call s) r = with_path_namespace s r
apply (destination_call s) r = ok (with_destination s r)
apply (argument_call i s) r = with_argument i s r
apply (argument_path_call i s) r = with_argument_path i s r
apply (argument_namespace_call s) r = ok (with_argument_namespace s r)
apply (eavesdrop_call b) r = ok (with_eavesdrop b r)

-- A chain of calls, the first one first.
abbrev pub build : List Call → MatchRule → Result MatchRule
build [] r = ok r
build (c ∷ cs) r = apply c r >>= build cs

abbrev IsTypeValid : Option MessageType → Type 0
IsTypeValid none = Unit
IsTypeValid (some t) = IsProtocolType t

-- The type is one of the protocol's, not both of path and namespace are set, and no index of an
-- argument is above 63.
abbrev pub IsValid : MatchRule → Type 0
IsValid r =
    IsTypeValid r.message_type
    × (is_some r.path ≡ true → is_some r.path_namespace ≡ false)
    × All (λ a. ArgInfo.index a ≤ 63) r.args
    × All (λ a. ArgInfo.index a ≤ 63) r.arg_paths

All-append :
    {A : Type 0} (P : A → Type 0) (xs : List A) (y : A) → All P xs → P y → All P (xs ++ y ∷ [])
All-append P [] y h k = (k, tt)
All-append P (x ∷ xs) y h k = (h.0, All-append P xs y h.1 k)

checked :
    (b : Bool) (x : Result MatchRule) (s : MatchRule)
    → (throw_if b invalid_match_rule >>= λ _. x) ≡ ok s
    → (b ≡ false) × (x ≡ ok s)
checked true x s e = absurd (cc e)
checked false x s e = (refl, e)

with_type-IsValid :
    (t : MessageType) (r s : MatchRule) → IsValid r → with_type t r ≡ ok s → IsValid s
unfolding with_type
with_type-IsValid invalid r s h e = absurd (cc e)
with_type-IsValid none_type r s h e = absurd (cc e)
with_type-IsValid optional r s h e = absurd (cc e)
with_type-IsValid method_call r s h e = subst IsValid (ok-injective e) (tt, h.1, h.2, h.3)
with_type-IsValid method_return r s h e = subst IsValid (ok-injective e) (tt, h.1, h.2, h.3)
with_type-IsValid error r s h e = subst IsValid (ok-injective e) (tt, h.1, h.2, h.3)
with_type-IsValid signal r s h e = subst IsValid (ok-injective e) (tt, h.1, h.2, h.3)

abbrev IsIndex : ArgInfo → Type 0
IsIndex a = a.index ≤ 63

apply-IsValid : (c : Call) (r s : MatchRule) → IsValid r → apply c r ≡ ok s → IsValid s
unfolding with_sender with_interface with_member with_destination with_argument_namespace
    with_eavesdrop with_path with_path_namespace with_argument with_argument_path
apply-IsValid (type_call t) r s h e = with_type-IsValid t r s h e
apply-IsValid (sender_call n) r s h e = subst IsValid (ok-injective e) h
apply-IsValid (interface_call n) r s h e = subst IsValid (ok-injective e) h
apply-IsValid (member_call n) r s h e = subst IsValid (ok-injective e) h
apply-IsValid (destination_call n) r s h e = subst IsValid (ok-injective e) h
apply-IsValid (argument_namespace_call n) r s h e = subst IsValid (ok-injective e) h
apply-IsValid (eavesdrop_call b) r s h e = subst IsValid (ok-injective e) h
apply-IsValid (path_call p) r s h e =
    let (no_namespace, e') = checked (is_some r.path_namespace) _ s e in
    subst IsValid (ok-injective e') (h.0, (λ q. no_namespace), h.2, h.3)
apply-IsValid (path_namespace_call p) r s h e =
    let (no_path, e') = checked (is_some r.path) _ s e in
    subst IsValid (ok-injective e')
      (h.0, (λ q. let bad : true ≡ false = sym q ∙ no_path in absurd (cc bad)), h.2, h.3)
apply-IsValid (argument_call i n) r s h e =
    let (small, e') = checked (ltb 63 i) _ s e in
    subst IsValid (ok-injective e')
      (h.0, h.1, All-append IsIndex r.args (record { name = n; index = i }) h.2 (ground arith), h.3)
apply-IsValid (argument_path_call i n) r s h e =
    let (small, e') = checked (ltb 63 i) _ s e in
    subst IsValid (ok-injective e') (
      h.0,
      h.1,
      h.2,
      All-append IsIndex r.arg_paths (record { name = n; index = i }) h.3 (ground arith),
    )

build-IsValid_from : (cs : List Call) (r s : MatchRule) → IsValid r → build cs r ≡ ok s → IsValid s
build-IsValid_from [] r s h e = subst IsValid (ok-injective e) h
build-IsValid_from (c ∷ cs) r s h e =
    let (m, em, e') = >>=-eq-ok (apply c r) (build cs) e in
    build-IsValid_from cs m s (apply-IsValid c r m h em) e'

-- A match rule that any chain of calls on the builder has made, none of which threw, has a type of
-- the protocol or none, not both a path and a path namespace, and no argument index above 63.
pub build-IsValid : (cs : List Call) (s : MatchRule) → build cs create ≡ ok s → IsValid s
build-IsValid cs s e = build-IsValid_from cs create s (tt, (λ q. refl), tt, tt) e
