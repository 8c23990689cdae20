-- ===== src/MatchRule/Paths.antt =====
-- Path-like arguments of match rules: SplitString and IsPathPrefixed of src/DBusMatchRule.cpp.
use cxx_bus.Base.{Bool, true, false, ◌&&◌, List, [], ◌∷◌, ◌++◌, ◌==◌, if◌then◌else◌, Text, text_eq}

-- A piece without the empty ones, which SplitString removes at the end.
abbrev pub flush : Text → List Text
flush [] = []
flush (c ∷ cs) = (c ∷ cs) ∷ []

-- The `getline` loop at the delimiter `/`, with what the current line has so far. Each delimiter is
-- a piece of its own.
unfoldable pub split_from : Text → Text → List Text
split_from line [] = flush line
split_from line (c ∷ cs) =
    let ended = flush line ++ ((b'/' ∷ []) ∷ split_from [] cs) in
    let longer = split_from (line ++ c ∷ []) cs in if c == b'/' then ended else longer

-- SplitString at `/`.
unfoldable pub split_string : Text → List Text
split_string s = split_from [] s

unfoldable pub is_path_prefixed : List Text → List Text → Bool
is_path_prefixed [] check = true
is_path_prefixed (r ∷ rule) [] = false
is_path_prefixed (r ∷ rule) (c ∷ check) = text_eq c r && is_path_prefixed rule check

-- `std::string::starts_with`, and `contains` at a string.
unfoldable pub starts_with : Text → Text → Bool
starts_with s [] = true
starts_with [] (p ∷ ps) = false
starts_with (c ∷ s) (p ∷ ps) = (c == p) && starts_with s ps

unfoldable pub contains_text : Text → Text → Bool
unfolding starts_with
contains_text [] p = starts_with [] p
contains_text (c ∷ s) p = if starts_with (c ∷ s) p then true else contains_text s p
