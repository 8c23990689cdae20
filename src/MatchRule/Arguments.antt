-- ===== src/MatchRule/Arguments.antt =====
-- The string and object path arguments of a message body: WalkSignature of src/DBusMatchRule.cpp.
-- A span or an index outside its container is undefined, and here the error `out_of_bounds`.
use cxx_bus.Base.{
  ℕ, zero, suc, ◌+◌, ◌%◌, Bool, true, false, List, [], ◌∷◌, Option, none, some, ◌==◌, if◌then◌else◌,
  Text, drop, codes, add32, Result, ok, err, internal, out_of_bounds, out_of_fuel, ◌>>=◌,
}
use cxx_bus.Names.{object_path as make_object_path}
use cxx_bus.TypeCodes.{TypeCode, type_code, alignment_of_signature}
use cxx_bus.Codec.Types.{uint8, uint32, string, signature, word, text, basic}
use cxx_bus.Codec.Bytes.{Bytes, skip_padding, read_bytes, add_padding_to_size}
use cxx_bus.Codec.Unmarshal.{unmarshal_type}

-- The arguments found so far, by their index: a key that is there stays.
abbrev pub Arguments : Type 0
Arguments = List (ℕ × Text)

unfoldable pub find_argument : ℕ → Arguments → Option Text
find_argument i [] = none
find_argument i ((k, s) ∷ args) = let rest = find_argument i args in if k == i then some s else rest

abbrev insert_new : Option Text → ℕ → Text → Arguments → Arguments
insert_new none i s args = (i, s) ∷ args
insert_new (some t) i s args = args

unfoldable pub insert_argument : ℕ → Text → Arguments → Arguments
insert_argument i s args = insert_new (find_argument i args) i s args

-- What WalkSignature changes: `pointer`, `argIndex` and the two maps.
pub record Walk : Type 0 where
  pub pointer : ℕ
  pub arg_index : ℕ
  pub strings : Arguments
  pub object_paths : Arguments

-- `signature.GetSignature()[i + k]`, with what the signature holds from `i` on.
unfoldable pub char_at : Text → ℕ → Result ℕ
char_at [] zero = ok 0
char_at [] (suc k) = err out_of_bounds
char_at (c ∷ cs) zero = ok c
char_at (c ∷ cs) (suc k) = char_at cs k

-- A `uint32_t` and a `uint8_t` in the body, through a span of their size.
unfoldable pub number_at : Bytes → ℕ → Result ℕ
number_at body pointer = do
  span ← read_bytes 4 body pointer
  unmarshal_type (basic (word uint32)) span (codes "u")

unfoldable pub byte_at : Bytes → ℕ → Result ℕ
byte_at body pointer = do
  span ← read_bytes 1 body pointer
  unmarshal_type (basic (word uint8)) span (codes "y")

-- A string of `size` characters, through a span over its length, its characters and its terminator.
unfoldable pub string_at : ℕ → Bytes → ℕ → Result Text
string_at size body pointer = do
  span ← read_bytes (size + 5) body pointer
  unmarshal_type (basic (text string)) span (codes "s")

-- The loop over `bracketCounter`: what follows the bracket that closes the dictionary.
unfoldable pub skip_brackets : ℕ → Text → Result Text
skip_brackets zero rest = ok rest
skip_brackets (suc depth) [] = err out_of_bounds
skip_brackets (suc depth) (c ∷ cs) =
    let closed = skip_brackets depth cs in
    let opened = skip_brackets (suc (suc depth)) cs in
    let same = skip_brackets (suc depth) cs in
    if c == b'}' then closed else if c == b'{' then opened else same

abbrev advance : Walk → ℕ → Walk
advance w n = record w { pointer = add32 w.pointer n }

-- STRING and OBJECT_PATH: `insert` makes an ObjectPath of the string, which can throw.
unfoldable pub walk_string : Bool → Bytes → Walk → Result Walk
walk_string true body w = do
  size ← number_at body w.pointer
  s ← string_at size body w.pointer
  ok (record (advance w (size + 5)) { strings = insert_argument w.arg_index s w.strings })
walk_string false body w = do size ← number_at body w.pointer; ok (advance w (size + 5))

unfoldable pub walk_object_path : Bool → Bytes → Walk → Result Walk
walk_object_path true body w = do
  size ← number_at body w.pointer
  s ← string_at size body w.pointer
  p ← make_object_path s
  ok (record (advance w (size + 5)) { object_paths = insert_argument w.arg_index p w.object_paths })
walk_object_path false body w = do size ← number_at body w.pointer; ok (advance w (size + 5))

unfoldable pub walk_signature_value : Bytes → Walk → Result Walk
walk_signature_value body w = do size ← byte_at body w.pointer; ok (advance w (size + 2))

-- ARRAY, with the signature behind its code: a dictionary is left to the next round, and of any
-- other element type one character is skipped.
unfoldable pub walk_array : Text → Bytes → Walk → Result (Text × Walk)
walk_array rest body w = do
  next ← char_at rest 0
  if next == b'{' then ok (rest, w) else do
    size ← number_at body w.pointer
    alignment ← alignment_of_signature next
    let begin = (add_padding_to_size (add32 w.pointer 4) alignment).0
    ok (drop 1 rest, record w { pointer = add32 begin size })

unfoldable pub walk_dict : Text → Bytes → Walk → Result (Text × Walk)
walk_dict rest body w = do
  size ← number_at body w.pointer
  left ← skip_brackets 1 rest
  ok (left, record w { pointer = add32 (skip_padding (add32 w.pointer 4) 8) size })

-- The signature of a variant. The span that it is unmarshalled from begins behind the length.
unfoldable pub variant_signature : Bytes → Walk → Result (Text × Walk)
variant_signature body w = do
  size ← byte_at body w.pointer
  span ← read_bytes size body (w.pointer + 1)
  sig ← unmarshal_type (basic (text signature)) span (codes "g")
  first ← char_at sig 0
  alignment ← alignment_of_signature first
  ok (sig, record w { pointer = skip_padding (add32 w.pointer (size + 1)) alignment })

abbrev at_index : ℕ → Walk → Walk
at_index i w = record w { arg_index = i }

-- The branches at one type code, with the recursive call and the loop over the members of a struct.
unfoldable pub walk_type :
    (Text → Walk → Result Walk)
    → (Text → Walk → Result (Text × Walk))
    → TypeCode
    → ℕ
    → Bool
    → Text
    → Bytes
    → Walk
    → Result (Text × Walk)
walk_type inner members TypeCode.string c allowed rest body w = do
  next ← walk_string allowed body w
  ok (rest, next)
walk_type inner members TypeCode.object_path c allowed rest body w = do
  next ← walk_object_path allowed body w
  ok (rest, next)
walk_type inner members TypeCode.signature c allowed rest body w = do
  next ← walk_signature_value body w
  ok (rest, next)
walk_type inner members TypeCode.array c allowed rest body w = walk_array rest body w
walk_type inner members TypeCode.dict_begin c allowed rest body w = walk_dict rest body w
walk_type inner members TypeCode.struct_begin c allowed rest body w = do
  (left, next) ← members rest w
  ok (left, at_index w.arg_index next)
walk_type inner members TypeCode.variant c allowed rest body w = do
  (sig, start) ← variant_signature body w
  next ← inner sig start
  ok (rest, at_index w.arg_index next)
walk_type inner members TypeCode.struct_end c allowed rest body w = err internal
walk_type inner members TypeCode.dict_end c allowed rest body w = err internal
walk_type inner members TypeCode.other c allowed rest body w = err internal
walk_type inner members code c allowed rest body w = do
  size ← alignment_of_signature c
  ok (rest, advance w size)

-- WalkSignature and the `while` loop of its branch for structs, on fuel, which each character takes
-- one of. `walk_struct` has what the signature holds from the current member on, and gives what
-- the outer loop goes on with.
unfoldable mutual
  pub walk_signature : ℕ → Bool → Text → Bytes → Walk → Result Walk
  walk_signature zero allowed sig body w = err out_of_fuel
  walk_signature (suc fuel) allowed [] body w = ok w
  walk_signature (suc fuel) allowed (c ∷ rest) body w = do
    alignment ← alignment_of_signature c
    (left, next) ←
        walk_type (λ s v. walk_signature fuel false s body v) (λ s v. walk_struct fuel s body v)
          (type_code c) c allowed rest body
          (record w { pointer = skip_padding w.pointer alignment })
    walk_signature fuel allowed left body (record next { arg_index = (next.arg_index + 1) % 256 })

  pub walk_struct : ℕ → Text → Bytes → Walk → Result (Text × Walk)
  walk_struct zero rest body w = err out_of_fuel
  walk_struct (suc fuel) rest body w = do
    code ← char_at rest 0
    let member = do
      next ← walk_signature fuel false (code ∷ []) body w
      following ← char_at rest 1
      after ← char_at rest 2
      let padded = do
        alignment ← alignment_of_signature after
        walk_struct fuel (drop 1 rest) body
            (record next { pointer = skip_padding next.pointer alignment })
      if after == b')' then ok (drop 3 rest, next) else padded
    if code == b')' then ok (drop 2 rest, w) else member
