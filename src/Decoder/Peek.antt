-- ===== src/Decoder/Peek.antt =====
-- crates/polymarket/src/market/decoder.rs: `peek_type`, which finds the message type in raw JSON without
-- parsing it, and the two searches under it. `from_utf8` fails where the parameter `is_utf8` is false.

pub mod First
mod Tests
use mantis.Prelude.{
  ℕ, zero, suc, ◌+◌, ◌-◌, Bool, ◌&&◌, Option, none, some, [], ◌∷◌, ltb, leb, ◌==◌, if◌then◌else◌,
  length, take, drop,
}
use mantis.Registry.Dict.{Text, text_eq}

-- `slice.get(from..to)`
abbrev pub get_range : Text → ℕ → ℕ → Option Text
get_range t from to =
    if leb from to && leb to (length t) then some (take (to - from) (drop from t)) else none

-- `haystack.get(i..i + needle.len()) == Some(needle)`
abbrev pub is_some_of : Text → Option Text → Bool
is_some_of needle none = Bool.false
is_some_of needle (some t) = text_eq t needle

abbrev pub found_at : Text → Text → ℕ → Bool
found_at haystack needle i = is_some_of needle (get_range haystack i (i + length needle))

-- The loop over `0..limit`, with the number of positions left.
unfoldable pub find_from : Text → Text → ℕ → ℕ → Option ℕ
find_from haystack needle i zero = none
find_from haystack needle i (suc left) =
    let rest = find_from haystack needle (suc i) left in
    if found_at haystack needle i then some i else rest

unfoldable pub memchr_find : Text → Text → Option ℕ
memchr_find haystack needle =
    if ltb (length haystack) (length needle)
    then none
    else find_from haystack needle 0 (length haystack - length needle + 1)

-- The loop of `memchr_byte`, with the position that it has reached.
unfoldable pub byte_from : ℕ → Text → ℕ → Option ℕ
byte_from byte [] i = none
byte_from byte (b ∷ rest) i =
    let later = byte_from byte rest (suc i) in if b == byte then some i else later

unfoldable pub memchr_byte : ℕ → Text → Option ℕ
memchr_byte byte haystack = byte_from byte haystack 0

-- The byte of `"`.
abbrev pub quote : ℕ
quote = 34

-- `"type":"`
abbrev pub needle : Text
needle = quote ∷ b't' ∷ b'y' ∷ b'p' ∷ b'e' ∷ quote ∷ b':' ∷ quote ∷ []

-- The value at the start of `remaining`: the bytes before the closing quote.
abbrev pub value_at : (Text → Bool) → Text → Option ℕ → Option Text
value_at is_utf8 remaining none = none
value_at is_utf8 remaining (some end) =
    if is_utf8 (take end remaining) then some (take end remaining) else none

-- `buf.get(value_start..)` and what follows it.
abbrev pub value_from : (Text → Bool) → Text → Option ℕ → Option Text
value_from is_utf8 buf none = none
value_from is_utf8 buf (some at) =
    let start = at + length needle in
    if leb start (length buf)
    then value_at is_utf8 (drop start buf) (memchr_byte quote (drop start buf))
    else none

unfoldable pub peek_type : (Text → Bool) → Text → Option Text
peek_type is_utf8 buf = value_from is_utf8 buf (memchr_find buf needle)
