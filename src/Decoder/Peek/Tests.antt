-- ===== src/Decoder/Peek/Tests.antt =====
-- The theorem on `peek_type` at a concrete buffer.
use mantis.Prelude.{
  ℕ, zero, suc, ◌<◌, ◌≡◌, ◌≢◌, refl, arith, Bool, true, false, some, [], ◌∷◌, ◌++◌,
}
use mantis.Registry.Dict.{Text}
use mantis.Decoder.Peek.{found_at, needle, peek_type, quote}
use mantis.Decoder.Peek.First

abbrev comma : Text
comma = b'{' ∷ b',' ∷ []

abbrev value : Text
value = b'o' ∷ b'k' ∷ []

abbrev any_utf8 : Text → Bool
any_utf8 t = true

absent :
    (j : ℕ)
    → j < 2
    → found_at (comma ++ (needle ++ (value ++ (quote ∷ b'}' ∷ [])))) needle j ≡ false
absent zero h = refl
absent (suc zero) h = refl
absent (suc (suc j)) h = absurd (omega arith)

o_not_quote : b'o' ≢ quote
o_not_quote e = absurd (omega arith)

k_not_quote : b'k' ≢ quote
k_not_quote e = absurd (omega arith)

peek_type-first_example :
    peek_type any_utf8 (comma ++ (needle ++ (value ++ (quote ∷ b'}' ∷ [])))) ≡ some value
peek_type-first_example =
    First.peek_type-first any_utf8 comma value (b'}' ∷ []) absent (o_not_quote, (k_not_quote, tt))
      refl
