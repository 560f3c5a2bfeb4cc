-- ===== src/Decoder/Peek/First.antt =====
-- The searches of `peek_type` find what they look for, where it stands first.
use mantis.Prelude.{
  take-append, drop-append, ℕ, zero, suc, ◌+◌, ◌-◌, ◌<◌, ◌≡◌, ◌==◌, ◌≢◌, refl, ap, sym, ◌∙◌, subst,
  arith, Bool, true, false, some, [], ◌∷◌, ◌++◌, ltb, leb, length, length-append, drop,
}
use mantis.Registry.Dict.{Text, text_eq_refl}
use mantis.Decoder.Peek.{
  byte_from, find_from, found_at, get_range, is_some_of, memchr_byte, memchr_find, needle,
  peek_type, quote,
}

-- No byte of a text is the given one.
abbrev pub Lacks : ℕ → Text → Type 0
Lacks byte [] = Unit
Lacks byte (b ∷ rest) = (b ≢ byte) × Lacks byte rest

byte_from-first :
    (byte : ℕ) (before after : Text) (i : ℕ)
    → Lacks byte before
    → byte_from byte (before ++ (byte ∷ after)) i ≡ some (i + length before)
unfolding byte_from
byte_from-first byte [] after i h = ground arith
byte_from-first byte (b ∷ rest) after i (ne, h) =
    let other : (b == byte) ≡ false = ground arith in
    let moved : suc i + length rest ≡ i + suc (length rest) = omega arith in
    rw other (byte_from-first byte rest after (suc i) h ∙ ap some moved)

drop-append_add : (n : ℕ) (xs ys : Text) → drop (length xs + n) (xs ++ ys) ≡ drop n ys
drop-append_add n [] ys = ap (λ z. drop z ys) {x = 0 + n} {y = n} (omega arith)
drop-append_add n (x ∷ xs) ys =
    ap (λ z. drop z (x ∷ (xs ++ ys))) {x = suc (length xs) + n} {y = suc (length xs + n)}
      (omega arith)
    ∙ drop-append_add n xs ys

get_range-append :
    (before target after : Text)
    → get_range (before ++ (target ++ after)) (length before) (length before + length target)
      ≡ some target
get_range-append before target after =
    let size = length-append before (target ++ after) in
    let size' = length-append target after in
    let start : leb (length before) (length before + length target) ≡ true = ground arith in
    let within : leb (length before + length target) (length (before ++ (target ++ after))) ≡ true =
      ground arith in
    let wide : length before + length target - length before ≡ length target = omega arith in
    rw (start, within, wide, drop-append before (target ++ after), take-append target after) refl

-- The needle is found where it stands.
found_at-append :
    (before target after : Text)
    → found_at (before ++ (target ++ after)) target (length before) ≡ true
found_at-append before target after =
    ap (is_some_of target) (get_range-append before target after) ∙ text_eq_refl target

-- The loop passes the positions at which it does not stand.
find_from-first :
    (haystack target : Text) (i n left : ℕ)
    → ((j : ℕ) → j < n → found_at haystack target (i + j) ≡ false)
    → found_at haystack target (i + n) ≡ true
    → n < left
    → find_from haystack target i left ≡ some (i + n)
unfolding find_from
find_from-first haystack target i n zero absent there h = absurd (omega arith)
find_from-first haystack target i zero (suc left) absent there h =
    let here : i + 0 ≡ i = omega arith in
    let found : found_at haystack target i ≡ true =
      subst (λ z. found_at haystack target z ≡ true) here there in
    rw found (ap some (sym here))
find_from-first haystack target i (suc n) (suc left) absent there h =
    let moved : (j : ℕ) → suc i + j ≡ i + suc j = λ j. omega arith in
    let here : found_at haystack target i ≡ false =
      subst (λ z. found_at haystack target z ≡ false) {x = i + 0} {y = i} (omega arith)
        (absent 0 (omega arith)) in
    rw here (
      find_from-first haystack target (suc i) n left
        (λ j l.
          subst (λ z. found_at haystack target z ≡ false) (sym (moved j))
            (absent (suc j) (omega arith)))
        (subst (λ z. found_at haystack target z ≡ true) (sym (moved n)) there) (omega arith)
      ∙ ap some (moved n))

-- `memchr_find` returns the position of a needle that stands nowhere before it.
memchr_find-first :
    (before target after : Text)
    → ((j : ℕ) → j < length before → found_at (before ++ (target ++ after)) target j ≡ false)
    → memchr_find (before ++ (target ++ after)) target ≡ some (length before)
unfolding memchr_find
memchr_find-first before target after absent =
    let haystack = before ++ (target ++ after) in
    let size = length-append before (target ++ after) in
    let size' = length-append target after in
    let enough : ltb (length haystack) (length target) ≡ false = ground arith in
    rw enough (
      find_from-first haystack target 0 (length before) (length haystack - length target + 1)
        (λ j h.
          subst (λ z. found_at haystack target z ≡ false) {x = j} {y = 0 + j} (omega arith)
            (absent j h))
        (subst (λ z. found_at haystack target z ≡ true) {x = length before} {y = 0 + length before}
          (omega arith) (found_at-append before target after))
        (omega arith)
      ∙ ap some {x = 0 + length before} {y = length before} (omega arith))

-- In a buffer in which the bytes `"type":"` stand first behind `before`, followed by a text without a
-- quote and by a quote, `peek_type` returns that text where it is UTF-8, whatever comes before and after.
pub peek_type-first :
    (is_utf8 : Text → Bool) (before value after : Text)
    → ((j : ℕ)
        → j < length before
        → found_at (before ++ (needle ++ (value ++ (quote ∷ after)))) needle j ≡ false)
    → Lacks quote value
    → is_utf8 value ≡ true
    → peek_type is_utf8 (before ++ (needle ++ (value ++ (quote ∷ after)))) ≡ some value
unfolding peek_type memchr_byte
peek_type-first is_utf8 before value after absent lacks utf8 =
    let tail = value ++ (quote ∷ after) in
    let size = length-append before (needle ++ tail) in
    let within : leb (length before + 8) (length (before ++ (needle ++ tail))) ≡ true =
      ground arith in
    let behind : drop (length before + 8) (before ++ (needle ++ tail)) ≡ tail =
      drop-append_add 8 before (needle ++ tail) in
    let found : byte_from quote tail 0 ≡ some (length value) =
      byte_from-first quote value after 0 lacks
      ∙ ap some {x = 0 + length value} {y = length value} (omega arith) in
    rw
      (
        memchr_find-first before needle tail absent,
        within,
        behind,
        found,
        take-append value (quote ∷ after),
        utf8,
      )
      refl
