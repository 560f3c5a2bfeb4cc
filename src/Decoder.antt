-- ===== src/Decoder.antt =====
-- crates/polymarket and crates/binance: what the two decoders of exchange messages share. A `str` and a
-- `[u8]` are lists of bytes; the JSON parsers are parameters.
pub mod Valid
pub mod Returns
pub mod Peek
pub mod Polymarket
pub mod Binance
use mantis.Prelude.{ℕ, ◌+◌, ◌%◌, ◌^◌, ◌≡◌, Bool, true, false, Option, none, some}
use mantis.Types.{Ticks, Lots}
use mantis.Fixed.{FixedI64, is_positive}
use mantis.Fixed.Parse.{Parsed, parse_decimal_bytes}
use mantis.Instrument.{InstrumentMeta, price_to_ticks, qty_to_lots}
use mantis.Registry.Dict.{Text}

-- A step of a decoder: a value, an early `return 0`, or a panic.
pub data Attempt (A : Type 0) : Type 0 where
  done : A → Attempt A
  rejected : Attempt A
  panicked : Attempt A

infixl 5 ◌>>=◌ ◌>>◌
abbrev pub ◌>>=◌ : {A B : Type 0} → Attempt A → (A → Attempt B) → Attempt B
Attempt.done a >>= f = f a
Attempt.rejected >>= f = Attempt.rejected
Attempt.panicked >>= f = Attempt.panicked

abbrev pub ◌>>◌ : {B : Type 0} → Attempt (Unit {0}) → Attempt B → Attempt B
m >> k = m >>= λ _. k

abbrev pub guard : Bool → Attempt (Unit {0})
guard true = Attempt.done tt
guard false = Attempt.rejected

-- `let Some(a) = o else { return 0 }`
abbrev pub present : {A : Type 0} → Option A → Attempt A
present none = Attempt.rejected
present (some a) = Attempt.done a

-- What the caller sees: the state as it was after an early return, and `none` after a panic.
abbrev pub settle : {A : Type 0} → A → Attempt A → Option A
settle before (Attempt.done a) = some a
settle before Attempt.rejected = some before
settle before Attempt.panicked = none

-- `parse_decimal_bytes(..).ok()`
abbrev parsed : Parsed FixedI64 → Attempt FixedI64
parsed (Parsed.ok v) = Attempt.done v
parsed (Parsed.err e) = Attempt.rejected

abbrev pub decimal : ℕ → Text → Attempt FixedI64
decimal decimals text = parsed (parse_decimal_bytes decimals text)

-- The outer `none` is the panic of the division.
abbrev pub divided : {A : Type 0} → Option (Option A) → Attempt A
divided none = Attempt.panicked
divided (some o) = present o

abbrev pub ticks : InstrumentMeta → FixedI64 → Attempt Ticks
ticks m v = divided (price_to_ticks m v)

abbrev pub lots : InstrumentMeta → FixedI64 → Attempt Lots
lots m v = divided (qty_to_lots m v)

-- What `InstrumentMeta::new` checks.
abbrev pub IsValidMeta : InstrumentMeta → Type 0
IsValidMeta m = (is_positive m.tick_size ≡ true) × (is_positive m.lot_size ≡ true)

-- `self.seq += 1`, on a u64.
abbrev pub bump : ℕ → ℕ
bump seq = (seq + 1) % 2 ^ 64
