-- ===== src/Decoder/Valid.antt =====
-- Metadata that `InstrumentMeta::new` accepted: no division of a decoder panics.
use mantis.Prelude.{ℕ, zero, suc, ◌≡◌, refl, ◌≢◌, ◌⊎◌, inl, inr, arith, true}
use mantis.Prelude.Int.{pos, negsuc, tdiv}
use mantis.Prelude.I64.{div_i64}
use mantis.Fixed.{FixedI64, is_positive}
use mantis.Fixed.Parse.{Parsed, parse_decimal_bytes}
use mantis.Instrument.{InstrumentMeta, quotient_of, price_to_ticks, qty_to_lots}
use mantis.Registry.Dict.{Text}
use mantis.Decoder.{Attempt, ◌>>=◌, IsValidMeta, divided, decimal, parsed, ticks, lots}

pub Attempt-cases :
    {A : Type 0} (a : Attempt A)
    → ((x : A) × (a ≡ Attempt.done x)) ⊎ ((a ≡ Attempt.rejected) ⊎ (a ≡ Attempt.panicked))
Attempt-cases (Attempt.done x) = inl (x, refl)
Attempt-cases Attempt.rejected = inr (inl refl)
Attempt-cases Attempt.panicked = inr (inr refl)

pub bind_assoc :
    {A B C : Type 0} (a : Attempt A) (f : A → Attempt B) (g : B → Attempt C)
    → (a >>= λ x. f x >>= g) ≡ (a >>= f >>= g)
bind_assoc (Attempt.done x) f g = refl
bind_assoc Attempt.rejected f g = refl
bind_assoc Attempt.panicked f g = refl

divided-quotient_of :
    (size v : FixedI64)
    → is_positive size ≡ true
    → divided (quotient_of v size) ≡ Attempt.done (tdiv v size)
unfolding div_i64
divided-quotient_of (pos zero) v h = absurd (ground arith)
divided-quotient_of (pos (suc n)) v h = ground arith
divided-quotient_of (negsuc n) v h = absurd (ground arith)

pub ticks-done :
    (m : InstrumentMeta) (v : FixedI64)
    → IsValidMeta m
    → ticks m v ≡ Attempt.done (tdiv v m.tick_size)
unfolding price_to_ticks
ticks-done m v h = divided-quotient_of m.tick_size v h.0

pub lots-done :
    (m : InstrumentMeta) (v : FixedI64)
    → IsValidMeta m
    → lots m v ≡ Attempt.done (tdiv v m.lot_size)
unfolding qty_to_lots
lots-done m v h = divided-quotient_of m.lot_size v h.1

parsed-total : (p : Parsed FixedI64) → parsed p ≢ Attempt.panicked
parsed-total (Parsed.ok v) e = absurd (ground arith)
parsed-total (Parsed.err x) e = absurd (ground arith)

pub decimal-total : (decimals : ℕ) (t : Text) → decimal decimals t ≢ Attempt.panicked
decimal-total decimals t = parsed-total (parse_decimal_bytes decimals t)
