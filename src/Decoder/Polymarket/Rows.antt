-- ===== src/Decoder/Polymarket/Rows.antt =====
-- What a snapshot says, read off its levels without the loop: the levels that parse, in order, and the
-- events that a list of them stands for. The two loops of `decode_book` compute it.
use mathlib.Core.List.{append_assoc, append-nil}
use mantis.Prelude.{
  ℕ, zero, suc, ◌+◌, ◌^◌, ◌<◌, ◌≡◌, refl, ap, sym, ◌∙◌, ◌≢◌, inl, inr, arith, true, false, List, [],
  ◌∷◌, ◌++◌, leb, length, set, take, drop, length-append,
}
use mantis.Types.{InstrumentId, SeqNum, Side, Timestamp, Ticks, Lots}
use mantis.Events.{HotEvent}
use mantis.Instrument.{InstrumentMeta}
use mantis.Registry.Dict.{Text}
use mantis.Decoder.{bump, Attempt}
use mantis.Decoder.Valid.{Attempt-cases}
use mantis.Decoder.Polymarket.{Batch, emit_level, emit_levels, level_event, parse_price_qty}
use mantis.Decoder.Polymarket.Schema.{BookLevel}

pub record Row : Type 0 where
  pub side : Side
  pub depth : ℕ
  pub quote : Ticks × Lots

-- A level that does not parse leaves no row, and the next one keeps its depth.
abbrev pub add_row : Side → ℕ → Attempt (Ticks × Lots) → List Row → List Row
add_row side depth (Attempt.done q) rest = record { side = side; depth = depth; quote = q } ∷ rest
add_row side depth Attempt.rejected rest = rest
add_row side depth Attempt.panicked rest = rest

unfoldable pub rows : ℕ → InstrumentMeta → Side → ℕ → List BookLevel → List Row
rows decimals m side depth [] = []
rows decimals m side depth (l ∷ ls) =
    add_row side depth (parse_price_qty decimals l.price l.size m)
      (rows decimals m side (depth + 1) ls)

abbrev pub row_event : Timestamp → InstrumentId → ℕ → SeqNum → Row → HotEvent
row_event recv_ts id source_id seq r = level_event recv_ts id source_id r.side seq r.depth r.quote

-- The rows numbered from the one after `seq` on.
abbrev pub stamp : (SeqNum → Row → HotEvent) → SeqNum → List Row → List HotEvent
stamp f seq [] = []
stamp f seq (r ∷ rs) = f (seq + 1) r ∷ stamp f (seq + 1) rs

pub length-stamp :
    (f : SeqNum → Row → HotEvent) (seq : ℕ) (rs : List Row) → length (stamp f seq rs) ≡ length rs
length-stamp f seq [] = refl
length-stamp f seq (r ∷ rs) = ap suc (length-stamp f (seq + 1) rs)

-- The loop's variables after the rows `rs`.
abbrev pub batch_of : (SeqNum → Row → HotEvent) → SeqNum → List HotEvent → List Row → Batch
batch_of f seq out rs = record {
  seq = seq + length rs;
  count = length rs;
  out = stamp f seq rs ++ drop (length rs) out;
}

-- Writing the next event behind those of `rs`.
set-stamp :
    (f : SeqNum → Row → HotEvent) (seq : ℕ) (rs : List Row) (r : Row) (out : List HotEvent)
    → length rs < length out
    → set (stamp f seq rs ++ drop (length rs) out) (length rs) (f (seq + length rs + 1) r)
      ≡ stamp f seq (rs ++ (r ∷ [])) ++ drop (length (rs ++ (r ∷ []))) out
set-stamp f seq rs r [] h = absurd (omega arith)
set-stamp f seq [] r (o ∷ os) h =
    let numbered : seq + 0 + 1 ≡ seq + 1 = omega arith in ap (λ n. f n r ∷ os) numbered
set-stamp f seq (p ∷ ps) r (o ∷ os) h =
    let numbered : seq + suc (length ps) + 1 ≡ seq + 1 + length ps + 1 = omega arith in
    ap (λ n. f (seq + 1) p ∷ set (stamp f (seq + 1) ps ++ drop (length ps) os) (length ps) (f n r))
      numbered
    ∙ ap (λ z. f (seq + 1) p ∷ z) (set-stamp f (seq + 1) ps r os (omega arith))

emit_level-batch_of :
    (f : SeqNum → Row → HotEvent) (seq : ℕ) (rs : List Row) (r : Row) (out : List HotEvent)
    → length rs < length out
    → seq + length out < 2 ^ 64
    → emit_level (λ n. f n r) (batch_of f seq out rs) ≡ batch_of f seq out (rs ++ (r ∷ []))
emit_level-batch_of f seq rs r out h k =
    let there : bump (seq + length rs) ≡ seq + length rs + 1 = ground arith in
    let longer : length (rs ++ (r ∷ [])) ≡ length rs + 1 =
      omega (arith, length-append rs (r ∷ [])) in
    let number : seq + length rs + 1 ≡ seq + length (rs ++ (r ∷ [])) = omega (arith, longer) in
    let written =
      ap (λ n. set (batch_of f seq out rs).out (length rs) (f n r)) there
      ∙ set-stamp f seq rs r out h in
    λ i. record { seq = (there ∙ number) i; count = sym longer i; out = written i }

take-nil : (n : ℕ) → take {A = Row} n [] ≡ []
take-nil zero = refl
take-nil (suc n) = refl

-- The loop over the levels of one side, with `room` places left in the buffer.
pub emit_levels-rows :
    (decimals : ℕ) (recv_ts id source_id : ℕ) (m : InstrumentMeta) (side : Side) (depth : ℕ)
    (levels : List BookLevel) (seq room : ℕ) (out : List HotEvent) (rs : List Row)
    → ((p s : Text) → parse_price_qty decimals p s m ≢ Attempt.panicked)
    → length rs + room ≡ 64
    → length out ≡ 64
    → seq + 64 < 2 ^ 64
    → emit_levels decimals recv_ts id source_id m side depth levels
        (batch_of (row_event recv_ts id source_id) seq out rs)
      ≡ Attempt.done (
          batch_of
            (row_event recv_ts id source_id)
            seq
            out
            (rs ++ take room (rows decimals m side depth levels)))
unfolding emit_levels rows
emit_levels-rows decimals ts id src m side depth [] seq room out rs ok h k u =
    ap (λ z. Attempt.done (batch_of (row_event ts id src) seq out z))
      (sym (append-nil rs) ∙ ap (λ z. rs ++ z) (sym (take-nil room)))
emit_levels-rows decimals ts id src m side depth (l ∷ ls) seq zero out rs ok h k u =
    let full : leb 64 (length rs) ≡ true = ground arith in
    rw full
      (ap (λ z. Attempt.done (batch_of (row_event ts id src) seq out z)) (sym (append-nil rs)))
emit_levels-rows decimals ts id src m side depth (l ∷ ls) seq (suc room) out rs ok h k u =
    let free : leb 64 (length rs) ≡ false = ground arith in
    elim (Attempt-cases (parse_price_qty decimals l.price l.size m)) [
      | inl (q, e) ↦
          let r : Row = record { side = side; depth = depth; quote = q } in
          let longer : length (rs ++ (r ∷ [])) + room ≡ 64 =
            omega (arith, length-append rs (r ∷ []), h) in
          rw (free, e)
            (ap (emit_levels decimals ts id src m side (depth + 1) ls)
                (emit_level-batch_of (row_event ts id src) seq rs r out (omega arith) (omega arith))
              ∙ emit_levels-rows decimals ts id src m side (depth + 1) ls seq room out
                  (rs ++ (r ∷ [])) ok longer k u
              ∙ ap (λ z. Attempt.done (batch_of (row_event ts id src) seq out z))
                  (append_assoc rs (r ∷ []) (take room (rows decimals m side (depth + 1) ls))))
      | inr (inl e) ↦
          rw (free, e)
            (emit_levels-rows decimals ts id src m side (depth + 1) ls seq (suc room) out rs ok h k
              u)
      | inr (inr e) ↦ absurd (ok l.price l.size e)
    ]
