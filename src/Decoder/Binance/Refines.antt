-- ===== src/Decoder/Binance/Refines.antt =====
-- The decoder against its mappings: `find_symbol` finds the first mapping of a symbol, and `decode` reads
-- that mapping.
use mantis.Prelude.{
  ℕ, suc, ◌≡◌, refl, ap, sym, ◌⊎◌, inl, inr, arith, Bool, false, ◌&&◌, ◌||◌, ◌==◌, Option, none,
  some, List, [], ◌∷◌, ltb, if◌then◌else◌, length, get_elem?, Bool-cases, Option-cases, subst, ◌≤◌,
}
use mantis.Types.{Timestamp}
use mantis.Events.{HotEvent}
use mantis.Instrument.{InstrumentMeta}
use mantis.Registry.Dict.{Text, text_eq, text_eq-to_eq}
use mantis.Decoder.{Attempt, ◌>>=◌, present, settle}
use mantis.Decoder.Binance.{
  BinanceBookTicker, BinanceCombinedStream, BinanceSymbolMapping, BinanceDecoder, Decoded,
  DecoderError, NewResult, Tables, blank, built, decode, emit, fill, find_from, find_symbol,
  indexed, is_entry, new, payload_of, put_mapping, ticker_in,
}
use mantis.Decoder.Binance.Covers.{IsSlot, Covers, fill-Covers, blank-Sized, ok_inj}

abbrev pub first_mapping : Text → List BinanceSymbolMapping → Option BinanceSymbolMapping
first_mapping symbol [] = none
first_mapping symbol (m ∷ ms) =
    let rest = first_mapping symbol ms in if text_eq m.symbol symbol then some m else rest

-- The lengths agree where the texts do.
guarded_eq : (s t : Text) → ((length s == length t) && text_eq s t) ≡ text_eq s t
guarded_eq s t = elim (Bool-cases (text_eq s t)) [
  | inl h ↦
      let lengths : length s ≡ length t = ap (λ z. length z) (text_eq-to_eq s t h) in ground arith
  | inr h ↦ ground arith
]

is_entry-IsSlot :
    (t : Tables) (symbol : Text) (i : ℕ) (m : BinanceSymbolMapping)
    → IsSlot t i m
    → is_entry t symbol i ≡ text_eq m.symbol symbol
is_entry-IsSlot t symbol i m s = rw (s.len, s.name) (guarded_eq m.symbol symbol)

-- Both fail, or the slot found is that of the first mapping.
abbrev Located : Tables → Option ℕ → Option BinanceSymbolMapping → Type 0
Located t found first =
    ((found ≡ none) × (first ≡ none))
    ⊎ ((j : ℕ) × ((m : BinanceSymbolMapping) × (found ≡ some j) × (first ≡ some m) × IsSlot t j m))

find_from-Located :
    (t : Tables) (symbol : Text) (i : ℕ) (ms : List BinanceSymbolMapping)
    → Covers t i ms
    → Located t (find_from t symbol i (length ms)) (first_mapping symbol ms)
unfolding find_from
find_from-Located t symbol i [] c = inl (refl, refl)
find_from-Located t symbol i (m ∷ ms) (s, c) =
    let test = is_entry-IsSlot t symbol i m s in
    elim (Bool-cases (text_eq m.symbol symbol)) [
      | inl h ↦ rw (test, h) (inr (i, (m, refl, refl, s)))
      | inr h ↦ rw (test, h) (find_from-Located t symbol (suc i) ms c)
    ]

-- `decode` with the list of mappings in place of the arrays.
abbrev pub decode_by :
    ℕ
    → (Text → Option BinanceBookTicker)
    → (Text → Option BinanceCombinedStream)
    → List BinanceSymbolMapping
    → BinanceDecoder
    → Text
    → Timestamp
    → List HotEvent
    → Option Decoded
decode_by decimals parse_ticker parse_combined ms d buf recv_ts out =
    settle (d, (out, 0))
      (do
        ticker ← present (ticker_in parse_ticker parse_combined d.combined_stream buf)
        m ← present (first_mapping ticker.s ms)
        payload ← payload_of decimals ticker m.meta
        Attempt.done (emit d recv_ts out m.instrument_id payload))

built-Covers :
    (source_id : ℕ) (ms : List BinanceSymbolMapping) (first : InstrumentMeta) (d : BinanceDecoder)
    (filled : NewResult Tables)
    → fill 0 ms (blank first) ≡ filled
    → length ms ≤ 8
    → built source_id (length ms) filled ≡ NewResult.ok d
    → (d.len ≡ length ms) × Covers d.tables 0 ms
built-Covers source_id ms first d (NewResult.err x) f h e = absurd (ground arith)
built-Covers source_id ms first d (NewResult.ok t) f h e =
    let same = ok_inj e in
    (
      ap (λ z. z.len) (sym same),
      subst (λ z. Covers z.tables 0 ms) same
          (fill-Covers 0 ms (blank first) t (blank-Sized first) (omega arith) f),
    )

-- What `new` leaves in the decoder.
new-Covers :
    (source_id : ℕ) (ms : List BinanceSymbolMapping) (d : BinanceDecoder)
    → new source_id ms ≡ NewResult.ok d
    → (d.len ≡ length ms) × Covers d.tables 0 ms
unfolding new
new-Covers source_id [] d e = absurd (ground arith)
new-Covers source_id (m ∷ ms) d e = elim (Bool-cases (ltb 8 (length (m ∷ ms)))) [
  | inl many ↦ let e' = rw many at e in absurd (ground arith)
  | inr few ↦
      built-Covers source_id (m ∷ ms) m.meta d (fill 0 (m ∷ ms) (blank m.meta)) refl (ground arith)
        (rw few at e)
]

module _ (source_id : ℕ) (ms : List BinanceSymbolMapping) (d : BinanceDecoder) where
  -- What `find_symbol` returns on a decoder that `new` built stands for the first mapping.
  find_symbol-Located :
      (symbol : Text)
      → new source_id ms ≡ NewResult.ok d
      → Located d.tables (find_symbol d symbol) (first_mapping symbol ms)
  unfolding find_symbol
  find_symbol-Located symbol e =
      let (counted, slots) = new-Covers source_id ms d e in
      rw counted (find_from-Located d.tables symbol 0 ms slots)

  module _ (decimals : ℕ) (parse_ticker : Text → Option BinanceBookTicker)
      (parse_combined : Text → Option BinanceCombinedStream) where
    lookup_step :
        (seq : ℕ) (combined : Bool) (recv_ts : Timestamp) (out : List HotEvent)
        (t : BinanceBookTicker)
        → new source_id ms ≡ NewResult.ok d
        → (present (find_symbol d t.s) >>= λ idx. indexed (get_elem? d.tables.metas idx) >>= λ meta.
            payload_of decimals t meta >>= λ payload.
            indexed (get_elem? d.tables.instrument_ids idx) >>= λ id.
            Attempt.done
              (emit (record d { seq = seq; combined_stream = combined }) recv_ts out id payload))
          ≡ (present (first_mapping t.s ms) >>= λ m. payload_of decimals t m.meta >>= λ payload.
              Attempt.done (
                emit
                  (record d { seq = seq; combined_stream = combined })
                  recv_ts
                  out
                  m.instrument_id
                  payload))
    lookup_step seq combined recv_ts out t e = elim (find_symbol-Located t.s e) [
      | inl (f, g) ↦ rw (f, g) refl
      | inr (j, (m, f, g, s)) ↦ rw (f, g, s.meta, s.id) refl
    ]

    -- On a decoder that `new` built from the mappings, whatever its sequence number and its mode have
    -- become: `decode` does what the same steps do on the list of mappings, with the first mapping of
    -- the ticker's symbol. No index is out of range, and a symbol without a mapping, or a failed parse
    -- or conversion, returns 0 and leaves the decoder and the buffer.
    pub decode-decode_by :
        (seq : ℕ) (combined : Bool) (buf : Text) (recv_ts : Timestamp) (out : List HotEvent)
        → new source_id ms ≡ NewResult.ok d
        → decode decimals parse_ticker parse_combined
            (record d { seq = seq; combined_stream = combined })
            buf
            recv_ts
            out
          ≡ decode_by decimals parse_ticker parse_combined ms
              (record d { seq = seq; combined_stream = combined })
              buf
              recv_ts
              out
    unfolding decode find_symbol
    decode-decode_by seq combined buf recv_ts out e =
        elim (Option-cases (ticker_in parse_ticker parse_combined combined buf)) [
          | inl n ↦ rw n refl
          | inr (t, n) ↦ rw n (
              ap (settle (record d { seq = seq; combined_stream = combined }, (out, 0)))
                (lookup_step seq combined recv_ts out t e))
        ]

-- Why `new` refuses a list of mappings.
abbrev pub refusal : NewResult BinanceDecoder → Option DecoderError
refusal (NewResult.ok d) = none
refusal (NewResult.err e) = some e

abbrev pub any_too_long : List BinanceSymbolMapping → Bool
any_too_long [] = false
any_too_long (m ∷ ms) = let rest = any_too_long ms in ltb 16 (length m.symbol) || rest

fill-refusal :
    (source_id n i : ℕ) (ms : List BinanceSymbolMapping) (t : Tables)
    → refusal (built source_id n (fill i ms t))
      ≡ (if any_too_long ms then some DecoderError.symbol_too_long else none)
unfolding fill
fill-refusal source_id n i [] t = refl
fill-refusal source_id n i (m ∷ ms) t = elim (Bool-cases (ltb 16 (length m.symbol))) [
  | inl h ↦ rw h refl
  | inr h ↦ rw h (fill-refusal source_id n (suc i) ms (put_mapping i m t))
]

-- `new` refuses an empty list of mappings, else one of more than eight, else one with a symbol longer
-- than sixteen bytes, each with its own error, and builds a decoder from any other list.
pub new-refusal :
    (source_id : ℕ) (ms : List BinanceSymbolMapping)
    → refusal (new source_id ms) ≡ (
        if length ms == 0
        then some DecoderError.empty_mappings
        else if ltb 8 (length ms)
        then some DecoderError.too_many_symbols
        else if any_too_long ms
        then some DecoderError.symbol_too_long
        else none)
unfolding new
new-refusal source_id [] = refl
new-refusal source_id (m ∷ ms) =
    let filled : (suc (length ms) == 0) ≡ false = ground arith in
    elim (Bool-cases (ltb 8 (suc (length ms)))) [
      | inl h ↦ rw (filled, h) refl
      | inr h ↦ rw (filled, h) (fill-refusal source_id (suc (length ms)) 0 (m ∷ ms) (blank m.meta))
    ]
