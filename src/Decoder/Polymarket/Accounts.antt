-- ===== src/Decoder/Polymarket/Accounts.antt =====
-- What every call of `decode` leaves, whatever the message says.
use mantis.Prelude.{
  ℕ, ◌+◌, ◌-◌, ◌^◌, ◌<◌, ◌≤◌, ◌≡◌, refl, ◌∙◌, inl, inr, arith, Bool, false, Option, none, some,
  List, [], ◌∷◌, leb, ltb, length, set, get_elem?, length-set, Bool-cases,
}
use mantis.Types.{Side, SeqNum, Timestamp}
use mantis.Events.{HotEvent, UpdateAction, last_in_batch}
use mantis.Events.Event
use mantis.Instrument.{InstrumentMeta}
use mantis.Registry.Dict.{Text, text_eq}
use mantis.Decoder.{bump, guard, present}
use mantis.Decoder.Returns.{Returns, bind-Returns, after-Returns, settle-Returns}
use mantis.Decoder.Valid.{Attempt-cases}
use mantis.Decoder.Peek.{peek_type}
use mantis.Decoder.Polymarket.{
  PolymarketMarketDecoder, Batch, Decoded, emit_level, emit_levels, emit_one, level_event,
  aggressor_of, flag_found, close_batch, decode, decode_book, decode_price_change, decode_trade,
  dispatch, parse_price_qty, parse_side, resolve,
}
use mantis.Decoder.Polymarket.Schema.{
  BookLevel, PolymarketBookMsg, PolymarketPriceChangeMsg, PolymarketTradeMsg, book, price_change,
  last_trade_price,
}

-- `n` events were counted: they fit, the sequence number grew by them, and nothing else changed.
abbrev pub Accounts : PolymarketMarketDecoder → Decoded → Type 0
Accounts d (d', (out, n)) =
    (n ≤ 64) × (d'.seq ≡ d.seq + n) × (length out ≡ 64) × (d' ≡ record d { seq = d'.seq })

abbrev Counted : ℕ → Batch → Type 0
Counted seq b = (b.count ≤ 64) × (b.seq ≡ seq + b.count) × (length b.out ≡ 64)

emit_level-Counted :
    (seq : ℕ) (event : SeqNum → HotEvent) (b : Batch)
    → seq + 64 < 2 ^ 64
    → Counted seq b
    → leb 64 b.count ≡ false
    → Counted seq (emit_level event b)
emit_level-Counted seq event b u (c, s, l) free =
    let kept : length (set b.out b.count (event (bump b.seq))) ≡ 64 =
      length-set b.out b.count (event (bump b.seq)) ∙ l in
    (ground arith, ground arith, kept)

emit_levels-Counted :
    (decimals ts id src : ℕ) (m : InstrumentMeta) (side : Side) (depth : ℕ)
    (levels : List BookLevel) (seq : ℕ) (b : Batch)
    → seq + 64 < 2 ^ 64
    → Counted seq b
    → Returns (Counted seq) (emit_levels decimals ts id src m side depth levels b)
unfolding emit_levels
emit_levels-Counted decimals ts id src m side depth [] seq b u c = c
emit_levels-Counted decimals ts id src m side depth (l ∷ ls) seq b u c =
    elim (Bool-cases (leb 64 b.count)) [
      | inl full ↦ rw full c
      | inr free ↦ elim (Attempt-cases (parse_price_qty decimals l.price l.size m)) [
        | inl (q, e) ↦
            rw (free, e)
              (emit_levels-Counted decimals ts id src m side (depth + 1) ls seq _ u
                (emit_level-Counted seq (λ n. level_event ts id src side n depth q) b u c free))
        | inr (inl e) ↦
            rw (free, e) (emit_levels-Counted decimals ts id src m side (depth + 1) ls seq b u c)
        | inr (inr e) ↦ rw (free, e) tt
      ]
    ]

length-flag_found :
    (out : List HotEvent) (i : ℕ) (found : Option HotEvent)
    → length (flag_found out i found) ≡ length out
length-flag_found out i none = refl
length-flag_found out i (some e) = length-set out i _

close_batch-Accounts :
    (d : PolymarketMarketDecoder) (b : Batch) → Counted d.seq b → Accounts d (close_batch d b)
close_batch-Accounts d b (c, s, l) = elim (Bool-cases (ltb 0 b.count)) [
  | inl h ↦
      rw h (c, s, length-flag_found b.out (b.count - 1) (get_elem? b.out (b.count - 1)) ∙ l, refl)
  | inr h ↦ rw h (c, s, l, refl)
]

emit_one-Accounts :
    (d : PolymarketMarketDecoder) (out : List HotEvent) (event : SeqNum → HotEvent)
    → d.seq + 64 < 2 ^ 64
    → length out ≡ 64
    → Accounts d (emit_one d out event)
emit_one-Accounts d out event u l =
    (ground arith, ground arith, length-set out 0 (event (bump d.seq)) ∙ l, refl)

module _ (decimals : ℕ) (is_utf8 : Text → Bool) (parse_book : Text → Option PolymarketBookMsg)
    (parse_price_change : Text → Option PolymarketPriceChangeMsg)
    (parse_trade : Text → Option PolymarketTradeMsg) (d : PolymarketMarketDecoder) (buf : Text)
    (recv_ts : Timestamp) (out : List HotEvent) where
  book-Accounts :
      d.seq + 64 < 2 ^ 64
      → length out ≡ 64
      → Returns (Accounts d) (decode_book decimals parse_book d buf recv_ts out)
  unfolding decode_book
  book-Accounts u l = after-Returns (Accounts d) (present (parse_book buf)) _ λ msg.
      after-Returns (Accounts d) (present (resolve d msg.asset_id)) _ λ r.
        after-Returns (Accounts d) (guard _) _ λ g.
          bind-Returns (Counted d.seq) (Accounts d) (emit_levels decimals _ _ _ _ _ _ _ _) _
            (emit_levels-Counted decimals recv_ts r.0 d.source_id r.1 Side.bid 0 msg.bids d.seq _ u
              (omega arith, omega arith, l))
            λ b c.
              bind-Returns (Counted d.seq) (Accounts d) (emit_levels decimals _ _ _ _ _ _ _ _) _
                (emit_levels-Counted decimals recv_ts r.0 d.source_id r.1 Side.ask 0 msg.asks d.seq
                  b u c)
                λ b' c'. close_batch-Accounts d b' c'

  price_change-Accounts :
      d.seq + 64 < 2 ^ 64
      → length out ≡ 64
      → Returns (Accounts d) (decode_price_change decimals parse_price_change d buf recv_ts out)
  unfolding decode_price_change
  price_change-Accounts u l = after-Returns (Accounts d) (present (parse_price_change buf)) _ λ msg.
      after-Returns (Accounts d) (present (resolve d msg.asset_id)) _ λ r.
        after-Returns (Accounts d) (parse_price_qty decimals msg.price msg.size r.1) _ λ q.
          after-Returns (Accounts d) (present (parse_side msg.side)) _ λ side.
            emit_one-Accounts d out
              (λ seq. Event.book_delta recv_ts seq r.0 d.source_id last_in_batch (record {
                price = q.0;
                qty = q.1;
                side = side;
                action = UpdateAction.change;
                depth = 0;
              }))
              u l

  trade-Accounts :
      d.seq + 64 < 2 ^ 64
      → length out ≡ 64
      → Returns (Accounts d) (decode_trade decimals parse_trade d buf recv_ts out)
  unfolding decode_trade
  trade-Accounts u l = after-Returns (Accounts d) (present (parse_trade buf)) _ λ msg.
      after-Returns (Accounts d) (present (resolve d msg.asset_id)) _ λ r.
        after-Returns (Accounts d) (parse_price_qty decimals msg.price msg.size r.1) _ λ q.
          emit_one-Accounts d out
            (λ seq.
              Event.trade recv_ts seq r.0 d.source_id last_in_batch
                (record { price = q.0; qty = q.1; aggressor = aggressor_of msg.side }))
            u l

  dispatch-Accounts :
      (t : Text)
      → d.seq + 64 < 2 ^ 64
      → length out ≡ 64
      → Returns
          (Accounts d)
          (dispatch decimals is_utf8 parse_book parse_price_change parse_trade d buf recv_ts out t)
  dispatch-Accounts t u l = elim (Bool-cases (text_eq t price_change)) [
    | inl c ↦ rw c (price_change-Accounts u l)
    | inr c ↦ elim (Bool-cases (text_eq t last_trade_price)) [
      | inl p ↦ rw (c, p) (trade-Accounts u l)
      | inr p ↦ elim (Bool-cases (text_eq t book)) [
        | inl b ↦ rw (c, p, b) (book-Accounts u l)
        | inr b ↦ rw (c, p, b) tt
      ]
    ]
  ]

  -- On a buffer of 64 events and a sequence number that is not within 64 of its end: whatever the bytes
  -- are and whatever the JSON parsers make of them, a call of `decode` that does not panic returns a
  -- number of at most 64 events, raises the sequence number by exactly that many, keeps the buffer's
  -- length, and changes nothing else of the decoder.
  pub decode-Accounts :
      (r : Decoded)
      → d.seq + 64 < 2 ^ 64
      → length out ≡ 64
      → decode decimals is_utf8 parse_book parse_price_change parse_trade d buf recv_ts out ≡ some r
      → Accounts d r
  unfolding decode
  decode-Accounts r u l e =
      settle-Returns (Accounts d) (d, (out, 0)) _ r (omega arith, omega arith, l, refl)
        (after-Returns (Accounts d) (guard (ltb 0 (length buf))) _ λ g.
          after-Returns (Accounts d) (present (peek_type is_utf8 buf)) _
            λ t. dispatch-Accounts t u l)
        e
