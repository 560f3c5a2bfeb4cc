-- ===== src/Decoder/Polymarket/Refines.antt =====
-- `decode` on a snapshot message writes what the rows of the message say.
use mantis.Prelude.{
  ℕ, suc, ◌+◌, ◌^◌, ◌<◌, ◌≡◌, refl, ◌∙◌, inl, inr, arith, true, ◌&&◌, Option, some, List, [], ◌∷◌,
  ltb, length, Bool-cases, Bool,
}
use mantis.Types.{Timestamp}
use mantis.Events.{HotEvent}
use mantis.Instrument.{InstrumentMeta}
use mantis.Registry.Dict.{Text}
use mantis.Decoder.{IsValidMeta, settle}
use mantis.Decoder.Peek.{peek_type, memchr_find}
use mantis.Decoder.Polymarket.{PolymarketMarketDecoder, is_nil, decode, dispatch, resolve}
use mantis.Decoder.Polymarket.Schema.{
  BookLevel, PolymarketBookMsg, PolymarketPriceChangeMsg, PolymarketTradeMsg, book,
}
use mantis.Decoder.Polymarket.Snapshot.{kept, written, decode_book-levels, decode_book-no_levels}

both_nil :
    (bids asks : List BookLevel) → is_nil bids && is_nil asks ≡ true → (bids ≡ []) × (asks ≡ [])
both_nil [] [] h = (refl, refl)
both_nil [] (l ∷ ls) h = absurd (ground arith)
both_nil (l ∷ ls) asks h = absurd (ground arith)

module _ (decimals : ℕ) (is_utf8 : Text → Bool) (parse_book : Text → Option PolymarketBookMsg)
    (parse_price_change : Text → Option PolymarketPriceChangeMsg)
    (parse_trade : Text → Option PolymarketTradeMsg) where
  -- A buffer that names its type is not empty, and the dispatch decides.
  pub decode-typed :
      (d : PolymarketMarketDecoder) (buf : Text) (recv_ts : Timestamp) (out : List HotEvent)
      (t : Text)
      → peek_type is_utf8 buf ≡ some t
      → decode decimals is_utf8 parse_book parse_price_change parse_trade d buf recv_ts out
        ≡ settle
            (d, (out, 0))
            (dispatch decimals is_utf8 parse_book parse_price_change parse_trade d buf recv_ts out
              t)
  unfolding decode peek_type memchr_find
  decode-typed d [] recv_ts out t e = absurd (ground arith)
  decode-typed d (b ∷ bs) recv_ts out t e =
      let filled : ltb 0 (suc (length bs)) ≡ true = ground arith in rw (filled, e) refl

  -- Where the buffer's type is "book", the parser returns the snapshot `msg`, its token is that of an
  -- instrument with valid metadata, the output buffer holds 64 events and the sequence number is not
  -- within 64 of its end: `decode` does not panic, and writes one event for each level that parses,
  -- bids before asks and at most 64, numbered consecutively after the decoder's sequence number, each
  -- with its level's side and its depth modulo 256, all flagged as snapshot and the last one alone as last in its
  -- batch; it returns their number, adds it to the sequence number, and leaves the rest of the buffer.
  pub decode-snapshot :
      (d : PolymarketMarketDecoder) (buf : Text) (recv_ts : Timestamp) (out : List HotEvent)
      (id : ℕ) (m : InstrumentMeta) (msg : PolymarketBookMsg)
      → peek_type is_utf8 buf ≡ some book
      → parse_book buf ≡ some msg
      → resolve d msg.asset_id ≡ some (id, m)
      → IsValidMeta m
      → length out ≡ 64
      → d.seq + 64 < 2 ^ 64
      → decode decimals is_utf8 parse_book parse_price_change parse_trade d buf recv_ts out
        ≡ some (written d recv_ts id out (kept decimals m msg))
  decode-snapshot d buf recv_ts out id m msg e p r valid k u =
      decode-typed d buf recv_ts out book e
      ∙ elim (Bool-cases (is_nil msg.bids && is_nil msg.asks)) [
        | inl nil ↦
            let nils = both_nil msg.bids msg.asks nil in
            decode_book-no_levels decimals parse_book d buf recv_ts id out m msg nils.0 nils.1 p r
        | inr some_level ↦
            decode_book-levels decimals parse_book d buf recv_ts id out m msg some_level p r valid k
              u
      ]
