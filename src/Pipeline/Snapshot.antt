-- ===== src/Pipeline/Snapshot.antt =====
-- A snapshot message on its way from the Polymarket decoder into the array book of the engine.
use mantis.Prelude.{
  take-append, ℕ, suc, ◌+◌, ◌^◌, ◌<◌, ◌≤◌, ◌≡◌, ◌==◌, ◌&&◌, ◌%◌, Bool, refl, ap, sym, ◌∙◌, arith,
  true, if◌then◌else◌, Option, some, List, [], ◌∷◌, ◌++◌, length, take, drop,
}
use mantis.Prelude.Int.{pos}
use mantis.Types.{Side, Timestamp, side_eq, zero_lots}
use mantis.Events.{
  BookDeltaPayload, EventBody, EventHeader, HotEvent, UpdateAction, contains, is_snapshot,
  with_flags,
}
use mantis.Instrument.{InstrumentMeta}
use mantis.Registry.Dict.{Text}
use mantis.Decoder.{IsValidMeta}
use mantis.Decoder.Peek.{peek_type}
use mantis.Decoder.Polymarket.{PolymarketMarketDecoder, Decoded, decode, resolve}
use mantis.Decoder.Polymarket.Schema.{
  PolymarketBookMsg, PolymarketPriceChangeMsg, PolymarketTradeMsg, book,
}
use mantis.Decoder.Polymarket.Rows.{Row, row_event, stamp, length-stamp}
use mantis.Decoder.Polymarket.Snapshot.{flagged, kept, mark_last, written}
use mantis.Decoder.Polymarket.Refines.{decode-snapshot}
use mantis.MarketState.State.{InstrumentState}
use mantis.MarketState.ArrayBook.{ArrayBook, array_book}
use mantis.MarketState.ArrayBook.Best.{qty_at}
use mantis.MarketState.Engine.Snapshot.{run_deltas, flagged_levels_lost}

-- The deltas among events, with their headers, as the engine takes them.
abbrev pub delta_of : EventHeader → EventBody → List (EventHeader × BookDeltaPayload)
delta_of h (EventBody.book_delta p) = (h, p) ∷ []
delta_of h _ = []

abbrev pub deltas_of : List HotEvent → List (EventHeader × BookDeltaPayload)
deltas_of [] = []
deltas_of (e ∷ es) = delta_of e.header e.body ++ deltas_of es

-- The events that a call of the decoder wrote.
abbrev pub emitted : Decoded → List HotEvent
emitted (d, (out, n)) = take n out

length-mark_last : (es : List HotEvent) → length (mark_last es) ≡ length es
length-mark_last [] = refl
length-mark_last (e ∷ []) = refl
length-mark_last (e ∷ e' ∷ es) = ap suc (length-mark_last (e' ∷ es))

module _ (ts id src : ℕ) where
  -- What is written are the events of the rows.
  emitted-written :
      (d : PolymarketMarketDecoder) (out : List HotEvent) (rs : List Row)
      → emitted (written d ts id out rs) ≡ mark_last (stamp (row_event ts id d.source_id) d.seq rs)
  emitted-written d out rs =
      let es = stamp (row_event ts id d.source_id) d.seq rs in
      let size : length rs ≡ length (mark_last es) =
        sym (length-mark_last es ∙ length-stamp (row_event ts id d.source_id) d.seq rs) in
      ap (λ n. take n (mark_last es ++ drop (length rs) out)) size
      ∙ take-append (mark_last es) (drop (length rs) out)

  -- The last delta of a batch is that of the last row, with both flags.
  abbrev last_delta : ℕ → Row → EventHeader × BookDeltaPayload
  last_delta seq r =
      let e = flagged (row_event ts id src seq r) in
      (
        e.header,
        record {
          price = r.quote.0;
          qty = r.quote.1;
          side = r.side;
          action = UpdateAction.new;
          depth = r.depth % 2 ^ 8;
        },
      )

  split_last :
      (seq : ℕ) (rs : List Row) (r : Row)
      → (ds : List (EventHeader × BookDeltaPayload)) × ((seq' : ℕ) × (deltas_of
              (mark_last (stamp (row_event ts id src) seq (rs ++ (r ∷ []))))
            ≡ ds ++ (last_delta seq' r ∷ [])))
  split_last seq [] r = ([], (seq + 1, refl))
  split_last seq (p ∷ []) r =
      (deltas_of (row_event ts id src (seq + 1) p ∷ []), (seq + 1 + 1, refl))
  split_last seq (p ∷ q ∷ rs) r =
      let (ds, (seq', e)) = split_last (seq + 1) (q ∷ rs) r in
      let first = deltas_of (row_event ts id src (seq + 1) p ∷ []) in
      (first ++ ds, (seq', ap (λ z. first ++ z) e))

some_inj : {A : Type 0} {a b : A} → some a ≡ some b → a ≡ b
some_inj e = ground arith

snapshot_flag :
    (ts id src seq : ℕ) (r : Row) → contains (last_delta ts id src seq r).0.flags is_snapshot ≡ true
unfolding contains with_flags
snapshot_flag ts id src seq r = refl

-- Where `decode` gets a snapshot message as in `decode-snapshot`, and the last level that it keeps has
-- the price of level `i` of an array book of `n` levels: the engine's book, after the deltas that were
-- written and whatever its state was before, holds that last level alone. The others are lost.
pub decoded_levels_lost :
    (decimals : ℕ) (is_utf8 : Text → Bool) (parse_book : Text → Option PolymarketBookMsg)
    (parse_price_change : Text → Option PolymarketPriceChangeMsg)
    (parse_trade : Text → Option PolymarketTradeMsg) (d : PolymarketMarketDecoder) (buf : Text)
    (recv_ts : Timestamp) (out : List HotEvent) (id : ℕ) (m : InstrumentMeta)
    (msg : PolymarketBookMsg) (written_by : Decoded) (rs : List Row) (r : Row) (n i : ℕ)
    (s : InstrumentState ArrayBook) (side : Side) (j : ℕ)
    → peek_type is_utf8 buf ≡ some book
    → parse_book buf ≡ some msg
    → resolve d msg.asset_id ≡ some (id, m)
    → IsValidMeta m
    → length out ≡ 64
    → d.seq + 64 < 2 ^ 64
    → decode decimals is_utf8 parse_book parse_price_change parse_trade d buf recv_ts out
      ≡ some written_by
    → kept decimals m msg ≡ rs ++ (r ∷ [])
    → r.quote.0 ≡ pos i
    → n ≤ 2 ^ 16
    → i < n
    → qty_at (run_deltas (array_book n) (deltas_of (emitted written_by)) s).book side j
      ≡ (if side_eq r.side side && i == j then r.quote.1 else zero_lots)
decoded_levels_lost decimals is_utf8 pb pc pt d buf recv_ts out id m msg res rs r n i s side j e p q
      valid k u ran rows price small inside =
    let expected =
      decode-snapshot decimals is_utf8 pb pc pt d buf recv_ts out id m msg e p q valid k u in
    let same : res ≡ written d recv_ts id out (kept decimals m msg) =
      some_inj (sym ran ∙ expected) in
    let events : emitted res
        ≡ mark_last (stamp (row_event recv_ts id d.source_id) d.seq (rs ++ (r ∷ []))) =
      ap emitted same
      ∙ emitted-written recv_ts id d.source_id d out (kept decimals m msg)
      ∙ ap (λ z. mark_last (stamp (row_event recv_ts id d.source_id) d.seq z)) rows in
    let (ds, (seq', deltas)) = split_last recv_ts id d.source_id d.seq rs r in
    let last = last_delta recv_ts id d.source_id seq' r in
    ap (λ z. qty_at (run_deltas (array_book n) z s).book side j) (ap deltas_of events ∙ deltas)
    ∙ flagged_levels_lost n i ds last.0 last.1 s side j small inside price
        (snapshot_flag recv_ts id d.source_id seq' r)
