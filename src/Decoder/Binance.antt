-- ===== src/Decoder/Binance.antt =====
-- crates/binance/src/{decoder,schema}.rs: the decoder of bookTicker messages for up to eight symbols. The
-- two `parse_json` calls are parameters. `find_symbol` stays below `len`, which is at most eight, so no
-- index of its loop is out of range; the other indices are tested.
pub mod Covers
pub mod Refines
mod Tests
use mantis.Prelude.{
  ℕ, zero, suc, ◌+◌, ◌%◌, ◌^◌, ◌==◌, ◌&&◌, Bool, Option, none, some, List, [], ◌∷◌, ◌++◌, ltb,
  if◌then◌else◌, length, get_elem?, get_or, set, replicate, take, drop,
}
use mantis.Types.{InstrumentId, SeqNum, Timestamp, none_id}
use mantis.Events.{HotEvent, TopOfBookPayload, no_flags}
use mantis.Events.Event
use mantis.Instrument.{InstrumentMeta}
use mantis.Registry.Dict.{Text, text_eq}
use mantis.Decoder.{Attempt, ◌>>=◌, present, settle, decimal, ticks, lots, bump}

pub record BinanceBookTicker : Type 0 where
  pub e : Text
  pub s : Text
  pub b : Text
  pub bid_qty : Text
  pub a : Text
  pub ask_qty : Text

pub record BinanceCombinedStream : Type 0 where
  pub stream : Text
  pub data_of : BinanceBookTicker

abbrev pub max_binance_symbols : ℕ
max_binance_symbols = 8

abbrev pub max_symbol_len : ℕ
max_symbol_len = 16

pub record BinanceSymbolMapping : Type 0 where
  pub symbol : Text
  pub instrument_id : InstrumentId
  pub meta : InstrumentMeta

pub data DecoderError : Type 0 where
  too_many_symbols empty_mappings symbol_too_long : DecoderError

-- The four arrays that `new` fills.
pub record Tables : Type 0 where
  pub instrument_ids : List InstrumentId
  pub metas : List InstrumentMeta
  pub symbol_names : List Text
  pub symbol_lens : List ℕ

pub record BinanceDecoder : Type 0 where
  pub seq : ℕ
  pub source_id : ℕ
  pub tables : Tables
  pub len : ℕ
  pub combined_stream : Bool

pub data NewResult (A : Type 0) : Type 0 where
  ok : A → NewResult A
  err : DecoderError → NewResult A

-- `symbol_names[i][..sym.len()].copy_from_slice(sym)`
abbrev pub copied : Text → Text → Text
copied sym name = sym ++ drop (length sym) name

-- The writes of one round of the loop, for a symbol that is short enough.
abbrev pub put_mapping : ℕ → BinanceSymbolMapping → Tables → Tables
put_mapping i m t = record {
  instrument_ids = set t.instrument_ids i m.instrument_id;
  metas = set t.metas i m.meta;
  symbol_names = set t.symbol_names i (copied m.symbol (get_or t.symbol_names i []));
  symbol_lens = set t.symbol_lens i (length m.symbol % 2 ^ 8);
}

-- The loop over the mappings, from the index that it has reached.
unfoldable pub fill : ℕ → List BinanceSymbolMapping → Tables → NewResult Tables
fill i [] t = NewResult.ok t
fill i (m ∷ ms) t =
    if ltb max_symbol_len (length m.symbol)
    then NewResult.err DecoderError.symbol_too_long
    else fill (suc i) ms (put_mapping i m t)

abbrev pub blank : InstrumentMeta → Tables
blank first = record {
  instrument_ids = replicate max_binance_symbols none_id;
  metas = replicate max_binance_symbols first;
  symbol_names = replicate max_binance_symbols (replicate max_symbol_len 0);
  symbol_lens = replicate max_binance_symbols 0;
}

abbrev pub built : ℕ → ℕ → NewResult Tables → NewResult BinanceDecoder
built source_id n (NewResult.err e) = NewResult.err e
built source_id n (NewResult.ok t) =
    NewResult.ok
      (record { seq = 0; source_id = source_id; tables = t; len = n; combined_stream = ltb 1 n })

unfoldable pub new : ℕ → List BinanceSymbolMapping → NewResult BinanceDecoder
new source_id [] = NewResult.err DecoderError.empty_mappings
new source_id (m ∷ ms) =
    if ltb max_binance_symbols (length (m ∷ ms))
    then NewResult.err DecoderError.too_many_symbols
    else built source_id (length (m ∷ ms)) (fill 0 (m ∷ ms) (blank m.meta))

abbrev pub set_combined_stream : Bool → BinanceDecoder → BinanceDecoder
set_combined_stream combined d = record d { combined_stream = combined }

-- `slen == symbol.len() && self.symbol_names[i][..slen] == *symbol`
abbrev pub is_entry : Tables → Text → ℕ → Bool
is_entry t symbol i =
    let slen = get_or t.symbol_lens i 0 in
    (slen == length symbol) && text_eq (take slen (get_or t.symbol_names i [])) symbol

-- The loop of `find_symbol`, with the number of indices left.
unfoldable pub find_from : Tables → Text → ℕ → ℕ → Option ℕ
find_from t symbol i zero = none
find_from t symbol i (suc left) =
    let rest = find_from t symbol (suc i) left in if is_entry t symbol i then some i else rest

unfoldable pub find_symbol : BinanceDecoder → Text → Option ℕ
find_symbol d symbol = find_from d.tables symbol 0 d.len

-- An index out of range panics.
abbrev pub indexed : {A : Type 0} → Option A → Attempt A
indexed none = Attempt.panicked
indexed (some a) = Attempt.done a

-- The four numbers of a ticker, in the order of the source.
unfoldable pub payload_of : ℕ → BinanceBookTicker → InstrumentMeta → Attempt TopOfBookPayload
payload_of decimals t meta = do
  bid_price_fixed ← decimal decimals t.b
  ask_price_fixed ← decimal decimals t.a
  bid_qty_fixed ← decimal decimals t.bid_qty
  ask_qty_fixed ← decimal decimals t.ask_qty
  bid_price ← ticks meta bid_price_fixed
  ask_price ← ticks meta ask_price_fixed
  bid_qty ← lots meta bid_qty_fixed
  ask_qty ← lots meta ask_qty_fixed
  Attempt.done (record {
    bid_price = bid_price;
    bid_qty = bid_qty;
    ask_price = ask_price;
    ask_qty = ask_qty;
  })

abbrev pub Decoded : Type 0
Decoded = BinanceDecoder × (List HotEvent × ℕ)

abbrev pub emit :
    BinanceDecoder → Timestamp → List HotEvent → InstrumentId → TopOfBookPayload → Decoded
emit d recv_ts out id payload = (
  record d { seq = bump d.seq },
  (set out 0 (Event.top_of_book recv_ts (bump d.seq) id d.source_id no_flags payload), 1),
)

-- The ticker in the buffer, with or without the wrapper of a combined stream.
abbrev pub ticker_in :
    (Text → Option BinanceBookTicker)
    → (Text → Option BinanceCombinedStream)
    → Bool
    → Text
    → Option BinanceBookTicker
ticker_in parse_ticker parse_combined combined buf =
    if combined
    then elim (parse_combined buf) [ none ↦ none | some c ↦ some c.data_of ]
    else parse_ticker buf

unfoldable pub decode :
    ℕ
    → (Text → Option BinanceBookTicker)
    → (Text → Option BinanceCombinedStream)
    → BinanceDecoder
    → Text
    → Timestamp
    → List HotEvent
    → Option Decoded
decode decimals parse_ticker parse_combined d buf recv_ts out =
    settle (d, (out, 0))
      (do
        ticker ← present (ticker_in parse_ticker parse_combined d.combined_stream buf)
        idx ← present (find_symbol d ticker.s)
        meta ← indexed (get_elem? d.tables.metas idx)
        payload ← payload_of decimals ticker meta
        id ← indexed (get_elem? d.tables.instrument_ids idx)
        Attempt.done (emit d recv_ts out id payload))
