-- ===== src/Decoder/Binance/Tests.antt =====
-- The theorems on the Binance decoder at concrete mappings and messages.
use mantis.Prelude.{◌≡◌, refl, Option, none, some, List, [], ◌∷◌, replicate, true}
use mantis.Prelude.Int.{pos}
use mantis.Events.{HotEvent, no_flags}
use mantis.Events.Event
use mantis.Registry.Dict.{Text}
use mantis.Decoder.Binance.{
  BinanceBookTicker, BinanceCombinedStream, BinanceDecoder, BinanceSymbolMapping, NewResult, Tables,
  blank, decode, fill, new, put_mapping,
}
use mantis.Decoder.Binance.Refines
use mantis.Decoder.Binance.Refines.{decode_by, refusal, any_too_long}

abbrev btc : BinanceSymbolMapping
btc = record {
  symbol = b'B' ∷ b'T' ∷ b'C' ∷ [];
  instrument_id = 1;
  meta = record { tick_size = pos 10; lot_size = pos 1 };
}

abbrev eth : BinanceSymbolMapping
eth = record {
  symbol = b'E' ∷ b'T' ∷ b'H' ∷ [];
  instrument_id = 2;
  meta = record { tick_size = pos 1; lot_size = pos 1 };
}

abbrev two : List BinanceSymbolMapping
two = btc ∷ eth ∷ []

abbrev tables : Tables
tables = put_mapping 1 eth (put_mapping 0 btc (blank btc.meta))

abbrev decoder : BinanceDecoder
decoder = record { seq = 0; source_id = 2; tables = tables; len = 2; combined_stream = true }

two_built : new 2 two ≡ NewResult.ok decoder
unfolding new fill
two_built = refl

abbrev ticker : BinanceBookTicker
ticker = record {
  e = [];
  s = eth.symbol;
  b = b'7' ∷ [];
  bid_qty = b'1' ∷ [];
  a = b'8' ∷ [];
  ask_qty = b'2' ∷ [];
}

abbrev parse_ticker : Text → Option BinanceBookTicker
parse_ticker buf = none

abbrev parse_combined : Text → Option BinanceCombinedStream
parse_combined buf = some (record { stream = []; data_of = ticker })

abbrev out : List HotEvent
out = replicate 64 (Event.heartbeat 0 0 0 no_flags (record { counter = 0 }))

decode-decode_by_example :
    decode 1 parse_ticker parse_combined
      (record decoder { seq = 5; combined_stream = true })
      []
      9
      out
    ≡ decode_by 1 parse_ticker parse_combined two
        (record decoder { seq = 5; combined_stream = true })
        []
        9
        out
decode-decode_by_example =
    Refines.decode-decode_by 2 two decoder 1 parse_ticker parse_combined 5 true [] 9 out two_built
