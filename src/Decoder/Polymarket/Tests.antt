-- ===== src/Decoder/Polymarket/Tests.antt =====
-- The theorems on the Polymarket decoder at concrete messages, and runs.
use mantis.Prelude.{
  ◌≡◌, refl, arith, Bool, true, Option, none, some, List, [], ◌∷◌, ◌++◌, replicate,
}
use mantis.Prelude.Int.{pos, ◌-ℤ◌, ◌*ℤ◌, tdiv}
use mantis.Prelude.I64.{div_i64, mul_i64, sub_i64, wrap_i64}
use mantis.Types.{Side}
use mantis.Events.{HotEvent, UpdateAction, with_flags, no_flags}
use mantis.Events.Event
use mantis.Fixed.Parse.{
  parse_decimal_bytes, parse_unsigned, feed_all, feed, feed_digit, push_digit, finish,
}
use mantis.Instrument.{InstrumentMeta, price_to_ticks, qty_to_lots}
use mantis.Registry.{InstrumentRegistry}
use mantis.Registry.Dict.{Text, lookup}
use mantis.Registry.Types.{spot_reference, Asset}
use mantis.Decoder.Peek.{peek_type, memchr_find, find_from, memchr_byte, byte_from, needle, quote}
use mantis.Decoder.Polymarket.{
  PolymarketMarketDecoder, Decoded, new, resolve, decode, decode_book, emit_levels, parse_price_qty,
}
use mantis.Decoder.Polymarket.Schema.{
  PolymarketBookMsg, PolymarketPriceChangeMsg, PolymarketTradeMsg, book,
}
use mantis.Decoder.Polymarket.Snapshot.{kept, written}
use mantis.Decoder.Polymarket.Refines
use mantis.Decoder.Polymarket.Accounts
use mantis.Decoder.Polymarket.Accounts.{Accounts}

-- Ticks of 0.01 and lots of 1, at two decimals.
abbrev pub meta : InstrumentMeta
meta = record { tick_size = pos 1; lot_size = pos 100 }

abbrev token : Text
token = b'a' ∷ b'b' ∷ []

abbrev registry : InstrumentRegistry
registry = record {
  ids =
      (
        1,
        record {
          canonical = record {
            instrument_id = 1;
            key = spot_reference Asset.btc Asset.usdc;
            meta = meta;
          };
          binance = none;
          polymarket = none;
        },
      )
      ∷ [];
  keys = [];
  symbols = [];
  tokens = (token, 1) ∷ [];
  next_id = 2;
}

-- The decimals 0.5, 3 and one that does not parse.
abbrev half : Text
half = b'0' ∷ b'.' ∷ b'5' ∷ []

abbrev three : Text
three = b'3' ∷ []

abbrev bad : Text
bad = b'x' ∷ []

abbrev pub msg : PolymarketBookMsg
msg = record {
  asset_id = token;
  bids = record { price = bad; size = three } ∷ record { price = half; size = three } ∷ [];
  asks = record { price = half; size = half } ∷ [];
}

abbrev pub buf : Text
buf = b'{' ∷ needle ++ (book ++ (quote ∷ b'}' ∷ []))

abbrev pub decoder : PolymarketMarketDecoder
decoder = new 10 registry

abbrev blank_event : HotEvent
blank_event = Event.heartbeat 0 0 0 no_flags (record { counter = 0 })

abbrev pub out : List HotEvent
out = replicate 64 blank_event

abbrev pub any_utf8 : Text → Bool
any_utf8 t = true

abbrev pub parse_book : Text → Option PolymarketBookMsg
parse_book b = some msg

abbrev pub no_change : Text → Option PolymarketPriceChangeMsg
no_change b = none

abbrev pub no_trade : Text → Option PolymarketTradeMsg
no_trade b = none

pub peeked : peek_type any_utf8 buf ≡ some book
unfolding peek_type memchr_find find_from memchr_byte byte_from
peeked = refl

pub resolved : resolve decoder token ≡ some (1, meta)
unfolding resolve lookup
resolved = refl

decode-snapshot_example :
    decode 2 any_utf8 parse_book no_change no_trade decoder buf 1000 out
    ≡ some (written decoder 1000 1 out (kept 2 meta msg))
decode-snapshot_example =
    Refines.decode-snapshot 2 any_utf8 parse_book no_change no_trade decoder buf 1000 out 1 meta msg
      peeked refl resolved (refl, refl) refl (omega arith)

-- The bid that does not parse leaves a gap in the depths, and the half lot is truncated to none.
abbrev pub left : Decoded
left = (
  record decoder { seq = 2 },
  (
    Event.book_delta 1000 1 1 10 1 (record {
      price = pos 50;
      qty = pos 3;
      side = Side.bid;
      action = UpdateAction.new;
      depth = 1;
    })
        ∷ Event.book_delta 1000 2 1 10 3 (record {
          price = pos 50;
          qty = pos 0;
          side = Side.ask;
          action = UpdateAction.new;
          depth = 0;
        })
        ∷ replicate 62 blank_event,
    2,
  ),
)

pub decoded : decode 2 any_utf8 parse_book no_change no_trade decoder buf 1000 out ≡ some left
unfolding decode decode_book emit_levels resolve lookup parse_price_qty peek_type memchr_find
    find_from memchr_byte byte_from parse_decimal_bytes parse_unsigned feed_all feed feed_digit
    push_digit finish price_to_ticks qty_to_lots div_i64 tdiv mul_i64 sub_i64 wrap_i64 ◌*ℤ◌ ◌-ℤ◌
    with_flags
decoded = refl

decode-Accounts_example : Accounts decoder left
decode-Accounts_example =
    Accounts.decode-Accounts 2 any_utf8 parse_book no_change no_trade decoder buf 1000 out left
      (omega arith) refl decoded
