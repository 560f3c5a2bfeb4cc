-- ===== src/Pipeline/Tests.antt =====
-- A snapshot of a bid and an ask: the bid is lost.
use mantis.Prelude.{◌≡◌, refl, arith, [], ◌∷◌}
use mantis.Prelude.Int.{pos, ◌*ℤ◌, ◌-ℤ◌, tdiv}
use mantis.Prelude.I64.{div_i64, mul_i64, sub_i64, wrap_i64}
use mantis.Types.{Side}
use mantis.Fixed.Parse.{
  parse_decimal_bytes, parse_unsigned, feed_all, feed, feed_digit, push_digit, finish,
}
use mantis.Instrument.{price_to_ticks, qty_to_lots}
use mantis.MarketState.ArrayBook.{ArrayBook, array_book, default}
use mantis.MarketState.ArrayBook.Best.{qty_at}
use mantis.MarketState.Engine.Snapshot.{run_deltas}
use mantis.MarketState.State.{InstrumentState, initial_state}
use mantis.Decoder.Polymarket.{parse_price_qty}
use mantis.Decoder.Polymarket.Rows.{Row, rows}
use mantis.Decoder.Polymarket.Snapshot.{kept}
use mantis.Decoder.Polymarket.Tests.{
  msg, buf, decoder, out, any_utf8, parse_book, no_change, no_trade, meta, left, peeked, resolved,
  decoded,
}
use mantis.Pipeline.Snapshot
use mantis.Pipeline.Snapshot.{deltas_of, emitted}

abbrev bid_row : Row
bid_row = record { side = Side.bid; depth = 1; quote = (pos 50, pos 3) }

abbrev ask_row : Row
ask_row = record { side = Side.ask; depth = 0; quote = (pos 50, pos 0) }

both_kept : kept 2 meta msg ≡ bid_row ∷ ask_row ∷ []
unfolding rows parse_price_qty parse_decimal_bytes parse_unsigned feed_all feed feed_digit
    push_digit finish price_to_ticks qty_to_lots div_i64 tdiv mul_i64 sub_i64 wrap_i64 ◌*ℤ◌ ◌-ℤ◌
both_kept = refl

abbrev fresh : InstrumentState ArrayBook
fresh = initial_state (default 64)

decoded_levels_lost_example :
    qty_at (run_deltas (array_book 64) (deltas_of (emitted left)) fresh).book Side.bid 50 ≡ pos 0
decoded_levels_lost_example =
    Snapshot.decoded_levels_lost 2 any_utf8 parse_book no_change no_trade decoder buf 1000 out 1
      meta msg left (bid_row ∷ []) ask_row 64 50 fresh Side.bid 50 peeked refl resolved (refl, refl)
      refl (omega arith) decoded both_kept refl (omega arith) (omega arith)
