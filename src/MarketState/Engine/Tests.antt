-- ===== src/MarketState/Engine/Tests.antt =====
-- The engine over an array book of four levels, and its theorems at concrete inputs.
use mantis.Prelude.{ℕ, ◌≤◌, ◌≡◌, refl, true, false, List, [], ◌∷◌, some, arith}
use mantis.Prelude.Int.{pos}
use mantis.Types.{Side}
use mantis.Events.{EventHeader, EventBody, HotEvent, BookDeltaPayload, UpdateAction, contains}
use mantis.MarketState.Book.{OrderBook, BookLaws}
use mantis.MarketState.State.{InstrumentState, initial_state}
use mantis.MarketState.ArrayBook.{ArrayBook, array_book, default}
use mantis.MarketState.ArrayBook.Lawful.{array_book_laws}
use mantis.MarketState.Engine.{Engine, fresh, new, state_at}
use mantis.MarketState.Engine.History.{Follows, process_all, level_of, received_of, under_way_of}
use mantis.MarketState.Engine.Replay
use mantis.MarketState.Engine.Snapshot
use mantis.MarketState.Engine.Snapshot.{run_deltas, apply_all, Plain}

abbrev B : OrderBook
B = array_book 4

four_small : 4 ≤ 65536
four_small = omega arith

abbrev L : BookLaws B
L = array_book_laws 4 four_small

abbrev header : ℕ → ℕ → EventHeader
header inst flags = record {
  recv_ts = 1000;
  seq = 9;
  instrument_id = inst;
  source_id = 1;
  flags = flags;
}

abbrev delta : ℕ → ℕ → Side → BookDeltaPayload
delta p q s = record { price = pos p; qty = pos q; side = s; action = UpdateAction.new; depth = 0 }

abbrev two : Engine B
two = fresh B 3 2 500

abbrev s0 : InstrumentState ArrayBook
s0 = initial_state (default 4)

two_made : new B 3 2 500 ≡ some two
unfolding new
two_made = refl

abbrev bbo : EventBody
bbo =
    EventBody.top_of_book
      (record { bid_price = pos 1; bid_qty = pos 5; ask_price = pos 2; ask_qty = pos 6 })

-- Newest first: an event of an inactive instrument and one of no instrument, a trade, the end of a
-- snapshot, a top of book of the other instrument, the snapshot, and a delta that it empties.
abbrev history : List HotEvent
history =
    record { header = header 3 1; body = EventBody.book_delta (delta 2 70 Side.bid) }
    ∷ record { header = header 0 1; body = EventBody.book_delta (delta 2 80 Side.bid) }
    ∷ record {
      header = header 1 0;
      body = EventBody.trade (record { price = pos 3; qty = pos 2; aggressor = Side.bid });
    }
    ∷ record { header = header 1 2; body = EventBody.book_delta (delta 3 30 Side.ask) }
    ∷ record { header = header 2 0; body = bbo }
    ∷ record { header = header 1 1; body = EventBody.book_delta (delta 1 10 Side.bid) }
    ∷ record { header = header 1 0; body = EventBody.book_delta (delta 2 20 Side.bid) }
    ∷ []

process_all-Follows_example : Follows 4 2 0 history (state_at B (process_all 4 two history) 0)
process_all-Follows_example = Replay.process_all-Follows 4 3 2 500 two history 0 four_small two_made

-- What the history of the example says of the first slot and of the inactive third.
emptied_levels :
    (level_of 4 2 0 Side.bid 1 history ≡ pos 10)
    × (level_of 4 2 0 Side.bid 2 history ≡ pos 0)
    × (level_of 4 2 0 Side.ask 3 history ≡ pos 30)
    × (received_of 2 0 history ≡ true)
    × (level_of 4 2 2 Side.bid 2 history ≡ pos 0)
unfolding level_of received_of under_way_of contains
emptied_levels = (refl, refl, refl, refl, refl)

abbrev batch : List (EventHeader × BookDeltaPayload)
batch =
    (header 1 1, delta 1 10 Side.bid)
    ∷ (header 1 0, delta 2 20 Side.bid)
    ∷ (header 1 2, delta 3 30 Side.ask)
    ∷ []

snapshot_batch_example :
    let s' = run_deltas B batch s0 in
    (s'.snapshot_received ≡ true)
    × (s'.in_snapshot ≡ false)
    × (s'.book ≡ apply_all B batch (B.clear s0.book))
unfolding contains
snapshot_batch_example =
    Snapshot.snapshot_batch B (header 1 1) (header 1 2) (delta 1 10 Side.bid) (delta 3 30 Side.ask)
      ((header 1 0, delta 2 20 Side.bid) ∷ []) s0 refl refl (refl, refl, tt) refl refl
