-- ===== src/MarketState/Engine/Advance.antt =====
-- What an event makes of the state of its instrument: every level, both flags, the last trade and the
-- time of the last event follow the event alone.
use mantis.Prelude.{
  ℕ, ◌^◌, ◌≤◌, ◌<◌, ◌≡◌, refl, ◌∙◌, ◌&&◌, arith, inl, inr, Bool-cases, get_or-set_self, length,
}
use mantis.Types.{Side}
use mantis.Events.{
  EventHeader, EventBody, BookDeltaPayload, TopOfBookPayload, contains, last_in_batch,
}
use mantis.MarketState.State.{initial_state}
use mantis.MarketState.ArrayBook.{array_book}
use mantis.MarketState.ArrayBook.Best.{IsValid, qty_at}
use mantis.MarketState.ArrayBook.Lawful.{array_book_laws}
use mantis.MarketState.Engine.{Engine, state_at, delta_state, on_trade, tob_state}
use mantis.MarketState.Engine.Process.{next_state}
use mantis.MarketState.Engine.Invariant.{delta_ok, tob_ok}
use mantis.MarketState.Engine.Effects.{
  State, Same, level_after, under_way_after, received_after, trade_after, time_after,
  check_bbo-Same, delta_levels, tob_levels,
}

module _ (n : ℕ) (small : n ≤ 2 ^ 16) where
  -- What an event makes of the state of its instrument.
  pub record Advances (h : EventHeader) (b : EventBody) (s s' : State) : Type 0 where
    pub levels :
        (side : Side) (j : ℕ)
        → qty_at s'.book side j ≡ level_after n h b side j (qty_at s.book side j)
    pub under_way : s'.in_snapshot ≡ under_way_after h b s.in_snapshot
    pub received : s'.snapshot_received ≡ received_after h b s.in_snapshot s.snapshot_received
    pub trade : s'.last_trade ≡ trade_after h b s.last_trade
    pub time : s'.last_event_ts ≡ time_after h b s.last_event_ts

  delta-Advances :
      (h : EventHeader) (d : BookDeltaPayload) (s : State)
      → IsValid n s.book
      → Advances h (EventBody.book_delta d) s (delta_state (array_book n) h d s)
  unfolding delta_state
  delta-Advances h d s v = record {
    levels = λ side j. delta_levels n small h d s side j v;
    under_way = ground arith;
    received = ground arith;
    trade = ground arith;
    time = ground arith;
  }

  tob-Advances :
      (h : EventHeader) (t : TopOfBookPayload) (s : State)
      → IsValid n s.book
      → Advances h (EventBody.top_of_book t) s (tob_state (array_book n) h t s)
  unfolding tob_state
  tob-Advances h t s v = record {
    levels = λ side j. tob_levels n small h t s side j v;
    under_way = refl;
    received = refl;
    trade = refl;
    time = refl;
  }

  then_Same :
      (h : EventHeader) (b : EventBody) (s s' s'' : State)
      → Advances h b s s'
      → Same s' s''
      → Advances h b s s''
  then_Same h b s s' s'' a same = record {
    levels = λ side j. same.levels side j ∙ a.levels side j;
    under_way = same.under_way ∙ a.under_way;
    received = same.received ∙ a.received;
    trade = same.trade ∙ a.trade;
    time = same.time ∙ a.time;
  }

  -- Every event that is dispatched to a slot advances its state, the BBO check included.
  pub next_state-Advances :
      (e : Engine (array_book n)) (h : EventHeader) (b : EventBody) (slot : ℕ)
      → slot < length e.instruments
      → IsValid n (state_at (array_book n) e slot).book
      → Advances h b (state_at (array_book n) e slot) (next_state (array_book n) e h b slot)
  unfolding next_state on_trade
  next_state-Advances e h (EventBody.book_delta d) slot k v =
      let s : State = state_at (array_book n) e slot in
      let s' : State = delta_state (array_book n) h d s in
      let ok = delta_ok (array_book n) (array_book_laws n small) h d s v in
      elim (Bool-cases (contains h.flags last_in_batch && s'.snapshot_received)) [
        | inl y ↦
            rw y (then_Same h _ s s' _ (delta-Advances h d s v) (check_bbo-Same n small s' slot ok))
        | inr no_check ↦ rw no_check (delta-Advances h d s v)
      ]
  next_state-Advances e h (EventBody.trade t) slot k v =
      rw (get_or-set_self e.instruments slot _ (initial_state (array_book n).default) k) (record {
        levels = λ side j. refl;
        under_way = refl;
        received = refl;
        trade = refl;
        time = refl;
      })
  next_state-Advances e h (EventBody.top_of_book t) slot k v =
      let s : State = state_at (array_book n) e slot in
      let s' : State = tob_state (array_book n) h t s in
      let ok = tob_ok (array_book n) (array_book_laws n small) h t s v in
      then_Same h _ s s' _ (tob-Advances h t s v) (check_bbo-Same n small s' slot ok)
  next_state-Advances e h (EventBody.order_ack p) slot k v = record {
    levels = λ side j. refl;
    under_way = refl;
    received = refl;
    trade = refl;
    time = refl;
  }
  next_state-Advances e h (EventBody.fill p) slot k v = record {
    levels = λ side j. refl;
    under_way = refl;
    received = refl;
    trade = refl;
    time = refl;
  }
  next_state-Advances e h (EventBody.order_reject p) slot k v = record {
    levels = λ side j. refl;
    under_way = refl;
    received = refl;
    trade = refl;
    time = refl;
  }
  next_state-Advances e h (EventBody.timer p) slot k v = record {
    levels = λ side j. refl;
    under_way = refl;
    received = refl;
    trade = refl;
    time = refl;
  }
  next_state-Advances e h (EventBody.heartbeat p) slot k v = record {
    levels = λ side j. refl;
    under_way = refl;
    received = refl;
    trade = refl;
    time = refl;
  }
