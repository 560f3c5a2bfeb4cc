-- ===== src/MarketState/Engine/Process.antt =====
-- `process` as a whole: which events it ignores, and the state that one event leaves in its slot.
use mantis.Prelude.{
  ℕ, ◌-◌, ◌<◌, ◌≡◌, refl, ap, sym, Bool, true, false, ◌&&◌, ◌||◌, arith, if◌then◌else◌, inl, inr,
  Bool-cases, get_or, set, length, get_or-set_self,
}
use mantis.Events.{EventHeader, EventBody, HotEvent, contains, last_in_batch}
use mantis.MarketState.Book.{OrderBook}
use mantis.MarketState.State.{InstrumentState, initial_state}
use mantis.MarketState.Engine.{
  Engine, is_invalid, state_at, check_bbo, publish, delta_state, on_delta, on_trade, tob_state,
  on_tob, dispatch, process,
}

-- The kinds of event that update an instrument.
abbrev pub is_market : EventBody → Bool
is_market (EventBody.book_delta d) = true
is_market (EventBody.trade t) = true
is_market (EventBody.top_of_book t) = true
is_market _ = false

module _ (B : OrderBook) where
  open B use {Book, default}

  -- An event for an instrument that the engine does not have, and any event that is not market data,
  -- changes nothing.
  pub process_ignored :
      (e : Engine B) (ev : HotEvent)
      → is_invalid B e ev.header.instrument_id || (if is_market ev.body then false else true) ≡ true
      → process B e ev ≡ e
  unfolding process
  process_ignored e ev h = elim (Bool-cases (is_invalid B e ev.header.instrument_id)) [
    | inl bad ↦ rw bad
    | inr good ↦ rw good (ignored_body ev.body (rw good at h))
  ]
    where
      ignored_body :
          (b : EventBody)
          → (if is_market b then false else true) ≡ true
          → dispatch B e ev.header b (ev.header.instrument_id - 1) ≡ e
      ignored_body (EventBody.book_delta d) k = absurd (cc)
      ignored_body (EventBody.trade t) k = absurd (cc)
      ignored_body (EventBody.top_of_book t) k = absurd (cc)
      ignored_body (EventBody.order_ack p) k = refl
      ignored_body (EventBody.fill p) k = refl
      ignored_body (EventBody.order_reject p) k = refl
      ignored_body (EventBody.timer p) k = refl
      ignored_body (EventBody.heartbeat p) k = refl

  abbrev State : Type 0
  State = InstrumentState Book

  -- The instruments after an update of one slot, and the settings that no update changes.
  abbrev pub Touches : Engine B → ℕ → State → Engine B → Type 0
  Touches e slot s e' =
      (e'.instruments ≡ set e.instruments slot s)
      × (e'.active_count ≡ e.active_count)
      × (e'.stale_timeout_ns ≡ e.stale_timeout_ns)

  pub publish-Touches :
      (e : Engine B) (slot : ℕ) (s : State)
      → Touches e slot (check_bbo B s slot).1 (publish B e slot s)
  unfolding publish
  publish-Touches e slot s = ground arith

  -- The state of the instrument after a market event.
  unfoldable pub next_state : Engine B → EventHeader → EventBody → ℕ → State
  next_state e h (EventBody.book_delta d) slot =
      let s = delta_state B h d (state_at B e slot) in
      if contains h.flags last_in_batch && s.snapshot_received then (check_bbo B s slot).1 else s
  next_state e h (EventBody.top_of_book t) slot =
      (check_bbo B (tob_state B h t (state_at B e slot)) slot).1
  next_state e h (EventBody.trade t) slot =
      get_or (on_trade B e h t slot).instruments slot (initial_state default)
  next_state e h _ slot = state_at B e slot

  pub dispatch-Touches :
      (e : Engine B) (h : EventHeader) (b : EventBody) (slot : ℕ)
      → slot < length e.instruments
      → is_market b ≡ true
      → Touches e slot (next_state e h b slot) (dispatch B e h b slot)
  unfolding next_state on_delta on_trade on_tob
  dispatch-Touches e h (EventBody.book_delta d) slot k m =
      elim (Bool-cases (
        contains h.flags last_in_batch
        && (delta_state B h d (state_at B e slot)).snapshot_received)) [
          | inl y ↦ rw y (publish-Touches e slot (delta_state B h d (state_at B e slot)))
          | inr n ↦ rw n (refl, refl, refl)
        ]
  dispatch-Touches e h (EventBody.trade t) slot k m = (
    ap (set e.instruments slot)
        (sym (get_or-set_self e.instruments slot _ (initial_state default) k)),
    refl,
    refl,
  )
  dispatch-Touches e h (EventBody.top_of_book t) slot k m =
      publish-Touches e slot (tob_state B h t (state_at B e slot))
  dispatch-Touches e h (EventBody.order_ack p) slot k m = absurd (cc)
  dispatch-Touches e h (EventBody.fill p) slot k m = absurd (cc)
  dispatch-Touches e h (EventBody.order_reject p) slot k m = absurd (cc)
  dispatch-Touches e h (EventBody.timer p) slot k m = absurd (cc)
  dispatch-Touches e h (EventBody.heartbeat p) slot k m = absurd (cc)

  -- An event that is not market data keeps the state.
  pub still_next :
      (e : Engine B) (h : EventHeader) (b : EventBody) (slot : ℕ)
      → is_market b ≡ false
      → state_at B e slot ≡ next_state e h b slot
  unfolding next_state
  still_next e h (EventBody.book_delta d) slot m = absurd (cc)
  still_next e h (EventBody.trade t) slot m = absurd (cc)
  still_next e h (EventBody.top_of_book t) slot m = absurd (cc)
  still_next e h (EventBody.order_ack p) slot m = refl
  still_next e h (EventBody.fill p) slot m = refl
  still_next e h (EventBody.order_reject p) slot m = refl
  still_next e h (EventBody.timer p) slot m = refl
  still_next e h (EventBody.heartbeat p) slot m = refl
