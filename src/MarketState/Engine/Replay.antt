-- ===== src/MarketState/Engine/Replay.antt =====
-- The engine over array books after any history: every slot holds what the history says.
use mantis.Prelude.{
  ℕ, leb, ◌-◌, ◌^◌, ◌≤◌, ◌<◌, ◌≡◌, refl, ◌∙◌, ap, sym, subst, true, false, ◌||◌, some, List, [],
  ◌∷◌, arith, if◌then◌else◌, get_or, get_or-replicate, get_or-set_self, length, Bool-cases, inl,
  inr,
}
use mantis.Events.{HotEvent}
use mantis.MarketState.Book.{OrderBook, BookLaws}
use mantis.MarketState.State.{initial_state}
use mantis.MarketState.ArrayBook.{ArrayBook, array_book}
use mantis.MarketState.ArrayBook
use mantis.MarketState.ArrayBook.Best.{qty_at, clear-eq-default}
use mantis.MarketState.ArrayBook.Lawful.{array_book_laws}
use mantis.MarketState.Engine.{Engine, fresh, new, state_at, is_invalid, process}
use mantis.MarketState.Engine.Process.{still_next, next_state, is_market, process_ignored}
use mantis.MarketState.Engine.Invariant
use mantis.MarketState.Engine.Invariant.{
  process-IsValid, process-Touches, process_others, slot_in_range,
}
use mantis.MarketState.Engine.Effects.{
  State, level_after, under_way_after, received_after, trade_after, time_after,
}
use mantis.MarketState.Engine.Advance.{Advances, next_state-Advances}
use mantis.MarketState.Engine.History.{
  is_for, level_of, under_way_of, received_of, trade_of, time_of, Follows, process_all,
}

made_fresh :
    (B : OrderBook) (max active stale : ℕ) (e : Engine B)
    → new B max active stale ≡ some e
    → (active ≤ max) × (fresh B max active stale ≡ e)
unfolding new
made_fresh B max active stale e made = elim (Bool-cases (leb active max)) [
  | inl fits ↦ (ground arith, cc (rw fits at made))
  | inr over ↦ absurd (cc (rw over at made))
]

module _ (n active : ℕ) where
  fresh-Follows : (slot : ℕ) → Follows n active slot [] (initial_state (array_book n).default)
  unfolding initial_state level_of under_way_of received_of trade_of time_of
  fresh-Follows slot = record {
    levels = λ side j.
        ap (λ b. qty_at b side j) (sym ((clear-eq-default n (ArrayBook.default n)).0))
        ∙ (clear-eq-default n (ArrayBook.default n)).1 side j;
    under_way = refl;
    received = refl;
    trade = refl;
    time = refl;
  }

  others-Follows :
      (slot : ℕ) (ev : HotEvent) (older : List HotEvent) (s : State)
      → is_for active slot ev ≡ false
      → Follows n active slot older s
      → Follows n active slot (ev ∷ older) s
  unfolding level_of under_way_of received_of trade_of time_of
  others-Follows slot ev older s other f = record {
    levels = λ side j. rw other (f.levels side j);
    under_way = rw other f.under_way;
    received = rw other f.received;
    trade = rw other f.trade;
    time = rw other f.time;
  }

  module _ (small : n ≤ 2 ^ 16) where
    own-Follows :
        (slot : ℕ) (ev : HotEvent) (older : List HotEvent) (s s' : State)
        → is_for active slot ev ≡ true
        → Follows n active slot older s
        → Advances n small ev.header ev.body s s'
        → Follows n active slot (ev ∷ older) s'
    unfolding level_of under_way_of received_of trade_of time_of
    own-Follows slot ev older s s' own f a = record {
      levels = λ side j.
          rw own (a.levels side j ∙ ap (level_after n ev.header ev.body side j) (f.levels side j));
      under_way = rw own (a.under_way ∙ ap (under_way_after ev.header ev.body) f.under_way);
      received = rw own (
          a.received
          ∙ ap (λ u. received_after ev.header ev.body u s.snapshot_received) f.under_way
          ∙ ap (received_after ev.header ev.body (under_way_of active slot older)) f.received);
      trade = rw own (a.trade ∙ ap (trade_after ev.header ev.body) f.trade);
      time = rw own (a.time ∙ ap (time_after ev.header ev.body) f.time);
    }

    abbrev B : OrderBook
    B = array_book n

    abbrev L : BookLaws (array_book n)
    L = array_book_laws n small

    module _ (max : ℕ) (e : Engine B) (v : Invariant.IsValid B L max e) (ev : HotEvent) where
      abbrev raw : ℕ
      raw = ev.header.instrument_id

      -- The slot of the event, for an instrument that the engine has.
      own_state :
          is_invalid B e raw ≡ false
          → state_at B (process B e ev) (raw - 1) ≡ next_state B e ev.header ev.body (raw - 1)
      own_state good = elim (Bool-cases (is_market ev.body)) [
        | inl m ↦
            ap (λ xs. get_or xs (raw - 1) (initial_state B.default))
              ((process-Touches B L max e v ev good m).0)
            ∙ get_or-set_self e.instruments (raw - 1) _ (initial_state B.default)
                (slot_in_range B L max e v raw good)
        | inr still ↦
            ap (λ (e' : Engine B). state_at B e' (raw - 1))
              (process_ignored B e ev (ground (arith, still)))
            ∙ still_next B e ev.header ev.body (raw - 1) still
      ]

      other_state :
          (slot : ℕ)
          → e.active_count ≡ active
          → is_for active slot ev ≡ false
          → state_at B (process B e ev) slot ≡ state_at B e slot
      other_state slot same other = elim (Bool-cases (is_invalid B e raw)) [
        | inl bad ↦
            ap (λ (e' : Engine B). state_at B e' slot)
              (process_ignored B e ev (ground (arith, bad)))
        | inr good ↦ process_others B L max e v ev slot (λ q. ground (arith, good, other, same, q))
      ]

    -- The engine after a history: valid, with its slots as the history says.
    record Tracks (max : ℕ) (evs : List HotEvent) (e : Engine (array_book n)) : Type 0 where
      valid : Invariant.IsValid (array_book n) (array_book_laws n small) max e
      active_kept : e.active_count ≡ active
      slots : (slot : ℕ) → Follows n active slot evs (state_at (array_book n) e slot)

    process-active_count :
        (max : ℕ) (e : Engine (array_book n)) (ev : HotEvent)
        → Invariant.IsValid B L max e
        → (process B e ev).active_count ≡ e.active_count
    process-active_count max e ev v =
        elim (Bool-cases
          (is_invalid B e (raw max e v ev) || (if is_market ev.body then false else true))) [
            | inl skip ↦ ap (λ (e' : Engine B). e'.active_count) (process_ignored B e ev skip)
            | inr go ↦ (process-Touches B L max e v ev (ground arith) (ground arith)).1
          ]

    own_slot :
        (max slot : ℕ) (older : List HotEvent) (e : Engine B) (ev : HotEvent)
        → Tracks max older e
        → is_for active slot ev ≡ true
        → Follows n active slot (ev ∷ older) (state_at B (process B e ev) slot)
    own_slot max slot older e ev t own =
        let id : ℕ = ev.header.instrument_id in
        let good : is_invalid B e id ≡ false = ground (arith, own, t.active_kept) in
        let same : id - 1 ≡ slot = ground (arith, own) in
        let k : id - 1 < length e.instruments = slot_in_range B L max e t.valid id good in
        subst (λ i. Follows n active i (ev ∷ older) (state_at B (process B e ev) i)) same
          (subst (Follows n active (id - 1) (ev ∷ older)) (sym (own_state max e t.valid ev good)) (
            own-Follows (id - 1) ev older _ _
              (subst (λ i. is_for active i ev ≡ true) (sym same) own) (t.slots (id - 1))
              (next_state-Advances n small e ev.header ev.body (id - 1) k
                (t.valid.books (id - 1)))))

    process-Tracks :
        (max : ℕ) (older : List HotEvent) (e : Engine B) (ev : HotEvent)
        → Tracks max older e
        → Tracks max (ev ∷ older) (process B e ev)
    process-Tracks max older e ev t = record {
      valid = process-IsValid B L max e t.valid ev;
      active_kept = process-active_count max e ev t.valid ∙ t.active_kept;
      slots = λ slot. elim (Bool-cases (is_for active slot ev)) [
        | inl own ↦ own_slot max slot older e ev t own
        | inr other ↦
            subst (Follows n active slot (ev ∷ older))
              (sym (other_state max e t.valid ev slot t.active_kept other))
              (others-Follows slot ev older _ other (t.slots slot))
      ];
    }

    process_all-Tracks :
        (max stale : ℕ) (evs : List HotEvent)
        → active ≤ max
        → Tracks max evs (process_all n (fresh B max active stale) evs)
    unfolding process_all
    process_all-Tracks max stale [] h = record {
      valid = Invariant.fresh-IsValid B L max active stale h;
      active_kept = refl;
      slots = λ slot.
          subst (Follows n active slot [])
            (sym (get_or-replicate max slot (initial_state B.default))) (fresh-Follows slot);
    }
    process_all-Tracks max stale (ev ∷ older) h =
        process-Tracks max older (process_all n (fresh B max active stale) older) ev
          (process_all-Tracks max stale older h)

-- For an engine that `new` makes over array books of at most 2^16 levels, and any events given to
-- `process` (the list has the newest first), the state of every slot is what the history says, where
-- only the events for the instrument of that slot count, and none if the slot is not active:
-- - the quantity at a level of a side is that of the newest delta at this price and side, unless a delta
--   flagged as a snapshot, which makes it zero, or a top of book, which leaves its own quantity or zero
--   there, came later; it is zero before all of them, and prices outside the book are dropped;
-- - a snapshot is under way after a flagged delta that is not the last of its batch, until a delta that
--   is the last of one;
-- - the book counts as received after a top of book, or after the last delta of a batch that is flagged
--   or comes while a snapshot is under way, until a flagged delta that is not the last of its batch;
-- - the last trade is the newest one, and the time that of the newest delta, trade or top of book;
-- - without such an event the flags are off, there is no last trade and the time is zero.
pub process_all-Follows :
    (n max active stale : ℕ) (e : Engine (array_book n)) (evs : List HotEvent) (slot : ℕ)
    → n ≤ 2 ^ 16
    → new (array_book n) max active stale ≡ some e
    → Follows n active slot evs (state_at (array_book n) (process_all n e evs) slot)
process_all-Follows n max active stale e evs slot small made =
    let (fits, same) = made_fresh (array_book n) max active stale e made in
    subst (λ e'. Follows n active slot evs (state_at (array_book n) (process_all n e' evs) slot))
      same ((process_all-Tracks n active small max stale evs fits).slots slot)
