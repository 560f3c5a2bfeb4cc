-- ===== src/MarketState/Engine/Invariant.antt =====
-- The engine's invariant, that `process` keeps it, and that an event concerns one instrument only.
use mantis.Prelude.{
  ℕ, ◌-◌, ◌≤◌, ◌<◌, ◌≡◌, ◌≢◌, subst, ◌∙◌, sym, ap, true, false, ◌&&◌, ◌||◌, none, some, arith,
  if◌then◌else◌, inl, inr, Bool-cases, get_or, set, length, length-set, get_or-set_ne,
  get_or-set_self, length-replicate, get_or-replicate, ℕ_discrete,
}
use mantis.Types.{InstrumentId}
use mantis.Events.{EventHeader, EventBody, HotEvent, contains, is_snapshot, last_in_batch}
use mantis.MarketState.Book.{OrderBook, BookLaws}
use mantis.MarketState.State.{InstrumentState, initial_state}
use mantis.MarketState.Engine.{
  Engine, fresh, new, is_invalid, state_at, delta_state, on_trade, tob_state, process,
}
use mantis.MarketState.Engine.Quotes.{check_bbo_lem}
use mantis.MarketState.Engine.Process.{
  Touches, next_state, dispatch-Touches, is_market, process_ignored,
}

module _ (B : OrderBook) (L : BookLaws B) where
  open B use {Book, default}
  open L use {IsOk}

  abbrev State : Type 0
  State = InstrumentState Book

  pub record IsValid (max : ℕ) (e : Engine B) : Type 0 where
    pub slots : length e.instruments ≡ max
    pub active_le : e.active_count ≤ max
    pub books : (k : ℕ) → IsOk (state_at B e k).book

  pub fresh-IsValid : (max active stale : ℕ) → active ≤ max → IsValid max (fresh B max active stale)
  unfolding initial_state
  fresh-IsValid max active stale h = record {
    slots = length-replicate max (initial_state default);
    active_le = h;
    books = λ k.
        subst (λ (s : State). IsOk s.book) (sym (get_or-replicate max k (initial_state default)))
          L.default_ok;
  }

  -- `new` gives a fresh and valid engine if the active instruments fit, and panics if not.
  pub new_lem :
      (max active stale : ℕ)
      → (active ≤ max
          → (new B max active stale ≡ some (fresh B max active stale))
            × IsValid max (fresh B max active stale))
        × (max < active → new B max active stale ≡ none)
  unfolding new
  new_lem max active stale =
      (λ h. (ground arith, fresh-IsValid max active stale h), λ h. ground arith)

  pub delta_ok :
      (h : EventHeader) (d : mantis.Events.BookDeltaPayload) (s : State)
      → IsOk s.book
      → IsOk (delta_state B h d s).book
  unfolding delta_state
  delta_ok h d s ok = ground (
    arith,
    L.clear_ok s.book ok,
    L.apply_ok s.book d.price d.qty d.side d.action ok,
    L.apply_ok (B.clear s.book) d.price d.qty d.side d.action,
  )

  pub tob_ok :
      (h : EventHeader) (t : mantis.Events.TopOfBookPayload) (s : State)
      → IsOk s.book
      → IsOk (tob_state B h t s).book
  unfolding tob_state
  tob_ok h t s ok = L.apply_ok _ _ _ _ _ (L.apply_ok _ _ _ _ _ (L.clear_ok _ ok))

  next_ok :
      (e : Engine B) (h : EventHeader) (b : EventBody) (slot : ℕ)
      → slot < length e.instruments
      → IsOk (state_at B e slot).book
      → IsOk (next_state B e h b slot).book
  unfolding next_state on_trade
  next_ok e h (EventBody.book_delta d) slot k ok =
      let ok' = delta_ok h d (state_at B e slot) ok in
      elim (Bool-cases (
        contains h.flags last_in_batch
        && (delta_state B h d (state_at B e slot)).snapshot_received)) [
          | inl y ↦ rw y ((check_bbo_lem B L (delta_state B h d (state_at B e slot)) slot ok').5)
          | inr n ↦ rw n ok'
        ]
  next_ok e h (EventBody.trade t) slot k ok =
      subst (λ (s : State). IsOk s.book)
        (sym (get_or-set_self e.instruments slot _ (initial_state default) k)) ok
  next_ok e h (EventBody.top_of_book t) slot k ok =
      (check_bbo_lem B L (tob_state B h t (state_at B e slot)) slot (tob_ok h t _ ok)).5
  next_ok e h (EventBody.order_ack p) slot k ok = ok
  next_ok e h (EventBody.fill p) slot k ok = ok
  next_ok e h (EventBody.order_reject p) slot k ok = ok
  next_ok e h (EventBody.timer p) slot k ok = ok
  next_ok e h (EventBody.heartbeat p) slot k ok = ok

  module _ (max : ℕ) (e : Engine B) (v : IsValid max e) where
    pub slot_in_range :
        (raw : InstrumentId) → is_invalid B e raw ≡ false → raw - 1 < length e.instruments
    slot_in_range raw h = ground (arith, v.slots, v.active_le)

    pub process-Touches :
        (ev : HotEvent)
        → is_invalid B e ev.header.instrument_id ≡ false
        → is_market ev.body ≡ true
        → Touches B e
            (ev.header.instrument_id - 1)
            (next_state B e ev.header ev.body (ev.header.instrument_id - 1))
            (process B e ev)
    unfolding process
    process-Touches ev good m = rw good (
        dispatch-Touches B e ev.header ev.body (ev.header.instrument_id - 1)
          (slot_in_range ev.header.instrument_id good) m)

    touched-IsValid :
        (slot : ℕ) (s : State) (e' : Engine B)
        → slot < length e.instruments
        → IsOk s.book
        → Touches B e slot s e'
        → IsValid max e'
    touched-IsValid slot s e' k ok (same, active, stale) = record {
      slots = ap length same ∙ length-set e.instruments slot s ∙ v.slots;
      active_le = omega (arith, v.active_le, active);
      books = λ j. elim (ℕ_discrete slot j) [
        | yes at ↦
            subst (λ (x : State). IsOk x.book)
              (sym (
                ap (λ xs. get_or xs j (initial_state default)) same
                ∙ subst (λ (i : ℕ). get_or (set e.instruments slot s) i (initial_state default) ≡ s)
                    at (get_or-set_self e.instruments slot s (initial_state default) k)))
              ok
        | no ne ↦
            subst (λ (x : State). IsOk x.book)
              (sym (
                ap (λ xs. get_or xs j (initial_state default)) same
                ∙ get_or-set_ne e.instruments slot j s (initial_state default) ne))
              (v.books j)
      ];
    }

    -- Whatever the event, the engine stays valid.
    pub process-IsValid : (ev : HotEvent) → IsValid max (process B e ev)
    process-IsValid ev =
        elim (Bool-cases
          (is_invalid B e ev.header.instrument_id || (if is_market ev.body then false else true))) [
            | inl skip ↦ rw (process_ignored B e ev skip) v
            | inr go ↦
                let good : is_invalid B e ev.header.instrument_id ≡ false = ground arith in
                let m : is_market ev.body ≡ true = ground arith in
                let k = slot_in_range ev.header.instrument_id good in
                touched-IsValid _ _ _ k (next_ok e ev.header ev.body _ k (v.books _))
                  (process-Touches ev good m)
          ]

    -- An event changes the state of no instrument but its own.
    pub process_others :
        (ev : HotEvent) (j : ℕ)
        → j ≢ ev.header.instrument_id - 1
        → state_at B (process B e ev) j ≡ state_at B e j
    process_others ev j ne =
        elim (Bool-cases
          (is_invalid B e ev.header.instrument_id || (if is_market ev.body then false else true))) [
            | inl skip ↦ rw (process_ignored B e ev skip)
            | inr go ↦
                let good : is_invalid B e ev.header.instrument_id ≡ false = ground arith in
                let m : is_market ev.body ≡ true = ground arith in
                ap (λ xs. get_or xs j (initial_state default)) ((process-Touches ev good m).0)
                ∙ get_or-set_ne e.instruments _ j _ (initial_state default) (λ q. ne (sym q))
          ]
