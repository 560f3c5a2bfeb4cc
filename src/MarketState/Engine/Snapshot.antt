-- ===== src/MarketState/Engine/Snapshot.antt =====
-- The snapshot protocol: when a book counts as received, when the engine may publish, and what a
-- batch of deltas leaves in the book.
use mantis.Prelude.{
  ℕ, ◌≤◌, ◌<◌, ◌≡◌, refl, ◌∙◌, ap, true, false, ◌&&◌, ◌||◌, arith, if◌then◌else◌, ◌==◌, List, [],
  ◌∷◌, ◌++◌, ◌^◌,
}
use mantis.Types.{Side, side_eq, zero_lots}
use mantis.Prelude.Int.{pos}
use mantis.Events.{EventHeader, BookDeltaPayload, contains, is_snapshot, last_in_batch}
use mantis.MarketState.Book.{OrderBook}
use mantis.MarketState.State.{InstrumentState}
use mantis.MarketState.Engine.{Engine, state_at, delta_state, on_delta}
use mantis.MarketState.ArrayBook.{ArrayBook, array_book, level}
use mantis.MarketState.ArrayBook
use mantis.MarketState.ArrayBook.Best.{
  qty_at, qty_at-apply_delta, clear-eq-default, default-IsValid,
}

module _ (B : OrderBook) where
  open B use {Book, apply_delta, clear}

  abbrev State : Type 0
  State = InstrumentState Book

  -- The two flags of the state machine after a delta, and the book before the BBO check.
  pub delta_state_lem :
      (h : EventHeader) (d : BookDeltaPayload) (s : State)
      → let snap = contains h.flags is_snapshot in
        let last = contains h.flags last_in_batch in
        let s' = delta_state B h d s in
        (s'.in_snapshot ≡ (if last then false else snap || s.in_snapshot))
        × (s'.snapshot_received ≡ (
            if last && (snap || s.in_snapshot)
            then true
            else (if snap then false else s.snapshot_received)))
        × (s'.book
            ≡ apply_delta (if snap then clear s.book else s.book) d.price d.qty d.side d.action)
        × (s'.seq ≡ h.seq)
        × (s'.last_event_ts ≡ h.recv_ts)
  unfolding delta_state
  delta_state_lem h d s = ground arith

  -- A delta publishes nothing unless it ends its batch and the snapshot has been received by then:
  -- in every other case the last top of book and its flag stay as they are.
  pub on_delta_silent :
      (e : Engine B) (h : EventHeader) (d : BookDeltaPayload) (slot : ℕ)
      → contains h.flags last_in_batch && (delta_state B h d (state_at B e slot)).snapshot_received
        ≡ false
      → ((on_delta B e h d slot).last_tob ≡ e.last_tob)
        × ((on_delta B e h d slot).tob_changed ≡ e.tob_changed)
  unfolding on_delta
  on_delta_silent e h d slot n = rw n (refl, refl)

  -- A batch of deltas in a row, on the state of one instrument.
  pub run_deltas : List (EventHeader × BookDeltaPayload) → State → State
  run_deltas [] s = s
  run_deltas ((h, d) ∷ rest) s = run_deltas rest (delta_state B h d s)

  -- The same deltas on a book alone.
  pub apply_all : List (EventHeader × BookDeltaPayload) → Book → Book
  apply_all [] b = b
  apply_all ((h, d) ∷ rest) b = apply_all rest (apply_delta b d.price d.qty d.side d.action)

  -- No delta of the list is flagged as a snapshot or as the last of its batch.
  abbrev pub Plain : List (EventHeader × BookDeltaPayload) → Type 0
  Plain [] = Unit {0}
  Plain ((h, d) ∷ rest) =
      (contains h.flags is_snapshot ≡ false) × (contains h.flags last_in_batch ≡ false) × Plain rest

  run-Plain :
      (ds : List (EventHeader × BookDeltaPayload)) (s : State)
      → Plain ds
      → ((run_deltas ds s).book ≡ apply_all ds s.book)
        × ((run_deltas ds s).in_snapshot ≡ s.in_snapshot)
        × ((run_deltas ds s).snapshot_received ≡ s.snapshot_received)
  unfolding run_deltas apply_all
  run-Plain [] s p = (refl, refl, refl)
  run-Plain ((h, d) ∷ rest) s (a, b, p) =
      ground (arith, delta_state_lem h d s, run-Plain rest (delta_state B h d s) p)

  run_deltas-append :
      (xs ys : List (EventHeader × BookDeltaPayload)) (s : State)
      → run_deltas (xs ++ ys) s ≡ run_deltas ys (run_deltas xs s)
  unfolding run_deltas
  run_deltas-append [] ys s = refl
  run_deltas-append ((h, d) ∷ xs) ys s = run_deltas-append xs ys (delta_state B h d s)

  apply_all-append :
      (xs ys : List (EventHeader × BookDeltaPayload)) (b : Book)
      → apply_all (xs ++ ys) b ≡ apply_all ys (apply_all xs b)
  unfolding apply_all
  apply_all-append [] ys b = refl
  apply_all-append ((h, d) ∷ xs) ys b =
      apply_all-append xs ys (apply_delta b d.price d.qty d.side d.action)

  -- A snapshot whose first delta alone carries the snapshot flag, and whose last delta ends the
  -- batch, leaves the state received and the book with exactly the deltas of the batch applied to
  -- an empty book, whatever was there before.
  pub snapshot_batch :
      (h0 h1 : EventHeader) (d0 d1 : BookDeltaPayload) (ds : List (EventHeader × BookDeltaPayload))
      (s : State)
      → contains h0.flags is_snapshot ≡ true
      → contains h0.flags last_in_batch ≡ false
      → Plain ds
      → contains h1.flags is_snapshot ≡ false
      → contains h1.flags last_in_batch ≡ true
      → let s' = run_deltas ((h0, d0) ∷ (ds ++ ((h1, d1) ∷ []))) s in
        (s'.snapshot_received ≡ true)
        × (s'.in_snapshot ≡ false)
        × (s'.book ≡ apply_all ((h0, d0) ∷ (ds ++ ((h1, d1) ∷ []))) (clear s.book))
  unfolding run_deltas apply_all
  snapshot_batch h0 h1 d0 d1 ds s a b p c f =
      let s0 = delta_state B h0 d0 s in
      rw
        (
          run_deltas-append ds ((h1, d1) ∷ []) s0,
          apply_all-append ds ((h1, d1) ∷ [])
              (apply_delta (clear s.book) d0.price d0.qty d0.side d0.action),
        )
        (ground (
          arith,
          delta_state_lem h0 d0 s,
          run-Plain ds s0 p,
          delta_state_lem h1 d1 (run_deltas ds s0),
        ))

  last_flagged :
      (ds : List (EventHeader × BookDeltaPayload)) (h : EventHeader) (d : BookDeltaPayload)
      (s : State)
      → contains h.flags is_snapshot ≡ true
      → (run_deltas (ds ++ ((h, d) ∷ [])) s).book
        ≡ apply_delta (clear (run_deltas ds s).book) d.price d.qty d.side d.action
  unfolding run_deltas
  last_flagged ds h d s a =
      rw (run_deltas-append ds ((h, d) ∷ []) s)
        (ground (arith, delta_state_lem h d (run_deltas ds s)))

-- A delta with the snapshot flag empties the book first, also in the middle of a snapshot. So when
-- the last delta of a batch carries the flag too, only its own level is left in an array book,
-- whatever the deltas before it were.
pub flagged_levels_lost :
    (n i : ℕ) (ds : List (EventHeader × BookDeltaPayload)) (h : EventHeader) (d : BookDeltaPayload)
    (s : InstrumentState ArrayBook) (side : Side) (j : ℕ)
    → n ≤ 2 ^ 16
    → i < n
    → d.price ≡ pos i
    → contains h.flags is_snapshot ≡ true
    → qty_at (run_deltas (array_book n) (ds ++ ((h, d) ∷ [])) s).book side j
      ≡ (if side_eq d.side side && i == j then d.qty else zero_lots)
flagged_levels_lost n i ds h d s side j small k e a =
    let before = (run_deltas (array_book n) ds s).book in
    let empty = clear-eq-default n before in
    rw (last_flagged (array_book n) ds h d s a, e)
      (qty_at-apply_delta n (ArrayBook.clear n before) i d.qty d.side d.action side j
          (rw (empty.0) (default-IsValid n small)) k
        ∙ ap (λ q. if side_eq d.side side && i == j then d.qty else q) (empty.1 side j))
