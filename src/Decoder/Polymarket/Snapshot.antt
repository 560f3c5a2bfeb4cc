-- ===== src/Decoder/Polymarket/Snapshot.antt =====
-- A snapshot message, from the bytes to the output buffer: the loops of `decode_book` against the rows.
use mantis.Prelude.{
  ℕ, zero, suc, ◌+◌, ◌-◌, ◌^◌, ◌≤◌, ◌<◌, ◌&&◌, ◌≡◌, refl, ap, ◌∙◌, ◌≢◌, inl, inr, arith, true,
  false, Option, none, some, List, [], ◌∷◌, ◌++◌, ltb, length, get_elem?, take, drop,
}
use mantis.Types.{Side}
use mantis.Events.{HotEvent, with_flags, last_in_batch}
use mantis.Instrument.{InstrumentMeta}
use mantis.Registry.Dict.{Text}
use mantis.Decoder.{Attempt, ◌>>=◌, IsValidMeta, decimal, settle}
use mantis.Decoder.Valid.{Attempt-cases, bind_assoc, ticks-done, lots-done, decimal-total}
use mantis.Decoder.Polymarket.{
  PolymarketMarketDecoder, Batch, Decoded, close_batch, is_nil, flag_found, flag_last, decode_book,
  emit_levels, parse_price_qty, resolve,
}
use mantis.Decoder.Polymarket.Schema.{BookLevel, PolymarketBookMsg}
use mantis.Decoder.Polymarket.Rows.{
  Row, rows, row_event, stamp, length-stamp, batch_of, emit_levels-rows,
}

pub parse_price_qty-total :
    (decimals : ℕ) (p s : Text) (m : InstrumentMeta)
    → IsValidMeta m
    → parse_price_qty decimals p s m ≢ Attempt.panicked
unfolding parse_price_qty
parse_price_qty-total decimals p s m h e = elim (Attempt-cases (decimal decimals p)) [
  | inl (x, dp) ↦ elim (Attempt-cases (decimal decimals s)) [
    | inl (y, ds) ↦
        let e' = rw (dp, ds, ticks-done m x h, lots-done m y h) at e in absurd (ground arith)
    | inr (inl ds) ↦ let e' = rw (dp, ds) at e in absurd (ground arith)
    | inr (inr ds) ↦ decimal-total decimals s ds
  ]
  | inr (inl dp) ↦ let e' = rw dp at e in absurd (ground arith)
  | inr (inr dp) ↦ decimal-total decimals p dp
]

-- The last event of a batch, flagged.
abbrev pub flagged : HotEvent → HotEvent
flagged e = record e {
  header = record e.header { flags = with_flags e.header.flags last_in_batch };
}

abbrev pub mark_last : List HotEvent → List HotEvent
mark_last [] = []
mark_last (e ∷ []) = flagged e ∷ []
mark_last (e ∷ e' ∷ es) = e ∷ mark_last (e' ∷ es)

flag_found-cons :
    (e : HotEvent) (out : List HotEvent) (i : ℕ) (found : Option HotEvent)
    → flag_found (e ∷ out) (suc i) found ≡ e ∷ flag_found out i found
flag_found-cons e out i none = refl
flag_found-cons e out i (some x) = refl

flag_last-mark_last :
    (e : HotEvent) (es rest : List HotEvent)
    → flag_last ((e ∷ es) ++ rest) (length es) ≡ mark_last (e ∷ es) ++ rest
flag_last-mark_last e [] rest = refl
flag_last-mark_last e (e' ∷ es) rest =
    flag_found-cons e ((e' ∷ es) ++ rest) (length es) (get_elem? ((e' ∷ es) ++ rest) (length es))
    ∙ ap (λ z. e ∷ z) (flag_last-mark_last e' es rest)

-- Both loops together take the first 64 rows.
take-take :
    (room : ℕ) (xs ys : List Row) (room' : ℕ)
    → length (take room xs) + room' ≡ room
    → take room xs ++ take room' ys ≡ take room (xs ++ ys)
take-take zero xs ys room' h = ap (λ z. take z ys) {x = room'} {y = 0} (omega arith)
take-take (suc room) [] ys room' h = ap (λ z. take z ys) {x = room'} {y = suc room} (omega arith)
take-take (suc room) (x ∷ xs) ys room' h =
    ap (λ z. x ∷ z) (take-take room xs ys room' (omega arith))

-- The rows of a message that fit into the buffer, bids first, and what a call leaves of them.
abbrev pub kept : ℕ → InstrumentMeta → PolymarketBookMsg → List Row
kept decimals m msg =
    take 64 (rows decimals m Side.bid 0 msg.bids ++ rows decimals m Side.ask 0 msg.asks)

abbrev pub written : PolymarketMarketDecoder → ℕ → ℕ → List HotEvent → List Row → Decoded
written d recv_ts id out rs = (
  record d { seq = d.seq + length rs },
  (
    mark_last (stamp (row_event recv_ts id d.source_id) d.seq rs) ++ drop (length rs) out,
    length rs,
  ),
)

close_batch-batch_of :
    (d : PolymarketMarketDecoder) (recv_ts id : ℕ) (out : List HotEvent) (rs : List Row)
    → close_batch d (batch_of (row_event recv_ts id d.source_id) d.seq out rs)
      ≡ written d recv_ts id out rs
close_batch-batch_of d recv_ts id out [] = refl
close_batch-batch_of d recv_ts id out (r ∷ rs) =
    let f = row_event recv_ts id d.source_id in
    let positive : ltb 0 (suc (length rs)) ≡ true = ground arith in
    let before : suc (length rs) - 1 ≡ length (stamp f (d.seq + 1) rs) =
      omega (arith, length-stamp f (d.seq + 1) rs) in
    ap (λ z. (record d { seq = d.seq + suc (length rs) }, (z, suc (length rs))))
      (rw positive refl
        ∙ ap (flag_last (stamp f d.seq (r ∷ rs) ++ drop (suc (length rs)) out)) before
        ∙ flag_last-mark_last (f (d.seq + 1) r) (stamp f (d.seq + 1) rs)
            (drop (suc (length rs)) out))

length-take_le : (n : ℕ) (xs : List Row) → length (take n xs) ≤ n
length-take_le zero xs = omega arith
length-take_le (suc n) [] = omega arith
length-take_le (suc n) (x ∷ xs) = omega (arith, length-take_le n xs)

module _ (decimals recv_ts id source_id seq : ℕ) (m : InstrumentMeta) (out : List HotEvent) where
  -- The loop over the asks goes on where the one over the bids stopped.
  both_loops :
      (bids asks : List BookLevel)
      → IsValidMeta m
      → length out ≡ 64
      → seq + 64 < 2 ^ 64
      → (emit_levels decimals recv_ts id source_id m Side.bid 0 bids
            (record { seq = seq; count = 0; out = out })
          >>= λ b. emit_levels decimals recv_ts id source_id m Side.ask 0 asks b)
        ≡ Attempt.done (
            batch_of
              (row_event recv_ts id source_id)
              seq
              out
              (take 64 (rows decimals m Side.bid 0 bids ++ rows decimals m Side.ask 0 asks)))
  both_loops bids asks valid k u =
      let total : (p s : Text) → parse_price_qty decimals p s m ≢ Attempt.panicked =
        λ p s. parse_price_qty-total decimals p s m valid in
      let rs = take 64 (rows decimals m Side.bid 0 bids) in
      let room = 64 - length rs in
      let fits : length rs + room ≡ 64 =
        omega (arith, length-take_le 64 (rows decimals m Side.bid 0 bids)) in
      let start : seq ≡ seq + 0 = omega arith in
      let first =
        ap
          (λ n.
            emit_levels decimals recv_ts id source_id m Side.bid 0 bids
              (record { seq = n; count = 0; out = out }))
          start
        ∙ emit_levels-rows decimals recv_ts id source_id m Side.bid 0 bids seq 64 out [] total
            (omega arith) k u in
      ap (λ a. a >>= λ b. emit_levels decimals recv_ts id source_id m Side.ask 0 asks b) first
      ∙ emit_levels-rows decimals recv_ts id source_id m Side.ask 0 asks seq room out rs total fits
          k u
      ∙ ap (λ z. Attempt.done (batch_of (row_event recv_ts id source_id) seq out z))
          (take-take 64 (rows decimals m Side.bid 0 bids) (rows decimals m Side.ask 0 asks) room
            fits)

module _ (decimals : ℕ) (parse_book : Text → Option PolymarketBookMsg) (d : PolymarketMarketDecoder)
    (buf : Text) (recv_ts id : ℕ) (out : List HotEvent) (m : InstrumentMeta) where
  -- With a level on a side at least.
  pub decode_book-levels :
      (msg : PolymarketBookMsg)
      → is_nil msg.bids && is_nil msg.asks ≡ false
      → parse_book buf ≡ some msg
      → resolve d msg.asset_id ≡ some (id, m)
      → IsValidMeta m
      → length out ≡ 64
      → d.seq + 64 < 2 ^ 64
      → settle (d, (out, 0)) (decode_book decimals parse_book d buf recv_ts out)
        ≡ some (written d recv_ts id out (kept decimals m msg))
  unfolding decode_book
  decode_book-levels msg some_level p r valid k u =
      let bids : Attempt Batch =
        emit_levels decimals recv_ts id d.source_id m Side.bid 0 msg.bids
          (record { seq = d.seq; count = 0; out = out }) in
      let asks : Batch → Attempt Batch =
        emit_levels decimals recv_ts id d.source_id m Side.ask 0 msg.asks in
      let close : Batch → Attempt Decoded = λ b. Attempt.done (close_batch d b) in
      rw (p, r, some_level)
        (ap (settle (d, (out, 0))) (
            bind_assoc bids asks close
            ∙ ap (λ a. a >>= close)
                (both_loops decimals recv_ts id d.source_id d.seq m out msg.bids msg.asks valid k
                  u))
          ∙ ap some (close_batch-batch_of d recv_ts id out (kept decimals m msg)))

  -- Without any level the call returns early, and there is nothing to write.
  pub decode_book-no_levels :
      (msg : PolymarketBookMsg)
      → msg.bids ≡ []
      → msg.asks ≡ []
      → parse_book buf ≡ some msg
      → resolve d msg.asset_id ≡ some (id, m)
      → settle (d, (out, 0)) (decode_book decimals parse_book d buf recv_ts out)
        ≡ some (written d recv_ts id out (kept decimals m msg))
  unfolding decode_book rows
  decode_book-no_levels msg b a p r =
      let same : d.seq ≡ d.seq + 0 = omega arith in
      rw (p, r, b, a) (ap (λ n. some (record d { seq = n }, (out, 0))) same)
