-- ===== src/Seqlock/Progress.antt =====
-- What a load returns, and that it returns.
use mantis.Prelude.{
  ℕ, zero, suc, ◌+◌, ◌*◌, ◌%◌, ◌^◌, ◌≤◌, ◌<◌, ◌≡◌, refl, ◌∙◌, sym, ap, subst, true, List, [], ◌∷◌,
  ◌++◌, Option, none, some, length, length-append, get_elem?, arith, ◌==◌, inl, inr, Bool-cases,
  Option-cases, take,
}
use mantis.Seqlock.{
  WriterPhase, ReaderPhase, SeqLock, Reachable, reader_step, read_seq2, copy_out, idle, writing,
  start, copying, returned,
}
use mantis.Seqlock.Consistent.{WriterOk, Clean, ReaderOk, Reachable-IsValid, take-suc}

module _ {W : Type 0} where
  take_all : (xs : List W) (n : ℕ) → length xs ≤ n → take n xs ≡ xs
  take_all [] zero h = refl
  take_all [] (suc n) h = refl
  take_all (x ∷ xs) zero h = absurd (omega arith)
  take_all (x ∷ xs) (suc n) h = ap (λ z. x ∷ z) (take_all xs n (omega arith))

  -- Equal sequence numbers, fewer than 2^63 stores apart, mean that nothing was stored.
  nothing_stored :
      (m : SeqLock W) (p : WriterPhase W) (s since : ℕ) (got : List W)
      → WriterOk m p
      → s ≡ (2 * since) % 2 ^ 64
      → since ≤ m.stores
      → m.stores < since + 2 ^ 63
      → m.seq ≡ s
      → Clean m p since got
      → (p ≡ idle)
        × (m.stores ≡ since)
        × (take (length got) m.current ≡ got)
        × (m.words ≡ m.current)
  nothing_stored m idle s since got h e le lt same c =
      let now : m.stores ≡ since = omega (arith, h.0) in (refl, now, c now, h.1)
  nothing_stored m (writing v t) s since got h e le lt same c = absurd (omega (arith, h.0))

  got_all : (xs : List W) (n : ℕ) → get_elem? xs n ≡ none → length xs ≤ n
  got_all [] n h = omega arith
  got_all (x ∷ xs) zero h = absurd (cc)
  got_all (x ∷ xs) (suc n) h = omega (arith, got_all xs n h)

  returned_value : ReaderPhase W → Option (List W)
  returned_value start = none
  returned_value (copying s since got) = none
  returned_value (returned v) = some v

  -- A load that returns a value from a state that any interleaving leads to, while fewer than 2^63 stores
  -- have finished since its first read of the sequence number, returns the value of the last finished
  -- store, whole; none is in progress, and none has finished since that read.
  pub load_consistent :
      (initial : List W) (m : SeqLock W) (s since : ℕ) (got v : List W)
      → Reachable initial m
      → m.reader ≡ copying s since got
      → m.stores < since + 2 ^ 63
      → (reader_step m m.reader).reader ≡ returned v
      → (v ≡ m.current) × (m.writer ≡ idle) × (m.stores ≡ since)
  unfolding reader_step returned_value
  load_consistent initial m s since got v r e lt out =
      let h = Reachable-IsValid initial m r in
      let ok = subst (ReaderOk m) e h.reader_ok in
      let step : (copy_out m s since got (get_elem? m.words (length got))).reader ≡ returned v =
        ap (λ z. (reader_step m z).reader) (sym e) ∙ out in
      elim (Option-cases (get_elem? m.words (length got))) [
        | inr (w, more) ↦ absurd (
            let bad =
              ap (λ z. returned_value (copy_out m s since got z).reader) (sym more)
              ∙ ap returned_value step in
            cc)
        | inl done ↦
            let last : (read_seq2 m s got).reader ≡ returned v =
              ap (λ z. (copy_out m s since got z).reader) (sym done) ∙ step in
            elim (Bool-cases (m.seq == s)) [
              | inr moved ↦
                  let there : (read_seq2 m s got).reader ≡ start = rw moved refl in
                  absurd (let bad = ap returned_value (sym there ∙ last) in cc)
              | inl same ↦
                  let there : (read_seq2 m s got).reader ≡ returned got = rw same refl in
                  let value = ap returned_value (sym there ∙ last) in
                  let is_v : got ≡ v = cc in
                  let quiet =
                    nothing_stored m m.writer s since got h.writer_ok ok.0 ok.1 lt (ground arith)
                      ok.3 in
                  let long = got_all m.words (length got) done in
                  let whole = take_all m.current (length got) (omega (arith, ap length quiet.3)) in
                  (sym is_v ∙ sym quiet.2 ∙ whole, quiet.0, quiet.1)
            ]
      ]

  -- The reader alone, for a number of steps.
  unfoldable pub run : ℕ → SeqLock W → SeqLock W
  run zero m = m
  run (suc k) m = run k (reader_step m m.reader)

  get_elem?-some : (xs : List W) (n : ℕ) → n < length xs → (w : W) × (get_elem? xs n ≡ some w)
  get_elem?-some [] n h = absurd (omega arith)
  get_elem?-some (x ∷ xs) zero h = (x, refl)
  get_elem?-some (x ∷ xs) (suc n) h = get_elem?-some xs n (omega arith)

  get_elem?-none : (xs : List W) (n : ℕ) → length xs ≤ n → get_elem? xs n ≡ none
  get_elem?-none [] n h = refl
  get_elem?-none (x ∷ xs) zero h = absurd (omega arith)
  get_elem?-none (x ∷ xs) (suc n) h = get_elem?-none xs n (omega arith)

  -- The copy of the last `k` words, and the second read of the number.
  copy_rest :
      (k : ℕ) (m : SeqLock W) (since : ℕ) (got : List W)
      → take (length got) m.words ≡ got
      → k + length got ≡ length m.words
      → (run (suc k) (record m { reader = copying m.seq since got })).reader ≡ returned m.words
  unfolding run reader_step
  copy_rest zero m since got h l =
      let done = get_elem?-none m.words (length got) (omega arith) in
      let same : (m.seq == m.seq) ≡ true = ground arith in
      let whole : got ≡ m.words = sym h ∙ take_all m.words (length got) (omega arith) in
      rw (done, same) (ap returned whole)
  copy_rest (suc k) m since got h l =
      let (w, more) = get_elem?-some m.words (length got) (omega arith) in
      let size : length (got ++ (w ∷ [])) ≡ suc (length got) =
        length-append got (w ∷ []) ∙ omega arith in
      let prefix : take (length (got ++ (w ∷ []))) m.words ≡ got ++ (w ∷ []) =
        ap (λ z. take z m.words) size
        ∙ take-suc m.words (length got) w more
        ∙ ap (λ z. z ++ (w ∷ [])) h in
      let here : SeqLock W = record m { reader = copying m.seq since got } in
      ap (λ z. (run (suc k) (copy_out here m.seq since got z)).reader) more
      ∙ copy_rest k m since (got ++ (w ∷ [])) prefix (omega arith)

  -- When no store is in progress, a load that starts, and whose steps no store interrupts, returns after
  -- one step for each word and two for the sequence number, with the value of the last finished store.
  pub load_alone :
      (initial : List W) (m : SeqLock W)
      → Reachable initial m
      → m.writer ≡ idle
      → m.reader ≡ start
      → (run (2 + length m.words) m).reader ≡ returned m.current
  unfolding run reader_step
  load_alone initial m r e f =
      let h = Reachable-IsValid initial m r in
      let ok = subst (WriterOk m) e h.writer_ok in
      let even : (m.seq % 2 == 0) ≡ true = ground (arith, ok.0) in
      let steps : 2 + length m.words ≡ suc (suc (length m.words)) = omega arith in
      let begins : reader_step m m.reader ≡ record m { reader = copying m.seq m.stores [] } =
        ap (reader_step m) f ∙ rw even refl in
      ap (λ k. (run k m).reader) steps
      ∙ ap (λ z. (run (suc (length m.words)) z).reader) begins
      ∙ copy_rest (length m.words) m m.stores [] refl (omega arith)
      ∙ ap returned ok.1
