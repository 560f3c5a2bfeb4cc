-- ===== src/Seqlock/Consistent.antt =====
-- No torn read: what a load returns is a value that a store left whole.
use mantis.Prelude.{
  ℕ, zero, suc, ◌+◌, ◌*◌, ◌%◌, ◌^◌, ◌≤◌, ◌<◌, ◌≡◌, refl, ◌∙◌, sym, ap, subst, inl, inr, List, [],
  ◌∷◌, ◌++◌, some, length, length-append, get_elem?, arith, ◌==◌, Bool-cases, Option-cases, take,
}
use mantis.Seqlock.{
  WriterPhase, ReaderPhase, SeqLock, Step, Reachable, new, begin_store, copy_in, end_store,
  read_seq2, reader_step, idle, writing, start, copying, returned, begins, copies, ends, reads,
  restarts, created, after,
}

module _ {W : Type 0} where
  -- The sequence number is twice the number of the stores, and one more during a store; between stores
  -- the words are the current value.
  abbrev pub WriterOk : SeqLock W → WriterPhase W → Type 0
  WriterOk m idle = (m.seq ≡ (2 * m.stores) % 2 ^ 64) × (m.words ≡ m.current)
  WriterOk m (writing v s) =
      (m.seq ≡ (2 * m.stores + 1) % 2 ^ 64)
      × (s ≡ (2 * m.stores) % 2 ^ 64)
      × (length v ≡ length m.words)

  -- What has been copied is a prefix of the current value, as long as nothing was stored meanwhile.
  abbrev pub Clean : SeqLock W → WriterPhase W → ℕ → List W → Type 0
  Clean m idle since got = m.stores ≡ since → take (length got) m.current ≡ got
  Clean m (writing v s) since got = Unit

  abbrev pub ReaderOk : SeqLock W → ReaderPhase W → Type 0
  ReaderOk m start = Unit
  ReaderOk m (copying s since got) =
      (s ≡ (2 * since) % 2 ^ 64)
      × (since ≤ m.stores)
      × (length got ≤ length m.words)
      × Clean m m.writer since got
  ReaderOk m (returned v) = Unit

  pub record IsValid (m : SeqLock W) : Type 0 where
    pub writer_ok : WriterOk m m.writer
    pub reader_ok : ReaderOk m m.reader

  new-IsValid : (initial : List W) → IsValid (new initial)
  unfolding new
  new-IsValid initial = record { writer_ok = (refl, refl); reader_ok = tt }

  get_elem?-lt : (xs : List W) (n : ℕ) (w : W) → get_elem? xs n ≡ some w → n < length xs
  get_elem?-lt [] n w h = absurd (cc)
  get_elem?-lt (x ∷ xs) zero w h = omega arith
  get_elem?-lt (x ∷ xs) (suc n) w h = omega (arith, get_elem?-lt xs n w h)

  pub take-suc :
      (xs : List W) (n : ℕ) (w : W)
      → get_elem? xs n ≡ some w
      → take (suc n) xs ≡ take n xs ++ (w ∷ [])
  take-suc [] n w h = absurd (cc)
  take-suc (x ∷ xs) zero w h = let same : x ≡ w = cc in ap (λ z. z ∷ []) same
  take-suc (x ∷ xs) (suc n) w h = ap (λ z. x ∷ z) (take-suc xs n w h)

  begin_reader :
      (m : SeqLock W) (v : List W) (r : ReaderPhase W) → ReaderOk m r → ReaderOk (begin_store m v) r
  begin_reader m v start h = tt
  begin_reader m v (copying s since got) h = (h.0, h.1, h.2, tt)
  begin_reader m v (returned w) h = tt

  copy_reader :
      (m : SeqLock W) (v ws : List W) (s : ℕ) (r : ReaderPhase W)
      → m.writer ≡ writing v s
      → length ws ≡ length m.words
      → ReaderOk m r
      → ReaderOk (copy_in m ws) r
  copy_reader m v ws s start e l h = tt
  copy_reader m v ws s (copying s1 since got) e l h =
      (h.0, h.1, rw l h.2, subst (λ z. Clean (copy_in m ws) z since got) (sym e) tt)
  copy_reader m v ws s (returned w) e l h = tt

  end_reader :
      (m : SeqLock W) (v : List W) (s : ℕ) (r : ReaderPhase W)
      → ReaderOk m r
      → ReaderOk (end_store m v s) r
  end_reader m v s start h = tt
  end_reader m v s (copying s1 since got) h =
      (h.0, omega (arith, h.1), h.2, λ e. absurd (omega (arith, h.1)))
  end_reader m v s (returned w) h = tt

  read_seq1-ReaderOk :
      (m : SeqLock W) (p : WriterPhase W)
      → WriterOk m p
      → m.seq % 2 ≡ 0
      → (m.seq ≡ (2 * m.stores) % 2 ^ 64) × Clean m p m.stores []
  read_seq1-ReaderOk m idle h e = (h.0, λ _. refl)
  read_seq1-ReaderOk m (writing v s) h e = absurd (omega (arith, h.0))

  copy_out-Clean :
      (m : SeqLock W) (p : WriterPhase W) (since : ℕ) (got : List W) (w : W)
      → WriterOk m p
      → get_elem? m.words (length got) ≡ some w
      → Clean m p since got
      → Clean m p since (got ++ (w ∷ []))
  copy_out-Clean m idle since got w h e c = λ still.
      let more : length (got ++ (w ∷ [])) ≡ suc (length got) =
        length-append got (w ∷ []) ∙ omega arith in
      ap (λ z. take z m.current) more
      ∙ take-suc m.current (length got) w (ap (λ z. get_elem? z (length got)) (sym h.1) ∙ e)
      ∙ ap (λ z. z ++ (w ∷ [])) (c still)
  copy_out-Clean m (writing v s) since got w h e c = tt

  read_seq2-ReaderOk :
      (m : SeqLock W) (s : ℕ) (got : List W) → IsValid m → IsValid (read_seq2 m s got)
  read_seq2-ReaderOk m s got h = elim (Bool-cases (m.seq == s)) [
    | inl same ↦ rw same record { writer_ok = h.writer_ok; reader_ok = tt }
    | inr moved ↦ rw moved record { writer_ok = h.writer_ok; reader_ok = tt }
  ]

  reader_step-IsValid :
      (m : SeqLock W) (r : ReaderPhase W) → IsValid m → ReaderOk m r → IsValid (reader_step m r)
  unfolding reader_step
  reader_step-IsValid m start h k = elim (Bool-cases (m.seq % 2 == 0)) [
    | inl even ↦
        let there = read_seq1-ReaderOk m m.writer h.writer_ok (ground arith) in
        rw even record {
          writer_ok = h.writer_ok;
          reader_ok = (there.0, omega arith, omega arith, there.1);
        }
    | inr odd ↦ rw odd h
  ]
  reader_step-IsValid m (copying s since got) h k =
      elim (Option-cases (get_elem? m.words (length got))) [
        | inl done ↦ rw done (read_seq2-ReaderOk m s got h)
        | inr (w, e) ↦ rw e record {
          writer_ok = h.writer_ok;
          reader_ok = (
            k.0,
            k.1,
            rw (length-append got (w ∷ []))
                (let l = get_elem?-lt m.words (length got) w e in omega arith),
            copy_out-Clean m m.writer since got w h.writer_ok e k.3,
          );
        }
      ]
  reader_step-IsValid m (returned v) h k = h

  step-IsValid : (m m' : SeqLock W) → Step m m' → IsValid m → IsValid m'
  step-IsValid m _ (begins v e l) h =
      let ok = subst (WriterOk m) e h.writer_ok in
      record {
        writer_ok = (omega (arith, ok.0), ok.0, l);
        reader_ok = begin_reader m v m.reader h.reader_ok;
      }
  step-IsValid m _ (copies v s ws e l) h =
      let ok = subst (WriterOk m) e h.writer_ok in
      record {
        writer_ok = subst (WriterOk (copy_in m ws)) (sym e) (ok.0, ok.1, ok.2 ∙ sym l);
        reader_ok = copy_reader m v ws s m.reader e l h.reader_ok;
      }
  step-IsValid m _ (ends v s e is) h =
      let ok = subst (WriterOk m) e h.writer_ok in
      record {
        writer_ok = (omega (arith, ok.1), is);
        reader_ok = end_reader m v s m.reader h.reader_ok;
      }
  step-IsValid m _ reads h = reader_step-IsValid m m.reader h h.reader_ok
  step-IsValid m _ (restarts v e) h = record { writer_ok = h.writer_ok; reader_ok = tt }

  pub Reachable-IsValid : (initial : List W) (m : SeqLock W) → Reachable initial m → IsValid m
  Reachable-IsValid initial _ created = new-IsValid initial
  Reachable-IsValid initial m' (after {m = m} r s) =
      step-IsValid m m' s (Reachable-IsValid initial m r)
