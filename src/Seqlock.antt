-- ===== src/Seqlock.antt =====
-- crates/seqlock/src/raw/seqlock.rs: `SeqLock`, with one writer and one reader whose steps interleave.
-- Readers share nothing with one another, so one stands for all. The value is the words that
-- a copy moves one at a time; a store leaves any words while it copies, in whatever order. The ghost
-- fields `current` and `stores` are the value of the last finished store and how many there were.
pub mod Consistent
pub mod Progress
mod Tests
use mantis.Prelude.{
  ℕ, ◌+◌, ◌%◌, ◌^◌, ◌≡◌, Bool, List, [], ◌∷◌, ◌++◌, Option, none, some, length, get_elem?, ltb,
  ◌==◌, if◌then◌else◌,
}

module _ (W : Type 0) where
  -- `writing v s` is a store of `v` that read the sequence number `s` and has made it odd.
  pub data WriterPhase : Type 0 where
    idle : WriterPhase
    writing : List W → ℕ → WriterPhase

  -- `copying s since got`: `seq1` is `s`, `since` stores were finished when it was read, and `got` is
  -- what is copied so far.
  pub data ReaderPhase : Type 0 where
    start : ReaderPhase
    copying : ℕ → ℕ → List W → ReaderPhase
    returned : List W → ReaderPhase

  pub record SeqLock : Type 0 where
    pub seq : ℕ
    pub words : List W
    pub writer : WriterPhase
    pub reader : ReaderPhase
    pub current : List W
    pub stores : ℕ

module _ {W : Type 0} where
  pub new : List W → SeqLock W
  new initial = record {
    seq = 0;
    words = initial;
    writer = idle;
    reader = start;
    current = initial;
    stores = 0;
  }

  pub version : SeqLock W → ℕ
  version m = m.seq

  -- The steps of `store`: the odd number, the copy, and the even number.
  abbrev pub begin_store : SeqLock W → List W → SeqLock W
  begin_store m v = record m { seq = (m.seq + 1) % 2 ^ 64; writer = writing v m.seq }

  abbrev pub copy_in : SeqLock W → List W → SeqLock W
  copy_in m ws = record m { words = ws }

  abbrev pub end_store : SeqLock W → List W → ℕ → SeqLock W
  end_store m v s = record m {
    seq = (s + 2) % 2 ^ 64;
    writer = idle;
    current = v;
    stores = m.stores + 1;
  }

  -- One step of `load`: the first read of the sequence number, the copy of a word, or the second read
  -- of the number behind the last word.
  abbrev pub read_seq1 : SeqLock W → SeqLock W
  read_seq1 m = if m.seq % 2 == 0 then record m { reader = copying m.seq m.stores [] } else m

  abbrev pub read_seq2 : SeqLock W → ℕ → List W → SeqLock W
  read_seq2 m s got =
      if m.seq == s then record m { reader = returned got } else record m { reader = start }

  abbrev pub copy_out : SeqLock W → ℕ → ℕ → List W → Option W → SeqLock W
  copy_out m s since got (some w) = record m { reader = copying s since (got ++ (w ∷ [])) }
  copy_out m s since got none = read_seq2 m s got

  pub reader_step : SeqLock W → ReaderPhase W → SeqLock W
  reader_step m start = read_seq1 m
  reader_step m (copying s since got) = copy_out m s since got (get_elem? m.words (length got))
  reader_step m (returned v) = m

  pub data Step (m : SeqLock W) : SeqLock W → Type 0 where
    begins : (v : List W) → m.writer ≡ idle → length v ≡ length m.words → Step m (begin_store m v)
    copies :
        (v : List W) (s : ℕ) (ws : List W)
        → m.writer ≡ writing v s
        → length ws ≡ length m.words
        → Step m (copy_in m ws)
    ends : (v : List W) (s : ℕ) → m.writer ≡ writing v s → m.words ≡ v → Step m (end_store m v s)
    reads : Step m (reader_step m m.reader)
    restarts : (v : List W) → m.reader ≡ returned v → Step m (record m { reader = start })

  pub data Reachable (initial : List W) : SeqLock W → Type 0 where
    created : Reachable initial (new initial)
    after : {m m' : SeqLock W} → Reachable initial m → Step m m' → Reachable initial m'
