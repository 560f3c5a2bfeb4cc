-- ===== src/MarketState/ArrayBook/Lawful.antt =====
-- `ArrayBook` meets what the engine relies on.
use mantis.Prelude.{ℕ, ◌≡◌, ◌^◌, ◌≤◌, Option, arith}
use mantis.Types.{Ticks, Lots}
use mantis.MarketState.Book.{BookLaws}
use mantis.MarketState.ArrayBook.{
  ArrayBook, scan_down, scan_up, quote_at, clear, best_bid, best_ask, array_book,
}
use mantis.MarketState.ArrayBook.Best.{
  IsValid, default-IsValid, apply_delta-IsValid, clear-eq-default, best_bid-scan, best_ask-scan,
  best_bid-IsValid, best_ask-IsValid, best_bid_keeps, best_ask_keeps,
}

abbrev pub bid_quote : ℕ → ArrayBook → Option (Ticks × Lots)
bid_quote n b = quote_at b.bids (scan_down n b.bids)

abbrev pub ask_quote : ℕ → ArrayBook → Option (Ticks × Lots)
ask_quote n b = quote_at b.asks (scan_up n 0 b.asks)

pub clear-IsValid : (n : ℕ) → n ≤ 2 ^ 16 → (b : ArrayBook) → IsValid n b → IsValid n (clear n b)
clear-IsValid n h b v = rw ((clear-eq-default n b).0) (default-IsValid n h)

pub best_bid_stable :
    (n : ℕ) (b : ArrayBook)
    → IsValid n b
    → (bid_quote n (best_bid n b).1 ≡ bid_quote n b)
      × (ask_quote n (best_bid n b).1 ≡ ask_quote n b)
best_bid_stable n b v = ground (arith, best_bid_keeps n b v)

pub best_ask_stable :
    (n : ℕ) (b : ArrayBook)
    → IsValid n b
    → (bid_quote n (best_ask n b).1 ≡ bid_quote n b)
      × (ask_quote n (best_ask n b).1 ≡ ask_quote n b)
best_ask_stable n b v = ground (arith, best_ask_keeps n b v)

abbrev pub array_book_laws : (n : ℕ) → n ≤ 2 ^ 16 → BookLaws (array_book n)
array_book_laws n h = record {
  IsOk = IsValid n;
  bid_of = bid_quote n;
  ask_of = ask_quote n;
  default_ok = default-IsValid n h;
  clear_ok = clear-IsValid n h;
  apply_ok = λ b p q s a v. apply_delta-IsValid n b p q s a v;
  best_bid_law = λ b v.
      let stable = best_bid_stable n b v in
      (best_bid-scan n b v, best_bid-IsValid n b v, stable.0, stable.1);
  best_ask_law = λ b v.
      let stable = best_ask_stable n b v in
      (best_ask-scan n b v, best_ask-IsValid n b v, stable.0, stable.1);
}
