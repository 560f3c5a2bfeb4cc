-- ===== src/MarketState/Book.antt =====
-- crates/market-state/src/book/mod.rs: the trait `OrderBook`, as the operations that the engine
-- and the strategies call.
use mantis.Prelude.{ℕ, ◌≡◌, Option}
use mantis.Events.{UpdateAction}
use mantis.Types.{Side, Ticks, Lots}

-- A method on `&mut self` returns the new book beside its result.
pub record OrderBook : Type 1 where
  pub Book : Type 0
  pub default : Book
  pub apply_delta : Book → Ticks → Lots → Side → UpdateAction → Book
  pub clear_side : Book → Side → Book
  pub clear : Book → Book
  pub best_bid : Book → Option (Ticks × Lots) × Book
  pub best_ask : Book → Option (Ticks × Lots) × Book
  pub level_count : Book → Side → ℕ
  pub total_depth : Book → Side → ℕ → Lots

-- What a client of the trait relies on: the best quotes are a function of the book's contents, and
-- asking for them changes neither the contents nor the answers.
pub record BookLaws (B : OrderBook) : Type 1 where
  pub IsOk : B.Book → Type 0
  pub bid_of : B.Book → Option (Ticks × Lots)
  pub ask_of : B.Book → Option (Ticks × Lots)
  pub default_ok : IsOk B.default
  pub clear_ok : (b : B.Book) → IsOk b → IsOk (B.clear b)
  pub apply_ok :
      (b : B.Book) (p : Ticks) (q : Lots) (s : Side) (a : UpdateAction)
      → IsOk b
      → IsOk (B.apply_delta b p q s a)
  pub best_bid_law :
      (b : B.Book)
      → IsOk b
      → ((B.best_bid b).0 ≡ bid_of b)
        × IsOk (B.best_bid b).1
        × (bid_of (B.best_bid b).1 ≡ bid_of b)
        × (ask_of (B.best_bid b).1 ≡ ask_of b)
  pub best_ask_law :
      (b : B.Book)
      → IsOk b
      → ((B.best_ask b).0 ≡ ask_of b)
        × IsOk (B.best_ask b).1
        × (bid_of (B.best_ask b).1 ≡ bid_of b)
        × (ask_of (B.best_ask b).1 ≡ ask_of b)
