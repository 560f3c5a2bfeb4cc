-- ===== src/MarketState/Engine/Quotes.antt =====
-- `check_bbo_price_change`: when it reports, and what it remembers.
use mantis.Prelude.{ℕ, ◌≡◌, refl, ◌∙◌, Bool, true, ◌&&◌, Option, none, some, arith, if◌then◌else◌}
use mantis.Prelude.Int.{eqb_ℤ_refl, eqb_ℤ→eq}
use mantis.Types.{Ticks}
use mantis.MarketState.Book.{OrderBook, BookLaws}
use mantis.MarketState.State.{InstrumentState}
use mantis.MarketState.Engine.{option_eq, price_of, tob_if_both, check_bbo, quotes}

pub option_eq_refl : (a : Option Ticks) → option_eq a a ≡ true
option_eq_refl none = refl
option_eq_refl (some a) = eqb_ℤ_refl a

pub option_eq→eq : (a b : Option Ticks) → option_eq a b ≡ true → a ≡ b
option_eq→eq none none h = refl
option_eq→eq none (some b) h = cc
option_eq→eq (some a) none h = cc
option_eq→eq (some a) (some b) h = cc (eqb_ℤ→eq a b h)

module _ (B : OrderBook) (L : BookLaws B) where
  open B use {Book}
  open L use {IsOk, bid_of, ask_of, best_bid_law, best_ask_law}

  -- Whether both prices of the book are the ones last remembered.
  abbrev pub bbo_unchanged : InstrumentState Book → Bool
  bbo_unchanged s =
      option_eq (price_of (bid_of s.book)) s.prev_bid
      && option_eq (price_of (ask_of s.book)) s.prev_ask

  pub quotes_lem :
      (s : InstrumentState Book)
      → IsOk s.book
      → ((quotes B s).0 ≡ bid_of s.book)
        × ((quotes B s).1 ≡ ask_of s.book)
        × IsOk (quotes B s).2.book
        × (bid_of (quotes B s).2.book ≡ bid_of s.book)
        × (ask_of (quotes B s).2.book ≡ ask_of s.book)
  quotes_lem s ok =
      let (e1, ok1, b1, a1) = best_bid_law s.book ok in
      let (e2, ok2, b2, a2) = best_ask_law _ ok1 in (e1, e2 ∙ a1, ok2, b2 ∙ b1, a2 ∙ a1)

  module _ (s : InstrumentState Book) (slot : ℕ) (ok : IsOk s.book) where
    -- The check reports a top of book exactly when a best price differs from the one remembered and
    -- both sides have a quote; it then remembers the current prices. The quotes of the book stay.
    pub check_bbo_lem :
        ((check_bbo B s slot).0 ≡ (
          if bbo_unchanged s
          then none
          else tob_if_both (bid_of s.book) (ask_of s.book) slot s.last_event_ts))
        × ((check_bbo B s slot).1.prev_bid ≡ price_of (bid_of s.book))
        × ((check_bbo B s slot).1.prev_ask ≡ price_of (ask_of s.book))
        × (bid_of (check_bbo B s slot).1.book ≡ bid_of s.book)
        × (ask_of (check_bbo B s slot).1.book ≡ ask_of s.book)
        × IsOk (check_bbo B s slot).1.book
    unfolding check_bbo
    check_bbo_lem = let q = quotes_lem s ok in ground arith
