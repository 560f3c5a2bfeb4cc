-- ===== src/Decoder/Polymarket/Schema.antt =====
-- crates/polymarket/src/market/schema.rs: the messages that the JSON parser returns, and the
-- strings that the decoder compares with.
use mantis.Prelude.{List, [], ◌∷◌, Option}
use mantis.Registry.Dict.{Text}

pub record BookLevel : Type 0 where
  pub price : Text
  pub size : Text

pub record PolymarketBookMsg : Type 0 where
  pub asset_id : Text
  pub bids : List BookLevel
  pub asks : List BookLevel

pub record PolymarketPriceChangeMsg : Type 0 where
  pub asset_id : Text
  pub price : Text
  pub size : Text
  pub side : Text

pub record PolymarketTradeMsg : Type 0 where
  pub asset_id : Text
  pub price : Text
  pub size : Text
  pub side : Option Text

-- The types of messages, and the sides.
abbrev pub price_change : Text
price_change =
    b'p' ∷ b'r' ∷ b'i' ∷ b'c' ∷ b'e' ∷ b'_' ∷ b'c' ∷ b'h' ∷ b'a' ∷ b'n' ∷ b'g' ∷ b'e' ∷ []

abbrev pub last_trade_price : Text
last_trade_price =
    b'l' ∷ b'a' ∷ b's' ∷ b't' ∷ b'_' ∷ b't' ∷ b'r' ∷ b'a' ∷ b'd' ∷ b'e' ∷ b'_' ∷ b'p' ∷ b'r' ∷ b'i'
    ∷ b'c' ∷ b'e' ∷ []

abbrev pub book : Text
book = b'b' ∷ b'o' ∷ b'o' ∷ b'k' ∷ []

abbrev pub buy : Text
buy = b'B' ∷ b'U' ∷ b'Y' ∷ []

abbrev pub sell : Text
sell = b'S' ∷ b'E' ∷ b'L' ∷ b'L' ∷ []
