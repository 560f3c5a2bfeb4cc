-- ===== src/Registry/Types.antt =====
-- crates/registry/src/{types,record,bindings,error}.rs and the metadata of crates/types.
pub use mantis.Instrument.{InstrumentMeta}
use mantis.Prelude.{ℕ, ◌≡◌, ◌+◌, arith, ◌==◌, Bool, true, ◌&&◌, Option, none, some}
use mantis.Types.{InstrumentId, Timestamp}
use mantis.Registry.Dict.{Text}

pub data InstrumentClass : Type 0 where
  spot perp prediction_binary oracle_reference : InstrumentClass

pub data Asset : Type 0 where
  btc eth sol xrp doge usdt usdc usd : Asset

pub data Timeframe : Type 0 where
  m5 m15 m60 h4 : Timeframe

pub data OutcomeSide : Type 0 where
  up down yes no : OutcomeSide

pub record InstrumentKey : Type 0 where
  pub class : InstrumentClass
  pub base : Asset
  pub quote : Option Asset
  pub timeframe : Option Timeframe
  pub outcome : Option OutcomeSide

pub prediction : Asset → Timeframe → OutcomeSide → InstrumentKey
prediction a t o = record {
  class = InstrumentClass.prediction_binary;
  base = a;
  quote = some Asset.usdc;
  timeframe = some t;
  outcome = some o;
}

pub spot_reference : Asset → Asset → InstrumentKey
spot_reference a q = record {
  class = InstrumentClass.oracle_reference;
  base = a;
  quote = some q;
  timeframe = none;
  outcome = none;
}

-- The derived equality: the discriminants, field by field.
abbrev class_index : InstrumentClass → ℕ
class_index InstrumentClass.spot = 0
class_index InstrumentClass.perp = 1
class_index InstrumentClass.prediction_binary = 2
class_index InstrumentClass.oracle_reference = 3

abbrev asset_index : Asset → ℕ
asset_index Asset.btc = 0
asset_index Asset.eth = 1
asset_index Asset.sol = 2
asset_index Asset.xrp = 3
asset_index Asset.doge = 4
asset_index Asset.usdt = 5
asset_index Asset.usdc = 6
asset_index Asset.usd = 7

abbrev timeframe_index : Timeframe → ℕ
timeframe_index Timeframe.m5 = 0
timeframe_index Timeframe.m15 = 1
timeframe_index Timeframe.m60 = 2
timeframe_index Timeframe.h4 = 3

abbrev outcome_index : OutcomeSide → ℕ
outcome_index OutcomeSide.up = 0
outcome_index OutcomeSide.down = 1
outcome_index OutcomeSide.yes = 2
outcome_index OutcomeSide.no = 3

-- `None` comes before `Some`.
abbrev option_index : {A : Type 0} → (A → ℕ) → Option A → ℕ
option_index f none = 0
option_index f (some a) = f a + 1

pub key_eq : InstrumentKey → InstrumentKey → Bool
key_eq a b =
    (class_index a.class == class_index b.class)
    && ((asset_index a.base == asset_index b.base)
        && ((option_index asset_index a.quote == option_index asset_index b.quote)
            && ((option_index timeframe_index a.timeframe
                  == option_index timeframe_index b.timeframe)
                && (option_index outcome_index a.outcome == option_index outcome_index b.outcome))))

pub key_eq_refl : (k : InstrumentKey) → key_eq k k ≡ true
unfolding key_eq
key_eq_refl k = ground arith

pub record BinanceBinding : Type 0 where
  pub symbol : Text

pub record PolymarketWindowBinding : Type 0 where
  pub token_id : Text
  pub market_slug : Text
  pub window_start : Timestamp
  pub window_end : Timestamp
  pub condition_id : Option Text

pub record PolymarketBinding : Type 0 where
  pub current : Option PolymarketWindowBinding
  pub next : Option PolymarketWindowBinding

pub record CanonicalInstrument : Type 0 where
  pub instrument_id : InstrumentId
  pub key : InstrumentKey
  pub meta : InstrumentMeta

pub record InstrumentRecord : Type 0 where
  pub canonical : CanonicalInstrument
  pub binance : Option BinanceBinding
  pub polymarket : Option PolymarketBinding

pub data RegistryError : Type 0 where
  duplicate_instrument_id : InstrumentId → RegistryError
  duplicate_instrument_key : RegistryError
  duplicate_binance_symbol : Text → RegistryError
  duplicate_polymarket_token_id : Text → RegistryError
  missing_instrument : InstrumentId → RegistryError
  missing_polymarket_binding : InstrumentId → RegistryError
  no_next_window : InstrumentId → RegistryError
  id_space_exhausted : RegistryError
