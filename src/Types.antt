-- ===== src/Types.antt =====
-- crates/types: the newtypes and enums of the hot path. A newtype around an integer is the
-- integer that it holds: `Ticks`, `Lots`, `SignedLots` and `FixedI64<D>` an i64, `InstrumentId`
-- a u32, `SeqNum` and `Timestamp` a u64.

use mantis.Prelude.{ℕ, Bool, true, false}
use mantis.Prelude.Int.{ℤ, pos}

abbrev pub Ticks : Type 0
Ticks = ℤ

abbrev pub Lots : Type 0
Lots = ℤ

abbrev pub SignedLots : Type 0
SignedLots = ℤ

abbrev pub InstrumentId : Type 0
InstrumentId = ℕ

-- `InstrumentId::NONE`
abbrev pub none_id : InstrumentId
none_id = 0

abbrev pub SeqNum : Type 0
SeqNum = ℕ

abbrev pub Timestamp : Type 0
Timestamp = ℕ

abbrev pub zero_lots : Lots
zero_lots = pos 0

pub data Side : Type 0 where
  bid ask : Side

abbrev pub opposite : Side → Side
opposite Side.bid = Side.ask
opposite Side.ask = Side.bid

-- `==` on sides.
abbrev pub side_eq : Side → Side → Bool
side_eq Side.bid Side.bid = true
side_eq Side.ask Side.ask = true
side_eq _ _ = false

-- `PushError::Full` with the value that was not pushed, and `QueueError`.
pub data PushError {ℓ} (A : Type ℓ) : Type ℓ where
  full : A → PushError A

pub data QueueError : Type 0 where
  full empty : QueueError
