-- ===== src/Registry/Tests.antt =====
-- The theorems on the registry at concrete inputs.
use mantis.Prelude.{ℕ, ◌≡◌, refl, [], ◌∷◌, some, none, sym, false, ap}
use mathlib.Core.Option.{some-injective}
use mantis.Prelude.Int.{pos}
use mantis.Registry.{
  InstrumentRegistry, Result, find_record, by_polymarket_token_id, record_of,
  promote_polymarket_next,
}
use mantis.Registry.Dict.{text_eq, lookup}
use mantis.Registry.Types.{
  InstrumentKey, InstrumentMeta, BinanceBinding, PolymarketBinding, PolymarketWindowBinding,
  InstrumentRecord, prediction, Asset, Timeframe, OutcomeSide,
}
use mantis.Registry.Windows

abbrev btc_up : InstrumentKey
btc_up = prediction Asset.btc Timeframe.m15 OutcomeSide.up

abbrev meta : InstrumentMeta
meta = record { tick_size = pos 10000; lot_size = pos 100 }

abbrev symbol : BinanceBinding
symbol = record { symbol = 66 ∷ [] }

abbrev window : ℕ → PolymarketWindowBinding
window t = record {
  token_id = t ∷ [];
  market_slug = [];
  window_start = 0;
  window_end = 900;
  condition_id = none;
}

-- An instrument whose windows have the tokens `c` and `n`.
abbrev pair : ℕ → ℕ → PolymarketBinding
pair c n = record { current = some (window c); next = some (window n) }

abbrev bound : ℕ → ℕ → InstrumentRecord
bound c n = record_of 1 btc_up meta none (some (pair c n))

abbrev registry : ℕ → ℕ → InstrumentRegistry
registry c n = record {
  ids = (1, bound c n) ∷ [];
  keys = (btc_up, 1) ∷ [];
  symbols = [];
  tokens = (n ∷ [], 1) ∷ (c ∷ [], 1) ∷ [];
  next_id = 2;
}

apart :
    (old : PolymarketWindowBinding)
    → (pair 7 8).current ≡ some old
    → text_eq old.token_id (8 ∷ []) ≡ false
apart old e = ap (λ w. text_eq w.token_id (8 ∷ [])) (sym (some-injective (window 7) old e))

promote_polymarket_next_lem_example :
    ((promote_polymarket_next (registry 7 8) 1).1 ≡ Result.ok tt)
    × (by_polymarket_token_id (promote_polymarket_next (registry 7 8) 1).0 (8 ∷ []) ≡ some 1)
    × (find_record (promote_polymarket_next (registry 7 8) 1).0 1
        ≡ some (record (bound 7 8) {
          polymarket = some (record { current = some (window 8); next = none });
        }))
unfolding lookup
promote_polymarket_next_lem_example =
    Windows.promote_polymarket_next_lem (registry 7 8) 1 (bound 7 8) (pair 7 8) refl refl (window 8)
      refl refl apart

same_token_lost_example :
    ((promote_polymarket_next (registry 7 7) 1).1 ≡ Result.ok tt)
    × (by_polymarket_token_id (promote_polymarket_next (registry 7 7) 1).0 (7 ∷ []) ≡ none)
unfolding lookup
same_token_lost_example =
    Windows.same_token_lost (registry 7 7) 1 (bound 7 7) (pair 7 7) refl refl (window 7) (window 7)
      refl refl refl
