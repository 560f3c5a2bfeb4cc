-- ===== src/Registry.antt =====
-- crates/registry/src/lib.rs: `InstrumentRegistry`. An operation returns the registry and a result;
-- what it did before an error stays done.
pub mod Dict
pub mod Types
pub mod Windows
pub mod Insert
mod Tests
use mantis.Prelude.{
  ℕ, ◌+◌, ◌%◌, ◌^◌, ◌==◌, ◌||◌, Bool, true, false, List, [], Option, none, some, if◌then◌else◌,
  length, map,
}
use mantis.Types.{InstrumentId}
use mantis.Registry.Dict.{Text, text_eq, HashMap, lookup, insert, remove}
use mantis.Registry.Types.{
  InstrumentKey, key_eq, InstrumentMeta, BinanceBinding, PolymarketWindowBinding, PolymarketBinding,
  InstrumentRecord, RegistryError, Asset, Timeframe, OutcomeSide, prediction,
}

pub data Result (A : Type 0) : Type 0 where
  ok : A → Result A
  err : RegistryError → Result A

pub record InstrumentRegistry : Type 0 where
  pub ids : HashMap InstrumentId InstrumentRecord
  pub keys : HashMap InstrumentKey InstrumentId
  pub symbols : HashMap Text InstrumentId
  pub tokens : HashMap Text InstrumentId
  pub next_id : ℕ

pub empty_registry : InstrumentRegistry
empty_registry = record { ids = []; keys = []; symbols = []; tokens = []; next_id = 1 }

abbrev pub id_eq : InstrumentId → InstrumentId → Bool
id_eq a b = a == b

abbrev pub find_record : InstrumentRegistry → InstrumentId → Option InstrumentRecord
find_record r id = lookup id_eq r.ids id

abbrev pub by_key : InstrumentRegistry → InstrumentKey → Option InstrumentId
by_key r k = lookup key_eq r.keys k

abbrev pub by_binance_symbol : InstrumentRegistry → Text → Option InstrumentId
by_binance_symbol r s = lookup text_eq r.symbols s

abbrev pub by_polymarket_token_id : InstrumentRegistry → Text → Option InstrumentId
by_polymarket_token_id r t = lookup text_eq r.tokens t

-- `next_id` is a u32 that wraps to 0, the reserved id, when all are used.
abbrev pub alloc_id : InstrumentRegistry → InstrumentRegistry × Result InstrumentId
alloc_id r =
    if r.next_id == 0
    then (r, Result.err RegistryError.id_space_exhausted)
    else (record r { next_id = (r.next_id + 1) % 2 ^ 32 }, Result.ok r.next_id)

-- A record with its Polymarket binding replaced, and the reverse index.
abbrev pub put :
    InstrumentRegistry
    → InstrumentId
    → InstrumentRecord
    → PolymarketBinding
    → HashMap Text InstrumentId
    → InstrumentRegistry
put r id rec pm tokens = record r {
  ids = insert id_eq r.ids id (record rec { polymarket = some pm });
  tokens = tokens;
}

-- `if let Some(ref old) = window { by_polymarket_token_id.remove(&old.token_id) }`
abbrev pub forget :
    Option PolymarketWindowBinding → HashMap Text InstrumentId → HashMap Text InstrumentId
forget none d = d
forget (some w) d = remove text_eq d w.token_id

-- The lookups that open the binding operations: the record, its binding, or the error.
abbrev pub Rebinding : Type 0
Rebinding = InstrumentRecord → PolymarketBinding → InstrumentRegistry × Result Unit

abbrev pub on_binding :
    InstrumentRegistry
    → InstrumentId
    → Rebinding
    → InstrumentRecord
    → Option PolymarketBinding
    → InstrumentRegistry × Result Unit
on_binding r id f rec none = (r, Result.err (RegistryError.missing_polymarket_binding id))
on_binding r id f rec (some pm) = f rec pm

abbrev pub on_record :
    InstrumentRegistry
    → InstrumentId
    → Rebinding
    → Option InstrumentRecord
    → InstrumentRegistry × Result Unit
on_record r id f none = (r, Result.err (RegistryError.missing_instrument id))
on_record r id f (some rec) = on_binding r id f rec rec.polymarket

abbrev pub with_binding :
    InstrumentRegistry → InstrumentId → Rebinding → InstrumentRegistry × Result Unit
with_binding r id f = on_record r id f (find_record r id)

pub bind_polymarket_current :
    InstrumentRegistry → InstrumentId → PolymarketWindowBinding → InstrumentRegistry × Result Unit
bind_polymarket_current r id w = with_binding r id (λ rec pm. (
  put r id rec (record pm { current = some w })
      (insert text_eq (forget pm.current r.tokens) w.token_id id),
  Result.ok tt,
))

pub bind_polymarket_next :
    InstrumentRegistry → InstrumentId → PolymarketWindowBinding → InstrumentRegistry × Result Unit
bind_polymarket_next r id w = with_binding r id (λ rec pm. (
  put r id rec (record pm { next = some w })
      (insert text_eq (forget pm.next r.tokens) w.token_id id),
  Result.ok tt,
))

abbrev pub promote_window :
    InstrumentRegistry
    → InstrumentId
    → InstrumentRecord
    → PolymarketBinding
    → Option PolymarketWindowBinding
    → InstrumentRegistry × Result Unit
promote_window r id rec pm none = (r, Result.err (RegistryError.no_next_window id))
promote_window r id rec pm (some w) = (
  put r id rec (record { current = some w; next = none }) (forget pm.current r.tokens),
  Result.ok tt,
)

pub promote_polymarket_next : InstrumentRegistry → InstrumentId → InstrumentRegistry × Result Unit
promote_polymarket_next r id = with_binding r id (λ rec pm. promote_window r id rec pm pm.next)

pub unbind_polymarket : InstrumentRegistry → InstrumentId → InstrumentRegistry × Result Unit
unbind_polymarket r id = with_binding r id (λ rec pm. (
  put r id rec (record { current = none; next = none })
      (forget pm.next (forget pm.current r.tokens)),
  Result.ok tt,
))

abbrev pub is_some : {A : Type 0} → Option A → Bool
is_some none = false
is_some (some a) = true

-- The symbol of a binding is taken, and the entry that a binding adds.
abbrev pub symbol_taken : InstrumentRegistry → Option BinanceBinding → Bool
symbol_taken r none = false
symbol_taken r (some bn) = is_some (by_binance_symbol r bn.symbol)

abbrev pub add_symbol :
    Option BinanceBinding → InstrumentId → HashMap Text InstrumentId → HashMap Text InstrumentId
add_symbol none id d = d
add_symbol (some bn) id d = insert text_eq d bn.symbol id

abbrev pub symbol_of : Option BinanceBinding → Text
symbol_of none = []
symbol_of (some bn) = bn.symbol

-- The record that `insert` stores.
abbrev pub record_of :
    InstrumentId
    → InstrumentKey
    → InstrumentMeta
    → Option BinanceBinding
    → Option PolymarketBinding
    → InstrumentRecord
record_of id key meta binance polymarket = record {
  canonical = record { instrument_id = id; key = key; meta = meta };
  binance = binance;
  polymarket = polymarket;
}

-- The part of `insert` after `alloc_id`: an id that was taken stays taken when the symbol is not free.
abbrev pub register :
    InstrumentKey
    → InstrumentMeta
    → Option BinanceBinding
    → Option PolymarketBinding
    → InstrumentRegistry × Result InstrumentId
    → InstrumentRegistry × Result InstrumentId
register key meta binance polymarket (r, Result.err e) = (r, Result.err e)
register key meta binance polymarket (r, Result.ok id) =
    if symbol_taken r binance
    then (r, Result.err (RegistryError.duplicate_binance_symbol (symbol_of binance)))
    else (
      record r {
        symbols = add_symbol binance id r.symbols;
        keys = insert key_eq r.keys key id;
        ids = insert id_eq r.ids id (record_of id key meta binance polymarket);
      },
      Result.ok id,
    )

pub insert_instrument :
    InstrumentRegistry
    → InstrumentKey
    → InstrumentMeta
    → Option BinanceBinding
    → Option PolymarketBinding
    → InstrumentRegistry × Result InstrumentId
insert_instrument r key meta binance polymarket =
    if is_some (by_key r key)
    then (r, Result.err RegistryError.duplicate_instrument_key)
    else register key meta binance polymarket (alloc_id r)

abbrev empty_binding : PolymarketBinding
empty_binding = record { current = none; next = none }

abbrev pub binding_of : Option Text → Option BinanceBinding
binding_of none = none
binding_of (some s) = some (record { symbol = s })

pub insert_prediction_pair :
    InstrumentRegistry
    → Asset
    → Timeframe
    → InstrumentMeta
    → Option Text
    → InstrumentRegistry × Result (InstrumentId × InstrumentId)
insert_prediction_pair r base timeframe meta symbol =
    let up_key = prediction base timeframe OutcomeSide.up in
    let down_key = prediction base timeframe OutcomeSide.down in
    if is_some (by_key r up_key) || is_some (by_key r down_key)
    then (r, Result.err RegistryError.duplicate_instrument_key)
    else if symbol_taken r (binding_of symbol)
    then (r, Result.err (RegistryError.duplicate_binance_symbol (symbol_of (binding_of symbol))))
    else let (r1, up) = insert_instrument r up_key meta (binding_of symbol) (some empty_binding) in
      elim up [
        | Result.err e ↦ (r1, Result.err e)
        | Result.ok up_id ↦
            let (r2, down) = insert_instrument r1 down_key meta none (some empty_binding) in
            elim down [
              | Result.err e ↦ (r2, Result.err e)
              | Result.ok down_id ↦ (r2, Result.ok (up_id, down_id))
            ]
      ]

abbrev pub len : InstrumentRegistry → ℕ
len r = length r.ids

abbrev pub active_polymarket_token_ids : InstrumentRegistry → List Text
active_polymarket_token_ids r = map (λ e. e.0) r.tokens
