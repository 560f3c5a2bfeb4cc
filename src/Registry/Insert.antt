-- ===== src/Registry/Insert.antt =====
-- Registering an instrument: the new id, and what the indices say afterwards.
use mantis.Prelude.{
  ◌+◌, ◌%◌, ◌^◌, ◌≡◌, ◌≢◌, refl, ap, ◌∙◌, false, Option, some, none, ◌==◌, arith, if◌then◌else◌,
}
use mantis.Registry.{
  InstrumentRegistry, Result, find_record, by_key, by_binance_symbol, id_eq, alloc_id, is_some,
  symbol_taken, record_of, register, insert_instrument,
}
use mantis.Registry.Dict.{text_eq, text_eq_refl, insert, lookup-insert_self}
use mantis.Registry.Types.{
  InstrumentKey, key_eq, key_eq_refl, InstrumentMeta, BinanceBinding, PolymarketBinding,
  RegistryError,
}

module _ (r : InstrumentRegistry) (key : InstrumentKey) (meta : InstrumentMeta)
    (bn : BinanceBinding) (pm : Option PolymarketBinding) where
  abbrev advanced : InstrumentRegistry
  advanced = record r { next_id = (r.next_id + 1) % 2 ^ 32 }

  registered : InstrumentRegistry
  registered = record {
    ids = insert id_eq r.ids r.next_id (record_of r.next_id key meta (some bn) pm);
    keys = insert key_eq r.keys key r.next_id;
    symbols = insert text_eq r.symbols bn.symbol r.next_id;
    tokens = r.tokens;
    next_id = (r.next_id + 1) % 2 ^ 32;
  }

  result :
      by_key r key ≡ none
      → by_binance_symbol r bn.symbol ≡ none
      → r.next_id ≢ 0
      → insert_instrument r key meta (some bn) pm ≡ (registered, Result.ok r.next_id)
  unfolding insert_instrument registered
  result new_key new_symbol left =
      let more : (r.next_id == 0) ≡ false = ground arith in
      let next : alloc_id r ≡ (advanced, Result.ok r.next_id) = rw more in
      let free : symbol_taken advanced (some bn) ≡ false = ap is_some new_symbol in
      let stored : register key meta (some bn) pm (advanced, Result.ok r.next_id)
          ≡ (registered, Result.ok r.next_id) =
        ap
          (λ z.
            if z
            then (advanced, Result.err (RegistryError.duplicate_binance_symbol bn.symbol))
            else (registered, Result.ok r.next_id))
          free in
      ap
        (λ z.
          if is_some z
          then (r, Result.err RegistryError.duplicate_instrument_key)
          else register key meta (some bn) pm (alloc_id r))
        new_key
      ∙ ap (register key meta (some bn) pm) next
      ∙ stored

  -- Registering a new key with a new Binance symbol, while ids are left, returns the next id; the
  -- id finds the record, the key and the symbol resolve to the id, and the next id moves on.
  pub insert_instrument_lem :
      by_key r key ≡ none
      → by_binance_symbol r bn.symbol ≡ none
      → r.next_id ≢ 0
      → ((insert_instrument r key meta (some bn) pm).1 ≡ Result.ok r.next_id)
        × (find_record (insert_instrument r key meta (some bn) pm).0 r.next_id
            ≡ some (record_of r.next_id key meta (some bn) pm))
        × (by_key (insert_instrument r key meta (some bn) pm).0 key ≡ some r.next_id)
        × (by_binance_symbol (insert_instrument r key meta (some bn) pm).0 bn.symbol
            ≡ some r.next_id)
        × ((insert_instrument r key meta (some bn) pm).0.next_id ≡ (r.next_id + 1) % 2 ^ 32)
  unfolding registered
  insert_instrument_lem new_key new_symbol left = rw (result new_key new_symbol left) (
    refl,
    lookup-insert_self id_eq r.ids r.next_id (record_of r.next_id key meta (some bn) pm)
        (ground arith),
    lookup-insert_self key_eq r.keys key r.next_id (key_eq_refl key),
    lookup-insert_self text_eq r.symbols bn.symbol r.next_id (text_eq_refl bn.symbol),
    refl,
  )
