-- ===== src/Registry/Windows.antt =====
-- The rotation of the Polymarket windows: what the token index and the record say afterwards.
use mantis.Prelude.{◌≡◌, refl, ◌∙◌, ap, false, Option, some, none, arith}
use mantis.Types.{InstrumentId}
use mantis.Registry.{
  InstrumentRegistry, Result, Rebinding, find_record, by_polymarket_token_id, put, forget,
  with_binding, on_record, on_binding, promote_window, id_eq, bind_polymarket_current,
  bind_polymarket_next, promote_polymarket_next,
}
use mantis.Registry.Dict.{
  Text, text_eq, text_eq_refl, HashMap, lookup, insert, lookup-remove_self, lookup-insert_self,
  lookup-remove_ne,
}
use mantis.Registry.Types.{PolymarketBinding, PolymarketWindowBinding, InstrumentRecord}

-- The record that an operation leaves for the instrument.
put_here :
    (r : InstrumentRegistry) (id : InstrumentId) (rec : InstrumentRecord) (pm : PolymarketBinding)
    (t : HashMap Text InstrumentId)
    → find_record (put r id rec pm t) id ≡ some (record rec { polymarket = some pm })
put_here r id rec pm t =
    lookup-insert_self id_eq r.ids id (record rec { polymarket = some pm }) (ground arith)

module _ (r : InstrumentRegistry) (id : InstrumentId) (rec : InstrumentRecord)
    (pm : PolymarketBinding) (is_record : find_record r id ≡ some rec)
    (is_binding : rec.polymarket ≡ some pm) where
  opened : (f : Rebinding) → with_binding r id f ≡ f rec pm
  opened f = ap (on_record r id f) is_record ∙ ap (on_binding r id f rec) is_binding

  bind_current_result :
      (w : PolymarketWindowBinding)
      → bind_polymarket_current r id w ≡ (
        put r id rec
            (record pm { current = some w })
            (insert text_eq (forget pm.current r.tokens) w.token_id id),
        Result.ok tt,
      )
  unfolding bind_polymarket_current
  bind_current_result w = opened (λ rec' pm'. (
    put r id rec' (record pm' { current = some w })
        (insert text_eq (forget pm'.current r.tokens) w.token_id id),
    Result.ok tt,
  ))

  bind_next_result :
      (w : PolymarketWindowBinding)
      → bind_polymarket_next r id w ≡ (
        put r id rec
            (record pm { next = some w })
            (insert text_eq (forget pm.next r.tokens) w.token_id id),
        Result.ok tt,
      )
  unfolding bind_polymarket_next
  bind_next_result w = opened (λ rec' pm'. (
    put r id rec' (record pm' { next = some w })
        (insert text_eq (forget pm'.next r.tokens) w.token_id id),
    Result.ok tt,
  ))

  promote_result :
      (w : PolymarketWindowBinding)
      → pm.next ≡ some w
      → promote_polymarket_next r id ≡ (
        put r id rec (record { current = some w; next = none }) (forget pm.current r.tokens),
        Result.ok tt,
      )
  unfolding promote_polymarket_next
  promote_result w n =
      opened (λ rec' pm'. promote_window r id rec' pm' pm'.next) ∙ ap (promote_window r id rec pm) n

  -- Forgetting a window with another token keeps what a token resolves to.
  kept :
      (o : Option PolymarketWindowBinding) (t : Text)
      → ((old : PolymarketWindowBinding) → o ≡ some old → text_eq old.token_id t ≡ false)
      → lookup text_eq (forget o r.tokens) t ≡ lookup text_eq r.tokens t
  kept none t h = refl
  kept (some old) t h = lookup-remove_ne r.tokens old.token_id t (h old refl)

  -- Binding a current window to an instrument with a Polymarket binding succeeds; the new token
  -- resolves to the instrument, whose current window it is, and the next window stays.
  pub bind_polymarket_current_lem :
      (w : PolymarketWindowBinding)
      → ((bind_polymarket_current r id w).1 ≡ Result.ok tt)
        × (by_polymarket_token_id (bind_polymarket_current r id w).0 w.token_id ≡ some id)
        × (find_record (bind_polymarket_current r id w).0 id
            ≡ some (record rec { polymarket = some (record pm { current = some w }) }))
  bind_polymarket_current_lem w = rw (bind_current_result w) (
    refl,
    lookup-insert_self text_eq (forget pm.current r.tokens) w.token_id id (text_eq_refl w.token_id),
    put_here r id rec (record pm { current = some w })
        (insert text_eq (forget pm.current r.tokens) w.token_id id),
  )

  -- Promoting the next window `w` of an instrument, where the token of `w` resolves to it and the
  -- current window, if there is one, has another token: the promotion succeeds, `w` is the current
  -- window, there is no next one, and the token still resolves to the instrument.
  pub promote_polymarket_next_lem :
      (w : PolymarketWindowBinding)
      → pm.next ≡ some w
      → (by_polymarket_token_id r w.token_id ≡ some id)
      → ((old : PolymarketWindowBinding)
          → pm.current ≡ some old
          → text_eq old.token_id w.token_id ≡ false)
      → ((promote_polymarket_next r id).1 ≡ Result.ok tt)
        × (by_polymarket_token_id (promote_polymarket_next r id).0 w.token_id ≡ some id)
        × (find_record (promote_polymarket_next r id).0 id
            ≡ some (record rec { polymarket = some (record { current = some w; next = none }) }))
  promote_polymarket_next_lem w n here apart = rw (promote_result w n) (
    refl,
    kept pm.current w.token_id apart ∙ here,
    put_here r id rec (record { current = some w; next = none }) (forget pm.current r.tokens),
  )

  -- Where the next window has the token of the current one, the promotion succeeds and the token of
  -- the window that is now current does not resolve any more.
  pub same_token_lost :
      (w old : PolymarketWindowBinding)
      → pm.next ≡ some w
      → pm.current ≡ some old
      → old.token_id ≡ w.token_id
      → ((promote_polymarket_next r id).1 ≡ Result.ok tt)
        × (by_polymarket_token_id (promote_polymarket_next r id).0 w.token_id ≡ none)
  same_token_lost w old n c e =
      rw (promote_result w n) (refl, rw (c, e) (lookup-remove_self text_eq r.tokens w.token_id))
