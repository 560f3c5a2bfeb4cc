-- ===== src/Decoder/Binance/Covers.antt =====
-- The tables that `BinanceDecoder::new` fills hold the mappings, in their order.
use mantis.Prelude.{
  take-append, ℕ, zero, suc, ◌+◌, ◌%◌, ◌^◌, ◌<◌, ◌≤◌, ◌≡◌, ◌≢◌, refl, ap, ◌∙◌, arith, some, List,
  [], ◌∷◌, ltb, length, get_elem?, get_or, set, take, drop, length-set, get_or-set_self,
  get_or-set_ne, Bool-cases, inl, inr, subst,
}
use mantis.Instrument.{InstrumentMeta}
use mantis.Decoder.Binance.{
  BinanceSymbolMapping, NewResult, Tables, copied, put_mapping, fill, blank,
}

get_elem?-set_self :
    {A : Type 0} (xs : List A) (i : ℕ) (v : A) → i < length xs → get_elem? (set xs i v) i ≡ some v
get_elem?-set_self [] i v h = absurd (omega arith)
get_elem?-set_self (x ∷ xs) zero v h = refl
get_elem?-set_self (x ∷ xs) (suc i) v h = get_elem?-set_self xs i v (omega arith)

get_elem?-set_ne :
    {A : Type 0} (xs : List A) (i j : ℕ) (v : A) → i ≢ j → get_elem? (set xs i v) j ≡ get_elem? xs j
get_elem?-set_ne [] i j v h = refl
get_elem?-set_ne (x ∷ xs) zero zero v h = absurd (h refl)
get_elem?-set_ne (x ∷ xs) zero (suc j) v h = refl
get_elem?-set_ne (x ∷ xs) (suc i) zero v h = refl
get_elem?-set_ne (x ∷ xs) (suc i) (suc j) v h = get_elem?-set_ne xs i j v (λ e. h (ap suc e))

-- Slot `i` of the four arrays is that of a mapping.
pub record IsSlot (t : Tables) (i : ℕ) (m : BinanceSymbolMapping) : Type 0 where
  pub id : get_elem? t.instrument_ids i ≡ some m.instrument_id
  pub meta : get_elem? t.metas i ≡ some m.meta
  pub name : take (length m.symbol) (get_or t.symbol_names i []) ≡ m.symbol
  pub len : get_or t.symbol_lens i 0 ≡ length m.symbol

-- The slots from `i` on are those of the mappings.
abbrev pub Covers : Tables → ℕ → List BinanceSymbolMapping → Type 0
Covers t i [] = Unit
Covers t i (m ∷ ms) = IsSlot t i m × Covers t (suc i) ms

abbrev Sized : Tables → Type 0
Sized t =
    (length t.instrument_ids ≡ 8)
    × (length t.metas ≡ 8)
    × (length t.symbol_names ≡ 8)
    × (length t.symbol_lens ≡ 8)

put_mapping-Sized :
    (i : ℕ) (m : BinanceSymbolMapping) (t : Tables) → Sized t → Sized (put_mapping i m t)
put_mapping-Sized i m t (a, b, c, d) = (
  length-set t.instrument_ids i _ ∙ a,
  length-set t.metas i _ ∙ b,
  length-set t.symbol_names i _ ∙ c,
  length-set t.symbol_lens i _ ∙ d,
)

put_mapping-IsSlot :
    (i : ℕ) (m : BinanceSymbolMapping) (t : Tables)
    → Sized t
    → i < 8
    → length m.symbol ≤ 16
    → IsSlot (put_mapping i m t) i m
put_mapping-IsSlot i m t (a, b, c, d) h l =
    let old = get_or t.symbol_names i [] in
    record {
      id = get_elem?-set_self t.instrument_ids i m.instrument_id (omega arith);
      meta = get_elem?-set_self t.metas i m.meta (omega arith);
      name =
          ap (take (length m.symbol))
            (get_or-set_self t.symbol_names i (copied m.symbol old) [] (omega arith))
          ∙ take-append m.symbol (drop (length m.symbol) old);
      len = get_or-set_self t.symbol_lens i (length m.symbol % 2 ^ 8) 0 (omega arith) ∙ omega arith;
    }

-- A write to another slot.
put_mapping-IsSlot_ne :
    (i j : ℕ) (m n : BinanceSymbolMapping) (t : Tables)
    → i ≢ j
    → IsSlot t j n
    → IsSlot (put_mapping i m t) j n
put_mapping-IsSlot_ne i j m n t ne s = record {
  id = get_elem?-set_ne t.instrument_ids i j m.instrument_id ne ∙ s.id;
  meta = get_elem?-set_ne t.metas i j m.meta ne ∙ s.meta;
  name = ap (take (length n.symbol)) (get_or-set_ne t.symbol_names i j _ [] ne) ∙ s.name;
  len = get_or-set_ne t.symbol_lens i j _ 0 ne ∙ s.len;
}

pub ok_inj : {A : Type 0} {a b : A} → NewResult.ok a ≡ NewResult.ok b → a ≡ b
ok_inj e = ground arith

-- The loop leaves the slots before it as they are.
fill-IsSlot :
    (i j : ℕ) (ms : List BinanceSymbolMapping) (n : BinanceSymbolMapping) (t t' : Tables)
    → j < i
    → fill i ms t ≡ NewResult.ok t'
    → IsSlot t j n
    → IsSlot t' j n
unfolding fill
fill-IsSlot i j [] n t t' h e s = subst (λ z. IsSlot z j n) (ok_inj e) s
fill-IsSlot i j (m ∷ ms) n t t' h e s = elim (Bool-cases (ltb 16 (length m.symbol))) [
  | inl long ↦ let e' = rw long at e in absurd (ground arith)
  | inr short ↦
      fill-IsSlot (suc i) j ms n (put_mapping i m t) t' (omega arith) (rw short at e)
        (put_mapping-IsSlot_ne i j m n t (omega arith) s)
]

pub fill-Covers :
    (i : ℕ) (ms : List BinanceSymbolMapping) (t t' : Tables)
    → Sized t
    → i + length ms ≤ 8
    → fill i ms t ≡ NewResult.ok t'
    → Covers t' i ms
unfolding fill
fill-Covers i [] t t' z h e = tt
fill-Covers i (m ∷ ms) t t' z h e = elim (Bool-cases (ltb 16 (length m.symbol))) [
  | inl long ↦ let e' = rw long at e in absurd (ground arith)
  | inr short ↦
      let e' : fill (suc i) ms (put_mapping i m t) ≡ NewResult.ok t' = rw short at e in
      let here = put_mapping-IsSlot i m t z (omega arith) (ground arith) in
      (
        fill-IsSlot (suc i) i ms m (put_mapping i m t) t' (omega arith) e' here,
        fill-Covers (suc i) ms (put_mapping i m t) t' (put_mapping-Sized i m t z) (omega arith) e',
      )
]

pub blank-Sized : (first : InstrumentMeta) → Sized (blank first)
blank-Sized first = (refl, refl, refl, refl)
