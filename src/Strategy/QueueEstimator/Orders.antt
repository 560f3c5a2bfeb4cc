-- ===== src/Strategy/QueueEstimator/Orders.antt =====
-- Lemmas on the slots of the estimator: what each loop over them changes.
use mantis.Prelude.{
  ℕ, zero, suc, ◌≤◌, ◌≡◌, refl, ap, subst, List, [], ◌∷◌, none, some, arith, length, ◌==◌, true,
  false, inl, inr, Bool-cases, Option-cases, replicate, ◌∙◌, sym,
}
use mantis.Strategy.QueueEstimator.{QueuedOrder, Slot, place, find_slot, put_found, each_order}

-- How many slots hold an order.
unfoldable pub occupied : List Slot → ℕ
occupied [] = 0
occupied (none ∷ rest) = occupied rest
occupied (some o ∷ rest) = suc (occupied rest)

-- Every order satisfies `P`.
unfoldable pub Each : (QueuedOrder → Type 0) → List Slot → Type 0
Each P [] = Unit
Each P (none ∷ rest) = Each P rest
Each P (some o ∷ rest) = P o × Each P rest

pub occupied-le : (xs : List Slot) → occupied xs ≤ length xs
unfolding occupied
occupied-le [] = omega arith
occupied-le (none ∷ rest) = omega (arith, occupied-le rest)
occupied-le (some o ∷ rest) = omega (arith, occupied-le rest)

pub occupied-replicate : (n : ℕ) → occupied (replicate n none) ≡ 0
unfolding occupied
occupied-replicate zero = refl
occupied-replicate (suc n) = occupied-replicate n

pub Each-replicate : (P : QueuedOrder → Type 0) (n : ℕ) → Each P (replicate n none)
unfolding Each
Each-replicate P zero = tt
Each-replicate P (suc n) = Each-replicate P n

pub place-none : (o : QueuedOrder) (xs : List Slot) → place o xs ≡ none → occupied xs ≡ length xs
unfolding place occupied
place-none o [] h = refl
place-none o (none ∷ rest) h = absurd (cc)
place-none o (some x ∷ rest) h = elim (Option-cases (place o rest)) [
  | inl e ↦ ap suc (place-none o rest e)
  | inr (ys, e) ↦ ground arith
]

pub place-some :
    (o : QueuedOrder) (xs ys : List Slot)
    → place o xs ≡ some ys
    → (occupied ys ≡ suc (occupied xs)) × (length ys ≡ length xs)
unfolding place occupied
place-some o [] ys h = absurd (cc)
place-some o (none ∷ rest) ys h = ground arith
place-some o (some x ∷ rest) ys h = elim (Option-cases (place o rest)) [
  | inl e ↦ ground arith
  | inr (zs, e) ↦ ground (arith, place-some o rest zs e)
]

pub place-Each :
    (P : QueuedOrder → Type 0) (o : QueuedOrder) (xs ys : List Slot)
    → place o xs ≡ some ys
    → P o
    → Each P xs
    → Each P ys
unfolding place Each
place-Each P o [] ys h p ps = absurd (cc)
place-Each P o (none ∷ rest) ys h p ps =
    let same : some o ∷ rest ≡ ys = ground arith in subst (Each P) same (p, ps)
place-Each P o (some x ∷ rest) ys h p ps = elim (Option-cases (place o rest)) [
  | inl e ↦ absurd (ground arith)
  | inr (zs, e) ↦
      let same : some x ∷ zs ≡ ys = ground arith in
      subst (Each P) same (ps.0, place-Each P o rest zs e p ps.1)
]

pub find_slot-place :
    (o : QueuedOrder) (xs ys : List Slot)
    → place o xs ≡ some ys
    → find_slot o.order_id xs ≡ none
    → find_slot o.order_id ys ≡ some o
unfolding place find_slot
find_slot-place o [] ys h k = absurd (cc)
find_slot-place o (none ∷ rest) ys h k =
    let same : some o ∷ rest ≡ ys = ground arith in
    ap (find_slot o.order_id) (sym same) ∙ ground arith
find_slot-place o (some x ∷ rest) ys h k = elim (Option-cases (place o rest)) [
  | inl e ↦ absurd (ground arith)
  | inr (zs, e) ↦
      let same : some x ∷ zs ≡ ys = ground arith in
      ap (find_slot o.order_id) (sym same) ∙ ground (arith, find_slot-place o rest zs e)
]

pub occupied-remove :
    (id : ℕ) (xs : List Slot) (o : QueuedOrder)
    → find_slot id xs ≡ some o
    → suc (occupied (put_found id none xs)) ≡ occupied xs
unfolding find_slot occupied put_found
occupied-remove id [] o h = absurd (cc)
occupied-remove id (none ∷ rest) o h = occupied-remove id rest o h
occupied-remove id (some x ∷ rest) o h = ground (arith, occupied-remove id rest o)

pub occupied-put_found :
    (id : ℕ) (q : QueuedOrder) (xs : List Slot) → occupied (put_found id (some q) xs) ≡ occupied xs
unfolding occupied put_found
occupied-put_found id q [] = refl
occupied-put_found id q (none ∷ rest) = occupied-put_found id q rest
occupied-put_found id q (some x ∷ rest) = ground (arith, occupied-put_found id q rest)

pub length-put_found : (id : ℕ) (s : Slot) (xs : List Slot) → length (put_found id s xs) ≡ length xs
unfolding put_found
length-put_found id s [] = refl
length-put_found id s (none ∷ rest) = ap suc (length-put_found id s rest)
length-put_found id s (some x ∷ rest) = ground (arith, length-put_found id s rest)

-- The orders that stay, and the one that is written.
unfoldable pub OfSlot : (QueuedOrder → Type 0) → Slot → Type 0
OfSlot P none = Unit
OfSlot P (some o) = P o

Each-cons :
    (P : QueuedOrder → Type 0) (s : Slot) (xs : List Slot)
    → OfSlot P s
    → Each P xs
    → Each P (s ∷ xs)
unfolding Each OfSlot
Each-cons P none xs p ps = ps
Each-cons P (some o) xs p ps = (p, ps)

pub put_found-Each :
    (P : QueuedOrder → Type 0) (id : ℕ) (s : Slot) (xs : List Slot)
    → OfSlot P s
    → Each P xs
    → Each P (put_found id s xs)
unfolding put_found Each OfSlot
put_found-Each P id s [] p ps = tt
put_found-Each P id s (none ∷ rest) p ps = put_found-Each P id s rest p ps
put_found-Each P id s (some x ∷ rest) p ps = elim (Bool-cases (x.order_id == id)) [
  | inl e ↦ rw e (Each-cons P s rest p ps.1)
  | inr e ↦ rw e (ps.0, put_found-Each P id s rest p ps.1)
]

pub find_slot-put_found :
    (id : ℕ) (o q : QueuedOrder) (xs : List Slot)
    → find_slot id xs ≡ some o
    → q.order_id ≡ id
    → find_slot id (put_found id (some q) xs) ≡ some q
unfolding find_slot put_found
find_slot-put_found id o q [] h k = absurd (cc)
find_slot-put_found id o q (none ∷ rest) h k = find_slot-put_found id o q rest h k
find_slot-put_found id o q (some x ∷ rest) h k = ground (arith, find_slot-put_found id o q rest)

pub occupied-each_order :
    (f : QueuedOrder → QueuedOrder) (xs : List Slot)
    → (occupied (each_order f xs) ≡ occupied xs) × (length (each_order f xs) ≡ length xs)
unfolding occupied each_order
occupied-each_order f [] = (refl, refl)
occupied-each_order f (none ∷ rest) = let r = occupied-each_order f rest in (r.0, ap suc r.1)
occupied-each_order f (some x ∷ rest) =
    let r = occupied-each_order f rest in (ap suc r.0, ap suc r.1)

pub each_order-Each :
    (P : QueuedOrder → Type 0) (f : QueuedOrder → QueuedOrder) (xs : List Slot)
    → ((o : QueuedOrder) → P o → P (f o))
    → Each P xs
    → Each P (each_order f xs)
unfolding Each each_order
each_order-Each P f [] h ps = tt
each_order-Each P f (none ∷ rest) h ps = each_order-Each P f rest h ps
each_order-Each P f (some x ∷ rest) h ps = (h x ps.0, each_order-Each P f rest h ps.1)

pub find_slot-each_order :
    (f : QueuedOrder → QueuedOrder) (id : ℕ) (xs : List Slot)
    → ((o : QueuedOrder) → (f o).order_id ≡ o.order_id)
    → find_slot id (each_order f xs) ≡ elim (find_slot id xs) [ none ↦ none | some o ↦ some (f o) ]
unfolding find_slot each_order
find_slot-each_order f id [] h = refl
find_slot-each_order f id (none ∷ rest) h = find_slot-each_order f id rest h
find_slot-each_order f id (some x ∷ rest) h = elim (Bool-cases (x.order_id == id)) [
  | inl e ↦ let moved : ((f x).order_id == id) ≡ true = rw (h x) e in rw (moved, e) refl
  | inr e ↦
      let moved : ((f x).order_id == id) ≡ false = rw (h x) e in
      rw (moved, e) (find_slot-each_order f id rest h)
]
