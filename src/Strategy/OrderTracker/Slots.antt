-- ===== src/Strategy/OrderTracker/Slots.antt =====
-- Lemmas on the slot array: what placing an order and writing through a found reference change.
use mantis.Prelude.{
  inl, inr, ◌≢◌, ℕ, suc, ◌+◌, ◌≤◌, ◌≡◌, refl, true, false, List, [], ◌∷◌, none, some, arith, length,
  Option-cases, zero, replicate, if◌then◌else◌,
}
use mantis.Strategy.OrderTracker.{
  TrackedOrder, Slot, is_active, can_reuse, place, find, update_found,
}

abbrev pub weight : TrackedOrder → ℕ
weight o = if is_active o then 1 else 0

-- How many orders of the array are active.
unfoldable pub count_active : List Slot → ℕ
count_active [] = 0
count_active (none ∷ rest) = count_active rest
count_active (some o ∷ rest) = weight o + count_active rest

pub count_active-le : (xs : List Slot) → count_active xs ≤ length xs
unfolding count_active
count_active-le [] = omega arith
count_active-le (none ∷ rest) = omega (arith, count_active-le rest)
count_active-le (some o ∷ rest) = ground (arith, count_active-le rest)

pub count_active-replicate : (n : ℕ) → count_active (replicate n none) ≡ 0
unfolding count_active
count_active-replicate zero = refl
count_active-replicate (suc n) = count_active-replicate n

-- A slot can be reused exactly when it holds no active order.
pub can_reuse-some : (o : TrackedOrder) → can_reuse (some o) ≡ (if is_active o then false else true)
can_reuse-some o = ground arith

pub length-place :
    (o : TrackedOrder) (xs ys : List Slot) → place o xs ≡ some ys → length ys ≡ length xs
unfolding place
length-place o [] ys h = absurd (cc)
length-place o (none ∷ rest) ys h = ground arith
length-place o (some x ∷ rest) ys h = elim (Option-cases (place o rest)) [
  | inl e ↦ ground arith
  | inr (zs, e) ↦ ground (arith, length-place o rest zs e)
]

pub length-update_found :
    (id : ℕ) (f : TrackedOrder → TrackedOrder) (xs : List Slot)
    → length (update_found id f xs) ≡ length xs
unfolding update_found
length-update_found id f [] = refl
length-update_found id f (none ∷ rest) = omega (arith, length-update_found id f rest)
length-update_found id f (some o ∷ rest) = ground (arith, length-update_found id f rest)

pub count_active-update_found :
    (id : ℕ) (f : TrackedOrder → TrackedOrder) (xs : List Slot) (o : TrackedOrder)
    → find id xs ≡ some o
    → count_active (update_found id f xs) + weight o ≡ count_active xs + weight (f o)
unfolding count_active find update_found
count_active-update_found id f [] o h = absurd (cc)
count_active-update_found id f (none ∷ rest) o h = count_active-update_found id f rest o h
count_active-update_found id f (some x ∷ rest) o h =
    ground (arith, count_active-update_found id f rest o)

-- Placing an order changes the count by the order's own weight: the slot it takes is not active.
pub count_active-place :
    (o : TrackedOrder) (xs ys : List Slot)
    → place o xs ≡ some ys
    → count_active ys ≡ weight o + count_active xs
unfolding count_active place
count_active-place o [] ys h = absurd (cc)
count_active-place o (none ∷ rest) ys h = ground arith
count_active-place o (some x ∷ rest) ys h = elim (Option-cases (place o rest)) [
  | inl e ↦ ground arith
  | inr (zs, e) ↦ ground (arith, count_active-place o rest zs e)
]

-- There is no slot to reuse exactly when every slot holds an active order.
pub place-none :
    (o : TrackedOrder) (xs : List Slot) → place o xs ≡ none → count_active xs ≡ length xs
unfolding count_active place
place-none o [] h = refl
place-none o (none ∷ rest) h = absurd (cc)
place-none o (some x ∷ rest) h = elim (Option-cases (place o rest)) [
  | inl e ↦ ground (arith, place-none o rest e)
  | inr (zs, e) ↦ ground arith
]

pub place_full :
    (o : TrackedOrder) (xs : List Slot) → count_active xs ≡ length xs → place o xs ≡ none
unfolding count_active place
place_full o [] h = refl
place_full o (none ∷ rest) h = absurd (omega (arith, count_active-le rest))
place_full o (some x ∷ rest) h = ground (arith, place_full o rest, count_active-le rest)

-- The order that a lookup finds is the one that the write goes to.
pub find-update_found :
    (id : ℕ) (f : TrackedOrder → TrackedOrder) (xs : List Slot) (o : TrackedOrder)
    → find id xs ≡ some o
    → (f o).client_order_id ≡ o.client_order_id
    → find id (update_found id f xs) ≡ some (f o)
unfolding find update_found
find-update_found id f [] o h k = absurd (cc)
find-update_found id f (none ∷ rest) o h k = find-update_found id f rest o h k
find-update_found id f (some x ∷ rest) o h k = ground (arith, find-update_found id f rest o)

-- Orders under another id are left as they are.
pub find-update_found_ne :
    (id j : ℕ) (f : TrackedOrder → TrackedOrder) (xs : List Slot)
    → ((o : TrackedOrder) → (f o).client_order_id ≡ o.client_order_id)
    → j ≢ id
    → find j (update_found id f xs) ≡ find j xs
unfolding find update_found
find-update_found_ne id j f [] k ne = refl
find-update_found_ne id j f (none ∷ rest) k ne = find-update_found_ne id j f rest k ne
find-update_found_ne id j f (some x ∷ rest) k ne =
    ground (arith, find-update_found_ne id j f rest k ne, k x)
