-- ===== src/Strategy/OrderTracker/Fill.antt =====
-- Quantities: what a fill does to the order it names and to the open quantity of its book side.
use Prim.Native.Nat.{min}
use mantis.Prelude.{
  ℕ, ◌+◌, ◌-◌, ◌^◌, ◌≤◌, ◌<◌, ◌≡◌, refl, true, List, [], ◌∷◌, none, some, arith, ◌∙◌, ap, subst,
  sym, if◌then◌else◌, Bool-cases, inl, inr, ◌==◌,
}
use mathlib.Core.Option.{some-injective}
use mantis.Prelude.Int.{ℤ, pos, negsuc, pos_part, neg_part}
use mantis.Prelude.I64.{add_i64, add_i64-pos, sub_i64-pos}
use mantis.Types.{InstrumentId, Side, Lots}
use mantis.Strategy.OrderTracker.{
  OrderTracker, OrderState, TrackedOrder, Slot, is_active, find, update_found, fill_order,
  overfilled, on_fill, get, remaining_qty, open_qty, open_qty_from, counts_for,
}
use mantis.Strategy.OrderTracker.Slots.{find-update_found}

-- The quantities of an order are in order: 0 ≤ filled ≤ original, within an i64.
pub record IsFillable (o : TrackedOrder) : Type 0 where
  pub filled_nonneg : neg_part o.filled_qty ≡ 0
  pub original_nonneg : neg_part o.original_qty ≡ 0
  pub filled_le : pos_part o.filled_qty ≤ pos_part o.original_qty
  pub original_fits : pos_part o.original_qty < 2 ^ 63

abbrev pub AllFillable : List Slot → Type 0
AllFillable [] = Unit {0}
AllFillable (none ∷ rest) = AllFillable rest
AllFillable (some o ∷ rest) = IsFillable o × AllFillable rest

-- What is left of an order, and of all orders of one book side, as numbers that do not wrap.
abbrev pub left : TrackedOrder → ℕ
left o = pos_part o.original_qty - pos_part o.filled_qty

unfoldable pub share : InstrumentId → Side → TrackedOrder → ℕ
share i s o = if counts_for i s o then left o else 0

unfoldable pub open_total : InstrumentId → Side → List Slot → ℕ
open_total i s [] = 0
open_total i s (none ∷ rest) = open_total i s rest
open_total i s (some o ∷ rest) = share i s o + open_total i s rest

eq_pos : (z : ℤ) → neg_part z ≡ 0 → z ≡ pos (pos_part z)
eq_pos (pos n) h = refl
eq_pos (negsuc n) h = absurd (omega arith)

pub remaining_qty-eq : (o : TrackedOrder) → IsFillable o → remaining_qty o ≡ pos (left o)
unfolding remaining_qty
remaining_qty-eq o v =
    rw (eq_pos o.original_qty v.original_nonneg, eq_pos o.filled_qty v.filled_nonneg)
      (sub_i64-pos _ _ v.filled_le v.original_fits)

add_remaining :
    (n : ℕ) (o : TrackedOrder)
    → IsFillable o
    → n + left o < 2 ^ 63
    → add_i64 (pos n) (remaining_qty o) ≡ pos (n + left o)
add_remaining n o v h = rw (remaining_qty-eq o v) (add_i64-pos n (left o) h)

open_qty_from-eq :
    (n : ℕ) (i : InstrumentId) (s : Side) (xs : List Slot)
    → AllFillable xs
    → n + open_total i s xs < 2 ^ 63
    → open_qty_from (pos n) i s xs ≡ pos (n + open_total i s xs)
unfolding open_qty_from open_total share
open_qty_from-eq n i s [] a h = ground arith
open_qty_from-eq n i s (none ∷ rest) a h = open_qty_from-eq n i s rest a h
open_qty_from-eq n i s (some o ∷ rest) a h = elim (Bool-cases (counts_for i s o)) [
  | inl e ↦
      let fits : n + left o + open_total i s rest < 2 ^ 63 = ground arith in
      rw (e, add_remaining n o a.0 (omega arith))
        (open_qty_from-eq (n + left o) i s rest a.1 fits ∙ ap pos (omega arith))
  | inr e ↦
      let fits : n + open_total i s rest < 2 ^ 63 = ground arith in
      rw e (open_qty_from-eq n i s rest a.1 fits ∙ ap pos (omega arith))
]

-- `open_qty` is the sum of what is left of the active orders of that side, as long as that sum fits
-- an i64.
pub open_qty-eq-open_total :
    (t : OrderTracker) (i : InstrumentId) (s : Side)
    → AllFillable t.orders
    → open_total i s t.orders < 2 ^ 63
    → open_qty t i s ≡ pos (open_total i s t.orders)
unfolding open_qty
open_qty-eq-open_total t i s a h =
    open_qty_from-eq 0 i s t.orders a (omega arith) ∙ ap pos (omega arith)

module _ (o : TrackedOrder) (q : ℕ) (v : IsFillable o)
    (fits : pos_part o.filled_qty + q < 2 ^ 63) where
  filled_sum : add_i64 o.filled_qty (pos q) ≡ pos (pos_part o.filled_qty + q)
  filled_sum = rw (eq_pos o.filled_qty v.filled_nonneg) (add_i64-pos _ q fits)

  -- A fill of an order adds its quantity, never past what was ordered.
  pub fill_order_qty :
      (fill_order (pos q) o).filled_qty
      ≡ pos (min (pos_part o.original_qty) (pos_part o.filled_qty + q))
  unfolding fill_order overfilled
  fill_order_qty = ground (arith, filled_sum, eq_pos o.original_qty v.original_nonneg)

  pub fill_order-IsFillable : IsFillable (fill_order (pos q) o)
  unfolding fill_order overfilled
  fill_order-IsFillable = ground (arith, filled_sum)

  pub left-fill_order : left (fill_order (pos q) o) + min q (left o) ≡ left o
  unfolding fill_order overfilled
  left-fill_order = ground (arith, filled_sum)

  pub fill_order_state :
      (fill_order (pos q) o).state ≡ (if (left o - q) == 0 then OrderState.filled else o.state)
  unfolding fill_order overfilled
  fill_order_state = ground (arith, filled_sum)

-- The sum over a book side after a write through a found reference.
open_total-update_found :
    (i : InstrumentId) (s : Side) (id : ℕ) (f : TrackedOrder → TrackedOrder) (xs : List Slot)
    (o : TrackedOrder)
    → find id xs ≡ some o
    → open_total i s (update_found id f xs) + share i s o ≡ open_total i s xs + share i s (f o)
unfolding open_total find update_found
open_total-update_found i s id f [] o h = absurd (cc)
open_total-update_found i s id f (none ∷ rest) o h = open_total-update_found i s id f rest o h
open_total-update_found i s id f (some x ∷ rest) o h =
    ground (arith, open_total-update_found i s id f rest o)

AllFillable-update_found :
    (id : ℕ) (f : TrackedOrder → TrackedOrder) (xs : List Slot) (o : TrackedOrder)
    → find id xs ≡ some o
    → (IsFillable o → IsFillable (f o))
    → AllFillable xs
    → AllFillable (update_found id f xs)
unfolding find update_found
AllFillable-update_found id f [] o h k a = tt
AllFillable-update_found id f (none ∷ rest) o h k a = AllFillable-update_found id f rest o h k a
AllFillable-update_found id f (some x ∷ rest) o h k a =
    elim (Bool-cases (x.client_order_id == id)) [
      | inl e ↦
          let same : x ≡ o = some-injective x o (rw (e, find) at h) in
          rw e (subst (λ y. IsFillable (f y)) (sym same) (k (subst IsFillable same a.0)), a.1)
      | inr e ↦ rw e (a.0, AllFillable-update_found id f rest o (rw (e, find) at h) k a.1)
    ]

find-IsFillable :
    (id : ℕ) (xs : List Slot) (o : TrackedOrder)
    → find id xs ≡ some o
    → AllFillable xs
    → IsFillable o
unfolding find
find-IsFillable id [] o h a = absurd (cc)
find-IsFillable id (none ∷ rest) o h a = find-IsFillable id rest o h a
find-IsFillable id (some x ∷ rest) o h a = elim (Bool-cases (x.client_order_id == id)) [
  | inl e ↦ subst IsFillable (some-injective x o (rw (e, find) at h)) a.0
  | inr e ↦ find-IsFillable id rest o (rw (e, find) at h) a.1
]

client_id-fill_order :
    (q : Lots) (o : TrackedOrder) → (fill_order q o).client_order_id ≡ o.client_order_id
unfolding fill_order
client_id-fill_order q o = ground arith

-- What a fill of `q` takes from the open quantity of a book side.
pub taken : InstrumentId → Side → ℕ → TrackedOrder → ℕ
taken i s q o = if counts_for i s o then min q (left o) else 0

share-fill_order :
    (i : InstrumentId) (s : Side) (o : TrackedOrder) (q : ℕ)
    → IsFillable o
    → pos_part o.filled_qty + q < 2 ^ 63
    → is_active o ≡ true
    → share i s (fill_order (pos q) o) + taken i s q o ≡ share i s o
unfolding share taken fill_order overfilled
share-fill_order i s o q v fits act = ground (arith, filled_sum o q v fits)

-- A fill of an active order, with quantities in order and no overflow: the order found under the id
-- afterwards has the quantity added, capped at what was ordered, and is filled exactly when nothing
-- is left; quantities stay in order in every slot; and the open quantity of each book side falls by
-- what was filled if the order counts for that side, and is unchanged if not.
pub on_fill_lem :
    (t : OrderTracker) (id q : ℕ) (o : TrackedOrder)
    → find id t.orders ≡ some o
    → is_active o ≡ true
    → AllFillable t.orders
    → pos_part o.filled_qty + q < 2 ^ 63
    → ((o' : TrackedOrder) × (get (on_fill t id (pos q)) id ≡ some o')
        × (o'.filled_qty ≡ pos (min (pos_part o.original_qty) (pos_part o.filled_qty + q)))
        × (o'.state ≡ (if (left o - q) == 0 then OrderState.filled else o.state)))
      × AllFillable (on_fill t id (pos q)).orders
      × ((i : InstrumentId) (s : Side)
          → open_total i s (on_fill t id (pos q)).orders + taken i s q o ≡ open_total i s t.orders)
unfolding on_fill get
on_fill_lem t id q o found act a fits =
    let v = find-IsFillable id t.orders o found a in
    rw (found, on_fill, act)
      (
        (
          fill_order (pos q) o,
          find-update_found id (fill_order (pos q)) t.orders o found
              (client_id-fill_order (pos q) o),
          fill_order_qty o q v fits,
          fill_order_state o q v fits,
        ),
        AllFillable-update_found id (fill_order (pos q)) t.orders o found
            (λ w. fill_order-IsFillable o q w fits) a,
        λ i s. omega (
          arith,
          open_total-update_found i s id (fill_order (pos q)) t.orders o found,
          share-fill_order i s o q v fits act,
        ),
      )
