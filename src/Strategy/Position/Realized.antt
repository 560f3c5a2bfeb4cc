-- ===== src/Strategy/Position/Realized.antt =====
-- A sale out of a long position, without overflow: what it realizes and what it leaves.
use mantis.Prelude.{ℕ, ◌-◌, ◌≤◌, ◌<◌, ◌^◌, ◌≡◌, ◌∙◌, ap, false, some, arith, if◌then◌else◌}
use mantis.Prelude.Int.{ℤ, pos, ◌*ℤ◌, ◌+ℤ◌, ◌-ℤ◌}
use mantis.Prelude.I64.{InI64, abs_i64, add_i64, neg_i64, wrap_i64, min_ℤ, signum, checked}
use mantis.Types.{Side, SignedLots}
use mantis.Fixed.{zero_fixed, checked_mul_int, checked_add, checked_sub}
use mantis.Strategy.Position.{Position, on_fill, realize, settle, is_increasing, flips, is_zero}

neg_fits : (b : ℕ) → b < 2 ^ 63 → neg_i64 (pos b) ≡ pos 0 -ℤ pos b
unfolding neg_i64 wrap_i64 ◌-ℤ◌
neg_fits b h = ground arith

abs_neg : (b : ℕ) → b < 2 ^ 63 → abs_i64 (pos 0 -ℤ pos b) ≡ pos b
unfolding abs_i64 neg_i64 wrap_i64 ◌-ℤ◌
abs_neg b h = ground arith

sold : (a b : ℕ) → b ≤ a → a < 2 ^ 63 → add_i64 (pos a) (pos 0 -ℤ pos b) ≡ pos (a - b)
unfolding add_i64 wrap_i64 ◌-ℤ◌ ◌+ℤ◌
sold a b h k = ground arith

abs_pos : (n : ℕ) → abs_i64 (pos n) ≡ pos n
unfolding abs_i64
abs_pos n = ground arith

sale_is_decrease : (a b : ℕ) → 0 < a → 0 < b → is_increasing (pos a) (pos 0 -ℤ pos b) ≡ false
unfolding is_increasing ◌-ℤ◌
sale_is_decrease a b h k = ground arith

times_one : (z : ℤ) → z *ℤ pos 1 ≡ z
unfolding ◌*ℤ◌
times_one z = ground arith

checked-eq : (z : ℤ) → InI64 z → checked z ≡ some z
checked-eq z h = ground arith

sub-eq : (a b : ℤ) → InI64 (a -ℤ b) → checked_sub a b ≡ some (a -ℤ b)
unfolding checked_sub
sub-eq a b h = checked-eq (a -ℤ b) h

mul-eq : (a b : ℤ) → InI64 (a *ℤ b) → checked_mul_int a b ≡ some (a *ℤ b)
unfolding checked_mul_int
mul-eq a b h = checked-eq (a *ℤ b) h

add-eq : (a b : ℤ) → InI64 (a +ℤ b) → checked_add a b ≡ some (a +ℤ b)
unfolding checked_add
add-eq a b h = checked-eq (a +ℤ b) h

sign_of_long : (a : ℕ) → 0 < a → signum (pos a) ≡ pos 1
sign_of_long a h = ground arith

closed : (a b : ℕ) → b ≤ a → min_ℤ (pos b) (pos a) ≡ pos b
closed a b h = ground arith

-- The profit of closing `b` lots at price `x` that were entered at price `e`.
abbrev pub profit : ℤ → ℤ → ℕ → ℤ
profit e x b = (x -ℤ e) *ℤ pos b

realize_lem :
    (p : Position) (a b : ℕ) (x : ℤ)
    → p.qty ≡ pos a
    → 0 < a
    → b ≤ a
    → a < 2 ^ 63
    → InI64 (x -ℤ p.avg_entry)
    → InI64 (profit p.avg_entry x b)
    → InI64 (p.realized_pnl +ℤ profit p.avg_entry x b)
    → realize p x (pos 0 -ℤ pos b) ≡ p.realized_pnl +ℤ profit p.avg_entry x b
unfolding realize
realize_lem p a b x q h k l i j m =
    let diff = x -ℤ p.avg_entry in
    let unit : checked_mul_int diff (pos 1) ≡ some diff =
      mul-eq diff (pos 1) (rw (times_one diff) i) ∙ ap some (times_one diff) in
    rw (
      q,
      abs_neg b (omega arith),
      abs_pos a,
      sub-eq x p.avg_entry i,
      sign_of_long a h,
      closed a b k,
      unit,
      mul-eq diff (pos b) j,
      add-eq p.realized_pnl (profit p.avg_entry x b) m,
    )

-- The entry price that `settle` keeps where it would be `x` after a flip.
entry_after : SignedLots → SignedLots → ℤ → ℤ → ℤ
entry_after old new_qty x e =
    if is_zero new_qty then zero_fixed else if flips old new_qty then x else e

entry_stays : (a c : ℕ) (x e : ℤ) → 0 < a → 0 < c → entry_after (pos a) (pos c) x e ≡ e
unfolding entry_after abs_i64
entry_stays a c x e h k = ground arith

-- Selling `b` lots out of a long position of `a` lots, with 0 < b ≤ a and the profit in range: the
-- fill succeeds, leaves `a - b` lots, and adds (fill price - entry price) * b to what is realized;
-- the entry price stays as long as lots are left, and is reset to zero when none are.
pub on_fill_sell :
    (p : Position) (a b : ℕ) (x : ℤ)
    → p.qty ≡ pos a
    → 0 < b
    → b ≤ a
    → a < 2 ^ 63
    → InI64 (x -ℤ p.avg_entry)
    → InI64 (profit p.avg_entry x b)
    → InI64 (p.realized_pnl +ℤ profit p.avg_entry x b)
    → (p' : Position) × (on_fill p Side.ask (pos b) x ≡ some p')
      × (p'.qty ≡ pos (a - b))
      × (p'.realized_pnl ≡ p.realized_pnl +ℤ profit p.avg_entry x b)
      × (b < a → p'.avg_entry ≡ p.avg_entry)
      × (b ≡ a → p'.avg_entry ≡ zero_fixed)
unfolding on_fill entry_after
on_fill_sell p a b x q h k l i j m =
    let delta : neg_i64 (pos b) ≡ pos 0 -ℤ pos b = neg_fits b (omega arith) in
    let left : add_i64 p.qty (neg_i64 (pos b)) ≡ pos (a - b) = rw (q, delta) (sold a b k l) in
    let down : is_increasing p.qty (neg_i64 (pos b)) ≡ false =
      rw (q, delta) (sale_is_decrease a b (omega arith) h) in
    let gain : realize p x (neg_i64 (pos b)) ≡ p.realized_pnl +ℤ profit p.avg_entry x b =
      rw delta (realize_lem p a b x q (omega arith) k l i j m) in
    (
      settle p (add_i64 p.qty (neg_i64 (pos b)))
          (if flips p.qty (add_i64 p.qty (neg_i64 (pos b))) then x else p.avg_entry)
          (realize p x (neg_i64 (pos b))),
      rw down,
      left,
      gain,
      λ z. rw (left, q) (entry_stays a (a - b) x p.avg_entry (omega arith) (omega arith)),
      λ z. rw left (ground arith),
    )
