-- ===== src/MarketState/ArrayBook/Levels.antt =====
-- `depth` and `total_depth` against the list of live levels, best price first.
use Prim.Native.Nat.{min}
use mantis.Prelude.{
  ℕ, zero, suc, ◌+◌, ◌-◌, ◌^◌, ◌≤◌, ◌<◌, ◌≡◌, refl, ◌∙◌, ap, true, List, [], ◌∷◌, arith,
  if◌then◌else◌, ltb, leb, Bool-cases, inl, inr, length, set, get_or, length-set, get_or-set_self,
  get_or-set_ne, dec_lt, ℕ_discrete,
}
use mantis.Prelude.Int.{pos}
use mantis.Types.{Lots, Ticks, Side}
use mantis.MarketState.ArrayBook.{
  ArrayBook, Buffer, level, is_live, idx_to_ticks, write_level, depth_down, depth_up, depth,
}

-- The live levels below `i`, from the highest price down; and `k` levels from `i` on, going up.
unfoldable pub live_down : ℕ → List Lots → Buffer
live_down zero xs = []
live_down (suc i) xs =
    if is_live (level xs i) then (pos i, level xs i) ∷ live_down i xs else live_down i xs

unfoldable pub live_up : ℕ → ℕ → List Lots → Buffer
live_up zero i xs = []
live_up (suc k) i xs =
    if is_live (level xs i)
    then (pos i, level xs i) ∷ live_up k (suc i) xs
    else live_up k (suc i) xs

-- Best price first: the bids from the top, the asks from the bottom.
unfoldable pub live_levels : ℕ → ArrayBook → Side → Buffer
live_levels n b Side.bid = live_down n b.bids
live_levels n b Side.ask = live_up n 0 b.asks

abbrev pub Entry : Type 0
Entry = Ticks × Lots

-- What a buffer holds after `found` has been written from `count` on.
abbrev pub expected : Buffer → ℕ → Buffer → ℕ → Entry → Entry
expected buf count found j d =
    if ltb j count then get_or buf j d else get_or found (j - count) (get_or buf j d)

get_or-cons :
    (x : Entry) (xs : Buffer) (k : ℕ) (d : Entry)
    → 0 < k
    → get_or (x ∷ xs) k d ≡ get_or xs (k - 1) d
get_or-cons x xs zero d h = absurd (omega arith)
get_or-cons x xs (suc k) d h = ap (λ (m : ℕ). get_or xs m d) (omega arith)

expected-cons :
    (buf : Buffer) (c : ℕ) (x : Entry) (found : Buffer) (j : ℕ) (d : Entry)
    → c < length buf
    → expected (set buf c x) (c + 1) found j d ≡ expected buf c (x ∷ found) j d
expected-cons buf c x found j d h = elim (ℕ_discrete c j) [
  | yes e ↦
      let zero_gap : j - c ≡ 0 = omega arith in
      ground (arith, get_or-set_self buf c x d h, zero_gap)
  | no ne ↦ elim (dec_lt j c) [
    | yes below ↦ ground (arith, get_or-set_ne buf c j x d ne)
    | no above ↦ ground (
      arith,
      get_or-set_ne buf c j x d ne,
      get_or-cons x found (j - c) (get_or buf j d),
      ap (λ (m : ℕ). get_or found m (get_or buf j d))
          (let e : j - (c + 1) ≡ j - c - 1 = omega arith in e),
    )
  ]
]

abbrev pub Written : Buffer → ℕ → Buffer → Buffer × ℕ → Type 0
Written buf count found (out, count') =
    (length out ≡ length buf)
    × (count' ≡ min (length buf) (count + length found))
    × ((j : ℕ) (d : Entry) → j < length buf → get_or out j d ≡ expected buf count found j d)

Written-full :
    (buf : Buffer) (count : ℕ) (found : Buffer)
    → length buf ≤ count
    → count ≤ length buf
    → Written buf count found (buf, count)
Written-full buf count found h k = (refl, omega arith, λ j d l. ground arith)

Written-nil : (buf : Buffer) (count : ℕ) → count ≤ length buf → Written buf count [] (buf, count)
Written-nil buf count h = (refl, omega arith, λ j d l. ground arith)

Written-cons :
    (buf : Buffer) (count : ℕ) (x : Entry) (found : Buffer) (r : Buffer × ℕ)
    → count < length buf
    → Written (set buf count x) (count + 1) found r
    → Written buf count (x ∷ found) r
Written-cons buf count x found (out, count') h w =
    let kept = length-set buf count x in
    (
      w.0 ∙ kept,
      omega (arith, kept),
      λ j d l. w.2 j d (omega (arith, kept)) ∙ expected-cons buf count x found j d h,
    )

write_level-live :
    (xs : List Lots) (i : ℕ) (buf : Buffer) (count : ℕ)
    → i < 2 ^ 16
    → is_live (level xs i) ≡ true
    → write_level xs i buf count ≡ (set buf count (pos i, level xs i), count + 1)
unfolding idx_to_ticks
write_level-live xs i buf count h live = ground arith

depth_down-Written :
    (i : ℕ) (xs : List Lots) (buf : Buffer) (count : ℕ)
    → i ≤ 2 ^ 16
    → count ≤ length buf
    → Written buf count (live_down i xs) (depth_down i xs buf count)
unfolding depth_down live_down
depth_down-Written zero xs buf count small room = Written-nil buf count room
depth_down-Written (suc i) xs buf count small room = elim (Bool-cases (leb (length buf) count)) [
  | inl full ↦ rw full (Written-full buf count _ (ground arith) room)
  | inr space ↦ elim (Bool-cases (is_live (level xs i))) [
    | inl live ↦
        rw (space, write_level-live xs i buf count small live, live)
          (Written-cons buf count _ _ _ (ground arith) (
            depth_down-Written i xs (set buf count (pos i, level xs i)) (count + 1) (omega arith)
              (ground (arith, length-set buf count (pos i, level xs i)))))
    | inr dead ↦ rw (space, dead) (depth_down-Written i xs buf count (omega arith) room)
  ]
]

depth_up-Written :
    (k i : ℕ) (xs : List Lots) (buf : Buffer) (count : ℕ)
    → i + k ≤ 2 ^ 16
    → count ≤ length buf
    → Written buf count (live_up k i xs) (depth_up k i xs buf count)
unfolding depth_up live_up
depth_up-Written zero i xs buf count small room = Written-nil buf count room
depth_up-Written (suc k) i xs buf count small room = elim (Bool-cases (leb (length buf) count)) [
  | inl full ↦ rw full (Written-full buf count _ (ground arith) room)
  | inr space ↦ elim (Bool-cases (is_live (level xs i))) [
    | inl live ↦
        rw (space, write_level-live xs i buf count (omega arith) live, live)
          (Written-cons buf count _ _ _ (ground arith) (
            depth_up-Written k (suc i) xs (set buf count (pos i, level xs i)) (count + 1)
              (omega arith) (ground (arith, length-set buf count (pos i, level xs i)))))
    | inr dead ↦ rw (space, dead) (depth_up-Written k (suc i) xs buf count (omega arith) room)
  ]
]

-- `depth` writes the live levels of the side, best price first, as far as the buffer reaches, and
-- returns how many it wrote; the rest of the buffer is as before. For a book of at most 2^16 levels.
pub depth_lem :
    (n : ℕ) (b : ArrayBook) (s : Side) (buf : Buffer)
    → n ≤ 2 ^ 16
    → let (out, count) = depth n b s buf in
      (length out ≡ length buf)
      × (count ≡ min (length buf) (length (live_levels n b s)))
      × ((j : ℕ) (d : Entry)
          → j < length buf
          → get_or out j d ≡ get_or (live_levels n b s) j (get_or buf j d))
unfolding depth live_levels
depth_lem n b Side.bid buf h =
    let w = depth_down-Written n b.bids buf 0 h (omega arith) in
    (w.0, omega (arith, w.1), λ j d l. w.2 j d l ∙ ground arith)
depth_lem n b Side.ask buf h =
    let w = depth_up-Written n 0 b.asks buf 0 (omega arith) (omega arith) in
    (w.0, omega (arith, w.1), λ j d l. w.2 j d l ∙ ground arith)
