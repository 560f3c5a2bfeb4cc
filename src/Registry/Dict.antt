-- ===== src/Registry/Dict.antt =====
-- `std::collections::HashMap` as a list of entries with distinct keys; the order of iteration is
-- not specified, and nothing here depends on it.
use mantis.Prelude.{
  ℕ, ◌≡◌, refl, Bool, true, false, ◌&&◌, ◌==◌, List, [], ◌∷◌, Option, none, some, if◌then◌else◌,
  arith, Bool-cases, inl, inr, ap,
}

-- A Rust `String`, as its bytes.
abbrev pub Text : Type 0
Text = List ℕ

abbrev pub text_eq : Text → Text → Bool
text_eq [] [] = true
text_eq [] (b ∷ ys) = false
text_eq (a ∷ xs) [] = false
text_eq (a ∷ xs) (b ∷ ys) = (a == b) && text_eq xs ys

pub text_eq_refl : (t : Text) → text_eq t t ≡ true
text_eq_refl [] = refl
text_eq_refl (a ∷ xs) = let rest = text_eq_refl xs in ground arith

pub text_eq-to_eq : (s t : Text) → text_eq s t ≡ true → s ≡ t
text_eq-to_eq [] [] h = refl
text_eq-to_eq [] (b ∷ ys) h = absurd (ground arith)
text_eq-to_eq (a ∷ xs) [] h = absurd (ground arith)
text_eq-to_eq (a ∷ xs) (b ∷ ys) h =
    let head : a ≡ b = ground arith in
    let tail : xs ≡ ys = text_eq-to_eq xs ys (ground arith) in rw (head, tail)

abbrev pub HashMap : Type 0 → Type 0 → Type 0
HashMap K V = List (K × V)

module _ {K V : Type 0} (same : K → K → Bool) where
  unfoldable pub lookup : HashMap K V → K → Option V
  lookup [] k = none
  lookup ((k', v) ∷ rest) k = if same k' k then some v else lookup rest k

  -- All entries of the key go.
  unfoldable pub remove : HashMap K V → K → HashMap K V
  remove [] k = []
  remove ((k', v) ∷ rest) k =
      let rest' = remove rest k in if same k' k then rest' else (k', v) ∷ rest'

  unfoldable pub insert : HashMap K V → K → V → HashMap K V
  insert d k v = (k, v) ∷ remove d k

  pub lookup-remove_self : (d : HashMap K V) (k : K) → lookup (remove d k) k ≡ none
  unfolding lookup remove
  lookup-remove_self [] k = refl
  lookup-remove_self ((k', v) ∷ rest) k = elim (Bool-cases (same k' k)) [
    | inl e ↦ rw e (lookup-remove_self rest k)
    | inr e ↦ rw (e, e) (lookup-remove_self rest k)
  ]

  pub lookup-insert_self :
      (d : HashMap K V) (k : K) (v : V) → same k k ≡ true → lookup (insert d k v) k ≡ some v
  unfolding lookup insert
  lookup-insert_self d k v e = rw e

-- Removing one text leaves the entries of the others.
pub lookup-remove_ne :
    {V : Type 0} (d : HashMap Text V) (k j : Text)
    → text_eq k j ≡ false
    → lookup text_eq (remove text_eq d k) j ≡ lookup text_eq d j
unfolding lookup remove
lookup-remove_ne [] k j h = refl
lookup-remove_ne ((t, v) ∷ rest) k j h = elim (Bool-cases (text_eq t k)) [
  | inl e ↦
      let apart : text_eq t j ≡ false = rw (text_eq-to_eq t k e) h in
      rw (e, apart) (lookup-remove_ne rest k j h)
  | inr e ↦ rw e (ap (λ z. if text_eq t j then some v else z) (lookup-remove_ne rest k j h))
]
