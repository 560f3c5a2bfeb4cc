-- ===== src/Decoder/Returns.antt =====
-- What holds of every value that an attempt returns, carried through its steps.
use mantis.Prelude.{◌≡◌, subst, arith, some}
use mantis.Decoder.{Attempt, ◌>>=◌, settle}

abbrev pub Returns : {A : Type 0} → (A → Type 0) → Attempt A → Type 0
Returns P (Attempt.done a) = P a
Returns P Attempt.rejected = Unit
Returns P Attempt.panicked = Unit

pub bind-Returns :
    {A B : Type 0} (P : A → Type 0) (Q : B → Type 0) (a : Attempt A) (f : A → Attempt B)
    → Returns P a
    → ((x : A) → P x → Returns Q (f x))
    → Returns Q (a >>= f)
bind-Returns P Q (Attempt.done x) f h k = k x h
bind-Returns P Q Attempt.rejected f h k = tt
bind-Returns P Q Attempt.panicked f h k = tt

-- A step of which nothing is known.
pub after-Returns :
    {A B : Type 0} (Q : B → Type 0) (a : Attempt A) (f : A → Attempt B)
    → ((x : A) → Returns Q (f x))
    → Returns Q (a >>= f)
after-Returns Q (Attempt.done x) f k = k x
after-Returns Q Attempt.rejected f k = tt
after-Returns Q Attempt.panicked f k = tt

pub settle-Returns :
    {A : Type 0} (P : A → Type 0) (before : A) (a : Attempt A) (r : A)
    → P before
    → Returns P a
    → settle before a ≡ some r
    → P r
settle-Returns P before (Attempt.done x) r b h e = let same : x ≡ r = ground arith in subst P same h
settle-Returns P before Attempt.rejected r b h e =
    let same : before ≡ r = ground arith in subst P same b
settle-Returns P before Attempt.panicked r b h e = absurd (ground arith)
