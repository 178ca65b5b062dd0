-- ===== src/Common/Text/Strip.antt =====
-- `str.strip` once is `str.strip` twice.
use Prim.Native.Char.{Char, code}
use Prim.Native.String.{String}
use mathlib.Core.Path.{◌≡◌, refl}
use mathlib.Core.Logic.{inl, inr}
use mathlib.Core.Bool.{Bool, true, false}
use sene_x.Common.Tests.{Bool-cases}
use sene_x.Common.Text.{is_space, strip_left, keep_char, strip_right, strip}

strip_right_twice : (s : String) → strip_right (strip_right s) ≡ strip_right s
unfolding strip_right keep_char
strip_right_twice String.[] = refl
strip_right_twice (String.◌∷◌ c s) =
    kept c (strip_right s) (is_space (code c)) refl (strip_right_twice s)
  where
    kept :
        (c : Char) (r : String) (b : Bool)
        → is_space (code c) ≡ b
        → strip_right r ≡ r
        → strip_right (keep_char b r (String.◌∷◌ c r)) ≡ keep_char b r (String.◌∷◌ c r)
    kept c String.[] true e ih = refl
    kept c (String.◌∷◌ d r) true e ih = rw (ih, e)
    kept c r false e ih = rw (ih, e)

-- A text with no leading space, if it is not empty.
abbrev IsTrimmed : String → Type 0
IsTrimmed String.[] = Unit
IsTrimmed (String.◌∷◌ c s) = is_space (code c) ≡ false

strip_left-IsTrimmed : (s : String) → IsTrimmed (strip_left s)
unfolding strip_left
strip_left-IsTrimmed String.[] = tt
strip_left-IsTrimmed (String.◌∷◌ c s) = elim (Bool-cases (is_space (code c))) [
  | inl space ↦ rw space (strip_left-IsTrimmed s)
  | inr other ↦ rw other other
]

strip_left-trimmed : (s : String) → IsTrimmed s → strip_left s ≡ s
unfolding strip_left
strip_left-trimmed String.[] h = refl
strip_left-trimmed (String.◌∷◌ c s) h = rw h

strip_right-IsTrimmed : (s : String) → IsTrimmed s → IsTrimmed (strip_right s)
unfolding strip_right keep_char
strip_right-IsTrimmed String.[] h = tt
strip_right-IsTrimmed (String.◌∷◌ c s) h = rw h h

pub strip_twice : (s : String) → strip (strip s) ≡ strip s
unfolding strip
strip_twice s =
    rw (strip_left-trimmed _ (strip_right-IsTrimmed _ (strip_left-IsTrimmed s)))
      (strip_right_twice (strip_left s))
