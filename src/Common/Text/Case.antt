-- ===== src/Common/Text/Case.antt =====
-- Python's `str.upper`, `str.lower`, `in`, `endswith` and slices, on texts whose letters are ASCII.
use Prim.Native.Nat.{ℕ, zero, suc, ◌-◌}
use Prim.Native.Char.{Char, code}
use Prim.Native.String.{String}
use mathlib.Core.Bool.{Bool, false, ◌&&◌, ◌||◌}
use sene_x.Common.Tests.{leb, ◌==◌, if◌then◌else◌}
use sene_x.Common.Text.{text_eq, text_length, text_take}

-- `s[n]`, or the character given when `s` is shorter.
nth_char : ℕ → String → Char → Char
nth_char n String.[] d = d
nth_char zero (String.◌∷◌ c s) d = c
nth_char (suc n) (String.◌∷◌ c s) d = nth_char n s d

upper_char : Char → Char
unfolding nth_char
upper_char c =
    if leb b'a' (code c) && leb (code c) b'z'
    then nth_char (code c - b'a') "ABCDEFGHIJKLMNOPQRSTUVWXYZ" c
    else c

lower_char : Char → Char
unfolding nth_char
lower_char c =
    if leb b'A' (code c) && leb (code c) b'Z'
    then nth_char (code c - b'A') "abcdefghijklmnopqrstuvwxyz" c
    else c

-- `s.upper()`
unfoldable pub upper : String → String
unfolding upper_char
upper String.[] = String.[]
upper (String.◌∷◌ c s) = String.◌∷◌ (upper_char c) (upper s)

-- `s.lower()`
unfoldable pub lower : String → String
unfolding lower_char
lower String.[] = String.[]
lower (String.◌∷◌ c s) = String.◌∷◌ (lower_char c) (lower s)

-- `c in s`
unfoldable pub has_char : ℕ → String → Bool
has_char n String.[] = false
has_char n (String.◌∷◌ c s) = (code c == n) || has_char n s

-- `s[n:]`
unfoldable pub text_drop : ℕ → String → String
text_drop zero s = s
text_drop (suc n) String.[] = String.[]
text_drop (suc n) (String.◌∷◌ c s) = text_drop n s

-- `s.endswith(t)` for a `t` of `n` characters
unfoldable pub ends_with : ℕ → String → String → Bool
unfolding text_drop text_length
ends_with n t s = leb n (text_length s) && text_eq (text_drop (text_length s - n) s) t

-- `s + t`
unfoldable pub text_append : String → String → String
text_append String.[] t = t
text_append (String.◌∷◌ c s) t = String.◌∷◌ c (text_append s t)

-- `s[:-n]`
unfoldable pub drop_last : ℕ → String → String
unfolding text_take text_length
drop_last n s = text_take (text_length s - n) s
