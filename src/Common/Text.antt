-- ===== src/Common/Text.antt =====
-- Python's `str.strip`, over the code points of a text, and the equality and order of texts.
pub mod Strip
pub mod Case
use Prim.Native.Nat.{ℕ, zero, suc, ◌+◌}
use Prim.Native.Char.{code}
use Prim.Native.String.{String, compare}
use mathlib.Core.Path.{◌≡◌, refl, sym}
use mathlib.Core.Logic.{◌≢◌}
use mathlib.Core.Bool.{Bool, true, false, ◌&&◌, ◌||◌}
use mathlib.Core.List.{List, [], ◌∷◌, ◌++◌}
use native.Mathlib.Omega.{arith}
use text.Mathlib.Text.{is_lt}
use sene_x.Common.Lists.{All}
use sene_x.Common.Tests.{leb, ◌==◌, if◌then◌else◌}
pub use text.Mathlib.Text.{◌==◌ as text_eq}
pub use text.Mathlib.TextEquality.{eq_iff}
pub use text.Mathlib.TextPositions.{eq_refl}

-- `str.isspace` of one code point, which is what `str.strip` removes.
is_space : ℕ → Bool
is_space c =
    (leb 9 c && leb c 13)
    || (leb 28 c && leb c 32)
    || (c == 133)
    || (c == 160)
    || (c == 5760)
    || (leb 8192 c && leb c 8202)
    || (c == 8232)
    || (c == 8233)
    || (c == 8239)
    || (c == 8287)
    || (c == 12288)

strip_left : String → String
strip_left String.[] = String.[]
strip_left (String.◌∷◌ c s) =
    let rest = strip_left s in if is_space (code c) then rest else String.◌∷◌ c s

-- The white space goes where nothing but white space follows it.
keep_char : Bool → String → String → String
keep_char true String.[] whole = String.[]
keep_char true (String.◌∷◌ c s) whole = whole
keep_char false rest whole = whole

strip_right : String → String
strip_right String.[] = String.[]
strip_right (String.◌∷◌ c s) =
    let rest = strip_right s in keep_char (is_space (code c)) rest (String.◌∷◌ c rest)

-- `s.strip()`
unfoldable pub strip : String → String
unfolding strip_left strip_right keep_char is_space
strip s = strip_right (strip_left s)

-- `s < t`, by code points.
abbrev pub text_lt : String → String → Bool
text_lt s t = is_lt (compare s t)

-- `not s.strip()`
unfoldable pub is_blank : String → Bool
unfolding strip
is_blank s = text_eq (strip s) ""

-- `s.lower()` on the ASCII letters, as code points: what the comparisons with lower-case words see.
unfoldable pub lower_codes : String → List ℕ
lower_codes String.[] = []
lower_codes (String.◌∷◌ c s) =
    (if leb b'A' (code c) && leb (code c) b'Z' then code c + 32 else code c) ∷ lower_codes s

unfoldable pub same_codes : List ℕ → List ℕ → Bool
same_codes [] [] = true
same_codes [] (d ∷ ds) = false
same_codes (c ∷ cs) [] = false
same_codes (c ∷ cs) (d ∷ ds) = c == d && same_codes cs ds

-- `len(s)`
unfoldable pub text_length : String → ℕ
text_length String.[] = 0
text_length (String.◌∷◌ c s) = suc (text_length s)

-- `s[:n]`
unfoldable pub text_take : ℕ → String → String
text_take zero s = String.[]
text_take (suc n) String.[] = String.[]
text_take (suc n) (String.◌∷◌ c s) = String.◌∷◌ c (text_take n s)

-- `x in xs` for a list of texts.
unfoldable pub mem_text : String → List String → Bool
mem_text s [] = false
mem_text s (t ∷ ts) = text_eq t s || mem_text s ts

-- `len(xs) != len(set(xs))`
unfoldable pub has_duplicates : List String → Bool
unfolding mem_text
has_duplicates [] = false
has_duplicates (t ∷ ts) = mem_text t ts || has_duplicates ts

-- `sorted(xs)` for texts: equal texts are the same text.
insert_text : String → List String → List String
insert_text s [] = s ∷ []
insert_text s (t ∷ ts) = if text_lt t s then t ∷ insert_text s ts else s ∷ t ∷ ts

unfoldable pub sorted_texts : List String → List String
unfolding insert_text
sorted_texts [] = []
sorted_texts (s ∷ ts) = insert_text s (sorted_texts ts)

pub mem_text-append :
    (s : String) (xs ys : List String) → mem_text s (xs ++ ys) ≡ (mem_text s xs || mem_text s ys)
unfolding mem_text
mem_text-append s [] ys = refl
mem_text-append s (x ∷ xs) ys = ground (arith, mem_text-append s xs ys)

pub has_duplicates-snoc :
    (xs : List String) (s : String)
    → has_duplicates xs ≡ false
    → mem_text s xs ≡ false
    → has_duplicates (xs ++ s ∷ []) ≡ false
unfolding has_duplicates mem_text
has_duplicates-snoc [] s h k = refl
has_duplicates-snoc (x ∷ xs) s h k =
    ground (arith, mem_text-append x xs (s ∷ []), has_duplicates-snoc xs s, eq_iff s x, eq_iff x s)

mem_text-insert :
    (s t : String) (ts : List String)
    → mem_text s (insert_text t ts) ≡ (text_eq t s || mem_text s ts)
unfolding mem_text insert_text
mem_text-insert s t [] = refl
mem_text-insert s t (u ∷ ts) = ground (arith, mem_text-insert s t ts)

pub mem_text-sorted : (s : String) (ts : List String) → mem_text s (sorted_texts ts) ≡ mem_text s ts
unfolding mem_text sorted_texts
mem_text-sorted s [] = refl
mem_text-sorted s (t ∷ ts) =
    ground (arith, mem_text-insert s t (sorted_texts ts), mem_text-sorted s ts)

-- No text stands twice.
abbrev pub Unique : List String → Type 0
Unique [] = Unit
Unique (s ∷ ts) = All (λ t. s ≢ t) ts × Unique ts

pub All-of_mem_text : (s : String) (ts : List String) → mem_text s ts ≡ false → All (λ t. s ≢ t) ts
unfolding mem_text
All-of_mem_text s [] h = tt
All-of_mem_text s (t ∷ ts) h =
    (λ e. ground (arith, eq_iff t s, sym e), All-of_mem_text s ts (ground arith))

pub Unique-of_test : (ts : List String) → has_duplicates ts ≡ false → Unique ts
unfolding has_duplicates
Unique-of_test [] h = tt
Unique-of_test (t ∷ ts) h = (All-of_mem_text t ts (ground arith), Unique-of_test ts (ground arith))
