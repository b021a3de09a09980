-- ===== src/Base/Strings.antt =====
-- Text: Rust's `String` and `&str` as the list of their code points, with the standard library's
-- `==`, `is_empty`, `trim` and `contains`.
use Prim.Native.Nat.{ℕ}
use mathlib.Core.Path.{◌≡◌, refl}
use mathlib.Core.Logic.{◌↔◌, inl, inr}
use mathlib.Core.Bool.{Bool, true, false, ◌&&◌, ◌||◌}
use mathlib.Core.List.{List, [], ◌∷◌}
use Prim.Native.Char.{code}
use Prim.Native.String.{String}
use native.Mathlib.Omega.{arith}
use account_management_servi.Base.Tests.{◌==◌, leb, if◌then◌else◌, Bool-cases}

abbrev pub Text : Type 0
Text = List ℕ

-- A literal of the source.
abbrev pub text : String → Text
text String.[] = []
text (String.◌∷◌ c s) = code c ∷ text s

unfoldable pub text_eq : Text → Text → Bool
text_eq [] [] = true
text_eq [] (y ∷ ys) = false
text_eq (x ∷ xs) [] = false
text_eq (x ∷ xs) (y ∷ ys) = (x == y) && text_eq xs ys

pub text_eq_iff : (xs ys : Text) → (text_eq xs ys ≡ true) ↔ (xs ≡ ys)
unfolding text_eq
text_eq_iff [] [] = (λ _. refl, λ _. refl)
text_eq_iff [] (y ∷ ys) = (λ h. cc, λ h. cc)
text_eq_iff (x ∷ xs) [] = (λ h. cc, λ h. cc)
text_eq_iff (x ∷ xs) (y ∷ ys) = ground (arith, text_eq_iff xs ys)

pub text_eq_refl : (xs : Text) → text_eq xs xs ≡ true
text_eq_refl xs = (text_eq_iff xs xs).1 refl

abbrev pub is_empty : Text → Bool
is_empty [] = true
is_empty (x ∷ xs) = false

unfoldable pub contains : Text → ℕ → Bool
contains [] c = false
contains (x ∷ xs) c = (x == c) || contains xs c

-- The code points with the Unicode property White_Space.
unfoldable pub is_whitespace : ℕ → Bool
is_whitespace c =
    leb 9 c && leb c 13
    || c == 0x20
    || c == 0x85
    || c == 0xA0
    || c == 0x1680
    || leb 0x2000 c && leb c 0x200A
    || c == 0x2028
    || c == 0x2029
    || c == 0x202F
    || c == 0x205F
    || c == 0x3000

unfoldable pub trim_start : Text → Text
trim_start [] = []
trim_start (x ∷ xs) = if is_whitespace x then trim_start xs else x ∷ xs

-- One character more in front of a text that is already trimmed at its end.
abbrev pub keep_end : ℕ → Text → Text
keep_end x [] = if is_whitespace x then [] else x ∷ []
keep_end x (y ∷ ys) = x ∷ y ∷ ys

unfoldable pub trim_end : Text → Text
trim_end [] = []
trim_end (x ∷ xs) = keep_end x (trim_end xs)

unfoldable pub trim : Text → Text
unfolding trim_start trim_end is_whitespace
trim s = trim_end (trim_start s)

trim_end-keep_end :
    (x : ℕ) (ys : Text) → trim_end ys ≡ ys → trim_end (keep_end x ys) ≡ keep_end x ys
unfolding trim_end
trim_end-keep_end x [] h = ground arith
trim_end-keep_end x (y ∷ ys) h = ground arith

trim_end-trim_end : (s : Text) → trim_end (trim_end s) ≡ trim_end s
unfolding trim_end
trim_end-trim_end [] = refl
trim_end-trim_end (x ∷ xs) = trim_end-keep_end x (trim_end xs) (trim_end-trim_end xs)

-- A text whose first character is kept by `trim_start` keeps it under `trim_end`.
trim_start-keep_end :
    (x : ℕ) (ys : Text) → is_whitespace x ≡ false → trim_start (keep_end x ys) ≡ keep_end x ys
unfolding trim_start
trim_start-keep_end x [] h = ground arith
trim_start-keep_end x (y ∷ ys) h = ground arith

trim_start-trim_end-trim_start :
    (s : Text) → trim_start (trim_end (trim_start s)) ≡ trim_end (trim_start s)
unfolding trim_start trim_end
trim_start-trim_end-trim_start [] = refl
trim_start-trim_end-trim_start (x ∷ xs) = elim (Bool-cases (is_whitespace x)) [
  | inl w ↦ rw w (trim_start-trim_end-trim_start xs)
  | inr w ↦ rw w (trim_start-keep_end x (trim_end xs) w)
]

pub trim-trim : (s : Text) → trim (trim s) ≡ trim s
unfolding trim
trim-trim s = rw (trim_start-trim_end-trim_start s) (trim_end-trim_end (trim_start s))
