-- ===== src/Prelude/Text.antt =====
-- Texts: `str.strip`, `str.lower`, decimal numbers, and `"\n\n".join` over two parts.
use Prim.Native.String.{String, [], ◌∷◌, ◌++◌, slice}
use Prim.Native.Nat.{ℕ, zero, suc, ◌/◌, ◌%◌}
use Prim.Native.Char.{Char, code}
use mathlib.Core.Bool.{Bool, ◌&&◌, ◌||◌}
use mathlib.Core.Path.{◌≡◌, refl}
use text.Mathlib.Text.{◌==◌}
use backup_sentinel.Prelude.Tests.{if◌then◌else◌, ltb, leb}

abbrev is_blank : Char → Bool
is_blank c = let s : String = c ∷ [] in s == " " || s == "\n" || s == "\t" || s == "\r"

abbrev strip_left : String → String
strip_left [] = []
strip_left (c ∷ s) = let rest = strip_left s in if is_blank c then rest else c ∷ s

abbrev strip_right : String → String
strip_right [] = []
strip_right (c ∷ s) = let rest = strip_right s in if rest == "" && is_blank c then "" else c ∷ rest

abbrev pub strip : String → String
strip s = strip_left (strip_right s)

-- the parts that are not empty, with an empty line between them
abbrev pub join_parts : String → String → String
join_parts front back =
    if front == "" then back else if back == "" then front else front ++ "\n\n" ++ back

-- the character of the second text at the place that `c` has in the first, or else `c`
abbrev swap_char : String → String → Char → Char
swap_char [] _ c = c
swap_char (u ∷ us) [] c = c
swap_char (u ∷ us) (l ∷ ls) c =
    let rest = swap_char us ls c in
    if leb (code u) (code c) && leb (code c) (code u) then l else rest

-- `str.lower` of ASCII
abbrev pub lower : String → String
lower [] = []
lower (c ∷ s) = swap_char "ABCDEFGHIJKLMNOPQRSTUVWXYZ" "abcdefghijklmnopqrstuvwxyz" c ∷ lower s

abbrev digit_text : ℕ → String
digit_text n = slice "0123456789" n (suc n)

-- the decimal digits of `n` before `rest`, with fuel for as many
abbrev digits_before : ℕ → ℕ → String → String
digits_before zero n rest = rest
digits_before (suc fuel) n rest =
    let more = digits_before fuel (n / 10) (digit_text (n % 10) ++ rest) in
    if ltb n 10 then digit_text n ++ rest else more

-- `str(n)`
abbrev pub show : ℕ → String
show n = digits_before (suc n) n ""

shows : show 1050 ≡ "1050"
shows = refl

lowers : lower "Pve-A1" ≡ "pve-a1"
lowers = refl

strip-blanks : strip "  a b \n" ≡ "a b"
strip-blanks = refl
