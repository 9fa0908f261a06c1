-- ===== src/Base/Text.antt =====
-- JavaScript's string methods as the backend uses them. Case conversion is modelled on the ASCII
-- letters, `trim` on the ASCII white space, and numerals on the decimal digits.
use Prim.Native.Nat.{ℕ, zero, suc, ◌+◌, ◌-◌, ◌*◌, ◌/◌, ◌%◌}
use Prim.Native.Char.{Char, code}
use Prim.Native.String.{String, ◌++◌ as append}
use mathlib.Core.Bool.{Bool, ◌&&◌, ◌||◌}
use mathlib.Core.Option.{Option, none, some}
use mathlib.Core.List.{List, [], ◌∷◌}
use text.Mathlib.Text.{◌==◌ as str_eq, find?}
use zero_proof.Base.Tests.{leb, ◌==◌, if◌then◌else◌, is_some}

-- `c` translated by the table that takes the letters of the first text to those of the second
translate : String → String → Char → Char
translate String.[] to c = c
translate (String.◌∷◌ a from) String.[] c = c
translate (String.◌∷◌ a from) (String.◌∷◌ b to) c =
    if code c == code a then b else translate from to c

abbrev upper_letters : String
upper_letters = "ABCDEFGHIJKLMNOPQRSTUVWXYZ"

abbrev lower_letters : String
lower_letters = "abcdefghijklmnopqrstuvwxyz"

-- `s.toLowerCase()`
unfoldable pub to_lower_case : String → String
unfolding translate
to_lower_case String.[] = ""
to_lower_case (String.◌∷◌ c s) =
    String.◌∷◌ (translate upper_letters lower_letters c) (to_lower_case s)

-- `s.toUpperCase()`
unfoldable pub to_upper_case : String → String
unfolding translate
to_upper_case String.[] = ""
to_upper_case (String.◌∷◌ c s) =
    String.◌∷◌ (translate lower_letters upper_letters c) (to_upper_case s)

is_space : Char → Bool
is_space c = code c == 32 || (leb 9 (code c) && leb (code c) 13)

trim_start : String → String
trim_start String.[] = ""
trim_start (String.◌∷◌ c s) = if is_space c then trim_start s else String.◌∷◌ c s

trim_end : String → String
trim_end String.[] = ""
trim_end (String.◌∷◌ c s) =
    let rest = trim_end s in if is_space c && str_eq rest "" then "" else String.◌∷◌ c rest

-- `s.trim()`
unfoldable pub trim : String → String
unfolding is_space trim_start trim_end
trim s = trim_end (trim_start s)

-- `s.includes(t)`
unfoldable pub includes : String → String → Bool
includes s t = is_some (find? s t)

-- `s.endsWith(t)`
unfoldable pub ends_with : String → String → Bool
ends_with String.[] t = str_eq "" t
ends_with (String.◌∷◌ c s) t = str_eq (String.◌∷◌ c s) t || ends_with s t

-- `s.replace(/\.$/, '')`
unfoldable pub without_final_dot : String → String
without_final_dot String.[] = ""
without_final_dot (String.◌∷◌ c s) =
    let rest = without_final_dot s in if code c == 46 && str_eq s "" then "" else String.◌∷◌ c rest

push_head : Char → List String → List String
push_head c [] = String.◌∷◌ c "" ∷ []
push_head c (p ∷ ps) = String.◌∷◌ c p ∷ ps

-- `s.split(sep)` for a separator of one character
unfoldable pub split : ℕ → String → List String
unfolding push_head
split sep String.[] = "" ∷ []
split sep (String.◌∷◌ c s) =
    let rest = split sep s in if code c == sep then "" ∷ rest else push_head c rest

-- `parts.join(sep)`
unfoldable pub join : String → List String → String
join sep [] = ""
join sep (p ∷ []) = p
join sep (p ∷ q ∷ ps) = append p (append sep (join sep (q ∷ ps)))

-- `!s`: JavaScript's test for the empty string
abbrev pub is_empty : String → Bool
is_empty s = str_eq s ""

-- A decimal digit as a text; the table is total by its last entry.
digit : ℕ → String
digit zero = "0"
digit (suc zero) = "1"
digit (suc (suc zero)) = "2"
digit (suc (suc (suc zero))) = "3"
digit (suc (suc (suc (suc zero)))) = "4"
digit (suc (suc (suc (suc (suc zero))))) = "5"
digit (suc (suc (suc (suc (suc (suc zero)))))) = "6"
digit (suc (suc (suc (suc (suc (suc (suc zero))))))) = "7"
digit (suc (suc (suc (suc (suc (suc (suc (suc zero)))))))) = "8"
digit _ = "9"

-- The digits of `n` before `acc`; a number has fewer digits than `n + 1`, so that fuel is enough.
show_from : ℕ → ℕ → String → String
show_from zero n acc = acc
show_from (suc fuel) n acc =
    let acc' = append (digit (n % 10)) acc in
    let rest = show_from fuel (n / 10) acc' in if n / 10 == 0 then acc' else rest

-- `String(n)` and `${n}` for a natural number
unfoldable pub show : ℕ → String
unfolding digit show_from
show n = show_from (suc n) n ""

-- The value of a run of decimal digits after `acc`, `none` where another character stands
digits_from : ℕ → String → Option ℕ
digits_from acc String.[] = some acc
digits_from acc (String.◌∷◌ c s) =
    let rest = digits_from (acc * 10 + (code c - 48)) s in
    if leb 48 (code c) && leb (code c) 57 then rest else none

-- `Number(s)` where `s` spells a natural number in decimal digits, as it does with white space
-- round it and as 0 where it is blank. Every other text is `none`, as a text that is no number is.
unfoldable pub number : String → Option ℕ
unfolding trim digits_from
number s = digits_from 0 (trim s)

-- A template literal of texts
unfoldable pub concat : List String → String
concat [] = ""
concat (s ∷ ss) = append s (concat ss)
