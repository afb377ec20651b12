-- ===== src/Text.antt =====
-- The functions of the packages `strings` and `fmt` that the server uses, over texts of Unicode
-- code points. A text that is not valid UTF-8 is not represented.
pub mod Trim
pub mod Split
use Prim.Native.Char.{Char, code}
use Prim.Native.String
use Prim.Native.String.{String, [], ◌∷◌}
use mathlib.Core.Option.{Option, none, some}
use mathlib.Core.List
use mathlib.Core.List.{List}
use agent_events.Prelude.{ℕ, ◌+◌, ◌-◌, ◌*◌, ◌^◌, Bool, false, ◌&&◌, ◌||◌, eqb, leb, if◌then◌else◌}
use agent_events.Prelude.Int.{ℤ, pos, sub_ℕ}

infixr 65 ◌^^◌
-- The concatenation of two texts, Go's `+`.
abbrev pub ◌^^◌ : String → String → String
s ^^ t = String.◌++◌ s t

-- `unicode.IsSpace`
unfoldable pub is_space : Char → Bool
is_space c =
    let n = code c in
    leb 9 n && leb n 13
    || eqb n 0x20
    || eqb n 0x85
    || eqb n 0xA0
    || eqb n 0x1680
    || leb 0x2000 n && leb n 0x200A
    || eqb n 0x2028
    || eqb n 0x2029
    || eqb n 0x202F
    || eqb n 0x205F
    || eqb n 0x3000

unfoldable pub trim_left : String → String
unfolding is_space
trim_left [] = []
trim_left (c ∷ s) = if is_space c then trim_left s else c ∷ s

-- Puts a character in front of a text whose trailing space is already gone.
abbrev pub cons_trimmed : Char → String → String
cons_trimmed c [] = if is_space c then [] else c ∷ []
cons_trimmed c (d ∷ s) = c ∷ d ∷ s

unfoldable pub trim_right : String → String
unfolding is_space
trim_right [] = []
trim_right (c ∷ s) = cons_trimmed c (trim_right s)

-- `strings.TrimSpace`
unfoldable pub trim_space : String → String
unfolding trim_left trim_right
trim_space s = trim_right (trim_left s)

abbrev same_char : Char → Char → Bool
same_char c d = eqb (code c) (code d)

-- `strings.CutPrefix(s, prefix)`, with `none` for `found == false`
unfoldable pub cut_prefix : String → String → Option String
cut_prefix s [] = some s
cut_prefix [] (d ∷ p) = none
cut_prefix (c ∷ s) (d ∷ p) = if same_char c d then cut_prefix s p else none

abbrev grow : Char → List String → List String
grow c List.[] = List.◌∷◌ (c ∷ []) List.[]
grow c (List.◌∷◌ part parts) = List.◌∷◌ (c ∷ part) parts

-- `strings.Split(s, sep)` for a separator of one character: never an empty list
unfoldable pub split : String → ℕ → List String
split [] sep = List.◌∷◌ [] List.[]
split (c ∷ s) sep =
    let parts = split s sep in if eqb (code c) sep then List.◌∷◌ [] parts else grow c parts

-- `strings.Contains(s, sub)` for a text `sub` of one character
unfoldable pub contains : String → ℕ → Bool
contains [] n = false
contains (c ∷ s) n = eqb (code c) n || contains s n

-- The value of decimal digits behind those already read; `none` at any other character.
unfoldable pub digits_from : ℕ → String → Option ℕ
digits_from n [] = some n
digits_from n (c ∷ s) =
    let value = digits_from (n * 10 + (code c - b'0')) s in
    if leb b'0' (code c) && leb (code c) b'9' then value else none

unfoldable pub digits : String → Option ℕ
unfolding digits_from
digits [] = none
digits (c ∷ s) = digits_from 0 (c ∷ s)

-- A number that is read, if it fits an `int`.
abbrev in_range : (bound : ℕ) → (ℕ → ℤ) → Option ℕ → Option ℤ
in_range bound sign none = none
in_range bound sign (some n) = if leb n bound then some (sign n) else none

-- `strconv.Atoi`
unfoldable pub atoi : String → Option ℤ
unfolding digits
atoi [] = none
atoi (c ∷ s) =
    if eqb (code c) b'-'
    then in_range (2 ^ 63) (λ n. sub_ℕ 0 n) (digits s)
    else in_range (2 ^ 63 - 1) pos (if eqb (code c) b'+' then digits s else digits (c ∷ s))
