-- ===== src/Text/Trim.antt =====
-- What `strings.TrimSpace` and `strings.CutPrefix` guarantee.
use Prim.Native.Char.{Char}
use Prim.Native.String.{String, [], ◌∷◌}
use agent_events.Prelude.{◌≡◌, refl, ap, ◌≢◌, false, true, inl, inr, some, arith, Bool-cases}
use text.Mathlib.TextEquality.{Char-path}
use text.Mathlib.TextLemmas.{append-ne-nil_of_right_ne-nil, nil-append, cons-append}
use agent_events.Text.{
  ◌^^◌, is_space, trim_left, cons_trimmed, trim_right, trim_space, cut_prefix, same_char,
}

-- The first character, if there is one, is no space.
abbrev pub StartsClean : String → Type 0
StartsClean [] = Unit
StartsClean (c ∷ s) = is_space c ≡ false

-- The last character, if there is one, is no space.
abbrev pub EndsClean : String → Type 0
EndsClean [] = Unit
EndsClean (c ∷ []) = is_space c ≡ false
EndsClean (c ∷ (d ∷ s)) = EndsClean (d ∷ s)

-- No space at either end.
abbrev pub IsTrimmed : String → Type 0
IsTrimmed s = StartsClean s × EndsClean s

trim_left-StartsClean : (s : String) → StartsClean (trim_left s)
unfolding trim_left
trim_left-StartsClean [] = tt
trim_left-StartsClean (c ∷ s) = elim (Bool-cases (is_space c)) [
  | inl h ↦ rw h (trim_left-StartsClean s)
  | inr h ↦ rw h h
]

cons_trimmed-EndsClean : (c : Char) (t : String) → EndsClean t → EndsClean (cons_trimmed c t)
cons_trimmed-EndsClean c [] h = elim (Bool-cases (is_space c)) [
  | inl space ↦ rw space tt
  | inr clean ↦ rw clean clean
]
cons_trimmed-EndsClean c (d ∷ s) h = h

trim_right-EndsClean : (s : String) → EndsClean (trim_right s)
unfolding trim_right
trim_right-EndsClean [] = tt
trim_right-EndsClean (c ∷ s) = cons_trimmed-EndsClean c (trim_right s) (trim_right-EndsClean s)

cons_trimmed-StartsClean :
    (c : Char) (t : String) → is_space c ≡ false → StartsClean (cons_trimmed c t)
cons_trimmed-StartsClean c [] h = rw h h
cons_trimmed-StartsClean c (d ∷ s) h = h

trim_right-StartsClean : (s : String) → StartsClean s → StartsClean (trim_right s)
unfolding trim_right
trim_right-StartsClean [] h = tt
trim_right-StartsClean (c ∷ s) h = cons_trimmed-StartsClean c (trim_right s) h

-- What `strings.TrimSpace` returns has no space at either end.
pub trim_space-IsTrimmed : (s : String) → IsTrimmed (trim_space s)
unfolding trim_space
trim_space-IsTrimmed s = (
  trim_right-StartsClean (trim_left s) (trim_left-StartsClean s),
  trim_right-EndsClean (trim_left s),
)

trim_left_of_StartsClean : (s : String) → StartsClean s → trim_left s ≡ s
unfolding trim_left
trim_left_of_StartsClean [] h = refl
trim_left_of_StartsClean (c ∷ s) h = rw h

trim_right_of_EndsClean : (s : String) → EndsClean s → trim_right s ≡ s
unfolding trim_right
trim_right_of_EndsClean [] h = refl
trim_right_of_EndsClean (c ∷ []) h = rw h
trim_right_of_EndsClean (c ∷ (d ∷ s)) h = ap (cons_trimmed c) (trim_right_of_EndsClean (d ∷ s) h)

-- A text with no space at either end is left as it is.
pub trim_space_of_IsTrimmed : (s : String) → IsTrimmed s → trim_space s ≡ s
unfolding trim_space
trim_space_of_IsTrimmed s h = rw (trim_left_of_StartsClean s h.0) (trim_right_of_EndsClean s h.1)

same_char_refl : (c : Char) → same_char c c ≡ true
same_char_refl c = ground arith

pub cut_prefix-append : (p s : String) → cut_prefix (p ^^ s) p ≡ some s
unfolding cut_prefix
cut_prefix-append [] s = rw nil-append
cut_prefix-append (c ∷ p) s = rw (cons-append, same_char_refl c) (cut_prefix-append p s)

eq_of_same_char : (c d : Char) → same_char c d ≡ true → c ≡ d
eq_of_same_char c d h = Char-path c d (ground arith)

pub cut_prefix-eq-some : (s p t : String) → cut_prefix s p ≡ some t → s ≡ p ^^ t
unfolding cut_prefix
cut_prefix-eq-some s [] t h = rw nil-append (cc)
cut_prefix-eq-some [] (d ∷ p) t h = cc
cut_prefix-eq-some (c ∷ s) (d ∷ p) t h = elim (Bool-cases (same_char c d)) [
  | inl same ↦
      rw (cons-append, eq_of_same_char c d same)
        (ap (λ r. d ∷ r) (cut_prefix-eq-some s p t (rw same at h)))
  | inr other ↦ cc
]

-- A text in front of a trimmed one, itself with no space at its start.
pub StartsClean-append : (p t : String) → p ≢ "" → StartsClean p → StartsClean (p ^^ t)
StartsClean-append [] t ne h = absurd (ne refl)
StartsClean-append (c ∷ p) t ne h = rw cons-append h

EndsClean-cons : (c : Char) (s : String) → s ≢ "" → EndsClean s → EndsClean (c ∷ s)
EndsClean-cons c [] ne h = absurd (ne refl)
EndsClean-cons c (d ∷ s) ne h = h

pub EndsClean-append : (p t : String) → t ≢ "" → EndsClean t → EndsClean (p ^^ t)
EndsClean-append [] t ne h = rw nil-append h
EndsClean-append (c ∷ p) t ne h =
    rw cons-append
      (EndsClean-cons c (p ^^ t) (append-ne-nil_of_right_ne-nil p ne) (EndsClean-append p t ne h))
