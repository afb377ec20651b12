-- ===== src/Text/Split.antt =====
-- What `strings.Split` gives on a text with a separator inside.
use Prim.Native.Char.{Char, code}
use Prim.Native.String.{String, [], ◌∷◌}
use mathlib.Core.List.{List}
use text.Mathlib.TextLemmas.{nil-append, cons-append}
use agent_events.Prelude.{
  ℕ, ◌≡◌, refl, sym, ap, ◌∙◌, arith, ◌++◌, inl, inr, eqb, Bool-cases, false, true,
}
use agent_events.Text.{◌^^◌, grow, split}

-- Splitting gives at least one part.
split-cons :
    (s : String) (sep : ℕ) → (p : String) × (ps : List String) × (split s sep ≡ List.◌∷◌ p ps)
unfolding split
split-cons [] sep = ([], List.[], refl)
split-cons (c ∷ s) sep = elim (Bool-cases (eqb (code c) sep)) [
  | inl cut ↦ ([], split s sep, rw cut)
  | inr kept ↦ let (p, ps, h) = split-cons s sep in (c ∷ p, ps, rw (kept, h))
]

grow-append :
    (c : Char) (p : String) (ps qs : List String)
    → grow c (List.◌∷◌ p ps ++ qs) ≡ grow c (List.◌∷◌ p ps) ++ qs
grow-append c p ps qs = refl

-- A separator between two texts splits them apart.
pub split-append :
    (a b : String) (d : Char) (sep : ℕ)
    → eqb (code d) sep ≡ true
    → split (a ^^ (d ∷ b)) sep ≡ split a sep ++ split b sep
unfolding split
split-append [] b d sep h = rw (nil-append, h)
split-append (c ∷ a) b d sep h = elim (Bool-cases (eqb (code c) sep)) [
  | inl cut ↦ rw (cons-append, cut, split-append a b d sep h)
  | inr kept ↦
      let (p, ps, parts) = split-cons a sep in
      rw (cons-append, kept, split-append a b d sep h, parts)
]

-- The separator does not stand in the text.
abbrev pub Lacks : ℕ → String → Type 0
Lacks sep [] = Unit
Lacks sep (c ∷ s) = (eqb (code c) sep ≡ false) × Lacks sep s

pub split_of_Lacks : (s : String) (sep : ℕ) → Lacks sep s → split s sep ≡ List.◌∷◌ s List.[]
unfolding split
split_of_Lacks [] sep h = refl
split_of_Lacks (c ∷ s) sep h = rw (h.0, split_of_Lacks s sep h.1)

-- A comma in front of a text.
pub comma-append : (s : String) → "," ^^ s ≡ String.◌∷◌ "," s
comma-append s = cons-append "," "" s ∙ ap (λ t. String.◌∷◌ "," t) (nil-append s)

-- The parts of a text with a character in front, by those of the text.
grow_parts :
    (c : Char) (q p : String) (qs ps : List String)
    → grow c (List.◌∷◌ q qs) ≡ List.◌∷◌ p ps
    → (p ≡ c ∷ q) × (qs ≡ ps)
grow_parts c q p qs ps h = (ground (arith, h), ground (arith, h))

-- A single part is the whole text.
pub split-eq_one :
    (s : String) (sep : ℕ) (p : String) → split s sep ≡ List.◌∷◌ p List.[] → (s ≡ p) × Lacks sep s
unfolding split
split-eq_one [] sep p h = (ground (arith, h), tt)
split-eq_one (c ∷ s) sep p h = elim (Bool-cases (eqb (code c) sep)) [
  | inl cut ↦ let (q, qs, parts) = split-cons s sep in cc (rw (cut, parts) at h)
  | inr kept ↦
      let (q, qs, parts) = split-cons s sep in
      let (whole, none_left) = grow_parts c q p qs List.[] (rw (kept, parts) at h) in
      let (same, lacks) = split-eq_one s sep q (rw none_left at parts) in
      (ap (λ t. c ∷ t) same ∙ sym whole, (kept, lacks))
]

-- Two parts are the texts in front of the separator and behind it.
pub split-eq_two :
    (s : String) (sep : ℕ) (p q : String)
    → split s sep ≡ List.◌∷◌ p (List.◌∷◌ q List.[])
    → (d : Char) × (eqb (code d) sep ≡ true) × (s ≡ p ^^ (d ∷ q)) × Lacks sep p
unfolding split
split-eq_two [] sep p q h = cc
split-eq_two (c ∷ s) sep p q h = elim (Bool-cases (eqb (code c) sep)) [
  | inl cut ↦
      let first : p ≡ [] = ground (arith, cut, h) in
      let second : split s sep ≡ List.◌∷◌ q List.[] = ground (arith, cut, h) in
      rw first
        (c, cut, ap (λ t. c ∷ t) (split-eq_one s sep q second).0 ∙ sym (nil-append (c ∷ q)), tt)
  | inr kept ↦
      let (r, rs, parts) = split-cons s sep in
      let (whole, left) = grow_parts c r p rs (List.◌∷◌ q List.[]) (rw (kept, parts) at h) in
      let (d, is_sep, same, lacks) = split-eq_two s sep r q (rw left at parts) in
      rw whole (d, is_sep, ap (λ t. c ∷ t) same ∙ sym (cons-append c r (d ∷ q)), (kept, lacks))
]
