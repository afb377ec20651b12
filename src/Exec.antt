-- ===== src/Exec.antt =====
-- A Go function that may change the state of the program and returns a value or an error. The state
-- comes back beside an error too, since what was written before the error stays written.
pub mod Keeps
use agent_events.Prelude.{◌≡◌, refl, ap, ◌⊎◌, inl, inr, Bool, if◌then◌else◌}
use agent_events.Apperr.{Error}

pub data Result (A : Type 0) : Type 0 where
  ok : A → Result A
  err : Error → Result A

abbrev pub App : Type 0 → Type 0 → Type 0
App W A = W → Result A × W

module _ {W A : Type 0} where
  abbrev pub pure : A → App W A
  pure a w = (ok a, w)

  -- `return zero, e`
  abbrev pub fail : Error → App W A
  fail e w = (err e, w)

  abbrev pub recover : (Error → App W A) → Result A → App W A
  recover handler (ok a) w = (ok a, w)
  recover handler (err e) w = handler e w

  -- `if a, err := m(); err != nil { handler }`
  abbrev pub catch : App W A → (Error → App W A) → App W A
  catch m handler w = let (r, w') = m w in recover handler r w'

  -- A call that cannot fail.
  abbrev pub lift : (W → A × W) → App W A
  lift f w = let (a, w') = f w in (ok a, w')

-- A call that returns nothing.
abbrev pub modify : {W : Type 0} → (W → W) → App W (Unit {0})
modify f w = (ok tt, f w)

-- `if cond { body }`; a body that fails is an early return.
abbrev pub when : {W : Type 0} → Bool → App W (Unit {0}) → App W (Unit {0})
when cond body = if cond then body else pure tt

module _ {W A B : Type 0} where
  abbrev pub continue : (A → App W B) → Result A → App W B
  continue f (ok a) w = f a w
  continue f (err e) w = (err e, w)

  infixl 5 ◌>>=◌ ◌>>◌
  abbrev pub ◌>>=◌ : App W A → (A → App W B) → App W B
  ◌>>=◌ m f w = let (r, w') = m w in continue f r w'

  abbrev pub ◌>>◌ : App W A → App W B → App W B
  m >> k = m >>= λ _. k

-- A finished call returned a value or an error, in some state.
pub run-cases :
    {W A : Type 0} (r : Result A × W)
    → ((a : A) × (w : W) × (r ≡ (ok a, w))) ⊎ ((e : Error) × (w : W) × (r ≡ (err e, w)))
run-cases (ok a, w) = inl (a, w, refl)
run-cases (err e, w) = inr (e, w, refl)

-- What a chain that has returned a value went through.
pub >>=-eq-ok :
    {W A B : Type 0} (m : App W A) (f : A → App W B) (w w' : W) (b : B)
    → (m >>= f) w ≡ (ok b, w')
    → (a : A) × (w₁ : W) × (m w ≡ (ok a, w₁)) × (f a w₁ ≡ (ok b, w'))
>>=-eq-ok m f w w' b h = elim (run-cases (m w)) [
  | inl (a, w₁, e) ↦ (a, w₁, e, rw e at h)
  | inr (x, w₁, e) ↦ cc (rw e at h)
]

value_of : {A : Type 0} → A → Result A → A
value_of a (ok b) = b
value_of a (err e) = a

-- Two calls that end alike return the same.
pub same_value : {W A : Type 0} (a b : A) (w w' : W) → pure a w ≡ (ok b, w') → a ≡ b
unfolding value_of
same_value a b w w' h = ap (λ p. value_of a p.0) h
