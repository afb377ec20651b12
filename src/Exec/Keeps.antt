-- ===== src/Exec/Keeps.antt =====
-- Programs that keep a property of the state, whether they return a value or an error.
use agent_events.Prelude.{Bool, true, false, inl, inr, if◌then◌else◌}
use agent_events.Apperr.{Error}
use agent_events.Exec.{App, pure, fail, catch, when, ◌>>=◌, run-cases}

module _ {W : Type 0} (P : W → Type 0) where
  -- The property holds behind the program if it held before.
  pub record Keeps {A : Type 0} (m : App W A) : Type 0 where
    pub kept : (w : W) → P w → P (m w).1

module _ {W : Type 0} {P : W → Type 0} where
  -- The end of a program, which is one change of the state.
  pub end-Keeps : {A : Type 0} {m : App W A} → ((w : W) → P w → P (m w).1) → Keeps P m
  end-Keeps keeps = record { kept = keeps }

  pub pure-Keeps : {A : Type 0} (a : A) → Keeps P (pure a)
  pure-Keeps a = record { kept = λ w p. p }

  pub fail-Keeps : {A : Type 0} (e : Error) → Keeps P (fail {A = A} e)
  fail-Keeps e = record { kept = λ w p. p }

  pub >>=-Keeps :
      {A B : Type 0} {m : App W A} {f : A → App W B}
      → Keeps P m
      → ((a : A) → Keeps P (f a))
      → Keeps P (m >>= f)
  >>=-Keeps {m = m} m_keeps f_keeps = record {
    kept = λ w p.
        let q = m_keeps.kept w p in
        elim (run-cases (m w)) [
          | inl (a, w', h) ↦ rw h ((f_keeps a).kept w' (rw h at q))
          | inr (e, w', h) ↦ rw h (rw h at q)
        ];
  }

  pub catch-Keeps :
      {A : Type 0} {m : App W A} {handler : Error → App W A}
      → Keeps P m
      → ((e : Error) → Keeps P (handler e))
      → Keeps P (catch m handler)
  catch-Keeps {m = m} m_keeps handler_keeps = record {
    kept = λ w p.
        let q = m_keeps.kept w p in
        elim (run-cases (m w)) [
          | inl (a, w', h) ↦ rw h (rw h at q)
          | inr (e, w', h) ↦ rw h ((handler_keeps e).kept w' (rw h at q))
        ];
  }

  pub if-Keeps :
      {A : Type 0} (b : Bool) {m k : App W A} → Keeps P m → Keeps P k → Keeps P (if b then m else k)
  if-Keeps true m_keeps k_keeps = m_keeps
  if-Keeps false m_keeps k_keeps = k_keeps

  pub when-Keeps : (b : Bool) {m : App W (Unit {0})} → Keeps P m → Keeps P (when b m)
  when-Keeps b m_keeps = if-Keeps b m_keeps (pure-Keeps tt)
