-- ===== src/Http/Keeps.antt =====
-- What holds of the state across the steps that the handlers share.
use agent_events.Prelude.{String, inl, inr, List, Bool-cases, leb}
use agent_events.Exec.{App, Result, ok, err, run-cases, pure, ◌>>=◌, ◌>>◌}
use agent_events.Port.{Logger, Level, Field}
use agent_events.Http.Response.{Response, status_code}
use agent_events.Http.Api.{
  Codec, Verdict, passed, broken, unchecked, Payload, respond, reported, validated,
}
use agent_events.Http.Dto.{TaggedField}

module _ {W : Type 0} (P : W → Type 0) where
  reported-keeps :
      {B : Type 0} (verdict : Verdict) (next : App W B) (w : W)
      → P w
      → P (next w).1
      → P ((reported verdict >> next) w).1
  unfolding reported
  reported-keeps passed next w p q = q
  reported-keeps (broken errors) next w p q = p
  reported-keeps (unchecked text) next w p q = p

  -- A step of a handler that runs before the service is called.
  pub valid-keeps :
      {B : Type 0} (codec : Codec) (fields : List TaggedField) (next : App W B) (w : W)
      → P w
      → P (next w).1
      → P ((validated codec fields >> next) w).1
  unfolding validated
  valid-keeps codec fields next w p q = reported-keeps (codec.validate_struct fields) next w p q

  -- The state that a handler leaves is the one that the service left.
  pub answer-keeps :
      {A B : Type 0} (m : App W A) (f : A → B) (w : W) → P (m w).1 → P ((m >>= λ a. pure (f a)) w).1
  answer-keeps m f w p = elim (run-cases (m w)) [
    | inl (a, w', h) ↦ rw h (rw h at p)
    | inr (e, w', h) ↦ rw h (rw h at p)
  ]

  -- The line of the log for an error is written last.
  pub respond-keeps :
      (log : Logger W)
      → ((l : Level) (msg : String) (fs : List Field) (w : W) → P w → P (log.log l msg fs w))
      → (answer : Result (Response Payload) × W) → P answer.1
      → P (respond log answer).1
  unfolding respond
  respond-keeps log keeps (ok response, w) p = p
  respond-keeps log keeps (err e, w) p = elim (Bool-cases (leb 500 (status_code e))) [
    | inl internal ↦ rw internal (keeps _ _ _ w p)
    | inr other ↦ rw other (keeps _ _ _ w p)
  ]
