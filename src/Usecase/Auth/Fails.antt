-- ===== src/Usecase/Auth/Fails.antt =====
-- server/internal/core/usecase/auth.go: the failures of the ports that the methods on users and
-- tokens pass on. Each type holds of an error just where a call that the method makes has failed
-- with it, and says what the calls before that one returned.
use agent_events.Prelude.{ℕ, List, String, ◌≡◌, true, false}
use agent_events.Prelude.Int.{ltb_ℤ}
use agent_events.Text.{◌^^◌}
use agent_events.Encoding.{base64_encode}
use agent_events.Time.{add}
use agent_events.Apperr.{Error, user_token_not_found, user_not_found, is}
use agent_events.Exec.{ok, err}
use agent_events.Domain.{User, UserToken, Identity, valid_provider}
use agent_events.Usecase.Auth.{
  AuthService, ExchangeInput, hash_token, action_auth_exchange, token_prefix_user,
}

pub data UserFails {W : Type 0} (s : AuthService W) (raw : String) (w : W) : Error → Type 0 where
  unread :
      (e : Error) (w' : W)
      → s.tokens.get_by_hash (hash_token s raw) w ≡ (err e, w')
      → is e user_token_not_found ≡ false
      → UserFails s raw w e
  unread_user :
      (e : Error) (t : UserToken) (w₁ w₂ : W)
      → s.tokens.get_by_hash (hash_token s raw) w ≡ (ok t, w₁)
      → ltb_ℤ (s.runtime.now w₁).0 t.expires_at ≡ true
      → s.users.get t.user_id (s.runtime.now w₁).1 ≡ (err e, w₂)
      → is e user_not_found ≡ false
      → UserFails s raw w e

-- The identity of an exchange in the state `w`, that was verified in the state `w'`.
abbrev pub Verified : {W : Type 0} → AuthService W → ExchangeInput → Identity → W → W → Type 0
Verified {W} s input identity w w' =
    (valid_provider input.provider ≡ true)
    × ((w₀ : W) × (s.limiter.allow ("ip:" ^^ input.client_ip) action_auth_exchange w
          ≡ (ok true, w₀))
        × (s.verifier.verify input.provider input.id_token w₀ ≡ (ok identity, w')))

-- The token that `issue` stores.
abbrev pub issued_token : {W : Type 0} → AuthService W → User → List ℕ → W → UserToken
issued_token s user bytes w = record {
  token_hash = hash_token s (token_prefix_user ^^ base64_encode bytes);
  user_id = user.id;
  expires_at = add (s.runtime.now w).0 s.config.user_token_ttl;
  created_at = (s.runtime.now w).0;
}

pub data ExchangeFails {W : Type 0} (s : AuthService W) (input : ExchangeInput) (w : W)
    : Error → Type 0 where
  no_upsert :
      (e : Error) (i : Identity) (w₁ w₂ : W)
      → Verified s input i w w₁
      → s.users.upsert_by_identity i.provider i.subject i.email w₁ ≡ (err e, w₂)
      → ExchangeFails s input w e
  no_random :
      (e : Error) (i : Identity) (user : User) (w₁ w₂ w₃ : W)
      → Verified s input i w w₁
      → s.users.upsert_by_identity i.provider i.subject i.email w₁ ≡ (ok user, w₂)
      → s.runtime.random_bytes w₂ ≡ (err e, w₃)
      → ExchangeFails s input w e
  unstored :
      (e : Error) (i : Identity) (user : User) (bytes : List ℕ) (w₁ w₂ w₃ w₄ : W)
      → Verified s input i w w₁
      → s.users.upsert_by_identity i.provider i.subject i.email w₁ ≡ (ok user, w₂)
      → s.runtime.random_bytes w₂ ≡ (ok bytes, w₃)
      → s.tokens.create (issued_token s user bytes w₃) (s.runtime.now w₃).1 ≡ (err e, w₄)
      → ExchangeFails s input w e

pub data LogoutFails {W : Type 0} (s : AuthService W) (hash : String) (w : W) : Error → Type 0 where
  undeleted :
      (e : Error) (w' : W) → s.tokens.delete_by_hash hash w ≡ (err e, w') → LogoutFails s hash w e
