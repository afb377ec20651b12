-- ===== src/Postgres/Users.antt =====
-- server/internal/adapters/postgres/user_repository.go and user_token_repository.go
use agent_events.Prelude.{String}
use agent_events.Apperr.{user_not_found, user_token_not_found}
use agent_events.Exec.{App, pure, fail, catch, lift, ◌>>=◌}
use agent_events.Domain.{User, UserToken}
use agent_events.Port.{UserRepository, UserTokenRepository}
use agent_events.World.{World, world_runtime}
use agent_events.Postgres.Schema.{Engine, timestamptz, user_from_row, user_token_from_row}
use agent_events.Postgres.Errors.{as_not_found}
use agent_events.Postgres.AccountQuery.{
  get_user_by_id, upsert_user_identity, insert_user_token, get_user_token_by_hash,
  delete_user_token_by_hash, delete_expired_user_tokens,
}

module _ (pg : Engine) where
  -- `UserRepository.UpsertByIdentity`
  unfoldable pub upsert_by_identity : (provider subject email : String) → App World User
  unfolding upsert_user_identity timestamptz user_from_row
  upsert_by_identity provider subject email = do
    id ← lift world_runtime.new_uuid
    now ← lift world_runtime.now
    row ← upsert_user_identity pg (record {
      id = id;
      provider = provider;
      subject = subject;
      email = email;
      created_at = timestamptz now;
    })
    pure (user_from_row row)

  -- `UserRepository.Get`
  unfoldable pub get_user : String → App World User
  unfolding get_user_by_id as_not_found user_from_row
  get_user id = do
    row ← catch (get_user_by_id pg id) λ e. fail (as_not_found e user_not_found)
    pure (user_from_row row)

  -- `UserTokenRepository.Create`
  unfoldable pub create_token : UserToken → App World (Unit {0})
  unfolding insert_user_token timestamptz
  create_token token = insert_user_token pg (record {
    token_hash = token.token_hash;
    user_id = token.user_id;
    expires_at = timestamptz token.expires_at;
    created_at = timestamptz token.created_at;
  })

  -- `UserTokenRepository.GetByHash`
  unfoldable pub get_by_hash : String → App World UserToken
  unfolding get_user_token_by_hash as_not_found user_token_from_row
  get_by_hash token_hash = do
    row ←
        catch (get_user_token_by_hash pg token_hash) λ e. fail (as_not_found e user_token_not_found)
    pure (user_token_from_row row)

  -- `UserTokenRepository.DeleteByHash`
  unfoldable pub delete_by_hash : String → App World (Unit {0})
  unfolding delete_user_token_by_hash
  delete_by_hash token_hash = delete_user_token_by_hash pg token_hash

  -- `UserTokenRepository.DeleteExpired`
  unfoldable pub delete_expired : App World (Unit {0})
  unfolding delete_expired_user_tokens timestamptz
  delete_expired = do now ← lift world_runtime.now; delete_expired_user_tokens pg (timestamptz now)

  abbrev pub user_repository : UserRepository World
  user_repository = record { upsert_by_identity = upsert_by_identity; get = get_user }

  abbrev pub user_token_repository : UserTokenRepository World
  user_token_repository = record {
    create = create_token;
    get_by_hash = get_by_hash;
    delete_by_hash = delete_by_hash;
    delete_expired = delete_expired;
  }
