-- ===== src/Http/AccountHandler.antt =====
-- server/internal/transport/http/handler/auth.go and agent.go
use agent_events.Prelude.{not}
use agent_events.Apperr.{not_found}
use agent_events.Exec.{App, pure, fail, when, ◌>>=◌, ◌>>◌}
use agent_events.Usecase.Auth.Users.{exchange, revoke_user_token}
use agent_events.Usecase.Auth.Agents.{create_agent, list_agents, revoke_agent}
use agent_events.Http.Response.{Response}
use agent_events.Http.ClientIp.{client_ip}
use agent_events.Http.Dto.{
  create_agent_fields, exchange_fields, exchange_input, new_user_response, new_agent_response,
  new_agent_responses,
}
use agent_events.Http.Api.{
  Context, Request, Api, Payload, agents_payload, new_agent_payload, exchange_payload,
  whoami_payload, no_content, decoded, validated, agent_from, user_from,
}

module _ {W : Type 0} (api : Api W) where
  open api use {auth, codec, net, trusted}

  -- `AuthHandler.Exchange`
  unfoldable pub sign_in : Request → App W (Response Payload)
  unfolding decoded validated client_ip
  sign_in r = do
    req ← decoded (codec.decode_exchange r.body)
    validated codec (exchange_fields req)
    result ←
        exchange auth (exchange_input req (client_ip net r.remote_addr r.forwarded_for trusted))
    pure (record {
      status = 200;
      body = exchange_payload (record {
        token = result.token;
        expires_at = result.expires_at;
        user = new_user_response result.user;
      });
    })

  -- `AuthHandler.Logout`
  unfoldable pub sign_out : Context → App W (Response Payload)
  unfolding user_from
  sign_out ctx = do
    identity ← user_from ctx
    revoke_user_token auth identity.token_hash
    pure (record { status = 204; body = no_content })

  -- `AuthHandler.Whoami`
  unfoldable pub whoami : Context → App W (Response Payload)
  unfolding agent_from
  whoami ctx = do
    identity ← agent_from ctx
    pure (record {
      status = 200;
      body = whoami_payload (record {
        agent = new_agent_response identity.agent;
        user = new_user_response identity.user;
      });
    })

  -- `AgentHandler.create`
  unfoldable pub add_agent : Context → Request → App W (Response Payload)
  unfolding decoded validated user_from
  add_agent ctx r = do
    identity ← user_from ctx
    req ← decoded (codec.decode_create_agent r.body)
    validated codec (create_agent_fields req)
    result ← create_agent auth identity.user.id req.name
    pure (record {
      status = 201;
      body =
          new_agent_payload (record { agent = new_agent_response result.agent; key = result.key });
    })

  -- `AgentHandler.list`
  unfoldable pub show_agents : Context → App W (Response Payload)
  unfolding user_from
  show_agents ctx = do
    identity ← user_from ctx
    found ← list_agents auth identity.user.id
    pure (record { status = 200; body = agents_payload (new_agent_responses found) })

  -- `AgentHandler.revoke`
  unfoldable pub bar_agent : Context → Request → App W (Response Payload)
  unfolding user_from
  bar_agent ctx r = do
    identity ← user_from ctx
    when (not (codec.is_uuid r.url_id)) (fail (not_found "agent not found"))
    revoke_agent auth identity.user.id r.url_id
    pure (record { status = 204; body = no_content })
