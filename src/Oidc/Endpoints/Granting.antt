-- ===== src/Oidc/Endpoints/Granting.antt =====
-- The handler of handlers/auth/AuthorizeGrant.go: a user grants scopes to a client.
use holvit_backend.Prelude.{ℕ, String, str_eq, List, [], ◌∷◌, if◌then◌else◌}
use holvit_backend.Go.{http_error, Go, ◌>>=◌, lift, unwrap_err}
use holvit_backend.Tokens.Service.{retrieve_grant_info}
use holvit_backend.Oidc.Authorize.{AuthorizeEnv, Scope}
use holvit_backend.Oidc.Endpoints.{
  HttpRequest, Exchange, authorization, in_world, add_error, respond, unless_error, grant,
}

module _ {W : Type 0} (env : AuthorizeEnv W)
    (find_named_scopes : (realm_id : ℕ) (names : List String) → W → List Scope)
    (create_grants : (user_id client_id : ℕ) (scope_ids : List ℕ) → W → W) where
  -- the part after the checks of the form
  abbrev grant_scopes : (grants : List String) (token : String) → Go (Exchange W) (Unit {0})
  unfolding retrieve_grant_info grant
  grant_scopes grants token = do
    found ← in_world (retrieve_grant_info env.tokens token)
    info ← lift (unwrap_err (http_error 400 "token not found") found)
    response ← in_world (
        grant env find_named_scopes create_grants info.realm_id info.client_id grants
          info.authorization_request)
    unless_error response λ answer. respond (authorization answer)

  abbrev checked : (grants : List String) (token : String) → Go (Exchange W) (Unit {0})
  unfolding retrieve_grant_info grant
  checked [] token = add_error (http_error 400 "Missing grants")
  checked (g ∷ grants) token =
      if str_eq token ""
      then add_error (http_error 400 "Missing token")
      else grant_scopes (g ∷ grants) token

  -- `AuthorizeGrant`, by the values of the field `grant`
  unfoldable pub authorize_grant : (grants : List String) → HttpRequest → Go (Exchange W) (Unit {0})
  unfolding retrieve_grant_info grant
  authorize_grant grants r = unless_error r.parse_form λ u. checked grants (r.form "token")
