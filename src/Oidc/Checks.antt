-- ===== src/Oidc/Checks.antt =====
-- What the token endpoints check, and what they do not: services/OidcService.go and
-- services/RefreshTokenService.go.
use holvit_backend.Prelude.{
  ℕ, ◌+◌, String, str_eq, eq_iff, List, [], ◌∷◌, ◌≡◌, ◌≢◌, ◌↔◌, refl, ap, ◌∙◌, Bool, true, false,
  Option, none, some, if◌then◌else◌, arith, ltb,
}
use holvit_backend.Go.{
  bind-done, Error, http_error, done, Go, Result, ok, err, pure, continue, unwrap_err,
  unwrap_result,
}
use holvit_backend.Tokens.Service.{CodeInfo, retrieve_oidc_code}
use holvit_backend.Auth.Guards.{str_eq-ne}
use holvit_backend.Oidc.Env.{Client, RefreshToken, Env}
use holvit_backend.Oidc.Clients.{authenticate}
use holvit_backend.Oidc.RefreshTokens.{create_refresh_token, validate_and_refresh}
use holvit_backend.Oidc.Grants.{
  AuthorizationCodeTokenRequest, RefreshTokenRequest, TokenResponse, handle_refresh_token, contains,
  is_slice_subset, check_pkce, exchange_code, exchange_for, handle_authorization_code,
}

is_slice_subset_sound :
    (set sub : List String) (s : String)
    → is_slice_subset set sub ≡ true
    → contains sub s ≡ true
    → contains set s ≡ true
is_slice_subset_sound set [] s h m = cc
is_slice_subset_sound set (v ∷ rest) s h m =
    ground (arith, eq_iff v s, is_slice_subset_sound set rest s)

is_slice_subset_complete :
    (set sub : List String)
    → ((s : String) → contains sub s ≡ true → contains set s ≡ true)
    → is_slice_subset set sub ≡ true
is_slice_subset_complete set [] h = refl
is_slice_subset_complete set (v ∷ rest) h =
    ground (arith, h v, eq_iff v v, is_slice_subset_complete set rest (λ s m. h s (later s m)))
  where
    later : (s : String) → contains rest s ≡ true → contains (v ∷ rest) s ≡ true
    later s m = ground (arith, m)

-- The test of the scopes of a refresh holds exactly where every scope that is asked for is among
-- those of the token.
pub is_slice_subset_iff :
    (set sub : List String)
    → (is_slice_subset set sub ≡ true)
      ↔ ((s : String) → contains sub s ≡ true → contains set s ≡ true)
is_slice_subset_iff set sub =
    (λ h s. is_slice_subset_sound set sub s h, is_slice_subset_complete set sub)

module _ {W K : Type 0} (env : Env W K) where
  -- A token that is still valid, and of which the database finds one row, is exchanged for whatever
  -- client asks, the one that it was made for or another: it is deleted, and a new random token is made for the client that asks, which is
  -- valid for an hour and has the user, the realm, the issuer, the subject, the audience and the
  -- scopes of the old one; the database gets its hash.
  pub validate_and_refresh-any_client :
      (token : String) (client_id : ℕ) (row : RefreshToken) (w : W)
      → env.find_refresh_tokens (env.cheap_hash token) w ≡ row ∷ []
      → ltb row.valid_until (env.now w) ≡ false
      → let w1 = env.delete_refresh_token row.id w in
        let (text, w2) = env.random_string_base64 w1 in
        let made : RefreshToken = record {
          id = 0;
          user_id = row.user_id;
          client_id = client_id;
          realm_id = row.realm_id;
          hashed_token = env.cheap_hash text;
          valid_until = env.now w1 + 3600;
          issuer = row.issuer;
          subject = row.subject;
          audience = row.audience;
          scopes = row.scopes;
        } in
        let (id, w3) = env.create_refresh_token made w2 in
        validate_and_refresh env token client_id w ≡ (done (ok (text, record made { id = id })), w3)
  unfolding validate_and_refresh create_refresh_token
  validate_and_refresh-any_client token client_id row w one valid = rw (one, valid) refl

  -- The code verifier of a client without a secret is not compared with the challenge: whatever
  -- the challenge of the code, a verifier that differs from its own hash is taken.
  pub check_pkce-takes_any_verifier :
      (challenge verifier : String)
      → challenge ≢ ""
      → env.trim_right_equals verifier ≢ env.trim_right_equals (env.base64_sha256 verifier)
      → check_pkce env none challenge (some verifier) ≡ done none
  check_pkce-takes_any_verifier challenge verifier some_challenge differs =
      rw (str_eq-ne challenge "" some_challenge, str_eq-ne _ _ differs)

  -- A code is consumed by a request with another redirect URI than it was made for, which gets the
  -- error 401 and no token.
  pub handle_authorization_code-redirect :
      (request : AuthorizationCodeTokenRequest) (info : CodeInfo) (w w' : W)
      → retrieve_oidc_code env.tokens request.code w ≡ (done (some info), w')
      → request.redirect_uri ≢ info.redirect_uri
      → handle_authorization_code env request w
        ≡ (done (err (http_error 401 "invalid redirect uri")), w')
  unfolding handle_authorization_code
  handle_authorization_code-redirect request info w w' found ne =
      rw (found, str_eq-ne request.redirect_uri info.redirect_uri ne)

  -- A code is consumed by an authenticated client that it was not made for, which gets the error
  -- 401 and no token.
  pub handle_authorization_code-client :
      (request : AuthorizationCodeTokenRequest) (info : CodeInfo) (client : Client) (w w' w'' : W)
      → retrieve_oidc_code env.tokens request.code w ≡ (done (some info), w')
      → request.redirect_uri ≡ info.redirect_uri
      → authenticate env request.client_id request.client_secret w' ≡ (done (ok client), w'')
      → info.client_id ≢ client.client_id
      → handle_authorization_code env request w
        ≡ (done (err (http_error 401 "wrong client id")), w'')
  unfolding handle_authorization_code exchange_for
  handle_authorization_code-client request info client w w' w'' found same authenticated ne = rw (
    found,
    (eq_iff request.redirect_uri info.redirect_uri).1 same,
    authenticated,
    str_eq-ne info.client_id client.client_id ne,
  )

  if-ok :
      {A : Type 0} (b : Bool) (m : Go W (Result A)) (e : Error) (a : A) (w w' : W)
      → (if b then m else pure (err e)) w ≡ (done (ok a), w')
      → (b ≡ true) × (m w ≡ (done (ok a), w'))
  if-ok true m e a w w' h = (refl, h)
  if-ok false m e a w w' h = cc

  unwrapped :
      {A B : Type 0} (e : Error) (o : Option A) (k : A → Go W B) (b : B) (w w' : W)
      → continue k (unwrap_err e o) w ≡ (done b, w')
      → (a : A) × ((o ≡ some a) × (k a w ≡ (done b, w')))
  unwrapped e none k b w w' h = cc
  unwrapped e (some a) k b w w' h = (a, (refl, h))

  unwrapped_result :
      {A B : Type 0} (o : Result A) (k : A → Go W B) (b : B) (w w' : W)
      → continue k (unwrap_result o) w ≡ (done b, w')
      → (a : A) × ((o ≡ ok a) × (k a w ≡ (done b, w')))
  unwrapped_result (err e) k b w w' h = cc
  unwrapped_result (ok a) k b w w' h = (a, (refl, h))

  -- The client for which a code was exchanged, and where it was authenticated.
  abbrev pub IsFor : AuthorizationCodeTokenRequest → CodeInfo → W → Client → Type 0
  IsFor request info w client =
      (request.redirect_uri ≡ info.redirect_uri)
      × ((authenticate env request.client_id request.client_secret w).0 ≡ done (ok client))
      × (info.client_id ≡ client.client_id)

  exchange_code-checked :
      (request : AuthorizationCodeTokenRequest) (info : CodeInfo) (response : TokenResponse)
      (now : ℕ) (w w' : W)
      → exchange_code env request now info w ≡ (done (ok response), w')
      → (client : Client) × IsFor request info w client
  unfolding exchange_code exchange_for
  exchange_code-checked request info response now w w' h =
      let (same, h₁) = if-ok (str_eq request.redirect_uri info.redirect_uri) _ _ response w w' h in
      let (authenticated, (e₂, h₂)) =
        bind-done (authenticate env request.client_id request.client_secret) _ w w' (ok response)
          h₁ in
      let (client, (e₃, h₃)) = unwrapped_result authenticated _ (ok response) _ w' h₂ in
      let (mine, h₄) = if-ok (str_eq info.client_id client.client_id) _ _ response _ w' h₃ in
      (
        client,
        (
          (eq_iff request.redirect_uri info.redirect_uri).0 same,
          ap (λ p. p.0) e₂ ∙ ap done e₃,
          (eq_iff info.client_id client.client_id).0 mine,
        ),
      )

  -- Tokens are given for a code only where the store held the code's information, the request has
  -- the redirect URI of it, and the request's client authenticates and is the one it was made for.
  pub handle_authorization_code-checked :
      (request : AuthorizationCodeTokenRequest) (response : TokenResponse) (w w' : W)
      → handle_authorization_code env request w ≡ (done (ok response), w')
      → (info : CodeInfo) × (client : Client) × ((retrieve_oidc_code env.tokens request.code w).0
          ≡ done (some info))
        × IsFor request info (retrieve_oidc_code env.tokens request.code w).1 client
  unfolding handle_authorization_code
  handle_authorization_code-checked request response w w' h =
      let (found, (e₁, h₁)) =
        bind-done (retrieve_oidc_code env.tokens request.code) _ w w' (ok response) h in
      let (info, (e₂, h₂)) =
        unwrapped (http_error 401 "token not found") found _ (ok response) _ w' h₁ in
      let (client, checked) = exchange_code-checked request info response _ _ w' h₂ in
      (info, client, ap (λ p. p.0) e₁ ∙ ap done e₂, checked)

  -- Tokens are given for a refresh token only where the request's client authenticates, the refresh
  -- token is valid and is exchanged for that client, and every scope that the request asks for is
  -- one of the token's.
  pub handle_refresh_token-checked :
      (request : RefreshTokenRequest) (response : TokenResponse) (w w' : W)
      → handle_refresh_token env request w ≡ (done (ok response), w')
      → let authenticated = authenticate env request.client_id request.client_secret w in
        (client : Client) × (text : String) × (row : RefreshToken) × (authenticated.0
          ≡ done (ok client))
        × ((validate_and_refresh env request.refresh_token client.id authenticated.1).0
            ≡ done (ok (text, row)))
        × ((s : String) → contains request.scope_names s ≡ true → contains row.scopes s ≡ true)
  unfolding handle_refresh_token
  handle_refresh_token-checked request response w w' h =
      let (authenticated, (e₁, h₁)) =
        bind-done (authenticate env request.client_id request.client_secret) _ w w' (ok response)
          h in
      let (client, (e₂, h₂)) = unwrapped_result authenticated _ (ok response) _ w' h₁ in
      let (exchanged, (e₃, h₃)) =
        bind-done (validate_and_refresh env request.refresh_token client.id) _ _ w' (ok response)
          h₂ in
      let ((text, row), (e₄, h₄)) = unwrapped_result exchanged _ (ok response) _ w' h₃ in
      let (few, h₅) = if-ok (is_slice_subset row.scopes request.scope_names) _ _ response _ w' h₄ in
      (
        client,
        text,
        row,
        ap (λ p. p.0) e₁ ∙ ap done e₂,
        ap (λ p. p.0) e₃ ∙ ap done e₄,
        λ s. is_slice_subset_sound row.scopes request.scope_names s few,
      )
