-- ===== src/Tokens/Lifecycle.antt =====
-- How long a code lives: services/TokenService.go.
use Prim.Native.String.{count}
use text.Mathlib.TextLemmas.{append_inj, append_assoc as string_append_assoc}
use text.Mathlib.TextPositions.{eq_refl}
use holvit_backend.Prelude.{
  ℕ, String, str_append, str_eq, ◌≡◌, ◌≢◌, refl, sym, ◌∙◌, Bool, false, none, some, eq_iff, arith,
}
use holvit_backend.Go.{done}
use holvit_backend.Tokens.Store.{Redis, IsRedis, Json, IsJson}
use holvit_backend.Tokens.Service.{
  key, store_info, retrieve_info, peek_info, TokenService, GrantInfo, CodeInfo, LoginInfo,
  store_oidc_code, store_grant_info, retrieve_grant_info, peek_login_code, retrieve_oidc_code,
  overwrite_login_code, retrieve_login_code,
}

module _ {W A : Type 0} (redis : Redis W) (json : Json A) (development : Bool)
    (is_redis : IsRedis redis) (is_json : IsJson json) where
  -- What a key holds, as a reader of the code finds it.
  pub retrieve-of_get :
      (name token : String) (w : W) (info : A)
      → redis.get (key name token) w ≡ some (json.marshal info)
      → (retrieve_info redis json development name token w).0 ≡ done (some info)
  unfolding retrieve_info
  retrieve-of_get name token w info h =
      rw (is_redis.get_del_value (key name token) w, h, is_json.unmarshal-marshal info)

  pub retrieve-of_none :
      (name token : String) (w : W)
      → redis.get (key name token) w ≡ none
      → (retrieve_info redis json development name token w).0 ≡ done none
  unfolding retrieve_info
  retrieve-of_none name token w h = rw (is_redis.get_del_value (key name token) w, h)

  pub peek-of_get :
      (name token : String) (w : W) (info : A)
      → redis.get (key name token) w ≡ some (json.marshal info)
      → (peek_info redis json development name token w).0 ≡ done (some info)
  unfolding peek_info
  peek-of_get name token w info h = rw (h, is_json.unmarshal-marshal info)

  pub get-retrieve :
      (name token : String) (w : W)
      → redis.get (key name token) (retrieve_info redis json development name token w).1 ≡ none
  unfolding retrieve_info
  get-retrieve name token w = rw (is_redis.get-get_del, eq_refl)

  pub get-store :
      (info : A) (name token : String) (seconds : ℕ) (w : W)
      → redis.get (key name token) (store_info redis json development info name token seconds w).1
        ≡ some (json.marshal info)
  unfolding store_info
  get-store info name token seconds w = rw (is_redis.get-set, eq_refl)

module _ {W : Type 0} (s : TokenService W) (is_redis : IsRedis s.redis) where
  -- Where Redis and JSON do what they document, an authorization code is good for one use: the first retrieval of the code just stored gives
  -- its information, the next one finds nothing.
  pub retrieve_oidc_code_once :
      (is_json : IsJson s.code_json) (info : CodeInfo) (w : W)
      → let token = (s.next_token w).0 in
        let stored = store_oidc_code s info w in
        let first = retrieve_oidc_code s token stored.1 in
        (stored.0 ≡ done token)
        × (first.0 ≡ done (some info))
        × ((retrieve_oidc_code s token first.1).0 ≡ done none)
  unfolding store_oidc_code retrieve_oidc_code
  retrieve_oidc_code_once is_json info w =
      let token = (s.next_token w).0 in
      let stored = store_info s.redis s.code_json s.development info "oidcCode" token 30 in
      let taken = retrieve_info s.redis s.code_json s.development "oidcCode" token in
      (
        refl,
        retrieve-of_get s.redis s.code_json s.development is_redis is_json "oidcCode" token _ info (
            get-store s.redis s.code_json s.development is_redis is_json info "oidcCode" token 30
              _),
        retrieve-of_none s.redis s.code_json s.development is_redis is_json "oidcCode" token _
            (get-retrieve s.redis s.code_json s.development is_redis is_json "oidcCode" token _),
      )

  -- A request that is to be granted is good for one use in the same way.
  pub retrieve_grant_info_once :
      (is_json : IsJson s.grant_json) (info : GrantInfo) (w : W)
      → let token = (s.next_token w).0 in
        let stored = store_grant_info s info w in
        let first = retrieve_grant_info s token stored.1 in
        (stored.0 ≡ done token)
        × (first.0 ≡ done (some info))
        × ((retrieve_grant_info s token first.1).0 ≡ done none)
  unfolding store_grant_info retrieve_grant_info
  retrieve_grant_info_once is_json info w =
      let token = (s.next_token w).0 in
      (
        refl,
        retrieve-of_get s.redis s.grant_json s.development is_redis is_json "grantInfo" token _ info
            (get-store s.redis s.grant_json s.development is_redis is_json info "grantInfo" token
              300 _),
        retrieve-of_none s.redis s.grant_json s.development is_redis is_json "grantInfo" token _
            (get-retrieve s.redis s.grant_json s.development is_redis is_json "grantInfo" token _),
      )

  -- Where Redis and JSON do what they document, overwriting a login code succeeds whatever the store
  -- holds, and the code is then live.
  pub overwrite_login_code_revives :
      (is_json : IsJson s.login_json) (token : String) (info : LoginInfo) (w : W)
      → let overwritten = overwrite_login_code s token info w in
        (overwritten.0 ≡ done none) × ((peek_login_code s token overwritten.1).0 ≡ done (some info))
  unfolding overwrite_login_code peek_login_code
  overwrite_login_code_revives is_json token info w = (
    refl,
    peek-of_get s.redis s.login_json s.development is_redis is_json "loginCode" token _ info
        (rw (is_redis.get-set, eq_refl)),
  )

str_eq-ne : (s t : String) → s ≢ t → str_eq s t ≡ false
str_eq-ne s t h = ground (arith, eq_iff s t)

heads-ne :
    (c d x y t u : String)
    → count c ≡ count d
    → c ≢ d
    → str_append (str_append c x) t ≢ str_append (str_append d y) u
heads-ne c d x y t u same ne h =
    ne (append_inj (sym (string_append_assoc c x t) ∙ h ∙ string_append_assoc d y u) same).0

-- No code of one kind has the key of a code of another.
pub keys-ne :
    (t u : String)
    → (key "oidcCode" t ≢ key "loginCode" u)
      × (key "oidcCode" t ≢ key "grantInfo" u)
      × (key "loginCode" t ≢ key "grantInfo" u)
keys-ne t u = (
  heads-ne "o" "l" "idcCode" "oginCode" _ _ refl (ground (arith, eq_iff "o" "l")),
  heads-ne "o" "g" "idcCode" "rantInfo" _ _ refl (ground (arith, eq_iff "o" "g")),
  heads-ne "l" "g" "oginCode" "rantInfo" _ _ refl (ground (arith, eq_iff "l" "g")),
)

module _ {W : Type 0} (s : TokenService W) (is_redis : IsRedis s.redis) where
  -- Where Redis does what it documents, overwriting a login code and retrieving it change nothing of
  -- what is found under an authorization code.
  pub login_code-keeps-oidc_code :
      (info : LoginInfo) (token code : String) (w : W)
      → ((retrieve_oidc_code s code (overwrite_login_code s token info w).1).0
          ≡ (retrieve_oidc_code s code w).0)
        × ((retrieve_oidc_code s code (retrieve_login_code s token w).1).0
            ≡ (retrieve_oidc_code s code w).0)
  unfolding retrieve_oidc_code retrieve_login_code overwrite_login_code
  login_code-keeps-oidc_code info token code w =
      let other = str_eq-ne _ _ (λ e. (keys-ne code token).0 (sym e)) in
      (
        rw (is_redis.get_del_value, is_redis.get_del_value, is_redis.get-set, other),
        rw (is_redis.get_del_value, is_redis.get_del_value, is_redis.get-get_del, other),
      )
