-- ===== src/Tests/Codec.antt =====
-- A text format with a proved decoder, which stands for `encoding/json` in the tests.
use Prim.Native.Char.{Char, code}
use holvit_backend.Prelude.{
  ℕ, zero, suc, String, ◌≡◌, refl, List, [], ◌∷◌, Bool, true, false, Option, none, some, length,
  ◌==◌, if◌then◌else◌,
}
use holvit_backend.Tokens.Store.{Json, IsJson}
use holvit_backend.Tokens.Service.{AuthorizationRequest, GrantInfo, LoginInfo, CodeInfo}

-- A value is written before a text, and read off its beginning.
pub record Codec (A : Type 0) : Type 0 where
  pub put : A → String → String
  pub take : String → Option (A × String)
  pub take-put : (a : A) (s : String) → take (put a s) ≡ some (a, s)

module _ {A B : Type 0} where
  abbrev then_take : Option A → (A → Option B) → Option B
  then_take none f = none
  then_take (some a) f = f a

abbrev put_nat : ℕ → String → String
put_nat zero s = String.◌∷◌ "0" s
put_nat (suc n) s = String.◌∷◌ "1" (put_nat n s)

abbrev one_more : Option (ℕ × String) → Option (ℕ × String)
one_more o = then_take o λ (n, s). some (suc n, s)

abbrev take_nat : String → Option (ℕ × String)
take_nat String.[] = none
take_nat (String.◌∷◌ c s) =
    let rest = take_nat s in if code c == b'1' then one_more rest else some (zero, s)

pub take_nat-put : (n : ℕ) (s : String) → take_nat (put_nat n s) ≡ some (n, s)
take_nat-put zero s = refl
take_nat-put (suc n) s = rw (take_nat-put n s)

abbrev nat : Codec ℕ
nat = record { put = put_nat; take = take_nat; take-put = take_nat-put }

abbrev put_string : String → String → String
put_string String.[] s = String.◌∷◌ "0" s
put_string (String.◌∷◌ c t) s = String.◌∷◌ "1" (String.◌∷◌ c (put_string t s))

abbrev longer : Char → Option (String × String) → Option (String × String)
longer c o = then_take o λ (t, s). some (String.◌∷◌ c t, s)

abbrev take_string : String → Option (String × String)
take_string String.[] = none
take_string (String.◌∷◌ x String.[]) = some (String.[], String.[])
take_string (String.◌∷◌ x (String.◌∷◌ c s)) =
    let rest = take_string s in
    if code x == b'1' then longer c rest else some (String.[], String.◌∷◌ c s)

pub take_string-put : (t s : String) → take_string (put_string t s) ≡ some (t, s)
take_string-put String.[] String.[] = refl
take_string-put String.[] (String.◌∷◌ c s) = refl
take_string-put (String.◌∷◌ c t) s = rw (take_string-put t s)

abbrev text : Codec String
text = record { put = put_string; take = take_string; take-put = take_string-put }

module _ {A B : Type 0} where
  -- One value after the other.
  abbrev both : Codec A → Codec B → Codec (A × B)
  both c d = record {
    put = λ (a, b) s. c.put a (d.put b s);
    take =
        λ s. then_take (c.take s) λ (a, s'). then_take (d.take s') λ (b, s''). some ((a, b), s'');
    take-put = λ (a, b) s. rw (c.take-put a, d.take-put b);
  }

  -- Another type with the same values.
  abbrev along : Codec A → (to : A → B) (from : B → A) → ((b : B) → to (from b) ≡ b) → Codec B
  along c to from to-from = record {
    put = λ b s. c.put (from b) s;
    take = λ s. then_take (c.take s) λ (a, s'). some (to a, s');
    take-put = λ b s. rw (c.take-put (from b), to-from b);
  }

module _ {A : Type 0} (c : Codec A) where
  abbrev put_all : List A → String → String
  put_all [] s = s
  put_all (a ∷ rest) s = c.put a (put_all rest s)

  abbrev take_all : ℕ → String → Option (List A × String)
  take_all zero s = some ([], s)
  take_all (suc n) s =
      then_take (c.take s) λ (a, s'). then_take (take_all n s') λ (rest, s''). some (a ∷ rest, s'')

  pub take_all-put : (l : List A) (s : String) → take_all (length l) (put_all l s) ≡ some (l, s)
  take_all-put [] s = refl
  take_all-put (a ∷ rest) s = rw (c.take-put a, take_all-put rest s)

  abbrev list : Codec (List A)
  list = record {
    put = λ l s. put_nat (length l) (put_all l s);
    take = λ s. then_take (take_nat s) λ (n, s'). take_all n s';
    take-put = λ l s. rw (take_nat-put (length l), take_all-put l);
  }

abbrev to_bool : ℕ → Bool
to_bool zero = false
to_bool (suc _) = true

abbrev of_bool : Bool → ℕ
of_bool false = zero
of_bool true = suc zero

pub to-of_bool : (b : Bool) → to_bool (of_bool b) ≡ b
to-of_bool true = refl
to-of_bool false = refl

abbrev bool : Codec Bool
bool = along nat to_bool of_bool to-of_bool

abbrev LoginFields : Type 0
LoginFields = String × (ℕ × (ℕ × (String × (Bool × (String × String)))))

abbrev to_login : LoginFields → LoginInfo
to_login (step, (realm, (user, (device, (remember, (secret, url)))))) = record {
  next_step = step;
  realm_id = realm;
  user_id = user;
  device_id = device;
  remember_me = remember;
  encrypted_totp_onboarding_secret_base64 = secret;
  original_url = url;
}

abbrev of_login : LoginInfo → LoginFields
of_login i = (
  i.next_step,
  (
    i.realm_id,
    (
      i.user_id,
      (i.device_id, (i.remember_me, (i.encrypted_totp_onboarding_secret_base64, i.original_url))),
    ),
  ),
)

abbrev pub login : Codec LoginInfo
login =
    along (both text (both nat (both nat (both text (both bool (both text text)))))) to_login
      of_login (λ i. refl)

abbrev CodeFields : Type 0
CodeFields = ℕ × (String × (ℕ × (String × (List String × (List ℕ × String)))))

abbrev to_code : CodeFields → CodeInfo
to_code (realm, (client, (user, (uri, (scopes, (ids, challenge)))))) = record {
  realm_id = realm;
  client_id = client;
  user_id = user;
  redirect_uri = uri;
  granted_scopes = scopes;
  granted_scope_ids = ids;
  pkce_challenge = challenge;
}

abbrev of_code : CodeInfo → CodeFields
of_code i = (
  i.realm_id,
  (
    i.client_id,
    (i.user_id, (i.redirect_uri, (i.granted_scopes, (i.granted_scope_ids, i.pkce_challenge)))),
  ),
)

abbrev pub oidc : Codec CodeInfo
oidc =
    along (both nat (both text (both nat (both text (both (list text) (both (list nat) text))))))
      to_code of_code (λ i. refl)

abbrev RequestFields : Type 0
RequestFields =
    List String
    × (String × (String × (String × (List String × (String × (String × (String × String)))))))

abbrev GrantFields : Type 0
GrantFields = ℕ × (ℕ × RequestFields)

abbrev to_grant : GrantFields → GrantInfo
to_grant
      (
        client,
        (realm, (types, (name, (id, (uri, (scopes, (state, (mode, (challenge, method))))))))),
      ) =
    record {
      client_id = client;
      realm_id = realm;
      authorization_request = record {
        response_types = types;
        realm_name = name;
        client_id = id;
        redirect_uri = uri;
        scopes = scopes;
        state = state;
        response_mode = mode;
        pkce_challenge = challenge;
        pkce_challenge_method = method;
      };
    }

abbrev of_request : AuthorizationRequest → RequestFields
of_request r = (
  r.response_types,
  (
    r.realm_name,
    (
      r.client_id,
      (
        r.redirect_uri,
        (r.scopes, (r.state, (r.response_mode, (r.pkce_challenge, r.pkce_challenge_method)))),
      ),
    ),
  ),
)

abbrev of_grant : GrantInfo → GrantFields
of_grant i = (i.client_id, (i.realm_id, of_request i.authorization_request))

abbrev pub grant : Codec GrantInfo
grant =
    along
      (both nat (
        both nat (
          both (list text) (
            both text (
              both text (both text (both (list text) (both text (both text (both text text))))))))))
      to_grant of_grant (λ i. refl)

module _ {A : Type 0} where
  abbrev value_of : Option (A × String) → Option A
  value_of none = none
  value_of (some (a, s)) = some a

  abbrev pub to_json : Codec A → Json A
  to_json c = record { marshal = λ a. c.put a ""; unmarshal = λ s. value_of (c.take s) }

  pub to_json-IsJson : (c : Codec A) → IsJson (to_json c)
  to_json-IsJson c = record { unmarshal-marshal = λ a. rw (c.take-put a "") }
