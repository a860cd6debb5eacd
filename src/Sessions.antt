-- ===== src/Sessions.antt =====
-- Sessions of a browser: `LookupSession` of services/SessionService.go, and
-- services/CurrentSessionService.go.
pub mod Lookup
use holvit_backend.Prelude.{
  ℕ, zero, suc, String, str_append, List, [], ◌∷◌, ◌++◌, Bool, true, false, Option, none, some,
  if◌then◌else◌, ltb,
}
use holvit_backend.Go.{
  Error, http_error, plain_error, Outcome, done, panicked, Go, ◌>>=◌, ◌>>◌, pure, panic, lift, gets,
  unwrap, unwrap_err,
}
use holvit_backend.Filter.{ℤ, pos, negsuc, is_positive, single_or_none, single}
use holvit_backend.Auth.Env.{User}
use holvit_backend.Repos.Database.{Database}
use holvit_backend.Repos.Filters.{no_filter, by_id}
use holvit_backend.Repos.Sessions.{Session, SessionFilter, find_sessions}
use holvit_backend.Repos.Users.{find_user_by_id}
use holvit_backend.Repos.Realms.{Realm, find_realm_by_id}
use holvit_backend.Repos.UserDevices.{UserDevice, find_user_devices}

-- `http.Cookie` as `setCookie` writes it: path "/", secure, not for scripts
pub record Cookie : Type 0 where
  pub name : String
  pub value : String
  pub max_age : ℤ

-- `currentSessionServiceImpl`
pub record CurrentSession : Type 0 where
  pub device_id_string : Option String
  pub device : Option UserDevice
  pub user_id : Option ℕ
  pub user : Option User
  pub realm_id : Option ℕ
  pub realm : Option Realm

-- A request that is served: the world, the service of its scope, and the cookies that are set.
pub record Serving (W : Type 0) : Type 0 where
  pub world : W
  pub current : CurrentSession
  pub cookies : List Cookie

-- `fmt.Sprintf("holvit_%s_session", realmName)`
abbrev session_cookie_name : String → String
session_cookie_name realm_name = str_append "holvit_" (str_append realm_name "_session")

-- two weeks and ten years, in seconds
abbrev two_weeks : ℤ
two_weeks = pos 1209600

abbrev ten_years : ℤ
ten_years = pos 315360000

-- `IsAuthorized`
abbrev pub is_authorized : CurrentSession → Bool
is_authorized c = elim c.user_id [ none ↦ false | some _ ↦ true ]

abbrev pub not_authorized : Error
not_authorized = http_error 401 "not authorized"

-- The session, unless it is over.
abbrev pub unless_expired : (now : ℕ) → Option Session → Option Session
unless_expired now none = none
unless_expired now (some session) = if ltb session.valid_until now then none else some session

module _ {W : Type 0} where
  abbrev pub in_world : {A : Type 0} → Go W A → Go (Serving W) A
  in_world m s = let (r, w) = m s.world in (r, record s { world = w })

  abbrev change : (CurrentSession → CurrentSession) → Go (Serving W) (Unit {0})
  change f s = (Outcome.done tt, record s { current = f s.current })

  -- `setCookie`
  abbrev pub set_cookie : String → String → ℤ → Go (Serving W) (Unit {0})
  set_cookie name v max_age s = (
    Outcome.done tt,
    record s { cookies = s.cookies ++ record { name = name; value = v; max_age = max_age } ∷ [] },
  )

  -- `VerifyAuthorized`
  abbrev pub verify_authorized : Go (Serving W) (Unit {0})
  verify_authorized s =
      (if is_authorized s.current then Outcome.done tt else Outcome.panicked not_authorized, s)

  -- `UserId`
  abbrev pub user_id : Go (Serving W) ℕ
  user_id = do verify_authorized; λ s. (unwrap s.current.user_id, s)

  -- `RealmId`; after `SetSession` the pointer is nil.
  abbrev pub realm_id : Go (Serving W) ℕ
  realm_id = do user ← user_id; λ s. (unwrap s.current.realm_id, s)

  -- `SetSession`
  unfoldable pub set_session : ℕ → Bool → (realm_name token : String) → Go (Serving W) (Unit {0})
  set_session id remember_me realm_name token = do
    set_cookie (session_cookie_name realm_name) token (if remember_me then two_weeks else pos 0)
    change (λ c. record c { user_id = some id })

  -- `DeleteSession`
  unfoldable pub delete_session : (realm_name : String) → Go (Serving W) (Unit {0})
  delete_session realm_name = set_cookie (session_cookie_name realm_name) "" (negsuc 0)

  -- `DeviceIdString`
  abbrev pub device_id_string : Go (Serving W) String
  device_id_string s =
      (unwrap_err (http_error 400 "Missing device id cookie") s.current.device_id_string, s)

  abbrev pub refresh : (realm_name : String) → Cookie → Go (Serving W) (Unit {0})
  refresh realm_name cookie =
      if is_positive cookie.max_age
      then set_cookie (session_cookie_name realm_name) cookie.value two_weeks
      else pure tt

  -- a cookie whose session was found
  abbrev pub adopt : (realm_name : String) → Cookie → Option Session → Go (Serving W) (Unit {0})
  adopt realm_name cookie none = pure tt
  adopt realm_name cookie (some session) = do
    change (λ c. record c { realm_id = some session.realm_id; user_id = some session.user_id })
    refresh realm_name cookie

module _ {W : Type 0} (db : Database W) (cheap_hash : String → String) where
  -- `LookupSession`
  unfoldable pub lookup_session : (token : String) → Go W (Option Session)
  unfolding find_sessions
  lookup_session token = do
    now ← gets db.now
    found ← find_sessions db (record {
      base = no_filter;
      realm_id = none;
      user_id = none;
      hashed_token = some (cheap_hash token);
    })
    session ← lift (single_or_none found.values)
    pure (unless_expired now session)

  abbrev pub session_part : (realm_name : String) → Option Cookie → Go (Serving W) (Unit {0})
  unfolding lookup_session
  session_part realm_name none = pure tt
  session_part realm_name (some cookie) = do
    session ← in_world (lookup_session cookie.value)
    adopt realm_name cookie session

  -- the device's cookie, or a new one
  abbrev pub device_part : Option String → (new_device : W → String × W) → Go (Serving W) (Unit {0})
  device_part (some device) new_device = change (λ c. record c { device_id_string = some device })
  device_part none new_device = do
    device ← in_world (λ w. let (d, w') = new_device w in (Outcome.done d, w'))
    set_cookie "holvit_device_id" device ten_years
    change (λ c. record c { device_id_string = some device })

  -- `CurrentSessionMiddleware` around the next handler, by the request's cookies
  unfoldable pub current_session_middleware :
      (realm_name : String) (session : Option Cookie) (device : Option String)
      (new_device : W → String × W)
      → Go (Serving W) (Unit {0})
      → Go (Serving W) (Unit {0})
  unfolding lookup_session
  current_session_middleware realm_name session device new_device next = do
    session_part realm_name session
    device_part device new_device
    next

  abbrev found_device : (count : ℤ) → List UserDevice → Outcome UserDevice
  found_device (pos zero) devices = panicked (http_error 404 "Device not found")
  found_device (pos (suc n)) devices = single devices
  found_device (negsuc n) devices = single devices

  -- `Device`, which reads what `DeviceId` has found
  unfoldable pub device : Go (Serving W) UserDevice
  unfolding find_user_devices
  device = do
    user ← user_id
    device_id ← device_id_string
    found ← in_world (
        find_user_devices db
          (record { base = no_filter; device_id = some device_id; user_id = some user }))
    d ← lift (found_device found.total_count found.values)
    change (λ c. record c { device = some d })
    pure d

  abbrev stored_user : Option User → ℕ → Go (Serving W) User
  unfolding find_user_by_id
  stored_user (some u) id = pure u
  stored_user none id = do
    found ← in_world (find_user_by_id db id)
    u ← lift (unwrap found)
    change (λ c. record c { user = some u })
    pure u

  -- `User`
  unfoldable pub current_user : Go (Serving W) User
  unfolding find_user_by_id
  current_user = do
    id ← user_id
    known ← (λ s. (Outcome.done s.current.user, s))
    stored_user known id

  abbrev stored_realm : Option Realm → Option ℕ → Go (Serving W) Realm
  unfolding find_realm_by_id
  stored_realm (some r) id = pure r
  stored_realm none id = do
    id ← lift (unwrap id)
    found ← in_world (find_realm_by_id db id)
    r ← lift (unwrap found)
    change (λ c. record c { realm = some r })
    pure r

  -- `Realm`
  unfoldable pub current_realm : Go (Serving W) Realm
  unfolding find_realm_by_id
  current_realm = do
    user ← user_id
    known ← (λ s. (Outcome.done s.current, s))
    stored_realm known.realm known.realm_id
