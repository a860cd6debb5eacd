-- ===== src/Sessions/Lookup.antt =====
-- What the session of a request depends on: services/SessionService.go and
-- services/CurrentSessionService.go.
use holvit_backend.Prelude.{true, false, ◌⊎◌, ℕ, ◌≤◌, String, Option, none, some, ◌≡◌, refl, arith}
use holvit_backend.Go.{Outcome, done, panicked, ◌>>=◌, continue, pure, lift}
use holvit_backend.Filter.{pos, PagedResult, single_or_none}
use holvit_backend.Repos.Database.{Database}
use holvit_backend.Repos.Sessions.{Session, find_sessions, sessions_query}
use holvit_backend.Sessions.{
  CurrentSession, Serving, Cookie, is_authorized, realm_id, lookup_session,
  current_session_middleware, user_id, not_authorized, unless_expired,
}

module _ {W : Type 0} (db : Database W) (cheap_hash : String → String) where
  -- The lookup gives the same answer and makes the same queries for every token.
  pub lookup_session_any :
      (token other : String) (w : W)
      → lookup_session db cheap_hash token w ≡ lookup_session db cheap_hash other w
  unfolding lookup_session find_sessions sessions_query
  lookup_session_any token other w = refl

  -- The handler runs as the user of this session and in its realm.
  abbrev pub RunsAs : Session → Serving W → Type 0
  RunsAs session s =
      (is_authorized s.current ≡ true)
      × ((user_id s).0 ≡ done session.user_id)
      × ((realm_id s).0 ≡ done session.realm_id)

  unless_expired_lem :
      (now : ℕ) (o : Option Session) (session : Session)
      → unless_expired now o ≡ some session
      → now ≤ session.valid_until
  unless_expired_lem now none session h = cc
  unless_expired_lem now (some s) session h = ground arith

  after_single :
      (now : ℕ) (r : Outcome (Option Session)) (w w' : W) (session : Session)
      → continue (λ s. pure (unless_expired now s)) r w ≡ (done (some session), w')
      → now ≤ session.valid_until
  after_single now (panicked e) w w' session h = cc
  after_single now (done o) w w' session h = unless_expired_lem now o session (cc h)

  after_find :
      (now : ℕ) (r : Outcome (PagedResult Session)) (w w' : W) (session : Session)
      → continue
          (λ found. lift (single_or_none found.values) >>= λ s. pure (unless_expired now s))
          r
          w
        ≡ (done (some session), w')
      → now ≤ session.valid_until
  after_find now (panicked e) w w' session h = cc
  after_find now (done found) w w' session h =
      after_single now (single_or_none found.values) w w' session h

  -- A session that the lookup returns is valid at the time of the lookup.
  pub lookup_session-valid :
      (token : String) (w w' : W) (session : Session)
      → lookup_session db cheap_hash token w ≡ (done (some session), w')
      → db.now w ≤ session.valid_until
  unfolding lookup_session
  lookup_session-valid token w w' session h = after_find (db.now w) _ _ w' session h

  -- No user is known, and a handler that asks for one is stopped with the status 401.
  abbrev pub RunsAsNobody : Serving W → Type 0
  RunsAsNobody s = (is_authorized s.current ≡ false) × ((user_id s).0 ≡ panicked not_authorized)

  -- The cookie, if there is one, belongs to no session.
  abbrev pub NoSession : Option Cookie → W → Type 0
  NoSession none w = Unit
  NoSession (some cookie) w = (lookup_session db cheap_hash cookie.value w).0 ≡ done none

  -- Whom a request with this cookie is served as, where its session is looked up in this world
  abbrev pub ServedAs : Option Cookie → W → Serving W → Type 0
  ServedAs cookie w s =
      ((c : Cookie) × (session : Session) × (cookie ≡ some c)
        × ((lookup_session db cheap_hash c.value w).0 ≡ done (some session))
        × RunsAs session s)
      ⊎ (NoSession cookie w × RunsAsNobody s)

  -- The same by the fields of the current session
  abbrev Fields : Option Cookie → W → CurrentSession → Type 0
  Fields cookie w current =
      ((c : Cookie) × (session : Session) × (cookie ≡ some c)
        × ((lookup_session db cheap_hash c.value w).0 ≡ done (some session))
        × (current.user_id ≡ some session.user_id)
        × (current.realm_id ≡ some session.realm_id))
      ⊎ (NoSession cookie w × (current.user_id ≡ none))

  -- Where the lookup finds a session for one token, every cookie that a request of a browser holds
  -- is served as that session, in every realm: whatever its value, the handler runs authorized, as
  -- the user of the session and in the session's realm.
  pub middleware_any :
      (token realm_name name value : String) (device : Option String) (new_device : W → String × W)
      (session : Session) (s : Serving W) (w : W)
      → lookup_session db cheap_hash token s.world ≡ (done (some session), w)
      → let cookie : Cookie = record { name = name; value = value; max_age = pos 0 } in
        let ended =
          current_session_middleware db cheap_hash realm_name
            (some cookie)
            device
            new_device
            (pure tt)
            s in
        (ended.0 ≡ done tt) × RunsAs session ended.1
  unfolding current_session_middleware
  middleware_any token realm_name name value (some device) new_device session s w found =
      rw (lookup_session_any value token s.world, found) (refl, (refl, refl, refl))
  middleware_any token realm_name name value none new_device session s w found =
      rw (lookup_session_any value token s.world, found) (refl, (refl, refl, refl))
