-- ===== src/Tests/Repos.antt =====
-- Repositories and sessions over a database that keeps the statements.
use holvit_backend.Prelude.{
  ◌≤◌, ap, ◌∙◌, String, str_append, [], ◌∷◌, ◌≡◌, refl, false, Option, none, some,
}
use holvit_backend.Go.{Outcome, done, pure}
use holvit_backend.Filter.{pos, negsuc}
use holvit_backend.Sqlb.Query.{build_query, render, itoa}
use holvit_backend.Sqlb.Writer.{
  write, append_param, build_fragments, build_with, build_where, build_having, fragments_from,
  conditions_from,
}
use holvit_backend.Sqlb.Build.{
  param_at, scan_runes, scan_tokens, build_columns, build_clause, build_bound, build_lock,
  build_select,
}
use holvit_backend.Repos.Database.{Database, uuid, int, text, time}
use holvit_backend.Repos.Filters.{no_filter}
use holvit_backend.Repos.Users.{UserFilter, users_query, fields_from, search_words}
use holvit_backend.Repos.Users.Search.{
  like_parts, any_text, exactly, exactly_each, search_pattern_lem,
}
use holvit_backend.Repos.Users.Text.{shape, users_text, users_text-shape}
use holvit_backend.Repos.Users.{search_pattern}
use holvit_backend.Repos.Sessions.{Session, find_sessions}
use holvit_backend.Sessions.{Cookie, Serving, lookup_session, current_session_middleware}
use holvit_backend.Sessions.Lookup.{
  lookup_session_any, lookup_session-valid, middleware_any, RunsAs,
}
use holvit_backend.Tests.Queries.{lex}
use holvit_backend.Tests.Store.{Log, recorder}

abbrev searching : String → UserFilter
searching x = record {
  base = record no_filter { search_text = some x };
  realm_id = some 1;
  username = none;
}

same_shape : shape (searching "ada") ≡ shape (searching "';--")
unfolding fields_from
same_shape = refl

users_text-shape_example : users_text lex (searching "ada") ≡ users_text lex (searching "';--")
users_text-shape_example = users_text-shape lex (searching "ada") (searching "';--") same_shape

searched :
    users_text lex (searching "a_b")
    ≡ done
        "SELECT -1, id, realm_id, username, email, email_verified FROM users WHERE (realm_id = $1) AND (username ILIKE $2 OR email ILIKE $3)"
unfolding users_query fields_from search_words build_query render itoa build_select scan_tokens
    scan_runes param_at build_columns build_clause build_bound build_lock build_with build_where
    build_having build_fragments fragments_from conditions_from write append_param
searched = refl

search_pattern_lem_example :
    like_parts false (search_pattern "a_b")
    ≡ some (any_text ∷ exactly b'a' ∷ exactly b'_' ∷ exactly b'b' ∷ any_text ∷ [])
unfolding exactly_each
search_pattern_lem_example = search_pattern_lem "a_b"

abbrev session : Session
session = record {
  id = 5;
  user_id = 7;
  user_device_id = 3;
  realm_id = 1;
  valid_until = 200;
  hashed_token = "hash";
}

-- A database that holds this session alone.
abbrev one_session : Database Log
one_session =
    recorder
      ((int (negsuc 0) ∷ uuid 5 ∷ uuid 7 ∷ uuid 3 ∷ uuid 1 ∷ text "hash" ∷ time 200 ∷ []) ∷ [])

abbrev cheap : String → String
cheap s = str_append "#" s

-- The token is another than the session's.
found : (lookup_session one_session cheap "forged" []).0 ≡ done (some session)
unfolding lookup_session find_sessions build_select build_with write build_fragments build_where
    build_having
found = refl

lookup_session-valid_example : one_session.now [] ≤ session.valid_until
lookup_session-valid_example =
    lookup_session-valid one_session cheap "forged" []
      (lookup_session one_session cheap "forged" []).1 session
      (ap (λ (o : Outcome (Option Session)). (o, (lookup_session one_session cheap "forged" []).1))
        found)

abbrev nobody : Serving Log
nobody = record {
  world = [];
  current = record {
    device_id_string = none;
    device = none;
    user_id = none;
    user = none;
    realm_id = none;
    realm = none;
  };
  cookies = [];
}

found_by_token :
    lookup_session one_session cheap "token" []
    ≡ (done (some session), (lookup_session one_session cheap "token" []).1)
found_by_token =
    lookup_session_any one_session cheap "token" "forged" []
    ∙ ap (λ (o : Outcome (Option Session)). (o, (lookup_session one_session cheap "forged" []).1))
        found
    ∙ ap (λ (w : Log). (done (some session), w))
        (ap (λ x. x.1) (lookup_session_any one_session cheap "forged" "token" []))

abbrev forged : Cookie
forged = record { name = "main"; value = "forged"; max_age = pos 0 }

abbrev device_id : Log → String × Log
device_id w = ("device", w)

abbrev served : Outcome (Unit {0}) × Serving Log
served =
    current_session_middleware one_session cheap "main" (some forged) none device_id (pure tt)
      nobody

middleware_any_example : (served.0 ≡ done tt) × RunsAs one_session cheap session served.1
middleware_any_example =
    middleware_any one_session cheap "token" "main" "main" "forged" none device_id session nobody
      (lookup_session one_session cheap "token" []).1 found_by_token
