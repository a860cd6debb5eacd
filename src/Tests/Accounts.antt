-- ===== src/Tests/Accounts.antt =====
-- Accounts in a database that answers with one credential, or with none.
use holvit_backend.Prelude.{[], ◌∷◌, true, false, ◌≡◌, refl, none, some}
use holvit_backend.Go.{done}
use holvit_backend.Filter.{pos}
use holvit_backend.Auth.Env.{totp_details}
use holvit_backend.Repos.Database.{int, uuid, text, bytes}
use holvit_backend.Repos.Credentials.{DetailsJson, find_credentials}
use holvit_backend.Accounts.{has_totp_configured}
use holvit_backend.Sqlb.Build.{build_select}
use holvit_backend.Sqlb.Writer.{
  build_with, write, build_fragments, build_where, append_param, build_having,
}
use holvit_backend.Tests.Store.{recorder}

abbrev json : DetailsJson
json = record {
  marshal = λ d. "";
  unmarshal_password = λ s. none;
  unmarshal_totp = λ s. some (totp_details "phone" s);
}

configured :
    (has_totp_configured
      (recorder ((int (pos 1) ∷ uuid 5 ∷ uuid 7 ∷ text "totp" ∷ bytes "seed" ∷ []) ∷ []))
      json
      7
      []).0
    ≡ done true
unfolding has_totp_configured find_credentials build_select build_with write build_fragments
    build_where append_param build_having
configured = refl

not_configured : (has_totp_configured (recorder []) json 7 []).0 ≡ done false
unfolding has_totp_configured find_credentials build_select build_with write build_fragments
    build_where append_param build_having
not_configured = refl
