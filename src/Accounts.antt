-- ===== src/Accounts.antt =====
-- The operations of services/UserService.go and services/DeviceService.go over the repositories: a
-- new user, whether a user has a second factor, and the mail that verifies a device.
use holvit_backend.Prelude.{ℕ, String, str_append, [], Bool, false, Option, some}
use holvit_backend.Go.{Outcome, Go, Result, ◌>>=◌, pure}
use holvit_backend.Filter.{pos, any}
use holvit_backend.Sqlb.Query.{itoa}
use holvit_backend.Tokens.Store.{Json}
use holvit_backend.Repos.Database.{Database}
use holvit_backend.Repos.Filters.{BaseFilter, no_filter}
use holvit_backend.Repos.Users.{create_user}
use holvit_backend.Repos.Credentials.{DetailsJson, find_credentials}
use holvit_backend.Repos.Jobs.{SendMailJobDetails}
use holvit_backend.Jobs.{queue_job}

record CreateUserRequest : Type 0 where
  pub realm_id : ℕ
  pub username : String
  pub email : Option String

-- the mail with the code of a verification
abbrev verification_mail : (code : String) → SendMailJobDetails
verification_mail code = record {
  to = [];
  cc = [];
  bcc = [];
  subject = "Device Verification Code";
  body = str_append "<html><body>Enter the following code:<br/>" (str_append code "</body></html>");
}

-- the filter of one credential, on the first page of one row
abbrev one_row : BaseFilter
one_row = record no_filter {
  paging_info = some (record { page_size = pos 1; page_number = pos 1 });
}

module _ {W : Type 0} (db : Database W) where
  -- `CreateUser` of the service
  abbrev register_user : CreateUserRequest → Go W (Result ℕ)
  unfolding create_user
  register_user request = create_user db (record {
    id = 0;
    realm_id = request.realm_id;
    username = request.username;
    email = request.email;
    email_verified = false;
  })

  -- `HasTotpConfigured`
  unfoldable pub has_totp_configured : DetailsJson → (user_id : ℕ) → Go W Bool
  unfolding find_credentials
  has_totp_configured json user_id = do
    found ←
        find_credentials json db
          (record { base = one_row; user_id = some user_id; credential_type = some "totp" })
    pure (any found.values)

  -- `SendVerificationEmail`, over a random number below its argument; its result is the code and
  -- what runs after the transaction.
  abbrev send_verification_email :
      (json : Json SendMailJobDetails) (send_mail : SendMailJobDetails → Go W (Result (Unit {0})))
      (random_number : ℕ → W → ℕ × W)
      → Go W (String × ((commit : Bool) → Go W (Unit {0})))
  unfolding queue_job itoa
  send_verification_email json send_mail random_number = do
    code ← (λ w. let (n, w') = random_number 999999 w in (Outcome.done (itoa n), w'))
    handler ← queue_job db json send_mail (verification_mail code)
    pure (code, handler)
