-- ===== src/Hashing.antt =====
-- Password hashes: utils/hashing.go. The library `go-crypt` is a parameter: what its decoder
-- makes of a text is a digest, which has parameters and matches some passwords.
pub mod Rehash
use holvit_backend.Prelude.{ℕ, String, str_eq, Bool, true, false, ◌&&◌, Option, none, some, ◌==◌}
use holvit_backend.Go.{Outcome, done, panicked, plain_error, Result, ok, err}

-- `BcryptHashSettings`, `ScryptHashSettings`, `Argon2idHashSettings`
pub data HashSettings : Type 0 where
  bcrypt : (cost : ℕ) → HashSettings
  scrypt : (r parallelism log_n salt_length output_length : ℕ) → HashSettings
  argon2id : (memory_cost ops_cost parallelism output_length salt_length : ℕ) → HashSettings

-- `algorithm.Digest`: the parameters, where it is of one of the three types, and `MatchAdvanced`
pub record Digest : Type 0 where
  pub settings : Option HashSettings
  pub matches : String → Result Bool

pub record HashValidationResult : Type 0 where
  pub is_valid : Bool
  pub needs_rehash : Bool

-- `CompareSettings` of the hasher that `MakeHasher` makes from the first argument
pub compare_settings : HashSettings → HashSettings → Outcome Bool
compare_settings (bcrypt c) (bcrypt c') = done (c == c')
compare_settings (scrypt r p n s o) (scrypt r' p' n' s' o') =
    done (r == r' && (p == p' && (n == n' && (s == s' && o == o'))))
compare_settings (argon2id m t p o s) (argon2id m' t' p' o' s') =
    done (m == m' && (t == t' && (p == p' && (o == o' && s == s'))))
compare_settings (bcrypt c) _ = panicked (plain_error "expected settings to be *BcryptHashSettings")
compare_settings (scrypt r p n s o) _ =
    panicked (plain_error "expected settings to be *ScryptHashSettings")
compare_settings (argon2id m t p o s) _ =
    panicked (plain_error "expected settings to be *Argon2idHashSettings")

-- `checkIfRehashNeeded`
unfoldable pub check_if_rehash_needed : Digest → HashSettings → Outcome Bool
unfolding compare_settings
check_if_rehash_needed digest hasher = elim digest.settings [
  | none ↦ panicked (plain_error "unsupported digest type")
  | some settings ↦ compare_settings hasher settings
]

abbrev with_rehash : Outcome Bool → Outcome HashValidationResult
with_rehash (panicked e) = panicked e
with_rehash (done b) = done (record { is_valid = true; needs_rehash = b })

abbrev pub validate_digest : Digest → HashSettings → Result Bool → Outcome HashValidationResult
unfolding check_if_rehash_needed
validate_digest digest hasher (err e) = panicked e
validate_digest digest hasher (ok false) = done (record { is_valid = false; needs_rehash = false })
validate_digest digest hasher (ok true) = with_rehash (check_if_rehash_needed digest hasher)

-- `ValidateHash`, with the decoder's result for the stored hash
unfoldable pub validate_hash :
    (decode : String → Result Digest)
    → String
    → String
    → HashSettings
    → Outcome HashValidationResult
unfolding check_if_rehash_needed
validate_hash decode plain hash hasher = elim (decode hash) [
  | err e ↦ panicked e
  | ok digest ↦ validate_digest digest hasher (digest.matches plain)
]
