-- ===== src/Hashing/Rehash.antt =====
-- When a validated hash is said to need rehashing: utils/hashing.go.
use holvit_backend.Prelude.{String, ◌≡◌, ◌↔◌, Bool, true, false, some, arith}
use holvit_backend.Go.{done, Result, ok, err}
use holvit_backend.Hashing.{
  HashSettings, bcrypt, scrypt, argon2id, Digest, HashValidationResult, compare_settings,
  check_if_rehash_needed, validate_digest, validate_hash,
}

compare_settings_sound : (a b : HashSettings) → compare_settings a b ≡ done true → b ≡ a
unfolding compare_settings
compare_settings_sound (bcrypt c) (bcrypt d) h = ground arith
compare_settings_sound (scrypt r p n s o) (scrypt r' p' n' s' o') h = ground arith
compare_settings_sound (argon2id r p n s o) (argon2id r' p' n' s' o') h = ground arith
compare_settings_sound a b h = ground arith

pub compare_settings_refl : (a : HashSettings) → compare_settings a a ≡ done true
unfolding compare_settings
compare_settings_refl (bcrypt c) = ground arith
compare_settings_refl (scrypt r p n s o) = ground arith
compare_settings_refl (argon2id r p n s o) = ground arith

validate_digest_rehash :
    (digest : Digest) (hasher settings : HashSettings) (matched : Result Bool)
    (r : HashValidationResult)
    → digest.settings ≡ some settings
    → validate_digest digest hasher matched ≡ done r
    → (r.needs_rehash ≡ true) ↔ ((r.is_valid ≡ true) × (settings ≡ hasher))
unfolding check_if_rehash_needed
validate_digest_rehash digest hasher settings (err e) r same h = cc
validate_digest_rehash digest hasher settings (ok false) r same h =
    (λ e. ground arith, λ e. ground arith)
validate_digest_rehash digest hasher settings (ok true) r same h = (
  λ e. (ground arith, compare_settings_sound hasher settings (ground arith)),
  λ (valid, e). ground (arith, compare_settings_refl hasher),
)

-- A validation that returns says that the hash needs rehashing exactly where the password matched
-- and the stored hash already has the configured settings.
pub validate_hash_rehash :
    (decode : String → Result Digest) (plain hash : String) (hasher settings : HashSettings)
    (digest : Digest) (r : HashValidationResult)
    → decode hash ≡ ok digest
    → digest.settings ≡ some settings
    → validate_hash decode plain hash hasher ≡ done r
    → (r.needs_rehash ≡ true) ↔ ((r.is_valid ≡ true) × (settings ≡ hasher))
unfolding validate_hash
validate_hash_rehash decode plain hash hasher settings digest r decoded same h =
    validate_digest_rehash digest hasher settings (digest.matches plain) r same
      (rw (decoded, validate_hash) at h)
