-- ===== src/Auth.antt =====
-- deployables/backend/internal/auth/auth.go: passwords, tokens and device signatures, over the
-- cryptography of the libraries.
use aime.Base.{ℕ, Bool, false, not, ◌||◌, ◌==◌, if◌then◌else◌}
use aime.Base.Lists.{length}
use aime.Base.Bytes.{Bytes, bytes, bytes_eq}

-- SHA-256, Argon2id at the package's constants, and ML-DSA-65: decoding a public key, and
-- verification of a message and a context under a key.
pub record Crypto : Type 0 where
  pub sha256 : Bytes → Bytes
  pub argon2 : Bytes → Bytes → Bytes
  pub public_key_size : ℕ
  pub unmarshals : Bytes → Bool
  pub mldsa_verify : Bytes → Bytes → Bytes → Bytes → Bool

pub data SignatureError : Type 0 where
  invalid_key invalid_signature : SignatureError

pub data Verdict : Type 0 where
  accepted : Verdict
  rejected : SignatureError → Verdict

abbrev pub challenge_context : Bytes
challenge_context = bytes "aime-auth-v1"

abbrev pub argon_key_len : ℕ
argon_key_len = 32

abbrev pub argon_salt_len : ℕ
argon_salt_len = 16

module _ (crypto : Crypto) where
  open crypto use {sha256, argon2, public_key_size, unmarshals, mldsa_verify}

  unfoldable pub verify_device_signature : Bytes → Bytes → Bytes → Verdict
  verify_device_signature key nonce sig =
      if not (length key == public_key_size)
      then rejected invalid_key
      else if not (unmarshals key)
      then rejected invalid_key
      else if not (mldsa_verify key nonce challenge_context sig)
      then rejected invalid_signature
      else accepted

  -- The hash of `HashPassword` under the salt that it drew.
  unfoldable pub hash_password : Bytes → Bytes → Bytes
  hash_password password salt = argon2 password salt

  unfoldable pub verify_password : Bytes → Bytes → Bytes → Bool
  verify_password password hash salt =
      if not (length salt == argon_salt_len) || not (length hash == argon_key_len)
      then false
      else bytes_eq hash (argon2 password salt)

  unfoldable pub hash_token : Bytes → Bytes
  hash_token token = sha256 token
