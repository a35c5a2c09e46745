-- ===== src/Auth/Libraries.antt =====
-- What authentication relies on of the libraries: argon2, SHA-256, random bytes and JSON web tokens
-- (apps/api/src/auth/password.util.ts calls the first three). A random draw is numbered.
use abyte_tex.Base.{ℕ, ◌≡◌, Bool, true, Option, some}

pub data TokenType : Type 0 where
  access other : TokenType

pub record JwtAccessPayload : Type 0 where
  pub sub : ℕ
  pub token_type : TokenType

pub record Crypto : Type 0 where
  -- `argon2.hash` with a random salt, and `argon2.verify`.
  pub hash_password : ℕ → ℕ → ℕ
  pub verify_password : ℕ → ℕ → Bool
  pub verify-hash : (salt plain : ℕ) → verify_password (hash_password salt plain) plain ≡ true
  -- `randomBytes`, and the hexadecimal digest of SHA-256.
  pub random_bytes : ℕ → ℕ
  pub hash_token : ℕ → ℕ

-- Access tokens while they have not expired: what was signed verifies.
pub record Jwt : Type 0 where
  pub sign : JwtAccessPayload → ℕ
  pub verify : ℕ → Option JwtAccessPayload
  pub verify-sign : (payload : JwtAccessPayload) → verify (sign payload) ≡ some payload
