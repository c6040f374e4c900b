-- ===== src/Invitations/Token.antt =====
-- The token of an invitation: src/invitations/token.ts. The functions of node:crypto are parameters:
-- the hexadecimal SHA-256 of a text, and the base64url HMAC-SHA-256 of a text under a secret.
use taller_mecario_b.Base.{
  ℕ, String, ◌<>◌, Bool, ◌&&◌, ◌||◌, List, Result, ok, err, all, length, code_points, leb, ◌==◌,
  nat_key, string_key, if◌then◌else◌,
}

pub record Crypto : Type 0 where
  pub sha256_hex : String → String
  pub hmac_base64url : List ℕ → String → String

-- The secret is a buffer of bytes.
pub record TokenKey : Type 0 where
  pub version : ℕ
  pub secret : List ℕ

pub data TokenError : Type 0 where
  token_secret_invalid token_nonce_invalid : TokenError

abbrev pub min_token_secret_bytes : ℕ
min_token_secret_bytes = 32

abbrev pub token_key_version : ℕ
token_key_version = 1

unfoldable pub create_token_key : List ℕ → ℕ → Result TokenError TokenKey
create_token_key secret version =
    if leb min_token_secret_bytes (length secret)
    then ok (record { version = version; secret = secret })
    else err token_secret_invalid

abbrev is_between : ℕ → ℕ → ℕ → Bool
is_between low high c = leb low c && leb c high

-- The class `[A-Za-z0-9_-]`.
abbrev pub is_base64url : ℕ → Bool
is_base64url c =
    is_between 65 90 c || is_between 97 122 c || is_between 48 57 c || c == 95 || c == 45

-- `INVITATION_TOKEN_PATTERN`.
abbrev pub is_token_format : String → Bool
is_token_format value = length (code_points value) == 43 && all is_base64url (code_points value)

-- `TOKEN_HASH_PATTERN`.
abbrev pub is_token_hash : String → Bool
is_token_hash value =
    length (code_points value) == 64
    && all (λ c. is_between 48 57 c || is_between 97 102 c) (code_points value)

abbrev pub token_domain : String
token_domain = "tallermecario.membership_invitation.token.v1"

abbrev pub separator : String
separator = "\0"

-- `deriveInvitationToken`; the test of its nonce is `isInvitationTokenNonce`.
unfoldable pub derive_token : Crypto → TokenKey → String → String → Result TokenError String
derive_token crypto key invitation_id nonce =
    if is_token_format nonce
    then ok (
        crypto.hmac_base64url key.secret
          (token_domain <> (separator <> (invitation_id <> (separator <> nonce)))))
    else err token_nonce_invalid

-- `invitationTokenMatchesHash`.
unfoldable pub token_matches_hash : Crypto → String → String → Bool
token_matches_hash crypto token stored =
    is_token_format token && is_token_hash stored && crypto.sha256_hex token == stored
