-- ===== src/Webhook.antt =====
-- internal/githubapp/webhook: the fields of an event that the program reads, and the signature check.
-- HMAC-SHA256 is an argument. The numbers of pull requests are taken not to be negative.
use agent_frei_igi.Prelude.{
  ℕ, ◌+◌, ◌-◌, ◌*◌, Bool, false, ◌&&◌, Text, bytes, text_eq, is_empty, has_prefix, Option, none,
  some, List, [], ◌∷◌, drop, leb, if◌then◌else◌,
}

-- GitHubInstallationPayload with its GitHubAccountPayload
pub record InstallationPayload : Type 0 where
  pub id : ℕ
  pub account_login : Text
  pub account_type : Text

-- GitHubPRPayload
pub record PrPayload : Type 0 where
  pub number : ℕ
  pub state : Text
  pub draft : Bool
  pub head_sha : Text
  pub base_sha : Text
  pub assignees : List Text

-- GitHubIssuePayload; the link only tells whether the issue is a pull request.
pub record IssuePayload : Type 0 where
  pub number : ℕ
  pub is_pull_request : Bool

-- WebhookPayload
pub record WebhookPayload : Type 0 where
  pub action : Text
  pub pull_request : Option PrPayload
  pub issue : Option IssuePayload
  pub comment : Option Text
  pub repository : Option Text
  pub installation : Option InstallationPayload

-- encoding/hex, one digit
unfoldable pub hex_digit : ℕ → Option ℕ
hex_digit c =
    if leb 48 c && leb c 57
    then some (c - 48)
    else if leb 97 c && leb c 102
    then some (c - 87)
    else if leb 65 c && leb c 70
    then some (c - 55)
    else none

abbrev hex_cons : Option ℕ → Option ℕ → Option Text → Option Text
hex_cons (some a) (some b) (some rest) = some ((16 * a + b) ∷ rest)
hex_cons _ _ _ = none

-- hex.DecodeString
unfoldable pub hex_decode : Text → Option Text
unfolding hex_digit
hex_decode [] = some []
hex_decode (a ∷ []) = none
hex_decode (a ∷ b ∷ s) = hex_cons (hex_digit a) (hex_digit b) (hex_decode s)

abbrev is_signature : Text → Option Text → Bool
is_signature actual none = false
is_signature actual (some expected) = text_eq actual expected

-- VerifySignature
unfoldable pub verify_signature : (Text → Text → Text) → Text → Text → Text → Bool
unfolding hex_decode
verify_signature hmac_sha256 body header secret =
    if is_empty secret
    then false
    else if has_prefix header (bytes "sha256=")
    then is_signature (hmac_sha256 secret body) (hex_decode (drop 7 header))
    else false
