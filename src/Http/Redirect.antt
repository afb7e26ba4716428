-- ===== src/Http/Redirect.antt =====
-- internal/httpserver/oauth.go: the URL that oauthStartHandler redirects to, with url.QueryEscape.
pub mod Parameters
use agent_frei_igi.Prelude.{
  ℕ, ◌+◌, ◌-◌, ◌*◌, ◌/◌, ◌%◌, Bool, ◌&&◌, ◌||◌, Text, bytes, Option, none, some, [], ◌∷◌, ◌++◌, ltb,
  leb, ◌==◌, if◌then◌else◌,
}
use agent_frei_igi.Config.{Config}

-- Letters, digits and the marks that are kept.
unfoldable pub is_unreserved : ℕ → Bool
is_unreserved c =
    (leb b'A' c && leb c b'Z')
    || (leb b'a' c && leb c b'z')
    || (leb b'0' c && leb c b'9')
    || c == b'-'
    || c == b'_'
    || c == b'.'
    || c == b'~'

-- A hexadecimal digit, in upper case
unfoldable pub hex_digit : ℕ → ℕ
hex_digit n = if ltb n 10 then n + b'0' else n - 10 + b'A'

abbrev pub escape_byte : ℕ → Text → Text
escape_byte c rest =
    if is_unreserved c
    then c ∷ rest
    else if c == b' '
    then b'+' ∷ rest
    else b'%' ∷ hex_digit (c / 16) ∷ hex_digit (c % 16) ∷ rest

-- url.QueryEscape
unfoldable pub query_escape : Text → Text
unfolding is_unreserved hex_digit
query_escape [] = []
query_escape (c ∷ s) = escape_byte c (query_escape s)

-- Step 5 of oauthStartHandler
unfoldable pub authorize_url : Config → Text → Text
authorize_url cfg state =
    bytes "https://github.com/login/oauth/authorize?client_id="
    ++ (query_escape cfg.github_oauth_client_id
        ++ (bytes "&redirect_uri="
            ++ (query_escape cfg.github_oauth_redirect_url
                ++ (bytes "&scope="
                    ++ (query_escape cfg.github_oauth_scopes
                        ++ (bytes "&state=" ++ query_escape state))))))
