-- ===== src/Http/Redirect/Parameters.antt =====
-- The parameters of the redirect (internal/httpserver/oauth.go), as their reader takes them apart.
use agent_frei_igi.Prelude.{
  ℕ, ◌+◌, ◌-◌, ◌*◌, ◌/◌, ◌%◌, ◌<◌, ◌≡◌, refl, ap, ◌∙◌, true, false, ◌&&◌, Text, bytes, Option, none,
  some, List, [], ◌∷◌, ◌++◌, leb, ◌==◌, if◌then◌else◌, split, split-append, split-whole, lacks,
  arith, Bool-cases, inl, inr,
}
use agent_frei_igi.Base64.RoundTrip.{AreBytes}
use agent_frei_igi.Config.{Config}
use agent_frei_igi.Http.Redirect.{is_unreserved, hex_digit, query_escape, authorize_url}

-- The value of a hexadecimal digit in upper case.
hex_value : ℕ → Option ℕ
hex_value c =
    if leb b'0' c && leb c b'9'
    then some (c - b'0')
    else if leb b'A' c && leb c b'F'
    then some (c - b'A' + 10)
    else none

abbrev read_escape : Option ℕ → Option ℕ → Option Text → Option Text
read_escape (some h) (some l) (some rest) = some ((h * 16 + l) ∷ rest)
read_escape _ _ _ = none

abbrev read_byte : ℕ → Option Text → Option Text
read_byte c none = none
read_byte c (some rest) = some (c ∷ rest)

-- Where a reader stands: before a byte, or before the first or the second digit of an escape.
pub data Reading : Type 0 where
  plain first : Reading
  second : Option ℕ → Reading

abbrev after : ℕ → Reading
after c = if c == b'%' then first else plain

-- url.QueryUnescape on what QueryEscape writes.
unfoldable pub query_unescape : Reading → Text → Option Text
unfolding hex_value
query_unescape plain [] = some []
query_unescape plain (c ∷ s) =
    let rest = query_unescape (after c) s in
    if c == b'%' then rest else read_byte (if c == b'+' then b' ' else c) rest
query_unescape first [] = none
query_unescape first (c ∷ s) = query_unescape (second (hex_value c)) s
query_unescape (second h) [] = none
query_unescape (second h) (c ∷ s) = read_escape h (hex_value c) (query_unescape plain s)

hex_value-hex_digit : (n : ℕ) → n < 16 → hex_value (hex_digit n) ≡ some n
unfolding hex_value hex_digit
hex_value-hex_digit n h = ground arith

unescape-kept :
    (c : ℕ) (s : Text) {t : Text}
    → is_unreserved c ≡ true
    → query_unescape plain s ≡ some t
    → query_unescape plain (c ∷ s) ≡ some (c ∷ t)
unfolding query_unescape is_unreserved
unescape-kept c s kept rest = ground arith

unescape-escaped :
    (c : ℕ) (s : Text) {t : Text}
    → c < 256
    → query_unescape plain s ≡ some t
    → query_unescape plain (b'%' ∷ hex_digit (c / 16) ∷ hex_digit (c % 16) ∷ s) ≡ some (c ∷ t)
unfolding query_unescape
unescape-escaped c s {t} h rest =
    let whole : c / 16 * 16 + c % 16 ≡ c = omega arith in
    rw
      (
        hex_value-hex_digit (c / 16) (omega arith),
        hex_value-hex_digit (c % 16) (omega arith),
        rest,
        whole,
      )
      refl

unescape-nil : query_unescape plain [] ≡ some []
unfolding query_unescape
unescape-nil = refl

unescape-space :
    (c : ℕ) (s : Text) {t : Text}
    → (c == b' ') ≡ true
    → query_unescape plain s ≡ some t
    → query_unescape plain (b'+' ∷ s) ≡ some (c ∷ t)
unfolding query_unescape
unescape-space c s {t} space rest =
    let is_space : c ≡ b' ' = ground arith in rw (rest, is_space) refl

query_unescape-escape : (s : Text) → AreBytes s → query_unescape plain (query_escape s) ≡ some s
unfolding query_escape
query_unescape-escape [] h = unescape-nil
query_unescape-escape (c ∷ s) h = elim (Bool-cases (is_unreserved c)) [
  | inl kept ↦ rw kept (unescape-kept c (query_escape s) kept (query_unescape-escape s h.1))
  | inr other ↦ elim (Bool-cases (c == b' ')) [
    | inl space ↦
        rw (other, space) (unescape-space c (query_escape s) space (query_unescape-escape s h.1))
    | inr mark ↦
        rw (other, mark) (unescape-escaped c (query_escape s) h.0 (query_unescape-escape s h.1))
  ]
]

hex_digit-visible : (n : ℕ) → n < 16 → (hex_digit n == b'&') ≡ false
unfolding hex_digit
hex_digit-visible n h = ground arith

query_escape-lacks : (s : Text) → AreBytes s → lacks b'&' (query_escape s) ≡ true
unfolding query_escape lacks is_unreserved
query_escape-lacks [] h = refl
query_escape-lacks (c ∷ s) h =
    ground (arith, query_escape-lacks s h.1, hex_digit-visible (c / 16), hex_digit-visible (c % 16))

-- What a reader of the URL finds between its marks, before the values are read.
pub record Reads (cfg : Config) (state : Text) : Type 0 where
  pub parts :
      split b'&' (authorize_url cfg state)
      ≡ (bytes "https://github.com/login/oauth/authorize?client_id="
          ++ query_escape cfg.github_oauth_client_id)
        ∷ (bytes "redirect_uri=" ++ query_escape cfg.github_oauth_redirect_url)
        ∷ (bytes "scope=" ++ query_escape cfg.github_oauth_scopes)
        ∷ (bytes "state=" ++ query_escape state)
        ∷ []
  pub client_id :
      query_unescape plain (query_escape cfg.github_oauth_client_id)
      ≡ some cfg.github_oauth_client_id
  pub redirect_url :
      query_unescape plain (query_escape cfg.github_oauth_redirect_url)
      ≡ some cfg.github_oauth_redirect_url
  pub scopes :
      query_unescape plain (query_escape cfg.github_oauth_scopes) ≡ some cfg.github_oauth_scopes
  pub same_state : query_unescape plain (query_escape state) ≡ some state

-- Whatever bytes the settings and the state have, the redirect has exactly its four parameters, and each
-- reads back as it was given.
pub authorize_url-Reads :
    (cfg : Config) (state : Text)
    → AreBytes cfg.github_oauth_client_id
    → AreBytes cfg.github_oauth_redirect_url
    → AreBytes cfg.github_oauth_scopes
    → AreBytes state
    → Reads cfg state
unfolding authorize_url lacks
authorize_url-Reads cfg state hc hr hs ht =
    let id =
      bytes "https://github.com/login/oauth/authorize?client_id="
      ++ query_escape cfg.github_oauth_client_id in
    let uri = bytes "redirect_uri=" ++ query_escape cfg.github_oauth_redirect_url in
    let scope = bytes "scope=" ++ query_escape cfg.github_oauth_scopes in
    let last = bytes "state=" ++ query_escape state in
    record {
      parts =
          split-append b'&' id (uri ++ (b'&' ∷ (scope ++ (b'&' ∷ last))))
            (query_escape-lacks cfg.github_oauth_client_id hc)
          ∙ ap (λ (r : List Text). id ∷ r)
              (split-append b'&' uri (scope ++ (b'&' ∷ last))
                  (query_escape-lacks cfg.github_oauth_redirect_url hr)
                ∙ ap (λ (r : List Text). uri ∷ r)
                    (split-append b'&' scope last (query_escape-lacks cfg.github_oauth_scopes hs)
                      ∙ ap (λ (r : List Text). scope ∷ r)
                          (split-whole b'&' last (query_escape-lacks state ht))));
      client_id = query_unescape-escape cfg.github_oauth_client_id hc;
      redirect_url = query_unescape-escape cfg.github_oauth_redirect_url hr;
      scopes = query_unescape-escape cfg.github_oauth_scopes hs;
      same_state = query_unescape-escape state ht;
    }
