-- ===== src/GithubApp.antt =====
-- internal/githubapp/client.go: the client of GitHub's REST API. The replies of the API are a list
-- that the requests consume; the requests to create a review are recorded.
pub mod Links
pub mod Pages
pub mod Jwt
pub mod Cache
use agent_frei_igi.Prelude.{
  ℕ, ◌+◌, Text, bytes, trim_suffix, Bool, true, false, Option, none, some, List, [], ◌∷◌, ◌++◌, map,
  Result, ok, err, Error, message, wrapped, Action, is_empty, ltb, ◌==◌, ◌||◌, if◌then◌else◌,
  wrapping, wrap,
}
use agent_frei_igi.Domain.{ChangedFile}
use Links.{parse_next_page_url}

-- What a request gets: an error of the transport, or a status and a body, decoded or not.
pub data Reply (A : Type 0) : Type 0 where
  no_response : Error → Reply A
  response : ℕ → Result A → Reply A

-- TokenCacheEntry
pub record TokenCacheEntry : Type 0 where
  pub token : Text
  pub expires_at : ℕ

-- GitHubFile
pub record GitHubFile : Type 0 where
  pub filename : Text
  pub status : Text
  pub previous_filename : Text
  pub patch : Text

-- A page of files, and the Link header.
pub record Page : Type 0 where
  pub files : List GitHubFile
  pub link : Text

-- ReviewComment and ReviewRequest
pub record ReviewComment : Type 0 where
  pub path : Text
  pub line : ℕ
  pub side : Text
  pub body : Text

pub record ReviewRequest : Type 0 where
  pub commit_id : Text
  pub body : Text
  pub event : Text
  pub comments : List ReviewComment

-- A request to create a review, as it was sent.
pub record Post : Type 0 where
  pub token : Text
  pub owner : Text
  pub repo : Text
  pub pr_number : ℕ
  pub request : ReviewRequest

-- `Client`, with the clock and the replies to come. `jwt` is what GenerateAppJWT gives.
pub record Client : Type 0 where
  pub now : ℕ
  pub jwt : Result Text
  pub token_cache : List (ℕ × TokenCacheEntry)
  pub token_replies : List (Reply TokenCacheEntry)
  pub page_replies : List (Reply Page)
  pub review_replies : List (Reply ℕ)
  pub posts : List Post

-- NewClient: the base of every URL.
unfoldable pub base_url : Text → Text
base_url url =
    trim_suffix (if is_empty url then bytes "https://api.github.com" else url) (bytes "/")

unfoldable pub cached : ℕ → List (ℕ × TokenCacheEntry) → Option TokenCacheEntry
cached id [] = none
cached id ((k, e) ∷ cache) = if k == id then some e else cached id cache

-- time.Minute
abbrev pub minute : ℕ
minute = 60000000

abbrev no_reply : Error
no_reply = message (bytes "EOF")

abbrev token_of : Reply TokenCacheEntry → Result TokenCacheEntry
token_of (no_response e) = err (wrapped (bytes "http request failed") e)
token_of (response status body) =
    if status == 201
    then wrap (bytes "failed to decode token response") body
    else err (message (bytes "failed to fetch installation token"))

-- The request of fetchInstallationToken, once there is a JWT.
abbrev ask_token : List (Reply TokenCacheEntry) → Action Client TokenCacheEntry
ask_token [] c = (err (wrapped (bytes "http request failed") no_reply), c)
ask_token (r ∷ rs) c = (token_of r, record c { token_replies = rs })

abbrev with_jwt : Result Text → Action Client TokenCacheEntry
with_jwt (err e) c = (err (wrapped (bytes "failed to generate App JWT") e), c)
with_jwt (ok jwt) c = ask_token c.token_replies c

-- fetchInstallationToken
unfoldable pub fetch_installation_token : Action Client TokenCacheEntry
fetch_installation_token c = with_jwt c.jwt c

abbrev pub remember : ℕ → Result TokenCacheEntry × Client → Result Text × Client
remember id (err e, c) = (err e, c)
remember id (ok entry, c) = (ok entry.token, record c { token_cache = (id, entry) ∷ c.token_cache })

-- `exists && time.Now().Add(1*time.Minute).Before(entry.ExpiresAt)`
abbrev pub fresh_entry : ℕ → Option TokenCacheEntry → Option Text
fresh_entry now none = none
fresh_entry now (some e) = if ltb (now + minute) e.expires_at then some e.token else none

abbrev pub cached_or_fetched : ℕ → Option Text → Action Client Text
cached_or_fetched id (some token) c = (ok token, c)
cached_or_fetched id none c = remember id (fetch_installation_token c)

-- GetInstallationToken
unfoldable pub get_installation_token : ℕ → Action Client Text
unfolding fetch_installation_token cached
get_installation_token id c = cached_or_fetched id (fresh_entry c.now (cached id c.token_cache)) c

abbrev changed_file : GitHubFile → ChangedFile
changed_file f = record {
  path = f.filename;
  status = f.status;
  previous_path = f.previous_filename;
  language = [];
  patch = f.patch;
  omitted = false;
  omit_reason = [];
}

abbrev page_of : Reply Page → Result Page
page_of (no_response e) = err (wrapped (bytes "http files request failed") e)
page_of (response status body) =
    if status == 200
    then wrap (bytes "failed to decode PR files response") body
    else err (message (bytes "failed to list PR files"))

abbrev pub Pages : Type 0
Pages = Result (List ChangedFile) × List (Reply Page)

-- append(files, ...)
abbrev pub add_page : Page → Pages → Pages
add_page page (err e, rs) = (err e, rs)
add_page page (ok files, rs) = (ok (map changed_file page.files ++ files), rs)

abbrev pub with_page : Result Page → List (Reply Page) → (Page → Pages) → Pages
with_page (err e) rs follow = (err e, rs)
with_page (ok page) rs follow = add_page page (follow page)

-- The loop of ListPRFiles; each round consumes a reply, so it ends when the server's replies do.
unfoldable pub list_pages : Text → List (Reply Page) → Pages
unfolding parse_next_page_url
list_pages [] rs = (ok [], rs)
list_pages (u ∷ url) [] = (err (wrapped (bytes "http files request failed") no_reply), [])
list_pages (u ∷ url) (r ∷ rs) =
    with_page (page_of r) rs (λ page. list_pages (parse_next_page_url page.link) rs)

-- ListPRFiles, from the URL of the first page
unfoldable pub list_pr_files : Text → Action Client (List ChangedFile)
unfolding list_pages
list_pr_files first_url c =
    let (r, rs) = list_pages first_url c.page_replies in (r, record c { page_replies = rs })

abbrev review_of : Reply ℕ → Result ℕ
review_of (no_response e) = err (wrapped (bytes "http review request failed") e)
review_of (response status body) =
    if status == 201 || status == 200
    then wrap (bytes "failed to decode review response") body
    else err (message (bytes "failed to create PR review"))

abbrev answered : List (Reply ℕ) → Action Client ℕ
answered [] c = (err (wrapped (bytes "http review request failed") no_reply), c)
answered (r ∷ rs) c = (review_of r, record c { review_replies = rs })

-- CreatePullReview
unfoldable pub create_pull_review : Text → Text → Text → ℕ → ReviewRequest → Action Client ℕ
create_pull_review token owner repo pr req c = answered c.review_replies (record c {
  posts =
      record { token = token; owner = owner; repo = repo; pr_number = pr; request = req } ∷ c.posts;
})
