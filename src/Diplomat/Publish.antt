-- ===== src/Diplomat/Publish.antt =====
-- internal/diplomat/publish.go. The text of an error leaves out ids and logins. Each call may fail: a
-- statement by the moments of the database, a request by the replies of GitHub.
pub mod Quiet
pub mod Grant
pub mod Steps
pub mod Parts
pub mod Once
use agent_frei_igi.Prelude.{
  ℕ, Bool, true, false, Text, bytes, is_empty, take, Option, none, some, List, [], ◌∷◌, ◌++◌,
  Result, ok, err, Error, message, wrapped, error_text, is_publication_exists, Action, pure, fail,
  wrapping, wrap, continue, ◌>>=◌, ◌>>◌, if◌then◌else◌,
}
use agent_frei_igi.Domain.{
  GitHubAccount, Installation, ReviewJob, ReviewPublication, PublicationState, pending_github,
  published, failed_publication, PublisherKind, user, app_bot,
}
use agent_frei_igi.Store.Db
use agent_frei_igi.Store.Publishing
use agent_frei_igi.GithubApp.{ReviewRequest, get_installation_token, create_pull_review}
use agent_frei_igi.Critic.{ReviewResult}
use agent_frei_igi.World.{World, on_db, on_github}
use agent_frei_igi.Detective.Build.{owner_and_repo}
use agent_frei_igi.Diplomat.Map.{map_result_to_request}

-- The settings that Publish reads. `decrypt` is ParseTokenKey followed by crypto.Decrypt, and
-- `job_name` is `job.ID.String()`.
pub record PublisherConfig : Type 0 where
  pub publish_comments : Bool
  pub review_signature : Bool
  pub app_bot_fallback : Bool
  pub token_key : Result Text
  pub decrypt : Text → Text → Result Text
  pub job_name : ℕ → Text

-- What is answered where the slot of a dry run is taken.
abbrev pub dry_taken : Error → Result (Option ReviewPublication) → Result (Unit {0})
dry_taken e (ok (some pub')) = ok tt
dry_taken e _ = err (wrapped (bytes "failed to register dry-run publication") e)

unfoldable pub dry_existing : ReviewJob → Error → Action World (Unit {0})
dry_existing job e w =
    let (r, w') = on_db (Publishing.get_publication job.id) w in (dry_taken e r, w')

abbrev pub dry_begun : ReviewJob → Result ReviewPublication → Action World (Unit {0})
dry_begun job (ok _) =
    wrapping (bytes "failed to finalize dry-run publication")
      (on_db (Publishing.finalize_publication job.id none true))
dry_begun job (err e) =
    if is_publication_exists e
    then dry_existing job e
    else fail (wrapped (bytes "failed to register dry-run publication") e)

-- 1. Dry-run mode
unfoldable pub publish_dry : ReviewJob → Action World (Unit {0})
unfolding dry_existing
publish_dry job w =
    let (r, w') = on_db (Publishing.begin_publication job.id none user) w in dry_begun job r w'

-- The user's token: none, or its text and account, or the error of decrypting it.
pub data UserToken : Type 0 where
  no_token : UserToken
  usable : Text → ℕ → UserToken
  undecryptable : Error → UserToken

abbrev pub account_or_none : Result (Option GitHubAccount) → Option GitHubAccount
account_or_none (ok a) = a
account_or_none (err e) = none

-- A lookup that fails is logged, and counts as no account.
unfoldable pub find_account : Text → Action World (Option GitHubAccount)
find_account login w =
    let (r, w') = on_db (Publishing.get_account_by_login login) w in (ok (account_or_none r), w')

abbrev pub look_up : Option Text → Action World (Option GitHubAccount)
look_up none = pure none
look_up (some login) = if is_empty login then pure none else find_account login

abbrev pub decrypted_token : ℕ → Result Text → UserToken
decrypted_token account (ok t) = usable t account
decrypted_token account (err e) = undecryptable e

abbrev pub with_key : PublisherConfig → GitHubAccount → Result Text → Result UserToken
with_key cfg a (err e) = err (wrapped (bytes "cryptographic key setup failed") e)
with_key cfg a (ok key) = ok (decrypted_token a.id (cfg.decrypt key a.access_token_enc))

abbrev pub token_of_account : PublisherConfig → Option GitHubAccount → Result UserToken
token_of_account cfg none = ok no_token
token_of_account cfg (some a) =
    if is_empty a.access_token_enc then ok no_token else with_key cfg a cfg.token_key

-- 2. Token resolution, for the user
unfoldable pub user_token : PublisherConfig → ReviewJob → Action World UserToken
unfolding find_account
user_token cfg job = do
  account ← look_up job.publisher_login
  λ w. (token_of_account cfg account, w)

-- What a review is published with.
pub record Credentials : Type 0 where
  pub token : Text
  pub account : Option ℕ
  pub kind : PublisherKind

abbrev pub present : Option Installation → Action World Installation
present none = fail (message (bytes "installation not found in database"))
present (some inst) = pure inst

-- The account is kept if a token decrypted to the empty text.
unfoldable pub fall_back : Option ℕ → ReviewJob → Action World Credentials
fall_back account job = do
  row ←
      wrapping (bytes "failed to load installation")
        (on_db (Db.get_installation job.installation_id))
  inst ← present row
  token ←
      wrapping (bytes "failed to get installation access token for fallback")
        (on_github (get_installation_token inst.github_installation_id))
  pure (record { token = token; account = account; kind = app_bot })

abbrev pub unavailable : UserToken → Error
unavailable (undecryptable e) =
    wrapped (bytes "failed to decrypt user token and App fallback is disabled") e
unavailable _ = message (bytes "user token is missing or empty, and App fallback is disabled")

abbrev pub account_of : UserToken → Option ℕ
account_of (usable t account) = some account
account_of _ = none

abbrev pub text_of : UserToken → Text
text_of (usable t account) = t
text_of _ = []

-- The fallback to the installation's token
unfoldable pub resolve : PublisherConfig → ReviewJob → UserToken → Action World Credentials
unfolding fall_back
resolve cfg job t =
    if is_empty (text_of t)
    then (if cfg.app_bot_fallback then fall_back (account_of t) job else fail (unavailable t))
    else pure (record { token = text_of t; account = account_of t; kind = user })

abbrev pub no_op_or_reserved : Error → ReviewPublication → Result (Unit {0})
no_op_or_reserved e p = elim p.state [
  | pending_github ↦ ok tt
  | published ↦ ok tt
  | failed_publication ↦ err (wrapped (bytes "failed to reserve publication slot") e)
]

-- What is answered where the slot is taken.
abbrev pub taken : Error → Result (Option ReviewPublication) → Result (Unit {0})
taken e (err g) = err (wrapped (bytes "failed to load existing publication") g)
taken e (ok none) = err (wrapped (bytes "failed to reserve publication slot") e)
taken e (ok (some p)) = no_op_or_reserved e p

-- 5. and 6. The review is created, and the publication finalised or failed.
abbrev pub created : ReviewJob → Result ℕ → Action World (Unit {0})
created job (ok review) w =
    wrapping (bytes "failed to finalize publication in DB")
      (on_db (Publishing.finalize_publication job.id (some review) false)) w
created job (err e) w =
    let (r, w') = on_db (Publishing.fail_publication job.id (error_text e)) w in
    (err (wrapped (bytes "failed to create PR review on GitHub") e), w')

-- 4. to 6., for the owner who reserved the slot
abbrev pub post_review :
    PublisherConfig
    → ReviewJob
    → ReviewResult
    → Credentials
    → Option (Text × Text)
    → Action World (Unit {0})
post_review cfg job result cred none w =
    let (r, w') =
      on_db (Publishing.fail_publication job.id (bytes "invalid repository name format")) w in
    (err (message (bytes "invalid repository format")), w')
post_review cfg job result cred (some (owner, repo)) w =
    let (r, w') =
      on_github
        (create_pull_review cred.token owner repo job.pr_number (
          map_result_to_request result job.head_sha cfg.review_signature
            (take 8 (cfg.job_name job.id))))
        w in
    created job r w'

unfoldable pub existing : ReviewJob → Error → Action World (Unit {0})
existing job e w = let (r, w') = on_db (Publishing.get_publication job.id) w in (taken e r, w')

-- 3. Begin publication (fencing)
abbrev pub begun :
    PublisherConfig
    → ReviewJob
    → ReviewResult
    → Credentials
    → Result ReviewPublication
    → Action World (Unit {0})
begun cfg job result cred (ok _) =
    post_review cfg job result cred (owner_and_repo job.repo_full_name)
begun cfg job result cred (err e) =
    if is_publication_exists e
    then existing job e
    else fail (wrapped (bytes "failed to reserve publication slot") e)

unfoldable pub reserve_and_post :
    PublisherConfig → ReviewJob → ReviewResult → Credentials → Action World (Unit {0})
unfolding existing
reserve_and_post cfg job result cred w =
    let (r, w') = on_db (Publishing.begin_publication job.id cred.account cred.kind) w in
    begun cfg job result cred r w'

-- Publish
unfoldable pub publish : PublisherConfig → ReviewJob → ReviewResult → Action World (Unit {0})
unfolding publish_dry user_token resolve reserve_and_post
publish cfg job result =
    if cfg.publish_comments
    then (do t ← user_token cfg job; cred ← resolve cfg job t; reserve_and_post cfg job result cred)
    else publish_dry job
