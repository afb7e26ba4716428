-- ===== src/Queue/Events.antt =====
-- internal/queue/enqueue.go: the handlers of the two kinds of events on pull requests, and HandleEvent.
use agent_frei_igi.Prelude.{[], Text, bytes, text_eq, Option, some, is_some, if◌then◌else◌}
use agent_frei_igi.Domain.{Installation}
use agent_frei_igi.Webhook.{InstallationPayload, PrPayload, IssuePayload, WebhookPayload}
use agent_frei_igi.Queue.{
  Enqueuer, Handler, done, refused, try, ensure_installation, handle_installation, handle_pr,
  match_reviewer, ignored, skipped, skipped_suspended, skipped_no_sha,
}

abbrev malformed_pr : Handler
malformed_pr = refused (bytes "malformed pull_request payload")

abbrev malformed_comment : Handler
malformed_comment = refused (bytes "malformed issue_comment payload")

module _ (enq : Enqueuer) (payload : WebhookPayload) where
  abbrev pub pr_event : Option InstallationPayload → Option Text → Option PrPayload → Handler
  pr_event (some p) (some repo) (some pr) =
      try (bytes "failed to ensure installation") (ensure_installation p)
        (λ inst. handle_pr enq payload inst repo pr)
  pr_event _ _ _ = malformed_pr

  -- handlePullRequestEvent
  unfoldable pub handle_pull_request : Handler
  handle_pull_request = pr_event payload.installation payload.repository payload.pull_request

  -- Steps 1.5 to 3 of handleIssueCommentEvent
  abbrev mention : Text → Installation → Handler
  mention body inst =
      if is_some inst.suspended_at
      then done skipped_suspended
      else if is_some (match_reviewer enq.logins [] body)
      then done skipped_no_sha
      else done skipped

  abbrev comment_event :
      Option InstallationPayload → Option Text → Option IssuePayload → Option Text → Handler
  comment_event (some p) (some repo) (some issue) (some body) =
      if issue.is_pull_request
      then try (bytes "failed to ensure installation") (ensure_installation p) (mention body)
      else done ignored
  comment_event _ _ _ _ = malformed_comment

  -- handleIssueCommentEvent
  unfoldable pub handle_issue_comment : Handler
  handle_issue_comment =
      comment_event payload.installation payload.repository payload.issue payload.comment

  -- HandleEvent
  unfoldable pub handle_event : Text → Handler
  handle_event event =
      if text_eq event (bytes "ping")
      then done ignored
      else if text_eq event (bytes "installation")
      then handle_installation payload
      else if text_eq event (bytes "pull_request")
      then handle_pull_request
      else if text_eq event (bytes "issue_comment")
      then handle_issue_comment
      else done ignored
