-- ===== src/Store/Installations.antt =====
-- internal/store/postgres/store.go, the statements on `installations`.
use agent_frei_igi.Prelude.{ℕ, Option, List, [], ◌∷◌, ◌++◌, Bool, ◌==◌, if◌then◌else◌, get_or_else}
use agent_frei_igi.Domain.{Installation}
use agent_frei_igi.Store.Rows.{update_where, any_row, first_row}

abbrev pub Installations : Type 0
Installations = List Installation

abbrev pub of_github : ℕ → Installation → Bool
of_github github i = i.github_installation_id == github

-- GetInstallation
unfoldable pub get_installation : ℕ → Installations → Option Installation
get_installation id = first_row (λ i. i.id == id)

-- GetInstallationByGitHubID
unfoldable pub get_installation_by_github_id : ℕ → Installations → Option Installation
get_installation_by_github_id github = first_row (of_github github)

abbrev set_installation : ℕ → Installation → Installation → Installation
set_installation now inst i = record i {
  account_login = inst.account_login;
  account_type = inst.account_type;
  suspended_at = inst.suspended_at;
  updated_at = now;
}

-- UpsertInstallation: ON CONFLICT (github_installation_id) DO UPDATE
unfoldable pub upsert_installation : ℕ → ℕ → Installation → Installations → Installations
upsert_installation fresh now inst rows =
    if any_row (of_github inst.github_installation_id) rows
    then update_where (of_github inst.github_installation_id) (set_installation now inst) rows
    else rows ++ record inst { id = fresh; created_at = now; updated_at = now } ∷ []

-- RETURNING id, created_at, updated_at, into the value that the caller passed
unfoldable pub returned_installation : Installation → Installations → Installation
returned_installation inst rows =
    get_or_else inst (first_row (of_github inst.github_installation_id) rows)
      λ i. record inst { id = i.id; created_at = i.created_at; updated_at = i.updated_at }
