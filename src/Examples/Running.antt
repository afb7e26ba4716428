-- ===== src/Examples/Running.antt =====
-- Runs of a worker at concrete inputs.
use agent_frei_igi.Prelude.{
  text_eq, has_prefix, split, trim_space, ◌≡◌, ◌≤◌, ◌+◌, refl, ap, bytes, none, List, [], ◌∷◌, ok,
  err, Error, inl, inr, some, pos, arith,
}
use agent_frei_igi.Store.Db.Rules.{IsReserved}
use agent_frei_igi.Domain.{user, cancelled, ReviewContext}
use agent_frei_igi.World.{World, tick, shutdown}
use agent_frei_igi.Store.Jobs.{get_job, heartbeat_job, update_job_context, update_job_result}
use agent_frei_igi.Diplomat.Publish.Quiet.{posts}
use agent_frei_igi.Worker.{
  run_pipeline, process, detective_stage, guard, look, signals_pass, check_held, is_cancelled_in_db,
  memory_stage, critic_stage, diplomat_stage, aborted,
}
use agent_frei_igi.Store.Db
use agent_frei_igi.Store.Installations
use agent_frei_igi.Store.Publications
use agent_frei_igi.Store.Publishing
use agent_frei_igi.GithubApp.{
  get_installation_token, cached, fetch_installation_token, list_pr_files, list_pages,
  create_pull_review,
}
use agent_frei_igi.GithubApp.Links.{parse_next_page_url}
use agent_frei_igi.Detective.Build.{build}
use agent_frei_igi.Llm.{complete}
use agent_frei_igi.Critic.Review.{review}
use agent_frei_igi.Critic.Validate.{parse_and_validate, strip_fences}
use agent_frei_igi.Diplomat.Publish.{publish, user_token, resolve, fall_back, reserve_and_post}
use agent_frei_igi.Worker.Once.{Run}
use agent_frei_igi.Worker.Overlap.{
  Attempt, Event, reserve, whole, go_on, schedule, overlapping_once,
}
use agent_frei_igi.Worker.Stop.{shutdown_aborts}
use agent_frei_igi.Worker.Lost.{IsLost, lost_before_diplomat}
use agent_frei_igi.Worker.Lost.Anywhere.{at_memory, started, built, LostWhenRead, process-IsLost}
use agent_frei_igi.Detective.Truncate.{truncate_pr_files}
use agent_frei_igi.Store.Db.{Moment, up}
use agent_frei_igi.Store.Jobs.Commands.{close, history, run}
use agent_frei_igi.Store.Publications.{run_publications}
use agent_frei_igi.Store.Jobs.{cancel_open_jobs_for_pr, open_for_pr}
use agent_frei_igi.Worker.Success.{Ran, run_pipeline-Ran}
use agent_frei_igi.Examples.Fixtures.{
  settings, held, context, changed, retaken, review_result, world_with,
}

abbrev a_run : Run
a_run = record { config = settings; job = held; parent = none }

abbrev calm : World
calm = world_with (held ∷ [])

abbrev overtaken : World
overtaken = world_with (retaken ∷ [])

abbrev an_attempt : Attempt
an_attempt = record {
  config = settings.diplomat;
  job = held;
  result = review_result;
  credentials = record { token = bytes "t"; account = none; kind = user };
}

-- Two attempts reserve before either goes on, and the job is processed as a whole in between.
abbrev race : List Event
race = reserve an_attempt ∷ reserve an_attempt ∷ whole a_run ∷ go_on 0 ∷ go_on 0 ∷ []

overlapping_once_example :
    (posts (schedule race calm []) ≤ posts calm + 1)
    × (IsReserved 1 calm.db → posts (schedule race calm []) ≤ posts calm)
overlapping_once_example = overlapping_once 1 race calm (refl, (refl, (refl, (tt, (tt, tt)))))

overtaken-IsLost : IsLost held overtaken.db.jobs
unfolding get_job
overtaken-IsLost = record {
  keyed = (refl, tt);
  row = retaken;
  found = refl;
  passed = inr (omega arith);
}

-- Another process cancels the job after Detective's stage.
abbrev quiet : Moment
quiet = record { elapsed = 1; link = up; others = []; publishers = [] }

abbrev closing_late : World
closing_late = record calm {
  db = record calm.db {
    moments =
        quiet
        ∷ quiet
        ∷ quiet
        ∷ quiet
        ∷ record quiet { others = close 9 1 (bytes "o/r") 7 ∷ [] }
        ∷ [];
  };
}

abbrev after_detective : World
after_detective = (detective_stage settings held closing_late).1

abbrev built_context : ReviewContext
built_context = record context {
  files = (truncate_pr_files (changed ∷ []) (pos 40) (pos 1000)).0;
  truncation = (truncate_pr_files (changed ∷ []) (pos 40) (pos 1000)).1;
  built_at = 3;
}

builds : (detective_stage settings held closing_late).0 ≡ ok built_context
unfolding detective_stage guard look signals_pass Db.heartbeat_job Db.query Db.pass history
    run_publications heartbeat_job text_eq check_held is_cancelled_in_db Db.get_job get_job build
    Db.get_installation Installations.get_installation split get_installation_token cached
    fetch_installation_token list_pr_files list_pages parse_next_page_url Db.update_job_context
    update_job_context memory_stage critic_stage review complete parse_and_validate strip_fences
    trim_space Db.update_job_result update_job_result diplomat_stage publish user_token resolve
    fall_back reserve_and_post Publishing.begin_publication Publications.begin_publication
    create_pull_review has_prefix Publishing.finalize_publication
builds = refl

reads_cancelled : LostWhenRead held (look settings held after_detective).1.db
unfolding detective_stage guard look signals_pass Db.heartbeat_job Db.query Db.pass history run
    run_publications cancel_open_jobs_for_pr open_for_pr heartbeat_job text_eq check_held
    is_cancelled_in_db Db.get_job get_job build Db.get_installation Installations.get_installation
    split get_installation_token cached fetch_installation_token list_pr_files list_pages
    parse_next_page_url Db.update_job_context update_job_context memory_stage critic_stage review
    complete parse_and_validate strip_fences trim_space Db.update_job_result update_job_result
    diplomat_stage publish user_token resolve fall_back reserve_and_post
    Publishing.begin_publication Publications.begin_publication create_pull_review has_prefix
    Publishing.finalize_publication
reads_cancelled = record {
  keyed = (refl, tt);
  row = record held {
    status = cancelled;
    updated_at = 9;
    locked_until = some 101;
    context_blob = some (bytes "ctx");
  };
  found = refl;
  passed = inl refl;
}

process-IsLost_example :
    ((process settings held none closing_late).0 ≡ aborted)
    × (posts (process settings held none closing_late).1 ≡ posts after_detective)
process-IsLost_example =
    process-IsLost settings held none closing_late {p = at_memory built_context}
      {v = after_detective} (built started (ap (λ r. (r, after_detective)) builds)) reads_cancelled

lost_before_diplomat_example :
    (posts (diplomat_stage settings held review_result overtaken).1 ≡ posts overtaken)
    × ((e : Error) × ((diplomat_stage settings held review_result overtaken).0 ≡ err e))
lost_before_diplomat_example =
    lost_before_diplomat settings held review_result overtaken overtaken-IsLost

gives_result : (run_pipeline settings held calm).0 ≡ ok (bytes "result")
unfolding run_pipeline detective_stage guard look signals_pass Db.heartbeat_job Db.query
    heartbeat_job text_eq check_held is_cancelled_in_db Db.get_job get_job build Db.get_installation
    Installations.get_installation split get_installation_token cached fetch_installation_token
    list_pr_files list_pages parse_next_page_url Db.update_job_context update_job_context
    memory_stage critic_stage review complete parse_and_validate strip_fences trim_space
    Db.update_job_result update_job_result diplomat_stage publish user_token resolve fall_back
    reserve_and_post Publishing.begin_publication Publications.begin_publication create_pull_review
    has_prefix Publishing.finalize_publication
gives_result = refl

runs_well :
    run_pipeline settings held calm ≡ (ok (bytes "result"), (run_pipeline settings held calm).1)
runs_well = ap (λ r. (r, (run_pipeline settings held calm).1)) gives_result

run_pipeline-Ran_example :
    Ran settings held calm (bytes "result") (run_pipeline settings held calm).1
run_pipeline-Ran_example = run_pipeline-Ran settings held calm runs_well

abbrev stopping : World
stopping = record calm { signals = (tick ∷ shutdown ∷ []) ∷ [] }

shutdown_aborts_example : process settings held none stopping ≡ (
  aborted,
  signals_pass settings held
      (tick ∷ shutdown ∷ [])
      (record stopping { ctx_err = none; signals = [] }),
)
shutdown_aborts_example = shutdown_aborts settings held stopping (tick ∷ shutdown ∷ []) [] refl refl
