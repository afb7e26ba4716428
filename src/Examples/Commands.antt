-- ===== src/Examples/Commands.antt =====
-- The commands of cmd/agent-frei at concrete settings.
use agent_frei_igi.Prelude.{
  ◌≡◌, ◌≢◌, ◌↔◌, refl, true, Text, bytes, text_eq, ok, none, [], ◌∷◌, is_ok, List, arith,
  trim_space, join, lacks,
}
use agent_frei_igi.Config.{
  load, settings, concurrency_of, duration_of, reviewer_logins, parse_token_key,
}
use agent_frei_igi.Config.Duration.{parse_duration}
use agent_frei_igi.Config.Start.{Startable, load-Startable}
use agent_frei_igi.Config.Logins.{IsLogin, reviewer_logins-join}
use agent_frei_igi.Diplomat.Publish.Quiet.{posts}
use agent_frei_igi.Worker.Loop.{ticked, done, run_loop}
use agent_frei_igi.Store.Open.{new}
use agent_frei_igi.Main.{required_store}
use agent_frei_igi.Main.Worker.{new_worker, run_worker}
use agent_frei_igi.Main.Worker.Dry.{started-silent}
use agent_frei_igi.Main.Seed.{parse_args, no_args, seed, keyed, seed_with, run_seed_account}
use agent_frei_igi.Crypto.{parse_key}
use agent_frei_igi.Base64.{decode}
use agent_frei_igi.Main.Seed.Usable.{IsUsable, NonceSized, run_seed_account-IsUsable}
use agent_frei_igi.Main.Serve.{nil_pointer, holding, optional_store, new_server, run_server}
use agent_frei_igi.Main.Serve.Bare.{started-never-503}
use agent_frei_igi.Http.Webhooks.{github_webhook_handler}
use agent_frei_igi.Examples.Fixtures.{held, db_with, world_with}
use agent_frei_igi.Examples.Outside.{outside, host, bare_host, settings_of}
use agent_frei_igi.Examples.Requests.{ping}

load-Startable_example : (is_ok (load host) ≡ true) ↔ Startable host
load-Startable_example = load-Startable host

started : run_worker outside (load host) ≡ ok (new_worker outside (settings_of host))
unfolding run_worker load concurrency_of text_eq duration_of parse_duration required_store settings
    new
started = refl

started-silent_example :
    posts (
      run_loop
        (new_worker outside (settings_of host))
        none
        (ticked none ∷ done ∷ [])
        (world_with (held ∷ [])))
    ≡ posts (world_with (held ∷ []))
unfolding text_eq
started-silent_example =
    started-silent host outside {wc = new_worker outside (settings_of host)} started refl none
      (ticked none ∷ done ∷ []) (world_with (held ∷ []))

abbrev words : List Text
words = bytes "--login" ∷ bytes "ann" ∷ bytes "--token" ∷ bytes "t" ∷ []

abbrev nonce : Text
nonce = bytes "123456789012"

nonce-sized : NonceSized (ok nonce)
nonce-sized drawn e = ground arith

run_seed_account-IsUsable_example :
    IsUsable outside
      (parse_args words no_args)
      (ok (settings_of host))
      (run_seed_account outside (ok nonce) words (ok (settings_of host)) (db_with [])).1
unfolding run_seed_account parse_args text_eq seed_with settings keyed parse_token_key parse_key
    decode new seed
run_seed_account-IsUsable_example =
    run_seed_account-IsUsable outside (ok nonce) words (ok (settings_of host)) (db_with [])
      nonce-sized refl

bare :
    run_server outside (ok nonce) (load bare_host)
    ≡ ok (new_server outside (ok nonce) (settings_of bare_host) (holding nil_pointer))
unfolding run_server load concurrency_of duration_of parse_duration text_eq optional_store settings
bare = refl

started-never-503_example :
    (github_webhook_handler
      (new_server outside (ok nonce) (settings_of bare_host) (holding nil_pointer)).endpoint
      (ping (bytes "sha256=ab"))
      (db_with [])).0
    ≢ 503
started-never-503_example =
    started-never-503 outside (ok nonce) (load bare_host)
      {srv = new_server outside (ok nonce) (settings_of bare_host) (holding nil_pointer)} bare
      (ping (bytes "sha256=ab")) (db_with [])

alice-IsLogin : IsLogin (bytes "alice")
unfolding trim_space lacks
alice-IsLogin = record { present = refl; trimmed = refl; one = refl }

bob-IsLogin : IsLogin (bytes "bob")
unfolding trim_space lacks
bob-IsLogin = record { present = refl; trimmed = refl; one = refl }

reviewer_logins-join_example :
    reviewer_logins (join (bytes ",") (bytes "alice" ∷ bytes "bob" ∷ []))
    ≡ bytes "alice" ∷ bytes "bob" ∷ []
reviewer_logins-join_example =
    reviewer_logins-join (bytes "alice" ∷ bytes "bob" ∷ []) (alice-IsLogin, (bob-IsLogin, tt))
