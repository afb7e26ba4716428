-- ===== src/Llm/Cli.antt =====
-- internal/llm/cli.go: Complete of CLIProvider, over what becomes of the command. Killing its process
-- group is not modelled.
use agent_frei_igi.Prelude.{
  ℕ, ◌*◌, ◌≡◌, refl, ◌∙◌, sym, Text, bytes, take, Option, none, some, List, Result, ok, err, Error,
  wrapped, arith, [],
}
use agent_frei_igi.Llm.{classify_error}
use agent_frei_igi.Llm.Buffer.{write_all, new_writer, concat, write_all_lem}

-- No pipe, no process, or a process with what it wrote to stdout and stderr, and the error of Wait.
pub data Command : Type 0 where
  no_pipe : Error → Command
  not_started : Error → Command
  ended : List Text → List Text → Option Error → Command

-- 10 MiB
unfoldable pub max_output : ℕ
max_output = 10 * 1024 * 1024

-- What a capped buffer has after the writes.
unfoldable pub captured : List Text → Text
captured writes = (write_all writes (new_writer max_output)).buffer

-- Complete; `ctx` is `ctx.Err()` when an error is classified.
unfoldable pub cli_complete : Text → Option Error → Command → Result Text
cli_complete name ctx (no_pipe e) = err (wrapped (bytes "failed to create stdin pipe for CLI") e)
cli_complete name ctx (not_started e) = err (classify_error name ctx e [])
cli_complete name ctx (ended out errors (some e)) =
    err (classify_error name ctx e (captured errors))
cli_complete name ctx (ended out errors none) = ok (captured out)

-- A completion succeeds only if the command ended without an error, and is then what the command wrote
-- to its standard output, cut to 10 MiB.
pub cli_complete_lem :
    (name : Text) (ctx : Option Error) (run : Command) {s : Text}
    → cli_complete name ctx run ≡ ok s
    → (out : List Text) × (errors : List Text) × (run ≡ ended out errors none)
      × (s ≡ take max_output (concat out))
unfolding cli_complete captured
cli_complete_lem name ctx (no_pipe e) h = cc
cli_complete_lem name ctx (not_started e) h = cc
cli_complete_lem name ctx (ended out errors (some e)) h = cc
cli_complete_lem name ctx (ended out errors none) {s} h =
    let same : (write_all out (new_writer max_output)).buffer ≡ s = ground arith in
    (out, errors, refl, sym same ∙ write_all_lem max_output out)
