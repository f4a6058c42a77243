-- ===== src/Chaos/Run/Codes.antt =====
-- `main` of the chaos sidecar: what its exit code says.
use nim_vortex.Prelude.{ℕ, ◌+◌, ◌≤◌, ◌<◌, ◌≡◌, refl, true, Option, none, some, [], ◌∷◌}
use nim_vortex.Prelude.Bytes.{Bytes}
use nim_vortex.Chaos.{Choice, chosen, exit_two, parse_behaviors}
use nim_vortex.Chaos.Fds.{Env, World, returned, slack}
use nim_vortex.Chaos.Run.{
  Load, Exit, passed, fd_leak, no_fd_field, no_final_sample, watchdog, never_connected, type_error,
  exhausted, run, exit_code, Cut, interrupted, faulted, Ending, exits, propagates, ending,
  main_choice, main,
}
use nim_vortex.Chaos.Run.Verdict.{Answers, Compares, Fails, Judges, run-Judges}

-- Why `main` ends as it does, for the styles that VORTEX_CHAOS chooses and what cuts the run short: the
-- only reasons for each exit code.
pub data Explains (choice : Choice) (cut : Option Cut) (load : Load) (env : Env)
    : Ending → Type 0 where
  no_styles : choice ≡ chosen [] → Explains choice cut load env (exits 0)
  no_leak :
      (baseline n : ℕ)
      → cut ≡ none
      → Compares env baseline n
      → n ≤ baseline + slack
      → Explains choice cut load env (exits 0)
  leak :
      (baseline n : ℕ)
      → cut ≡ none
      → Compares env baseline n
      → baseline + slack < n
      → Explains choice cut load env (exits 1)
  unknown_style : (name : Bytes) → choice ≡ exit_two name → Explains choice cut load env (exits 2)
  internal_error : cut ≡ some faulted → Explains choice cut load env (exits 2)
  no_field : cut ≡ none → Answers env none → Explains choice cut load env (exits 2)
  no_count : cut ≡ none → Fails env → Explains choice cut load env (exits 2)
  no_reference :
      (m n : ℕ)
      → cut ≡ none
      → ((i : ℕ) → i < 10 → returned (env.answer (m + i)) ≡ none)
      → Answers env (some n)
      → Explains choice cut load env (exits 2)
  wedged : cut ≡ none → load.wedged ≡ true → Explains choice cut load env (exits 3)
  no_session : cut ≡ none → load.worked ≡ 0 → Explains choice cut load env (exits 4)
  stopped : cut ≡ some interrupted → Explains choice cut load env propagates

exit_code-Explains :
    (choice : Choice) (cut : Option Cut) (load : Load) (env : Env) (x : Exit)
    → cut ≡ none
    → Judges load env x
    → Explains choice cut load env (exit_code x)
unfolding exit_code
exit_code-Explains choice cut load env (passed baseline final) e (c, l) =
    no_leak baseline final e c l
exit_code-Explains choice cut load env (fd_leak baseline final) e (c, l) = leak baseline final e c l
exit_code-Explains choice cut load env no_fd_field e h = no_field e h
exit_code-Explains choice cut load env no_final_sample e h = no_count e h
exit_code-Explains choice cut load env watchdog e h = wedged e h
exit_code-Explains choice cut load env never_connected e h = no_session e h
exit_code-Explains choice cut load env type_error e ((m, h), (n, a)) = no_reference m n e h a
exit_code-Explains choice cut load env exhausted e h = absurd h

ending-Explains :
    (choice : Choice) (cut : Option Cut) (load : Load) (env : Env) (x : Exit)
    → Judges load env x
    → Explains choice cut load env (ending cut x)
unfolding ending
ending-Explains choice none load env x h = exit_code-Explains choice none load env x refl h
ending-Explains choice (some interrupted) load env x h = stopped refl
ending-Explains choice (some faulted) load env x h = internal_error refl

main_choice-Explains :
    (choice : Choice) (cut : Option Cut) (drain : ℕ) (load : Load) (env : Env) (w : World)
    → Explains choice cut load env (main_choice choice cut drain load env w)
unfolding main_choice
main_choice-Explains (exit_two name) cut drain load env w = unknown_style name refl
main_choice-Explains (chosen []) cut drain load env w = no_styles refl
main_choice-Explains (chosen (style ∷ styles)) cut drain load env w =
    ending-Explains (chosen (style ∷ styles)) cut load env (run drain load env w)
      (run-Judges drain load env w)

-- What the exit code of the sidecar says, for every value of VORTEX_CHAOS and for a run that an exception
-- cuts short or whose calls all come to an end. It is 0 only if no style is chosen or `/stats` reported two counts of which the later is
-- at most SLACK above the earlier, and 1 only if the later is higher than that. It is 3 only if a worker
-- outlived the watchdog, 4 only if the workers opened no session, and 2 only for an unknown style, an
-- exception inside the sidecar, or a count that is missing. ^C and SystemExit propagate, and there is no
-- other end.
pub main_lem :
    (raw : Bytes) (cut : Option Cut) (drain : ℕ) (load : Load) (env : Env) (w : World)
    → Explains (parse_behaviors raw) cut load env (main raw cut drain load env w)
unfolding main
main_lem raw cut drain load env w = main_choice-Explains (parse_behaviors raw) cut drain load env w
