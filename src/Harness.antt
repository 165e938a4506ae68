-- ===== src/Harness.antt =====
-- diffuzzer/src/fuzzing/harness.rs: one run of a test on one file system. What the harness calls (the
-- command interface, the mount, the observers and the supervisor) is not under this model: each call
-- is added to a history, and an environment answers it from the history so far. Observers are numbered.
pub mod Calls
use diffuzzer.Prelude.{
  ℕ, zero, suc, Bool, true, false, not, Option, none, some, List, [], ◌∷◌, ◌++◌, if◌then◌else◌,
}
use diffuzzer.Fallible.{Step, ◌>>=◌, ◌>>◌, pure, fail}
use diffuzzer.Outcome.{Outcome, completed, timed_out, panicked}

pub data Call : Type 0 where
  remove_dir_all create_dir_all reset_events setup exec had_panic_event teardown : Call
  copy_dir_from_remote : Call
  pre_exec post_exec post_teardown skip_exec : ℕ → Call

abbrev pub History : Type 0
History = List Call

-- The texts that a program printed, or how it failed.
pub data ExecResult : Type 0 where
  output : List ℕ → List ℕ → ExecResult
  timed_out_after io_error : ExecResult

-- What the environment answers to the last call of a history.
pub record Environment : Type 0 where
  pub succeeds : History → Bool
  pub executed : History → ExecResult
  pub had_panic : History → Bool
  pub is_utf8 : List ℕ → Bool

-- `Completed`, without the directory of the outcome
pub record Completed : Type 0 where
  pub stdout : List ℕ
  pub stderr : List ℕ

module _ (env : Environment) where
  -- A call whose failure is an error.
  unfoldable pub call : Call → Step History (Unit {0})
  call c h = let h' = h ++ (c ∷ []) in (if env.succeeds h' then some tt else none, h')

  -- A call whose failure is ignored.
  unfoldable pub call_quietly : Call → Step History (Unit {0})
  call_quietly c h = (some tt, h ++ (c ∷ []))

  -- `for observer in &self.observers`, from the observer `i` on
  unfoldable pub each : (ℕ → Call) → ℕ → ℕ → Step History (Unit {0})
  each c i zero = pure tt
  each c i (suc n) = do call (c i); each c (suc i) n

  unfoldable pub each_quietly : (ℕ → Call) → ℕ → ℕ → Step History (Unit {0})
  each_quietly c i zero = pure tt
  each_quietly c i (suc n) = do call_quietly (c i); each_quietly c (suc i) n

  unfoldable pub exec_in_dir : Step History ExecResult
  exec_in_dir h = let h' = h ++ (exec ∷ []) in (some (env.executed h'), h')

  unfoldable pub ask_panic_event : Step History Bool
  ask_panic_event h =
      let h' = h ++ (had_panic_event ∷ []) in
      (if env.succeeds h' then some (env.had_panic h') else none, h')

  unfoldable pub from_utf8 : List ℕ → Step History (Unit {0})
  from_utf8 text = if env.is_utf8 text then pure tt else fail

  module _ (keep_fs : Bool) (observers : ℕ) where
    unfoldable pub finish : ExecResult → Step History (Outcome Completed)
    finish (output stdout stderr) = do
      each post_exec 0 observers
      if keep_fs then pure tt else (do call teardown; each post_teardown 0 observers)
      from_utf8 stdout
      from_utf8 stderr
      call copy_dir_from_remote
      pure (completed (record { stdout = stdout; stderr = stderr }))
    finish timed_out_after = do
      each_quietly skip_exec 0 observers
      is_panic ← ask_panic_event
      if is_panic
          then pure panicked
          else (do if keep_fs then pure tt else call teardown; pure timed_out)
    finish io_error = do each_quietly skip_exec 0 observers; fail

    unfoldable pub run : Step History (Outcome Completed)
    run = do
      call_quietly remove_dir_all
      call create_dir_all
      call reset_events
      call setup
      each pre_exec 0 observers
      result ← exec_in_dir
      finish result
