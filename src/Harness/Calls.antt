-- ===== src/Harness/Calls.antt =====
-- harness.rs: the calls that a run makes, and their order.
use diffuzzer.Prelude.{
  ℕ, zero, suc, ◌≡◌, refl, sym, ap, ◌∙◌, Bool, some, List, [], ◌∷◌, ◌++◌, if◌then◌else◌, append-nil,
}
use diffuzzer.Outcome.{Outcome, completed, timed_out, panicked}
use diffuzzer.Fallible.{◌>>◌, pure}
use diffuzzer.Fallible.Adds.{Adds, Adds-pure, Adds-mono, Adds-fail, Adds-if, Adds-bind}
use diffuzzer.Harness.{
  Call, History, Environment, ExecResult, output, timed_out_after, io_error, Completed, call,
  call_quietly, each, each_quietly, exec_in_dir, ask_panic_event, from_utf8, finish, run,
}

-- The calls `c i`, `c (i + 1)` and so on, `n` of them.
abbrev pub numbered : (ℕ → Call) → ℕ → ℕ → History
numbered c i zero = []
numbered c i (suc n) = c i ∷ numbered c (suc i) n

module _ (env : Environment) where
  Adds-call : (c : Call) → Adds (λ _ d. d ≡ c ∷ []) (call env c)
  unfolding call
  Adds-call c = record { at = λ h h' u e. (c ∷ [], sym (ap (λ q. q.1) e), refl) }

  Adds-call_quietly : (c : Call) → Adds (λ _ d. d ≡ c ∷ []) (call_quietly env c)
  unfolding call_quietly
  Adds-call_quietly c = record { at = λ h h' u e. (c ∷ [], sym (ap (λ q. q.1) e), refl) }

  Adds-each : (c : ℕ → Call) (i n : ℕ) → Adds (λ _ d. d ≡ numbered c i n) (each env c i n)
  unfolding each
  Adds-each c i zero = Adds-pure _ tt refl
  Adds-each c i (suc n) =
      Adds-bind _ (c i ∷ []) _ _ (Adds-call (c i))
        λ _. Adds-mono _ _ _ (λ u d e. ap (◌∷◌ (c i)) e) (Adds-each c (suc i) n)

  Adds-each_quietly :
      (c : ℕ → Call) (i n : ℕ) → Adds (λ _ d. d ≡ numbered c i n) (each_quietly env c i n)
  unfolding each_quietly
  Adds-each_quietly c i zero = Adds-pure _ tt refl
  Adds-each_quietly c i (suc n) =
      Adds-bind _ (c i ∷ []) _ _ (Adds-call_quietly (c i))
        λ _. Adds-mono _ _ _ (λ u d e. ap (◌∷◌ (c i)) e) (Adds-each_quietly c (suc i) n)

  Adds-exec_in_dir : Adds (λ _ d. d ≡ Call.exec ∷ []) (exec_in_dir env)
  unfolding exec_in_dir
  Adds-exec_in_dir = record { at = λ h h' u e. (Call.exec ∷ [], sym (ap (λ q. q.1) e), refl) }

  Adds-ask_panic_event : Adds (λ _ d. d ≡ Call.had_panic_event ∷ []) (ask_panic_event env)
  unfolding ask_panic_event
  Adds-ask_panic_event = record {
    at = λ h h' u e. (Call.had_panic_event ∷ [], sym (ap (λ q. q.1) e), refl);
  }

  Adds-from_utf8 : (text : List ℕ) → Adds (λ _ d. d ≡ []) (from_utf8 env text)
  unfolding from_utf8
  Adds-from_utf8 text =
      Adds-if _ (env.is_utf8 text) _ _ (λ _. Adds-pure _ tt refl) (λ _. Adds-fail _)

-- The calls after the test was executed, by how the run ends.
abbrev pub calls_after : Bool → ℕ → Outcome Completed → History
calls_after keep_fs n (completed c) =
    numbered Call.post_exec 0 n
    ++ ((if keep_fs then [] else Call.teardown ∷ numbered Call.post_teardown 0 n)
        ++ (Call.copy_dir_from_remote ∷ []))
calls_after keep_fs n timed_out =
    numbered Call.skip_exec 0 n
    ++ (Call.had_panic_event ∷ (if keep_fs then [] else Call.teardown ∷ []))
calls_after keep_fs n panicked = numbered Call.skip_exec 0 n ++ (Call.had_panic_event ∷ [])

-- The calls of a run: the file system is set up once, before the observers and the test, and torn down
-- once, after them, unless it is kept or the system panicked.
abbrev pub calls_of : Bool → ℕ → Outcome Completed → History
calls_of keep_fs n o =
    Call.remove_dir_all
    ∷ Call.create_dir_all
    ∷ Call.reset_events
    ∷ Call.setup
    ∷ (numbered Call.pre_exec 0 n ++ (Call.exec ∷ calls_after keep_fs n o))

module _ (env : Environment) (keep_fs : Bool) (n : ℕ) where
  Adds-finish :
      (r : ExecResult) → Adds (λ o d. d ≡ calls_after keep_fs n o) (finish env keep_fs n r)
  unfolding finish
  Adds-finish (output stdout stderr) = Adds-bind _ _ _ _ (Adds-each env Call.post_exec 0 n) λ _.
      Adds-bind _ (if keep_fs then [] else Call.teardown ∷ numbered Call.post_teardown 0 n) _ _
        teardown
        λ _. Adds-bind _ _ _ _ (Adds-from_utf8 env stdout) λ _.
          Adds-bind _ _ _ _ (Adds-from_utf8 env stderr)
            λ _. Adds-bind _ _ _ _ (Adds-call env Call.copy_dir_from_remote) λ _. Adds-pure _ _ refl
    where
      teardown :
          Adds
            (λ _ d. d ≡ (if keep_fs then [] else Call.teardown ∷ numbered Call.post_teardown 0 n))
            (if keep_fs
              then pure tt
              else (call env Call.teardown >> each env Call.post_teardown 0 n))
      teardown =
          Adds-if _ keep_fs _ _ (λ e. rw e (Adds-pure _ tt refl))
            (λ e. rw e (
              Adds-bind _ _ _ _ (Adds-call env Call.teardown) λ _.
                Adds-mono _ _ _ (λ u d k. ap (◌∷◌ Call.teardown) k)
                  (Adds-each env Call.post_teardown 0 n)))
  Adds-finish timed_out_after = Adds-bind _ _ _ _ (Adds-each_quietly env Call.skip_exec 0 n) λ _.
      Adds-bind _ _ _ _ (Adds-ask_panic_event env) λ is_panic.
        Adds-if _ is_panic _ _ (λ _. Adds-pure _ panicked refl)
          λ _. Adds-bind _ (if keep_fs then [] else Call.teardown ∷ []) _ _ teardown λ _.
            Adds-pure _ timed_out
              (ap (λ v. numbered Call.skip_exec 0 n ++ (Call.had_panic_event ∷ v)) (append-nil _))
    where
      teardown :
          Adds
            (λ _ d. d ≡ (if keep_fs then [] else Call.teardown ∷ []))
            (if keep_fs then pure tt else call env Call.teardown)
      teardown =
          Adds-if _ keep_fs _ _ (λ e. rw e (Adds-pure _ tt refl))
            (λ e. rw e (Adds-call env Call.teardown))
  Adds-finish io_error =
      Adds-bind _ _ _ _ (Adds-each_quietly env Call.skip_exec 0 n) λ _. Adds-fail _

  -- A run that returns an outcome has made exactly these calls, in this order: those before the test,
  -- the test, and those after it, which depend on the outcome.
  pub run-calls_of :
      (h h' : History) (o : Outcome Completed)
      → run env keep_fs n h ≡ (some o, h')
      → h' ≡ h ++ calls_of keep_fs n o
  unfolding run
  run-calls_of h h' o e =
      let (d, grown, k) =
        (Adds-bind (λ o d. d ≡ calls_of keep_fs n o) _ _ _
            (Adds-call_quietly env Call.remove_dir_all)
            λ _. Adds-bind _ _ _ _ (Adds-call env Call.create_dir_all) λ _.
              Adds-bind _ _ _ _ (Adds-call env Call.reset_events) λ _.
                Adds-bind _ _ _ _ (Adds-call env Call.setup) λ _.
                  Adds-bind _ _ _ _ (Adds-each env Call.pre_exec 0 n) λ _.
                    Adds-bind _ _ _ _ (Adds-exec_in_dir env) λ r.
                      Adds-mono _ _ _
                        (λ o d k.
                          ap
                            (λ v.
                              Call.remove_dir_all
                              ∷ Call.create_dir_all
                              ∷ Call.reset_events
                              ∷ Call.setup
                              ∷ (numbered Call.pre_exec 0 n ++ (Call.exec ∷ v)))
                            k)
                        (Adds-finish r)).at
          h h' o e in
      grown ∙ ap (◌++◌ h) k
