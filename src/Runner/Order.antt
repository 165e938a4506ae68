-- ===== src/Runner/Order.antt =====
-- `run_harness` of runner.rs with the harness of harness.rs on both sides: the order of the events.
use diffuzzer.Prelude.{
  ℕ, ◌≡◌, refl, sym, ap, ◌∙◌, subst, Bool, true, false, Option, none, some, List, [], ◌∷◌, ◌++◌,
  map, arith, append_assoc, if◌then◌else◌,
}
use diffuzzer.Outcome.{
  Outcome, completed, timed_out, panicked, DiffCompleted, DiffOutcome, diff_completed,
  first_timed_out, second_timed_out,
}
use diffuzzer.Harness
use diffuzzer.Harness.{Call, History, Environment, Completed}
use diffuzzer.Harness.Calls.{calls_of, run-calls_of}
use diffuzzer.Runner.{
  Result, ok, err, panic, no_fuel, after_snapshot, of_diff, second, first, run_harness,
}
use diffuzzer.Runner.Events.{
  Event, load_snapshot, Machine, harness_on, snapshot, fst_harness, snd_harness, run_both,
  fst_events, snd_events, done, Ran,
}

module _ (m : Machine) where
  harness_on-calls_of :
      (side : Call → Event) (env : List Event → Environment) (n : ℕ) (w w' : List Event)
      (o : Outcome Completed)
      → harness_on side env m.keep_fs n w ≡ (some o, w')
      → w' ≡ w ++ map side (calls_of m.keep_fs n o)
  unfolding harness_on
  harness_on-calls_of side env n w w' o e =
      let returned : (Harness.run (env w) m.keep_fs n []).0 ≡ some o = ap (λ q. q.0) e in
      sym (ap (λ q. q.1) e)
      ∙ ap (λ h. w ++ map side h)
          (run-calls_of (env w) m.keep_fs n [] (Harness.run (env w) m.keep_fs n []).1 o
            (ap (λ r. (r, (Harness.run (env w) m.keep_fs n []).1)) returned))

  -- A snapshot that is loaded leaves the outcome as it is.
  loaded :
      (u w' : List Event) (x o : DiffOutcome Completed)
      → after_snapshot
          (fst_harness m)
          (snd_harness m)
          (snapshot m.loads)
          m.compare
          m.fst_fs_name
          m.snd_fs_name
          m.timeout
          x
          u
        ≡ (ok o, w')
      → (x ≡ o) × (w' ≡ u ++ (load_snapshot ∷ []))
  unfolding after_snapshot snapshot
  loaded u w' x o e =
      (returned (m.loads (u ++ (load_snapshot ∷ []))) (ap (λ q. q.0) e), sym (ap (λ q. q.1) e))
    where
      returned : (b : Bool) → (if b then ok x else err) ≡ ok o → x ≡ o
      returned true h = ground (arith, h)
      returned false h = absurd (cc)

  compared :
      (r : Result (DiffCompleted Completed)) (o : DiffOutcome Completed)
      → of_diff r ≡ ok o
      → (d : DiffCompleted Completed) × (r ≡ ok d) × (diff_completed d ≡ o)
  compared (ok d) o h = (d, refl, ground (arith, h))
  compared err o h = absurd (cc)
  compared panic o h = absurd (cc)
  compared no_fuel o h = absurd (cc)

  by_second :
      (w t w' : List Event) (c : Completed) (r : Option (Outcome Completed)) (u : List Event)
      (o : DiffOutcome Completed)
      → (fst_harness m) w ≡ (some (completed c), t)
      → (snd_harness m) t ≡ (r, u)
      → second
          (fst_harness m)
          (snd_harness m)
          (snapshot m.loads)
          m.compare
          m.fst_fs_name
          m.snd_fs_name
          m.timeout
          c
          (r, u)
        ≡ (ok o, w')
      → Ran m w w' o
  unfolding second
  by_second w t w' c none u o e1 e2 h = absurd (cc)
  by_second w t w' c (some panicked) u o e1 e2 h =
      let (same, end) = loaded u w' _ o h in
      subst (Ran m w w') same (record {
        events =
            end
            ∙ ap (λ v. v ++ (load_snapshot ∷ []))
                (harness_on-calls_of _ _ _ t u panicked e2
                  ∙ ap (λ v. v ++ snd_events m panicked) (harness_on-calls_of _ _ _ w t _ e1))
            ∙ append_assoc (w ++ fst_events m (done m)) (snd_events m panicked) (load_snapshot ∷ [])
            ∙ append_assoc w (fst_events m (done m))
                (snd_events m panicked ++ (load_snapshot ∷ []));
        explained = refl;
      })
  by_second w t w' c (some timed_out) u o e1 e2 h =
      let same : second_timed_out m.snd_fs_name m.timeout ≡ o = ground (arith, h) in
      subst (Ran m w w') same (record {
        events =
            sym (ap (λ q. q.1) h)
            ∙ harness_on-calls_of _ _ _ t u timed_out e2
            ∙ ap (λ v. v ++ snd_events m timed_out) (harness_on-calls_of _ _ _ w t _ e1)
            ∙ append_assoc w _ _;
        explained = (refl, refl);
      })
  by_second w t w' c (some (completed c')) u o e1 e2 h =
      let end : u ≡ w' = ap (λ q. q.1) h in
      let (d, made, same) = compared (m.compare u c c') o (ap (λ q. q.0) h) in
      subst (Ran m w w') same (record {
        events =
            sym end
            ∙ harness_on-calls_of _ _ _ t u (completed c') e2
            ∙ ap (λ v. v ++ snd_events m (done m)) (harness_on-calls_of _ _ _ w t _ e1)
            ∙ append_assoc w _ _;
        explained = (
          t,
          c,
          c',
          e1,
          subst (λ v. (snd_harness m) t ≡ (some (completed c'), v)) end e2,
          subst (λ v. m.compare v c c' ≡ ok d) end made,
        );
      })

  by_first :
      (w t w' : List Event) (r : Option (Outcome Completed)) (o : DiffOutcome Completed)
      → (fst_harness m) w ≡ (r, t)
      → first
          (fst_harness m)
          (snd_harness m)
          (snapshot m.loads)
          m.compare
          m.fst_fs_name
          m.snd_fs_name
          m.timeout
          (r, t)
        ≡ (ok o, w')
      → Ran m w w' o
  unfolding first
  by_first w t w' none o e h = absurd (cc)
  by_first w t w' (some panicked) o e h =
      let (same, end) = loaded t w' _ o h in
      subst (Ran m w w') same (record {
        events =
            end
            ∙ ap (λ v. v ++ (load_snapshot ∷ [])) (harness_on-calls_of _ _ _ w t panicked e)
            ∙ append_assoc w _ _;
        explained = refl;
      })
  by_first w t w' (some timed_out) o e h =
      let same : first_timed_out m.fst_fs_name m.timeout ≡ o = ground (arith, h) in
      subst (Ran m w w') same (record {
        events = sym (ap (λ q. q.1) h) ∙ harness_on-calls_of _ _ _ w t timed_out e;
        explained = (refl, refl);
      })
  by_first w t w' (some (completed c)) o e h =
      by_second w t w' c ((snd_harness m) t).0 ((snd_harness m) t).1 o e refl h

  -- A test on two file systems that returns an outcome has made exactly these calls, in this order: all
  -- calls of the first file system, and, if it completes, all calls of the second; a panic is followed
  -- by the loading of the snapshot, and nothing else is. The outcome carries the name of the file
  -- system that panicked or timed out, and the timeout, and a comparison is that of what the two runs
  -- returned.
  pub run_harness-Ran :
      (w w' : List Event) (o : DiffOutcome Completed) → run_both m w ≡ (ok o, w') → Ran m w w' o
  unfolding run_harness
  run_harness-Ran w w' o h = by_first w ((fst_harness m) w).1 w' ((fst_harness m) w).0 o refl h
