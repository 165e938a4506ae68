-- ===== src/Examples/Brokers.antt =====
-- The statistics of instances, as a broker keeps them.
use diffuzzer.Prelude.{◌≡◌, refl, true, false, none, List, [], ◌∷◌, map, arith}
use diffuzzer.Blackbox.Stats.{GreyBoxStats, kcov, lcov}
use diffuzzer.Broker.{
  BrokerMessage, Broker, grey_box_stats, info, to_greybox, refused, run, not_started,
  run_greybox_broker,
}
use diffuzzer.Broker.Latest.{Kept, run_greybox_broker-Kept}

abbrev early : GreyBoxStats
early = record {
  corpus_size = 1;
  fst_coverage_size = 0;
  fst_coverage_type = kcov;
  snd_coverage_size = 0;
  snd_coverage_type = lcov;
  crashes = 0;
  executions = 1;
}

abbrev late : GreyBoxStats
late = record early { corpus_size = 2; executions = 9 }

abbrev two_instances : Broker GreyBoxStats
two_instances = record { instances = none ∷ none ∷ []; shown = [] }

abbrev messages : List BrokerMessage
messages = grey_box_stats 1 early ∷ info 0 [] ∷ grey_box_stats 1 late ∷ []

run_greybox_broker-Kept_example :
    Kept
      (map to_greybox messages)
      two_instances
      (run_greybox_broker (true ∷ true ∷ []) messages two_instances)
unfolding to_greybox
run_greybox_broker-Kept_example =
    run_greybox_broker-Kept (true ∷ true ∷ []) messages two_instances (refl, (refl, tt))
      (omega arith, (tt, (omega arith, tt)))

-- The second instance does not take its message, and nothing is received.
second_refused : (run_greybox_broker (true ∷ false ∷ []) messages two_instances).0 ≡ not_started 1
unfolding run_greybox_broker run refused
second_refused = refl
