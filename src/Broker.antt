-- ===== src/Broker.antt =====
-- diffuzzer/src/fuzzing/broker.rs, blackbox/broker.rs and greybox/broker.rs: the start of the instances
-- and the loop over their messages. The two brokers differ in which statistics they take and how they sum them up;
-- the threads of the instances are the messages that they send, in the order in which they arrive.
pub mod Latest
use diffuzzer.Prelude.{
  ℕ, suc, Bool, true, false, Option, none, some, List, [], ◌∷◌, ◌++◌, if◌then◌else◌, ltb, length,
  set,
}
use diffuzzer.Blackbox.Stats.{BlackBoxStats, GreyBoxStats, aggregate_blackbox, aggregate_greybox}

pub data BrokerMessage : Type 0 where
  error info warn : ℕ → List ℕ → BrokerMessage
  black_box_stats : ℕ → BlackBoxStats → BrokerMessage
  grey_box_stats : ℕ → GreyBoxStats → BrokerMessage

-- Why a run ends: an instance that cannot be told to run, the error of an instance, statistics of an
-- instance that there is not, no sender that is left, or a panic.
pub data Stop : Type 0 where
  not_started instance_error no_instance : ℕ → Stop
  disconnected panicked : Stop

-- What a message is to a broker: an error, its own statistics, those of the other kind, or a note.
pub data Incoming (S : Type 0) : Type 0 where
  failed : ℕ → Incoming S
  stats : ℕ → S → Incoming S
  foreign note : Incoming S

unfoldable pub to_blackbox : BrokerMessage → Incoming BlackBoxStats
to_blackbox (error id msg) = failed id
to_blackbox (info id msg) = note
to_blackbox (warn id msg) = note
to_blackbox (black_box_stats id s) = stats id s
to_blackbox (grey_box_stats id s) = foreign

unfoldable pub to_greybox : BrokerMessage → Incoming GreyBoxStats
to_greybox (error id msg) = failed id
to_greybox (info id msg) = note
to_greybox (warn id msg) = note
to_greybox (black_box_stats id s) = foreign
to_greybox (grey_box_stats id s) = stats id s

-- The statistics of the instances, and the sums that were shown.
pub record Broker (S : Type 0) : Type 0 where
  pub instances : List (Option S)
  pub shown : List S

-- `flat_map(|i| &i.stats)`
abbrev pub prepend_some : {S : Type 0} → Option S → List S → List S
prepend_some none rest = rest
prepend_some (some s) rest = s ∷ rest

unfoldable pub present : {S : Type 0} → List (Option S) → List S
present [] = []
present (o ∷ os) = prepend_some o (present os)

-- `Run` is sent to each instance in turn, which takes it or not; the first that does not ends the run.
unfoldable pub refused : ℕ → List Bool → Option ℕ
refused i [] = none
refused i (true ∷ accepts) = refused (suc i) accepts
refused i (false ∷ accepts) = some i

module _ {S : Type 0} (aggregate : List S → Option S) where
  abbrev pub show_sum : List (Option S) → List S → Option S → Option Stop × Broker S
  show_sum instances shown none = (some panicked, record { instances = instances; shown = shown })
  show_sum instances shown (some total) =
      (none, record { instances = instances; shown = shown ++ (total ∷ []) })

  -- One message; `none` if the loop goes on.
  unfoldable pub receive : Incoming S → Broker S → Option Stop × Broker S
  receive (failed id) b = (some (instance_error id), b)
  receive foreign b = (some panicked, b)
  receive note b = (none, b)
  receive (stats id s) b =
      if ltb id (length b.instances)
      then (let instances = set b.instances id (some s) in
          show_sum instances b.shown (aggregate (present instances)))
      else (some (no_instance id), b)

  abbrev pub go_on : (Broker S → Stop × Broker S) → Option Stop × Broker S → Stop × Broker S
  go_on rest (some stop, b) = (stop, b)
  go_on rest (none, b) = rest b

  -- The loop over the messages.
  unfoldable pub receive_all :
      (BrokerMessage → Incoming S) → List BrokerMessage → Broker S → Stop × Broker S
  receive_all incoming [] b = (disconnected, b)
  receive_all incoming (m ∷ ms) b = go_on (receive_all incoming ms) (receive (incoming m) b)

  abbrev pub unless_refused : Option ℕ → (Broker S → Stop × Broker S) → Broker S → Stop × Broker S
  unless_refused (some i) loop b = (not_started i, b)
  unless_refused none loop b = loop b

  unfoldable pub run :
      (BrokerMessage → Incoming S) → List Bool → List BrokerMessage → Broker S → Stop × Broker S
  run incoming accepts ms b = unless_refused (refused 0 accepts) (receive_all incoming ms) b

unfoldable pub run_blackbox_broker :
    List Bool → List BrokerMessage → Broker BlackBoxStats → Stop × Broker BlackBoxStats
run_blackbox_broker = run (λ xs. some (aggregate_blackbox xs)) to_blackbox

unfoldable pub run_greybox_broker :
    List Bool → List BrokerMessage → Broker GreyBoxStats → Stop × Broker GreyBoxStats
run_greybox_broker = run aggregate_greybox to_greybox
