-- ===== src/Supervisor.antt =====
-- diffuzzer/src/supervisor.rs: the events of the virtual machine, as the harness asks for them. The
-- channel between the thread that reads the socket and the fuzzer is the standard library's: messages
-- are counted, and `arrivals` says how many come in before each `try_recv`, so that the other thread
-- may send while the loops below run.
pub mod Events
use diffuzzer.Prelude.{ℕ, zero, suc, ◌+◌, Bool, true, false, List, [], ◌∷◌, if◌then◌else◌}

pub record Channel : Type 0 where
  pub pending : ℕ
  pub arrivals : List ℕ
  pub connected : Bool

pub data Received : Type 0 where
  message empty disconnected : Received

-- The messages in the channel when it is next polled.
unfoldable pub waiting : ℕ → List ℕ → ℕ
waiting pending [] = pending
waiting pending (n ∷ arrivals) = pending + n

abbrev pub later : List ℕ → List ℕ
later [] = []
later (n ∷ arrivals) = arrivals

-- `try_recv`, of the messages that wait
abbrev pub take_message : ℕ → List ℕ → Bool → Received × Channel
take_message zero arrivals connected = (
  if connected then Received.empty else Received.disconnected,
  record { pending = 0; arrivals = arrivals; connected = connected },
)
take_message (suc n) arrivals connected =
    (Received.message, record { pending = n; arrivals = arrivals; connected = connected })

unfoldable pub try_recv : Channel → Received × Channel
try_recv c = take_message (waiting c.pending c.arrivals) (later c.arrivals) c.connected

-- An answer, the error of a channel that is disconnected, or no fuel left.
pub data Polled (A : Type 0) : Type 0 where
  ok : A → Polled A
  bail no_fuel : Polled A

-- `EventHandler::had_panic_event`
abbrev pub had_after :
    (Bool → Channel → Polled Bool × Channel) → Bool → Received × Channel → Polled Bool × Channel
had_after loop panicked (Received.message, c) = loop true c
had_after loop panicked (Received.empty, c) = (ok panicked, c)
had_after loop panicked (Received.disconnected, c) = (bail, c)

unfoldable pub had_panic_loop : ℕ → Bool → Channel → Polled Bool × Channel
had_panic_loop zero panicked c = (no_fuel, c)
had_panic_loop (suc fuel) panicked c = had_after (had_panic_loop fuel) panicked (try_recv c)

unfoldable pub sum : List ℕ → ℕ
sum [] = 0
sum (n ∷ ns) = n + sum ns

-- The messages there are and will be.
unfoldable pub messages : Channel → ℕ
messages c = c.pending + sum c.arrivals

unfoldable pub had_panic_event : Channel → Polled Bool × Channel
had_panic_event c = had_panic_loop (suc (messages c)) false c

-- `EventHandler::reset`
abbrev pub reset_after :
    (Channel → Polled (Unit {0}) × Channel) → Received × Channel → Polled (Unit {0}) × Channel
reset_after loop (Received.message, c) = loop c
reset_after loop (Received.empty, c) = (ok tt, c)
reset_after loop (Received.disconnected, c) = (bail, c)

unfoldable pub reset_loop : ℕ → Channel → Polled (Unit {0}) × Channel
reset_loop zero c = (no_fuel, c)
reset_loop (suc fuel) c = reset_after (reset_loop fuel) (try_recv c)

unfoldable pub reset : Channel → Polled (Unit {0}) × Channel
reset c = reset_loop (suc (messages c)) c

-- `NativeSupervisor`: no events.
unfoldable pub native_had_panic_event : Channel → Polled Bool × Channel
native_had_panic_event c = (ok false, c)

unfoldable pub native_reset : Channel → Polled (Unit {0}) × Channel
native_reset c = (ok tt, c)
