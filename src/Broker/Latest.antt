-- ===== src/Broker/Latest.antt =====
-- The brokers' loop on messages of known instances.
use diffuzzer.Prelude.{
  ℕ, zero, suc, ◌<◌, ◌≡◌, ◌≢◌, refl, sym, subst, Bool, true, false, Option, none, some, List, [],
  ◌∷◌, ◌++◌, if◌then◌else◌, ◌==◌, arith, length, set, get_elem?, length-set, All, map, max, lt→ltb,
}
use diffuzzer.Blackbox.Stats.{
  BlackBoxStats, GreyBoxStats, aggregate_blackbox, aggregate_greybox, with_sizes, maximum, greater,
}
use diffuzzer.Broker.{
  BrokerMessage, Stop, disconnected, Incoming, failed, stats, foreign, note, to_blackbox,
  to_greybox, Broker, present, receive, receive_all, refused, run, run_blackbox_broker,
  run_greybox_broker,
}

none-refused :
    (i : ℕ) (accepts : List Bool) → All (λ a. a ≡ true) accepts → refused i accepts ≡ none
unfolding refused
none-refused i [] h = refl
none-refused i (true ∷ accepts) h = none-refused (suc i) accepts h.1
none-refused i (false ∷ accepts) h = absurd (cc)

module _ {S : Type 0} where
  -- A note, or statistics of one of `n` instances.
  abbrev pub Expected : ℕ → Incoming S → Type 0
  Expected n (failed id) = ⊥
  Expected n (stats id s) = id < n
  Expected n foreign = ⊥
  Expected n note = Unit

  -- The statistics of an instance after a message, and after messages.
  abbrev pub updated : ℕ → Option S → Incoming S → Option S
  updated i old (stats id s) = if id == i then some s else old
  updated i old (failed id) = old
  updated i old foreign = old
  updated i old note = old

  abbrev pub latest : ℕ → Option S → List (Incoming S) → Option S
  latest i old [] = old
  latest i old (m ∷ ms) = latest i (updated i old m) ms

  present-set :
      (os : List (Option S)) (i : ℕ) (s : S) → i < length os → present (set os i (some s)) ≢ []
  unfolding present
  present-set [] i s h e = elim h [ ]
  present-set (o ∷ os) zero s h e = cc
  present-set (none ∷ os) (suc i) s h e = present-set os i s (omega arith) e
  present-set (some t ∷ os) (suc i) s h e = cc

  get_elem?-set :
      (os : List (Option S)) (i j : ℕ) (s old : Option S)
      → get_elem? os j ≡ some old
      → get_elem? (set os i s) j ≡ some (if i == j then s else old)
  get_elem?-set [] i j s old e = absurd (cc)
  get_elem?-set (o ∷ os) zero zero s old e = refl
  get_elem?-set (o ∷ os) zero (suc j) s old e = ground (arith, e)
  get_elem?-set (o ∷ os) (suc i) zero s old e = ground (arith, e)
  get_elem?-set (o ∷ os) (suc i) (suc j) s old e = ground (arith, get_elem?-set os i j s old e)

  -- The loop has come to the end of the messages, and each instance has the last statistics it sent.
  pub record Kept (ms : List (Incoming S)) (b : Broker S) (r : Stop × Broker S) : Type 0 where
    pub drained : r.0 ≡ disconnected
    pub known :
        (i : ℕ) (old : Option S)
        → get_elem? b.instances i ≡ some old
        → get_elem? r.1.instances i ≡ some (latest i old ms)

  module _ (aggregate : List S → Option S)
      (total : (xs : List S) → xs ≢ [] → (t : S) × (aggregate xs ≡ some t))
      (incoming : BrokerMessage → Incoming S) where
    -- One expected message lets the loop go on.
    received :
        (m : Incoming S) (b : Broker S)
        → Expected (length b.instances) m
        → (b' : Broker S) × (receive aggregate m b ≡ (none, b'))
          × (length b'.instances ≡ length b.instances)
          × ((i : ℕ) (old : Option S)
              → get_elem? b.instances i ≡ some old
              → get_elem? b'.instances i ≡ some (updated i old m))
    unfolding receive
    received (failed id) b h = elim h [ ]
    received foreign b h = elim h [ ]
    received note b h = (b, refl, refl, λ i old e. e)
    received (stats id s) b h =
        let instances = set b.instances id (some s) in
        let (t, sum) = total (present instances) (present-set b.instances id s h) in
        (
          record { instances = instances; shown = b.shown ++ (t ∷ []) },
          rw (lt→ltb id (length b.instances) h, sum) refl,
          length-set b.instances id (some s),
          λ i old e. get_elem?-set b.instances id i (some s) old e,
        )

    receive_all-Kept :
        (ms : List BrokerMessage) (b : Broker S)
        → All (λ m. Expected (length b.instances) (incoming m)) ms
        → Kept (map incoming ms) b (receive_all aggregate incoming ms b)
    unfolding receive_all
    receive_all-Kept [] b h = record { drained = refl; known = λ i old e. e }
    receive_all-Kept (m ∷ ms) b h =
        let (b', step, same, known) = received (incoming m) b h.0 in
        let rest =
          receive_all-Kept ms b'
            (subst (λ n. All (λ x. Expected n (incoming x)) ms) (sym same) h.1) in
        rw step (record {
          drained = rest.drained;
          known = λ i old e. rest.known i (updated i old (incoming m)) (known i old e);
        })

    run-Kept :
        (accepts : List Bool) (ms : List BrokerMessage) (b : Broker S)
        → All (λ a. a ≡ true) accepts
        → All (λ m. Expected (length b.instances) (incoming m)) ms
        → Kept (map incoming ms) b (run aggregate incoming accepts ms b)
    unfolding run
    run-Kept accepts ms b started h = rw (none-refused 0 accepts started) (receive_all-Kept ms b h)

maximum-some : (n : ℕ) (ns : List ℕ) → (m : ℕ) × (maximum (n ∷ ns) ≡ some m)
unfolding maximum
maximum-some n ns = go (maximum ns)
  where
    go : (o : Option ℕ) → (m : ℕ) × (greater n o ≡ some m)
    go none = (n, refl)
    go (some k) = (max n k, refl)

sized :
    (s : GreyBoxStats) (rest : List GreyBoxStats) (a b c : ℕ)
    → (t : GreyBoxStats) × (with_sizes (s ∷ rest) (some a) (some b) (some c) ≡ some t)
sized s rest a b c = (_, refl)

-- Sums of statistics do not panic if there are some.
aggregate_greybox_total :
    (xs : List GreyBoxStats) → xs ≢ [] → (t : GreyBoxStats) × (aggregate_greybox xs ≡ some t)
unfolding aggregate_greybox
aggregate_greybox_total [] h = absurd (h refl)
aggregate_greybox_total (s ∷ rest) h =
    let (a, ea) = maximum-some s.corpus_size (map (λ (x : GreyBoxStats). x.corpus_size) rest) in
    let (b, eb) =
      maximum-some s.fst_coverage_size (map (λ (x : GreyBoxStats). x.fst_coverage_size) rest) in
    let (c, ec) =
      maximum-some s.snd_coverage_size (map (λ (x : GreyBoxStats). x.snd_coverage_size) rest) in
    let (t, sum) = sized s rest a b c in (t, rw (ea, eb, ec) sum)

-- A grey-box broker that can start its instances, and whose messages are notes and grey-box statistics
-- of instances that there are, does not panic: its loop comes to the end of the messages, and then each instance has the last statistics
-- that it sent.
pub run_greybox_broker-Kept :
    (accepts : List Bool) (ms : List BrokerMessage) (b : Broker GreyBoxStats)
    → All (λ a. a ≡ true) accepts
    → All (λ m. Expected (length b.instances) (to_greybox m)) ms
    → Kept (map to_greybox ms) b (run_greybox_broker accepts ms b)
unfolding run_greybox_broker
run_greybox_broker-Kept = run-Kept aggregate_greybox aggregate_greybox_total to_greybox

-- The same of a black-box broker and black-box statistics.
run_blackbox_broker-Kept :
    (accepts : List Bool) (ms : List BrokerMessage) (b : Broker BlackBoxStats)
    → All (λ a. a ≡ true) accepts
    → All (λ m. Expected (length b.instances) (to_blackbox m)) ms
    → Kept (map to_blackbox ms) b (run_blackbox_broker accepts ms b)
unfolding run_blackbox_broker
run_blackbox_broker-Kept =
    run-Kept (λ xs. some (aggregate_blackbox xs)) (λ xs h. (aggregate_blackbox xs, refl))
      to_blackbox
