-- ===== src/Supervisor/Events.antt =====
-- supervisor.rs: what the loops over the events return, and the channel that they leave.
use diffuzzer.Prelude.{
  ℕ, zero, suc, ◌+◌, ◌≤◌, ◌<◌, ◌≡◌, refl, sym, ap, ap₂, ◌∙◌, Bool, true, false, List, [], ◌∷◌, ◌||◌,
  if◌then◌else◌, ltb, arith, subst,
}
use diffuzzer.Supervisor.{
  Channel, waiting, later, take_message, try_recv, Polled, ok, bail, had_after, had_panic_loop, sum,
  messages, had_panic_event, reset_after, reset_loop, reset,
}

waiting-later :
    (pending : ℕ) (arrivals : List ℕ)
    → waiting pending arrivals + sum (later arrivals) ≡ pending + sum arrivals
unfolding waiting sum
waiting-later pending [] = omega arith
waiting-later pending (n ∷ arrivals) = omega arith

-- How a loop ends on a channel: with an answer if it is connected and with an error if not, and no
-- message waits.
abbrev pub Ends : {A : Type 0} → A → Channel → Polled A × Channel → Type 0
Ends answer c r =
    (r.0 ≡ (if c.connected then ok answer else bail))
    × (r.1.pending ≡ 0)
    × (r.1.connected ≡ c.connected)

or_false : (b : Bool) → b ≡ b || false
or_false true = refl
or_false false = refl

or_positive : (b : Bool) (n : ℕ) → b || ltb 0 (suc n) ≡ true
or_positive b n = ground arith

had_panic_loop-Ends :
    (fuel : ℕ) (panicked : Bool) (c : Channel)
    → messages c < fuel
    → Ends (panicked || ltb 0 (waiting c.pending c.arrivals)) c (had_panic_loop fuel panicked c)
unfolding had_panic_loop messages try_recv
had_panic_loop-Ends zero panicked c h = absurd (omega arith)
had_panic_loop-Ends (suc fuel) panicked c h =
    go
      (λ n arrivals connected k.
        had_panic_loop-Ends fuel true
          (record { pending = n; arrivals = arrivals; connected = connected }) k)
      (waiting c.pending c.arrivals) (later c.arrivals) c.connected
      (omega (arith, waiting-later c.pending c.arrivals))
  where
    go :
        ((n : ℕ) (arrivals : List ℕ) (connected : Bool)
          → n + sum arrivals < fuel
          → Ends true
              (record { pending = n; arrivals = arrivals; connected = connected })
              (had_panic_loop fuel true
                (record { pending = n; arrivals = arrivals; connected = connected })))
        → (n : ℕ) (arrivals : List ℕ) (connected : Bool) → n + sum arrivals ≤ fuel
        → Ends
            (panicked || ltb 0 n)
            (record { pending = c.pending; arrivals = c.arrivals; connected = connected })
            (had_after (had_panic_loop fuel) panicked (take_message n arrivals connected))
    go ih zero arrivals true k = (ap ok (or_false panicked), refl, refl)
    go ih zero arrivals false k = (refl, refl, refl)
    go ih (suc n) arrivals connected k =
        subst
          (λ b.
            Ends b (record { pending = n; arrivals = arrivals; connected = connected })
              (had_panic_loop fuel true
                (record { pending = n; arrivals = arrivals; connected = connected })))
          (sym (or_positive panicked n)) (ih n arrivals connected (omega arith))

-- `had_panic_event` on a channel whose sender lives returns, and says whether a message waits when it
-- is first polled; on a disconnected channel it fails. In both cases no message is left waiting.
pub had_panic_event-Ends :
    (c : Channel) → Ends (ltb 0 (waiting c.pending c.arrivals)) c (had_panic_event c)
unfolding had_panic_event
had_panic_event-Ends c = had_panic_loop-Ends (suc (messages c)) false c (omega arith)

reset_loop-Ends : (fuel : ℕ) (c : Channel) → messages c < fuel → Ends tt c (reset_loop fuel c)
unfolding reset_loop messages try_recv
reset_loop-Ends zero c h = absurd (omega arith)
reset_loop-Ends (suc fuel) c h =
    go
      (λ n arrivals connected k.
        reset_loop-Ends fuel (record { pending = n; arrivals = arrivals; connected = connected }) k)
      (waiting c.pending c.arrivals) (later c.arrivals) c.connected
      (omega (arith, waiting-later c.pending c.arrivals))
  where
    go :
        ((n : ℕ) (arrivals : List ℕ) (connected : Bool)
          → n + sum arrivals < fuel
          → Ends tt
              (record { pending = n; arrivals = arrivals; connected = connected })
              (reset_loop fuel
                (record { pending = n; arrivals = arrivals; connected = connected })))
        → (n : ℕ) (arrivals : List ℕ) (connected : Bool) → n + sum arrivals ≤ fuel
        → Ends tt
            (record { pending = c.pending; arrivals = c.arrivals; connected = connected })
            (reset_after (reset_loop fuel) (take_message n arrivals connected))
    go ih zero arrivals true k = (refl, refl, refl)
    go ih zero arrivals false k = (refl, refl, refl)
    go ih (suc n) arrivals connected k = ih n arrivals connected (omega arith)

-- Messages of before a reset do not count: after `reset` on a channel whose sender lives, if `k`
-- messages are sent and none come in while it is polled, `had_panic_event` says whether `k` is above 0.
pub reset-had_panic_event :
    (c : Channel) (k : ℕ)
    → c.connected ≡ true
    → ((reset c).0 ≡ ok tt)
      × ((had_panic_event
            (record (reset c).1 { pending = (reset c).1.pending + k; arrivals = [] })).0
          ≡ ok (ltb 0 k))
unfolding reset waiting
reset-had_panic_event c k alive =
    let (answer, drained, kept) = reset_loop-Ends (suc (messages c)) c (omega arith) in
    let after = record (reset c).1 { pending = (reset c).1.pending + k; arrivals = [] } in
    let (said, _, _) = had_panic_event-Ends after in
    (
      answer ∙ ap (λ b. if b then ok tt else bail) alive,
      said
          ∙ ap₂ (λ b n. if b then ok (ltb 0 n) else bail) (kept ∙ alive)
              (ap (λ n. n + k) drained ∙ (omega arith)),
    )
