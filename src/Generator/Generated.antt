-- ===== src/Generator/Generated.antt =====
-- generator.rs: one generated operation, and a generated test.
use diffuzzer.Prelude.{
  ℕ, zero, suc, ◌+◌, ◌≤◌, ◌≡◌, refl, sym, ◌∙◌, [], ◌∷◌, arith, subst, length, All, All-append,
  length-append,
}
use diffuzzer.PathName.{Name}
use diffuzzer.Operation.{Operation, OperationKind, OperationWeights, Workload, kind_of}
use diffuzzer.Fs.State.{AbstractFs, Result, ok, err, panic, overflow, bind, new}
use diffuzzer.Generator.Draws.{Random, RandomLaws, Gen}
use diffuzzer.Generator.Grown.{
  GrownBy, same, added, GrownBy-mono, Fixed-ask, Fixed-choose_weighted, Fixed-pure, >>=-ok,
}
use diffuzzer.Generator.Kinds.{made, apply_kind-Grows}
use diffuzzer.Generator.Weights.{Weighted, applicable-HasTarget, choose_weighted-Weighted}
use diffuzzer.Generator.{append_one, append_times, generate_new, next_name, applicable, targets_of}
use diffuzzer.Fs.Alive.{alive}

-- The operation has the kind that is made for a kind with a positive weight.
pub record Drawn (weights : OperationWeights) (op : Operation) : Type 0 where
  pub kind : OperationKind
  pub weighted : Weighted weights kind
  pub kind_made : kind_of op ≡ made kind

-- No more operations than were asked for, each drawn.
pub record Generated (size : ℕ) (weights : OperationWeights) (w : Workload) : Type 0 where
  pub short : length w ≤ size
  pub drawn : All (Drawn weights) w

module _ {R G : Type 0} (random : Random R) (laws : RandomLaws random)
    (gen_name : G → Result (Name × G)) (depth retries : ℕ) where
  -- `append_one`, where it returns, adds at most one operation to the recording, and its kind is that
  -- of a kind with a positive weight, a read for a write and a write for a read.
  pub append_one-GrownBy :
      (steps : ℕ) (weights : OperationWeights) (s s' : Gen R G)
      → append_one random gen_name depth retries steps weights s ≡ (ok tt, s')
      → GrownBy (Drawn weights) s.fs.recording s'.fs.recording
  unfolding append_one
  append_one-GrownBy steps weights s s' h =
      let (a, s₁, e₁, h₁) = >>=-ok _ _ s s' tt h in
      let (t, s₂, e₂, h₂) = >>=-ok _ _ s₁ s' tt h₁ in
      let (kind, s₃, e₃, h₃) = >>=-ok _ _ s₂ s' tt h₂ in
      let drawn = choose_weighted-Weighted random laws (applicable t weights) s₂ s₃ kind e₃ in
      let kept : s₃.fs ≡ s.fs =
        (Fixed-choose_weighted random (applicable t weights)).at s₂ s₃ kind e₃
        ∙ (Fixed-ask (λ fs. targets_of fs a)).at s₁ s₂ t e₂
        ∙ (Fixed-ask (λ fs. alive fs depth steps)).at s s₁ a e₁ in
      subst (λ (fs : AbstractFs). GrownBy (Drawn weights) fs.recording s'.fs.recording) kept
        (GrownBy-mono _ _ _ _
          (λ op e. record {
            kind = kind;
            weighted = (applicable-HasTarget t weights kind drawn).0;
            kind_made = e;
          })
          ((apply_kind-Grows random gen_name depth retries t kind).at s₃ s' tt h₃))

  append_times-Generated :
      (steps size k : ℕ) (weights : OperationWeights) (s s' : Gen R G)
      → append_times random gen_name depth retries steps size weights s ≡ (ok tt, s')
      → Generated k weights s.fs.recording
      → Generated (k + size) weights s'.fs.recording
  unfolding append_times
  append_times-Generated steps zero k weights s s' h g =
      let kept = (Fixed-pure tt).at s s' tt h in
      subst (λ (fs : AbstractFs). Generated (k + 0) weights fs.recording) (sym kept)
        (record { short = omega (arith, g.short); drawn = g.drawn })
  append_times-Generated steps (suc size) k weights s s' h g =
      let (u, t, e₁, h₁) = >>=-ok _ _ s s' tt h in
      let sum : suc k + size ≡ k + suc size = omega arith in
      subst (λ n. Generated n weights s'.fs.recording) sum
        (append_times-Generated steps size (suc k) weights t s' h₁
          (once s.fs.recording t.fs.recording g (append_one-GrownBy steps weights s t e₁)))
    where
      once :
          (w w' : Workload)
          → Generated k weights w
          → GrownBy (Drawn weights) w w'
          → Generated (suc k) weights w'
      once w w' g (same e) =
          subst (Generated (suc k) weights) (sym e)
            (record { short = omega (arith, g.short); drawn = g.drawn })
      once w w' g (added op p e) = subst (Generated (suc k) weights) (sym e) (record {
        short = omega (arith, g.short, length-append w (op ∷ []));
        drawn = All-append _ w _ g.drawn (p, tt);
      })

append_times-all :
    {R : Type 0} (random : Random R)
    → RandomLaws random
    → (depth steps retries size : ℕ) (weights : OperationWeights) (r : Result (Unit {0}))
      (s s' : Gen R ℕ) (w : Workload)
    → append_times random next_name depth retries steps size weights s ≡ (r, s')
    → s.fs.recording ≡ []
    → bind r (λ u. ok s'.fs.recording) ≡ ok w
    → Generated size weights w
append_times-all random laws depth steps retries size weights (ok u) s s' w h e k =
    let returned : s'.fs.recording ≡ w = ground (arith, k) in
    let sum : 0 + size ≡ size = omega arith in
    subst (Generated size weights) returned (
      subst (λ n. Generated n weights s'.fs.recording) sum
        (append_times-Generated random laws next_name depth retries steps size 0 weights s s' h
          (subst (Generated 0 weights) (sym e) (record { short = omega arith; drawn = tt }))))
append_times-all random laws depth steps retries size weights (err x) s s' w h e k = absurd (cc)
append_times-all random laws depth steps retries size weights panic s s' w h e k = absurd (cc)
append_times-all random laws depth steps retries size weights overflow s s' w h e k = absurd (cc)

-- A test that `generate_new` returns has no more operations than its size, and each has the kind of a
-- kind with a positive weight, a read for a write and a write for a read.
pub generate_new-Generated :
    {R : Type 0} (random : Random R)
    → RandomLaws random
    → (depth steps retries : ℕ) (rng : R) (size : ℕ) (weights : OperationWeights) (w : Workload)
    → (generate_new random depth steps retries rng size weights).0 ≡ ok w
    → Generated size weights w
unfolding generate_new
generate_new-Generated random laws depth steps retries rng size weights w h =
    append_times-all random laws depth steps retries size weights _
      (record { rng = rng; names = 0; fs = new }) _ w refl refl h
