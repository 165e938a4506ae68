-- ===== src/Greybox/Length.antt =====
-- greybox/mutator.rs: how long a mutated workload is.
use diffuzzer.Prelude.{
  ℕ, zero, suc, ◌+◌, ◌≤◌, ◌<◌, ◌≡◌, refl, sym, ap, ◌∙◌, Bool, true, false, none, some, List, [],
  ◌∷◌, ◌++◌, map, max, arith, subst, inl, inr, Bool-cases, if◌then◌else◌, ltb, leb, length, take,
  drop, is_empty, Option, ◌-◌, length-append, length-take, length-drop,
}
use diffuzzer.Operation.{Workload, kind_of}
use diffuzzer.Fs.State.{Result, ok, err, panic, overflow}
use diffuzzer.Generator.Draws.{Random, RandomLaws}
use diffuzzer.Generator.Weights.{Weighted, retain_found, kind_at-Weighted}
use diffuzzer.Mutator
use diffuzzer.Mutator.{without}
use diffuzzer.Mutator.Kind.{MutationKind, MutationWeights, same_kind}
use diffuzzer.Mutator.Removal.{remove-Reduced}
use diffuzzer.Mutator.Insertion.{insert-Between}
use diffuzzer.Greybox.Mutate.{
  Settings, drop_if, applicable, replaced, mutate_as, mutate_once, count_try, mutate_loop, mutate,
}

length-map : {A B : Type 0} (f : A → B) (xs : List A) → length (map f xs) ≡ length xs
length-map f [] = refl
length-map f (x ∷ xs) = ap suc (length-map f xs)

-- Lists with the same kinds are equally long.
length_of_kinds : (v w : Workload) → map kind_of v ≡ map kind_of w → length v ≡ length w
length_of_kinds v w e = sym (length-map kind_of v) ∙ ap length e ∙ length-map kind_of w

length-without : (w : Workload) (i : ℕ) → length (without w i) ≤ length w
length-without [] i = omega arith
length-without (op ∷ ops) zero = omega arith
length-without (op ∷ ops) (suc i) = omega (arith, length-without ops i)

drop_if-Weighted :
    (b : Bool) (dropped kind : MutationKind) (weights : MutationWeights)
    → Weighted (drop_if b dropped weights) kind
    → Weighted weights kind × (b ≡ true → same_kind kind dropped ≡ false)
unfolding drop_if
drop_if-Weighted false dropped kind weights h = (h, λ e. cc)
drop_if-Weighted true dropped kind weights h =
    let (j, f, q) = retain_found _ weights h.index (kind, h.weight) h.found in
    (
      record { index = j; weight = h.weight; found = f; positive = h.positive },
      λ _. ground (arith, q),
    )

-- An insertion is drawn only for a workload that is shorter than the longest.
insertable :
    (settings : Settings) (input : Workload)
    → Weighted (applicable settings input) MutationKind.insert
    → length input < settings.max_length
unfolding applicable same_kind
insertable settings input h =
    let kept =
      drop_if-Weighted (leb settings.max_length (length input)) MutationKind.insert
        MutationKind.insert _ h in
    elim (Bool-cases (leb settings.max_length (length input))) [
      | inl e ↦ absurd (ground (arith, kept.1 e))
      | inr e ↦ ground (arith, e)
    ]

module _ {R : Type 0} (random : Random R) (laws : RandomLaws random) (depth steps retries : ℕ)
    (settings : Settings) where
  length-insert :
      (rng : R) (input : Workload) (index : ℕ) (w : Workload)
      → (Mutator.insert random depth steps retries rng input index settings.operation_weights).0
        ≡ ok (some w)
      → length w ≤ length input + 1
  length-insert rng input index w e =
      let b =
        insert-Between random laws depth steps retries rng input index settings.operation_weights w
          e in
      let total = ap length b.kinds in
      omega (
        arith,
        total,
        length-map kind_of w,
        b.short,
        length-append (map kind_of (take index input))
            (map kind_of b.middle ++ map kind_of (drop index input)),
        length-append (map kind_of b.middle) (map kind_of (drop index input)),
        length-map kind_of b.middle,
        length-map kind_of (take index input),
        length-map kind_of (drop index input),
        length-take index input,
        length-drop index input,
      )

  length-remove :
      (input : Workload) (index : ℕ) (w : Workload)
      → Mutator.remove depth input index ≡ ok (some w)
      → length w ≤ length input
  length-remove input index w e = omega (
    arith,
    length-without input index,
    length_of_kinds w (without input index) (remove-Reduced depth input index w e).kinds,
  )

  -- No longer than the bound, or than the input if that is longer.
  Bounded : Workload → Workload → Type 0
  Bounded input w = length w ≤ max (length input) settings.max_length

  replaced-Bounded :
      (input : Workload) (r : Result (Option Workload)) (b : Bool) (w : Workload)
      → ((v : Workload) → r ≡ ok (some v) → Bounded input v)
      → replaced input r ≡ ok (b, w)
      → Bounded input w
  unfolding Bounded
  replaced-Bounded input (ok none) b w h e =
      let kept : input ≡ w = ground (arith, e) in
      subst (λ (v : Workload). length v ≤ max (length input) settings.max_length) kept (omega arith)
  replaced-Bounded input (ok (some v)) b w h e =
      let kept : v ≡ w = ground (arith, e) in subst (Bounded input) kept (h v refl)
  replaced-Bounded input (err x) b w h e = absurd (cc)
  replaced-Bounded input panic b w h e = absurd (cc)
  replaced-Bounded input overflow b w h e = absurd (cc)

  mutate_as-Bounded :
      (rng : R) (input : Workload) (r : Result MutationKind) (b : Bool) (w : Workload)
      → ((kind : MutationKind) → r ≡ ok kind → Weighted (applicable settings input) kind)
      → (mutate_as random depth steps retries settings rng input r).0 ≡ ok (b, w)
      → Bounded input w
  unfolding Bounded
  mutate_as-Bounded rng input (ok MutationKind.insert) b w h e =
      replaced-Bounded input _ b w
        (λ v f. omega (
          arith,
          length-insert _ input _ v f,
          insertable settings input (h MutationKind.insert refl),
        ))
        e
  mutate_as-Bounded rng input (ok MutationKind.remove) b w h e =
      elim (Bool-cases (is_empty input)) [
        | inl none_left ↦ absurd (ground (arith, e, none_left))
        | inr some_left ↦
            replaced-Bounded input
              (Mutator.remove depth input (random.range 0 (length input - 1) rng).0) b w
              (λ v f. omega (arith, length-remove input _ v f)) (ground (arith, e, some_left))
      ]
  mutate_as-Bounded rng input (err x) b w h e = absurd (cc)
  mutate_as-Bounded rng input panic b w h e = absurd (cc)
  mutate_as-Bounded rng input overflow b w h e = absurd (cc)

  mutate_once-Bounded :
      (rng : R) (input : Workload) (b : Bool) (w : Workload)
      → (mutate_once random depth steps retries settings rng input).0 ≡ ok (b, w)
      → Bounded input w
  unfolding mutate_once
  mutate_once-Bounded rng input b w e =
      mutate_as-Bounded _ input _ b w
        (λ kind f.
          kind_at-Weighted (applicable settings input) _ kind
            (λ j g. laws.weighted_positive _ rng j g) f)
        e

  mutate_loop-Bounded :
      (attempts n : ℕ) (rng : R) (input w : Workload)
      → (mutate_loop random depth steps retries settings attempts n rng input).0 ≡ ok w
      → Bounded input w
  unfolding mutate_loop Bounded
  mutate_loop-Bounded attempts zero rng input w e =
      let kept : input ≡ w = ground (arith, e) in
      subst (λ (v : Workload). length v ≤ max (length input) settings.max_length) kept (omega arith)
  mutate_loop-Bounded zero (suc n) rng input w e = absurd (cc)
  mutate_loop-Bounded (suc attempts) (suc n) rng input w e =
      go (mutate_loop-Bounded attempts) (mutate_once random depth steps retries settings rng input)
        (mutate_once-Bounded rng input) e
    where
      go :
          ((n : ℕ) (rng : R) (input w : Workload)
            → (mutate_loop random depth steps retries settings attempts n rng input).0 ≡ ok w
            → Bounded input w)
          → (r : Result (Bool × Workload) × R)
          → ((b : Bool) (v : Workload) → r.0 ≡ ok (b, v) → Bounded input v)
          → (count_try (mutate_loop random depth steps retries settings attempts) n r).0 ≡ ok w
          → Bounded input w
      go ih (ok (true, v), rng') h f = omega (arith, ih n rng' v w f, h true v refl)
      go ih (ok (false, v), rng') h f = omega (arith, ih (suc n) rng' v w f, h false v refl)
      go ih (err x, rng') h f = absurd (cc)
      go ih (panic, rng') h f = absurd (cc)
      go ih (overflow, rng') h f = absurd (cc)

  -- A workload that `mutate` returns has no more operations than the longest allowed, or than the
  -- input where that is longer.
  pub length-mutate :
      (attempts : ℕ) (rng : R) (input w : Workload)
      → (mutate random depth steps retries settings attempts rng input).0 ≡ ok w
      → length w ≤ max (length input) settings.max_length
  unfolding mutate Bounded
  length-mutate attempts rng input w e = elim (Bool-cases (ltb 0 settings.max_mutations)) [
    | inl positive ↦
        let (n, rng') = random.range 1 settings.max_mutations rng in
        mutate_loop-Bounded attempts n rng' input w (
          subst
            (λ b.
              (if b
                then mutate_loop random depth steps retries settings attempts n rng' input
                else (panic, rng)).0
              ≡ ok w)
            positive e)
    | inr none_allowed ↦ absurd (ground (arith, e, none_allowed))
  ]
