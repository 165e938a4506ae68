-- ===== src/Coverage/Queue.antt =====
-- `QueueScheduler` of schedule.rs: choices in a row.
use diffuzzer.Prelude.{
  ℕ, zero, suc, ◌+◌, ◌≤◌, ◌<◌, ◌≡◌, refl, ap, ◌∙◌, Option, some, List, [], ◌∷◌, map, length,
  get_elem?, get_elem?-lt, update_at, length-update_at, length-append, take, drop, drop_all, arith,
  leb, add64, sym, ◌*◌, ◌++◌, Bool-cases, inl, inr,
}
use diffuzzer.Operation.{Workload}
use diffuzzer.Coverage.{Seed, reset_index, choose}

-- The workloads that `n` choices in a row return.
abbrev pub chosen : ℕ → ℕ → List Seed → List (Option Workload)
chosen zero i corpus = []
chosen (suc n) i corpus = let (w, (j, corpus')) = choose i corpus in w ∷ chosen n j corpus'

abbrev pub workloads : List Seed → List (Option Workload)
workloads corpus = map (λ s. some s.workload) corpus

map-update_at :
    {A B : Type 0} (g : A → B) (f : A → A) (xs : List A) (i : ℕ)
    → ((x : A) → g (f x) ≡ g x)
    → map g (update_at xs i f) ≡ map g xs
map-update_at g f [] i h = refl
map-update_at g f (x ∷ xs) zero h = ap (λ y. y ∷ map g xs) (h x)
map-update_at g f (x ∷ xs) (suc i) h = ap (◌∷◌ (g x)) (map-update_at g f xs i h)

drop_get :
    {A B : Type 0} (g : A → B) (xs : List A) (i : ℕ) (x : A)
    → get_elem? xs i ≡ some x
    → drop i (map g xs) ≡ g x ∷ drop (suc i) (map g xs)
drop_get g [] i x h = absurd (cc)
drop_get g (y ∷ ys) zero x h = let e : y ≡ x = ground arith in rw e refl
drop_get g (y ∷ ys) (suc i) x h = drop_get g ys i x h

-- So many rounds over a list
abbrev pub rounds {ℓ} : {A : Type ℓ} → ℕ → List A → List A
rounds zero xs = []
rounds (suc m) xs = xs ++ rounds m xs

length-rounds {ℓ} : {A : Type ℓ} (m : ℕ) (xs : List A) → length (rounds m xs) ≡ m * length xs
length-rounds zero xs = omega arith
length-rounds (suc m) xs =
    length-append xs (rounds m xs) ∙ ap (λ k. length xs + k) (length-rounds m xs) ∙ omega arith

abbrev pub after_choice : ℕ → List Seed → List Seed
after_choice i corpus =
    update_at corpus i (λ s. record s { times_choosen = add64 s.times_choosen 1 })

same_workloads : (i : ℕ) (corpus : List Seed) → workloads (after_choice i corpus) ≡ workloads corpus
same_workloads i corpus = map-update_at (λ (t : Seed). some t.workload) _ corpus i (λ x. refl)

-- One choice at an index in range, and the choices after it.
chosen-suc :
    (n i j : ℕ) (corpus : List Seed) (rest : List (Option Workload))
    → reset_index i corpus ≡ j
    → j < length corpus
    → chosen n (j + 1) (after_choice j corpus) ≡ take n (drop (suc j) (workloads corpus) ++ rest)
    → chosen (suc n) i corpus ≡ take (suc n) (drop j (workloads corpus) ++ rest)
unfolding choose
chosen-suc n i j corpus rest at lt h =
    let (s, e) = get_elem?-lt corpus j lt in
    rw (at, e, drop_get (λ (t : Seed). some t.workload) corpus j s e) (ap (◌∷◌ (some s.workload)) h)

length-workloads : (corpus : List Seed) → length (workloads corpus) ≡ length corpus
length-workloads [] = refl
length-workloads (s ∷ corpus) = ap suc (length-workloads corpus)

-- So many choices from an index go on through the corpus, and then through more rounds of it.
abbrev Chooses : ℕ → Type 0
Chooses n =
    (i m : ℕ) (corpus : List Seed)
    → i ≤ length corpus
    → i + n ≤ length corpus + length (rounds m (workloads corpus))
    → chosen n i corpus ≡ take n (drop i (workloads corpus) ++ rounds m (workloads corpus))

-- The choices after one at an index in range.
later :
    (n : ℕ)
    → Chooses n
    → (i m : ℕ) (corpus : List Seed) → i < length corpus
    → suc i + n ≤ length corpus + length (rounds m (workloads corpus))
    → chosen n (i + 1) (after_choice i corpus)
      ≡ take n (drop (suc i) (workloads corpus) ++ rounds m (workloads corpus))
later n h i m corpus lt room =
    let same = same_workloads i corpus in
    let len : length (after_choice i corpus) ≡ length corpus =
      length-update_at corpus i (λ s. record s { times_choosen = add64 s.times_choosen 1 }) in
    h (i + 1) m (after_choice i corpus) (omega (arith, len))
      (omega (arith, len, ap (λ ws. length (rounds m ws)) same))
    ∙ ap (λ ws. take n (drop (i + 1) ws ++ rounds m ws)) same
    ∙ ap (λ a. take n (drop a (workloads corpus) ++ rounds m (workloads corpus))) {x = i + 1}
        {y = suc i} (omega arith)

some_rounds : (m : ℕ) (ws : List (Option Workload)) → 0 < length (rounds m ws) → 0 < length ws
some_rounds zero ws h = absurd (omega arith)
some_rounds (suc m) [] h = some_rounds m [] h
some_rounds (suc m) (w ∷ ws) h = omega arith

-- At the end of the queue, the next round begins.
wrap :
    (n : ℕ)
    → Chooses n
    → (i m : ℕ) (corpus : List Seed) → i ≡ length corpus
    → i + suc n ≤ length corpus + length (rounds m (workloads corpus))
    → chosen (suc n) i corpus
      ≡ take (suc n) (drop i (workloads corpus) ++ rounds m (workloads corpus))
unfolding reset_index
wrap n h i zero corpus end room = absurd (omega arith)
wrap n h i (suc m) corpus end room =
    let size = length-workloads corpus in
    let whole = length-append (workloads corpus) (rounds m (workloads corpus)) in
    let more : 0 < length (rounds (suc m) (workloads corpus)) = omega arith in
    let lt : 0 < length corpus = omega (arith, size, some_rounds (suc m) (workloads corpus) more) in
    chosen-suc n i 0 corpus (rounds m (workloads corpus)) (ground (arith, end)) lt
      (later n h 0 m corpus lt (omega (arith, size, whole)))
    ∙ ap (λ ws. take (suc n) (ws ++ rounds (suc m) (workloads corpus)))
        (sym (drop_all i (workloads corpus) (omega (arith, size))))

chosen_lem : (n : ℕ) → Chooses n
unfolding reset_index
chosen_lem zero i m corpus le h = refl
chosen_lem (suc n) i m corpus le h = elim (Bool-cases (leb (length corpus) i)) [
  | inr inside ↦
      let lt : i < length corpus = ground (arith, inside) in
      chosen-suc n i i corpus (rounds m (workloads corpus)) (rw inside refl) lt
        (later n (chosen_lem n) i m corpus lt (omega arith))
  | inl over ↦ wrap n (chosen_lem n) i m corpus (ground (arith, over, le)) h
]

-- The queue is circular: from its start, as many choices as there are in `m` rounds over the corpus, or
-- fewer, return the workloads of the seeds in the order of the corpus, round after round.
pub choose-rounds :
    (n m : ℕ) (corpus : List Seed)
    → n ≤ m * length corpus
    → chosen n 0 corpus ≡ take n (rounds m (workloads corpus))
choose-rounds n zero corpus h = elim_zero n (omega arith)
  where
    elim_zero : (n : ℕ) → n ≡ 0 → chosen n 0 corpus ≡ take n []
    elim_zero zero e = refl
    elim_zero (suc n) e = absurd (omega arith)
choose-rounds n (suc m) corpus h =
    chosen_lem n 0 m corpus (omega arith)
      (omega (arith, length-rounds m (workloads corpus), ap (λ k. m * k) (length-workloads corpus)))
