-- ===== src/Coverage/Counts.antt =====
-- `opinion` of feedback/kcov.rs: the counts and the verdict.
use diffuzzer.Prelude.{
  ℕ, suc, ◌+◌, ◌<◌, ◌≡◌, ◌≢◌, refl, sym, ap, ap₂, ◌∙◌, Bool, true, false, ◌||◌, some, [], ◌∷◌,
  if◌then◌else◌, ◌==◌, All, length, add64, add64_lem, u64_mod, arith, Bool-cases, inl, inr,
}
use diffuzzer.Coverage.{
  CoverageMap, InputCoverage, get, insert, get_or, keys, is_interesting, count_keys, opinion_of,
  opinion,
}

-- How often an address was seen.
abbrev pub count : ℕ → CoverageMap → ℕ
count a m = get_or 0 (get a m)

get-insert_same : (k n : ℕ) (m : CoverageMap) → get k (insert k n m) ≡ some n
unfolding get insert
get-insert_same k n [] = let e : (k == k) ≡ true = ground arith in rw e refl
get-insert_same k n ((a, i) ∷ m) = elim (Bool-cases (a == k)) [
  | inl e ↦ rw (e, e) refl
  | inr e ↦ rw (e, e) (get-insert_same k n m)
]

get-insert_other : (j k n : ℕ) (m : CoverageMap) → k ≢ j → get j (insert k n m) ≡ get j m
unfolding get insert
get-insert_other j k n [] h = let e : (k == j) ≡ false = ground arith in rw e refl
get-insert_other j k n ((a, i) ∷ m) h = elim (Bool-cases (a == k)) [
  | inl e ↦ let f : (a == j) ≡ false = ground (arith, h, e) in rw (e, f) refl
  | inr e ↦ rw e (ap (λ r. if a == j then some i else r) (get-insert_other j k n m h))
]

-- No address occurs twice, as in the keys of a map.
abbrev pub Distinct : InputCoverage → Type 0
Distinct [] = Unit
Distinct (a ∷ c) = All (λ b. a ≢ b) c × Distinct c

-- Whether an address has not been seen.
abbrev pub any_new : InputCoverage → CoverageMap → Bool
any_new [] m = false
any_new (a ∷ c) m = (count a m == 0) || any_new c m

abbrev pub occurs : ℕ → InputCoverage → ℕ
occurs x [] = 0
occurs x (a ∷ c) = let rest = occurs x c in if a == x then suc rest else rest

any_new-insert :
    (k n : ℕ) (c : InputCoverage) (m : CoverageMap)
    → All (λ b. k ≢ b) c
    → any_new c (insert k n m) ≡ any_new c m
any_new-insert k n [] m h = refl
any_new-insert k n (a ∷ c) m h =
    ap₂ ◌||◌ (ap (λ o. get_or 0 o == 0) (get-insert_other a k n m h.0)) (any_new-insert k n c m h.1)

or_assoc : (a b c : Bool) → ((a || b) || c) ≡ (a || (b || c))
or_assoc true b c = refl
or_assoc false b c = refl

or_false : (a : Bool) → (a || false) ≡ a
or_false true = refl
or_false false = refl

count_keys-new :
    (c : InputCoverage) (b : Bool) (m : CoverageMap)
    → Distinct c
    → (count_keys c (b, m)).0 ≡ (b || any_new c m)
unfolding count_keys
count_keys-new [] b m h = sym (or_false b)
count_keys-new (a ∷ c) b m h =
    count_keys-new c (b || (count a m == 0)) (insert a (add64 (count a m) 1) m) h.1
    ∙ ap (λ r. (b || (count a m == 0)) || r) (any_new-insert a (add64 (count a m) 1) c m h.0)
    ∙ or_assoc b (count a m == 0) (any_new c m)

-- An input is interesting exactly when it covers an address that was not counted before.
pub opinion-new :
    (new_coverage m : CoverageMap)
    → Distinct (keys new_coverage)
    → is_interesting (opinion new_coverage m).0 ≡ any_new (keys new_coverage) m
unfolding opinion opinion_of is_interesting
opinion-new new_coverage m h = elim (Bool-cases (any_new (keys new_coverage) m)) [
  | inl e ↦ rw (count_keys-new (keys new_coverage) false m h, e) refl
  | inr e ↦ rw (count_keys-new (keys new_coverage) false m h, e) refl
]

count-insert :
    (x a : ℕ) (m : CoverageMap)
    → count a m + 1 < u64_mod
    → count x (insert a (add64 (count a m) 1) m) ≡ count x m + occurs x (a ∷ [])
unfolding get_or
count-insert x a m h = elim (Bool-cases (a == x)) [
  | inl e ↦
      let same : a ≡ x = ground (arith, e) in
      rw (e, ← same, get-insert_same a (add64 (count a m) 1) m) (add64_lem (count a m) 1 h)
  | inr e ↦
      let other : a ≢ x = λ q. ground (arith, e, q) in
      rw (e, get-insert_other x a (add64 (count a m) 1) m other) (omega arith)
]

count_keys-count :
    (x : ℕ) (c : InputCoverage) (b : Bool) (m : CoverageMap)
    → ((a : ℕ) → count a m + length c < u64_mod)
    → count x (count_keys c (b, m)).1 ≡ count x m + occurs x c
unfolding count_keys
count_keys-count x [] b m h = omega arith
count_keys-count x (a ∷ c) b m h =
    let step = λ (y : ℕ). count-insert y a m (omega (arith, h a)) in
    let m' = insert a (add64 (count a m) 1) m in
    let room = λ (y : ℕ). at_most_one y a c m' m (step y) (h y) in
    count_keys-count x c (b || (count a m == 0)) m' room ∙ total_occurs x a c m' m (step x)
  where
    at_most_one :
        (y a : ℕ) (c : InputCoverage) (m' m : CoverageMap)
        → count y m' ≡ count y m + occurs y (a ∷ [])
        → count y m + suc (length c) < u64_mod
        → count y m' + length c < u64_mod
    at_most_one y a c m' m e r = elim (Bool-cases (a == y)) [
      | inl s ↦ ground (arith, e, r, s)
      | inr s ↦ ground (arith, e, r, s)
    ]

    total_occurs :
        (y a : ℕ) (c : InputCoverage) (m' m : CoverageMap)
        → count y m' ≡ count y m + occurs y (a ∷ [])
        → count y m' + occurs y c ≡ count y m + occurs y (a ∷ c)
    total_occurs y a c m' m e = elim (Bool-cases (a == y)) [
      | inl s ↦ ground (arith, e, s)
      | inr s ↦ ground (arith, e, s)
    ]

-- After an input, each address was seen once more for each of its occurrences in the input's
-- coverage, if no counter reaches the largest 64-bit number.
pub opinion-count :
    (x : ℕ) (new_coverage m : CoverageMap)
    → ((a : ℕ) → count a m + length (keys new_coverage) < u64_mod)
    → count x (opinion new_coverage m).1 ≡ count x m + occurs x (keys new_coverage)
unfolding opinion
opinion-count x new_coverage m h = count_keys-count x (keys new_coverage) false m h
