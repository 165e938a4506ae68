-- ===== src/Dash/Difference.antt =====
-- `get_diff` of dash/src/lib.rs: its walk through two directory trees.
use diffuzzer.Prelude.{
  ℕ, zero, suc, ◌+◌, ◌-◌, ◌<◌, ◌≡◌, refl, ap, Bool, true, false, ◌||◌, List, [], ◌∷◌, ◌++◌, ◌==◌,
  length, get_elem?, get_elem?-lt, is_empty, arith, inl, inr, Bool-cases,
}
use diffuzzer.Dash.{
  FileInfo, FileDiff, HasherOptions, Written, Ordering, less, equal, greater, cmp, Outcome, done,
  Walk, all_down, handle_last_diff, Next, stop, go, down_fst, down_snd, down_both, add,
  only_one_exists, file_is_different, calc_fileinfo_hash, compared, at_snd, at_fst, continue, walk,
  finish_walk, get_diff,
}

positive : (fs : List FileInfo) → is_empty fs ≡ false → 0 < length fs
positive [] h = absurd (cc)
positive (f ∷ fs) h = omega arith

-- The loop ends with this much fuel, with both indices in range.
pub record Ends (n m : ℕ) (r : Outcome Walk) : Type 0 where
  pub last : Walk
  pub returned : r ≡ done last
  pub fst_in : last.i_fst < n
  pub snd_in : last.i_snd < m

-- One turn of the loop stops in range, or goes on in range with a smaller sum of the indices.
pub data Turn (n m k : ℕ) : Next → Type 0 where
  stops : (w : Walk) → w.i_fst < n → w.i_snd < m → Turn n m k (stop w)
  goes : (w : Walk) → w.i_fst < n → w.i_snd < m → w.i_fst + w.i_snd < k → Turn n m k (go w)

down_fst-Turn :
    (n m : ℕ) (w : Walk) → w.i_fst < n → w.i_snd < m → Turn n m (w.i_fst + w.i_snd) (down_fst w)
down_fst-Turn n m w hi hj = elim (Bool-cases (w.i_fst == 0)) [
  | inl e ↦ rw e (stops w hi hj)
  | inr e ↦ rw e (goes _ (omega arith) hj (ground arith))
]

down_snd-Turn :
    (n m : ℕ) (w : Walk) → w.i_fst < n → w.i_snd < m → Turn n m (w.i_fst + w.i_snd) (down_snd w)
down_snd-Turn n m w hi hj = elim (Bool-cases (w.i_snd == 0)) [
  | inl e ↦ rw e (stops w hi hj)
  | inr e ↦ rw e (goes _ hi (omega arith) (ground arith))
]

down_both-Turn :
    (n m : ℕ) (w : Walk) → w.i_fst < n → w.i_snd < m → Turn n m (w.i_fst + w.i_snd) (down_both w)
down_both-Turn n m w hi hj = elim (Bool-cases ((w.i_fst == 0) || (w.i_snd == 0))) [
  | inl e ↦ rw e (stops w hi hj)
  | inr e ↦ rw e (goes _ (omega arith) (omega arith) (ground arith))
]

-- The result of a call that neither panics nor runs out of fuel.
abbrev pub Returns : Outcome (List FileDiff) → Type 0
Returns r = (res : List FileDiff) × (r ≡ done res)

all_down-Returns : (fs : List FileInfo) (i : ℕ) → i < length fs → Returns (all_down fs i)
unfolding all_down
all_down-Returns fs zero h = let (f, e) = get_elem?-lt fs 0 h in (only_one_exists f ∷ [], rw e refl)
all_down-Returns fs (suc i) h =
    let (f, e) = get_elem?-lt fs (suc i) h in
    let (res, r) = all_down-Returns fs i (omega arith) in (only_one_exists f ∷ res, rw (e, r) refl)

handle_last_diff-Returns :
    (i : ℕ) (fs : List FileInfo) → i < length fs → Returns (handle_last_diff i fs)
unfolding handle_last_diff
handle_last_diff-Returns zero fs h = ([], refl)
handle_last_diff-Returns (suc i) fs h = all_down-Returns fs (suc i) h

-- A turn, and then the rest of the loop.
Ends-after :
    (n m k : ℕ) (t : Next) (rest : Walk → Outcome Walk)
    → Turn n m k t
    → ((w : Walk) → w.i_fst < n → w.i_snd < m → w.i_fst + w.i_snd < k → Ends n m (rest w))
    → Ends n m (continue t rest)
Ends-after n m k _ rest (stops w hi hj) h = record {
  last = w;
  returned = refl;
  fst_in = hi;
  snd_in = hj;
}
Ends-after n m k _ rest (goes w hi hj lt) h = h w hi hj lt

module _ (finish : List Written → ℕ) (o : HasherOptions) (fst snd : List FileInfo)
    (fst_skip snd_skip : List ℕ → Bool) where
  abbrev InRange : Walk → Type 0
  InRange w = (w.i_fst < length fst) × (w.i_snd < length snd)

  abbrev OneTurn : Walk → Next → Type 0
  OneTurn w = Turn (length fst) (length snd) (w.i_fst + w.i_snd)

  compared-Turn :
      (c : Ordering) (f g : FileInfo) (w : Walk)
      → InRange w
      → OneTurn w (compared finish o fst snd fst_skip snd_skip c f g w)
  unfolding compared
  compared-Turn equal f g w h = elim (Bool-cases same) [
    | inl e ↦ rw e (down_both-Turn _ _ w h.0 h.1)
    | inr e ↦ rw e (down_both-Turn _ _ (add (file_is_different f g) w) h.0 h.1)
  ]
    where
      same : Bool
      same =
          calc_fileinfo_hash finish o fst snd fst_skip snd_skip fst f.rel_path
          == calc_fileinfo_hash finish o fst snd fst_skip snd_skip snd g.rel_path
  compared-Turn greater f g w h = down_fst-Turn _ _ (add (only_one_exists f) w) h.0 h.1
  compared-Turn less f g w h = down_snd-Turn _ _ (add (only_one_exists g) w) h.0 h.1

  at_snd-Turn :
      (f : FileInfo) (w : Walk)
      → InRange w
      → OneTurn w (at_snd finish o fst snd fst_skip snd_skip f (get_elem? snd w.i_snd) w)
  unfolding at_snd
  at_snd-Turn f w h =
      let (g, e) = get_elem?-lt snd w.i_snd h.1 in
      rw e (elim (Bool-cases (snd_skip g.rel_path)) [
        | inl s ↦ rw s (down_snd-Turn _ _ w h.0 h.1)
        | inr s ↦ rw s (compared-Turn _ f g w h)
      ])

  at_fst-Turn :
      (w : Walk)
      → InRange w
      → OneTurn w (at_fst finish o fst snd fst_skip snd_skip (get_elem? fst w.i_fst) w)
  unfolding at_fst
  at_fst-Turn w h =
      let (f, e) = get_elem?-lt fst w.i_fst h.0 in
      rw e (elim (Bool-cases (fst_skip f.rel_path)) [
        | inl s ↦ rw s (down_fst-Turn _ _ w h.0 h.1)
        | inr s ↦ rw s (at_snd-Turn f w h)
      ])

  walk-Ends :
      (fuel : ℕ) (w : Walk)
      → InRange w
      → w.i_fst + w.i_snd < fuel
      → Ends (length fst) (length snd) (walk finish o fst snd fst_skip snd_skip fuel w)
  unfolding walk
  walk-Ends zero w h lt = absurd (omega arith)
  walk-Ends (suc fuel) w h lt =
      Ends-after _ _ _ _ _ (at_fst-Turn w h)
        (λ v hi hj less_than. walk-Ends fuel v (hi, hj) (omega arith))

  finish_walk-Returns :
      (r : Outcome Walk)
      → Ends (length fst) (length snd) r
      → Returns (finish_walk finish o fst snd fst_skip snd_skip r)
  unfolding finish_walk
  finish_walk-Returns r h =
      let (xs, ex) = handle_last_diff-Returns h.last.i_fst fst h.fst_in in
      let (ys, ey) = handle_last_diff-Returns h.last.i_snd snd h.snd_in in
      (h.last.res ++ (xs ++ ys), rw (h.returned, ex, ey) refl)

  -- On two trees that both have a file, `get_diff` returns: its loop ends within as many turns as
  -- the trees have files, and no index is ever out of range.
  pub get_diff-Returns :
      is_empty fst ≡ false
      → is_empty snd ≡ false
      → Returns (get_diff finish o fst snd fst_skip snd_skip (length fst + length snd))
  unfolding get_diff
  get_diff-Returns hf hs =
      let lf = positive fst hf in
      let ls = positive snd hs in
      rw (hf, hs) (finish_walk-Returns _ (walk-Ends _ _ (omega arith, omega arith) (omega arith)))

cmp_self : (s : List ℕ) → cmp s s ≡ equal
unfolding cmp
cmp_self [] = refl
cmp_self (c ∷ s) = let same : (c == c) ≡ true = ground arith in rw same (cmp_self s)

module _ (finish : List Written → ℕ) (o : HasherOptions) (fs : List FileInfo)
    (skip : List ℕ → Bool) where
  -- Both indices at the same file, and no difference so far.
  abbrev at : ℕ → Walk
  at i = record { i_fst = i; i_snd = i; res = [] }

  same_turn :
      ((path : List ℕ) → skip path ≡ false)
      → (i : ℕ) → i < length fs
      → at_fst finish o fs fs skip skip (get_elem? fs i) (at i) ≡ down_both (at i)
  unfolding at_fst at_snd compared
  same_turn kept i h =
      let (f, e) = get_elem?-lt fs i h in
      let hash = calc_fileinfo_hash finish o fs fs skip skip fs f.rel_path in
      let equal_hash : (hash == hash) ≡ true = ground arith in
      rw (e, kept f.rel_path, e, kept f.rel_path, cmp_self f.rel_path, equal_hash) refl

  step_down : (i : ℕ) → down_both (at (suc i)) ≡ go (at i)
  step_down i =
      let e : ((suc i == 0) || (suc i == 0)) ≡ false = ground arith in
      rw e (ap (λ j. go (at j)) {x = suc i - 1} {y = i} (omega arith))

  same_walk :
      ((path : List ℕ) → skip path ≡ false)
      → (fuel i : ℕ) → i < length fs
      → i < fuel
      → walk finish o fs fs skip skip fuel (at i) ≡ done (at 0)
  unfolding walk
  same_walk kept zero i h lt = absurd (omega arith)
  same_walk kept (suc fuel) zero h lt = rw (same_turn kept 0 h) refl
  same_walk kept (suc fuel) (suc i) h lt =
      rw (same_turn kept (suc i) h, step_down i) (same_walk kept fuel i (omega arith) (omega arith))

  -- Between a tree and itself no difference is found, if no file is to be skipped.
  pub get_diff-same :
      is_empty fs ≡ false
      → ((path : List ℕ) → skip path ≡ false)
      → get_diff finish o fs fs skip skip (length fs + length fs) ≡ done []
  unfolding get_diff finish_walk handle_last_diff
  get_diff-same h kept =
      let lt = positive fs h in
      rw (h, same_walk kept (length fs + length fs) (length fs - 1) (omega arith) (omega arith))
        refl
