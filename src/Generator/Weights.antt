-- ===== src/Generator/Weights.antt =====
-- generator.rs: the kinds that are left to draw from, and what they can be applied to.
use diffuzzer.Prelude.{
  ℕ, zero, suc, ◌<◌, ◌≡◌, refl, ap, Bool, true, false, ◌&&◌, Option, none, some, List, [], ◌∷◌, map,
  if◌then◌else◌, arith, subst, get_elem?, retain, is_empty,
}
use diffuzzer.Operation.{OperationKind, OperationWeights, same_kind}
use diffuzzer.Fs.State.{ok}
use diffuzzer.Generator.Draws.{Random, RandomLaws, Gen, choose_weighted, kind_at}
use diffuzzer.Generator.{Targets, drop_kind, drop_if, applicable}

-- The kind has a weight above 0.
pub record Weighted {A : Type 0} (weights : List (A × ℕ)) (kind : A) : Type 0 where
  pub index : ℕ
  pub weight : ℕ
  pub found : get_elem? weights index ≡ some (kind, weight)
  pub positive : 0 < weight

-- An element that is kept.
pub retain_found :
    {A : Type 0} (p : A → Bool) (xs : List A) (i : ℕ) (x : A)
    → get_elem? (retain p xs) i ≡ some x
    → (j : ℕ) × (get_elem? xs j ≡ some x) × (p x ≡ true)
retain_found p [] i x e = absurd (cc)
retain_found {A} p (y ∷ ys) i x e = go (retain_found p ys) (p y) refl i e
  where
    go :
        ((i : ℕ) (x : A)
          → get_elem? (retain p ys) i ≡ some x
          → (j : ℕ) × (get_elem? ys j ≡ some x) × (p x ≡ true))
        → (b : Bool) → p y ≡ b
        → (i : ℕ) → get_elem? (if b then y ∷ retain p ys else retain p ys) i ≡ some x
        → (j : ℕ) × (get_elem? (y ∷ ys) j ≡ some x) × (p x ≡ true)
    go rest true on zero h = (0, h, ground (arith, on, h))
    go rest true on (suc i) h = let (j, f, q) = rest i x h in (suc j, f, q)
    go rest false off i h = let (j, f, q) = rest i x h in (suc j, f, q)

same_kind_refl : (kind : OperationKind) → same_kind kind kind ≡ true
unfolding same_kind
same_kind_refl kind = ground arith

drop_if-Weighted :
    (b : Bool) (dropped : OperationKind) (weights : OperationWeights) (kind : OperationKind)
    → Weighted (drop_if b dropped weights) kind
    → Weighted weights kind × (b ≡ true → same_kind kind dropped ≡ false)
unfolding drop_if drop_kind
drop_if-Weighted false dropped weights kind h = (h, λ e. cc)
drop_if-Weighted true dropped weights kind h =
    let (j, f, q) = retain_found _ weights h.index (kind, h.weight) h.found in
    (
      record { index = j; weight = h.weight; found = f; positive = h.positive },
      λ _. ground (arith, q),
    )

-- There is something that an operation of the kind can be applied to, besides directories.
abbrev pub HasTarget : Targets → OperationKind → Type 0
HasTarget t OperationKind.mk_dir = Unit
HasTarget t OperationKind.create = Unit
HasTarget t OperationKind.remove = is_empty t.dirs_except_root && is_empty t.files ≡ false
HasTarget t OperationKind.hardlink = is_empty t.files ≡ false
HasTarget t OperationKind.rename = is_empty t.dirs_except_root && is_empty t.files ≡ false
HasTarget t OperationKind.open_file = is_empty t.closed_files ≡ false
HasTarget t OperationKind.close = is_empty t.open_files ≡ false
HasTarget t OperationKind.read = is_empty t.open_files ≡ false
HasTarget t OperationKind.write = is_empty t.open_files ≡ false
HasTarget t OperationKind.fsync = is_empty t.open_files ≡ false
HasTarget t OperationKind.symlink = Unit

not_dropped :
    (b : Bool) (kind : OperationKind) → (b ≡ true → same_kind kind kind ≡ false) → b ≡ false
not_dropped true kind h = ground (arith, h refl, same_kind_refl kind)
not_dropped false kind h = refl

-- A kind with a positive weight after the weights are filtered had it before, and there is a file,
-- directory or descriptor that it can be applied to, where it needs one.
pub applicable-HasTarget :
    (t : Targets) (weights : OperationWeights) (kind : OperationKind)
    → Weighted (applicable t weights) kind
    → Weighted weights kind × HasTarget t kind
unfolding applicable
applicable-HasTarget t weights kind h =
    let nothing = is_empty t.dirs_except_root && is_empty t.files in
    let none_open = is_empty t.open_files in
    let (h8, fsync) = drop_if-Weighted none_open OperationKind.fsync _ kind h in
    let (h7, write) = drop_if-Weighted none_open OperationKind.write _ kind h8 in
    let (h6, read) = drop_if-Weighted none_open OperationKind.read _ kind h7 in
    let (h5, close) = drop_if-Weighted none_open OperationKind.close _ kind h6 in
    let (h4, open_file) =
      drop_if-Weighted (is_empty t.closed_files) OperationKind.open_file _ kind h5 in
    let (h3, rename) = drop_if-Weighted nothing OperationKind.rename _ kind h4 in
    let (h2, hardlink) = drop_if-Weighted (is_empty t.files) OperationKind.hardlink _ kind h3 in
    let (h1, remove) = drop_if-Weighted nothing OperationKind.remove _ kind h2 in
    (h1, target kind remove hardlink rename open_file close read write fsync)
  where
    target :
        (k : OperationKind)
        → (is_empty t.dirs_except_root && is_empty t.files ≡ true
            → same_kind k OperationKind.remove ≡ false)
        → (is_empty t.files ≡ true → same_kind k OperationKind.hardlink ≡ false)
        → (is_empty t.dirs_except_root && is_empty t.files ≡ true
            → same_kind k OperationKind.rename ≡ false)
        → (is_empty t.closed_files ≡ true → same_kind k OperationKind.open_file ≡ false)
        → (is_empty t.open_files ≡ true → same_kind k OperationKind.close ≡ false)
        → (is_empty t.open_files ≡ true → same_kind k OperationKind.read ≡ false)
        → (is_empty t.open_files ≡ true → same_kind k OperationKind.write ≡ false)
        → (is_empty t.open_files ≡ true → same_kind k OperationKind.fsync ≡ false)
        → HasTarget t k
    target OperationKind.mk_dir a b c d e f g h = tt
    target OperationKind.create a b c d e f g h = tt
    target OperationKind.symlink a b c d e f g h = tt
    target OperationKind.remove a b c d e f g h = not_dropped _ OperationKind.remove a
    target OperationKind.hardlink a b c d e f g h = not_dropped _ OperationKind.hardlink b
    target OperationKind.rename a b c d e f g h = not_dropped _ OperationKind.rename c
    target OperationKind.open_file a b c d e f g h = not_dropped _ OperationKind.open_file d
    target OperationKind.close a b c d e f g h = not_dropped _ OperationKind.close e
    target OperationKind.read a b c d e f g h = not_dropped _ OperationKind.read f
    target OperationKind.write a b c d e f g h = not_dropped _ OperationKind.write g
    target OperationKind.fsync a b c d e f g h = not_dropped _ OperationKind.fsync h

get_elem?-map-some :
    {A : Type 0} (entries : List (A × ℕ)) (i w : ℕ)
    → get_elem? (map (λ e. e.1) entries) i ≡ some w
    → (a : A) × (get_elem? entries i ≡ some (a, w))
get_elem?-map-some [] i w e = absurd (cc)
get_elem?-map-some (x ∷ xs) zero w e = (x.0, ground arith)
get_elem?-map-some (x ∷ xs) (suc i) w e = get_elem?-map-some xs i w e

pub kind_at-Weighted :
    {A : Type 0} (entries : List (A × ℕ)) (i : Option ℕ) (kind : A)
    → ((j : ℕ) → i ≡ some j → (w : ℕ) × (get_elem? (map (λ e. e.1) entries) j ≡ some w) × (0 < w))
    → kind_at entries i ≡ ok kind
    → Weighted entries kind
kind_at-Weighted entries none kind h e = absurd (cc)
kind_at-Weighted entries (some j) kind h e =
    let (w, f, p) = h j refl in
    let (a, g) = get_elem?-map-some entries j w f in
    let same : a ≡ kind = ground (arith, e, g) in
    record {
      index = j;
      weight = w;
      found = subst (λ k. get_elem? entries j ≡ some (k, w)) same g;
      positive = p;
    }

-- A kind that is drawn has a positive weight.
pub choose_weighted-Weighted :
    {R G A : Type 0} (random : Random R)
    → RandomLaws random
    → (entries : List (A × ℕ)) (s s' : Gen R G) (kind : A)
    → choose_weighted random entries s ≡ (ok kind, s')
    → Weighted entries kind
unfolding choose_weighted
choose_weighted-Weighted random laws entries s s' kind e =
    kind_at-Weighted entries (random.weighted (map (λ x. x.1) entries) s.rng).0 kind
      (λ j f. laws.weighted_positive _ s.rng j f) (ap (λ q. q.0) e)
