-- ===== src/Generator/Draws.antt =====
-- generator.rs, the random choices: actions on a random generator, a supply of names and the abstract
-- file system.
use diffuzzer.Prelude.{ℕ, ◌<◌, ◌≤◌, ◌≡◌, Option, none, some, List, [], ◌∷◌, map, length, get_elem?}
use diffuzzer.PathName.{Name}
use diffuzzer.Fs.State.{AbstractFs, FsError, Result, ok, err, panic, overflow, bind, unwrap, Exec}

-- The `rand` crate: `choose` of a slice, by its length, as an index; `choose_weighted`, by the weights,
-- as an index or no choice; and `random_range` of an inclusive range.
pub record Random (R : Type 0) : Type 0 where
  pub index : ℕ → R → ℕ × R
  pub weighted : List ℕ → R → Option ℕ × R
  pub range : ℕ → ℕ → R → ℕ × R

-- What its documentation says: an index is below the length, a weighted choice has a weight above 0,
-- and a number of a range that is not empty is within it.
pub record RandomLaws {R : Type 0} (random : Random R) : Type 0 where
  pub index_lt : (n : ℕ) (r : R) → 0 < n → (random.index n r).0 < n
  pub weighted_positive :
      (weights : List ℕ) (r : R) (i : ℕ)
      → (random.weighted weights r).0 ≡ some i
      → (w : ℕ) × (get_elem? weights i ≡ some w) × (0 < w)
  pub range_within :
      (low high : ℕ) (r : R)
      → low ≤ high
      → (low ≤ (random.range low high r).0) × ((random.range low high r).0 ≤ high)

pub record Gen (R G : Type 0) : Type 0 where
  pub rng : R
  pub names : G
  pub fs : AbstractFs

abbrev pub Draw : Type 0 → Type 0 → Type 0 → Type 0
Draw R G A = Gen R G → Result A × Gen R G

abbrev pub or_panic : {A : Type 0} → Result A → Result A
or_panic (ok a) = ok a
or_panic (err e) = panic
or_panic panic = panic
or_panic overflow = overflow

abbrev pub failure : {A : Type 0} → Result A → Result (Option FsError)
failure (ok a) = ok none
failure (err e) = ok (some e)
failure panic = panic
failure overflow = overflow

abbrev pub kind_at : {A : Type 0} → List (A × ℕ) → Option ℕ → Result A
kind_at entries none = panic
kind_at entries (some i) = bind (unwrap (get_elem? entries i)) λ e. ok e.0

module _ {R G : Type 0} where
  module _ {A : Type 0} where
    unfoldable pub pure : A → Draw R G A
    pure a s = (ok a, s)

    -- A call of a method on `&fs`.
    unfoldable pub ask : (AbstractFs → Result A) → Draw R G A
    ask f s = (f s.fs, s)

    -- A call on `&mut fs` and its `unwrap`.
    unfoldable pub run : Exec A → Draw R G A
    run m s = let (r, fs) = m s.fs in (or_panic r, record s { fs = fs })

    -- A call on `&mut fs` whose error is looked at.
    unfoldable pub attempt : Exec A → Draw R G (Option FsError)
    attempt m s = let (r, fs) = m s.fs in (failure r, record s { fs = fs })

    -- `choose(rng).unwrap()`
    unfoldable pub choose : Random R → List A → Draw R G A
    choose random [] s = (panic, s)
    choose random (x ∷ xs) s =
        let (i, rng) = random.index (length (x ∷ xs)) s.rng in
        (unwrap (get_elem? (x ∷ xs) i), record s { rng = rng })

    -- `choose_weighted(rng, |item| item.1).unwrap().0`
    unfoldable pub choose_weighted : Random R → List (A × ℕ) → Draw R G A
    choose_weighted random entries s =
        let (i, rng) = random.weighted (map (λ e. e.1) entries) s.rng in
        (kind_at entries i, record s { rng = rng })

  abbrev pub named : Result (Name × G) → Gen R G → Result Name × Gen R G
  named (ok (n, names)) s = (ok n, record s { names = names })
  named (err e) s = (err e, s)
  named panic s = (panic, s)
  named overflow s = (overflow, s)

  -- `gen_name()`
  unfoldable pub name : (G → Result (Name × G)) → Draw R G Name
  name gen_name s = named (gen_name s.names) s

  module _ {A B : Type 0} where
    abbrev pub continue : Result A → (A → Draw R G B) → Draw R G B
    continue (ok a) f s = f a s
    continue (err e) f s = (err e, s)
    continue panic f s = (panic, s)
    continue overflow f s = (overflow, s)

  infixl 5 ◌>>=◌
  unfoldable pub ◌>>=◌ : {A B : Type 0} → Draw R G A → (A → Draw R G B) → Draw R G B
  ◌>>=◌ m f s = let (r, s') = m s in continue r f s'
