-- ===== src/Dash.antt =====
-- dash/src/lib.rs: what is known of each file of a directory tree, its hash, and how two trees
-- differ. The hash function (`twox_hash`) and the patterns of paths to skip (`regex`) are
-- parameters: a hasher is what was written to it so far, and `finish` is any function of that.
pub mod Difference
use diffuzzer.Prelude.{
  ℕ, ◌+◌, ◌-◌, Bool, true, false, not, ◌&&◌, ◌||◌, Option, none, some, List, [], ◌∷◌, ◌++◌,
  if◌then◌else◌, ◌==◌, ltb, length, get_elem?, is_empty,
}
use diffuzzer.PathName.{text_eq}

pub record FileInfo : Type 0 where
  pub abs_path : List ℕ
  pub rel_path : List ℕ
  pub gid : ℕ
  pub uid : ℕ
  pub size : ℕ
  pub nlink : ℕ
  pub mode : ℕ
  pub is_dir : Bool

pub data FileDiff : Type 0 where
  file_is_different : FileInfo → FileInfo → FileDiff
  only_one_exists : FileInfo → FileDiff

pub record HasherOptions : Type 0 where
  pub size : Bool
  pub file_nlink : Bool
  pub dir_nlink : Bool
  pub mode : Bool

-- The calls on a hasher.
pub data Written : Type 0 where
  bytes : List ℕ → Written
  u32 u64 : ℕ → Written

abbrev pub only_if : Bool → Written → List Written
only_if b w = if b then w ∷ [] else []

-- `add_to_hasher`: what is written for one file.
unfoldable pub add_to_hasher : HasherOptions → FileInfo → List Written
add_to_hasher o f =
    bytes f.rel_path
    ∷ u32 f.gid
    ∷ u32 f.uid
    ∷ (only_if o.size (u64 f.size)
        ++ (only_if (f.is_dir && o.dir_nlink || not f.is_dir && o.file_nlink) (u64 f.nlink)
            ++ only_if o.mode (u32 f.mode)))

-- `str::starts_with`
unfoldable pub starts_with : List ℕ → List ℕ → Bool
starts_with s [] = true
starts_with [] (c ∷ prefix) = false
starts_with (d ∷ s) (c ∷ prefix) = (d == c) && starts_with s prefix

unfoldable pub hashed_files : HasherOptions → List FileInfo → List ℕ → List Written
hashed_files o [] rel_path = []
hashed_files o (f ∷ fs) rel_path =
    let rest = hashed_files o fs rel_path in
    if starts_with f.rel_path rel_path then add_to_hasher o f ++ rest else rest

pub data Ordering : Type 0 where
  less equal greater : Ordering

-- `str::cmp`, by bytes
unfoldable pub cmp : List ℕ → List ℕ → Ordering
cmp [] [] = equal
cmp [] (d ∷ t) = less
cmp (c ∷ s) [] = greater
cmp (c ∷ s) (d ∷ t) =
    let rest = cmp s t in if c == d then rest else if ltb c d then less else greater

-- A panic, an answer, or no fuel left.
pub data Outcome {ℓ} (A : Type ℓ) : Type ℓ where
  done : A → Outcome A
  panic : Outcome A
  no_fuel : Outcome A

-- The variables of the loop.
pub record Walk : Type 0 where
  pub i_fst : ℕ
  pub i_snd : ℕ
  pub res : List FileDiff

abbrev pub report : FileInfo → Outcome (List FileDiff) → Outcome (List FileDiff)
report f (done res) = done (only_one_exists f ∷ res)
report f panic = panic
report f no_fuel = no_fuel

abbrev pub report_at : Option FileInfo → Outcome (List FileDiff) → Outcome (List FileDiff)
report_at none rest = panic
report_at (some f) rest = report f rest

-- The files from an index down to the first.
unfoldable pub all_down : List FileInfo → ℕ → Outcome (List FileDiff)
all_down fs ℕ.zero = report_at (get_elem? fs 0) (done [])
all_down fs (ℕ.suc i) = report_at (get_elem? fs (ℕ.suc i)) (all_down fs i)

-- `handle_last_diff`: what it adds to the result.
unfoldable pub handle_last_diff : ℕ → List FileInfo → Outcome (List FileDiff)
handle_last_diff ℕ.zero fs = done []
handle_last_diff (ℕ.suc i) fs = all_down fs (ℕ.suc i)

abbrev pub append : Outcome (List FileDiff) → Outcome (List FileDiff) → Outcome (List FileDiff)
append (done xs) (done ys) = done (xs ++ ys)
append (done xs) panic = panic
append (done xs) no_fuel = no_fuel
append panic r = panic
append no_fuel r = no_fuel

-- What the body of the loop does: leave it, or go round again.
pub data Next : Type 0 where
  stop go : Walk → Next
  panicked : Next

abbrev pub down_fst : Walk → Next
down_fst w = if w.i_fst == 0 then stop w else go (record w { i_fst = w.i_fst - 1 })

abbrev pub down_snd : Walk → Next
down_snd w = if w.i_snd == 0 then stop w else go (record w { i_snd = w.i_snd - 1 })

abbrev pub down_both : Walk → Next
down_both w =
    if (w.i_fst == 0) || (w.i_snd == 0)
    then stop w
    else go (record w { i_fst = w.i_fst - 1; i_snd = w.i_snd - 1 })

abbrev pub add : FileDiff → Walk → Walk
add d w = record w { res = w.res ++ (d ∷ []) }

abbrev pub continue : Next → (Walk → Outcome Walk) → Outcome Walk
continue (stop w) k = done w
continue (go w) k = k w
continue panicked k = panic

module _ (finish : List Written → ℕ) (o : HasherOptions) (fst snd : List FileInfo)
    (fst_skip snd_skip : List ℕ → Bool) where
  unfoldable pub calc_fileinfo_hash : List FileInfo → List ℕ → ℕ
  calc_fileinfo_hash fs rel_path = finish (hashed_files o fs rel_path)

  -- The `match` on how the two paths compare.
  unfoldable pub compared : Ordering → FileInfo → FileInfo → Walk → Next
  compared equal f g w = down_both (
      if calc_fileinfo_hash fst f.rel_path == calc_fileinfo_hash snd g.rel_path
      then w
      else add (file_is_different f g) w)
  compared greater f g w = down_fst (add (only_one_exists f) w)
  compared less f g w = down_snd (add (only_one_exists g) w)

  unfoldable pub at_snd : FileInfo → Option FileInfo → Walk → Next
  at_snd f none w = panicked
  at_snd f (some g) w =
      if snd_skip g.rel_path then down_snd w else compared (cmp f.rel_path g.rel_path) f g w

  unfoldable pub at_fst : Option FileInfo → Walk → Next
  at_fst none w = panicked
  at_fst (some f) w = if fst_skip f.rel_path then down_fst w else at_snd f (get_elem? snd w.i_snd) w

  unfoldable pub walk : ℕ → Walk → Outcome Walk
  walk ℕ.zero w = no_fuel
  walk (ℕ.suc fuel) w = continue (at_fst (get_elem? fst w.i_fst) w) (walk fuel)

  -- What follows the loop.
  unfoldable pub finish_walk : Outcome Walk → Outcome (List FileDiff)
  finish_walk (done w) =
      append (done w.res) (append (handle_last_diff w.i_fst fst) (handle_last_diff w.i_snd snd))
  finish_walk panic = panic
  finish_walk no_fuel = no_fuel

  -- On an empty vector, `len() - 1` is out of range: the subtraction or the access panics.
  unfoldable pub get_diff : ℕ → Outcome (List FileDiff)
  get_diff fuel =
      if is_empty fst || is_empty snd
      then panic
      else finish_walk
          (walk fuel (record { i_fst = length fst - 1; i_snd = length snd - 1; res = [] }))
