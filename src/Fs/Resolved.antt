-- ===== src/Fs/Resolved.antt =====
-- Path resolution of fs.rs on a valid file system: its indices and the node that is found.
use diffuzzer.Prelude.{
  ℕ, zero, suc, ◌<◌, ◌≡◌, ◌≢◌, refl, sym, Bool, true, false, Option, none, some, List, [], ◌∷◌,
  ◌++◌, arith, length, get_elem?, get_elem?-lt, subst, Bool-cases, inl, inr,
}
use diffuzzer.PathName.{PathName, Name, slash, is_valid, segments}
use diffuzzer.Node.{Node}
use diffuzzer.Node.Children
use diffuzzer.Node.Children.{Values-get}
use diffuzzer.Fs.State.{
  AbstractFs, FsError, Result, ok, err, panic, overflow, bind, unwrap, ok_or, dir, sym as sym_of,
}
use diffuzzer.Fs.Resolve.{
  Resolved, as_dir, as_file, enter, walk, follow, contains, resolve_node_rec, resolve_node,
  resolve_dir, resolve_file,
}
use diffuzzer.Fs.Valid.{IsValid, NodeOf}

-- The result does not panic, and `P` holds of its value.
pub record Good {A : Type 0} (P : A → Type 0) (r : Result A) : Type 0 where
  pub value : (a : A) → r ≡ ok a → P a
  pub no_panic : r ≢ panic

module _ {A : Type 0} where
  pub Good-ok : (P : A → Type 0) (a : A) → P a → Good P (ok a)
  Good-ok P a p = record {
    value = λ b e. let same : a ≡ b = ground arith in subst P same p;
    no_panic = λ e. cc;
  }

  pub Good-err : (P : A → Type 0) (x : FsError) → Good P (err x)
  Good-err P x = record { value = λ b e. cc; no_panic = λ e. cc }

  pub Good-overflow : (P : A → Type 0) → Good P overflow
  Good-overflow P = record { value = λ b e. cc; no_panic = λ e. cc }

pub Good-mono :
    {A : Type 0} (P Q : A → Type 0) (r : Result A) → ((a : A) → P a → Q a) → Good P r → Good Q r
Good-mono P Q r f g = record { value = λ a e. f a (g.value a e); no_panic = g.no_panic }

pub Good-bind :
    {A B : Type 0} (P : A → Type 0) (Q : B → Type 0) (r : Result A) (f : A → Result B)
    → Good P r
    → ((a : A) → P a → Good Q (f a))
    → Good Q (bind r f)
Good-bind P Q (ok a) f g h = h a (g.value a refl)
Good-bind P Q (err x) f g h = Good-err Q x
Good-bind P Q panic f g h = absurd (g.no_panic refl)
Good-bind P Q overflow f g h = Good-overflow Q

-- An element that is there.
pub Good-unwrap :
    {A : Type 0} (xs : List A) (i : ℕ)
    → i < length xs
    → Good (λ a. get_elem? xs i ≡ some a) (unwrap (get_elem? xs i))
Good-unwrap xs i lt =
    let (a, e) = get_elem?-lt xs i lt in
    subst (λ o. Good (λ b. o ≡ some b) (unwrap o)) (sym e) (Good-ok _ a refl)

pub Good-ok_or : {A : Type 0} (o : Option A) (x : FsError) → Good (λ a. o ≡ some a) (ok_or o x)
Good-ok_or none x = Good-err _ x
Good-ok_or (some a) x = Good-ok _ a refl

module _ (fs : AbstractFs) (v : IsValid fs) where
  abbrev pub DirOf : List ℕ × ℕ → Type 0
  DirOf found = found.1 < length fs.dirs

  abbrev pub FileOf : List ℕ × ℕ → Type 0
  FileOf found = found.1 < length fs.files

  as_dir-Good :
      (path : PathName) (r : Resolved) → Good (λ x. NodeOf fs x.1) r → Good DirOf (as_dir path r)
  unfolding as_dir
  as_dir-Good path (ok (dirs, Node.dir idx)) g = Good-ok _ _ (g.value _ refl)
  as_dir-Good path (ok (dirs, Node.file idx)) g = Good-err _ _
  as_dir-Good path (ok (dirs, Node.symlink idx)) g = Good-err _ _
  as_dir-Good path (err x) g = Good-err _ _
  as_dir-Good path panic g = absurd (g.no_panic refl)
  as_dir-Good path overflow g = Good-overflow _

  as_file-Good :
      (path : PathName) (r : Resolved) → Good (λ x. NodeOf fs x.1) r → Good FileOf (as_file path r)
  unfolding as_file
  as_file-Good path (ok (dirs, Node.file idx)) g = Good-ok _ _ (g.value _ refl)
  as_file-Good path (ok (dirs, Node.dir idx)) g = Good-err _ _
  as_file-Good path (ok (dirs, Node.symlink idx)) g = Good-err _ _
  as_file-Good path (err x) g = Good-err _ _
  as_file-Good path panic g = absurd (g.no_panic refl)
  as_file-Good path overflow g = Good-overflow _

  module _ (resolve : PathName → Result (List ℕ × ℕ))
      (hr : (p : PathName) → Good DirOf (resolve p)) where
    enter-Good :
        (path : PathName) (dirs : List ℕ) (last : Node)
        → NodeOf fs last
        → Good DirOf (enter fs resolve path dirs last)
    unfolding enter sym_of
    enter-Good path dirs (Node.dir idx) h = Good-ok _ _ h
    enter-Good path dirs (Node.symlink idx) h =
        Good-bind _ _ _ _ (Good-unwrap fs.symlinks idx h)
          λ l _. Good-bind _ _ _ _ (hr l.target) λ found lt. Good-ok _ _ lt
    enter-Good path dirs (Node.file idx) h = Good-err _ _

    walk-Good :
        (segs : List Name) (path : PathName) (dirs : List ℕ) (last : Node)
        → NodeOf fs last
        → Good (λ x. NodeOf fs x.2) (walk fs resolve segs path dirs last)
    unfolding walk dir
    walk-Good [] path dirs last h = Good-ok _ _ h
    walk-Good (segment ∷ segs) path dirs last h =
        Good-bind _ _ _ _ (enter-Good (path ++ (slash ∷ segment)) dirs last h) λ found lt.
          Good-bind _ _ _ _ (Good-unwrap fs.dirs found.1 lt) λ d ed.
            Good-bind _ _ _ _ (Good-ok_or (Children.get segment d.children) _) λ node en.
              walk-Good segs (path ++ (slash ∷ segment)) found.0 node
                (Values-get (NodeOf fs) segment node d.children (v.children found.1 d ed) en)

  follow-Good :
      (resolve : PathName → List ℕ → Resolved)
      → ((p : PathName) (vs : List ℕ) → Good (λ x. NodeOf fs x.1) (resolve p vs))
      → (b : Bool) (visited : List ℕ) (path : PathName) (dirs : List ℕ) (last : Node)
      → NodeOf fs last
      → Good (λ x. NodeOf fs x.1) (follow fs resolve b visited path dirs last)
  unfolding follow sym_of
  follow-Good resolve hr true visited path dirs (Node.symlink idx) h =
      elim (Bool-cases (contains visited idx)) [
        | inl e ↦ rw e (Good-err _ _)
        | inr e ↦ rw e (
            Good-bind _ _ _ _ (Good-unwrap fs.symlinks idx h)
              λ l _. Good-bind _ _ _ _ (hr l.target _) λ found n. Good-ok _ _ n)
      ]
  follow-Good resolve hr false visited path dirs (Node.symlink idx) h = Good-ok _ _ h
  follow-Good resolve hr true visited path dirs (Node.file idx) h = Good-ok _ _ h
  follow-Good resolve hr false visited path dirs (Node.file idx) h = Good-ok _ _ h
  follow-Good resolve hr true visited path dirs (Node.dir idx) h = Good-ok _ _ h
  follow-Good resolve hr false visited path dirs (Node.dir idx) h = Good-ok _ _ h

  resolve_node_rec-Good :
      (fuel : ℕ) (path : PathName) (b : Bool) (visited : List ℕ)
      → Good (λ x. NodeOf fs x.1) (resolve_node_rec fs fuel path b visited)
  unfolding resolve_node_rec
  resolve_node_rec-Good zero path b visited = Good-overflow _
  resolve_node_rec-Good (suc fuel) path b visited = elim (Bool-cases (is_valid path)) [
    | inr e ↦ rw e (Good-err _ _)
    | inl e ↦ rw e (
        Good-bind _ _ _ _
          (walk-Good _ (λ p. as_dir-Good p _ (resolve_node_rec-Good fuel p true [])) (segments path)
            [] [] (Node.dir 0) v.root)
          λ x n. follow-Good _ (λ p vs. resolve_node_rec-Good fuel p b vs) b visited x.0 x.1 x.2 n)
  ]

  pub resolve_node-Good :
      (fuel : ℕ) (path : PathName) (b : Bool)
      → Good (λ x. NodeOf fs x.1) (resolve_node fs fuel path b)
  unfolding resolve_node
  resolve_node-Good fuel path b = resolve_node_rec-Good fuel path b []

  pub resolve_dir-Good : (fuel : ℕ) (path : PathName) → Good DirOf (resolve_dir fs fuel path)
  unfolding resolve_dir
  resolve_dir-Good fuel path = as_dir-Good path _ (resolve_node-Good fuel path true)

  pub resolve_file-Good : (fuel : ℕ) (path : PathName) → Good FileOf (resolve_file fs fuel path)
  unfolding resolve_file
  resolve_file-Good fuel path = as_file-Good path _ (resolve_node-Good fuel path true)
