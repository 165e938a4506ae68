-- ===== src/Fs/Keeps.antt =====
-- The parts that the operations of fs.rs share, on a valid file system, and `mkdir`.
use diffuzzer.Prelude.{
  ℕ, ◌<◌, ◌≡◌, ◌≢◌, refl, none, [], ◌∷◌, arith, length, length-append, Option-cases, inl, inr,
}
use diffuzzer.Flags.{Mode}
use diffuzzer.PathName.{PathName, Name, split}
use diffuzzer.Node.{Node, Dir}
use diffuzzer.Node.Children.{Values, Values-insert}
use diffuzzer.Operation.{Operation}
use diffuzzer.Fs.State.{
  AbstractFs, ok, unwrap, pure, query, ◌>>◌, dir, dir_mut, record_op, put_child,
}
use diffuzzer.Fs.Ops
use diffuzzer.Fs.Ops.{parent_of, name_exists}
use diffuzzer.Fs.Valid.{IsValid, NodeOf, record-IsValid}
use diffuzzer.Fs.Valid.Pushes.{push_dir-IsValid}
use diffuzzer.Fs.Valid.Updates.{update_dir-IsValid}
use diffuzzer.Fs.Resolved.{Good, Good-ok, Good-unwrap, Good-mono, resolve_dir-Good}
use diffuzzer.Fs.Safe.{Safe, Safe-pure, Safe-raise, Safe-query, Safe-if, Safe-modify, Safe-bind}

-- The path has a slash, so that `split` finds one.
abbrev pub HasSlash : PathName → Type 0
HasSlash path = split path ≢ none

-- A valid file system with a directory `i`.
abbrev pub WithDir : ℕ → AbstractFs → Type 0
WithDir i s = IsValid s × (i < length s.dirs)

pub Good-split : (path : PathName) → HasSlash path → Good (λ _. Unit {0}) (unwrap (split path))
Good-split path h = elim (Option-cases (split path)) [
  | inl e ↦ absurd (h e)
  | inr (x, e) ↦ rw e (Good-ok _ _ tt)
]

-- What holds before the action implies that the file system is valid.
abbrev pub Implies : (AbstractFs → Type 0) → (AbstractFs → Type 0) → Type 0
Implies P Q = (s : AbstractFs) → P s → Q s

pub parent_of-Safe :
    (P : AbstractFs → Type 0) (fuel : ℕ) (path : PathName)
    → Implies P IsValid
    → HasSlash path
    → Safe P (parent_of fuel path) (λ x s. P s × (x.0 < length s.dirs))
unfolding parent_of
parent_of-Safe P fuel path v h =
    Safe-bind _ (λ _. P) _ _ _
      (Safe-query _ _ _ v (λ s p. Good-mono _ _ _ (λ _ _. p) (Good-split path h)))
      λ x.
        Safe-bind _ (λ y s. P s × (y.1 < length s.dirs)) _ _ _
          (Safe-query _ _ _ v
            (λ s p. Good-mono _ _ _ (λ _ lt. (p, lt)) (resolve_dir-Good s (v s p) fuel x.0)))
          λ y. Safe-pure _ _ _ (λ s p. p)

-- Reading a directory that is there.
pub query_dir-Safe :
    (P : AbstractFs → Type 0) (idx : ℕ)
    → Implies P (WithDir idx)
    → Safe P (query (λ s. dir s idx)) (λ _. P)
unfolding dir
query_dir-Safe P idx v =
    Safe-query _ _ _ (λ s p. (v s p).0)
      (λ s p. Good-mono _ _ _ (λ _ _. p) (Good-unwrap s.dirs idx (v s p).1))

pub name_exists-Safe :
    (P : AbstractFs → Type 0) (idx : ℕ) (name : Name)
    → Implies P (WithDir idx)
    → Safe P (name_exists idx name) (λ _. P)
unfolding name_exists
name_exists-Safe P idx name v =
    Safe-bind _ (λ _. P) _ _ _ (query_dir-Safe P idx v) λ d. Safe-pure _ _ _ (λ s p. p)

pub dir_mut-Safe :
    (P : AbstractFs → Type 0) (idx : ℕ) (f : Dir → Dir)
    → Implies P (WithDir idx)
    → ((s : AbstractFs)
        → P s
        → (d : Dir) → Values (NodeOf s) d.children
        → Values (NodeOf s) (f d).children)
    → Safe P (dir_mut idx f) (λ _. IsValid)
unfolding dir_mut
dir_mut-Safe P idx f v keep =
    Safe-bind _ (λ _. P) _ _ _ (query_dir-Safe P idx v)
      λ d. Safe-modify _ _ _ (λ s p. update_dir-IsValid s idx f (keep s p) (v s p).0)

pub record_op-Safe : (op : Operation) → Safe IsValid (record_op op) (λ _. IsValid)
unfolding record_op
record_op-Safe op = Safe-modify _ _ _ (λ s v. record-IsValid s _ v)

-- The end of an operation that links a node under a name.
pub link-Safe :
    {A : Type 0} (P : AbstractFs → Type 0) (idx : ℕ) (name : Name) (node : Node) (op : Operation)
    (a : A)
    → Implies P (λ s. WithDir idx s × NodeOf s node)
    → Safe P (do dir_mut idx (put_child name node); record_op op; pure a) (λ _. IsValid)
link-Safe P idx name node op a v =
    Safe-bind _ (λ _. IsValid) _ _ _
      (dir_mut-Safe P idx _ (λ s p. (v s p).0)
        (λ s p d h. Values-insert (NodeOf s) name node d.children (v s p).1 h))
      λ _. Safe-bind _ (λ _. IsValid) _ _ _ (record_op-Safe op) λ _. Safe-pure _ _ _ (λ s h. h)

-- A directory of before, and a new index that was the length.
pub query_length-Safe :
    (P : AbstractFs → Type 0) (f : AbstractFs → ℕ)
    → Implies P IsValid
    → Safe P (query (λ s. ok (f s))) (λ i s. P s × (i ≡ f s))
query_length-Safe P f v = Safe-query _ _ _ v (λ s p. Good-ok _ _ (p, refl))

pub mkdir-Safe :
    (fuel : ℕ) (path : PathName) (mode : Mode)
    → HasSlash path
    → Safe IsValid (Ops.mkdir fuel path mode) (λ _. IsValid)
unfolding Ops.mkdir Ops.push_dir
mkdir-Safe fuel path mode h =
    Safe-bind _ (λ x. WithDir x.0) _ _ _ (parent_of-Safe _ fuel path (λ s v. v) h)
      λ x.
        Safe-bind _ (λ _. WithDir x.0) _ _ _ (name_exists-Safe _ x.0 x.1 (λ s v. v))
          λ exists.
            Safe-if _ _ exists _ _ (λ _. Safe-raise _ _ _ (λ s v. v.0))
              λ _.
                Safe-bind _ (λ i s. WithDir x.0 s × (i ≡ length s.dirs)) _ _ _
                  (query_length-Safe _ _ (λ s v. v.0))
                  λ i.
                    Safe-bind _ (λ _ s. WithDir x.0 s × (i < length s.dirs)) _ _ _
                      (Safe-modify _ _ _ (λ s v. (
                        (
                          push_dir-IsValid s v.0.0,
                          omega (arith, v, length-append s.dirs (Ops.empty_dir ∷ [])),
                        ),
                        omega (arith, v, length-append s.dirs (Ops.empty_dir ∷ [])),
                      )))
                      λ _. link-Safe _ x.0 x.1 (Node.dir i) _ i (λ s v. v)
