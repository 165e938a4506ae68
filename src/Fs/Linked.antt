-- ===== src/Fs/Linked.antt =====
-- fs.rs: the operations that put a name into a directory or take one out, and the entries of the
-- directories.
use diffuzzer.Prelude.{
  ℕ, ◌≡◌, ◌≢◌, refl, sym, ap, ◌∙◌, subst, Bool, true, false, not, none, if◌then◌else◌, length,
  arith,
}
use diffuzzer.PathName.{PathName, Name, is_root}
use diffuzzer.Flags.{Mode}
use diffuzzer.Node.{Node}
use diffuzzer.Node.Children
use diffuzzer.Operation.{Operation}
use diffuzzer.Fs.State.{
  AbstractFs, FsError, ok, Exec, pure, raise, query, ◌>>=◌, ◌>>◌, dir_mut, record_op, put_child,
}
use diffuzzer.Fs.Ops
use diffuzzer.Fs.Resolve.{resolve_file}
use diffuzzer.Fs.Replay.{ignore}
use diffuzzer.Fs.View.{Tree, entry, link, unlink, At, Linked, Unlinked, Effect}
use diffuzzer.Fs.Yields.{
  Yields, Yields-pure, Yields-raise, Yields-query, Yields-if, Yields-mono, Yields-bind, Yields-fact,
  Shows, put-Shows, drop-Shows, parent_of-At, name_exists-entry,
}
use diffuzzer.Fs.Still.{
  Still, Still-pure, Still-record_op, Still-push_dir, Still-push_file, Still-push_symlink,
}

pub shows_entry : (s t : AbstractFs) → t ≡ s → Shows (entry s) t
shows_entry s t e = subst (Shows (entry s)) (sym e) (record { same = λ j n. refl })

-- The end of an operation that puts a node at a name.
put_end :
    {A : Type 0} (t : Tree) (i : ℕ) (name : Name) (node : Node) (op : Operation) (a : A)
    → Yields
        (Shows t)
        (dir_mut i (put_child name node) >> (record_op op >> pure a))
        (λ _. Shows (link i name node t))
put_end t i name node op a =
    Yields-bind _ (λ _. Shows (link i name node t)) _ _ _ (put-Shows t i name node)
      λ _.
        Yields-bind _ (λ _. Shows (link i name node t)) _ _ _ ((Still-record_op op).keeps _)
          (λ _. (Still-pure a).keeps _)

module _ (fuel : ℕ) (path : PathName) (s : AbstractFs) where
  -- A path that must stand for nothing, and what is then put there.
  linking :
      {A : Type 0} (x : FsError) (node : Node) (tail : ℕ → Name → Exec A)
      → ((i : ℕ) (name : Name)
          → Yields (λ t. t ≡ s) (tail i name) (λ _. Shows (link i name node (entry s))))
      → Yields
          (λ t. t ≡ s)
          (Ops.parent_of fuel path >>= λ p.
            Ops.name_exists p.0 p.1 >>= λ exists. if exists then raise x else tail p.0 p.1)
          (λ _ t. Linked fuel s path node (entry t))
  linking x node tail h =
      Yields-bind _ (λ p t. (t ≡ s) × At fuel s path p.0 p.1) _ _ _ (parent_of-At fuel path s)
        λ p.
          Yields-fact _ _ _ _ (λ t q. q.1)
            λ at.
              Yields-bind _
                (λ b t.
                  (t ≡ s)
                  × ((b ≡ false → entry s p.0 p.1 ≡ none) × (b ≡ true → entry s p.0 p.1 ≢ none)))
                _ _ _
                (Yields-mono _ _ _ _ _ (λ t q. q.0) (λ b t q. q) (name_exists-entry p.0 p.1 s))
                λ b.
                  Yields-fact _ _ _ _ (λ t q. q.1)
                    λ there.
                      Yields-if _ _ b _ _ (λ _. Yields-raise _ _ x)
                        λ e.
                          Yields-mono (λ t. t ≡ s) _ (λ _. Shows (link p.0 p.1 node (entry s))) _ _
                            (λ t q. q.0)
                            (λ a t shown. record {
                              parent = p.0;
                              name = p.1;
                              at = at;
                              free = there.0 e;
                              tree = shown.same;
                            })
                            (h p.0 p.1)

  -- An index that is asked for, a node that is added, and the end.
  fresh :
      (len : AbstractFs → ℕ) (node : ℕ → Node) (add : Exec (Unit {0})) (op : Operation)
      → Still add
      → (i : ℕ) (name : Name)
      → Yields
          (λ t. t ≡ s)
          (query (λ fs. ok (len fs)) >>= λ idx.
            add >> (dir_mut i (put_child name (node idx)) >> (record_op op >> pure idx)))
          (λ _. Shows (link i name (node (len s)) (entry s)))
  fresh len node add op still i name =
      Yields-bind _ _ _ _ _ (Yields-query _ (λ fs. ok (len fs))) λ idx.
        Yields-fact _ _ _ (len s ≡ idx) (λ t q. index_of t idx q.0 q.1)
          λ e.
            subst
              (λ k.
                Yields (λ t. (t ≡ s) × (ok (len t) ≡ ok idx))
                  (add >> (dir_mut i (put_child name (node idx)) >> (record_op op >> pure idx)))
                  (λ _. Shows (link i name (node k) (entry s))))
              (sym e)
              (Yields-bind _ (λ _. Shows (entry s)) _ _ _
                (Yields-mono (Shows (entry s)) _ (λ _. Shows (entry s)) _ _
                  (λ t q. shows_entry s t q.0) (λ _ t q. q) (still.keeps (entry s)))
                (λ _. put_end (entry s) i name (node idx) op idx))
    where
      index_of : (t : AbstractFs) (idx : ℕ) → t ≡ s → ok (len t) ≡ ok idx → len s ≡ idx
      index_of t idx e f = let same : len t ≡ idx = ground (arith, f) in sym (ap len e) ∙ same

pub ignored :
    {A : Type 0} (s : AbstractFs) (m : Exec A) (Q : AbstractFs → Type 0)
    → Yields (λ t. t ≡ s) m (λ _. Q)
    → Yields (λ t. t ≡ s) (ignore m) (λ _. Q)
ignored s m Q h = Yields-bind _ (λ _. Q) _ _ _ h (λ _. Yields-pure _ _ _ (λ t q. q))

module _ (fuel : ℕ) (s : AbstractFs) where
  pub mkdir-Linked :
      (path : PathName) (mode : Mode)
      → Yields
          (λ t. t ≡ s)
          (Ops.mkdir fuel path mode)
          (λ _ t. Linked fuel s path (Node.dir (length s.dirs)) (entry t))
  unfolding Ops.mkdir
  mkdir-Linked path mode = linking fuel path s _ (Node.dir (length s.dirs)) _ (
      fresh fuel path s (λ fs. length fs.dirs) Node.dir (Ops.push_dir Ops.empty_dir) _
        Still-push_dir)

  pub create-Linked :
      (path : PathName) (mode : Mode)
      → Yields
          (λ t. t ≡ s)
          (Ops.create fuel path mode)
          (λ _ t. Linked fuel s path (Node.file (length s.files)) (entry t))
  unfolding Ops.create
  create-Linked path mode = linking fuel path s _ (Node.file (length s.files)) _ (
      fresh fuel path s (λ fs. length fs.files) Node.file (Ops.push_file Ops.empty_file) _
        (Still-push_file Ops.empty_file))

  pub symlink-Linked :
      (target linkpath : PathName)
      → Yields
          (λ t. t ≡ s)
          (Ops.symlink fuel target linkpath)
          (λ _ t. Linked fuel s linkpath (Node.symlink (length s.symlinks)) (entry t))
  unfolding Ops.symlink
  symlink-Linked target linkpath = linking fuel linkpath s _ (Node.symlink (length s.symlinks)) _ (
      fresh fuel linkpath s (λ fs. length fs.symlinks) Node.symlink _ _
        (Still-push_symlink (record { target = target })))

  -- A query leaves the state as it is.
  pub kept :
      {A : Type 0} (m : Exec A) (R : A → AbstractFs → Type 0)
      → Yields (λ t. t ≡ s) m (λ a t. (t ≡ s) × R a t)
      → Yields (λ t. t ≡ s) m (λ _ t. t ≡ s)
  kept m R h = Yields-mono _ _ _ _ _ (λ t q. q) (λ a t q. q.0) h

  pub hardlink-Linked :
      (old_path new_path : PathName)
      → Yields
          (λ t. t ≡ s)
          (Ops.hardlink fuel old_path new_path)
          (λ _ t. Effect fuel (Operation.hardlink old_path new_path) s (entry t))
  unfolding Ops.hardlink
  hardlink-Linked old_path new_path =
      Yields-bind _ (λ _ t. t ≡ s) _ _ _ (kept _ _ (parent_of-At fuel old_path s))
        λ x.
          Yields-bind _ (λ _ t. t ≡ s) _ _ _ (kept _ _ (Yields-query _ _))
            λ d.
              Yields-if _ _ (Ops.is_symlink (Children.get x.1 d.children)) _ _
                (λ _. Yields-raise _ _ _)
                λ _.
                  Yields-bind _ _ _ _ _ (Yields-query _ (λ fs. resolve_file fs fuel old_path)) λ y.
                    Yields-fact _ _ _ (resolve_file s fuel old_path ≡ ok y)
                      (λ t q. subst (λ u. resolve_file u fuel old_path ≡ ok y) q.0 q.1)
                      λ e.
                        Yields-mono (λ t. t ≡ s) _ _ _ _ (λ t q. q.0) (λ _ t l. (y.1, y.0, e, l))
                          (linking fuel new_path s _ (Node.file y.1) _ λ i name.
                            Yields-mono (Shows (entry s)) _ _ _ _ (shows_entry s) (λ _ t q. q)
                              (put_end (entry s) i name (Node.file y.1) _ y.1))

  pub remove-Unlinked :
      (path : PathName)
      → Yields (λ t. t ≡ s) (Ops.remove fuel path) (λ _ t. Unlinked fuel s path (entry t))
  unfolding Ops.remove
  remove-Unlinked path =
      Yields-if _ _ (is_root path) _ _ (λ _. Yields-raise _ _ _)
        λ _. Yields-bind _ _ _ _ _ (parent_of-At fuel path s) λ p.
          Yields-fact _ _ _ _ (λ t q. q.1)
            λ at.
              Yields-bind _ _ _ _ _
                (Yields-mono _ _ _ _ _ (λ t q. q.0) (λ b t q. q) (name_exists-entry p.0 p.1 s))
                λ b.
                  Yields-fact _ _ _ _ (λ t q. q.1)
                    λ there.
                      Yields-bind _ (λ _. Shows (unlink p.0 p.1 (entry s))) _ _ _
                        (Yields-mono (Shows (entry s)) _ _ _ _ (λ t q. shows_entry s t q.0)
                          (λ _ t q. q) (drop-Shows (entry s) p.0 p.1))
                        λ _.
                          Yields-if _ _ (not b) _ _ (λ _. Yields-raise _ _ _)
                            λ e.
                              Yields-mono _ _ _ _ _ (λ t q. q)
                                (λ _ t shown. record {
                                  parent = p.0;
                                  name = p.1;
                                  at = at;
                                  there = there.1 (found b e);
                                  tree = shown.same;
                                })
                                ((Still-record_op (Operation.remove path)).keeps
                                  (unlink p.0 p.1 (entry s)))
    where
      found : (b : Bool) → not b ≡ false → b ≡ true
      found b e = ground (arith, e)
