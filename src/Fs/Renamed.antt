-- ===== src/Fs/Renamed.antt =====
-- `rename` of fs.rs, and the entries of the directories.
use diffuzzer.Prelude.{
  ℕ, ◌≡◌, ◌≢◌, refl, subst, false, not, Option, none, some, List, [], ◌∷◌, ◌==◌, arith, is_empty,
  get_elem?,
}
use diffuzzer.PathName.{PathName, Name}
use diffuzzer.Operation.{Operation}
use diffuzzer.Node.{Node, Dir}
use diffuzzer.Node.Children
use diffuzzer.Fs.State.{
  AbstractFs, Result, ok, bind, unwrap, Exec, pure, query, ◌>>=◌, ◌>>◌, dir, dir_mut, put_child,
  drop_child, record_op,
}
use diffuzzer.Fs.Ops
use diffuzzer.Fs.Resolve.{contains}
use diffuzzer.Fs.View.{entry, link, unlink, At, Moved}
use diffuzzer.Fs.Yields.{
  Yields, Yields-pure, Yields-raise, Yields-query, Yields-if, Yields-mono, Yields-bind, Yields-fact,
  unwrap_ok, Shows, put-Shows, drop-Shows, parent_of-At,
}
use diffuzzer.Fs.Still.{Still-record_op}
use diffuzzer.Fs.Linked.{shows_entry}

-- A state with `P` is taken as it is.
Yields-from :
    {A : Type 0} (P : AbstractFs → Type 0) (Q : A → AbstractFs → Type 0) (m : Exec A)
    → ((u : AbstractFs) → P u → Yields (λ t. t ≡ u) m Q)
    → Yields P m Q
Yields-from P Q m h = record { at = λ s s' a p e. (h s p).at s s' a refl e }

-- A query, with what it returns on the state.
asked :
    {A : Type 0} (s : AbstractFs) (f : AbstractFs → Result A)
    → Yields (λ t. t ≡ s) (query f) (λ a t. (t ≡ s) × (f s ≡ ok a))
asked s f =
    Yields-mono _ _ _ _ _ (λ t q. q) (λ a t q. (q.0, subst (λ u. f u ≡ ok a) q.0 q.1))
      (Yields-query (λ t. t ≡ s) f)

-- A query that is followed by what it returns.
asking :
    {A B : Type 0} (s : AbstractFs) (f : AbstractFs → Result A) (k : A → Exec B)
    (Q : B → AbstractFs → Type 0)
    → ((a : A) → f s ≡ ok a → Yields (λ t. t ≡ s) (k a) Q)
    → Yields (λ t. t ≡ s) (query f >>= k) Q
asking s f k Q h = Yields-bind _ _ _ _ _ (asked s f) λ a.
    Yields-fact _ _ _ _ (λ t q. q.1) λ e. Yields-mono _ _ _ _ _ (λ t q. q.0) (λ b t q. q) (h a e)

no_children :
    (n : Name) (children : List (Name × Node))
    → ok (not (is_empty children)) ≡ ok false
    → Children.get n children ≡ none
unfolding Children.get
no_children n [] h = refl
no_children n (c ∷ children) h = absurd (ground arith)

-- A path that resolves to a directory, if it has no children.
empty-none :
    (fs : AbstractFs) (r : Result (List ℕ × ℕ))
    → Ops.has_children fs r ≡ ok false
    → (dirs : List ℕ) (i : ℕ) → r ≡ ok (dirs, i)
    → (n : Name) → entry fs i n ≡ none
unfolding Ops.has_children dir
empty-none fs r h dirs i e n = go (get_elem? fs.dirs i) refl
  where
    go : (o : Option Dir) → get_elem? fs.dirs i ≡ o → entry fs i n ≡ none
    go none q = rw q refl
    go (some d) q = rw q (
        no_children n d.children (
          subst (λ o. bind (unwrap o) (λ x. ok (not (is_empty x.children))) ≡ ok false) q
            (subst (λ r. Ops.has_children fs r ≡ ok false) e h)))

outside_itself :
    (node : Node) (dirs : List ℕ) (parent : ℕ)
    → Ops.into_itself node dirs parent ≡ false
    → (i : ℕ) → node ≡ Node.dir i
    → (contains dirs i ≡ false) × (parent ≢ i)
unfolding Ops.into_itself
outside_itself (Node.dir k) dirs parent h i e =
    let same : k ≡ i = ground (arith, e) in
    let parts : (contains dirs k ≡ false) × ((parent == k) ≡ false) = ground (arith, h) in
    (
      subst (λ x. contains dirs x ≡ false) same parts.0,
      λ q. absurd (ground (arith, parts.1, q, same)),
    )
outside_itself (Node.file k) dirs parent h i e = absurd (cc)
outside_itself (Node.symlink k) dirs parent h i e = absurd (cc)

module _ (fuel : ℕ) (s : AbstractFs) (old_path new_path : PathName) where
  -- The end of a rename, from the state in which the new path has the node.
  taken_away :
      (u : AbstractFs) (node : Node)
      → Yields
          (λ t. t ≡ u)
          (Ops.parent_of fuel old_path >>= λ o.
            dir_mut o.0 (drop_child o.1)
            >> (record_op (Operation.rename old_path new_path) >> pure node))
          (λ _ t.
            (i : ℕ) × (name : Name) × At fuel u old_path i name × Shows (unlink i name (entry u)) t)
  taken_away u node = Yields-bind _ _ _ _ _ (parent_of-At fuel old_path u) λ o.
      Yields-fact _ _ _ _ (λ t q. q.1)
        λ at.
          Yields-bind _ (λ _. Shows (unlink o.0 o.1 (entry u))) _ _ _
            (Yields-mono (Shows (entry u)) _ _ _ _ (λ t q. shows_entry u t q.0) (λ _ t q. q)
              (drop-Shows (entry u) o.0 o.1))
            λ _.
              Yields-bind _ (λ _. Shows (unlink o.0 o.1 (entry u))) _ _ _
                ((Still-record_op _).keeps _)
                λ _. Yields-pure _ _ _ λ t shown. (o.0, o.1, at, shown)

  -- The node is put at the new path.
  put_there :
      (i : ℕ) (name : Name) (node : Node)
      → Yields
          (λ t. t ≡ s)
          (dir_mut i (put_child name node))
          (λ _ t.
            (dir_mut i (put_child name node) s ≡ (ok tt, t)) × Shows (link i name node (entry s)) t)
  put_there i name node = record {
    at = λ t t' u e h. (
      subst (λ x. dir_mut i (put_child name node) x ≡ (ok tt, t')) e h,
      (put-Shows (entry s) i name node).at t t' u (shows_entry s t e) h,
    );
  }

  pub rename-Moved :
      Yields
        (λ t. t ≡ s)
        (Ops.rename fuel old_path new_path)
        (λ _ t. Moved fuel s old_path new_path (entry t))
  unfolding Ops.rename
  rename-Moved = asking s _ _ _ λ busy vacancy.
      Yields-if _ _ busy _ _ (λ _. Yields-raise _ _ _)
        λ idle. asking s _ _ _ λ x found. asking s _ _ _ λ y splits. asking s _ _ _ λ z resolves.
          Yields-if _ _ (Ops.into_itself x.1 z.0 z.1) _ _ (λ _. Yields-raise _ _ _)
            λ apart. Yields-bind _ _ _ _ _ (put_there z.1 y.1 x.1) λ _. Yields-from _ _ _ λ u q.
              Yields-mono _ _ _ _ _ (λ t e. e)
                (λ _ t r. record {
                  node = x.1;
                  node_dirs = x.0;
                  found = found;
                  parent = z.1;
                  name = y.1;
                  at = record {
                    parent_path = y.0;
                    dirs = z.0;
                    splits = unwrap_ok _ y splits;
                    resolves = resolves;
                  };
                  vacant = empty-none s _ (rw (← idle) vacancy);
                  outside = outside_itself x.1 z.0 z.1 apart;
                  middle = u;
                  put = q.0;
                  put_tree = q.1.same;
                  old_parent = r.0;
                  old_name = r.1;
                  old_at = r.2;
                  tree = r.3.same;
                })
                (taken_away u x.1)
