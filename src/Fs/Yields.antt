-- ===== src/Fs/Yields.antt =====
-- Rules for what an action of fs.rs that succeeds does to the entries of the directories.
use diffuzzer.Prelude.{
  ℕ, zero, suc, ◌≡◌, ◌≢◌, refl, ap, subst, Bool, true, false, Option, none, some, List, [], ◌∷◌,
  if◌then◌else◌, ◌==◌, arith, get_elem?, update_at,
}
use diffuzzer.PathName.{PathName, Name}
use diffuzzer.Node.{Node, Dir}
use diffuzzer.Node.Children
use diffuzzer.Node.Children.{get-insert, get-remove}
use diffuzzer.Fs.State.{
  AbstractFs, FsError, Result, ok, Exec, pure, raise, query, modify, ◌>>=◌, dir, dir_mut, put_child,
  drop_child, unwrap,
}
use diffuzzer.Fs.Ops
use diffuzzer.Fs.Resolve.{resolve_dir}
use diffuzzer.Fs.Recording.{>>=-eq-ok}
use diffuzzer.Fs.View.{Tree, lookup, entry, link, unlink, At}

-- From a state with `P`, an action that succeeds leads to a value and a state with `Q`.
pub record Yields {A : Type 0} (P : AbstractFs → Type 0) (m : Exec A) (Q : A → AbstractFs → Type 0)
    : Type 0 where
  pub at : (s s' : AbstractFs) (a : A) → P s → m s ≡ (ok a, s') → Q a s'

module _ {A : Type 0} where
  pub Yields-pure :
      (P : AbstractFs → Type 0) (Q : A → AbstractFs → Type 0) (a : A)
      → ((s : AbstractFs) → P s → Q a s)
      → Yields P (pure a) Q
  unfolding pure
  Yields-pure P Q a h = record {
    at = λ s s' b p e.
        let value : a ≡ b = ground (arith, e) in
        subst (λ x. Q x s') value (subst (Q a) (ap (λ q. q.1) e) (h s p));
  }

  pub Yields-raise :
      (P : AbstractFs → Type 0) (Q : A → AbstractFs → Type 0) (x : FsError) → Yields P (raise x) Q
  unfolding raise
  Yields-raise P Q x = record { at = λ s s' b p e. cc }

  -- A query, with what it returned.
  pub Yields-query :
      (P : AbstractFs → Type 0) (f : AbstractFs → Result A)
      → Yields P (query f) (λ a s. P s × (f s ≡ ok a))
  unfolding query
  Yields-query P f = record {
    at = λ s s' a p e. subst (λ t. P t × (f t ≡ ok a)) (ap (λ q. q.1) e) (p, ap (λ q. q.0) e);
  }

  pub Yields-if :
      (P : AbstractFs → Type 0) (Q : A → AbstractFs → Type 0) (b : Bool) (m n : Exec A)
      → (b ≡ true → Yields P m Q)
      → (b ≡ false → Yields P n Q)
      → Yields P (if b then m else n) Q
  Yields-if P Q true m n hm hn = hm refl
  Yields-if P Q false m n hm hn = hn refl

  pub Yields-mono :
      (P P' : AbstractFs → Type 0) (Q Q' : A → AbstractFs → Type 0) (m : Exec A)
      → ((s : AbstractFs) → P' s → P s)
      → ((a : A) (s : AbstractFs) → Q a s → Q' a s)
      → Yields P m Q
      → Yields P' m Q'
  Yields-mono P P' Q Q' m f g h = record { at = λ s s' a p e. g a s' (h.at s s' a (f s p) e) }

pub Yields-modify :
    (P : AbstractFs → Type 0) (Q : Unit {0} → AbstractFs → Type 0) (f : AbstractFs → AbstractFs)
    → ((s : AbstractFs) → P s → Q tt (f s))
    → Yields P (modify f) Q
unfolding modify
Yields-modify P Q f h = record { at = λ s s' u p e. subst (Q tt) (ap (λ q. q.1) e) (h s p) }

pub Yields-bind :
    {A B : Type 0} (P : AbstractFs → Type 0) (R : A → AbstractFs → Type 0)
    (Q : B → AbstractFs → Type 0) (m : Exec A) (f : A → Exec B)
    → Yields P m R
    → ((a : A) → Yields (R a) (f a) Q)
    → Yields P (m >>= f) Q
Yields-bind P R Q m f hm hf = record {
  at = λ s s' b p e.
      let (a, t, em, ef) = >>=-eq-ok m f s s' b e in (hf a).at t s' b (hm.at s t a p em) ef;
}

-- The entries are those of a tree.
pub record Shows (t : Tree) (s : AbstractFs) : Type 0 where
  pub same : (j : ℕ) (n : Name) → entry s j n ≡ t j n

lookup-update_at :
    (dirs : List Dir) (i j : ℕ) (n : Name) (f : Dir → Dir) (d : Dir)
    → get_elem? dirs i ≡ some d
    → lookup (get_elem? (update_at dirs i f) j) n
      ≡ (if i == j then Children.get n (f d).children else lookup (get_elem? dirs j) n)
lookup-update_at [] i j n f d e = absurd (cc)
lookup-update_at (x ∷ xs) zero zero n f d e =
    let same : x ≡ d = ground (arith, e) in ap (λ (y : Dir). Children.get n (f y).children) same
lookup-update_at (x ∷ xs) zero (suc j) n f d e = ground arith
lookup-update_at (x ∷ xs) (suc i) zero n f d e = ground arith
lookup-update_at (x ∷ xs) (suc i) (suc j) n f d e = ground (arith, lookup-update_at xs i j n f d e)

pub unwrap_ok : {A : Type 0} (o : Option A) (a : A) → unwrap o ≡ ok a → o ≡ some a
unwrap_ok none a e = absurd (cc)
unwrap_ok (some b) a e = ground (arith, e)

-- A child is put into a directory that is there.
pub put-Shows :
    (t : Tree) (i : ℕ) (name : Name) (node : Node)
    → Yields (Shows t) (dir_mut i (put_child name node)) (λ _. Shows (link i name node t))
unfolding dir_mut dir
put-Shows t i name node = Yields-bind _ _ _ _ _ (Yields-query _ _) λ d. Yields-modify _ _ _ λ s p.
    record {
      same = λ j n.
          let found : get_elem? s.dirs i ≡ some d = unwrap_ok _ d p.1 in
          ground (
            arith,
            lookup-update_at s.dirs i j n (put_child name node) d found,
            get-insert name n node d.children,
            p.0.same j n,
            found,
          );
    }

-- A child is taken out of a directory that is there.
pub drop-Shows :
    (t : Tree) (i : ℕ) (name : Name)
    → Yields (Shows t) (dir_mut i (drop_child name)) (λ _. Shows (unlink i name t))
unfolding dir_mut dir
drop-Shows t i name = Yields-bind _ _ _ _ _ (Yields-query _ _) λ d. Yields-modify _ _ _ λ s p.
    record {
      same = λ j n.
          let found : get_elem? s.dirs i ≡ some d = unwrap_ok _ d p.1 in
          ground (
            arith,
            lookup-update_at s.dirs i j n (drop_child name) d found,
            get-remove name n d.children,
            p.0.same j n,
            found,
          );
    }

-- What follows from the states with `P` may be used.
pub Yields-fact :
    {A : Type 0} (P : AbstractFs → Type 0) (Q : A → AbstractFs → Type 0) (m : Exec A) (F : Type 0)
    → ((s : AbstractFs) → P s → F)
    → (F → Yields P m Q)
    → Yields P m Q
Yields-fact P Q m F f h = record { at = λ s s' a p e. (h (f s p)).at s s' a p e }

pub parent_of-At :
    (fuel : ℕ) (path : PathName) (s : AbstractFs)
    → Yields (λ t. t ≡ s) (Ops.parent_of fuel path) (λ x t. (t ≡ s) × At fuel s path x.0 x.1)
unfolding Ops.parent_of
parent_of-At fuel path s = Yields-bind _ _ _ _ _ (Yields-query _ _) λ x.
    Yields-bind _ _ _ _ _ (Yields-query _ _) λ y. Yields-pure _ _ _ λ t p. (
      p.0.0,
      record {
        parent_path = x.0;
        dirs = y.0;
        splits = unwrap_ok _ x p.0.1;
        resolves = subst (λ u. resolve_dir u fuel x.0 ≡ ok y) p.0.0 p.1;
      },
    )

pub name_exists-entry :
    (i : ℕ) (name : Name) (s : AbstractFs)
    → Yields
        (λ t. t ≡ s)
        (Ops.name_exists i name)
        (λ b t.
          (t ≡ s) × ((b ≡ false → entry s i name ≡ none) × (b ≡ true → entry s i name ≢ none)))
unfolding Ops.name_exists dir Children.contains_key
name_exists-entry i name s = Yields-bind _ _ _ _ _ (Yields-query _ _) λ d. Yields-pure _ _ _ λ t p.
    let found : get_elem? s.dirs i ≡ some d =
      unwrap_ok _ d (subst (λ u. unwrap (get_elem? u.dirs i) ≡ ok d) p.0 p.1) in
    (p.0, rw found (here (Children.get name d.children)))
  where
    here :
        (o : Option Node)
        → (elim o [ none ↦ false | some v ↦ true ] ≡ false → o ≡ none)
          × (elim o [ none ↦ false | some v ↦ true ] ≡ true → o ≢ none)
    here none = (λ e. refl, λ e. cc)
    here (some v) = (λ e. cc, λ e f. cc)
