-- ===== src/PathName/Laws.antt =====
-- Joining a name to a path and splitting it off again, and the segments of a path.
use diffuzzer.Prelude.{
  ℕ, suc, ◌+◌, ◌≡◌, ◌≢◌, ◌↔◌, ◌⊎◌, refl, ap, ◌∙◌, Bool, true, false, not, none, some, List, [], ◌∷◌,
  ◌++◌, if◌then◌else◌, ◌==◌, take, drop, retain, is_empty, length, All, arith, inl, inr, Bool-cases,
}
use diffuzzer.PathName.{
  Name, PathName, slash, root, text_eq, rfind, is_root, split, parts, prepend, segments, join,
  ends_with_slash, is_valid,
}

-- A name of a directory entry: not empty, and with no slash in it.
abbrev pub Plain : Name → Type 0
Plain = All (λ c. c ≢ slash)

pub text_eq_iff : (s t : List ℕ) → (text_eq s t ≡ true) ↔ (s ≡ t)
unfolding text_eq
text_eq_iff [] [] = (λ _. refl, λ _. refl)
text_eq_iff [] (d ∷ t) = ground arith
text_eq_iff (c ∷ s) [] = ground arith
text_eq_iff (c ∷ s) (d ∷ t) = ground (arith, text_eq_iff s t)

rfind-Plain : (n : Name) → Plain n → rfind slash n ≡ none
unfolding rfind
rfind-Plain [] h = refl
rfind-Plain (c ∷ n) h = ground (arith, rfind-Plain n h.1)

rfind_last : (p : PathName) (n : Name) → Plain n → rfind slash (p ++ (slash ∷ n)) ≡ some (length p)
unfolding rfind
rfind_last [] n h = rw (rfind-Plain n h)
rfind_last (c ∷ p) n h = rw (rfind_last p n h) (ap some (omega arith))

take_prefix : (p s : List ℕ) → take (length p) (p ++ s) ≡ p
take_prefix [] s = refl
take_prefix (c ∷ p) s = ap (◌∷◌ c) (take_prefix p s)

drop_prefix : (p s : List ℕ) (c : ℕ) → drop (length p + 1) (p ++ (c ∷ s)) ≡ s
drop_prefix [] s c = refl
drop_prefix (d ∷ p) s c =
    ap (λ k. drop k (d ∷ (p ++ (c ∷ s)))) {y = suc (length p + 1)} (omega arith) ∙ drop_prefix p s c

-- The path is the root, or it is not.
is_root-cases : (p : PathName) → (p ≡ root) ⊎ (is_root p ≡ false)
unfolding is_root
is_root-cases p = elim (Bool-cases (text_eq p root)) [
  | inl e ↦ inl ((text_eq_iff p root).0 e)
  | inr e ↦ inr e
]

is_root-root : is_root root ≡ true
unfolding is_root text_eq
is_root-root = refl

split_last :
    (p : PathName) (n : Name)
    → Plain n
    → split (p ++ (slash ∷ n)) ≡ (if is_empty p then some (root, n) else some (p, n))
unfolding split
split_last p n h =
    rw (rfind_last p n h, split) (rw (take_prefix p (slash ∷ n), drop_prefix p n slash) refl)

-- A plain name that is joined to a path is split off again, with the path.
pub split-join : (p : PathName) (n : Name) → p ≢ [] → Plain n → split (join p n) ≡ some (p, n)
unfolding join
split-join [] n h pl = absurd (h refl)
split-join (c ∷ p) n h pl = elim (is_root-cases (c ∷ p)) [
  | inl e ↦ rw (e, is_root-root) (split_last [] n pl)
  | inr e ↦ rw e (split_last (c ∷ p) n pl)
]

parts-Plain : (n : Name) → Plain n → parts n ≡ n ∷ []
unfolding parts
parts-Plain [] h = refl
parts-Plain (c ∷ n) h = rw (parts-Plain n h.1) (ground arith)

prepend-ne-nil : (c : ℕ) (ps : List (List ℕ)) → prepend c ps ≢ []
prepend-ne-nil c [] = cc
prepend-ne-nil c (p ∷ ps) = cc

parts-ne-nil : (s : List ℕ) → parts s ≢ []
unfolding parts
parts-ne-nil [] = cc
parts-ne-nil (c ∷ s) = elim (Bool-cases (c == slash)) [
  | inl e ↦ rw e (cc)
  | inr e ↦ rw e (prepend-ne-nil c (parts s))
]

prepend-append :
    (c : ℕ) (ps qs : List (List ℕ)) → ps ≢ [] → prepend c (ps ++ qs) ≡ prepend c ps ++ qs
prepend-append c [] qs h = absurd (h refl)
prepend-append c (p ∷ ps) qs h = refl

-- A slash ends the parts before it.
parts-append : (p : PathName) (n : List ℕ) → parts (p ++ (slash ∷ n)) ≡ parts p ++ parts n
unfolding parts
parts-append [] n = refl
parts-append (c ∷ p) n = rw (parts-append p n) (elim (Bool-cases (c == slash)) [
  | inl e ↦ rw e refl
  | inr e ↦ rw e (prepend-append c (parts p) (parts n) (parts-ne-nil p))
])

retain-append {ℓ} :
    {A : Type ℓ} (f : A → Bool) (xs ys : List A) → retain f (xs ++ ys) ≡ retain f xs ++ retain f ys
retain-append f [] ys = refl
retain-append f (x ∷ xs) ys = rw (retain-append f xs ys) (ground arith)

is_empty_of_ne : (n : Name) → n ≢ [] → is_empty n ≡ false
is_empty_of_ne [] h = absurd (h refl)
is_empty_of_ne (c ∷ n) h = refl

-- The segments of a joined path are those of the path, and the name.
segments-join :
    (p : PathName) (n : Name) → n ≢ [] → Plain n → segments (join p n) ≡ segments p ++ (n ∷ [])
unfolding join segments
segments-join p n h pl = elim (is_root-cases p) [
  | inl e ↦
      rw (e, is_root-root, parts-append [] n, parts-Plain n pl)
        (unfold parts in rw (is_empty_of_ne n h) refl)
  | inr e ↦
      rw
        (
          e,
          parts-append p n,
          retain-append (λ s. not (is_empty s)) (parts p) (parts n),
          parts-Plain n pl,
          is_empty_of_ne n h,
        )
        refl
]

ends_with_slash-append :
    (p s : List ℕ) (c : ℕ) → ends_with_slash (p ++ (c ∷ s)) ≡ ends_with_slash (c ∷ s)
unfolding ends_with_slash
ends_with_slash-append [] s c = refl
ends_with_slash-append (d ∷ []) s c = refl
ends_with_slash-append (d ∷ e ∷ p) s c = ends_with_slash-append (e ∷ p) s c

ends_with_slash-Plain : (c : ℕ) (n : Name) → n ≢ [] → Plain n → ends_with_slash (c ∷ n) ≡ false
unfolding ends_with_slash
ends_with_slash-Plain c [] h pl = absurd (h refl)
ends_with_slash-Plain c (d ∷ []) h pl = ground (arith, pl.0)
ends_with_slash-Plain c (d ∷ e ∷ n) h pl = ends_with_slash-Plain d (e ∷ n) (cc) pl.1

-- Joining a plain name keeps a path valid.
is_valid-join :
    (p : PathName) (n : Name) → is_valid p ≡ true → n ≢ [] → Plain n → is_valid (join p n) ≡ true
unfolding is_valid join
is_valid-join [] n v h pl = ground arith
is_valid-join (c ∷ p) n v h pl = elim (is_root-cases (c ∷ p)) [
  | inl e ↦ rw (e, is_root-root, ends_with_slash-Plain slash n h pl) refl
  | inr e ↦
      rw (e, ends_with_slash-append (c ∷ p) n slash, ends_with_slash-Plain slash n h pl)
        (ground arith)
]

-- A plain name joined to a valid path gives a valid path, whose segments are those of the path and then
-- the name.
pub join-segments :
    (p : PathName) (n : Name)
    → is_valid p ≡ true
    → n ≢ []
    → Plain n
    → (is_valid (join p n) ≡ true) × (segments (join p n) ≡ segments p ++ (n ∷ []))
join-segments p n v h pl = (is_valid-join p n v h pl, segments-join p n h pl)
