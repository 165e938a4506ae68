-- ===== src/Fallible/Adds.antt =====
-- Steps over a history: what they add to it.
use diffuzzer.Prelude.{
  ◌≡◌, refl, sym, ap, ◌∙◌, Bool, true, false, Option, none, some, List, [], ◌++◌, if◌then◌else◌,
  arith, append-nil, append_assoc, subst,
}
use diffuzzer.Fallible.{Step, continue, ◌>>=◌, ◌>>◌, pure, fail}

-- A step that returns a value adds entries to a history, and `C` holds of the value and the entries.
pub record Adds {E A : Type 0} (C : A → List E → Type 0) (m : Step (List E) A) : Type 0 where
  pub at : (h h' : List E) (a : A) → m h ≡ (some a, h') → (d : List E) × (h' ≡ h ++ d) × C a d

module _ {E A : Type 0} where
  pub Adds-pure : (C : A → List E → Type 0) (a : A) → C a [] → Adds C (pure a)
  unfolding pure
  Adds-pure C a c = record {
    at = λ h h' b e.
        let value : a ≡ b = ground (arith, e) in
        ([], sym (ap (λ q. q.1) e) ∙ sym (append-nil h), subst (λ x. C x []) value c);
  }

  pub Adds-mono :
      (C D : A → List E → Type 0) (m : Step (List E) A)
      → ((a : A) (d : List E) → C a d → D a d)
      → Adds C m
      → Adds D m
  Adds-mono C D m f h = record {
    at = λ s s' a e. let (d, ed, c) = h.at s s' a e in (d, ed, f a d c);
  }

  pub Adds-fail : (C : A → List E → Type 0) → Adds C fail
  unfolding fail
  Adds-fail C = record { at = λ h h' b e. cc }

  pub Adds-if :
      (C : A → List E → Type 0) (b : Bool) (m n : Step (List E) A)
      → (b ≡ true → Adds C m)
      → (b ≡ false → Adds C n)
      → Adds C (if b then m else n)
  Adds-if C true m n hm hn = hm refl
  Adds-if C false m n hm hn = hn refl

pub Adds-bind :
    {E A B : Type 0} (C : B → List E → Type 0) (added : List E) (m : Step (List E) A)
    (f : A → Step (List E) B)
    → Adds (λ _ d. d ≡ added) m
    → ((a : A) → Adds (λ b d. C b (added ++ d)) (f a))
    → Adds C (m >>= f)
unfolding ◌>>=◌
Adds-bind {E} {A} {B} C added m f hm hf = record {
  at = λ h h' b e. go h h' b (m h).0 (m h).1 refl e;
}
  where
    go :
        (h h' : List E) (b : B) (r : Option A) (t : List E)
        → m h ≡ (r, t)
        → continue r f t ≡ (some b, h')
        → (d : List E) × (h' ≡ h ++ d) × C b d
    go h h' b none t e k = cc
    go h h' b (some a) t e k =
        let (d, et, ed) = hm.at h t a e in
        let (d', eh, c) = (hf a).at t h' b k in
        (added ++ d', eh ∙ ap (λ v. v ++ d') (et ∙ ap (◌++◌ h) ed) ∙ append_assoc h added d', c)

-- The entries of two steps, one after the other.
pub Adds-then :
    {E B : Type 0} (C : B → List E → Type 0) (first second : List E) (m : Step (List E) (Unit {0}))
    (n : Step (List E) B)
    → Adds (λ _ d. d ≡ first) m
    → ((b : B) → C b (first ++ second))
    → Adds (λ _ d. d ≡ second) n
    → Adds C (m >> n)
Adds-then C first second m n hm c hn =
    Adds-bind C first m (λ _. n) hm
      λ _. Adds-mono _ _ _ (λ b d e. subst (λ v. C b (first ++ v)) (sym e) (c b)) hn
