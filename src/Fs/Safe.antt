-- ===== src/Fs/Safe.antt =====
-- Rules for actions that never panic and that leave a valid file system, also where they fail.
use diffuzzer.Prelude.{◌≡◌, ◌≢◌, refl, Bool, true, false, if◌then◌else◌, subst}
use diffuzzer.Fs.State.{
  AbstractFs, FsError, Result, ok, err, panic, overflow, Exec, pure, raise, query, modify, ◌>>=◌,
  continue,
}
use diffuzzer.Fs.Valid.{IsValid}
use diffuzzer.Fs.Resolved.{Good}

-- From a state with `P` the action does not panic; if it returns, `Q` holds of the value and the
-- state, and if it fails, the state is valid.
pub record Safe {A : Type 0} (P : AbstractFs → Type 0) (m : Exec A) (Q : A → AbstractFs → Type 0)
    : Type 0 where
  pub value : (s s' : AbstractFs) (a : A) → P s → m s ≡ (ok a, s') → Q a s'
  pub failure : (s s' : AbstractFs) (e : FsError) → P s → m s ≡ (err e, s') → IsValid s'
  pub no_panic : (s s' : AbstractFs) → P s → m s ≢ (panic, s')

module _ {A : Type 0} where
  -- The outcome of one run.
  abbrev pub Outcome : (A → AbstractFs → Type 0) → Result A → AbstractFs → Type 0
  Outcome Q (ok a) s = Q a s
  Outcome Q (err e) s = IsValid s
  Outcome Q panic s = ⊥
  Outcome Q overflow s = Unit

  pub Safe_intro :
      (P : AbstractFs → Type 0) (m : Exec A) (Q : A → AbstractFs → Type 0)
      → ((s : AbstractFs) → P s → Outcome Q (m s).0 (m s).1)
      → Safe P m Q
  Safe_intro P m Q h = record {
    value = λ s s' a p e. subst (λ r. Outcome Q r.0 r.1) e (h s p);
    failure = λ s s' x p e. subst (λ r. Outcome Q r.0 r.1) e (h s p);
    no_panic = λ s s' p e. subst (λ r. Outcome Q r.0 r.1) e (h s p);
  }

  Outcome_of :
      (P : AbstractFs → Type 0) (m : Exec A) (Q : A → AbstractFs → Type 0)
      → Safe P m Q
      → (s : AbstractFs) → P s
      → Outcome Q (m s).0 (m s).1
  Outcome_of P m Q h s p = go (m s).0 (m s).1 refl
    where
      go : (r : Result A) (t : AbstractFs) → m s ≡ (r, t) → Outcome Q r t
      go (ok a) t e = h.value s t a p e
      go (err x) t e = h.failure s t x p e
      go panic t e = h.no_panic s t p e
      go overflow t e = tt

  pub Safe-pure :
      (P : AbstractFs → Type 0) (Q : A → AbstractFs → Type 0) (a : A)
      → ((s : AbstractFs) → P s → Q a s)
      → Safe P (pure a) Q
  unfolding pure
  Safe-pure P Q a h = Safe_intro P _ Q h

  pub Safe-raise :
      (P : AbstractFs → Type 0) (Q : A → AbstractFs → Type 0) (e : FsError)
      → ((s : AbstractFs) → P s → IsValid s)
      → Safe P (raise e) Q
  unfolding raise
  Safe-raise P Q e h = Safe_intro P _ Q h

  pub Safe-query :
      (P : AbstractFs → Type 0) (Q : A → AbstractFs → Type 0) (f : AbstractFs → Result A)
      → ((s : AbstractFs) → P s → IsValid s)
      → ((s : AbstractFs) → P s → Good (λ a. Q a s) (f s))
      → Safe P (query f) Q
  unfolding query
  Safe-query P Q f v g = Safe_intro P _ Q λ s p. go s p (f s) (g s p)
    where
      go : (s : AbstractFs) → P s → (r : Result A) → Good (λ a. Q a s) r → Outcome Q r s
      go s p (ok a) h = h.value a refl
      go s p (err x) h = v s p
      go s p panic h = h.no_panic refl
      go s p overflow h = tt

  pub Safe-if :
      (P : AbstractFs → Type 0) (Q : A → AbstractFs → Type 0) (b : Bool) (m n : Exec A)
      → (b ≡ true → Safe P m Q)
      → (b ≡ false → Safe P n Q)
      → Safe P (if b then m else n) Q
  Safe-if P Q true m n hm hn = hm refl
  Safe-if P Q false m n hm hn = hn refl

  -- A weaker demand on the state before, and on what comes after.
  pub Safe-mono :
      (P P' : AbstractFs → Type 0) (Q Q' : A → AbstractFs → Type 0) (m : Exec A)
      → ((s : AbstractFs) → P' s → P s)
      → ((a : A) (s : AbstractFs) → Q a s → Q' a s)
      → Safe P m Q
      → Safe P' m Q'
  Safe-mono P P' Q Q' m hp hq h = record {
    value = λ s s' a p e. hq a s' (h.value s s' a (hp s p) e);
    failure = λ s s' x p e. h.failure s s' x (hp s p) e;
    no_panic = λ s s' p e. h.no_panic s s' (hp s p) e;
  }

pub Safe-modify :
    (P : AbstractFs → Type 0) (Q : Unit {0} → AbstractFs → Type 0) (f : AbstractFs → AbstractFs)
    → ((s : AbstractFs) → P s → Q tt (f s))
    → Safe P (modify f) Q
unfolding modify
Safe-modify P Q f h = Safe_intro P _ Q h

pub Safe-bind :
    {A B : Type 0} (P : AbstractFs → Type 0) (Q : A → AbstractFs → Type 0)
    (R : B → AbstractFs → Type 0) (m : Exec A) (f : A → Exec B)
    → Safe P m Q
    → ((a : A) → Safe (Q a) (f a) R)
    → Safe P (m >>= f) R
unfolding ◌>>=◌
Safe-bind {A} P Q R m f hm hf = Safe_intro P _ R λ s p. go (m s).0 (m s).1 (Outcome_of P m Q hm s p)
  where
    go :
        (r : Result A) (t : AbstractFs)
        → Outcome Q r t
        → Outcome R (continue r f t).0 (continue r f t).1
    go (ok a) t h = Outcome_of (Q a) (f a) R (hf a) t h
    go (err x) t h = h
    go panic t h = absurd h
    go overflow t h = tt
