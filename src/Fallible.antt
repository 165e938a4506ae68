-- ===== src/Fallible.antt =====
-- Actions on a state that may fail: how the harness, the fuzzers and the broker are written. `none` is
-- an error, as `anyhow` passes it on; what was done before it stays done.
pub mod Adds
use diffuzzer.Prelude.{◌≡◌, refl, ap, subst, Bool, true, false, Option, none, some, if◌then◌else◌}

abbrev pub Step : Type 0 → Type 0 → Type 0
Step S A = S → Option A × S

module _ {S A B : Type 0} where
  abbrev pub continue : Option A → (A → Step S B) → Step S B
  continue none f s = (none, s)
  continue (some a) f s = f a s

infixl 5 ◌>>=◌ ◌>>◌
unfoldable pub ◌>>=◌ : {S A B : Type 0} → Step S A → (A → Step S B) → Step S B
◌>>=◌ m f s = let (r, s') = m s in continue r f s'

abbrev pub ◌>>◌ : {S B : Type 0} → Step S (Unit {0}) → Step S B → Step S B
m >> n = m >>= λ _. n

module _ {S A : Type 0} where
  unfoldable pub pure : A → Step S A
  pure a s = (some a, s)

  unfoldable pub fail : Step S A
  fail s = (none, s)

  -- What is read off the state.
  unfoldable pub ask : (S → Option A) → Step S A
  ask f s = (f s, s)

unfoldable pub modify : {S : Type 0} → (S → S) → Step S (Unit {0})
modify f s = (some tt, f s)

-- A successful `m >>= f` is a success of both.
pub >>=-some :
    {S A B : Type 0} (m : Step S A) (f : A → Step S B) (s s' : S) (b : B)
    → (m >>= f) s ≡ (some b, s')
    → (a : A) × (t : S) × (m s ≡ (some a, t)) × (f a t ≡ (some b, s'))
unfolding ◌>>=◌
>>=-some {S} {A} {B} m f s s' b = go (m s).0 (m s).1 refl
  where
    go :
        (r : Option A) (t : S)
        → m s ≡ (r, t)
        → continue r f t ≡ (some b, s')
        → (a : A) × (t : S) × (m s ≡ (some a, t)) × (f a t ≡ (some b, s'))
    go none t e h = cc
    go (some a) t e h = (a, t, e, h)

-- From a state with `P`, an action that succeeds leads to a value and a state with `Q`.
pub record Ensures {S A : Type 0} (P : S → Type 0) (m : Step S A) (Q : A → S → Type 0)
    : Type 0 where
  pub at : (s s' : S) (a : A) → P s → m s ≡ (some a, s') → Q a s'

module _ {S A : Type 0} where
  pub Ensures-pure :
      (P : S → Type 0) (Q : A → S → Type 0) (a : A) → ((s : S) → P s → Q a s) → Ensures P (pure a) Q
  unfolding pure
  Ensures-pure P Q a h = record { at = λ s s' b p e. subst (λ q. go q) e (h s p) }
    where
      go : Option A × S → Type 0
      go (none, s) = Unit
      go (some b, s) = Q b s

  pub Ensures-ask : (P : S → Type 0) (f : S → Option A) → Ensures P (ask f) (λ _. P)
  unfolding ask
  Ensures-ask P f = record { at = λ s s' b p e. subst P (ap (λ q. q.1) e) p }

  pub Ensures-if :
      (P : S → Type 0) (Q : A → S → Type 0) (b : Bool) (m n : Step S A)
      → Ensures P m Q
      → Ensures P n Q
      → Ensures P (if b then m else n) Q
  Ensures-if P Q true m n hm hn = hm
  Ensures-if P Q false m n hm hn = hn

pub Ensures-modify :
    {S : Type 0} (P : S → Type 0) (Q : Unit {0} → S → Type 0) (f : S → S)
    → ((s : S) → P s → Q tt (f s))
    → Ensures P (modify f) Q
unfolding modify
Ensures-modify P Q f h = record { at = λ s s' u p e. subst (Q tt) (ap (λ q. q.1) e) (h s p) }

pub Ensures-bind :
    {S A B : Type 0} (P : S → Type 0) (R : A → S → Type 0) (Q : B → S → Type 0) (m : Step S A)
    (f : A → Step S B)
    → Ensures P m R
    → ((a : A) → Ensures (R a) (f a) Q)
    → Ensures P (m >>= f) Q
Ensures-bind P R Q m f hm hf = record {
  at = λ s s' b p e.
      let (a, t, em, ef) = >>=-some m f s s' b e in (hf a).at t s' b (hm.at s t a p em) ef;
}
