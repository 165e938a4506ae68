-- ===== src/Generator/Grown.antt =====
-- generator.rs: what an action on the generator adds to the recording of the file system.
use diffuzzer.Prelude.{
  ℕ, ◌≡◌, refl, sym, ap, ◌∙◌, Bool, true, false, if◌then◌else◌, List, [], ◌∷◌, ◌++◌, subst,
}
use diffuzzer.PathName.{Name}
use diffuzzer.Operation.{Operation, Workload}
use diffuzzer.Fs.State.{AbstractFs, Result, ok, err, panic, overflow, Exec}
use diffuzzer.Fs.Recording.{Records}
use diffuzzer.Generator.Draws.{
  Random, Gen, Draw, pure, ask, run, or_panic, choose, choose_weighted, named, name, continue,
  ◌>>=◌,
}

-- The workload has got at most one operation more, of which `P` holds.
pub data GrownBy (P : Operation → Type 0) (w w' : Workload) : Type 0 where
  same : w' ≡ w → GrownBy P w w'
  added : (op : Operation) → P op → w' ≡ w ++ (op ∷ []) → GrownBy P w w'

pub GrownBy-mono :
    (P Q : Operation → Type 0) (w w' : Workload)
    → ((op : Operation) → P op → Q op)
    → GrownBy P w w'
    → GrownBy Q w w'
GrownBy-mono P Q w w' f (same e) = same e
GrownBy-mono P Q w w' f (added op p e) = added op (f op p) e

or_panic-ok : {A : Type 0} (r : Result A) (a : A) → or_panic r ≡ ok a → r ≡ ok a
or_panic-ok (ok b) a e = e
or_panic-ok (err x) a e = cc
or_panic-ok panic a e = cc
or_panic-ok overflow a e = cc

module _ {R G A : Type 0} where
  -- An action that succeeds leaves the file system as it was.
  pub record Fixed (m : Draw R G A) : Type 0 where
    pub at : (s s' : Gen R G) (a : A) → m s ≡ (ok a, s') → s'.fs ≡ s.fs

  -- An action that succeeds adds at most one operation to the recording, and `P` holds of it.
  pub record Grows (P : Operation → Type 0) (m : Draw R G A) : Type 0 where
    pub at : (s s' : Gen R G) (a : A) → m s ≡ (ok a, s') → GrownBy P s.fs.recording s'.fs.recording

  pub Fixed-pure : (a : A) → Fixed (pure a)
  unfolding pure
  Fixed-pure a = record { at = λ s s' b e. sym (ap (λ q. q.1.fs) e) }

  pub Fixed-ask : (f : AbstractFs → Result A) → Fixed (ask f)
  unfolding ask
  Fixed-ask f = record { at = λ s s' b e. sym (ap (λ q. q.1.fs) e) }

  pub Fixed-choose : (random : Random R) (xs : List A) → Fixed (choose random xs)
  unfolding choose
  Fixed-choose random [] = record { at = λ s s' b e. cc }
  Fixed-choose random (x ∷ xs) = record { at = λ s s' b e. sym (ap (λ q. q.1.fs) e) }

  pub Fixed-choose_weighted :
      (random : Random R) (entries : List (A × ℕ)) → Fixed (choose_weighted random entries)
  unfolding choose_weighted
  Fixed-choose_weighted random entries = record { at = λ s s' b e. sym (ap (λ q. q.1.fs) e) }

  pub Grows-run :
      (P : Operation → Type 0) (m : Exec A) → Records P m → Grows P (run {R = R} {G = G} m)
  unfolding run
  Grows-run P m h = record {
    at = λ s s' a e.
        let ok_of : (m s.fs).0 ≡ ok a = or_panic-ok (m s.fs).0 a (ap (λ q. q.0) e) in
        let (op, p, grown) = h.at s.fs (m s.fs).1 a (ap (λ r. (r, (m s.fs).1)) ok_of) in
        added op p (sym (ap (λ q. q.1.fs.recording) e) ∙ grown);
  }

  pub Grows-if :
      (P : Operation → Type 0) (b : Bool) (m n : Draw R G A)
      → Grows P m
      → Grows P n
      → Grows P (if b then m else n)
  Grows-if P true m n hm hn = hm
  Grows-if P false m n hm hn = hn

  pub Grows-Fixed : (P : Operation → Type 0) (m : Draw R G A) → Fixed m → Grows P m
  Grows-Fixed P m h = record { at = λ s s' a e. same (ap (λ fs. fs.recording) (h.at s s' a e)) }

module _ {R G : Type 0} where
  named-Fixed :
      (r : Result (Name × G)) (s s' : Gen R G) (n : Name) → named r s ≡ (ok n, s') → s'.fs ≡ s.fs
  named-Fixed (ok x) s s' n e = sym (ap (λ q. q.1.fs) e)
  named-Fixed (err x) s s' n e = cc
  named-Fixed panic s s' n e = cc
  named-Fixed overflow s s' n e = cc

  pub Fixed-name : (gen_name : G → Result (Name × G)) → Fixed {R = R} (name gen_name)
  unfolding name
  Fixed-name gen_name = record { at = λ s s' n e. named-Fixed (gen_name s.names) s s' n e }

-- A successful `m >>= f` is a success of both.
pub >>=-ok :
    {R G A B : Type 0} (m : Draw R G A) (f : A → Draw R G B) (s s' : Gen R G) (b : B)
    → (m >>= f) s ≡ (ok b, s')
    → (a : A) × (t : Gen R G) × (m s ≡ (ok a, t)) × (f a t ≡ (ok b, s'))
unfolding ◌>>=◌
>>=-ok {R} {G} {A} {B} m f s s' b = go (m s).0 (m s).1 refl
  where
    go :
        (r : Result A) (t : Gen R G)
        → m s ≡ (r, t)
        → continue r f t ≡ (ok b, s')
        → (a : A) × (t : Gen R G) × (m s ≡ (ok a, t)) × (f a t ≡ (ok b, s'))
    go (ok a) t e h = (a, t, e, h)
    go (err x) t e h = cc
    go panic t e h = cc
    go overflow t e h = cc

module _ {R G A B : Type 0} where
  pub Fixed-bind :
      (m : Draw R G A) (f : A → Draw R G B) → Fixed m → ((a : A) → Fixed (f a)) → Fixed (m >>= f)
  Fixed-bind m f hm hf = record {
    at = λ s s' b h.
        let (a, t, em, ef) = >>=-ok m f s s' b h in (hf a).at t s' b ef ∙ hm.at s t a em;
  }

  pub Grows-bind :
      (P : Operation → Type 0) (m : Draw R G A) (f : A → Draw R G B)
      → Fixed m
      → ((a : A) → Grows P (f a))
      → Grows P (m >>= f)
  Grows-bind P m f hm hf = record {
    at = λ s s' b h.
        let (a, t, em, ef) = >>=-ok m f s s' b h in
        subst (λ (fs : AbstractFs). GrownBy P fs.recording s'.fs.recording) (hm.at s t a em)
          ((hf a).at t s' b ef);
  }

pub ruleset grown_rules = (
  Fixed-pure, Fixed-ask, Fixed-choose, Fixed-choose_weighted, Fixed-name, Fixed-bind, Grows-run,
  Grows-bind,
)
