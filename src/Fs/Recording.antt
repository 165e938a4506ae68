-- ===== src/Fs/Recording.antt =====
-- Rules for what an action adds to the recording.
use diffuzzer.Prelude.{ℕ, ◌≡◌, refl, sym, ap, ◌∙◌, Bool, true, false, [], ◌∷◌, ◌++◌, if◌then◌else◌}
use diffuzzer.Operation.{Operation}
use diffuzzer.Fs.State.{
  AbstractFs, FsError, Result, ok, err, panic, overflow, Exec, pure, raise, query, modify, ◌>>=◌,
  continue, dir_mut, file_mut, descriptor_mut, record_op, assert,
}
use diffuzzer.Node.{Dir, File, FileDescriptor}

-- The action leaves the recording alone, whether it succeeds or not.
pub record Silent {ℓ} {A : Type ℓ} (m : Exec A) : Type ℓ where
  pub at : (s : AbstractFs) → (m s).1.recording ≡ s.recording

-- The action, if it succeeds, adds one operation to the recording, and `P` holds of it.
pub record Records {ℓ} {A : Type ℓ} (P : Operation → Type 0) (m : Exec A) : Type ℓ where
  pub at :
      (s s' : AbstractFs) (a : A)
      → m s ≡ (ok a, s')
      → (op : Operation) × P op × (s'.recording ≡ s.recording ++ (op ∷ []))

-- A successful `m >>= f` is a success of both.
pub >>=-eq-ok {ℓ κ} :
    {A : Type ℓ} {B : Type κ} (m : Exec A) (f : A → Exec B) (s s' : AbstractFs) (b : B)
    → (m >>= f) s ≡ (ok b, s')
    → (a : A) × (t : AbstractFs) × (m s ≡ (ok a, t)) × (f a t ≡ (ok b, s'))
unfolding ◌>>=◌
>>=-eq-ok {A} {B} m f s s' b = go (m s).0 (m s).1 refl
  where
    go :
        (r : Result A) (t : AbstractFs)
        → m s ≡ (r, t)
        → continue r f t ≡ (ok b, s')
        → (a : A) × (t : AbstractFs) × (m s ≡ (ok a, t)) × (f a t ≡ (ok b, s'))
    go (ok a) t e h = (a, t, e, h)
    go (err x) t e h = cc
    go panic t e h = cc
    go overflow t e h = cc

module _ {ℓ} {A : Type ℓ} where
  pub Silent-query : (f : AbstractFs → Result A) → Silent (query f)
  unfolding query
  Silent-query f = record { at = λ s. refl }

  pub Silent-pure : (a : A) → Silent (pure a)
  unfolding pure
  Silent-pure a = record { at = λ s. refl }

  pub Silent-raise : (e : FsError) → Silent (raise {A = A} e)
  unfolding raise
  Silent-raise e = record { at = λ s. refl }

  pub Silent-if : (b : Bool) (m n : Exec A) → Silent m → Silent n → Silent (if b then m else n)
  Silent-if true m n hm hn = hm
  Silent-if false m n hm hn = hn

  pub Records-raise : (P : Operation → Type 0) (e : FsError) → Records P (raise {A = A} e)
  unfolding raise
  Records-raise P e = record { at = λ s s' a h. cc }

  pub Records-if :
      (P : Operation → Type 0) (b : Bool) (m n : Exec A)
      → Records P m
      → Records P n
      → Records P (if b then m else n)
  Records-if P true m n hm hn = hm
  Records-if P false m n hm hn = hn

module _ {ℓ κ} {A : Type ℓ} {B : Type κ} where
  pub Silent-bind :
      (m : Exec A) (f : A → Exec B) → Silent m → ((a : A) → Silent (f a)) → Silent (m >>= f)
  unfolding ◌>>=◌
  Silent-bind m f hm hf = record { at = λ s. go (m s).0 (m s).1 ∙ hm.at s }
    where
      go : (r : Result A) (t : AbstractFs) → (continue r f t).1.recording ≡ t.recording
      go (ok a) t = (hf a).at t
      go (err x) t = refl
      go panic t = refl
      go overflow t = refl

  pub Records-bind :
      (P : Operation → Type 0) (m : Exec A) (f : A → Exec B)
      → Silent m
      → ((a : A) → Records P (f a))
      → Records P (m >>= f)
  Records-bind P m f hm hf = record {
    at = λ s s' b h.
        let (a, t, em, ef) = >>=-eq-ok m f s s' b h in
        let (op, p, e) = (hf a).at t s' b ef in
        (op, p, e ∙ ap (λ r. r ++ (op ∷ [])) (sym (ap (λ q. q.1.recording) em) ∙ hm.at s));
  }

  pub Records-then :
      (P : Operation → Type 0) (m : Exec A) (f : A → Exec B)
      → Records P m
      → ((a : A) → Silent (f a))
      → Records P (m >>= f)
  Records-then P m f hm hf = record {
    at = λ s s' b h.
        let (a, t, em, ef) = >>=-eq-ok m f s s' b h in
        let (op, p, e) = hm.at s t a em in
        (op, p, sym (ap (λ q. q.1.recording) ef) ∙ (hf a).at t ∙ e);
  }

pub Records-record_op : (P : Operation → Type 0) (op : Operation) → P op → Records P (record_op op)
unfolding record_op modify
Records-record_op P op p = record { at = λ s s' a h. (op, p, sym (ap (λ q. q.1.recording) h)) }

-- Changes of the other fields.
pub Silent-modify :
    (f : AbstractFs → AbstractFs)
    → ((s : AbstractFs) → (f s).recording ≡ s.recording)
    → Silent (modify f)
unfolding modify
Silent-modify f h = record { at = h }

pub Silent-dir_mut : (i : ℕ) (f : Dir → Dir) → Silent (dir_mut i f)
unfolding dir_mut
Silent-dir_mut i f = Silent-bind _ _ (Silent-query _) (λ d. Silent-modify _ (λ s. refl))

pub Silent-file_mut : (i : ℕ) (f : File → File) → Silent (file_mut i f)
unfolding file_mut
Silent-file_mut i f = Silent-bind _ _ (Silent-query _) (λ d. Silent-modify _ (λ s. refl))

pub Silent-descriptor_mut :
    (i : ℕ) (f : FileDescriptor → FileDescriptor) → Silent (descriptor_mut i f)
unfolding descriptor_mut
Silent-descriptor_mut i f = Silent-bind _ _ (Silent-query _) (λ d. Silent-modify _ (λ s. refl))

pub Silent-assert : (b : Bool) → Silent (assert b)
unfolding assert
Silent-assert b = Silent-query _

pub ruleset silent_rules = (
  Silent-query, Silent-pure, Silent-raise, Silent-if, Silent-bind, Silent-dir_mut, Silent-file_mut,
  Silent-descriptor_mut, Silent-assert,
)
