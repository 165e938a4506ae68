-- ===== src/Fs/Unrecorded.antt =====
-- fs.rs: what an action that fails does to the recording.
use diffuzzer.Prelude.{ℕ, ◌≡◌, refl, sym, ap, ◌∙◌, Bool, true, false, if◌then◌else◌}
use diffuzzer.PathName.{PathName}
use diffuzzer.Operation.{Operation}
use diffuzzer.Fs.State.{
  AbstractFs, FsError, Result, ok, err, panic, overflow, Exec, pure, raise, ◌>>=◌, ◌>>◌, continue,
  record_op, modify,
}
use diffuzzer.Fs.Ops
use diffuzzer.Fs.Replay.{ignore}
use diffuzzer.Fs.Recording.{Silent, silent_rules}
use diffuzzer.Fs.Recorded.{Silent-parent_of}

-- The action, if it fails, leaves the recording alone.
pub record Unrecorded {A : Type 0} (m : Exec A) : Type 0 where
  pub at : (s s' : AbstractFs) (e : FsError) → m s ≡ (err e, s') → s'.recording ≡ s.recording

module _ {A : Type 0} where
  Unrecorded-raise : (e : FsError) → Unrecorded (raise {A = A} e)
  unfolding raise
  Unrecorded-raise e = record { at = λ s s' x h. sym (ap (λ q. q.1.recording) h) }

  Unrecorded-if :
      (b : Bool) (m n : Exec A) → Unrecorded m → Unrecorded n → Unrecorded (if b then m else n)
  Unrecorded-if true m n hm hn = hm
  Unrecorded-if false m n hm hn = hn

  Unrecorded-last : (op : Operation) (a : A) → Unrecorded (record_op op >> pure a)
  unfolding record_op modify pure ◌>>=◌
  Unrecorded-last op a = record { at = λ s s' x h. cc }

module _ {A B : Type 0} where
  Unrecorded-bind :
      (m : Exec A) (f : A → Exec B) → Silent m → ((a : A) → Unrecorded (f a)) → Unrecorded (m >>= f)
  unfolding ◌>>=◌
  Unrecorded-bind m f hm hf = record { at = λ s s' x h. go (m s).0 (m s).1 s' x h ∙ hm.at s }
    where
      go :
          (r : Result A) (t s' : AbstractFs) (x : FsError)
          → continue r f t ≡ (err x, s')
          → s'.recording ≡ t.recording
      go (ok a) t s' x h = (hf a).at t s' x h
      go (err y) t s' x h = sym (ap (λ q. q.1.recording) h)
      go panic t s' x h = cc
      go overflow t s' x h = cc

  Unrecorded-then_pure : (m : Exec A) (b : B) → Unrecorded m → Unrecorded (m >>= λ _. pure b)
  unfolding ◌>>=◌ pure
  Unrecorded-then_pure m b hm = record { at = λ s s' x h. go s (m s).0 (m s).1 s' x refl h }
    where
      go :
          (s : AbstractFs) (r : Result A) (t s' : AbstractFs) (x : FsError)
          → m s ≡ (r, t)
          → continue r (λ _. pure b) t ≡ (err x, s')
          → s'.recording ≡ s.recording
      go s (ok a) t s' x e h = cc
      go s (err y) t s' x e h = sym (ap (λ q. q.1.recording) h) ∙ hm.at s t y e
      go s panic t s' x e h = cc
      go s overflow t s' x e h = cc

ruleset unrecorded_rules = (
  silent_rules, Silent-parent_of, Unrecorded-raise, Unrecorded-if, Unrecorded-last, Unrecorded-bind,
)

rename-Unrecorded : (fuel : ℕ) (old new : PathName) → Unrecorded (Ops.rename fuel old new)
unfolding Ops.rename
rename-Unrecorded fuel old new = search unrecorded_rules depth 12

pub ignore-rename-Unrecorded :
    (fuel : ℕ) (old new : PathName) → Unrecorded (ignore (Ops.rename fuel old new))
ignore-rename-Unrecorded fuel old new = Unrecorded-then_pure _ tt (rename-Unrecorded fuel old new)
