-- ===== src/Fs/Monad/Laws.antt =====
-- Laws of the effects of pmeunier-project/fs.c's functions: regrouping, and calls that change nothing.
use cs.Common.{ℕ, ◌≡◌, refl, ◌∙◌, Bool, true, false, List, inl, arith}
use cs.Fs.Monad.{
  State, M, Outcome, Errno, Halt, done, fail, halt, pure, ◌>>=◌, read_or_exit, inode_at, elem_at,
  fail_if, attempt,
}

module _ {A B : Type 0} where
  pub bind_cong :
      (m : M A) (f g : A → M B)
      → ((a : A) (t : State) → f a t ≡ g a t)
      → (s : State) → (m >>= f) s ≡ (m >>= g) s
  bind_cong m f g h s = go (m s)
    where
      go : (o : Outcome A) → ◌>>=◌ (λ (_ : State). o) f s ≡ ◌>>=◌ (λ (_ : State). o) g s
      go (done a t) = h a t
      go (fail e t) = refl
      go (halt w t) = refl

  -- What follows a call that returned, that failed and that ended the process.
  pub bind_done :
      (m : M A) (f : A → M B) {a : A} {s t : State} → m s ≡ done a t → (m >>= f) s ≡ f a t
  bind_done m f {a} {s} e = λ i. ◌>>=◌ (λ (_ : State). e i) f s

  pub bind_fail :
      (m : M A) (f : A → M B) {w : Errno} {s t : State} → m s ≡ fail w t → (m >>= f) s ≡ fail w t
  bind_fail m f {w} {s} e = λ i. ◌>>=◌ (λ (_ : State). e i) f s

  pub bind_halt :
      (m : M A) (f : A → M B) {w : Halt} {s t : State} → m s ≡ halt w t → (m >>= f) s ≡ halt w t
  bind_halt m f {w} {s} e = λ i. ◌>>=◌ (λ (_ : State). e i) f s

  pub bind_assoc :
      {C : Type 0} (m : M A) (f : A → M B) (g : B → M C) (s : State)
      → ((m >>= f) >>= g) s ≡ (m >>= λ a. f a >>= g) s
  bind_assoc {C} m f g s = go (m s)
    where
      go :
          (o : Outcome A)
          → ◌>>=◌ (◌>>=◌ (λ (_ : State). o) f) g s ≡ ◌>>=◌ (λ (_ : State). o) (λ a. f a >>= g) s
      go (done a t) = refl
      go (fail e t) = refl
      go (halt w t) = refl

pub bind_pure : {A : Type 0} (m : M A) (s : State) → (m >>= pure) s ≡ m s
bind_pure {A} m s = go (m s)
  where
    go : (o : Outcome A) → ◌>>=◌ (λ (_ : State). o) pure s ≡ o
    go (done a t) = refl
    go (fail e t) = refl
    go (halt w t) = refl

-- A call whose result is kept and tested later.
pub attempt_done :
    {A : Type 0} (m : M A) {a : A} {s t : State} → m s ≡ done a t → attempt m s ≡ done (inl a) t
attempt_done m {a} {s} e = rw (attempt, e) refl

-- The state that a call leaves.
abbrev pub after : {A : Type 0} → Outcome A → State
after (done a s) = s
after (fail e s) = s
after (halt w s) = s

-- A call that changes nothing.
pub record Keeps {A : Type 0} (m : M A) : Type 0 where
  pub kept : (s : State) → after (m s) ≡ s

pub pure-Keeps : {A : Type 0} (a : A) → Keeps (pure a)
pure-Keeps a = record { kept = λ s. refl }

pub bind-Keeps :
    {A B : Type 0} {m : M A} {f : A → M B} → Keeps m → ((a : A) → Keeps (f a)) → Keeps (m >>= f)
bind-Keeps {A} {B} {m} {f} km kf = record { kept = λ s. go s (m s) (km.kept s) }
  where
    go : (s : State) (o : Outcome A) → after o ≡ s → after (◌>>=◌ (λ (_ : State). o) f s) ≡ s
    go s (done a t) e = (kf a).kept t ∙ e
    go s (fail w t) e = e
    go s (halt w t) e = e

pub fail_if-Keeps : (test : Bool) (e : Errno) → Keeps (fail_if test e)
fail_if-Keeps true e = record { kept = λ s. refl }
fail_if-Keeps false e = record { kept = λ s. refl }

pub read-Keeps : (b n : ℕ) → Keeps (read_or_exit b n)
unfolding read_or_exit
read-Keeps b n = record { kept = λ s. ground arith }

pub inode_at-Keeps : (inum : ℕ) → Keeps (inode_at inum)
unfolding inode_at
inode_at-Keeps inum = record { kept = λ s. ground arith }

pub elem_at-Keeps : {A : Type 0} (xs : List A) (k : ℕ) → Keeps (elem_at xs k)
unfolding elem_at
elem_at-Keeps xs k = record { kept = λ s. ground arith }

pub ruleset keeping =
    (bind-Keeps, pure-Keeps, fail_if-Keeps, read-Keeps, inode_at-Keeps, elem_at-Keeps)
