-- ===== src/Runner/Stage/Rules.antt =====
-- Rules for what the stages of a run establish: a condition on the value and the state behind a stage
-- that goes on, and one on the state behind a stage that stops.
use animus_coder.Base.{◌≡◌, refl, Bool, true, false, if◌then◌else◌, Result, ok, err}
use animus_coder.Runner.Stage.{Ending, RunState, Stage, bound}

abbrev pub Post :
    {W A : Type 0}
    → (A → RunState W → Type 0)
    → (Ending → RunState W → Type 0)
    → Result Ending A × RunState W
    → Type 0
Post Q E (ok a, s) = Q a s
Post Q E (err e, s) = E e s

module _ {W A B : Type 0} (E : Ending → RunState W → Type 0) where
  pub Post-bound :
      (Q : A → RunState W → Type 0) (R : B → RunState W → Type 0) (r : Result Ending A × RunState W)
      (f : A → Stage W B)
      → Post Q E r
      → ((a : A) (s : RunState W) → Q a s → Post R E (f a s))
      → Post R E (bound r f)
  Post-bound Q R (ok a, s) f h k = k a s h
  Post-bound Q R (err e, s) f h k = h

-- A condition on the state alone.
abbrev pub Keeps : {W A : Type 0} → (RunState W → Type 0) → Result Ending A × RunState W → Type 0
Keeps I = Post (λ a s. I s) (λ e s. I s)

pub Post-map :
    {W A : Type 0} (E : Ending → RunState W → Type 0) (Q R : A → RunState W → Type 0)
    (r : Result Ending A × RunState W)
    → Post Q E r
    → ((a : A) (s : RunState W) → Q a s → R a s)
    → Post R E r
Post-map E Q R (ok a, s) h k = k a s h
Post-map E Q R (err e, s) h k = h

pub Post-if :
    {W A : Type 0} (E : Ending → RunState W → Type 0) (Q : A → RunState W → Type 0) (b : Bool)
    (x y : Stage W A) (s : RunState W)
    → (b ≡ true → Post Q E (x s))
    → (b ≡ false → Post Q E (y s))
    → Post Q E ((if b then x else y) s)
Post-if E Q true x y s h k = h refl
Post-if E Q false x y s h k = k refl
