-- ===== src/Job/Ends.antt =====
-- What the steps of src/job.rs return where they end well: one rule for each way to build a run.
use karet_worker.Common.{◌≡◌, refl, ◌∙◌, text_eq, arith}
use karet_worker.Common.Result.{Result, ok, err}
use karet_worker.Common.Text.{Text}
use karet_worker.Common.Dict.{lookup}
use karet_worker.Job.Outcome.{JobError}
use karet_worker.Job.World.{JobWorld, Run, ◌>>=◌, ◌>>◌, pure}
use karet_worker.Job.Task
use karet_worker.Job.Task.{Task, continue}
use karet_worker.Job.Keeps.{RunKeeps}

pub record RunGives {A : Type 0} (Q : A → Type 0) (m : Run A) : Type 0 where
  pub at : (w : JobWorld) → Q (m w).0

pub record TaskEnds {A : Type 0} (Q : A → Type 0) (m : Task A) : Type 0 where
  pub at : (w : JobWorld) (a : A) → (m w).0 ≡ ok a → Q a

module _ {A : Type 0} {Q : A → Type 0} where
  pub pure-RunGives : (a : A) → Q a → RunGives Q (pure a)
  pure-RunGives a h = record { at = λ w. h }

  pub fail-TaskEnds : (e : JobError) → TaskEnds Q (Task.fail e)
  fail-TaskEnds e = record { at = λ w a h. absurd (ground (arith, h)) }

module _ {A B : Type 0} {Q : B → Type 0} where
  pub >>=-RunGives :
      (m : Run A) (f : A → Run B) → ((a : A) → RunGives Q (f a)) → RunGives Q (m >>= f)
  >>=-RunGives m f h = record { at = λ w. (h (m w).0).at (m w).1 }

  pub run-TaskEnds :
      {P : A → Type 0} (m : Run A) (f : A → Task B)
      → RunGives P m
      → ((a : A) → P a → TaskEnds Q (f a))
      → TaskEnds Q (m >>= f)
  run-TaskEnds m f g h = record { at = λ w b e. (h (m w).0 (g.at w)).at (m w).1 b e }

  pub then-TaskEnds : (m : Run A) (n : Task B) → TaskEnds Q n → TaskEnds Q (m >> n)
  then-TaskEnds m n h = record { at = λ w b e. h.at (m w).1 b e }

  pub bind-TaskEnds :
      (m : Task A) (f : A → Task B) → ((a : A) → TaskEnds Q (f a)) → TaskEnds Q (Task.◌>>=◌ m f)
  bind-TaskEnds m f h = record { at = λ w b e. after (m w) b e }
    where
      after :
          (r : Result A JobError × JobWorld) (b : B) → (continue {A = A} {B = B} f r).0 ≡ ok b → Q b
      after (ok a, w) b e = (h a).at w b e
      after (err e', w) b e = absurd (ground (arith, e))

-- What a task returns may serve for what follows it.
pub bind-RunKeeps_ends :
    {A B : Type 0} {K : Text → Type 0} {Q : A → Type 0} (m : Task A) (f : A → Task B)
    → RunKeeps K m
    → TaskEnds Q m
    → ((a : A) → Q a → RunKeeps K (f a))
    → RunKeeps K (Task.◌>>=◌ m f)
bind-RunKeeps_ends {A} {B} {K} {Q} m f km em kf = record {
  at = λ w k h. after (m w) (em.at w) k h ∙ km.at w k h;
}
  where
    after :
        (r : Result A JobError × JobWorld)
        → ((a : A) → r.0 ≡ ok a → Q a)
        → (k : Text) → K k
        → lookup k (continue {A = A} {B = B} f r).1.warehouse.objects
          ≡ lookup k r.1.warehouse.objects
    after (ok a, w) q k h = (kf a (q a refl)).at w k h
    after (err e, w) q k h = refl
