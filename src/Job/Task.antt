-- ===== src/Job/Task.antt =====
-- The steps of `execute_job` of src/job.rs that may end the run: `?` is `>>=`.

use karet_worker.Common.Result.{Result, ok, err, map_err}
use karet_worker.Common.Text.{Text}
use karet_worker.Job.Outcome.{JobError}
use karet_worker.Job.World.{JobWorld, Run}

abbrev pub Task {ℓ} : Type ℓ → Type ℓ
Task A = JobWorld → Result A JobError × JobWorld

abbrev pub continue {ℓ κ} :
    {A : Type ℓ} {B : Type κ}
    → (A → Task B)
    → Result A JobError × JobWorld
    → Result B JobError × JobWorld
continue f (ok a, w) = f a w
continue f (err e, w) = (err e, w)

infixl 5 ◌>>=◌ ◌>>◌
abbrev pub ◌>>=◌ {ℓ κ} : {A : Type ℓ} {B : Type κ} → Task A → (A → Task B) → Task B
◌>>=◌ m f w = continue f (m w)

abbrev pub ◌>>◌ {ℓ κ} : {A : Type ℓ} {B : Type κ} → Task A → Task B → Task B
m >> k = m >>= λ _. k

abbrev pub done {ℓ} : {A : Type ℓ} → A → Task A
done a w = (ok a, w)

abbrev pub fail {ℓ} : {A : Type ℓ} → JobError → Task A
fail e w = (err e, w)

-- A step that cannot end the run, and one whose error does.
abbrev pub lift {ℓ} : {A : Type ℓ} → Run A → Task A
lift m w = let (a, w') = m w in (ok a, w')

abbrev pub lift_or {ℓ} : {A : Type ℓ} → (Text → JobError) → Run (Result A Text) → Task A
lift_or f m w = let (r, w') = m w in (map_err f r, w')
