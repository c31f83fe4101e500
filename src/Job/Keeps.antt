-- ===== src/Job/Keeps.antt =====
-- Which objects of the warehouse the steps of src/job.rs leave alone: one rule for each way to build
-- a run.

use karet_worker.Common.{◌≡◌, refl, ◌∙◌, Bool, Option, none, some, List, [], ◌∷◌, text_eq}
use karet_worker.Common.Dict.{lookup}
use karet_worker.Common.Result.{Result, ok, err}
use karet_worker.Common.Text.{Text}
use karet_worker.Db.{Database}
use karet_worker.Job.Outcome.{Progress, JobError}
use karet_worker.Job.World.{
  JobWorld, Run, ◌>>=◌, ◌>>◌, pure, on_lake, on_warehouse, select, select_with, is_cancelled, flag,
  join_task, joined, update,
}
use karet_worker.Job.Task.{Task, continue, fail, done, lift, lift_or}
use karet_worker.Job.Task
use karet_worker.Manifest.Bucket.{Bucket, Fault, works, refused, reply_lost, Proc}
use karet_worker.Manifest.Bucket.Keeps.{Keeps}

pub record RunKeeps {A : Type 0} (K : Text → Type 0) (m : Run A) : Type 0 where
  pub at :
      (w : JobWorld) (k : Text)
      → K k
      → lookup k (m w).1.warehouse.objects ≡ lookup k w.warehouse.objects

module _ {K : Text → Type 0} where
  pub pure-RunKeeps : {A : Type 0} (a : A) → RunKeeps K (pure a)
  pure-RunKeeps a = record { at = λ w k h. refl }

  pub >>=-RunKeeps :
      {A B : Type 0} (m : Run A) (f : A → Run B)
      → RunKeeps K m
      → ((a : A) → RunKeeps K (f a))
      → RunKeeps K (m >>= f)
  >>=-RunKeeps m f km kf = record { at = λ w k h. (kf (m w).0).at (m w).1 k h ∙ km.at w k h }

  pub >>-RunKeeps :
      {A B : Type 0} (m : Run A) (n : Run B) → RunKeeps K m → RunKeeps K n → RunKeeps K (m >> n)
  >>-RunKeeps m n km kn = record { at = λ w k h. kn.at (m w).1 k h ∙ km.at w k h }

  pub on_warehouse-RunKeeps : {A : Type 0} (m : Proc A) → Keeps K m → RunKeeps K (on_warehouse m)
  unfolding on_warehouse
  on_warehouse-RunKeeps m km = record { at = λ w k h. km.at w.warehouse k h }

  -- What does not touch the warehouse.
  pub on_lake-RunKeeps : {A : Type 0} (m : Bucket → A × Bucket) → RunKeeps K (on_lake m)
  unfolding on_lake
  on_lake-RunKeeps m = record { at = λ w k h. refl }

  pub select-RunKeeps : {A : Type 0} (f : Database → A) → RunKeeps K (select f)
  unfolding select
  select-RunKeeps {A} f = record { at = λ w k h. by_fault w.db_faults w k }
    where
      by_fault :
          (fs : List Fault) (w : JobWorld) (k : Text)
          → lookup k (select_with {A = A} fs f w).1.warehouse.objects ≡ lookup k w.warehouse.objects
      by_fault [] w k = refl
      by_fault (works ∷ fs) w k = refl
      by_fault (refused e ∷ fs) w k = refl
      by_fault (reply_lost e ∷ fs) w k = refl

  pub is_cancelled-RunKeeps : RunKeeps K is_cancelled
  unfolding is_cancelled
  is_cancelled-RunKeeps = record { at = λ w k h. by_flag w.cancel w k }
    where
      by_flag :
          (bs : List Bool) (w : JobWorld) (k : Text)
          → lookup k (flag bs w).1.warehouse.objects ≡ lookup k w.warehouse.objects
      by_flag [] w k = refl
      by_flag (b ∷ bs) w k = refl

  pub join_task-RunKeeps : {A : Type 0} (r : Result A Text) → RunKeeps K (join_task r)
  unfolding join_task
  join_task-RunKeeps {A} r = record { at = λ w k h. by_panic w.panics w k }
    where
      by_panic :
          (ps : List (Option Text)) (w : JobWorld) (k : Text)
          → lookup k (joined {A = A} ps r w).1.warehouse.objects ≡ lookup k w.warehouse.objects
      by_panic [] w k = refl
      by_panic (none ∷ ps) w k = refl
      by_panic (some e ∷ ps) w k = refl

  pub update-RunKeeps : (p : Progress) → RunKeeps K (update p)
  unfolding update
  update-RunKeeps p = record { at = λ w k h. refl }

  -- A task is a run.
  pub done-RunKeeps : {A : Type 0} (a : A) → RunKeeps K (Task.done a)
  done-RunKeeps a = record { at = λ w k h. refl }

  pub fail-RunKeeps : {A : Type 0} (e : JobError) → RunKeeps K (Task.fail {A = A} e)
  fail-RunKeeps e = record { at = λ w k h. refl }

  pub lift-RunKeeps : {A : Type 0} (m : Run A) → RunKeeps K m → RunKeeps K (Task.lift m)
  lift-RunKeeps m km = record { at = λ w k h. km.at w k h }

  pub lift_or-RunKeeps :
      {A : Type 0} (f : Text → JobError) (m : Run (Result A Text))
      → RunKeeps K m
      → RunKeeps K (Task.lift_or f m)
  lift_or-RunKeeps f m km = record { at = λ w k h. km.at w k h }

  pub bind-RunKeeps :
      {A B : Type 0} (m : Task A) (f : A → Task B)
      → RunKeeps K m
      → ((a : A) → RunKeeps K (f a))
      → RunKeeps K (Task.◌>>=◌ m f)
  bind-RunKeeps {A} {B} m f km kf = record { at = λ w k h. after (m w) k h ∙ km.at w k h }
    where
      after :
          (r : Result A JobError × JobWorld) (k : Text)
          → K k
          → lookup k (continue {A = A} {B = B} f r).1.warehouse.objects
            ≡ lookup k r.1.warehouse.objects
      after (ok a, w) k h = (kf a).at w k h
      after (err e, w) k h = refl
