-- ===== src/Job/World.antt =====
-- What a run of src/job.rs acts on: the two buckets, the database, the cancel flag and the sink of
-- progress. Requests have the fates of Manifest/Bucket.
use karet_worker.Common.{Bool, false, Option, none, some, List, [], ◌∷◌, ◌++◌}
use karet_worker.Common.Result.{Result, ok, err}
use karet_worker.Common.Text.{Text}
use karet_worker.Db.{Database}
use karet_worker.Job.Outcome.{Progress}
use karet_worker.Manifest.Bucket.{Bucket, Fault, works, refused, reply_lost}

-- `cancel` holds what the flag is at each time that it is read, `panics` for each blocking task
-- whether a library panics in it; past their ends, neither. `clock` is `Utc::now().to_rfc3339()`.
pub record JobWorld : Type 0 where
  pub lake : Bucket
  pub warehouse : Bucket
  pub db : Database
  pub db_faults : List Fault
  pub cancel : List Bool
  pub panics : List (Option Text)
  pub progress : List Progress
  pub clock : Text

abbrev pub Run {ℓ} : Type ℓ → Type ℓ
Run A = JobWorld → A × JobWorld

infixl 5 ◌>>=◌ ◌>>◌
abbrev pub ◌>>=◌ {ℓ κ} : {A : Type ℓ} {B : Type κ} → Run A → (A → Run B) → Run B
◌>>=◌ m f w = let (a, w') = m w in f a w'

abbrev pub ◌>>◌ {ℓ κ} : {A : Type ℓ} {B : Type κ} → Run A → Run B → Run B
◌>>◌ m k w = k (m w).1

abbrev pub pure {ℓ} : {A : Type ℓ} → A → Run A
pure a w = (a, w)

-- A request to one of the buckets.
unfoldable pub on_lake : {A : Type 0} → (Bucket → A × Bucket) → Run A
on_lake f w = let (a, b) = f w.lake in (a, record w { lake = b })

unfoldable pub on_warehouse : {A : Type 0} → (Bucket → A × Bucket) → Run A
on_warehouse f w = let (a, b) = f w.warehouse in (a, record w { warehouse = b })

abbrev pub select_with :
    {A : Type 0} → List Fault → (Database → A) → JobWorld → Result A Text × JobWorld
select_with [] f w = (ok (f w.db), w)
select_with (works ∷ fs) f w = (ok (f w.db), record w { db_faults = fs })
select_with (refused e ∷ fs) f w = (err e, record w { db_faults = fs })
select_with (reply_lost e ∷ fs) f w = (err e, record w { db_faults = fs })

-- A statement that only reads.
unfoldable pub select : {A : Type 0} → (Database → A) → Run (Result A Text)
select f w = select_with w.db_faults f w

abbrev pub flag : List Bool → JobWorld → Bool × JobWorld
flag [] w = (false, w)
flag (b ∷ bs) w = (b, record w { cancel = bs })

unfoldable pub is_cancelled : Run Bool
is_cancelled w = flag w.cancel w

abbrev pub joined :
    {A : Type 0} → List (Option Text) → Result A Text → JobWorld → Result A Text × JobWorld
joined [] r w = (r, w)
joined (none ∷ ps) r w = (r, record w { panics = ps })
joined (some e ∷ ps) r w = (err e, record w { panics = ps })

-- The end of a blocking task.
unfoldable pub join_task : {A : Type 0} → Result A Text → Run (Result A Text)
join_task r w = joined w.panics r w

unfoldable pub update : Progress → Run (Unit {0})
update p w = (tt, record w { progress = w.progress ++ (p ∷ []) })
