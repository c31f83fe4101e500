-- ===== src/Queue/World.antt =====
-- What a task of the worker acts on, and the actions: functions that pass the world on. Each request
-- to Redis or to the database may fail, before or after the server has carried it out: the world
-- holds the fate of the requests to come. Past the end of the list every request succeeds.
pub mod Spec
use karet_worker.Common.{ℕ, Bool, List, [], ◌∷◌, ◌≡◌, refl}
use karet_worker.Common.Result.{Result, ok, err}
use karet_worker.Common.Text.{Text}
use karet_worker.Db.{Database}
use karet_worker.Queue.Store.{Redis}

pub data Fault : Type 0 where
  works : Fault
  refused : Text → Fault
  reply_lost : Text → Fault

-- `now` is the clock in ms. It stands still within a procedure, but for the run of a job.
pub record World : Type 0 where
  pub redis : Redis
  pub db : Database
  pub now : ℕ
  pub in_flight : ℕ
  pub faults : List Fault

abbrev pub Proc {ℓ} : Type ℓ → Type ℓ
Proc A = World → A × World

infixl 5 ◌>>=◌ ◌>>◌
abbrev pub ◌>>=◌ {ℓ κ} : {A : Type ℓ} {B : Type κ} → Proc A → (A → Proc B) → Proc B
◌>>=◌ m f w = let (a, w') = m w in f a w'

abbrev pub ◌>>◌ {ℓ κ} : {A : Type ℓ} {B : Type κ} → Proc A → Proc B → Proc B
◌>>◌ m k w = k (m w).1

abbrev pub pure {ℓ} : {A : Type ℓ} → A → Proc A
pure a w = (a, w)

-- The fate of one request.
deliver : {A : Type 0} → List Fault → (World → A × World) → World → Result A Text × World
deliver [] f w = let (a, w') = f w in (ok a, w')
deliver (works ∷ fs) f w = let (a, w') = f (record w { faults = fs }) in (ok a, w')
deliver (refused e ∷ fs) f w = (err e, record w { faults = fs })
deliver (reply_lost e ∷ fs) f w = let (a, w') = f (record w { faults = fs }) in (err e, w')

unfoldable pub on_redis : {A : Type 0} → (ℕ → Redis → A × Redis) → World → A × World
on_redis f w = let (a, r) = f w.now w.redis in (a, record w { redis = r })

unfoldable pub on_db : {A : Type 0} → (ℕ → Database → A × Database) → World → A × World
on_db f w = let (a, d) = f w.now w.db in (a, record w { db = d })

-- A command, a pipeline or a script: one request, carried out whole or not at all.
unfoldable pub redis : {A : Type 0} → (ℕ → Redis → A × Redis) → Proc (Result A Text)
unfolding deliver on_redis
redis f w = deliver w.faults (on_redis f) w

unfoldable pub sql : {A : Type 0} → (ℕ → Database → A × Database) → Proc (Result A Text)
unfolding deliver on_db
sql f w = deliver w.faults (on_db f) w

-- A request that returns nothing.
abbrev pub redis_do : (ℕ → Redis → Redis) → Proc (Result (Unit {0}) Text)
redis_do f = redis (λ now r. (tt, f now r))

abbrev pub sql_do : (ℕ → Database → Database) → Proc (Result (Unit {0}) Text)
sql_do f = sql (λ now d. (tt, f now d))

unfoldable pub connect : Proc (Result (Unit {0}) Text)
connect = redis_do (λ _ r. r)

unfoldable pub clock : Proc ℕ
clock w = (w.now, w)

-- A world in which nothing fails any more.
abbrev pub calm : World → World
calm w = record w { faults = [] }
