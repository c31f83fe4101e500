-- ===== src/Queue/World/Spec.antt =====
-- What an action does to Redis, whatever requests fail: `Spec P m Q` says that from a state with `P`
-- the action `m` ends with `Q` of its result and state. One rule for each way to build an action.
use karet_worker.Common.{
  ℕ, ◌≡◌, Bool, true, false, List, [], ◌∷◌, if◌then◌else◌, refl, ◌⊎◌, inl, inr,
}
use karet_worker.Common.Result.{Result, ok, err}
use karet_worker.Common.Text.{Text}
use karet_worker.Db.{Database}
use karet_worker.Queue.Store.{Redis}
use karet_worker.Queue.World.{
  Fault, works, refused, reply_lost, World, Proc, ◌>>=◌, ◌>>◌, pure, deliver, on_redis, on_db,
  redis, sql, clock,
}

-- A statement about Redis at a time.
abbrev pub State : Type 1
State = ℕ → Redis → Type 0

pub record Spec {ℓ} {A : Type ℓ} (P : State) (m : Proc A) (Q : A → State) : Type 0 where
  pub at : (w : World) → P w.now w.redis → Q (m w).0 (m w).1.now (m w).1.redis

module _ {ℓ} {A : Type ℓ} {P : State} {Q : A → State} where
  pub Spec-pure : (a : A) → ((now : ℕ) (r : Redis) → P now r → Q a now r) → Spec P (pure a) Q
  Spec-pure a h = record { at = λ w p. h w.now w.redis p }

  pub Spec-weaken :
      {R : A → State} (m : Proc A)
      → Spec P m R
      → ((a : A) (now : ℕ) (r : Redis) → R a now r → Q a now r)
      → Spec P m Q
  Spec-weaken m s h = record { at = λ w p. h (m w).0 (m w).1.now (m w).1.redis (s.at w p) }

  pub Spec-if :
      (b : Bool) (m n : Proc A)
      → (b ≡ true → Spec P m Q)
      → (b ≡ false → Spec P n Q)
      → Spec P (if b then m else n) Q
  Spec-if true m n hm hn = hm refl
  Spec-if false m n hm hn = hn refl

module _ {ℓ κ} {A : Type ℓ} {B : Type κ} {P : State} {R : B → State} where
  pub Spec-bind :
      {Q : A → State} (m : Proc A) (f : A → Proc B)
      → Spec P m Q
      → ((a : A) → Spec (Q a) (f a) R)
      → Spec P (m >>= f) R
  Spec-bind m f s h = record { at = λ w p. let (a, w') = m w in (h a).at w' (s.at w p) }

  pub Spec-then :
      {Q : State} (m : Proc A) (k : Proc B) → Spec P m (λ _. Q) → Spec Q k R → Spec P (m >> k) R
  Spec-then m k s h = record { at = λ w p. h.at (m w).1 (s.at w p) }

module _ {A : Type 0} {P : State} {Q : Result A Text → State} where
  -- A request is carried out and answered, or refused, or carried out and the answer lost.
  pub Spec-redis :
      (f : ℕ → Redis → A × Redis)
      → ((now : ℕ) (r : Redis) → P now r → Q (ok (f now r).0) now (f now r).1)
      → ((e : Text) (now : ℕ) (r : Redis) → P now r → Q (err e) now r)
      → ((e : Text) (now : ℕ) (r : Redis) → P now r → Q (err e) now (f now r).1)
      → Spec P (redis f) Q
  unfolding redis
  Spec-redis f hok hrefused hlost = record { at = λ w p. cases w.faults w p }
    where
      cases :
          (fs : List Fault) (w : World)
          → P w.now w.redis
          → Q
              (deliver fs (on_redis f) w).0
              (deliver fs (on_redis f) w).1.now
              (deliver fs (on_redis f) w).1.redis
      cases [] w p = hok w.now w.redis p
      cases (works ∷ fs) w p = hok w.now w.redis p
      cases (refused e ∷ fs) w p = hrefused e w.now w.redis p
      cases (reply_lost e ∷ fs) w p = hlost e w.now w.redis p

-- A request whose answer does not matter to what is known of Redis.
pub Spec-redis_keeps :
    {A : Type 0} {P : State} (f : ℕ → Redis → A × Redis)
    → ((now : ℕ) (r : Redis) → P now r → P now (f now r).1)
    → Spec P (redis f) (λ _. P)
Spec-redis_keeps f h = Spec-redis f h (λ e now r p. p) (λ e now r p. h now r p)

-- A statement changes no key of Redis.
pub Spec-sql : {A : Type 0} {P : State} (f : ℕ → Database → A × Database) → Spec P (sql f) (λ _. P)
unfolding sql
Spec-sql {P = P} f = record { at = λ w p. cases w.faults w p }
  where
    cases :
        (fs : List Fault) (w : World)
        → P w.now w.redis
        → P (deliver fs (on_db f) w).1.now (deliver fs (on_db f) w).1.redis
    cases [] w p = p
    cases (works ∷ fs) w p = p
    cases (refused e ∷ fs) w p = p
    cases (reply_lost e ∷ fs) w p = p

pub Spec-clock : {P : State} → Spec P clock (λ _. P)
unfolding clock
Spec-clock = record { at = λ w p. p }

-- A request that only reads: it is answered or fails, and leaves both servers as they are.
pub redis_read :
    {A : Type 0} (g : ℕ → Redis → A) (w : World)
    → let (a, w') = redis (λ now r. (g now r, r)) w in
      ((a ≡ ok (g w.now w.redis)) ⊎ ((e : Text) × (a ≡ err e)))
      × (w'.redis ≡ w.redis)
      × (w'.db ≡ w.db)
unfolding redis
redis_read g w = cases w.faults
  where
    cases :
        (fs : List Fault)
        → let (a, w') = deliver fs (on_redis (λ now r. (g now r, r))) w in
          ((a ≡ ok (g w.now w.redis)) ⊎ ((e : Text) × (a ≡ err e)))
          × (w'.redis ≡ w.redis)
          × (w'.db ≡ w.db)
    cases [] = (inl refl, refl, refl)
    cases (works ∷ fs) = (inl refl, refl, refl)
    cases (refused e ∷ fs) = (inr (e, refl), refl, refl)
    cases (reply_lost e ∷ fs) = (inr (e, refl), refl, refl)
