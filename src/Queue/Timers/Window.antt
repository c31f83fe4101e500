-- ===== src/Queue/Timers/Window.antt =====
-- The window in which `debounce_event` of src/queue.rs gathers upload events.
use karet_worker.Common.{
  ℕ, zero, suc, ◌<◌, ◌+◌, ◌*◌, ◌∙◌, ap, text_eq, ◌≡◌, refl, Option, none, some, arith, ◌⊎◌, inl,
  inr,
}
use karet_worker.Common.Dict.{lookup-insert}
use karet_worker.Common.Int.{ℤ, pos, ◌≤ℤ◌, ◌+ℤ◌}
use karet_worker.Common.Result.{Result, ok, err}
use karet_worker.Common.Text.{Text}
use karet_worker.Queue.Store.{Field, int, Redis, get_string, put_string, zadd, zscore}
use karet_worker.Queue.Store.Laws.{zscore-zadd}
use karet_worker.Queue.Keys.{debounce_key, debounce_first_key, quiet_ms, max_wait_ms}
use karet_worker.Queue.World.{World, Proc, redis, redis_do, pure, ◌>>=◌, clock, calm}
use karet_worker.Queue.World.Spec.{
  State, Spec, Spec-pure, Spec-bind, Spec-redis, Spec-redis_keeps, Spec-clock,
}
use karet_worker.Queue.Timers.{set_first, negate, fire_at, debounce_event}

abbrev pub ScoreWithin : ℕ → Option ℤ → Type 0
ScoreWithin start none = Unit
ScoreWithin start (some z) = z ≤ℤ pos (start + max_wait_ms)

-- The first event of the batch came at `start`, and the job is due 30 s after it at the latest.
abbrev pub Within : Text → ℕ → State
Within slug start now r =
    (get_string now (debounce_first_key slug) r ≡ some (int (pos start)))
    × ScoreWithin start (zscore debounce_key slug r)

fire_at_within : (now start : ℕ) → fire_at now (some (int (pos start))) ≤ℤ pos (start + max_wait_ms)
fire_at_within now start = ground arith

Within-zadd :
    (slug : Text) (start t now : ℕ) (r : Redis)
    → Within slug start now r
    → Within slug start now (zadd debounce_key slug (fire_at t (some (int (pos start)))) r)
unfolding zadd get_string
Within-zadd slug start t now r p = (
  p.0,
  rw (zscore-zadd debounce_key slug (fire_at t (some (int (pos start)))) r)
      (fire_at_within t start),
)

-- SET NX leaves the start of a batch that has begun, and answers it.
set_first_begun :
    (slug : Text) (start now : ℕ) (r : Redis)
    → Within slug start now r
    → set_first slug now r ≡ (some (int (pos start)), r)
unfolding set_first
set_first_begun slug start now r p = rw (set_first, p.0) refl

schedule : Text → ℕ → Option Field → Proc (Result ℤ Text)
schedule slug t before = redis_do (λ _. zadd debounce_key slug (fire_at t before)) >>= (λ added.
    elim added [ err e ↦ pure (err e) | ok _ ↦ pure (ok (fire_at t before +ℤ negate (pos t))) ])

schedule-Within :
    (slug : Text) (start t : ℕ)
    → Spec {A = Result ℤ Text}
        (Within slug start)
        (schedule slug t (some (int (pos start))))
        (λ _. Within slug start)
unfolding schedule
schedule-Within slug start t =
    Spec-bind _ _
      (Spec-redis_keeps
        (λ now r. (tt {0}, zadd debounce_key slug (fire_at t (some (int (pos start)))) r))
        (Within-zadd slug start t))
      cases
  where
    cases :
        (a : Result (Unit {0}) Text)
        → Spec {A = Result ℤ Text}
            (Within slug start)
            (elim a [
              | err e ↦ pure (err e)
              | ok _ ↦ pure (ok (fire_at t (some (int (pos start))) +ℤ negate (pos t)))
            ])
            (λ _. Within slug start)
    cases (ok u) =
        Spec-pure (ok (fire_at t (some (int (pos start))) +ℤ negate (pos t))) (λ now r p. p)
    cases (err e) = Spec-pure (err e) (λ now r p. p)

schedule_begun :
    (slug : Text) (start : ℕ) (before : Option Field)
    → before ≡ some (int (pos start))
    → (t : ℕ)
    → Spec {A = Result ℤ Text} (Within slug start) (schedule slug t before) (λ _. Within slug start)
schedule_begun slug start before e t = rw (e) (schedule-Within slug start t)

debounce_event-Spec :
    (slug : Text) (start : ℕ)
    → Spec (Within slug start) (debounce_event slug) (λ _. Within slug start)
unfolding debounce_event schedule
debounce_event-Spec slug start = Spec-bind clock _ Spec-clock (λ t.
    Spec-bind
      {Q = λ a now r.
        (a ≡ ok (some (int (pos start))) ⊎ ((e : Text) × (a ≡ err e))) × Within slug start now r}
      (redis (set_first slug)) _
      (Spec-redis (set_first slug)
        (λ now r p. rw (set_first_begun slug start now r p) (inl refl, p))
        (λ e now r p. (inr (e, refl), p))
        (λ e now r p. rw (set_first_begun slug start now r p) (inr (e, refl), p)))
      (cases t))
  where
    cases :
        (t : ℕ) (a : Result (Option Field) Text)
        → Spec {A = Result ℤ Text}
            (λ now r.
              (a ≡ ok (some (int (pos start))) ⊎ ((e : Text) × (a ≡ err e)))
              × Within slug start now r)
            (elim a [
              | err e ↦ pure (err e)
              | ok before ↦ redis_do (λ _. zadd debounce_key slug (fire_at t before)) >>= (λ added.
                  elim added [
                    | err e ↦ pure (err e)
                    | ok _ ↦ pure (ok (fire_at t before +ℤ negate (pos t)))
                  ])
            ])
            (λ _. Within slug start)
    cases t (ok before) = record {
      at = λ w p. (schedule_begun slug start before (ground (arith, p.0)) t).at w p.1;
    }
    cases t (err e) = Spec-pure (err e) (λ now r p. p.1)

-- Whatever requests fail, an upload event leaves the start of its batch as it is, and never moves the
-- job of the batch to more than 30 s after that start: so no stream of events puts a job off for ever.
pub debounce_event-Within :
    (slug : Text) (start : ℕ) (w : World)
    → Within slug start w.now w.redis
    → let w' = (debounce_event slug w).1 in Within slug start w'.now w'.redis
debounce_event-Within slug start w p = (debounce_event-Spec slug start).at w p

-- SET NX marks the start of a batch that has not begun.
set_first_unset :
    (slug : Text) (now : ℕ) (r : Redis)
    → get_string now (debounce_first_key slug) r ≡ none
    → set_first slug now r
      ≡ (none, put_string (debounce_first_key slug) (int (pos now)) (now + max_wait_ms * 4) r)
unfolding set_first
set_first_unset slug now r e = rw (set_first, e) refl

get_string-put_string :
    (key : Text) (v : Field) (now t : ℕ) (r : Redis)
    → now < t
    → get_string now key (put_string key v t r) ≡ some v
unfolding get_string put_string
get_string-put_string key v now t r h =
    ground (arith, lookup-insert key key (record { value = v; expires = some t }) r.strings)

-- When the first event of a batch is to fire, and what the caller is told.
fire_at_first : (now : ℕ) → fire_at now none ≡ pos (now + quiet_ms)
fire_at_first now = ground arith

delay_first : (now : ℕ) → fire_at now none +ℤ negate (pos now) ≡ pos quiet_ms
delay_first now = rw (fire_at_first now) (difference now)
  where
    difference : (n : ℕ) → pos (n + quiet_ms) +ℤ negate (pos n) ≡ pos quiet_ms
    difference zero = ground arith
    difference (suc n) = ground arith

fire_at_first_within : (now : ℕ) → fire_at now none ≤ℤ pos (now + max_wait_ms)
fire_at_first_within now = ground arith

get_string-zadd :
    (now : ℕ) (k key member : Text) (z : ℤ) (r : Redis)
    → get_string now k (zadd key member z r) ≡ get_string now k r
unfolding get_string zadd
get_string-zadd now k key member z r = refl

-- Undisturbed, the first upload event of a batch schedules the job of its pipeline 5 s later, says so,
-- and marks the start of the batch.
pub debounce_event_first :
    (slug : Text) (w : World)
    → get_string w.now (debounce_first_key slug) w.redis ≡ none
    → let (result, w') = debounce_event slug (calm w) in
      (result ≡ ok (pos quiet_ms))
      × ((zscore debounce_key slug w'.redis ≡ some (pos (w.now + quiet_ms)))
          × Within slug w.now w.now w'.redis)
unfolding debounce_event clock redis
debounce_event_first slug w unset = rw (set_first_unset slug w.now w.redis unset) (
  ap ok (delay_first w.now),
  (
    zscore-zadd debounce_key slug (fire_at w.now none) _ ∙ ap some (fire_at_first w.now),
    (
      get_string-zadd w.now (debounce_first_key slug) debounce_key slug (fire_at w.now none) _
          ∙ get_string-put_string (debounce_first_key slug) (int (pos w.now)) w.now
              (w.now + max_wait_ms * 4) w.redis (omega arith),
      rw (zscore-zadd) (fire_at_first_within w.now),
    ),
  ),
)
