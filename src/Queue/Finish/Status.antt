-- ===== src/Queue/Finish/Status.antt =====
-- The status in the live hash after the terminal update, and what `finish_job` leaves of a delivery.
use karet_worker.Common.{
  ℕ, ◌<◌, ◌≡◌, refl, ◌⊎◌, inl, inr, true, false, Option, none, some, arith, ◌==◌, nat_eq, text_eq,
  if◌then◌else◌, ==_refl, ◌++◌,
}
use karet_worker.Common.Result.{Result, ok, err}
use karet_worker.Common.Text.{Text, bytes}
use karet_worker.Queue.Store.{
  Field, str, Redis, hget, hset, expire_hash, publish, del_string, xack, is_pending,
}
use karet_worker.Queue.Store.Laws.{hget-hset, hget-expire_hash}
use karet_worker.Queue.Keys.{live_key, fence}
use karet_worker.Queue.Message.{JobMessage, External, QueueSettings}
use karet_worker.Queue.World.{Proc, pure}
use karet_worker.Queue.World.Spec.{
  State, Spec, Spec-pure, Spec-weaken, Spec-if, Spec-bind, Spec-then, Spec-redis, Spec-redis_keeps,
  Spec-sql,
}
use karet_worker.Queue.Commands.{publish_job_event, release_lock, release_step}
use karet_worker.Queue.Finish.{
  hset_some, add_miss, joined_error, attempt, fenced_out, Terminal, terminal_pipe, Outcome,
  release_and_ack, finish_live, finish_owned, finish_job,
}
use karet_worker.Queue.Claim.{is_terminal}

other_fields :
    ((bytes "status" == bytes "finished_at") ≡ false)
    × ((bytes "status" == bytes "error") ≡ false)
    × ((bytes "status" == bytes "partitions_written") ≡ false)
unfolding bytes text_eq
other_fields = (refl, refl, refl)

-- A write to another field.
hget-hset_ne :
    (now : ℕ) (k field name : Text) (v : Field) (r : Redis)
    → (name == field) ≡ false
    → hget now k name (hset now k field v r) ≡ hget now k name r
hget-hset_ne now k field name v r h = rw hget-hset (rw (==_refl k, h))

hget-hset_some_ne :
    (now : ℕ) (k field name : Text) (v : Option Field) (r : Redis)
    → (name == field) ≡ false
    → hget now k name (hset_some now k field v r) ≡ hget now k name r
hget-hset_some_ne now k field name none r h = refl
hget-hset_some_ne now k field name (some v) r h = hget-hset_ne now k field name v r h

-- The terminal update sets the status.
pub status-terminal_pipe :
    (x : External) (ttl : ℕ) (job : Text) (t : Terminal) (error : Option Text) (now : ℕ) (r : Redis)
    → 0 < ttl
    → hget now (live_key job) (bytes "status") (terminal_pipe x ttl job t error now r)
      ≡ some (str t.status)
unfolding terminal_pipe
status-terminal_pipe x ttl job t error now r h =
    rw (hget-hset_some_ne, other_fields.2)
      (rw (hget-hset_some_ne, other_fields.1)
        (rw (hget-expire_hash, h)
          (rw (hget-hset_ne, other_fields.0) (rw hget-hset (rw (==_refl, ==_refl))))))

-- A step that fails ends the procedure with what is known then.
Spec-attempt :
    {P : State} {Q R : Outcome → State} (message : Text) (m k : Proc Outcome)
    → Spec P m Q
    → ((u : Unit {0}) → Spec (Q (ok u)) k R)
    → ((e : Text) (now : ℕ) (r : Redis) → Q (err e) now r → R (err (message ++ e)) now r)
    → Spec P (attempt message m k) R
Spec-attempt {P = P} {Q = Q} {R = R} message m k s hk he = Spec-bind m _ s cases
  where
    cases : (a : Outcome) → Spec (Q a) (elim a [ err e ↦ pure (err (message ++ e)) | ok _ ↦ k ]) R
    cases (ok u) = hk u
    cases (err e) = Spec-pure _ (he e)

module _ (x : External) (settings : QueueSettings) (msg : JobMessage) (stream_id attempts : ℕ) where
  -- The delivery is not acknowledged.
  abbrev pub Pending : State
  Pending now r = is_pending stream_id r ≡ true

  -- The live hash says that the job has come to an end.
  abbrev pub Done : State
  Done now r = is_terminal (hget now (live_key msg.job_id) (bytes "status") r) ≡ true

  Pending-publish : (c m : Text) (now : ℕ) (r : Redis) → Pending now r → Pending now (publish c m r)
  unfolding publish is_pending
  Pending-publish c m now r p = p

  Done-publish : (c m : Text) (now : ℕ) (r : Redis) → Done now r → Done now (publish c m r)
  unfolding publish hget
  Done-publish c m now r p = p

  Done-release_step :
      (now : ℕ) (r : Redis)
      → Done now r
      → Done now (release_step msg.pipeline (fence msg.job_id attempts) now r)
  unfolding release_step del_string hget
  Done-release_step now r p = ground arith

  Done-xack : (now : ℕ) (r : Redis) → Done now r → Done now (xack stream_id r)
  unfolding xack hget
  Done-xack now r p = p

  Pending-terminal_pipe :
      (ttl : ℕ) (t : Terminal) (error : Option Text) (now : ℕ) (r : Redis)
      → Pending now r
      → Pending now (terminal_pipe x ttl msg.job_id t error now r)
  unfolding terminal_pipe hset expire_hash is_pending
  Pending-terminal_pipe ttl t error now r p = ground arith

  release_and_ack-Done : Spec Done (release_and_ack x settings msg stream_id attempts) (λ _. Done)
  unfolding release_and_ack release_lock
  release_and_ack-Done =
      Spec-attempt _ _ _ (Spec-redis_keeps _ Done-release_step)
        (λ u. Spec-bind _ _ (Spec-redis_keeps _ Done-xack) (λ a. Spec-pure (ok tt) (λ now r p. p)))
        (λ e now r p. p)

  -- Still to be delivered again, or at its end.
  abbrev pub PendingOrDone : State
  PendingOrDone now r = Pending now r ⊎ Done now r

  finish_live-Spec :
      (t : Terminal) (error : Option Text)
      → 0 < settings.live_terminal_ttl_s
      → is_terminal (some (str t.status)) ≡ true
      → Spec Pending (finish_live x settings msg stream_id attempts t error) (λ _. PendingOrDone)
  unfolding finish_live publish_job_event
  finish_live-Spec t error h terminal =
      Spec-attempt {Q = λ a. elim a [ ok _ ↦ Done | err _ ↦ Pending ]} _ _ _
        (Spec-redis _ (λ now r p. rw (status-terminal_pipe _ _ _ _ _ _ _ h) terminal)
          (λ e now r p. p)
          (λ e now r p. Pending-terminal_pipe settings.live_terminal_ttl_s t error now r p))
        (λ u.
          Spec-then {0, 0} _ _
            (Spec-bind _ _ (Spec-redis_keeps _ (Done-publish _ _))
              (λ a. Spec-pure tt (λ now r p. p)))
            (Spec-weaken _ release_and_ack-Done (λ a now r p. inr p)))
        (λ e now r p. inl p)

  finish_owned-Spec :
      (t : Terminal)
      → 0 < settings.live_terminal_ttl_s
      → is_terminal (some (str t.status)) ≡ true
      → Spec Pending (finish_owned x settings msg stream_id attempts t) (λ _. PendingOrDone)
  unfolding finish_owned
  finish_owned-Spec t h terminal =
      Spec-bind _ _ (Spec-sql _)
        (λ written. finish_live-Spec t (add_miss msg.job_id (joined_error t) written) h terminal)

  -- Whatever fails, `finish_job` acknowledges the entry only with the terminal status recorded.
  pub finish_job-Spec :
      (t : Terminal)
      → 0 < settings.live_terminal_ttl_s
      → is_terminal (some (str t.status)) ≡ true
      → Spec Pending (finish_job x settings msg stream_id attempts t) (λ _. PendingOrDone)
  unfolding finish_job
  finish_job-Spec t h terminal = Spec-bind _ _ (Spec-redis_keeps _ (λ now r p. p)) cases
    where
      cases :
          (holder : Result (Option Field) Text)
          → Spec Pending
              (elim holder [
                | err e ↦ pure (err (bytes "fence check failed: " ++ e))
                | ok v ↦
                    if fenced_out x settings msg stream_id attempts v
                    then pure (ok tt)
                    else finish_owned x settings msg stream_id attempts t
              ])
              (λ _. PendingOrDone)
      cases (err e) = Spec-pure (err (bytes "fence check failed: " ++ e)) (λ now r p. inl p)
      cases (ok v) =
          Spec-if (fenced_out x settings msg stream_id attempts v) (pure (ok tt))
            (finish_owned x settings msg stream_id attempts t)
            (λ out. Spec-pure (ok tt) (λ now r p. inl p)) (λ mine. finish_owned-Spec t h terminal)
