-- ===== src/Queue/Sweep/Safe.antt =====
-- What `sweep_orphaned_live_hashes` of src/queue.rs does to a job in the stream.
use karet_worker.Common.{
  ℕ, ◌<◌, ◌≡◌, ◌≢◌, refl, sym, ap, ◌∙◌, true, false, Option, none, some, List, [], ◌∷◌, ◌==◌,
  text_eq, arith, contains, ◌⊎◌, inl, inr, if◌then◌else◌,
}
use karet_worker.Common.Int.{ℤ, pos, negsuc, ◌+ℤ◌}
use karet_worker.Common.Result.{Result, ok, err}
use karet_worker.Common.Text.{Text, bytes}
use karet_worker.Queue.Store.{Field, str, Entry, Redis, hget, hset, publish}
use karet_worker.Queue.Store.Laws.{hget-hset, hget-expire_hash}
use karet_worker.Queue.Keys.{live_key, events_channel}
use karet_worker.Queue.Message.{QueueSettings, External}
use karet_worker.Queue.World.{World, redis, pure, ◌>>=◌, ◌>>◌, clock}
use karet_worker.Queue.World.Spec.{
  State, Spec, Spec-pure, Spec-if, Spec-bind, Spec-then, Spec-redis, Spec-redis_keeps, Spec-clock,
}
use karet_worker.Queue.Commands.{publish_job_event}
use karet_worker.Queue.Sweep.{
  live_prefix, stream_job_ids, scan_keys, trim_start_matches, abandon, tell, HashView, view_hash,
  as_text, as_i64, orphaned, mark, judge, sweep_key, sweep_keys, sweep_ids,
  sweep_orphaned_live_hashes,
}

module _ (x : External) (settings : QueueSettings)
    (lasting : 0 < settings.live_terminal_ttl_s) where
  -- Another key's hash is left as it is.
  hget-abandon :
      (key k name : Text) (now : ℕ) (r : Redis)
      → k ≢ key
      → hget now k name (abandon x settings key now r) ≡ hget now k name r
  unfolding abandon
  hget-abandon key k name now r ne =
      let n : (k == key) ≡ false = ground arith in
      rw (
        hget-expire_hash now key k name settings.live_terminal_ttl_s
            (hset now key (bytes "finished_at") (str (x.iso now)) (
              hset now key (bytes "error")
                (str (bytes "queue entry lost (stream trimmed); re-run the job"))
                (hset now key (bytes "status") (str (bytes "abandoned")) r)))
            lasting,
        hget-hset,
        n,
        hget-hset,
        n,
        hget-hset,
        n,
      )

  module _ (j name : Text) (v : Option Field) where
    abbrev kept : State
    kept now r = hget now (live_key j) name r ≡ v

    kept-publish : (c m : Text) (now : ℕ) (r : Redis) → kept now r → kept now (publish c m r)
    unfolding publish hget
    kept-publish c m now r p = p

    tell-kept :
        (pipeline : Option Text) (job_id : Text) → Spec kept (tell pipeline job_id) (λ _. kept)
    unfolding publish_job_event
    tell-kept none job_id = Spec-pure tt (λ now r p. p)
    tell-kept (some pipeline) job_id =
        Spec-bind _ _ (Spec-redis_keeps _ (kept-publish (events_channel pipeline) job_id))
          (λ a. Spec-pure tt (λ now r p. p))

    mark-kept :
        (key job_id : Text) (pipeline : Option Field)
        → live_key j ≢ key
        → Spec kept (mark x settings key job_id pipeline) (λ _. kept)
    unfolding mark
    mark-kept key job_id pipeline ne =
        Spec-bind _ _
          (Spec-redis_keeps (λ now r. (tt {0}, abandon x settings key now r))
            (λ now r p. hget-abandon key (live_key j) name now r ne ∙ p))
          cases
      where
        cases :
            (a : Result (Unit {0}) Text)
            → Spec {A = Result (Unit {0}) Text} kept
                (elim a [
                  | err e ↦ pure (err e)
                  | ok _ ↦ tell (as_text pipeline) job_id >> pure (ok (tt {0}))
                ])
                (λ _. kept)
        cases (ok u) =
            Spec-then {0, 0} (tell (as_text pipeline) job_id) (pure (ok (tt {0})))
              (tell-kept (as_text pipeline) job_id) (Spec-pure (ok (tt {0})) (λ now r p. p))
        cases (err e) = Spec-pure (err e) (λ now r p. p)

    judge-kept :
        (key job_id : Text) (cutoff : ℤ) (view : HashView)
        → live_key j ≢ key
        → Spec kept (judge x settings key job_id cutoff view) (λ _. kept)
    unfolding judge
    judge-kept key job_id cutoff (status, (enqueued_at, pipeline)) ne = cases (as_i64 enqueued_at)
      where
        cases :
            (a : Result (Option ℤ) Text)
            → Spec {A = Result (Unit {0}) Text} kept
                (elim a [
                  | err e ↦ pure (err e)
                  | ok at ↦
                      if orphaned (as_text status) at cutoff
                      then mark x settings key job_id pipeline
                      else pure (ok (tt {0}))
                ])
                (λ _. kept)
        cases (ok at) =
            Spec-if (orphaned (as_text status) at cutoff) (mark x settings key job_id pipeline)
              (pure (ok (tt {0}))) (λ e. mark-kept key job_id pipeline ne)
              (λ e. Spec-pure (ok (tt {0})) (λ now r p. p))
        cases (err e) = Spec-pure (err e) (λ now r p. p)

    module _ (ids : List Text) (named : trim_start_matches (live_key j) live_prefix ≡ j)
        (streamed : contains ids j ≡ true) where
      sweep_key-kept :
          (cutoff : ℤ) (key : Text) → Spec kept (sweep_key x settings ids cutoff key) (λ _. kept)
      unfolding sweep_key view_hash
      sweep_key-kept cutoff key =
          Spec-if (contains ids (trim_start_matches key live_prefix)) (pure (ok (tt {0}))) _
            (λ e. Spec-pure (ok (tt {0})) (λ now r p. p))
            (λ absent.
              Spec-bind (redis (view_hash key)) _ (Spec-redis_keeps (view_hash key) (λ now r p. p))
                (cases (λ same. distinct (streamed_key same) absent)))
        where
          streamed_key : live_key j ≡ key → contains ids (trim_start_matches key live_prefix) ≡ true
          streamed_key same = rw (sym same, named) streamed

          distinct :
              contains ids (trim_start_matches key live_prefix) ≡ true
              → contains ids (trim_start_matches key live_prefix) ≡ false
              → ⊥
          distinct present absent' = ground (arith, present, absent')

          cases :
              live_key j ≢ key
              → (a : Result HashView Text)
              → Spec {A = Result (Unit {0}) Text} kept
                  (elim a [
                    | err e ↦ pure (err e)
                    | ok v' ↦ judge x settings key (trim_start_matches key live_prefix) cutoff v'
                  ])
                  (λ _. kept)
          cases ne (ok v') = judge-kept key (trim_start_matches key live_prefix) cutoff v' ne
          cases ne (err e) = Spec-pure (err e) (λ now r p. p)

      sweep_keys-kept :
          (cutoff : ℤ) (keys : List Text)
          → Spec kept (sweep_keys x settings ids cutoff keys) (λ _. kept)
      unfolding sweep_keys
      sweep_keys-kept cutoff [] = Spec-pure (ok (tt {0})) (λ now r p. p)
      sweep_keys-kept cutoff (key ∷ keys) =
          Spec-bind (sweep_key x settings ids cutoff key) _ (sweep_key-kept cutoff key)
            (cases (sweep_keys-kept cutoff keys))
        where
          cases :
              Spec kept (sweep_keys x settings ids cutoff keys) (λ _. kept)
              → (a : Result (Unit {0}) Text)
              → Spec {A = Result (Unit {0}) Text} kept
                  (elim a [ err e ↦ pure (err e) | ok _ ↦ sweep_keys x settings ids cutoff keys ])
                  (λ _. kept)
          cases s (ok u) = s
          cases s (err e) = Spec-pure (err e) (λ now r p. p)

      sweep_ids-kept : Spec kept (sweep_ids x settings ids) (λ _. kept)
      unfolding sweep_ids
      sweep_ids-kept =
          Spec-bind (redis (λ now r. (scan_keys now r.hashes, r))) _
            (Spec-redis_keeps (λ now r. (scan_keys now r.hashes, r)) (λ now r p. p)) cases
        where
          cases :
              (a : Result (List Text) Text)
              → Spec {A = Result (Unit {0}) Text} kept
                  (elim a [
                    | err e ↦ pure (err e)
                    | ok live_keys ↦
                        clock
                        >>= (λ now. sweep_keys x settings ids (pos now +ℤ negsuc 599999) live_keys)
                  ])
                  (λ _. kept)
          cases (ok live_keys) =
              Spec-bind clock
                (λ now. sweep_keys x settings ids (pos now +ℤ negsuc 599999) live_keys) Spec-clock
                (λ now. sweep_keys-kept (pos now +ℤ negsuc 599999) live_keys)
          cases (err e) = Spec-pure (err e) (λ now r p. p)

    -- What the sweep reads first, and what it goes on with.
    sweep-kept :
        (entries : List Entry) (ids : List Text)
        → stream_job_ids x entries ≡ some ids
        → trim_start_matches (live_key j) live_prefix ≡ j
        → contains ids j ≡ true
        → Spec
            (λ now r. (r.stream ≡ entries) × kept now r)
            (sweep_orphaned_live_hashes x settings)
            (λ _. kept)
    unfolding sweep_orphaned_live_hashes
    sweep-kept entries ids read named streamed =
        Spec-bind {Q = λ a now r. (a ≡ ok entries ⊎ ((e : Text) × (a ≡ err e))) × kept now r}
          (redis (λ _ r. (r.stream, r))) _
          (Spec-redis (λ _ r. (r.stream, r)) (λ now r p. (inl (ap ok p.0), p.1))
            (λ e now r p. (inr (e, refl), p.1)) (λ e now r p. (inr (e, refl), p.1)))
          cases
      where
        found :
            (es : List Entry)
            → es ≡ entries
            → Spec {A = Result (Unit {0}) Text} kept
                (elim (stream_job_ids x es) [
                  | none ↦ pure (ok (tt {0}))
                  | some got ↦ sweep_ids x settings got
                ])
                (λ _. kept)
        found es same = rw (same, read) (sweep_ids-kept ids named streamed)

        cases :
            (a : Result (List Entry) Text)
            → Spec {A = Result (Unit {0}) Text}
                (λ now r. (a ≡ ok entries ⊎ ((e : Text) × (a ≡ err e))) × kept now r)
                (elim a [
                  | err e ↦ pure (err e)
                  | ok es ↦ elim (stream_job_ids x es) [
                    | none ↦ pure (ok (tt {0}))
                    | some got ↦ sweep_ids x settings got
                  ]
                ])
                (λ _. kept)
        cases (ok es) = record { at = λ w p. (found es (ground (arith, p.0))).at w p.1 }
        cases (err e) = Spec-pure (err e) (λ now r p. p.1)

  -- Whatever requests fail, the sweep leaves every field of the live hash of a job alone whose message
  -- the stream still holds. Conditions: every entry of the stream can be read, the job id does not
  -- itself start with the prefix of the keys, and the time that a terminal hash is kept is not zero.
  pub sweep_spares_streamed :
      (w : World) (j name : Text) (ids : List Text)
      → stream_job_ids x w.redis.stream ≡ some ids
      → contains ids j ≡ true
      → trim_start_matches (live_key j) live_prefix ≡ j
      → let w' = (sweep_orphaned_live_hashes x settings w).1 in
        hget w'.now (live_key j) name w'.redis ≡ hget w.now (live_key j) name w.redis
  sweep_spares_streamed w j name ids read streamed named =
      (sweep-kept j name (hget w.now (live_key j) name w.redis) w.redis.stream ids read named
          streamed).at
        w (refl, refl)
