-- ===== src/Queue/Store/Laws.antt =====
-- The laws of the commands on hashes, sorted sets and deliveries.
use karet_worker.Common.{
  ℕ, ◌+◌, ◌*◌, ◌<◌, ◌≡◌, refl, true, false, Option, none, some, List, [], ◌∷◌, arith, ◌==◌, nat_eq,
  text_eq, if◌then◌else◌, retain, any, ==_refl, Option-cases, inl, inr,
}
use karet_worker.Common.Dict.{lookup, insert, lookup-insert}
use karet_worker.Common.Int.{ℤ}
use karet_worker.Common.Text.{Text}
use karet_worker.Queue.Store.{
  Field, Stored, Hash, Delivery, Redis, live_at, kept_expiry, fields, hget, hset, expire_hash, zadd,
  zscore, xack, is_pending,
}

-- A hash that is written to is there, with the expiry time that it had.
live_kept :
    (now : ℕ) (h : Hash) (s : Option (Stored Hash))
    → live_at now (some (record { value = h; expires = kept_expiry now s })) ≡ some h
live_kept now h none = refl
live_kept now h (some s) = ground arith

pub fields-hset :
    (now : ℕ) (k j field : Text) (v : Field) (r : Redis)
    → fields now j (hset now k field v r)
      ≡ (if j == k then insert field v (fields now k r) else fields now j r)
unfolding fields hset
fields-hset now k j field v r = ground (
  arith,
  lookup-insert j k
      (record {
        value = insert field v (fields now k r);
        expires = kept_expiry now (lookup k r.hashes);
      })
      r.hashes,
  live_kept now (insert field v (fields now k r)) (lookup k r.hashes),
)

-- HGET after HSET.
pub hget-hset :
    (now : ℕ) (k j field name : Text) (v : Field) (r : Redis)
    → hget now j name (hset now k field v r) ≡ (
        if j == k then (if name == field then some v else hget now k name r) else hget now j name r)
unfolding hget
hget-hset now k j field name v r =
    ground (arith, fields-hset now k j field v r, lookup-insert name field v (fields now k r))

-- EXPIRE by a positive time leaves the fields.
pub hget-expire_hash :
    (now : ℕ) (k j name : Text) (seconds : ℕ) (r : Redis)
    → 0 < seconds
    → hget now j name (expire_hash now k seconds r) ≡ hget now j name r
unfolding hget fields expire_hash
hget-expire_hash now k j name seconds r h = elim (Option-cases (live_at now (lookup k r.hashes))) [
  | inl e ↦ ground (arith, e)
  | inr (fs, e) ↦ ground (
    arith,
    e,
    lookup-insert j k (record { value = fs; expires = some (now + seconds * 1000) }) r.hashes,
  )
]

-- ZSCORE after ZADD of the same member.
pub zscore-zadd : (k m : Text) (n : ℤ) (r : Redis) → zscore k m (zadd k m n r) ≡ some n
unfolding zscore zadd
zscore-zadd k m n r = simp (lookup-insert, ==_refl)

-- Nothing is pending that was acknowledged, and no other delivery is lost.
pub is_pending-xack :
    (id other : ℕ) (r : Redis)
    → is_pending other (xack id r) ≡ (if other == id then false else is_pending other r)
unfolding is_pending xack
is_pending-xack id other r = pending-retain r.pending
  where
    pending-retain :
        (ds : List Delivery)
        → any (λ d. d.id == other) (retain (λ d. if d.id == id then false else true) ds)
          ≡ (if other == id then false else any (λ d. d.id == other) ds)
    pending-retain [] = ground arith
    pending-retain (d ∷ ds) = ground (arith, pending-retain ds)
