-- ===== src/Queue/Store.antt =====
-- The part of a Redis server that src/queue.rs uses: strings and hashes with an expiry time, sorted
-- sets, one stream with its consumer group, and the log of published events.
pub mod Laws
use karet_worker.Common.{
  ℕ, suc, ◌+◌, ◌*◌, Bool, true, false, Option, none, some, List, [], ◌∷◌, ◌++◌, ltb, leb, ◌==◌,
  nat_eq, text_eq, if◌then◌else◌, retain, any, ◌≡◌, arith,
}
use karet_worker.Common.Dict.{Dict, lookup, insert, erase}
use karet_worker.Common.Int.{ℤ, pos, ◌+ℤ◌}
use karet_worker.Common.Text.{Text}

-- The value of a string key or of a hash field: a text, or an integer in its decimal form.
pub data Field : Type 0 where
  str : Text → Field
  int : ℤ → Field

-- A value and the time at which it expires.
pub record Stored (A : Type 0) : Type 0 where
  pub value : A
  pub expires : Option ℕ

abbrev pub Hash : Type 0
Hash = Dict Text Field

-- An entry of the stream, and a delivery of it that is not acknowledged (the PEL).
pub record Entry : Type 0 where
  pub id : ℕ
  pub payload : Text

pub record Delivery : Type 0 where
  pub id : ℕ
  pub consumer : Text
  pub since : ℕ

pub record Redis : Type 0 where
  pub strings : Dict Text (Stored Field)
  pub hashes : Dict Text (Stored Hash)
  pub zsets : Dict Text (Dict Text ℤ)
  pub stream : List Entry
  pub next_id : ℕ
  pub pending : List Delivery
  pub events : List (Text × Text)

-- What is left of a stored value at a time.
abbrev pub live_at : {A : Type 0} → ℕ → Option (Stored A) → Option A
live_at now none = none
live_at now (some s) = elim s.expires [
  | none ↦ some s.value
  | some t ↦ if ltb now t then some s.value else none
]

abbrev pub expiry : {A : Type 0} → Option (Stored A) → Option ℕ
expiry none = none
expiry (some s) = s.expires

abbrev pub or_empty {ℓ} : {A : Type ℓ} → Option (List A) → List A
or_empty none = []
or_empty (some l) = l

-- GET
unfoldable pub get_string : ℕ → Text → Redis → Option Field
get_string now key r = live_at now (lookup key r.strings)

-- SET, with an expiry time
unfoldable pub put_string : Text → Field → ℕ → Redis → Redis
put_string key v t r = record r {
  strings = insert key (record { value = v; expires = some t }) r.strings;
}

-- DEL of a string key
unfoldable pub del_string : Text → Redis → Redis
del_string key r = record r { strings = erase key r.strings }

-- The fields of a hash that is there, or none.
unfoldable pub fields : ℕ → Text → Redis → Hash
fields now key r = or_empty (live_at now (lookup key r.hashes))

-- HGET
unfoldable pub hget : ℕ → Text → Text → Redis → Option Field
unfolding fields
hget now key field r = lookup field (fields now key r)

-- The expiry time of a hash that is there: an expired key is created anew, without one.
abbrev pub kept_expiry : ℕ → Option (Stored Hash) → Option ℕ
kept_expiry now s = elim (live_at now s) [ none ↦ none | some _ ↦ expiry s ]

-- HSET
unfoldable pub hset : ℕ → Text → Text → Field → Redis → Redis
unfolding fields
hset now key field v r = record r {
  hashes =
      insert key
        (record {
          value = insert field v (fields now key r);
          expires = kept_expiry now (lookup key r.hashes);
        })
        r.hashes;
}

-- EXPIRE of a hash, in seconds: nothing happens to an absent key.
unfoldable pub expire_hash : ℕ → Text → ℕ → Redis → Redis
expire_hash now key seconds r = elim (live_at now (lookup key r.hashes)) [
  | none ↦ r
  | some h ↦ record r {
    hashes = insert key (record { value = h; expires = some (now + seconds * 1000) }) r.hashes;
  }
]

-- ZADD
unfoldable pub zadd : Text → Text → ℤ → Redis → Redis
zadd key member score r = record r {
  zsets = insert key (insert member score (or_empty (lookup key r.zsets))) r.zsets;
}

-- ZREM
unfoldable pub zrem : Text → Text → Redis → Redis
zrem key member r = record r {
  zsets = insert key (erase member (or_empty (lookup key r.zsets))) r.zsets;
}

-- ZSCORE
unfoldable pub zscore : Text → Text → Redis → Option ℤ
zscore key member r = lookup member (or_empty (lookup key r.zsets))

-- XACK
unfoldable pub xack : ℕ → Redis → Redis
xack id r = record r { pending = retain (λ d. if d.id == id then false else true) r.pending }

-- Is the entry delivered and not acknowledged?
unfoldable pub is_pending : ℕ → Redis → Bool
is_pending id r = any (λ d. d.id == id) r.pending

-- PUBLISH
unfoldable pub publish : Text → Text → Redis → Redis
publish channel message r = record r { events = r.events ++ (channel, message) ∷ [] }
