-- ===== src/Queue/Timers/Due.antt =====
-- The script of the mover in src/queue.rs, MOVE_DUE_LUA.
use karet_worker.Common.{
  ℕ, zero, suc, ◌≡◌, refl, sym, ap, ◌∙◌, Bool, true, ◌&&◌, ◌||◌, none, List, [], ◌∷◌, ◌++◌, map,
  ◌==◌, ==_refl, text_eq, arith, contains, any, retain, any-retain, map-append, length,
  length-append, ◌+◌, ◌≤◌, if◌then◌else◌,
}
use mathlib.Core.List.{append_assoc, append-nil}
use karet_worker.Common.Dict.{Dict, lookup, erase, lookup-insert, lookup-erase}
use karet_worker.Common.Int.{ℤ, pos, leb_ℤ}
use karet_worker.Common.Text.{Text}
use karet_worker.Queue.Store.{Entry, Redis, zrem, zscore, or_empty}
use karet_worker.Queue.Keys.{delayed_key, stream_maxlen}
use karet_worker.Queue.Message.{External}
use karet_worker.Queue.Commands.{xadd}
use karet_worker.Queue.Timers.{
  insert_scored, sort_scored, first_members, range_due, move_all, move_due,
}

-- What is taken from a sorted set stands in it.
any-insert_scored :
    (q : Text × ℤ → Bool) (e : Text × ℤ) (es : Dict Text ℤ)
    → any q (insert_scored e es) ≡ (q e || any q es)
unfolding insert_scored
any-insert_scored q e [] = refl
any-insert_scored q (m, s) ((k, t) ∷ es) = ground (arith, any-insert_scored q (m, s) es)

any-sort_scored : (q : Text × ℤ → Bool) (es : Dict Text ℤ) → any q (sort_scored es) ≡ any q es
unfolding sort_scored
any-sort_scored q [] = refl
any-sort_scored q (e ∷ es) =
    any-insert_scored q e (sort_scored es) ∙ ap (λ b. q e || b) (any-sort_scored q es)

contains-first_members :
    (k : Text) (n : ℕ) (es : Dict Text ℤ)
    → contains (first_members n es) k ≡ true
    → any (λ e. k == e.0) es ≡ true
contains-first_members k zero es c = ground (arith, c)
contains-first_members k (suc n) [] c = ground (arith, c)
contains-first_members k (suc n) ((m, s) ∷ es) c = ground (arith, c, contains-first_members k n es)

-- A member that the scripts take is in the set with a score that has been reached.
pub range_due_lem :
    (key k : Text) (now : ℕ) (r : Redis)
    → contains (range_due key now r) k ≡ true
    → any (λ e. leb_ℤ e.1 (pos now) && k == e.0) (or_empty (lookup key r.zsets)) ≡ true
unfolding range_due
range_due_lem key k now r c =
    sym (
      any-sort_scored (λ e. k == e.0)
        (retain (λ e. leb_ℤ e.1 (pos now)) (or_empty (lookup key r.zsets)))
      ∙ any-retain (λ e. k == e.0) (λ e. leb_ℤ e.1 (pos now)) (or_empty (lookup key r.zsets)))
    ∙ contains-first_members k 10 _ c

zscore-zrem :
    (key m k : Text) (r : Redis)
    → zscore key k (zrem key m r) ≡ (if k == m then none else zscore key k r)
unfolding zscore zrem
zscore-zrem key m k r = rw (
  lookup-insert key key (erase m (or_empty (lookup key r.zsets))) r.zsets,
  ==_refl key,
  lookup-erase k m (or_empty (lookup key r.zsets)),
)

moved :
    (x : External) (due : List Text) (p k : Text) (r : Redis)
    → zscore delayed_key k (zrem delayed_key p r)
      ≡ (if k == p then none else zscore delayed_key k r)
    → (if contains due k then none else zscore delayed_key k (xadd x.trim p (zrem delayed_key p r)))
      ≡ (if k == p || contains due k then none else zscore delayed_key k r)
unfolding xadd zscore
moved x due p k r e = ground (arith, e)

zscore-move_all :
    (x : External) (due : List Text) (k : Text) (r : Redis)
    → zscore delayed_key k (move_all x due r)
      ≡ (if contains due k then none else zscore delayed_key k r)
unfolding move_all
zscore-move_all x [] k r = refl
zscore-move_all x (p ∷ due) k r =
    zscore-move_all x due k (xadd x.trim p (zrem delayed_key p r))
    ∙ moved x due p k r (zscore-zrem delayed_key p k r)

-- What Redis does to a stream that is added to with `MAXLEN ~`: its oldest entries may go, and none
-- does where it has no more entries than the limit.
pub record IsTrim (trim : List Entry → List Entry) : Type 0 where
  pub keeps_newest : (l : List Entry) → (gone : List Entry) × (l ≡ gone ++ trim l)
  pub within : (l : List Entry) → length l ≤ stream_maxlen → trim l ≡ l

abbrev payloads : List Entry → List Text
payloads l = map (λ e. e.payload) l

payloads-move_all :
    (x : External) (due : List Text) (r : Redis)
    → IsTrim x.trim
    → (gone : List Text) × (payloads r.stream ++ due ≡ gone ++ payloads (move_all x due r).stream)
unfolding move_all xadd zrem
payloads-move_all x [] r trimmed = ([], append-nil _)
payloads-move_all x (p ∷ due) r trimmed =
    let added = r.stream ++ (record { id = r.next_id; payload = p } ∷ []) in
    let (first, kept) = trimmed.keeps_newest added in
    let (gone, rest) = payloads-move_all x due (xadd x.trim p (zrem delayed_key p r)) trimmed in
    (
      payloads first ++ gone,
      sym (append_assoc (payloads r.stream) (p ∷ []) due)
          ∙ ap (λ l. l ++ due)
              (sym (map-append _ r.stream (record { id = r.next_id; payload = p } ∷ []))
                ∙ (ap payloads kept ∙ map-append _ first (x.trim added)))
          ∙ append_assoc (payloads first) (payloads (x.trim added)) due
          ∙ ap (λ l. payloads first ++ l) rest
          ∙ sym (append_assoc (payloads first) gone _),
    )

stream-move_all :
    (x : External) (due : List Text) (r : Redis)
    → IsTrim x.trim
    → length r.stream + length due ≤ stream_maxlen
    → payloads (move_all x due r).stream ≡ payloads r.stream ++ due
unfolding move_all xadd zrem
stream-move_all x [] r trimmed room = sym (append-nil _)
stream-move_all x (p ∷ due) r trimmed room =
    let added = r.stream ++ (record { id = r.next_id; payload = p } ∷ []) in
    let same : x.trim added ≡ added =
      trimmed.within added (
        omega
          (arith, room, length-append r.stream (record { id = r.next_id; payload = p } ∷ []))) in
    stream-move_all x due (xadd x.trim p (zrem delayed_key p r)) trimmed (
      rw same
        (omega (arith, room, length-append r.stream (record { id = r.next_id; payload = p } ∷ []))))
    ∙ rw (same, map-append _ r.stream (record { id = r.next_id; payload = p } ∷ []))
        (append_assoc (payloads r.stream) (p ∷ []) due)

-- One run of the mover's script: the due messages, and no others, leave the set of delayed messages,
-- and each of them was in the set with a time that has come. They are added to the stream in that
-- order: the stream is what it was with them behind it, less oldest entries, and less none where
-- all of them fit in the limit. Condition: the trimming of a stream is that of `MAXLEN ~`.
pub move_due_once :
    (x : External) (now : ℕ) (r : Redis)
    → IsTrim x.trim
    → let due = range_due delayed_key now r in
      let r' = (move_due x now r).1 in
      ((gone : List Text) × (map (λ e. e.payload) r.stream ++ due
          ≡ gone ++ map (λ e. e.payload) r'.stream))
      × (length r.stream + length due ≤ stream_maxlen
          → map (λ e. e.payload) r'.stream ≡ map (λ e. e.payload) r.stream ++ due)
      × ((k : Text)
          → zscore delayed_key k r' ≡ (if contains due k then none else zscore delayed_key k r))
      × ((k : Text)
          → contains due k ≡ true
          → any (λ e. leb_ℤ e.1 (pos now) && k == e.0) (or_empty (lookup delayed_key r.zsets))
            ≡ true)
unfolding move_due
move_due_once x now r trimmed = (
  payloads-move_all x (range_due delayed_key now r) r trimmed,
  stream-move_all x (range_due delayed_key now r) r trimmed,
  λ k. zscore-move_all x (range_due delayed_key now r) k r,
  λ k c. range_due_lem delayed_key k now r c,
)
