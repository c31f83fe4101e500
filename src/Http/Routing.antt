-- ===== src/Http/Routing.antt =====
-- The routing table of src/http.rs: which pipelines a key that was uploaded belongs to.
pub mod Table
use karet_worker.Common.{
  ℕ, ◌+◌, ◌-◌, Bool, true, false, ◌&&◌, ◌||◌, not, Option, none, some, List, [], ◌∷◌, ◌++◌, map,
  ◌==◌, nat_eq, text_eq, ltb, is_empty, contains, retain, if◌then◌else◌,
}
use karet_worker.Common.Result.{Result, ok, err}
use karet_worker.Common.Text.{Text, bytes, starts_with, strip_prefix, strip_suffix, text_le}
use karet_worker.Manifest.Bucket.{Proc, pure, ◌>>=◌, list_keys, get_bytes}

-- (source path_prefix, pipeline slug)
abbrev pub Entries : Type 0
Entries = List (Text × Text)

pub record RoutingCache : Type 0 where
  pub built_at : Option ℕ
  pub entries : Entries

abbrev pub routing_ttl : ℕ
routing_ttl = 30000

-- `sort`, and `dedup`, which removes an item that equals the one before it.
unfoldable pub insert_text : Text → List Text → List Text
insert_text t [] = t ∷ []
insert_text t (u ∷ us) = let rest = insert_text t us in if text_le t u then t ∷ u ∷ us else u ∷ rest

unfoldable pub sort_texts : List Text → List Text
sort_texts [] = []
sort_texts (t ∷ ts) = insert_text t (sort_texts ts)

unfoldable pub dedup : List Text → List Text
dedup [] = []
dedup (t ∷ []) = t ∷ []
dedup (t ∷ u ∷ us) = let rest = dedup (u ∷ us) in if t == u then rest else t ∷ rest

unfoldable pub matches : Text → Text × Text → Bool
matches key (prefix, slug) = not (is_empty prefix) && starts_with key prefix

unfoldable pub match_key : Entries → Text → List Text
match_key entries key = dedup (sort_texts (map (λ e. e.1) (retain (matches key) entries)))

abbrev and_then : {A B : Type 0} → Option A → (A → Option B) → Option B
and_then none f = none
and_then (some a) f = f a

-- The slug of a configuration's key, if the key has the shape of one.
unfoldable pub slug_of : Text → Option Text
slug_of key =
    and_then
      (and_then (strip_prefix key (bytes "pipelines/"))
        (λ r. strip_suffix r (bytes "/pipeline.json")))
      (λ slug. if is_empty slug || contains slug b'/' then none else some slug)

module _ (source_prefixes : Text → Option (List Text)) where
  -- What one configuration adds: nothing if it cannot be read or parsed. `source_prefixes` is the
  -- parser, with the prefixes of the configuration's sources.
  unfoldable pub entries_of : Text → Result Text Text → Entries
  entries_of slug (err e) = []
  entries_of slug (ok body) = elim (source_prefixes body) [
    | none ↦ []
    | some prefixes ↦ map (λ prefix. (prefix, slug)) prefixes
  ]

  unfoldable pub read_configs : List Text → Proc Entries
  read_configs [] = pure []
  read_configs (key ∷ keys) = elim (slug_of key) [
    | none ↦ read_configs keys
    | some slug ↦ do
      body ← get_bytes key
      rest ← read_configs keys
      pure (entries_of slug body ++ rest)
  ]

  unfoldable pub build_listed : Result (List Text) Text → Proc Entries
  build_listed (ok keys) = read_configs keys
  build_listed (err e) = pure []

  unfoldable pub build_routing : Bool → Proc Entries
  build_routing false = pure []
  build_routing true = do keys ← list_keys (bytes "pipelines/"); build_listed keys

  abbrev fresh : ℕ → Option ℕ → Bool
  fresh now none = false
  fresh now (some t) = ltb (now - t) routing_ttl

  -- The slugs, and the cache afterwards. `has_client` says whether there is a client of the store.
  unfoldable pub route_key : Bool → ℕ → RoutingCache → Text → Proc (List Text × RoutingCache)
  route_key has_client now cache key =
      if fresh now cache.built_at then pure (match_key cache.entries key, cache) else do
        entries ← build_routing has_client
        pure (match_key entries key, record { built_at = some now; entries = entries })
