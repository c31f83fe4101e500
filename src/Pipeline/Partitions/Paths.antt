-- ===== src/Pipeline/Partitions/Paths.antt =====
-- The object keys of `produce_partitions` in src/pipeline.rs.
use mathlib.Core.List.{append_cancel_left, append_cancel_right}
use karet_worker.Common.{
  ◌≡◌, refl, ap, sym, ◌∙◌, true, Option, some, List, [], ◌∷◌, ◌++◌, ◌==◌, nat_eq, ℕ_discrete,
  length, all, All, is_empty, arith, Bool-cases, inl, inr,
}
use karet_worker.Common.Int.{ℤ}
use karet_worker.Common.Result.{ok, ◌>>=◌, answer_of_bind}
use karet_worker.Common.Text.{Text, bytes, split_once, join}
use karet_worker.Config.Types.{Mapping, AnalyticTable}
use karet_worker.Pipeline.{Libraries}
use karet_worker.Pipeline.Segment.{segment_value}
use karet_worker.Pipeline.Segment.Laws.{no_slash, no_slash-segment_value}
use karet_worker.Pipeline.Partitions.{
  PartitionOutput, unpartitioned_key, segment, partition_key, group_segments, group_outputs,
  polars_failed, write_parquet_bytes, check_nulls, produce_partitions,
}

-- The text in front of the first slash.
pub split_once_slash :
    (a s : Text) → no_slash a ≡ true → split_once (a ++ (b'/' ∷ s)) b'/' ≡ some (a, s)
unfolding split_once nat_eq ℕ_discrete
split_once_slash [] s h = refl
split_once_slash (c ∷ a) s h = elim (Bool-cases (c == b'/')) [
  | inl slash ↦ absurd (ground (arith, slash, h))
  | inr other ↦ rw (split_once, other) (rw (split_once_slash a s (ground arith)) refl)
]

pub first_piece :
    (a b s t : Text)
    → no_slash a ≡ true
    → no_slash b ≡ true
    → a ++ (b'/' ∷ s) ≡ b ++ (b'/' ∷ t)
    → (a ≡ b) × (s ≡ t)
first_piece a b s t ha hb e =
    let same : ◌≡◌ {A = Option (Text × Text)} (some (a, s)) (some (b, t)) =
      sym (split_once_slash a s ha) ∙ ap (λ u. split_once u b'/') e ∙ split_once_slash b t hb in
    (ground (arith, same), ground (arith, same))

no_slash-append : (s t : Text) → no_slash s ≡ true → no_slash t ≡ true → no_slash (s ++ t) ≡ true
no_slash-append [] t hs ht = ht
no_slash-append (c ∷ s) t hs ht = ground (arith, no_slash-append s t)

no_slash-segment :
    (key value : Text)
    → no_slash key ≡ true
    → no_slash value ≡ true
    → no_slash (segment key value) ≡ true
unfolding segment bytes
no_slash-segment key value hk hv = no_slash-append key (b'=' ∷ value) hk (ground arith)

-- A path of as many segments has the same segments.
join_inj :
    (ss ts : List Text)
    → all no_slash ss ≡ true
    → all no_slash ts ≡ true
    → length ss ≡ length ts
    → join (bytes "/") ss ≡ join (bytes "/") ts
    → ss ≡ ts
unfolding join bytes
join_inj [] [] hs ht l e = refl
join_inj [] (t ∷ ts) hs ht l e = absurd (omega (arith, l))
join_inj (s ∷ ss) [] hs ht l e = absurd (omega (arith, l))
join_inj (s ∷ []) (t ∷ []) hs ht l e = ap (λ a. a ∷ []) e
join_inj (s ∷ []) (t ∷ u ∷ ts) hs ht l e = absurd (omega (arith, l))
join_inj (s ∷ r ∷ ss) (t ∷ []) hs ht l e = absurd (omega (arith, l))
join_inj (s ∷ r ∷ ss) (t ∷ u ∷ ts) hs ht l e =
    let (heads, tails) = first_piece s t _ _ (ground (arith, hs)) (ground (arith, ht)) e in
    let rest : r ∷ ss ≡ u ∷ ts =
      join_inj (r ∷ ss) (u ∷ ts) (ground (arith, hs)) (ground (arith, ht)) (omega (arith, l))
        tails in
    rw (heads, rest) refl

module _ {F : Type 0} (x : Libraries F)
    (clean : (days : ℤ) (t : Text) → x.iso_date days ≡ some t → no_slash t ≡ true) where
  -- The segments of a group: one for each key, and free of slashes if the names of the keys are.
  group_segments_clean :
      (group : x.polars.Frame) (keys : List Text) {ss : List Text}
      → all no_slash keys ≡ true
      → group_segments x group keys ≡ ok ss
      → (all no_slash ss ≡ true) × (length ss ≡ length keys)
  unfolding group_segments
  group_segments_clean group [] {ss} h e =
      let same : [] ≡ ss = ground (arith, e) in rw (← same) (refl, refl)
  group_segments_clean group (key ∷ keys) {ss} h e =
      let (av, got, e₁) =
        answer_of_bind (polars_failed x (x.polars.column group key >>= λ c. x.polars.get c 0)) _
          e in
      let (value, shown, e₂) = answer_of_bind (segment_value x.iso_date av) _ e₁ in
      let (rest, others, e₃) = answer_of_bind (group_segments x group keys) _ e₂ in
      let same : segment key value ∷ rest ≡ ss = ground (arith, e₃) in
      let (clean_rest, long) = group_segments_clean group keys (ground (arith, h)) others in
      let here : no_slash (segment key value) ≡ true =
        no_slash-segment key value (ground (arith, h))
          (no_slash-segment_value x.iso_date clean av shown) in
      rw (← same) (rw (here) clean_rest, omega (arith, long))

  -- Two groups whose objects get one key have the same values of the partition keys, as segments.
  -- Conditions: no slash in the names of the keys nor in the forms of dates.
  pub partition_key_inj :
      (table_id mapping_id : Text) (keys : List Text) (g h : x.polars.Frame) {ss ts : List Text}
      → all no_slash keys ≡ true
      → group_segments x g keys ≡ ok ss
      → group_segments x h keys ≡ ok ts
      → partition_key table_id ss mapping_id ≡ partition_key table_id ts mapping_id
      → ss ≡ ts
  unfolding partition_key
  partition_key_inj table_id mapping_id keys g h {ss} {ts} names eg eh e =
      let (clean_s, long_s) = group_segments_clean g keys names eg in
      let (clean_t, long_t) = group_segments_clean h keys names eh in
      join_inj ss ts clean_s clean_t (omega (arith, long_s, long_t)) (
        append_cancel_right (join (bytes "/") ss) (join (bytes "/") ts) _
          (append_cancel_left (bytes "/") _ _ (append_cancel_left table_id _ _ e)))

module _ {F : Type 0} (x : Libraries F) (mapping : Mapping F) (table : AnalyticTable F) where
  -- The object lies below the table.
  abbrev pub Below : PartitionOutput → Type 0
  Below p = (rest : Text) × (p.key ≡ table.id ++ (bytes "/" ++ rest))

  group_outputs-Below :
      (groups : List x.polars.Frame) {outs : List PartitionOutput}
      → group_outputs x mapping table groups ≡ ok outs
      → All Below outs
  unfolding group_outputs partition_key
  group_outputs-Below [] {outs} e = let same : [] ≡ outs = ground (arith, e) in rw (← same) tt
  group_outputs-Below (g ∷ groups) {outs} e =
      let (segments, e₀, e₁) = answer_of_bind (group_segments x g table.partition_keys) _ e in
      let (body, e₂, e₃) =
        answer_of_bind
          (polars_failed x (write_parquet_bytes x (x.polars.drop_many g table.partition_keys))) _
          e₁ in
      let (rest, others, e₄) = answer_of_bind (group_outputs x mapping table groups) _ e₃ in
      let same : record { key = partition_key table.id segments mapping.id; bytes = body } ∷ rest
          ≡ outs =
        ground (arith, e₄) in
      rw (← same) ((_, refl), group_outputs-Below groups others)

  -- Every object that a mapping produces for a table lies below the table, whatever the frame.
  pub produce_partitions-Below :
      (df : x.polars.Frame) {outs : List PartitionOutput}
      → produce_partitions x df mapping table ≡ ok outs
      → All Below outs
  unfolding produce_partitions unpartitioned_key
  produce_partitions-Below df {outs} e = elim (Bool-cases (is_empty table.partition_keys)) [
    | inl whole ↦
        let (body, e₁, e₂) =
          answer_of_bind (polars_failed x (write_parquet_bytes x df)) _ (rw whole at e) in
        let same : record { key = unpartitioned_key table.id mapping.id; bytes = body } ∷ []
            ≡ outs =
          ground (arith, e₂) in
        rw (← same) ((_, refl), tt)
    | inr split ↦
        let (checked, e₁, e₂) =
          answer_of_bind (check_nulls x df table.partition_keys) _ (rw split at e) in
        let (groups, e₃, e₄) =
          answer_of_bind (polars_failed x (x.polars.partition_by_stable df table.partition_keys)) _
            e₂ in
        group_outputs-Below groups e₄
  ]
