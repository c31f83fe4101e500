-- ===== src/Http/Routing/Table.antt =====
-- `match_key` of src/http.rs.
use karet_worker.Common.{
  ◌≡◌, ◌≢◌, ◌↔◌, ◌++◌, true, Bool-cases, inl, inr, refl, ◌∙◌, ap, ◌&&◌, ◌||◌, List, [], ◌∷◌, map,
  ◌==◌, text_eq, arith, any, retain, contains, any-retain,
}
use karet_worker.Common.Text.{Text, starts_with}
use karet_worker.Http.Routing.{Entries, insert_text, sort_texts, dedup, matches, match_key}

contains-insert_text :
    (k t : Text) (ts : List Text) → contains (insert_text t ts) k ≡ (k == t || contains ts k)
unfolding insert_text
contains-insert_text k t [] = refl
contains-insert_text k t (u ∷ us) = ground (arith, contains-insert_text k t us)

contains-sort_texts : (k : Text) (ts : List Text) → contains (sort_texts ts) k ≡ contains ts k
unfolding sort_texts
contains-sort_texts k [] = refl
contains-sort_texts k (t ∷ ts) =
    contains-insert_text k t (sort_texts ts) ∙ ap (λ b. k == t || b) (contains-sort_texts k ts)

contains-dedup : (k : Text) (ts : List Text) → contains (dedup ts) k ≡ contains ts k
unfolding dedup
contains-dedup k [] = refl
contains-dedup k (t ∷ []) = refl
contains-dedup k (t ∷ u ∷ us) = ground (arith, contains-dedup k (u ∷ us))

any-map : (k : Text) (es : Entries) → contains (map (λ e. e.1) es) k ≡ any (λ e. k == e.1) es
any-map k [] = refl
any-map k (e ∷ es) = ap (λ b. k == e.1 || b) (any-map k es)

contains_matching :
    (entries : Entries) (key slug : Text)
    → contains (match_key entries key) slug ≡ any (λ e. matches key e && slug == e.1) entries
unfolding match_key
contains_matching entries key slug =
    contains-dedup slug (sort_texts (map (λ e. e.1) (retain (matches key) entries)))
    ∙ (contains-sort_texts slug (map (λ e. e.1) (retain (matches key) entries))
        ∙ (any-map slug (retain (matches key) entries)
            ∙ any-retain (λ e. slug == e.1) (matches key) entries))

-- The reference: an entry of the pipeline with a prefix that is not empty and that the key starts
-- with.
abbrev pub Routed : Entries → Text → Text → Type 0
Routed entries key slug =
    (prefix : Text) × (rest : Text) × (any (λ (e : Text × Text). prefix == e.0 && slug == e.1)
        entries
      ≡ true)
    × (prefix ≢ [])
    × (key ≡ prefix ++ rest)

starts_with-append : (p r : Text) → starts_with (p ++ r) p ≡ true
unfolding starts_with
starts_with-append [] r = refl
starts_with-append (c ∷ p) r = ground (arith, starts_with-append p r)

rest_of : (key p : Text) → starts_with key p ≡ true → (r : Text) × (key ≡ p ++ r)
unfolding starts_with
rest_of key [] e = (key, refl)
rest_of [] (c ∷ p) e = absurd (ground (arith, e))
rest_of (k ∷ key) (c ∷ p) e =
    let (r, same) = rest_of key p (ground (arith, e)) in (r, ground (arith, e, same))

matched : (key p t : Text) → matches key (p, t) ≡ true → (p ≢ []) × ((r : Text) × (key ≡ p ++ r))
unfolding matches
matched key [] t e = absurd (ground (arith, e))
matched key (c ∷ p) t e = (ground arith, rest_of key (c ∷ p) (ground (arith, e)))

any_matching :
    (entries : Entries) (key slug : Text)
    → (any (λ e. matches key e && slug == e.1) entries ≡ true) ↔ Routed entries key slug
any_matching entries key slug =
    (forward entries, λ (p, r, found, filled, below). backward entries p r found filled below)
  where
    forward :
        (es : Entries) → any (λ e. matches key e && slug == e.1) es ≡ true → Routed es key slug
    forward [] e = absurd (ground (arith, e))
    forward ((p, t) ∷ es) e = elim (Bool-cases (matches key (p, t) && slug == t)) [
      | inl here ↦
          let (filled, (r, below)) = matched key p t (ground (arith, here)) in
          (p, r, ground (arith, here), filled, below)
      | inr other ↦
          let (q, r, found, filled, below) = forward es (ground (arith, e, other)) in
          (q, r, ground (arith, found), filled, below)
    ]

    backward :
        (es : Entries) (p r : Text)
        → any (λ (e : Text × Text). p == e.0 && slug == e.1) es ≡ true
        → p ≢ []
        → key ≡ p ++ r
        → any (λ e. matches key e && slug == e.1) es ≡ true
    backward [] p r found filled below = absurd (ground (arith, found))
    backward ((q, t) ∷ es) p r found filled below = elim (Bool-cases (p == q && slug == t)) [
      | inl here ↦
          let same : p ≡ q = ground (arith, here) in
          let yes : matches key (q, t) ≡ true =
            rw (← same) (unfold matches in ground (arith, filled, below, starts_with-append p r)) in
          ground (arith, here, yes)
      | inr other ↦
          ground (arith, other, found, backward es p r (ground (arith, found, other)) filled below)
    ]

-- A key is routed to a pipeline exactly when an entry of that pipeline in the table has a prefix that
-- is not empty and that the key starts with.
pub contains-match_key :
    (entries : Entries) (key slug : Text)
    → (contains (match_key entries key) slug ≡ true) ↔ Routed entries key slug
contains-match_key entries key slug =
    rw (contains_matching entries key slug) (any_matching entries key slug)
