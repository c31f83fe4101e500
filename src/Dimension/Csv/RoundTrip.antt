-- ===== src/Dimension/Csv/RoundTrip.antt =====
-- `split_csv_line` of src/dimension.rs on lines of quoted fields.
use mathlib.Core.List.{append-nil, append_assoc}
use karet_worker.Common.{
  ℕ, ℕ_discrete, Bool-cases, inl, inr, ◌≡◌, refl, sym, ◌∙◌, ap, true, false, List, [], ◌∷◌, ◌++◌,
  arith, ◌==◌, ==_iff, nat_eq, if◌then◌else◌,
}
use karet_worker.Common.Text.{Text}
use karet_worker.Dimension.Csv.{quote, comma, trim_cr, csv_fields, split_csv_line}

-- A field between quotes, its own quotes doubled.
unfoldable pub doubled : Text → Text
doubled [] = []
doubled (c ∷ s) = if c == quote then quote ∷ quote ∷ doubled s else c ∷ doubled s

unfoldable pub quoted : Text → Text
quoted s = quote ∷ (doubled s ++ (quote ∷ []))

-- The fields behind the first, each with its comma before it.
unfoldable pub quoted_rest : List Text → Text
quoted_rest [] = []
quoted_rest (f ∷ fs) = comma ∷ (quoted f ++ quoted_rest fs)

unfoldable pub quoted_line : Text → List Text → Text
quoted_line f fs = quoted f ++ quoted_rest fs

-- The last field loses the carriage returns at its end.
unfoldable pub trim_last : Text → List Text → List Text
trim_last f [] = trim_cr f ∷ []
trim_last f (g ∷ fs) = f ∷ trim_last g fs

-- The steps of the loop.
step_escaped :
    (field s : Text)
    → csv_fields true field (quote ∷ quote ∷ s) ≡ csv_fields true (field ++ (quote ∷ [])) s
unfolding csv_fields nat_eq ℕ_discrete
step_escaped field s = refl

step_plain :
    (c : ℕ) (field s : Text)
    → (c == quote) ≡ false
    → csv_fields true field (c ∷ s) ≡ csv_fields true (field ++ (c ∷ [])) s
unfolding csv_fields
step_plain c field [] n = ground (arith, n)
step_plain c field (d ∷ s) n = ground (arith, n)

step_open : (field s : Text) → csv_fields false field (quote ∷ s) ≡ csv_fields true field s
unfolding csv_fields nat_eq ℕ_discrete
step_open field [] = refl
step_open field (d ∷ s) = refl

step_comma : (field s : Text) → csv_fields false field (comma ∷ s) ≡ field ∷ csv_fields false [] s
unfolding csv_fields nat_eq ℕ_discrete
step_comma field [] = refl
step_comma field (d ∷ s) = refl

step_close :
    (field : Text) (fs : List Text)
    → csv_fields true field (quote ∷ quoted_rest fs) ≡ csv_fields false field (quoted_rest fs)
unfolding csv_fields quoted_rest nat_eq ℕ_discrete
step_close field [] = refl
step_close field (f ∷ fs) = refl

-- Inside quotes, the doubled text goes to the field, and the quote behind it closes.
inside :
    (field s : Text) (fs : List Text)
    → csv_fields true field (doubled s ++ (quote ∷ quoted_rest fs))
      ≡ csv_fields false (field ++ s) (quoted_rest fs)
unfolding doubled
inside field [] fs = rw (append-nil field) (step_close field fs)
inside field (c ∷ s) fs = elim (Bool-cases (c == quote)) [
  | inl e ↦
      rw (e, step_escaped field (doubled s ++ (quote ∷ quoted_rest fs)))
        (inside (field ++ (quote ∷ [])) s fs
          ∙ ap (λ t. csv_fields false t (quoted_rest fs))
              (append_assoc field (quote ∷ []) s
                ∙ ap (λ q. field ++ (q ∷ s)) (sym ((==_iff c quote).0 e))))
  | inr n ↦
      rw (n, step_plain c field (doubled s ++ (quote ∷ quoted_rest fs)) n)
        (inside (field ++ (c ∷ [])) s fs
          ∙ ap (λ t. csv_fields false t (quoted_rest fs)) (append_assoc field (c ∷ []) s))
]

-- A field at the start of what is left, and then the rest.
step_field :
    (f : Text) (fs : List Text)
    → csv_fields false [] (quoted f ++ quoted_rest fs) ≡ csv_fields false f (quoted_rest fs)
unfolding quoted
step_field f fs =
    rw
      (
        append_assoc (doubled f) (quote ∷ []) (quoted_rest fs),
        step_open [] (doubled f ++ (quote ∷ quoted_rest fs)),
      )
      (inside [] f fs)

-- Behind a field: the end, or a comma.
step_last : (f : Text) → csv_fields false f (quoted_rest []) ≡ trim_cr f ∷ []
unfolding quoted_rest csv_fields
step_last f = refl

step_next :
    (f g : Text) (gs : List Text)
    → csv_fields false f (quoted_rest (g ∷ gs))
      ≡ f ∷ csv_fields false [] (quoted g ++ quoted_rest gs)
unfolding quoted_rest
step_next f g gs = step_comma f (quoted g ++ quoted_rest gs)

-- Splitting a line of quoted fields gives the fields back, whatever characters they hold, except
-- that the last field loses the carriage returns at its end.
pub split_csv_line-quoted_line :
    (f : Text) (fs : List Text) → split_csv_line (quoted_line f fs) ≡ trim_last f fs
unfolding split_csv_line quoted_line trim_last
split_csv_line-quoted_line f [] = step_field f [] ∙ step_last f
split_csv_line-quoted_line f (g ∷ gs) =
    step_field f (g ∷ gs) ∙ (step_next f g gs ∙ ap (λ t. f ∷ t) (split_csv_line-quoted_line g gs))
