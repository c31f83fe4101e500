-- ===== src/JsonSource/Paths.antt =====
-- `compile_path` of src/json_source.rs and the paths that steps are written as.
use karet_worker.Common.{
  ℕ, ◌≡◌, ap, sym, ◌∙◌, ◌^◌, Bool, true, false, ◌&&◌, not, none, some, List, [], ◌∷◌, ◌++◌, ◌==◌,
  nat_eq, ltb, ltb→lt, all, is_empty, arith,
}
use karet_worker.Common.Result.{ok}
use karet_worker.Common.Text.{Text, is_digit, to_string, parse_u64}
use karet_worker.Common.Text.Parse.{all-to_string, parse_u64-to_string}
use karet_worker.JsonSource.{Step, key, index, push_key, end_of_path, path_steps, compile_path}
use mathlib.Core.List.{append_assoc, append-nil}

abbrev pub plain : ℕ → Bool
plain c = not (c == b'.') && not (c == b'[')

-- A key that a path can name, and an index that fits a `usize`.
abbrev pub printable : Step → Bool
printable (key k) = not (is_empty k) && all plain k
printable (index i) = ltb i (2 ^ 64)

unfoldable pub print_rest : List Step → Text
print_rest [] = []
print_rest (key k ∷ steps) = b'.' ∷ (k ++ print_rest steps)
print_rest (index i ∷ steps) = b'[' ∷ (to_string i ++ (b']' ∷ print_rest steps))

-- `a.b[0].c`
unfoldable pub print_path : List Step → Text
print_path [] = []
print_path (key k ∷ steps) = k ++ print_rest steps
print_path (index i ∷ steps) = print_rest (index i ∷ steps)

module _ (path : Text) (steps : List Step) (cur : Text) where
  path_steps-plain :
      (c : ℕ) (s : Text)
      → plain c ≡ true
      → path_steps path none steps cur (c ∷ s) ≡ path_steps path none steps (cur ++ (c ∷ [])) s
  unfolding path_steps
  path_steps-plain c s h = ground arith

  path_steps_dot :
      (s : Text)
      → path_steps path none steps cur (b'.' ∷ s) ≡ path_steps path none (push_key cur steps) [] s
  unfolding path_steps
  path_steps_dot s = ground arith

  path_steps_open :
      (s : Text)
      → path_steps path none steps cur (b'[' ∷ s)
        ≡ path_steps path (some []) (push_key cur steps) [] s
  unfolding path_steps
  path_steps_open s = ground arith

  path_steps_digit :
      (ds : Text) (c : ℕ) (s : Text)
      → is_digit c ≡ true
      → path_steps path (some ds) steps cur (c ∷ s)
        ≡ path_steps path (some (ds ++ (c ∷ []))) steps cur s
  unfolding path_steps
  path_steps_digit ds c s h = ground arith

  path_steps_close :
      (ds s : Text) {i : ℕ}
      → parse_u64 ds ≡ some i
      → path_steps path (some ds) steps cur (b']' ∷ s)
        ≡ path_steps path none (steps ++ (index i ∷ [])) cur s
  unfolding path_steps
  path_steps_close ds s h = ground arith

path_steps_key :
    (path : Text) (steps : List Step) (cur k s : Text)
    → all plain k ≡ true
    → path_steps path none steps cur (k ++ s) ≡ path_steps path none steps (cur ++ k) s
path_steps_key path steps cur [] s h =
    ap (λ t. path_steps path none steps t s) (sym (append-nil cur))
path_steps_key path steps cur (c ∷ k) s h =
    let here : plain c ≡ true = ground (arith, h) in
    let rest : all plain k ≡ true = ground (arith, h) in
    path_steps-plain path steps cur c (k ++ s) here
    ∙ path_steps_key path steps (cur ++ (c ∷ [])) k s rest
    ∙ ap (λ t. path_steps path none steps t s) (append_assoc cur (c ∷ []) k)

path_steps_digits :
    (path : Text) (steps : List Step) (cur ds d s : Text)
    → all is_digit d ≡ true
    → path_steps path (some ds) steps cur (d ++ s) ≡ path_steps path (some (ds ++ d)) steps cur s
path_steps_digits path steps cur ds [] s h =
    ap (λ t. path_steps path (some t) steps cur s) (sym (append-nil ds))
path_steps_digits path steps cur ds (c ∷ d) s h =
    let here : is_digit c ≡ true = ground (arith, h) in
    let rest : all is_digit d ≡ true = ground (arith, h) in
    path_steps_digit path steps cur ds c (d ++ s) here
    ∙ path_steps_digits path steps cur (ds ++ (c ∷ [])) d s rest
    ∙ ap (λ t. path_steps path (some t) steps cur s) (append_assoc ds (c ∷ []) d)

path_steps_index :
    (path : Text) (steps : List Step) (cur s : Text) (i : ℕ)
    → ltb i (2 ^ 64) ≡ true
    → path_steps path none steps cur (b'[' ∷ (to_string i ++ (b']' ∷ s)))
      ≡ path_steps path none (push_key cur steps ++ (index i ∷ [])) [] s
path_steps_index path steps cur s i h =
    path_steps_open path steps cur (to_string i ++ (b']' ∷ s))
    ∙ path_steps_digits path (push_key cur steps) [] [] (to_string i) (b']' ∷ s) (all-to_string i)
    ∙ path_steps_close path (push_key cur steps) [] (to_string i) s
        (parse_u64-to_string i (ltb→lt i (2 ^ 64) h))

push_key_append :
    (k : Text) (steps rest : List Step)
    → is_empty k ≡ false
    → push_key k steps ++ rest ≡ steps ++ (key k ∷ rest)
push_key_append k steps rest h = rw h (append_assoc steps (key k ∷ []) rest)

path_steps_rest :
    (path : Text) (steps : List Step) (cur : Text) (rest : List Step)
    → all printable rest ≡ true
    → path_steps path none steps cur (print_rest rest)
      ≡ end_of_path path (push_key cur steps ++ rest)
unfolding print_rest path_steps
path_steps_rest path steps cur [] h = sym (ap (end_of_path path) (append-nil (push_key cur steps)))
path_steps_rest path steps cur (key k ∷ rest) h =
    let named : is_empty k ≡ false = ground (arith, h) in
    let clean : all plain k ≡ true = ground (arith, h) in
    let others : all printable rest ≡ true = ground (arith, h) in
    path_steps_dot path steps cur (k ++ print_rest rest)
    ∙ path_steps_key path (push_key cur steps) [] k (print_rest rest) clean
    ∙ path_steps_rest path (push_key cur steps) k rest others
    ∙ ap (end_of_path path) (push_key_append k (push_key cur steps) rest named)
path_steps_rest path steps cur (index i ∷ rest) h =
    let small : ltb i (2 ^ 64) ≡ true = ground (arith, h) in
    let others : all printable rest ≡ true = ground (arith, h) in
    path_steps_index path steps cur (print_rest rest) i small
    ∙ path_steps_rest path (push_key cur steps ++ (index i ∷ [])) [] rest others
    ∙ ap (end_of_path path) (append_assoc (push_key cur steps) (index i ∷ []) rest)

-- Steps with keys that a path can name are compiled back from the path that they are written as.
pub compile_path-print_path :
    (step : Step) (steps : List Step)
    → all printable (step ∷ steps) ≡ true
    → compile_path (print_path (step ∷ steps)) ≡ ok (step ∷ steps)
unfolding compile_path print_path
compile_path-print_path (key k) steps h =
    let named : is_empty k ≡ false = ground (arith, h) in
    let clean : all plain k ≡ true = ground (arith, h) in
    let others : all printable steps ≡ true = ground (arith, h) in
    path_steps_key (k ++ print_rest steps) [] [] k (print_rest steps) clean
    ∙ path_steps_rest (k ++ print_rest steps) [] k steps others
    ∙ ap (end_of_path (k ++ print_rest steps)) (push_key_append k [] steps named)
compile_path-print_path (index i) steps h =
    path_steps_rest (print_rest (index i ∷ steps)) [] [] (index i ∷ steps) h
