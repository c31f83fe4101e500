-- ===== src/Http/Events/Guard.antt =====
-- `post_s3_events` of src/http.rs and the webhook's secret.
use mathlib.Core.Path.{subst}
use karet_worker.Common.{
  ℕ, ◌≡◌, ◌≢◌, refl, ap, ◌∙◌, true, false, ◌⊎◌, Option, none, some, [], ◌∷◌, ◌++◌, arith,
  Option-cases, Bool-cases, inl, inr, if◌then◌else◌, ◌==◌, nat_eq,
}
use karet_worker.Common.Text.{Text, bytes, strip_prefix}
use karet_worker.Http.Secret.{constant_time_eq}
use karet_worker.Http.Secret.Laws.{IsBytes, constant_time_eq_lem}
use karet_worker.Http.Events.{
  Server, AppState, Request, Parsers, Reply, refused, accepted, configured, provided, is_secret,
  raw_or_bearer, check_secret, post_s3_events,
}

abbrev pub status_of : Reply → Option ℕ
status_of (refused r) = some r.status
status_of (accepted n scheduled) = none

-- The secret stands in its own header or, where that is missing, in the authorization header, alone
-- or behind `Bearer `.
abbrev pub Brings : Request → Text → Type 0
Brings request secret =
    (request.secret_header ≡ some secret)
    ⊎ ((request.secret_header ≡ none)
        × ((request.authorization ≡ some secret)
            ⊎ (request.authorization ≡ some (bytes "Bearer " ++ secret))))

abbrev pub IsHeader : Option Text → Type 0
IsHeader none = Unit
IsHeader (some v) = IsBytes v

strip_prefix-append : (s p : Text) {t : Text} → strip_prefix s p ≡ some t → s ≡ p ++ t
unfolding strip_prefix
strip_prefix-append s [] e = ground (arith, e)
strip_prefix-append [] (c ∷ p) e = absurd (ground (arith, e))
strip_prefix-append (d ∷ s) (c ∷ p) {t} e = elim (Bool-cases (d == c)) [
  | inl same ↦ ground (arith, same, strip_prefix-append s p {t = t} (ground (arith, e, same)))
  | inr other ↦ absurd (ground (arith, e, other))
]

IsBytes-tail : (p t : Text) → IsBytes (p ++ t) → IsBytes t
IsBytes-tail [] t h = h
IsBytes-tail (c ∷ p) t h = IsBytes-tail p t h.1

module _ (expected : Text) (secret : IsBytes expected) where
  equal_secret : (v : Text) → IsBytes v → constant_time_eq v expected ≡ true → v ≡ expected
  equal_secret v h e = (constant_time_eq_lem v expected h secret).0 e

  by_authorization :
      (a : Option Text)
      → IsHeader a
      → is_secret (raw_or_bearer a) expected ≡ true
      → (a ≡ some expected) ⊎ (a ≡ some (bytes "Bearer " ++ expected))
  by_authorization none h e = absurd (ground (arith, e))
  by_authorization (some v) h e = elim (Option-cases (strip_prefix v (bytes "Bearer "))) [
    | inl raw ↦ inl (ap some (equal_secret v h (ground (arith, raw, e))))
    | inr (t, found) ↦
        let whole : v ≡ bytes "Bearer " ++ t = strip_prefix-append v (bytes "Bearer ") found in
        inr (
          ap some (
            whole
            ∙ ap (λ s. bytes "Bearer " ++ s)
                (equal_secret t (IsBytes-tail (bytes "Bearer ") t (subst IsBytes whole h))
                  (ground (arith, found, e)))))
  ]

  by_header :
      (h a : Option Text)
      → IsHeader h
      → IsHeader a
      → is_secret (elim h [ some s ↦ some s | none ↦ raw_or_bearer a ]) expected ≡ true
      → (h ≡ some expected)
        ⊎ ((h ≡ none) × ((a ≡ some expected) ⊎ (a ≡ some (bytes "Bearer " ++ expected))))
  by_header (some v) a hv ha e = inl (ap some (equal_secret v hv e))
  by_header none a hv ha e = inr (refl, by_authorization a ha e)

  not_brought :
      (request : Request)
      → IsHeader request.secret_header
      → IsHeader request.authorization
      → ¬ Brings request expected
      → is_secret (provided request) expected ≡ false
  not_brought request hv ha missing = elim (Bool-cases (is_secret (provided request) expected)) [
    | inl e ↦ absurd (missing (by_header request.secret_header request.authorization hv ha e))
    | inr e ↦ e
  ]

configured_filled : (o : Option Text) {e : Text} → configured o ≡ some e → (o ≡ some e) × (e ≢ [])
configured_filled none h = absurd (ground (arith, h))
configured_filled (some []) h = absurd (ground (arith, h))
configured_filled (some (c ∷ s)) h = ground (arith, h)

-- A request that does not bring the secret of the server is refused with status 401, or 503 without
-- a queue, and changes nothing; where the server has no secret, or an empty one, every request is.
-- Condition: the headers and the secret are texts of bytes.
pub post_s3_events_guarded :
    (parsers : Parsers) (state : AppState) (request : Request) (s : Server)
    → IsHeader state.webhook_secret
    → IsHeader request.secret_header
    → IsHeader request.authorization
    → ((expected : Text)
        → state.webhook_secret ≡ some expected
        → expected ≢ []
        → ¬ Brings request expected)
    → let (reply, s') = post_s3_events parsers state request s in
      (s' ≡ s) × (status_of reply ≡ some (if state.has_queue then 401 else 503))
unfolding post_s3_events check_secret
post_s3_events_guarded parsers state request s hs hv ha missing =
    elim (Option-cases (configured state.webhook_secret)) [
      | inl e ↦ ground (arith, e)
      | inr (expected, e) ↦
          let (set, filled) = configured_filled state.webhook_secret e in
          ground (
            arith,
            e,
            not_brought expected (subst IsHeader set hs) request hv ha
                (missing expected set filled),
          )
    ]
