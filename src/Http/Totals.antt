-- ===== src/Http/Totals.antt =====
-- The values of the two HTTP metrics after some events: the counter of a path over all statuses,
-- and the number of durations observed for the path.
use mathlib.Core.List.{map-append}
use ai_gateway_monitor.Common.{
  ℕ, ◌+◌, ◌≡◌, ◌≢◌, refl, sym, ap, ◌∙◌, String, List, [], ◌∷◌, ◌++◌, map, str_eq, if◌then◌else◌,
  arith,
}
use ai_gateway_monitor.Http.{Event, count_request, observe_http}
use ai_gateway_monitor.Http.Counting.{counted, http_timings}

abbrev pub occurrences : String → List String → ℕ
occurrences x [] = 0
occurrences x (y ∷ ys) = (if str_eq x y then 1 else 0) + occurrences x ys

-- http_requests_total, summed over the statuses.
abbrev pub requests_total : String → List Event → ℕ
requests_total path t = occurrences path (map (λ entry. entry.0) (counted t))

-- http_request_duration_seconds_count
abbrev pub duration_count : String → List Event → ℕ
duration_count path t = occurrences path (http_timings t)

occurrences-append :
    (x : String) (ys zs : List String)
    → occurrences x (ys ++ zs) ≡ occurrences x ys + occurrences x zs
occurrences-append x [] zs = omega arith
occurrences-append x (y ∷ ys) zs = omega (arith, occurrences-append x ys zs)

counted-append : (t u : List Event) → counted (t ++ u) ≡ counted t ++ counted u
counted-append [] u = refl
counted-append (count_request p s ∷ t) u = ap (λ x. (p, s) ∷ x) (counted-append t u)
counted-append (_ ∷ t) u = counted-append t u

http_timings-append : (t u : List Event) → http_timings (t ++ u) ≡ http_timings t ++ http_timings u
http_timings-append [] u = refl
http_timings-append (observe_http p ∷ t) u = ap (λ x. p ∷ x) (http_timings-append t u)
http_timings-append (_ ∷ t) u = http_timings-append t u

pub requests_total-append :
    (path : String) (t u : List Event)
    → requests_total path (t ++ u) ≡ requests_total path t + requests_total path u
requests_total-append path t u =
    ap (λ x. occurrences path (map (λ entry. entry.0) x)) (counted-append t u)
    ∙ ap (occurrences path) (map-append _ (counted t) (counted u))
    ∙ occurrences-append path _ _

pub duration_count-append :
    (path : String) (t u : List Event)
    → duration_count path (t ++ u) ≡ duration_count path t + duration_count path u
duration_count-append path t u =
    ap (occurrences path) (http_timings-append t u) ∙ occurrences-append path _ _

-- Nothing follows the observation of a duration.
abbrev pub TimesLast : List Event → Type 0
TimesLast [] = Unit
TimesLast (observe_http _ ∷ rest) = rest ≡ []
TimesLast (_ ∷ rest) = TimesLast rest

pub untimed-TimesLast : (t : List Event) → http_timings t ≡ [] → TimesLast t
untimed-TimesLast [] h = tt
untimed-TimesLast (observe_http p ∷ t) h = cc
untimed-TimesLast (_ ∷ t) h = untimed-TimesLast t h

snoc-ne-nil : (xs : List String) (x : String) → xs ++ x ∷ [] ≢ []
snoc-ne-nil [] x h = cc
snoc-ne-nil (y ∷ ys) x h = cc

tail_nil : (xs : List String) {x y : String} → x ∷ xs ≡ y ∷ [] → xs ≡ []
tail_nil xs h = cc

pub deferred-TimesLast :
    (t : List Event) (path : String)
    → http_timings (t ++ observe_http path ∷ []) ≡ path ∷ []
    → TimesLast (t ++ observe_http path ∷ [])
deferred-TimesLast [] path h = refl
deferred-TimesLast (observe_http p ∷ t) path h = absurd (
    snoc-ne-nil (http_timings t) path
      (sym (http_timings-append t (observe_http path ∷ [])) ∙ tail_nil _ h))
deferred-TimesLast (_ ∷ t) path h = deferred-TimesLast t path h
