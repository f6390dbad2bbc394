-- ===== src/Api/Middleware/Slots.antt =====
-- Requests that overlap in `WithConcurrencyLimit` of
-- search-services/api/adapters/rest/middleware/limits.go, with a positive `max`.
use microservice_comics.Base.{
  ℕ, suc, ◌+◌, ◌-◌, ◌≤◌, List, [], ◌∷◌, ◌++◌, ◌≡◌, refl, ap, ◌∙◌, arith, if◌then◌else◌,
}
use microservice_comics.Api.Http.{Response}
use microservice_comics.Api.Middleware.Limits.{has_slot, service_unavailable}

-- Where a request stands: before the `select`, in `next.ServeHTTP`, or answered.
pub data Phase : Type 0 where
  arrived inside : Phase
  answered : Response → Phase

-- `sem` is the number of elements in the channel.
pub record Requests : Type 0 where
  pub sem : ℕ
  pub phases : List Phase

-- The `select` of a request that stands between `xs` and `ys`.
unfoldable pub ask : ℕ → ℕ → List Phase → List Phase → Requests
unfolding has_slot
ask max sem xs ys =
    if has_slot max sem
    then record { sem = sem + 1; phases = xs ++ inside ∷ ys }
    else record { sem = sem; phases = xs ++ answered service_unavailable ∷ ys }

-- `next.ServeHTTP` returns, and the deferred receive gives the slot back.
unfoldable pub finish : ℕ → Response → List Phase → List Phase → Requests
finish sem r xs ys = record { sem = sem - 1; phases = xs ++ answered r ∷ ys }

pub data RequestStep (max : ℕ) (s t : Requests) : Type 0 where
  asks :
      (xs ys : List Phase)
      → s.phases ≡ xs ++ arrived ∷ ys
      → t ≡ ask max s.sem xs ys
      → RequestStep max s t
  finishes :
      (r : Response) (xs ys : List Phase)
      → s.phases ≡ xs ++ inside ∷ ys
      → t ≡ finish s.sem r xs ys
      → RequestStep max s t
  comes : t ≡ record { sem = s.sem; phases = arrived ∷ s.phases } → RequestStep max s t

pub data RequestReach (max : ℕ) (s : Requests) : Requests → Type 0 where
  here : RequestReach max s s
  next : {t u : Requests} → RequestReach max s t → RequestStep max t u → RequestReach max s u

abbrev pub no_requests : Requests
no_requests = record { sem = 0; phases = [] }

abbrev is_inside : Phase → ℕ
is_inside inside = 1
is_inside _ = 0

-- The number of requests in `next`.
abbrev pub inside_count : List Phase → ℕ
inside_count [] = 0
inside_count (p ∷ ps) = is_inside p + inside_count ps

inside_count-append :
    (xs ys : List Phase) → inside_count (xs ++ ys) ≡ inside_count xs + inside_count ys
inside_count-append [] ys = omega arith
inside_count-append (x ∷ xs) ys = omega (arith, inside_count-append xs ys)

-- The channel holds an element for each request in `next`, and no more than its capacity.
abbrev IsCounted : ℕ → Requests → Type 0
IsCounted max s = (s.sem ≡ inside_count s.phases) × (s.sem ≤ max)

middle :
    (xs : List Phase) (p : Phase) (ys ps : List Phase)
    → ps ≡ xs ++ p ∷ ys
    → inside_count ps ≡ inside_count xs + (is_inside p + inside_count ys)
middle xs p ys ps e = ap inside_count e ∙ inside_count-append xs (p ∷ ys)

ask-IsCounted :
    (max sem : ℕ) (xs ys : List Phase)
    → sem ≡ inside_count xs + inside_count ys
    → sem ≤ max
    → IsCounted max (ask max sem xs ys)
unfolding ask
ask-IsCounted max sem xs ys h k = ground (
  arith,
  inside_count-append xs (inside ∷ ys),
  inside_count-append xs (answered service_unavailable ∷ ys),
)

step-IsCounted :
    (max : ℕ) (s t : Requests) → RequestStep max s t → IsCounted max s → IsCounted max t
unfolding finish
step-IsCounted max s t (asks xs ys at e) h =
    rw e (ask-IsCounted max s.sem xs ys (omega (arith, h.0, middle xs arrived ys s.phases at)) h.1)
step-IsCounted max s t (finishes r xs ys at e) h = rw e (
  omega (arith, h.0, middle xs inside ys s.phases at, inside_count-append xs (answered r ∷ ys)),
  omega (arith, h.1),
)
step-IsCounted max s t (comes e) h = rw e (omega (arith, h.0), h.1)

reach-IsCounted : (max : ℕ) (s : Requests) → RequestReach max no_requests s → IsCounted max s
reach-IsCounted max s here = (refl, omega arith)
reach-IsCounted max s (next {t} r st) = step-IsCounted max t s st (reach-IsCounted max t r)

-- However the requests overlap, at most `max` of them are in the handler behind the limit. The
-- next one gets a slot if fewer are, and is answered by 503 at once if `max` are.
pub slots_bound :
    (max : ℕ) (s : Requests) (xs ys : List Phase)
    → RequestReach max no_requests s
    → s.phases ≡ xs ++ arrived ∷ ys
    → (inside_count s.phases ≤ max)
      × (suc (inside_count s.phases) ≤ max → (ask max s.sem xs ys).phases ≡ xs ++ inside ∷ ys)
      × (inside_count s.phases ≡ max
          → (ask max s.sem xs ys).phases ≡ xs ++ answered service_unavailable ∷ ys)
unfolding ask
slots_bound max s xs ys r at = ground (arith, reach-IsCounted max s r)
