-- ===== src/Api/Middleware/Limits.antt =====
-- search-services/api/adapters/rest/middleware/limits.go. The channel `sem` is the number of
-- requests that hold a slot of it; `Wait` of the rate limiter is a parameter.
use microservice_comics.Base.{ℕ, ℤ, pos, negsuc, Bool, ltb, is_nonpositive, if◌then◌else◌}
use microservice_comics.Api.Http.{Response, Body, json, bare}

abbrev pub service_unavailable : Response
service_unavailable = json (Body.text "service unavailable\n") 503

-- Whether `sem <- struct{}{}` goes through with `taken` slots in use.
unfoldable pub has_slot : (max taken : ℕ) → Bool
has_slot max taken = ltb taken max

abbrev slots : ℤ → ℕ
slots (pos n) = n
slots (negsuc n) = 0

-- A request that comes while `taken` others are in `next`.
unfoldable pub with_concurrency_limit : (max : ℤ) → (taken : ℕ) → Response → Response
unfolding has_slot
with_concurrency_limit max taken next =
    if is_nonpositive max
    then next
    else if has_slot (slots max) taken
    then next
    else service_unavailable

-- `waits` says whether `Wait` returned without an error. Nothing is written otherwise, and the
-- server completes the response.
unfoldable pub with_rate_limit : (rps : ℤ) → (waits : Bool) → Response → Response
with_rate_limit rps waits next =
    if is_nonpositive rps then next else if waits then next else bare 200
