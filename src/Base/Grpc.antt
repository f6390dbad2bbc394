-- ===== src/Base/Grpc.antt =====
-- The status codes of gRPC. A reply that crosses the network is a value or a status; the text of
-- a status is left out, since no code of the program reads it.
use mathlib.Core.Bool.{Bool, true, false}

pub data Code : Type 0 where
  canceled unknown invalid_argument deadline_exceeded not_found already_exists : Code
  resource_exhausted internal unavailable unauthenticated other_code : Code

-- `codes.Unavailable, codes.DeadlineExceeded, codes.Canceled`
abbrev pub is_outage : Code → Bool
is_outage unavailable = true
is_outage deadline_exceeded = true
is_outage canceled = true
is_outage _ = false
