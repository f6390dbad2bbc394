-- ===== src/Tests/Life.antt =====
-- The theorems on the end of the gateway, after its public server could not listen.
use microservice_comics.Base.{◌<◌, ◌⊎◌, inl, inr, refl, ◌≢◌}
use microservice_comics.Api.Life.{
  failed, listening, returned, ended, selecting, Process, public_returns, launched, LifeReach, here,
  next,
}
use microservice_comics.Api.Life.Ends.{life_steps, GoesOn, HasEnded, gateway_ends}

abbrev no_port : Process
no_port = record launched { public_server = returned failed }

starts_busy : selecting ≢ ended
starts_busy h = cc h

fails : LifeReach launched no_port
fails = next here (public_returns failed starts_busy refl tt refl)

has_returned : returned failed ≢ listening
has_returned h = cc h

gateway_ends_example : HasEnded no_port ⊎ (GoesOn no_port × (life_steps fails < 8))
gateway_ends_example = gateway_ends no_port fails (inr (inl has_returned))
