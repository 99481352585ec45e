-- ===== src/Manifest/Client.antt =====
-- A client that keeps the state of internal/manifest's `Verify`: it stores the state that `Verify`
-- returns, and on an error keeps the one that it has.
pub mod Verified
pub mod History
use virtual_cloud_help_servi.Prelude.{List, [], ◌∷◌, ok, err, Result}
use virtual_cloud_help_servi.Prelude.Text.{Text}
use virtual_cloud_help_servi.GoTime.{Instant}
use virtual_cloud_help_servi.Platform.{Platform}
use virtual_cloud_help_servi.Manifest.Types.{Document, Envelope, TrustedState}
use virtual_cloud_help_servi.Manifest.Fault.{Fault}
use virtual_cloud_help_servi.Manifest.Envelope.{verify}

abbrev pub kept : TrustedState → Result Fault (Document × TrustedState) → TrustedState
kept trusted (ok (document, next)) = next
kept trusted (err fault) = trusted

-- The client's state after a sequence of envelopes, each with the time of its arrival.
unfoldable pub client_run :
    Platform → Text → TrustedState → List (Envelope × Instant) → TrustedState
client_run p root trusted [] = trusted
client_run p root trusted ((envelope, now) ∷ rest) =
    client_run p root (kept trusted (verify p envelope root now trusted)) rest
