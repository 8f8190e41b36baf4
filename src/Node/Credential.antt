-- ===== src/Node/Credential.antt =====
-- `Credential` of src/pure_mls/tree.py.
use pure_mls.Prelude.{ℕ, Bytes, Result, ◌⊕◌}
use pure_mls.Wire.Reader.{Reader, ◌>>=◌, pure, read_whole}
use pure_mls.Wire.RoundTrip.{RoundTrips, bind-RoundTrips, map-RoundTrips}
use pure_mls.Wire.Steps.{Steps, bind-Steps, pure-Steps}
use pure_mls.Tls.Ints.{tls_u16, read_u16}
use pure_mls.Tls.Ints.RoundTrip.{tls_u16-RoundTrips}
use pure_mls.Tls.Ints.Steps.{read_u16-Steps}
use pure_mls.Tls.Opaque.{tls_opaque, read_opaque}
use pure_mls.Tls.Opaque.RoundTrip.{tls_opaque-RoundTrips}
use pure_mls.Tls.Opaque.Bounds.{read_opaque-Steps}

pub record Credential : Type 0 where
  pub identity : Bytes
  pub credential_type : ℕ

abbrev pub credential_type_basic : ℕ
credential_type_basic = 0x0001

abbrev pub basic : Bytes → Credential
basic who = record { identity = who; credential_type = credential_type_basic }

unfoldable pub to_bytes : Credential → Result Bytes
to_bytes c = tls_u16 c.credential_type ⊕ tls_opaque c.identity

unfoldable pub from_bytes_at : Reader Credential
unfolding ◌>>=◌ pure
from_bytes_at = do
  ctype ← read_u16
  who ← read_opaque
  pure (record { identity = who; credential_type = ctype })

unfoldable pub from_bytes : Bytes → Result Credential
from_bytes = read_whole from_bytes_at

-- A credential is read as it was written.
pub to_bytes-RoundTrips : (c : Credential) → RoundTrips from_bytes_at (to_bytes c) c
unfolding to_bytes from_bytes_at
to_bytes-RoundTrips c =
    bind-RoundTrips _ (tls_u16-RoundTrips c.credential_type)
      (map-RoundTrips _ (tls_opaque-RoundTrips c.identity))

pub from_bytes_at-Steps : Steps 3 from_bytes_at
unfolding from_bytes_at
from_bytes_at-Steps =
    bind-Steps 2 1 _ read_u16-Steps (λ t. bind-Steps 1 0 _ read_opaque-Steps (λ i. pure-Steps _))
