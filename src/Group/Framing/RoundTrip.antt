-- ===== src/Group/Framing/RoundTrip.antt =====
-- The wire forms of `FramedContent` and `FramedContentAuthData` of src/pure_mls/group.py.
use pure_mls.Prelude.{refl, value_error}
use pure_mls.Wire.RoundTrip.{RoundTrips, bind-RoundTrips, map-RoundTrips, require-RoundTrips}
use pure_mls.Tls.Ints.RoundTrip.{tls_u8-RoundTrips, tls_u32-RoundTrips, tls_u64-RoundTrips}
use pure_mls.Tls.Opaque.RoundTrip.{tls_opaque-RoundTrips, tls_opaque32-RoundTrips}
use pure_mls.Group.Framing.{
  FramedContent, to_bytes, read_content, FramedContentAuthData, auth_bytes, read_auth,
  sender_member, content_type_commit,
}

pub to_bytes-RoundTrips : (f : FramedContent) → RoundTrips read_content (to_bytes f) f
unfolding read_content to_bytes
to_bytes-RoundTrips f = bind-RoundTrips _ (tls_opaque-RoundTrips f.group_id) (
    bind-RoundTrips _ (tls_u64-RoundTrips f.epoch) (
      bind-RoundTrips _ (tls_u8-RoundTrips sender_member) (
        require-RoundTrips _ value_error refl (
          bind-RoundTrips _ (tls_u32-RoundTrips f.sender_leaf_index) (
            bind-RoundTrips _ (tls_opaque-RoundTrips f.authenticated_data) (
              bind-RoundTrips _ (tls_u8-RoundTrips content_type_commit) (
                require-RoundTrips _ value_error refl
                  (map-RoundTrips _ (tls_opaque32-RoundTrips f.content)))))))))

pub auth_bytes-RoundTrips : (a : FramedContentAuthData) → RoundTrips read_auth (auth_bytes a) a
unfolding read_auth auth_bytes
auth_bytes-RoundTrips a =
    bind-RoundTrips _ (tls_opaque-RoundTrips a.signature)
      (map-RoundTrips _ (tls_opaque-RoundTrips a.confirmation_tag))
