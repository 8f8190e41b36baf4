-- ===== src/Node/Parent/RoundTrip.antt =====
-- The wire form of `ParentNode` of src/pure_mls/tree.py.
use pure_mls.Prelude.{
  ℕ, ◌≡◌, refl, sym, ap, ap₂, ◌∙◌, ◌++◌, Bytes, List, [], ◌∷◌, ok, join, ⊕-eq-ok, ok-injective,
}
use pure_mls.Wire.RoundTrip.{RoundTrips, bind-RoundTrips, map_nested-RoundTrips}
use pure_mls.Wire.Steps.{Steps, bind-Steps, pure-Steps}
use pure_mls.Tls.Ints.{to_be, from_be, tls_u32, pack}
use pure_mls.Tls.Ints.Digits.{pack-eq-ok, from_be-to_be}
use pure_mls.Tls.Opaque.RoundTrip.{tls_opaque-RoundTrips}
use pure_mls.Tls.Opaque.Bounds.{read_opaque-Steps}
use pure_mls.Node.Parent.{ParentNode, to_bytes, from_bytes_at, u32_items, unmerged_leaves_bytes}

u32_items_four :
    (v : ℕ) (rest : Bytes) → u32_items (to_be 4 v ++ rest) ≡ from_be (to_be 4 v) ∷ u32_items rest
unfolding u32_items to_be
u32_items_four v rest = refl

u32_items-join :
    (vals : List ℕ) (body : Bytes) → join tls_u32 vals ≡ ok body → u32_items body ≡ vals
unfolding join tls_u32
u32_items-join [] body h = rw (← ok-injective h) (unfold u32_items in refl)
u32_items-join (v ∷ vals) body h =
    let (a, b, ha, hb, he) = ⊕-eq-ok (pack 4 v) (join tls_u32 vals) h in
    let (small, digits) = pack-eq-ok 4 v a ha in
    ap u32_items (he ∙ ap (λ t. t ++ b) (sym digits))
    ∙ u32_items_four v b
    ∙ ap₂ (λ x xs. x ∷ xs) (from_be-to_be 4 v small) (u32_items-join vals b hb)

pub to_bytes-RoundTrips : (n : ParentNode) → RoundTrips from_bytes_at (to_bytes n) n
unfolding from_bytes_at to_bytes
to_bytes-RoundTrips n = bind-RoundTrips _ (tls_opaque-RoundTrips n.public_key) (
    bind-RoundTrips _ (tls_opaque-RoundTrips n.parent_hash) (
      map_nested-RoundTrips (unmerged_leaves_bytes n) _ tls_opaque-RoundTrips
        (λ d h. ap (λ t. record n { unmerged_leaves = t }) (u32_items-join n.unmerged_leaves d h))))

pub from_bytes_at-Steps : Steps 3 from_bytes_at
unfolding from_bytes_at
from_bytes_at-Steps = bind-Steps 1 2 _ read_opaque-Steps (λ a.
    bind-Steps 1 1 _ read_opaque-Steps
      (λ b. bind-Steps 1 0 _ read_opaque-Steps (λ c. pure-Steps _)))
