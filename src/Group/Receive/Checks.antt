-- ===== src/Group/Receive/Checks.antt =====
-- The small checks of `process_update`, inverted: what holds where one of them gave a value.
use pure_mls.Prelude.{
  ◌≡◌, refl, sym, ap, Bool, true, false, Bytes, Option, none, some, Result, ok, err, Error,
  index_error, struct_error, overflow_error, type_error, runtime_error, key_error, assertion_error,
  invalid_tag, invalid_signature, out_of_fuel, ok-injective, err-ne-ok, value_error,
}
use pure_mls.Codecs.{same_bytes}
use pure_mls.Codecs.RoundTrip.{same_bytes-eq}
use pure_mls.Node.Leaf.{LeafNode}
use pure_mls.Tree.{Node, leaf, parent_node}
use pure_mls.Group.Receive.{leaf_or_value_error, check, signature_or_raise, check_tag}

pub check-true : (b : Bool) {u : Unit {0}} → check b ≡ ok u → b ≡ true
check-true true h = refl
check-true false h = absurd (err-ne-ok h)

pub check_tag-eq :
    (o : Option Bytes) (expected : Bytes) {u : Unit {0}}
    → check_tag o expected ≡ ok u
    → o ≡ some expected
check_tag-eq none expected h = absurd (err-ne-ok h)
check_tag-eq (some tag) expected h =
    ap some (sym (same_bytes-eq expected tag (check-true (same_bytes expected tag) h)))

pub leaf-eq : (n : Option Node) {l : LeafNode} → leaf_or_value_error n ≡ ok l → n ≡ some (leaf l)
leaf-eq none h = absurd (err-ne-ok h)
leaf-eq (some (leaf l)) h = ap (λ t. some (leaf t)) (ok-injective h)
leaf-eq (some (parent_node n)) h = absurd (err-ne-ok h)

pub signature_or_raise-eq : (r : Result Bytes) {b : Bytes} → signature_or_raise r ≡ ok b → r ≡ ok b
signature_or_raise-eq (ok a) h = h
signature_or_raise-eq (err e) h = absurd (raises e h)
  where
    raises : (e : Error) {b : Bytes} → ¬ (signature_or_raise {A = Bytes} (err e) ≡ ok b)
    raises index_error h = err-ne-ok h
    raises struct_error h = err-ne-ok h
    raises value_error h = err-ne-ok h
    raises overflow_error h = err-ne-ok h
    raises type_error h = err-ne-ok h
    raises runtime_error h = err-ne-ok h
    raises key_error h = err-ne-ok h
    raises assertion_error h = err-ne-ok h
    raises invalid_tag h = err-ne-ok h
    raises invalid_signature h = err-ne-ok h
    raises out_of_fuel h = err-ne-ok h
