-- ===== src/Config/Distinct.antt =====
-- A YAML mapping that is read has the keys and values of its nodes, and no key twice.
use openevent_modules_model.Base.{
  ◌≡◌, refl, sym, ap, ◌∙◌, subst, true, false, not, List, [], ◌∷◌, ok, ok-injective, >>=-ok,
  require-ok, arith,
}
use openevent_modules_model.Models.Value.{Value, Fields, done, field}
use openevent_modules_model.Config.Checks.{Checked, unhashable_key, duplicate_key}
use openevent_modules_model.Config.Mapping.{hashable, has_key, add_last, mapping}

-- No key of the mapping equals one of `seen` or one before it.
abbrev pub AreDistinct : Fields → Fields → Type 0
AreDistinct seen done = Unit
AreDistinct seen (field k v fs) = (has_key k seen ≡ false) × AreDistinct (add_last k v seen) fs

abbrev joined : Fields → Fields → Fields
joined done gs = gs
joined (field k v fs) gs = field k v (joined fs gs)

joined-done : (fs : Fields) → joined fs done ≡ fs
joined-done done = refl
joined-done (field k v fs) = ap (field k v) (joined-done fs)

joined-add_last :
    (k v : Value) (fs gs : Fields) → joined (add_last k v fs) gs ≡ joined fs (field k v gs)
joined-add_last k v done gs = refl
joined-add_last k v (field j w fs) gs = ap (field j w) (joined-add_last k v fs gs)

add_last-AreDistinct :
    (k v : Value) (seen fs : Fields)
    → AreDistinct seen fs
    → has_key k (joined seen fs) ≡ false
    → AreDistinct seen (add_last k v fs)
add_last-AreDistinct k v seen done h new = (rw (joined-done seen) at new, tt)
add_last-AreDistinct k v seen (field j w fs) (first, h) new = (
  first,
  add_last-AreDistinct k v (add_last j w seen) fs h (rw (joined-add_last j w seen fs) new),
)

module _ {ℓ} {Node : Type ℓ} (construct : Node → Checked Value) where
  -- The mapping has the constructed keys and values of the nodes, in their order.
  abbrev pub Reads : List (Node × Node) → Fields → Type 0
  Reads [] done = Unit
  Reads ((a, b) ∷ nodes) (field k v fs) =
      (construct a ≡ ok k) × (construct b ≡ ok v) × (hashable k ≡ true) × Reads nodes fs
  Reads _ _ = ⊥

  mapping-Reads_behind :
      (nodes : List (Node × Node)) (result : Fields) {fs : Fields}
      → mapping construct nodes result ≡ ok fs
      → AreDistinct done result
      → (gs : Fields) × (fs ≡ joined result gs) × Reads nodes gs × AreDistinct done fs
  unfolding mapping
  mapping-Reads_behind [] result h distinct = (
    done,
    sym (joined-done result ∙ ok-injective h),
    tt,
    subst (AreDistinct done) (ok-injective h) distinct,
  )
  mapping-Reads_behind ((a, b) ∷ nodes) result h distinct =
      let (k, key, h1) = >>=-ok (construct a) _ h in
      let (hashed, h2) = require-ok (hashable k) unhashable_key _ h1 in
      let (new, h3) = require-ok (not (has_key k result)) duplicate_key _ h2 in
      let (v, value, h4) = >>=-ok (construct b) _ h3 in
      let (gs, split, reads, all) =
        mapping-Reads_behind nodes (add_last k v result) h4
          (add_last-AreDistinct k v done result distinct (ground arith)) in
      (field k v gs, split ∙ joined-add_last k v result gs, (key, value, hashed, reads), all)

  -- A YAML mapping that is read has the constructed keys and values of its nodes in their order, its
  -- keys are hashable, and no key equals one before it: a duplicate never replaces a value.
  pub mapping-Reads :
      (nodes : List (Node × Node)) {fs : Fields}
      → mapping construct nodes done ≡ ok fs
      → Reads nodes fs × AreDistinct done fs
  mapping-Reads nodes h =
      let (gs, same, reads, all) = mapping-Reads_behind nodes done h tt in (rw same reads, all)
