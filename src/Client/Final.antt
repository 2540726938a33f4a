-- ===== src/Client/Final.antt =====
-- The shape of a queue that the delivery grammar derives: its terminal item stands last, and the
-- items before it are heads and appends.
use openevent_modules_model.Base.{
  ℕ, ◌≡◌, ◌≢◌, refl, sym, subst, Bool, true, false, ◌||◌, List, [], ◌∷◌, ◌++◌, All, All-append,
  arith,
}
use openevent_modules_model.Models.Payload.{ParsedMessage}
use openevent_modules_model.Subscription.State.{Item, message, protocol_fault}
use openevent_modules_model.Subscription.Delivery.{
  Phase, waiting, open_at, closed, Delivered, start, whole, head, append, finish, bodyless, early,
  broken, is_result, continues, is_append, is_terminal_kind,
}

-- An item that leaves the stream open, and one that ends it.
abbrev pub is_open : Item → Bool
is_open (message m) = is_append m.payload || is_result false m.payload
is_open (protocol_fault f m) = false

abbrev pub is_final : Item → Bool
is_final (message m) = is_terminal_kind m.payload || is_result true m.payload
is_final (protocol_fault f m) = true

abbrev pub AllOpen : List Item → Type 0
AllOpen = All (λ x. is_open x ≡ true)

-- A queue that ends with its one final item.
abbrev pub EndsFinal : List Item → Type 0
EndsFinal q =
    (xs : List Item) × (x : Item) × (q ≡ xs ++ (x ∷ [])) × AllOpen xs × (is_final x ≡ true)

abbrev Shape : List Item → Phase → Type 0
Shape q closed = EndsFinal q
Shape q _ = AllOpen q

Shape-AllOpen : (q : List Item) (p : Phase) → p ≢ closed → Shape q p → AllOpen q
Shape-AllOpen q waiting open_ s = s
Shape-AllOpen q (open_at n) open_ s = s
Shape-AllOpen q closed open_ s = absurd (open_ refl)

extended :
    (xs ys : List Item) (x : Item)
    → AllOpen xs
    → is_open x ≡ true
    → ys ≡ xs ++ (x ∷ [])
    → AllOpen ys
extended xs ys x quiet open_ e =
    subst AllOpen (sym e) (All-append (λ x. is_open x ≡ true) xs (x ∷ []) quiet (open_, tt))

append-is_open :
    (n : ℕ) (m : ParsedMessage) → continues n m.payload ≡ true → is_open (message m) ≡ true
append-is_open n m h = ground arith

Delivered-Shape :
    {streaming : Bool} {q : List Item} {p : Phase} → Delivered streaming q p → Shape q p
Delivered-Shape start = tt
Delivered-Shape (whole {xs} m d h e) = (xs, message m, e, Delivered-Shape d, ground (arith, h))
Delivered-Shape (head m d b h e) =
    extended _ _ (message m) (Delivered-Shape d) (ground (arith, h)) e
Delivered-Shape (append {n = n} m d b h e) =
    extended _ _ (message m) (Delivered-Shape d) (append-is_open n m h) e
Delivered-Shape (finish {xs} {p = p} m d open_ b h e) =
    (xs, message m, e, Shape-AllOpen xs p open_ (Delivered-Shape d), ground (arith, h))
Delivered-Shape (bodyless {xs} m d b h e) = (xs, protocol_fault _ m, e, Delivered-Shape d, refl)
Delivered-Shape (early {xs} m d b h e) = (xs, protocol_fault _ m, e, Delivered-Shape d, refl)
Delivered-Shape (broken {xs} m d b h c e) = (xs, protocol_fault _ m, e, Delivered-Shape d, refl)

pub Delivered-EndsFinal :
    {streaming : Bool} {q : List Item} → Delivered streaming q closed → EndsFinal q
Delivered-EndsFinal d = Delivered-Shape d
