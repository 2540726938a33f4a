-- ===== src/Provider/Closed.antt =====
-- No socket of a provider call is lost.
use openevent_modules_model.Base.{
  ℕ, ◌<◌, ◌==◌, ◌≡◌, refl, ◌⊎◌, inl, inr, sym, ap, subst, Bool-cases, Bool, true, false, not, ◌&&◌,
  ◌||◌, Option, none, some, List, [], ◌∷◌, arith, if-both,
}
use openevent_modules_model.Provider.Socket.{
  Task, idle, fresh, holding, leaving, over, Connection, mem, remove_socket, swap, close_socket,
  create, wrap, install, may_leave, Step, cancels, aborts, closes, creates, installs, retries,
  wraps, finishes, new_connection, Reach, start, next, taken,
}

mem-remove_socket :
    (i j : ℕ) (xs : List ℕ) → mem j (remove_socket i xs) ≡ (mem j xs && not (i == j))
mem-remove_socket i j [] = refl
mem-remove_socket i j (x ∷ xs) = ground (arith, mem-remove_socket i j xs)

abbrev is_at : ℕ → Option ℕ → Bool
is_at i none = false
is_at i (some j) = j == i

abbrev is_fresh : ℕ → Task → Bool
is_fresh i (fresh j) = j == i
is_fresh i _ = false

-- A task that has no installed socket which is opened, but for the one that it holds.
abbrev Holds : Task → Option ℕ → List ℕ → Type 0
Holds idle socket opened = socket ≡ none
Holds (fresh i) socket opened = (j : ℕ) → is_at j socket ≡ true → mem j opened ≡ false
Holds (holding i) socket opened = (j : ℕ) → is_at j socket ≡ true → (i == j) ≡ true
Holds leaving socket opened = Unit
Holds over socket opened = socket ≡ none

record IsOwned (c : Connection) : Type 0 where
  -- an opened socket is installed, or on its way to be installed or closed
  owned :
      (i : ℕ)
      → mem i c.opened ≡ true
      → is_at i c.socket || is_fresh i c.task || mem i c.closing ≡ true
  holds : Holds c.task c.socket c.opened
  known : (i : ℕ) → mem i c.opened || is_at i c.socket || is_fresh i c.task ≡ true → i < c.next
  gone : c.aborted ≡ true → (c.cancelled ≡ true) × (c.socket ≡ none)

new_connection-IsOwned : IsOwned new_connection
unfolding new_connection
new_connection-IsOwned = record {
  owned = λ i h. cc;
  holds = refl;
  known = λ i h. cc;
  gone = λ h. cc;
}

close_socket-Holds :
    (i : ℕ) (k : Task) (socket : Option ℕ) (opened : List ℕ)
    → Holds k socket opened
    → Holds k socket (remove_socket i opened)
close_socket-Holds i idle socket opened h = h
close_socket-Holds i (fresh n) socket opened h =
    λ j at. ground (arith, h j at, mem-remove_socket i j opened)
close_socket-Holds i (holding n) socket opened h = h
close_socket-Holds i leaving socket opened h = tt
close_socket-Holds i over socket opened h = h

close_socket-IsOwned : (i : ℕ) (c : Connection) → IsOwned c → IsOwned (close_socket i c)
unfolding close_socket
close_socket-IsOwned i c v = record {
  owned = λ j h.
      ground (arith, v.owned j, mem-remove_socket i j c.opened, mem-remove_socket i j c.closing);
  holds = close_socket-Holds i c.task c.socket c.opened v.holds;
  known = λ j h. ground (arith, v.known j, mem-remove_socket i j c.opened);
  gone = v.gone;
}

create-IsOwned : (c : Connection) → c.task ≡ idle → IsOwned c → IsOwned (create c)
unfolding create
create-IsOwned c free v =
    let empty : c.socket ≡ none = rw free at v.holds in
    record {
      owned = λ j h. ground (arith, v.owned j);
      holds = λ j at. ground (arith, empty);
      known = λ j h. ground (arith, v.known j);
      gone = v.gone;
    }

wrap-IsOwned : (i : ℕ) (c : Connection) → c.task ≡ holding i → IsOwned c → IsOwned (wrap i c)
unfolding wrap
wrap-IsOwned i c held v =
    let mine : Holds (holding i) c.socket c.opened = rw held at v.holds in
    record {
      owned = λ j h. ground (arith, v.owned j, held, mem-remove_socket i j c.opened);
      holds = λ j at. ground (arith, mine j at, v.known j, mem-remove_socket i j c.opened);
      known = λ j h. ground (arith, v.known j, mem-remove_socket i j c.opened);
      gone = v.gone;
    }

install-IsOwned : (i : ℕ) (c : Connection) → c.task ≡ fresh i → IsOwned c → IsOwned (install i c)
unfolding install
install-IsOwned i c new v =
    let other : Holds (fresh i) c.socket c.opened = rw new at v.holds in
    if-both IsOwned c.cancelled
      (λ h. record {
        owned = λ j h. ground (arith, v.owned j, new, mem-remove_socket i j c.opened);
        holds = tt;
        known = λ j h. ground (arith, v.known j, mem-remove_socket i j c.opened);
        gone = v.gone;
      })
      (λ live. record {
        owned = λ j h. ground (arith, v.owned j, new, other j);
        holds = λ j at. at;
        known = λ j h. ground (arith, v.known j, new);
        gone = λ h. absurd (ground (arith, live, v.gone h));
      })

mem-taken :
    (j : ℕ) (socket : Option ℕ) (xs : List ℕ)
    → mem j (taken socket xs) ≡ (is_at j socket || mem j xs)
mem-taken j none xs = refl
mem-taken j (some i) xs = refl

-- A task without a socket.
abbrev rests : Task → Bool
rests idle = true
rests over = true
rests _ = false

rests-Holds : (k : Task) (opened : List ℕ) → rests k ≡ true → Holds k none opened
rests-Holds idle opened h = refl
rests-Holds over opened h = refl
rests-Holds _ opened h = cc

emptied-Holds :
    (k : Task) (socket : Option ℕ) (opened : List ℕ) → Holds k socket opened → Holds k none opened
emptied-Holds idle socket opened h = refl
emptied-Holds (fresh i) socket opened h = λ j at. cc
emptied-Holds (holding i) socket opened h = λ j at. cc
emptied-Holds leaving socket opened h = tt
emptied-Holds over socket opened h = refl

-- Taking the socket out leaves it on its way to be closed.
swap-IsOwned :
    (c : Connection) (k : Task)
    → may_leave c.task ≡ true
    → rests k ≡ true
    → IsOwned c
    → IsOwned (record (swap c) { task = k })
unfolding swap
swap-IsOwned c k leaves rest v = record {
  owned = λ j h. ground (arith, v.owned j, leaves, mem-taken j c.socket c.closing);
  holds = rests-Holds k c.opened rest;
  known = λ j h. ground (arith, v.known j, rest);
  gone = λ h. ((v.gone h).0, refl);
}

abort-IsOwned :
    (c : Connection) → c.cancelled ≡ true → IsOwned c → IsOwned (record (swap c) { aborted = true })
unfolding swap
abort-IsOwned c cancelled v = record {
  owned = λ j h. ground (arith, v.owned j, mem-taken j c.socket c.closing);
  holds = emptied-Holds c.task c.socket c.opened v.holds;
  known = λ j h. ground (arith, v.known j);
  gone = λ h. (cancelled, refl);
}

cancel-IsOwned : (c : Connection) → IsOwned c → IsOwned (record c { cancelled = true })
cancel-IsOwned c v = record {
  owned = v.owned;
  holds = v.holds;
  known = v.known;
  gone = λ h. (refl, (v.gone h).1);
}

Step-IsOwned : (c d : Connection) → Step c d → IsOwned c → IsOwned d
Step-IsOwned c d (cancels new) v = subst IsOwned (sym new) (cancel-IsOwned c v)
Step-IsOwned c d (aborts h new) v = subst IsOwned (sym new) (abort-IsOwned c h v)
Step-IsOwned c d (closes i h new) v = subst IsOwned (sym new) (close_socket-IsOwned i c v)
Step-IsOwned c d (creates h new) v = subst IsOwned (sym new) (create-IsOwned c h v)
Step-IsOwned c d (installs i h new) v = subst IsOwned (sym new) (install-IsOwned i c h v)
Step-IsOwned c d (retries i h new) v =
    subst IsOwned (sym new) (swap-IsOwned c idle (ground (arith, h)) refl v)
Step-IsOwned c d (wraps i h live new) v = subst IsOwned (sym new) (wrap-IsOwned i c h v)
Step-IsOwned c d (finishes h new) v = subst IsOwned (sym new) (swap-IsOwned c over h refl v)

Reach-IsOwned : {c : Connection} → Reach c → IsOwned c
Reach-IsOwned start = new_connection-IsOwned
Reach-IsOwned (next {c} {d} reach step) = Step-IsOwned c d step (Reach-IsOwned reach)

none_opened : (xs : List ℕ) → ((i : ℕ) → mem i xs ≡ true → ⊥) → xs ≡ []
none_opened [] h = refl
none_opened (x ∷ xs) h = absurd (h x (ground arith))

is_fresh-task : (i : ℕ) (k : Task) → is_fresh i k ≡ true → k ≡ fresh i
is_fresh-task i (fresh j) h = ap fresh (ground (arith, h))
is_fresh-task i _ h = cc

-- Under every interleaving of a provider call with its cancellation: once `abort` has passed the lock
-- of its `_close` no socket is installed, and a socket that has a descriptor is one that the task has
-- just created, which `_install` refuses, or one that is being closed.
pub Reach-aborted :
    (c : Connection) (i : ℕ)
    → Reach c
    → c.aborted ≡ true
    → mem i c.opened ≡ true
    → (c.socket ≡ none) × ((c.task ≡ fresh i) ⊎ (mem i c.closing ≡ true))
Reach-aborted c i reach aborted live =
    let v = Reach-IsOwned reach in
    let (cancelled, empty) = v.gone aborted in
    (
      empty,
      elim (Bool-cases (is_fresh i c.task)) [
        | inl new ↦ inl (is_fresh-task i c.task new)
        | inr other ↦ inr (ground (arith, v.owned i live, empty, other))
      ],
    )

-- Under every interleaving of a provider call with its cancellation: when the task is past its
-- `finally` and no close is outstanding, every socket that the call has created is closed.
pub Reach-closes : (c : Connection) → Reach c → c.task ≡ over → c.closing ≡ [] → c.opened ≡ []
Reach-closes c reach finished quiet =
    let v = Reach-IsOwned reach in
    none_opened c.opened (λ i h.
      let empty : c.socket ≡ none = rw finished at v.holds in
      ground (arith, v.owned i h, empty, finished, quiet))
