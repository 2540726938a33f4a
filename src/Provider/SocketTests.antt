-- ===== src/Provider/SocketTests.antt =====
-- A call that is cancelled while its task has created a socket.
use openevent_modules_model.Base.{◌≡◌, refl, true, none, [], ◌⊎◌}
use openevent_modules_model.Provider.Socket.{
  Connection, fresh, over, new_connection, create, install, swap, mem, Reach, start, next, cancels,
  aborts, creates, installs, finishes,
}
use openevent_modules_model.Provider.Closed.{Reach-aborted, Reach-closes}

abbrev created : Connection
created = create new_connection

abbrev cancelled : Connection
cancelled = record created { cancelled = true }

abbrev aborted : Connection
aborted = record (swap cancelled) { aborted = true }

abbrev refused : Connection
refused = install 0 aborted

abbrev finished : Connection
finished = record (swap refused) { task = over }

aborted-Reach : Reach aborted
unfolding create swap new_connection
aborted-Reach = next (next (next start (creates refl refl)) (cancels refl)) (aborts refl refl)

finished-Reach : Reach finished
unfolding create swap install new_connection
finished-Reach = next (next aborted-Reach (installs 0 refl refl)) (finishes refl refl)

aborted-state : (aborted.aborted ≡ true) × (mem 0 aborted.opened ≡ true)
unfolding create swap new_connection
aborted-state = (refl, refl)

finished-state : (finished.task ≡ over) × (finished.closing ≡ [])
unfolding create swap install new_connection
finished-state = (refl, refl)

aborted-closed :
    (aborted.socket ≡ none) × ((aborted.task ≡ fresh 0) ⊎ (mem 0 aborted.closing ≡ true))
aborted-closed = Reach-aborted aborted 0 aborted-Reach aborted-state.0 aborted-state.1

Reach-closes_example : finished.opened ≡ []
Reach-closes_example = Reach-closes finished finished-Reach finished-state.0 finished-state.1
