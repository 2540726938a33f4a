-- ===== src/Provider/Socket.antt =====
-- The socket of a `ProviderCall` under every interleaving of its task with `abort`: `_install`,
-- `_close`, the loop of `_connect` and the TLS wrapper. A socket is its number; `opened` holds the
-- sockets that have a descriptor.
use openevent_modules_model.Base.{
  ℕ, suc, ◌==◌, ◌≡◌, Bool, true, false, Option, none, some, List, [], ◌∷◌, any, if◌then◌else◌,
}

-- Where the task stands: without a socket, with one that is not installed, with an installed one, past
-- an exception, or past its `finally`.
pub data Task : Type 0 where
  idle : Task
  fresh : ℕ → Task
  holding : ℕ → Task
  leaving : Task
  over : Task

pub record Connection : Type 0 where
  pub cancelled : Bool
  -- whether `abort` has passed the lock of its `_close`
  pub aborted : Bool
  pub socket : Option ℕ
  -- taken out of `_socket`, and not closed yet
  pub closing : List ℕ
  pub opened : List ℕ
  pub next : ℕ
  pub task : Task

abbrev pub mem : ℕ → List ℕ → Bool
mem i = any (λ j. j == i)

abbrev pub remove_socket : ℕ → List ℕ → List ℕ
remove_socket i [] = []
remove_socket i (j ∷ js) = let rest = remove_socket i js in if j == i then rest else j ∷ rest

abbrev pub taken : Option ℕ → List ℕ → List ℕ
taken none xs = xs
taken (some i) xs = i ∷ xs

-- The section of `_close` under the lock.
unfoldable pub swap : Connection → Connection
swap c = record c { socket = none; closing = taken c.socket c.closing }

-- What follows it, for one socket.
unfoldable pub close_socket : ℕ → Connection → Connection
close_socket i c = record c {
  closing = remove_socket i c.closing;
  opened = remove_socket i c.opened;
}

-- `socket.socket`
unfoldable pub create : Connection → Connection
create c = record c { opened = c.next ∷ c.opened; next = suc c.next; task = fresh c.next }

-- `wrap_socket`: the descriptor moves to the new socket.
unfoldable pub wrap : ℕ → Connection → Connection
wrap i c = record c {
  opened = c.next ∷ remove_socket i c.opened;
  next = suc c.next;
  task = fresh c.next;
}

-- `_install`, which raises where the call is cancelled
unfoldable pub install : ℕ → Connection → Connection
install i c =
    if c.cancelled
    then record c { opened = remove_socket i c.opened; task = leaving }
    else record c { socket = some i; task = holding i }

-- A task that may raise: it has no socket on hand that is not installed.
abbrev pub may_leave : Task → Bool
may_leave idle = true
may_leave (holding i) = true
may_leave leaving = true
may_leave _ = false

pub data Step (c d : Connection) : Type 0 where
  cancels : d ≡ record c { cancelled = true } → Step c d
  aborts : c.cancelled ≡ true → d ≡ record (swap c) { aborted = true } → Step c d
  closes : (i : ℕ) → mem i c.closing ≡ true → d ≡ close_socket i c → Step c d
  creates : c.task ≡ idle → d ≡ create c → Step c d
  installs : (i : ℕ) → c.task ≡ fresh i → d ≡ install i c → Step c d
  -- a connection attempt failed
  retries : (i : ℕ) → c.task ≡ holding i → d ≡ record (swap c) { task = idle } → Step c d
  wraps : (i : ℕ) → c.task ≡ holding i → mem i c.opened ≡ true → d ≡ wrap i c → Step c d
  -- the `finally`, behind an exception or the end of the response
  finishes : may_leave c.task ≡ true → d ≡ record (swap c) { task = over } → Step c d

unfoldable pub new_connection : Connection
new_connection = record {
  cancelled = false;
  aborted = false;
  socket = none;
  closing = [];
  opened = [];
  next = 0;
  task = idle;
}

pub data Reach : Connection → Type 0 where
  start : Reach new_connection
  next : {c d : Connection} → Reach c → Step c d → Reach d
