-- ===== src/Socket/Handle/Threads.antt =====
-- `swap` and `set_error` of include/io/socket/impl/socket_handle_impl.hpp as several threads run them
-- on the same handles, one access of an atomic or of a mutex at a time. The atomics are relaxed; each
-- access is taken as one step, and the steps of the threads come in one order.
pub mod Invariant
pub mod Steps
pub mod Swaps
pub mod Errors
pub mod Examples
use async_berkeley.Base.{
  ℕ, ◌≡◌, Bool, true, false, ◌||◌, Option, none, some, List, [], ◌∷◌, ℤ, ◌==◌, if◌then◌else◌,
}

abbrev pub update : {A : Type 0} → (ℕ → A) → ℕ → A → ℕ → A
update f i a j = if j == i then a else f j

-- `socket_`, `error_` and `mtx_` of the handle at each address.
pub record Memory : Type 0 where
  pub sockets : ℕ → ℤ
  pub errors : ℕ → ℤ
  pub locked : ℕ → Bool

-- Where a thread stands in `swap`, with the addresses `lhs` and `rhs` and the local value.
pub data Pc : Type 0 where
  idle : Pc
  locked_both : ℕ → ℕ → Pc
  loaded_socket : ℕ → ℕ → ℤ → Pc  -- after `rhs.load` in the first `swap_atomic`
  exchanged_socket : ℕ → ℕ → ℤ → Pc  -- with `tmp`
  stored_socket : ℕ → ℕ → Pc
  loaded_error : ℕ → ℕ → ℤ → Pc  -- after `rhs.load` in the second one
  exchanged_error : ℕ → ℕ → ℤ → Pc
  stored_error : ℕ → ℕ → Pc  -- before the destructor of the lock

pub data Call : Type 0 where
  swap : ℕ → ℕ → Call
  set_error : ℕ → ℤ → Call

-- The first step of a call. std::scoped_lock takes both mutexes in one step. A thread that asks for
-- a mutex that is locked waits: `none`.
unfoldable pub begin : Call → Memory → Option (Memory × Pc)
begin (swap i j) m =
    if i == j
    then some (m, idle)
    else if m.locked i || m.locked j
    then none
    else some (record m { locked = update (update m.locked i true) j true }, locked_both i j)
begin (set_error i e) m = some (record m { errors = update m.errors i e }, idle)

-- The next step of a call; an idle thread has none.
unfoldable pub go_on : Memory → Pc → Memory × Pc
go_on m idle = (m, idle)
go_on m (locked_both i j) = (m, loaded_socket i j (m.sockets j))
go_on m (loaded_socket i j a) =
    (record m { sockets = update m.sockets i a }, exchanged_socket i j (m.sockets i))
go_on m (exchanged_socket i j tmp) =
    (record m { sockets = update m.sockets j tmp }, stored_socket i j)
go_on m (stored_socket i j) = (m, loaded_error i j (m.errors j))
go_on m (loaded_error i j a) =
    (record m { errors = update m.errors i a }, exchanged_error i j (m.errors i))
go_on m (exchanged_error i j tmp) = (record m { errors = update m.errors j tmp }, stored_error i j)
go_on m (stored_error i j) = (record m { locked = update (update m.locked i false) j false }, idle)

pub record System : Type 0 where
  pub mem : Memory
  pub pc : ℕ → Pc

-- What a thread does next: it calls a function, or goes on with the call it is in.
pub data Action : Type 0 where
  calls : ℕ → Call → Action
  runs : ℕ → Action

abbrev pub is_idle : Pc → Bool
is_idle idle = true
is_idle _ = false

abbrev pub resume : System → ℕ → Memory × Pc → System
resume s t (m, p) = record { mem = m; pc = update s.pc t p }

unfoldable pub perform : Action → System → Option System
unfolding begin go_on
perform (calls t c) s =
    if is_idle (s.pc t)
    then elim (begin c s.mem) [ none ↦ none | some next ↦ some (resume s t next) ]
    else none
perform (runs t) s = some (resume s t (go_on s.mem (s.pc t)))

-- The actions of all threads, in the order in which they happen; none where one is not possible.
unfoldable pub interleave : List Action → System → Option System
unfolding perform
interleave [] s = some s
interleave (a ∷ actions) s = elim (perform a s) [ none ↦ none | some s' ↦ interleave actions s' ]

-- All mutexes are free at the start, and every thread is idle.
abbrev pub init : (ℕ → ℤ) → (ℕ → ℤ) → System
init sockets errors = record {
  mem = record { sockets = sockets; errors = errors; locked = λ i. false };
  pc = λ t. idle;
}
