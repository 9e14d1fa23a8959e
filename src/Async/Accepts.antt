-- ===== src/Async/Accepts.antt =====
-- What accept_t of include/io/socket/detail/async_operations.hpp makes of a connection: the synchronous
-- accept, `executor->push` of the handle, and the destructor of the handle it was moved from.
pub mod Outcomes
mod Examples
use async_berkeley.Base.{ℕ, Option, none, some, List, ℤ, get_elem?, if◌then◌else◌}
use async_berkeley.Socket.Handle.{Store, is_valid, destroy}
use async_berkeley.Socket.Sync.{
  Span, Outcome, returned, throws, undefined, blocked, Accept, Accepted, accept,
}
use async_berkeley.Executor.{Fcntl, Pushed, pushed, threw, invalid, destroying, push_handle}

-- A connection with the address of its handle, no connection, or an exception with its error number,
-- which the constructor of a handle does not name here. A function that is noexcept ends the process
-- by std::terminate instead. `waits` and `wrong` are those of the synchronous accept.
pub data Taken (W : Type 0) : Type 0 where
  taken : ℕ → Span → Store → W → Taken W
  refused : Store → W → Taken W
  thrown : Option ℤ → Store → W → Taken W
  terminated waits wrong : Taken W

-- `noexcept`
unfoldable pub no_except : {W : Type 0} → Taken W → Taken W
no_except (taken p prefix s w) = taken p prefix s w
no_except (refused s w) = refused s w
no_except (thrown e s w) = terminated
no_except terminated = terminated
no_except waits = waits
no_except wrong = wrong

module _ {W : Type 0} (F : Fcntl W) where
  -- executor->push(std::move(sock)), at the end of whose scope `sock` is destroyed.
  unfoldable pub push_accepted : Accepted → W → Taken W
  unfolding destroying push_handle
  push_accepted a w = elim (destroying a.socket (push_handle F a.socket a.store w)) [
    | pushed p s' w' ↦ taken p a.address s' w'
    | threw e s' w' ↦ thrown e s' w'
    | invalid ↦ wrong
  ]

  -- The test of `sock`.
  unfoldable pub take_accepted : Accepted → W → Taken W
  unfolding push_accepted is_valid destroy
  take_accepted a w = elim (get_elem? a.store.handles a.socket) [
    | none ↦ wrong
    | some h ↦
        if is_valid h
        then push_accepted a w
        else elim (destroy a.socket a.store) [ none ↦ wrong | some s' ↦ refused s' w ]
  ]

  -- The attempt at once, and the function that accepts later, which is noexcept.
  unfoldable pub accept_now : ℤ → ℤ → Span → List Accept → Store → W → Taken W
  unfolding take_accepted accept
  accept_now eintr valid address replies s w = elim (accept eintr valid address replies s) [
    | returned a ↦ take_accepted a w
    | throws ↦ thrown none s w
    | undefined ↦ wrong
    | blocked ↦ waits
  ]

  unfoldable pub accept_later : ℤ → ℤ → Span → List Accept → Store → W → Taken W
  unfolding accept_now no_except
  accept_later eintr valid address replies s w =
      no_except (accept_now eintr valid address replies s w)
