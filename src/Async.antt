-- ===== src/Async.antt =====
-- The asynchronous operations of include/io/socket/detail/async_operations.hpp. A sender is given with
-- the receiver that it will have. The operations on the socket are functions of the system's state, as
-- is a call of an empty functor, `null_call`.
pub mod Accepts
pub mod Dialogs
pub mod Eager
pub mod Examples
use async_berkeley.Base.{
  ℕ, ◌+◌, ◌%◌, ◌^◌, Bool, true, false, not, Option, none, some, List, [], ◌∷◌, ℤ, pos, int_eq, ◌==◌,
  if◌then◌else◌, ◌||◌,
}
use async_berkeley.Poll.Interest.{Trigger, read, write, eager}
use async_berkeley.Poll.Mux.{Platform, Op, World, with_error, is_failing}

-- `++fairness::counter()`, of a std::uint8_t.
unfoldable pub next_counter : ℕ → ℕ
next_counter counter = (counter + 1) % 2 ^ 8

-- What an operation returns, with the counter and the state after it.
pub record Submitted (W R : Type 0) : Type 0 where
  pub sender : Op W R
  pub counter : ℕ
  pub world : World W R

module _ {W R : Type 0} where
  -- executor->set
  unfoldable pub make_sender : ℕ → ℕ → Trigger → (W → Option R × W) → Op W R
  make_sender receiver socket trigger f = record {
    receiver = receiver;
    func = f;
    socket = socket;
    demux = none;
    trigger = trigger;
  }

module _ {W R : Type 0} (P : Platform W) (null_call : W → Option R × W) where
  -- What follows a failed attempt: set_error(errno), and the error read back.
  unfoldable pub after_failure :
      ℕ → ℕ → Trigger → (W → Option R × W) → ℕ → World W R → Submitted W R
  unfolding make_sender with_error is_failing
  after_failure receiver socket trigger f counter w =
      let w' = with_error socket (P.errno w.os) w in
      if is_failing P (w'.errors socket)
      then record {
        sender = make_sender receiver socket eager null_call;
        counter = counter;
        world = w';
      }
      else record { sender = make_sender receiver socket trigger f; counter = counter; world = w' }

  -- What accept_t, recvmsg_t and sendmsg_t have in common. They differ in the trigger, in `attempt`, the call of the
  -- synchronous operation, and in `f`, the function that makes it when the socket is ready. `tries` is
  -- Mux::is_eager_v.
  unfoldable pub submit :
      Bool
      → ℕ
      → ℕ
      → Trigger
      → (W → Option R × W)
      → (W → Option R × W)
      → ℕ
      → World W R
      → Submitted W R
  unfolding next_counter make_sender after_failure
  submit tries receiver socket trigger attempt f counter w =
      let later = make_sender receiver socket trigger f in
      let counter' = next_counter counter in
      if tries
      then (if counter' == 0
          then record { sender = later; counter = counter'; world = w }
          else let (result, os) = attempt w.os in
            let w' = record w { os = os } in
            elim result [
              | some v ↦ record {
                sender = make_sender receiver socket eager (λ os'. (some v, os'));
                counter = counter';
                world = w';
              }
              | none ↦ after_failure receiver socket trigger f counter' w'
            ])
      else record { sender = later; counter = counter; world = w }

  -- accept_t, whose function also makes the accepted socket non-blocking.
  unfoldable pub accept_async :
      Bool → ℕ → ℕ → (W → Option R × W) → (W → Option R × W) → ℕ → World W R → Submitted W R
  unfolding submit
  accept_async tries receiver socket attempt f = submit tries receiver socket read attempt f

  -- recvmsg_t, whose function later receives into a copy of the message's header.
  unfoldable pub recvmsg_async :
      Bool → ℕ → ℕ → (W → Option R × W) → (W → Option R × W) → ℕ → World W R → Submitted W R
  unfolding submit
  recvmsg_async tries receiver socket attempt f = submit tries receiver socket read attempt f

  -- sendmsg_t, which makes the same call now and later.
  unfoldable pub sendmsg_async : Bool → ℕ → ℕ → (W → Option R × W) → ℕ → World W R → Submitted W R
  unfolding submit
  sendmsg_async tries receiver socket call = submit tries receiver socket write call call

-- The errors of `connect` that handle_connect_error lets pass.
pub record Pending : Type 0 where
  pub in_progress : ℤ
  pub again : ℤ
  pub already : ℤ
  pub is_connected : ℤ

module _ {W R : Type 0} (P : Platform W) (E : Pending) where
  unfoldable pub handle_connect_error : ℕ → World W R → World W R
  unfolding with_error
  handle_connect_error socket w =
      let error = P.errno w.os in
      if int_eq error E.in_progress
        || int_eq error E.again
        || int_eq error E.already
        || int_eq error E.is_connected
      then w
      else with_error socket error w

  -- connect_t, with the synchronous call and the value 0 of the result.
  unfoldable pub connect_async : ℕ → ℕ → (W → ℤ × W) → R → World W R → Op W R × World W R
  unfolding make_sender handle_connect_error
  connect_async receiver socket call zero_result w =
      let (ret, os) = call w.os in
      let w' = record w { os = os } in
      (
        make_sender receiver socket write (λ os'. (some zero_result, os')),
        if int_eq ret (pos 0) then w' else handle_connect_error socket w',
      )
