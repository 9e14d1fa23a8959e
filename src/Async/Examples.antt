-- ===== src/Async/Examples.antt =====
-- Tests and examples of the asynchronous operations, on a system that consists of `errno`.
use async_berkeley.Base.{ℕ, ◌≡◌, refl, true, Option, none, some, [], pos, int_eq}
use async_berkeley.Poll.Interest.{read}
use async_berkeley.Poll.Mux.{Platform, Mux, World, set_error, is_failing}
use async_berkeley.Async.{next_counter, make_sender, submit}
use async_berkeley.Async.Eager.{eager_signal, Delivers, submit-Delivers}

abbrev platform : Platform ℕ
platform = record {
  would_block = pos 11;
  interrupted = pos 4;
  bad_file_descriptor = pos 9;
  not_a_socket = pos 88;
  max_size = 1000;
  errno = λ w. pos w;
  so_error = λ fd w. (pos 0, pos 0, w);
}

-- The error of an earlier operation, ECONNRESET, is on the handle.
abbrev stale : World ℕ ℕ
stale = record { native = λ k. pos 3; errors = λ k. pos 104; os = 0; signals = [] }

abbrev no_mux : Mux ℕ ℕ
no_mux = record { demux = []; list = [] }

-- Five bytes are received.
abbrev receive : ℕ → Option ℕ × ℕ
receive w = (some 5, w)

abbrev empty_functor : ℕ → Option ℕ × ℕ
empty_functor w = (none, 0)

-- The bytes are lost to the receiver 1.
stale_signal : eager_signal {R = ℕ} platform 1 (pos 104) 0 (some 5) ≡ some (set_error 1 (pos 104))
unfolding eager_signal is_failing int_eq
stale_signal = refl

submit-Delivers_example :
    Delivers platform
      (make_sender 1 2 read receive)
      (submit platform empty_functor true 1 2 read receive receive 7 stale)
      stale
      no_mux
      (eager_signal platform 1 (pos 104) 0 (some 5))
unfolding next_counter
submit-Delivers_example =
    submit-Delivers platform empty_functor 1 2 read receive receive 7 stale no_mux refl
