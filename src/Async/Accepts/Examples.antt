-- ===== src/Async/Accepts/Examples.antt =====
-- A connection that is accepted after an interrupt, on the kernel of Executor.Examples.
use async_berkeley.Base.{◌≡◌, refl, [], ◌∷◌, ◌++◌, pos, negsuc, int_eq, arith}
use async_berkeley.Socket.Sync.{Span, Accept}
use async_berkeley.Executor.Examples.{table, read_write, store}
use async_berkeley.Async.Accepts.{terminated, accept_now, accept_later}
use async_berkeley.Async.Accepts.Outcomes.{failure, ends, accepts-ends}

abbrev buffer : Span
buffer = record { data_at = 4096; size = 28 }

abbrev interrupted : Accept
interrupted = record { sockfd = negsuc 0; errno = pos 4; socklen = 28 }

abbrev connection : Accept
connection = record { sockfd = pos 3; errno = pos 0; socklen = 16 }

accepts-ends_example :
    (accept_now table
        (pos 4)
        (pos 0)
        buffer
        ((interrupted ∷ []) ++ connection ∷ [])
        store
        read_write
      ≡ ends table buffer connection (failure table (pos 3) store read_write) store read_write)
    × (accept_later table
          (pos 4)
          (pos 0)
          buffer
          ((interrupted ∷ []) ++ connection ∷ [])
          store
          read_write
        ≡ ends table buffer connection terminated store read_write)
unfolding int_eq
accepts-ends_example =
    accepts-ends table (pos 4) buffer (interrupted ∷ []) connection [] store read_write (refl, tt)
      refl (omega arith)
