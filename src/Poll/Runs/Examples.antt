-- ===== src/Poll/Runs/Examples.antt =====
-- A poll during which another thread submits a second reader.
use async_berkeley.Base.{
  ℕ, ◌≡◌, ◌≢◌, refl, some, List, [], ◌∷◌, map, inl, arith, pos, int_eq, int_lt,
}
use async_berkeley.Poll.Flags.{no_flags, wakes_readers, wakes_writers}
use async_berkeley.Poll.Interest.{
  read, update_or_insert_event, copy_active, clear_event, interest, make_poll_event,
}
use async_berkeley.Poll.Syscall.{ready, poll_}
use async_berkeley.Poll.Mux.{
  Op, Mux, World, set_value, connected, connect, complete, start, is_failing, no_demux,
}
use async_berkeley.Poll.Wait.{handled, crashed, handle_event, wait_for}
use async_berkeley.Poll.Wakeups.{ArmedAt}
use async_berkeley.Poll.Runs.{Run, no_descriptors, done, launch, serve}
use async_berkeley.Poll.Completion.{receiver_of}
use async_berkeley.Poll.Service.{In, named-served}
use async_berkeley.Poll.Runs.Interleaved.{Run-asked, Run-defined}
use async_berkeley.Poll.Examples.{
  linux, polls, event, world, reader, reader', in_flag, entry, registered, queued, connects, starts,
}

abbrev second : Op ℕ ℕ
second = record reader { receiver = 8; socket = 1 }

abbrev second' : Op ℕ ℕ
second' = record second { demux = some 2 }

abbrev both : List (Op ℕ ℕ) → List (Op ℕ ℕ) → Mux ℕ ℕ → Mux ℕ ℕ
both first last m = record m {
  demux =
      no_demux
      ∷ record { read_queue = first; write_queue = []; socket = some 0 }
      ∷ record { read_queue = last; write_queue = []; socket = some 1 }
      ∷ [];
}

-- The second reader is connected.
abbrev connected₂ : Mux ℕ ℕ
connected₂ = record {
  demux =
      no_demux
      ∷ record { read_queue = reader' ∷ []; write_queue = []; socket = some 0 }
      ∷ no_demux
      ∷ [];
  list = entry in_flag ∷ record (entry in_flag) { fd = pos 2 } ∷ [];
}

abbrev queued₂ : Mux ℕ ℕ
queued₂ = both (reader' ∷ []) (second' ∷ []) connected₂

-- The first reader is served, the second one still waits.
abbrev served₂ : Mux ℕ ℕ
served₂ = record (both [] (second' ∷ []) connected₂) {
  list = entry no_flags ∷ record (entry in_flag) { fd = pos 2 } ∷ [];
}

abbrev others : Mux ℕ ℕ → World ℕ ℕ → Mux ℕ ℕ × World ℕ ℕ
others m w = (queued₂, w)

connects₂ : connect linux second queued world ≡ connected second' connected₂
unfolding connect is_failing int_eq int_lt update_or_insert_event make_poll_event
connects₂ = refl

starts₂ : start linux second' connected₂ world ≡ some (queued₂, world)
unfolding start is_failing int_eq
starts₂ = refl

abbrev pub world₁ : World ℕ ℕ
world₁ = record world { signals = set_value 7 5 ∷ [] }

serves₂ :
    wait_for linux (pos 10) 0 ((λ t. ready (λ fd. in_flag)) ∷ []) others queued world
    ≡ handled 1 served₂ world₁
unfolding wait_for poll_ clear_event int_eq int_lt wakes_readers wakes_writers handle_event complete
serves₂ = refl

pub first-Run : Run linux no_descriptors world queued world
first-Run = launch reader reader' registered done (1, refl, omega arith) connects starts

other-Run : Run linux queued world queued₂ world
other-Run = launch second second' connected₂ done (2, refl, omega arith) connects₂ starts₂

whole-Run : Run linux no_descriptors world served₂ world₁
whole-Run =
    serve (pos 10) 0 ((λ t. ready (λ fd. in_flag)) ∷ []) 1 others first-Run other-Run serves₂

Run-asked_example :
    ArmedAt
      (interest (pos 2) (copy_active served₂.list))
      (record { read_queue = second' ∷ []; write_queue = []; socket = some 1 })
Run-asked_example =
    Run-asked linux served₂ world world₁ 2
      (record { read_queue = second' ∷ []; write_queue = []; socket = some 1 }) whole-Run refl

Run-defined_example :
    wait_for linux (pos 10) 0 ((λ t. ready (λ fd. in_flag)) ∷ []) others queued world ≢ crashed
Run-defined_example =
    Run-defined linux queued world world (pos 10) 0 ((λ t. ready (λ fd. in_flag)) ∷ []) others
      first-Run other-Run

named-served_example : In 7 (map receiver_of world₁.signals)
unfolding wakes_readers
named-served_example =
    named-served linux read reader' 1 1 (event in_flag) (event in_flag ∷ []) (pos 10) 0
      ((λ t. ready (λ fd. in_flag)) ∷ []) others queued served₂ world world₁ polls serves₂
      (inl refl) (refl, refl)
      (record { read_queue = reader' ∷ []; write_queue = []; socket = some 0 }, refl, inl refl)
