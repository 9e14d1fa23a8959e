-- ===== src/Poll/Pointers/Examples.antt =====
-- The queues of one reader on a heap, and the dispatch of its event.
use async_berkeley.Base.{
  ℕ, zero, suc, sym, some_inj, ◌+◌, ◌*◌, ◌≡◌, refl, true, false, some, List, [], ◌∷◌, map, arith,
  ◌==◌, if◌then◌else◌, Bool-cases, inl, inr, ==_iff, get_elem?, All,
}
use async_berkeley.Queue.{Addr, link, handler, Heap}
use async_berkeley.Queue.Links.{next_of, tail_of, has, IsQueue}
use async_berkeley.Queue.Contents.{Returns}
use async_berkeley.Queue.Handlers.{Called}
use async_berkeley.Queue.Family.{Lists, Holds}
use async_berkeley.Poll.Mux.{Op, Demultiplexer}
use async_berkeley.Poll.Pointers.{Places, sentinels, dispatch_queues, Matches}
use async_berkeley.Poll.Pointers.Starting.{start_queue, start_queue-Matches}
use async_berkeley.Poll.Pointers.Refinement.{dispatch_queues-Matches}
use async_berkeley.Poll.Examples.{
  linux, world, event, in_flag, queued, served, reader', serves, starts, registered,
}

odd : (k i j : ℕ) → (3 * i + k == 3 * j + k) ≡ (i == j)
odd k i j = ground arith

read_write : (i j : ℕ) → (3 * i + 1 == 3 * j + 2) ≡ false
read_write i j = ground arith

later : (k i : ℕ) → (3 * i + suc k == 0) ≡ false
later k i = ground arith

abbrev places : Places
places = record {
  read_at = λ i. 3 * i + 1;
  write_at = λ i. 3 * i + 2;
  ready = 0;
  reads = odd 1;
  writes = odd 2;
  read_write = read_write;
  read_ready = later 0;
  write_ready = later 1;
}

abbrev heap : Heap
heap a =
    if a == 4
    then some (record { next = 7; tail = link 7 })
    else if a == 7
    then some (record { next = 4; tail = handler 70 })
    else some (record { next = a; tail = link a })

abbrev lists : Lists
lists a = if a == 4 then 7 ∷ [] else []

abbrev at : Op ℕ ℕ → Addr
at op = op.receiver

has-All : (P : Addr → Type 0) (qs : List Addr) → All P qs → (q : Addr) → has q qs ≡ true → P q
has-All P [] all q e = absurd (ground arith)
has-All P (x ∷ xs) all q e = elim (Bool-cases (q == x)) [
  | inl same ↦ rw ((==_iff q x).0 same) all.0
  | inr other ↦ has-All P xs all.1 q (ground arith)
]

alone : (q : Addr) → next_of heap q ≡ some q → tail_of heap q ≡ some (link q) → IsQueue heap q []
alone q next tail = record { links = next; tail = tail; distinct = (refl, tt) }

heap-Holds : Holds heap (sentinels places 2) lists
heap-Holds = record {
  queue =
      has-All (λ q. IsQueue heap q (lists q)) (sentinels places 2)
        (
          alone 0 refl refl,
          (
            record { links = (refl, refl); tail = refl; distinct = (refl, (refl, tt)) },
            (alone 5 refl refl, (alone 1 refl refl, (alone 2 refl refl, tt))),
          ),
        );
  apart = λ q r in_q in_r differ a there. ground arith;
}

queued-Matches : Matches places at lists queued []
queued-Matches = record { reads = reads; writes = writes; ready = refl }
  where
    reads :
        (i : ℕ) (d : Demultiplexer ℕ ℕ)
        → get_elem? queued.demux i ≡ some d
        → lists (places.read_at i) ≡ map at d.read_queue
    reads zero d e = rw (sym (some_inj e)) refl
    reads (suc zero) d e = rw (sym (some_inj e)) refl
    reads (suc (suc i)) d e = absurd (ground arith)

    writes :
        (i : ℕ) (d : Demultiplexer ℕ ℕ)
        → get_elem? queued.demux i ≡ some d
        → lists (places.write_at i) ≡ map at d.write_queue
    writes zero d e = rw (sym (some_inj e)) refl
    writes (suc zero) d e = rw (sym (some_inj e)) refl
    writes (suc (suc i)) d e = absurd (ground arith)

dispatch_queues-Matches_example : Returns (dispatch_queues places (event in_flag ∷ []) heap) (λ _ g.
    (c' : Lists) × Holds g (sentinels places 2) c' × Matches places at c' served (reader' ∷ []))
dispatch_queues-Matches_example =
    dispatch_queues-Matches places at linux (event in_flag ∷ []) heap lists queued served world
      world [] (reader' ∷ []) serves heap-Holds queued-Matches

-- Before the start: the task is in no queue and has no handler.
abbrev idle_heap : Heap
idle_heap a =
    if a == 7
    then some (record { next = 0; tail = link 0 })
    else some (record { next = a; tail = link a })

vacant :
    (q : Addr)
    → next_of idle_heap q ≡ some q
    → tail_of idle_heap q ≡ some (link q)
    → IsQueue idle_heap q []
vacant q next tail = record { links = next; tail = tail; distinct = (refl, tt) }

idle-Holds : Holds idle_heap (sentinels places 2) (λ a. [])
idle-Holds = record {
  queue =
      has-All (λ q. IsQueue idle_heap q []) (sentinels places 2)
        (
          vacant 0 refl refl,
          (
            vacant 4 refl refl,
            (vacant 5 refl refl, (vacant 1 refl refl, (vacant 2 refl refl, tt))),
          ),
        );
  apart = λ q r in_q in_r differ a there. ground arith;
}

registered-Matches : Matches places at (λ a. []) registered []
registered-Matches = record { reads = reads; writes = writes; ready = refl }
  where
    reads :
        (i : ℕ) (d : Demultiplexer ℕ ℕ)
        → get_elem? registered.demux i ≡ some d
        → [] ≡ map at d.read_queue
    reads zero d e = rw (sym (some_inj e)) refl
    reads (suc zero) d e = rw (sym (some_inj e)) refl
    reads (suc (suc i)) d e = absurd (ground arith)

    writes :
        (i : ℕ) (d : Demultiplexer ℕ ℕ)
        → get_elem? registered.demux i ≡ some d
        → [] ≡ map at d.write_queue
    writes zero d e = rw (sym (some_inj e)) refl
    writes (suc zero) d e = rw (sym (some_inj e)) refl
    writes (suc (suc i)) d e = absurd (ground arith)

-- `state::complete` of the state at an address.
abbrev complete_of : Addr → ℕ
complete_of a = 70

start_queue-Matches_example :
    Returns (start_queue places at linux complete_of reader' world idle_heap) (λ _ g.
      (c' : Lists) × Holds g (sentinels places 2) c'
      × Called (sentinels places 2) complete_of g c'
      × Matches places at c' queued [])
start_queue-Matches_example =
    start_queue-Matches places at linux complete_of reader' idle_heap (λ a. [])
      (record { next = 0; tail = link 0 }) registered queued world world [] starts idle-Holds
      (λ q a in_q in_c. absurd (ground arith)) registered-Matches refl (λ q in_q. ground arith)
