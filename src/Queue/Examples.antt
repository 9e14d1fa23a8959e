-- ===== src/Queue/Examples.antt =====
-- Two queues on one heap, and the theorems at them.
use async_berkeley.Base.{◌*◌, ◌≡◌, refl, none, some, [], ◌∷◌, arith, ◌==◌, if◌then◌else◌}
use async_berkeley.Queue.{Addr, Tail, link, handler, Task, Heap, move_back}
use async_berkeley.Queue.Links.{IsQueue}
use async_berkeley.Queue.Contents.{Returns, SameOutside, Apart, move_back-append}
use async_berkeley.Queue.Drain.{run_queue, run_queue-all}

abbrev task : Addr → Tail → Task
task n t = record { next = n; tail = t }

-- The queue at 1 holds the tasks 2 and 3, the one at 4 holds 5, and that at 6 nothing; 7 is new.
abbrev heap : Heap
heap a =
    if a == 1
    then some (task 2 (link 3))
    else if a == 2
    then some (task 3 (handler 20))
    else if a == 3
    then some (task 1 (handler 30))
    else if a == 4
    then some (task 5 (link 5))
    else if a == 5
    then some (task 4 (handler 50))
    else if a == 6
    then some (task 6 (link 6))
    else if a == 7
    then some (task 7 (handler 70))
    else none

first-IsQueue : IsQueue heap 1 (2 ∷ 3 ∷ [])
first-IsQueue = record {
  links = (refl, (refl, refl));
  tail = refl;
  distinct = (refl, (refl, (refl, tt)));
}

second-IsQueue : IsQueue heap 4 (5 ∷ [])
second-IsQueue = record { links = (refl, refl); tail = refl; distinct = (refl, (refl, tt)) }

empty-IsQueue : IsQueue heap 6 []
empty-IsQueue = record { links = refl; tail = refl; distinct = (refl, tt) }

apart : Apart (1 ∷ 2 ∷ 3 ∷ []) (4 ∷ 5 ∷ [])
apart a there = ground arith

move_back-append_example : Returns (move_back 1 4 heap) (λ _ g.
    IsQueue g 1 (2 ∷ 3 ∷ 5 ∷ [])
    × IsQueue g 4 []
    × SameOutside heap g (1 ∷ 2 ∷ 3 ∷ 4 ∷ 5 ∷ []) (1 ∷ 4 ∷ []))
move_back-append_example = move_back-append first-IsQueue second-IsQueue apart

run_queue-all_example :
    Returns (run_queue 3 1 heap) (λ ran g. (ran ≡ (2, 20) ∷ (3, 30) ∷ []) × IsQueue g 1 [])
run_queue-all_example =
    run_queue-all (λ a. a * 10) 3 heap 1 (2 ∷ 3 ∷ []) first-IsQueue (refl, (refl, tt)) (omega arith)
