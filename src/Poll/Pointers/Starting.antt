-- ===== src/Poll/Pointers/Starting.antt =====
-- `start` of an operation on the heap: the handler of its task, and the push of the task.
use async_berkeley.Base.{
  ℕ, ◌<◌, ◌≡◌, sym, ◌∙◌, true, false, ◌||◌, Option, none, some, ap, List, [], ◌∷◌, ◌++◌, map, arith,
  ◌==◌, if◌then◌else◌, Bool-cases, inl, inr, ◌⊎◌, ==_iff, ==_refl, get_elem?, set, get_elem?-set,
  length, length-set, lt_of_get_elem?, some_inj, Option-cases,
}
use async_berkeley.Queue.{Addr, Task, handler, Heap, Code, ◌>>◌, set_tail, push}
use async_berkeley.Queue.Links.{has}
use async_berkeley.Queue.Contents.{Returns, Returns-some, Returns-resume}
use async_berkeley.Queue.Family.{Lists, with_list, Holds}
use async_berkeley.Queue.Operations.{IsNew, push-Holds}
use async_berkeley.Queue.Handlers.{Called, set_tail-Holds, Called-pushed}
use async_berkeley.Poll.Interest.{Trigger, read, write, eager}
use async_berkeley.Poll.Mux.{
  Platform, Op, Demultiplexer, Mux, World, is_eager, is_failing, enqueue, push_task, start,
}
use mathlib.Core.List.{map-append}
use async_berkeley.Poll.Pointers.{Places, sentinels, has-sentinels, Matches}

module _ {W R : Type 0} (p : Places) (at : Op W R → Addr) where
  -- The queue of the demultiplexer at `n` that a task waits in.
  abbrev pub place_of : Trigger → ℕ → Addr
  place_of write n = p.write_at n
  place_of read n = p.read_at n
  place_of eager n = p.read_at n

  -- It has no outcome where `demux` is null.
  abbrev push_demux : Option ℕ → Trigger → Addr → Code (Unit {0})
  push_demux none t a h = none
  push_demux (some n) t a h = push (place_of t n) a h

  -- What `start` does with the tasks; `complete_of` is `state::complete` of the state at an address.
  unfoldable pub start_queue : (P : Platform W) → (Addr → ℕ) → Op W R → World W R → Code (Unit {0})
  unfolding is_failing set_tail push
  start_queue P complete_of op w h =
      if is_eager op.trigger || is_failing P (w.errors op.socket)
      then some (tt, h)
      else (do
        set_tail (at op) (handler (complete_of (at op)))
        push_demux op.demux op.trigger (at op))
          h

  abbrev pushed_lists : Trigger → ℕ → Op W R → Lists → Lists
  pushed_lists t n op c = with_list c (place_of t n) (c (place_of t n) ++ at op ∷ [])

  map-last :
      (queue : List (Op W R)) (op : Op W R) → map at queue ++ at op ∷ [] ≡ map at (queue ++ op ∷ [])
  map-last queue op = sym (map-append at queue (op ∷ []))

  -- The queues of the demultiplexer that the task is pushed to.
  enqueued :
      (op : Op W R) (t : Trigger) (n : ℕ) (d : Demultiplexer W R) (c : Lists)
      → is_eager t ≡ false
      → c (p.read_at n) ≡ map at d.read_queue
      → c (p.write_at n) ≡ map at d.write_queue
      → (pushed_lists t n op c (p.read_at n) ≡ map at (push_task t op d).read_queue)
        × (pushed_lists t n op c (p.write_at n) ≡ map at (push_task t op d).write_queue)
  enqueued op read n d c waits reads writes =
      let apart : (p.write_at n == p.read_at n) ≡ false = ground (arith, p.read_write n n) in
      (rw (==_refl (p.read_at n), reads) (map-last d.read_queue op), rw apart writes)
  enqueued op write n d c waits reads writes =
      (rw (p.read_write n n) reads, rw (==_refl (p.write_at n), writes) (map-last d.write_queue op))
  enqueued op eager n d c waits reads writes = absurd (ground arith)

  pushed_elsewhere :
      (op : Op W R) (t : Trigger) (n i : ℕ) (c : Lists)
      → (n == i) ≡ false
      → (pushed_lists t n op c (p.read_at i) ≡ c (p.read_at i))
        × (pushed_lists t n op c (p.write_at i) ≡ c (p.write_at i))
  pushed_elsewhere op write n i c other = ground (arith, p.read_write i n, p.writes i n)
  pushed_elsewhere op read n i c other = ground (arith, p.read_write n i, p.reads i n)
  pushed_elsewhere op eager n i c other = ground (arith, p.read_write n i, p.reads i n)

  pushed-ready :
      (op : Op W R) (t : Trigger) (n : ℕ) (c : Lists) → pushed_lists t n op c p.ready ≡ c p.ready
  pushed-ready op write n c = ground (arith, p.write_ready n)
  pushed-ready op read n c = ground (arith, p.read_ready n)
  pushed-ready op eager n c = ground (arith, p.read_ready n)

  Matches-pushed :
      (op : Op W R) (n : ℕ) (d : Demultiplexer W R) (c : Lists) (m : Mux W R) (done : List (Op W R))
      → get_elem? m.demux n ≡ some d
      → is_eager op.trigger ≡ false
      → Matches p at c m done
      → Matches p at
          (pushed_lists op.trigger n op c)
          (record m { demux = set m.demux n (enqueue op d) })
          done
  unfolding enqueue
  Matches-pushed op n d c m done found waits k = record {
    reads = λ i e there. (queues i e there (Bool-cases (n == i))).0;
    writes = λ i e there. (queues i e there (Bool-cases (n == i))).1;
    ready = pushed-ready op op.trigger n c ∙ k.ready;
  }
    where
      slot :
          (i : ℕ)
          → get_elem? (set m.demux n (enqueue op d)) i
            ≡ (if n == i then some (enqueue op d) else get_elem? m.demux i)
      slot i = get_elem?-set m.demux n i d (enqueue op d) found

      queues :
          (i : ℕ) (e : Demultiplexer W R)
          → get_elem? (set m.demux n (enqueue op d)) i ≡ some e
          → ((n == i) ≡ true) ⊎ ((n == i) ≡ false)
          → (pushed_lists op.trigger n op c (p.read_at i) ≡ map at e.read_queue)
            × (pushed_lists op.trigger n op c (p.write_at i) ≡ map at e.write_queue)
      queues i e there (inl same) =
          let is_at : enqueue op d ≡ e = some_inj (ground (arith, slot i)) in
          let here : i ≡ n = sym ((==_iff n i).0 same) in
          rw (here, sym is_at)
            (enqueued op op.trigger n d c waits (k.reads n d found) (k.writes n d found))
      queues i e there (inr other) =
          let old : get_elem? m.demux i ≡ some e = ground (arith, slot i) in
          let (reads, writes) = pushed_elsewhere op op.trigger n i c other in
          (reads ∙ k.reads i e old, writes ∙ k.writes i e old)

  has-place_of :
      (t : Trigger) (size n : ℕ) → n < size → has (place_of t n) (sentinels p size) ≡ true
  has-place_of write size n small = (has-sentinels p size n small).1
  has-place_of read size n small = (has-sentinels p size n small).0
  has-place_of eager size n small = (has-sentinels p size n small).0

  abbrev stored_push : (Addr → ℕ) → Addr → Addr → Code (Unit {0})
  stored_push complete_of q a = do set_tail a (handler (complete_of a)); push q a

  start_queue-waits :
      (P : Platform W) (complete_of : Addr → ℕ) (op : Op W R) (w : World W R) (h : Heap) (n : ℕ)
      → (is_eager op.trigger || is_failing P (w.errors op.socket)) ≡ false
      → op.demux ≡ some n
      → start_queue P complete_of op w h ≡ stored_push complete_of (place_of op.trigger n) (at op) h
  unfolding start_queue
  start_queue-waits P complete_of op w h n waits demux =
      ap
        (λ eager_or_failing.
          if eager_or_failing
          then some (tt, h)
          else (do
            set_tail (at op) (handler (complete_of (at op)))
            push_demux op.demux op.trigger (at op))
              h)
        waits
      ∙ ap
          (λ slot.
            (do
              set_tail (at op) (handler (complete_of (at op)))
              push_demux slot op.trigger (at op))
              h)
          demux

  -- The handler is written and the task is pushed.
  stored_pushed :
      (complete_of : Addr → ℕ) (h : Heap) (qs : List Addr) (c : Lists) (t : Task) (q a : Addr)
      → (k : Holds h qs c) → Called qs complete_of h c
      → h a ≡ some t
      → has q qs ≡ true
      → IsNew qs c k a
      → Returns (stored_push complete_of q a h) (λ _ g.
        Holds g qs (with_list c q (c q ++ a ∷ []))
        × Called qs complete_of g (with_list c q (c q ++ a ∷ [])))
  stored_pushed complete_of h qs c t q a k called here in_q new =
      Returns-resume _ _ (set_tail a (handler (complete_of a)) h) (λ _. push q a)
        (set_tail-Holds qs c k a t (handler (complete_of a)) here new)
        (λ u g stored.
          let (held, there, tails) = stored in
          let (u', g', runs, done) = Returns-some (push q a g) _ (
            push-Holds qs c held q a (record t { tail = handler (complete_of a) }) in_q there
              new) in
          rw runs (
            done.0,
            Called-pushed qs c k complete_of g' q a in_q new called
                (λ x other. done.1 x other ∙ tails x),
          ))

  -- A start that reads no null `demux`, of an operation whose task is in none of the queues, where
  -- the tasks in the queues have the handlers of their operations: the pointer code runs, afterwards
  -- the heap holds the queues of the new state, and again each task in them, the new one too, has the
  -- handler of its operation.
  pub start_queue-Matches :
      (P : Platform W) (complete_of : Addr → ℕ) (op : Op W R) (h : Heap) (c : Lists) (t : Task)
      (m m' : Mux W R) (w w' : World W R) (done : List (Op W R))
      → start P op m w ≡ some (m', w')
      → Holds h (sentinels p (length m.demux)) c
      → Called (sentinels p (length m.demux)) complete_of h c
      → Matches p at c m done
      → h (at op) ≡ some t
      → ((q : Addr) → has q (sentinels p (length m.demux)) ≡ true → has (at op) (q ∷ c q) ≡ false)
      → Returns (start_queue P complete_of op w h) (λ _ g.
        (c' : Lists) × Holds g (sentinels p (length m'.demux)) c'
        × Called (sentinels p (length m'.demux)) complete_of g c'
        × Matches p at c' m' done)
  unfolding start start_queue
  start_queue-Matches P complete_of op h c t m m' w w' done starts k called match here new =
      elim (Bool-cases (is_eager op.trigger || is_failing P (w.errors op.socket))) [
        | inl at_once ↦
            let same : m ≡ m' = ground arith in
            rw (start_queue, at_once) (c, rw same at k, rw same at called, rw same at match)
        | inr waits ↦ elim (Option-cases op.demux) [
          | inl null ↦ absurd (ground arith)
          | inr (n, demux) ↦ elim (Option-cases (get_elem? m.demux n)) [
            | inl missing ↦ absurd (ground arith)
            | inr (d, found) ↦
                let small : n < length m.demux = lt_of_get_elem? m.demux n d found in
                let same : record m { demux = set m.demux n (enqueue op d) } ≡ m' = ground arith in
                let size : length m'.demux ≡ length m.demux =
                  rw (sym same) (length-set m.demux n (enqueue op d)) in
                let q = place_of op.trigger n in
                let in_q = has-place_of op.trigger (length m.demux) n small in
                let (u, g, runs, both) = Returns-some (stored_push complete_of q (at op) h) _ (
                  stored_pushed complete_of h (sentinels p (length m.demux)) c t q (at op) k called
                    here in_q new) in
                let calm : is_eager op.trigger ≡ false = ground arith in
                rw (start_queue-waits P complete_of op w h n waits demux, runs)
                  (
                    pushed_lists op.trigger n op c,
                    rw size both.0,
                    rw size both.1,
                    rw same at (Matches-pushed op n d c m done found calm match),
                  )
          ]
        ]
      ]
