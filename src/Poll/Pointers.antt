-- ===== src/Poll/Pointers.antt =====
-- The queues of the multiplexer on the heap: what the loop of `wait_for` does with their pointers.
pub mod Refinement
pub mod Starting
mod Examples
use async_berkeley.Base.{
  ℕ, zero, suc, ◌<◌, ◌≡◌, refl, sym, ◌∙◌, Bool, true, false, ◌||◌, ◌&&◌, some, List, [], ◌∷◌, ◌++◌,
  append-nil, append_assoc, map, arith, ◌==◌, if◌then◌else◌, Bool-cases, inl, inr, ==_iff, ==_refl,
  get_elem?, set, get_elem?-set, length, length-set, lt_of_get_elem?, ap, subst,
}
use async_berkeley.Queue.{Addr, Heap, Code, give, ◌>>=◌, ◌>>◌, move_back}
use async_berkeley.Queue.Links.{has}
use async_berkeley.Queue.Contents.{Returns, Returns-resume}
use async_berkeley.Queue.Family.{Lists, with_list, Holds}
use async_berkeley.Queue.Operations.{moved, move_back-Holds}
use async_berkeley.Poll.Flags.{Flags, Pollfd, wakes_writers, wakes_readers}
use async_berkeley.Poll.Mux.{Platform, Op, Demultiplexer, Mux, World, to_size}
use async_berkeley.Poll.Wait.{woken}
use mathlib.Core.List.{map-append}

-- The sentinels: those of the slots, which are all different, and that of the ready queue.
pub record Places : Type 0 where
  pub read_at : ℕ → Addr
  pub write_at : ℕ → Addr
  pub ready : Addr
  pub reads : (i j : ℕ) → (read_at i == read_at j) ≡ (i == j)
  pub writes : (i j : ℕ) → (write_at i == write_at j) ≡ (i == j)
  pub read_write : (i j : ℕ) → (read_at i == write_at j) ≡ false
  pub read_ready : (i : ℕ) → (read_at i == ready) ≡ false
  pub write_ready : (i : ℕ) → (write_at i == ready) ≡ false

-- A queue is moved where the flags ask for it.
unfoldable pub move_if : Bool → Addr → Addr → Code (Unit {0})
unfolding move_back
move_if wakes q other = if wakes then move_back q other else give tt

abbrev pub moved_if : Bool → Addr → Addr → Lists → Lists
moved_if wakes q other c = if wakes then moved c q other else c

move_if-Holds :
    (wakes : Bool) (qs : List Addr) (q other : Addr) (h : Heap) (c : Lists)
    → has q qs ≡ true
    → has other qs ≡ true
    → (q == other) ≡ false
    → Holds h qs c
    → Returns (move_if wakes q other h) (λ _ g. Holds g qs (moved_if wakes q other c))
unfolding move_if
move_if-Holds true qs q other h c in_q in_other differ k =
    move_back-Holds qs c k q other in_q in_other differ
move_if-Holds false qs q other h c in_q in_other differ k = k

moved_if-own :
    (wakes : Bool) (q other : Addr) (c : Lists)
    → moved_if wakes q other c q ≡ c q ++ (if wakes then c other else [])
moved_if-own true q other c = rw (==_refl q) refl
moved_if-own false q other c = sym (append-nil (c q))

moved_if-other :
    (wakes : Bool) (q other a : Addr) (c : Lists)
    → (a == q) ≡ false
    → moved_if wakes q other c a ≡ (if (a == other) && wakes then [] else c a)
moved_if-other wakes q other a c differ = ground arith

map-append_if :
    {A : Type 0} (at : A → Addr) (b : Bool) (xs ys : List Addr) (done queue : List A)
    → xs ≡ map at done
    → ys ≡ map at queue
    → xs ++ (if b then ys else []) ≡ map at (done ++ (if b then queue else []))
map-append_if at true xs ys done queue e f = rw (e, f, map-append) refl
map-append_if at false xs ys done queue e f = rw (append-nil xs, append-nil done) e

module _ (p : Places) where
  -- The sentinels of the first `n` slots.
  abbrev pub slots : ℕ → List Addr
  slots zero = []
  slots (suc n) = p.read_at n ∷ p.write_at n ∷ slots n

  abbrev pub sentinels : ℕ → List Addr
  sentinels n = p.ready ∷ slots n

  -- The end of `prepare_handles`, for the slot `n`.
  unfoldable pub move_queues : Flags → ℕ → Code (Unit {0})
  unfolding move_if wakes_writers wakes_readers
  move_queues r n = do
    move_if (wakes_writers r) p.ready (p.write_at n)
    move_if (wakes_readers r) p.ready (p.read_at n)

  -- The loop of `wait_for`.
  unfoldable pub dispatch_queues : List Pollfd → Code (Unit {0})
  unfolding move_queues
  dispatch_queues [] = give tt
  dispatch_queues (event ∷ events) = do
    move_queues event.revents (to_size event.fd)
    dispatch_queues events

  -- The lists after `move_queues`.
  abbrev pub moved_lists : Flags → ℕ → Lists → Lists
  moved_lists r n c =
      moved_if (wakes_readers r) p.ready (p.read_at n)
        (moved_if (wakes_writers r) p.ready (p.write_at n) c)

  has-slots :
      (n i : ℕ)
      → i < n
      → (has (p.read_at i) (slots n) ≡ true) × (has (p.write_at i) (slots n) ≡ true)
  has-slots zero i h = absurd (omega arith)
  has-slots (suc n) i h = ground (arith, has-slots n i, p.reads i n, p.writes i n)

  has-sentinels :
      (size i : ℕ)
      → i < size
      → (has (p.read_at i) (sentinels size) ≡ true) × (has (p.write_at i) (sentinels size) ≡ true)
  has-sentinels size i h = ground (arith, has-slots size i h)

  pub move_queues-Holds :
      (r : Flags) (n size : ℕ) (h : Heap) (c : Lists)
      → n < size
      → Holds h (sentinels size) c
      → Returns (move_queues r n h) (λ _ g. Holds g (sentinels size) (moved_lists r n c))
  unfolding move_queues
  move_queues-Holds r n size h c small k =
      let (in_read, in_write) = has-sentinels size n small in
      let in_ready : has p.ready (sentinels size) ≡ true = ground (arith, ==_refl p.ready) in
      Returns-resume _ _ (move_if (wakes_writers r) p.ready (p.write_at n) h) _
        (move_if-Holds (wakes_writers r) (sentinels size) p.ready (p.write_at n) h c in_ready
          in_write (ground (arith, p.write_ready n)) k)
        (λ u g j.
          move_if-Holds (wakes_readers r) (sentinels size) p.ready (p.read_at n) g
            (moved_if (wakes_writers r) p.ready (p.write_at n) c) in_ready in_read
            (ground (arith, p.read_ready n)) j)

  module _ {W R : Type 0} (at : Op W R → Addr) where
    -- The queues hold the tasks of the multiplexer and those that are ready.
    pub record Matches (c : Lists) (m : Mux W R) (done : List (Op W R)) : Type 0 where
      pub reads :
          (i : ℕ) (d : Demultiplexer W R)
          → get_elem? m.demux i ≡ some d
          → c (p.read_at i) ≡ map at d.read_queue
      pub writes :
          (i : ℕ) (d : Demultiplexer W R)
          → get_elem? m.demux i ≡ some d
          → c (p.write_at i) ≡ map at d.write_queue
      pub ready : c p.ready ≡ map at done

    pub moved_lists-ready :
        (r : Flags) (n : ℕ) (c : Lists) (d : Demultiplexer W R) (done : List (Op W R))
        → c (p.read_at n) ≡ map at d.read_queue
        → c (p.write_at n) ≡ map at d.write_queue
        → c p.ready ≡ map at done
        → moved_lists r n c p.ready ≡ map at (done ++ woken r d)
    unfolding woken
    moved_lists-ready r n c d done reads writes ready =
        let w = wakes_writers r in
        let c₁ = moved_if w p.ready (p.write_at n) c in
        let first : c₁ p.ready ≡ map at (done ++ (if w then d.write_queue else [])) =
          moved_if-own w p.ready (p.write_at n) c
          ∙ map-append_if at w (c p.ready) _ done _ ready writes in
        let still : c₁ (p.read_at n) ≡ map at d.read_queue =
          moved_if-other w p.ready (p.write_at n) (p.read_at n) c (p.read_ready n)
          ∙ rw (p.read_write n n) reads in
        moved_if-own (wakes_readers r) p.ready (p.read_at n) c₁
        ∙ map-append_if at (wakes_readers r) (c₁ p.ready) _
            (done ++ (if w then d.write_queue else [])) d.read_queue first still
        ∙ ap (map at) (
            append_assoc done (if w then d.write_queue else [])
              (if wakes_readers r then d.read_queue else []))

    pub moved_lists-read :
        (r : Flags) (n i : ℕ) (c : Lists)
        → moved_lists r n c (p.read_at i)
          ≡ (if (i == n) && wakes_readers r then [] else c (p.read_at i))
    moved_lists-read r n i c =
        moved_if-other (wakes_readers r) p.ready (p.read_at n) (p.read_at i)
          (moved_if (wakes_writers r) p.ready (p.write_at n) c) (p.read_ready i)
        ∙ rw
            (
              p.reads i n,
              moved_if-other (wakes_writers r) p.ready (p.write_at n) (p.read_at i) c
                  (p.read_ready i),
              p.read_write i n,
            )
            refl

    pub moved_lists-write :
        (r : Flags) (n i : ℕ) (c : Lists)
        → moved_lists r n c (p.write_at i)
          ≡ (if (i == n) && wakes_writers r then [] else c (p.write_at i))
    moved_lists-write r n i c =
        let away : (p.write_at i == p.read_at n) ≡ false = ground (arith, p.read_write n i) in
        moved_if-other (wakes_readers r) p.ready (p.read_at n) (p.write_at i)
          (moved_if (wakes_writers r) p.ready (p.write_at n) c) (p.write_ready i)
        ∙ rw
            (
              away,
              moved_if-other (wakes_writers r) p.ready (p.write_at n) (p.write_at i) c
                  (p.write_ready i),
              p.writes i n,
            )
            refl
