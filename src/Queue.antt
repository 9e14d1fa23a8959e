-- ===== src/Queue.antt =====
-- include/io/execution/multiplexer.hpp: the intrusive task queue of `basic_multiplexer`, over an
-- explicit heap of tasks. The queue is the address of its sentinel `head_`.
pub mod Links
pub mod Effects
pub mod Contents
pub mod Drain
pub mod Family
pub mod Operations
pub mod Handlers
pub mod Examples
use async_berkeley.Base.{ℕ, ◌≡◌, Bool, Option, none, some, ◌==◌, if◌then◌else◌}

abbrev pub Addr : Type 0
Addr = ℕ

-- std::variant<task *, void (*)(task *) noexcept>; a handler is named by a number.
pub data Tail : Type 0 where
  link : Addr → Tail
  handler : ℕ → Tail

pub record Task : Type 0 where
  pub next : Addr
  pub tail : Tail

abbrev pub Heap : Type 0
Heap = Addr → Option Task

-- A piece of queue code. It has no outcome where the program's behaviour is undefined or ends: at a
-- pointer to no task, and where `std::get` meets the other alternative.
abbrev pub Code : Type 0 → Type 0
Code R = Heap → Option (R × Heap)

abbrev pub give : {R : Type 0} → R → Code R
give r tasks = some (r, tasks)

abbrev pub resume : {R S : Type 0} → Option (R × Heap) → (R → Code S) → Option (S × Heap)
resume none rest = none
resume (some (r, tasks)) rest = rest r tasks

infixl 5 ◌>>=◌
abbrev pub ◌>>=◌ : {R S : Type 0} → Code R → (R → Code S) → Code S
◌>>=◌ code rest tasks = resume (code tasks) rest

infixl 5 ◌>>◌
abbrev pub ◌>>◌ : {S : Type 0} → Code (Unit {0}) → Code S → Code S
code >> rest = code >>= λ done. rest

unfoldable pub with_next : Heap → Addr → Addr → Heap
with_next h p v a = elim (h a) [
  | none ↦ none
  | some n ↦ some (if a == p then record n { next = v } else n)
]

unfoldable pub with_tail : Heap → Addr → Tail → Heap
with_tail h p v a = elim (h a) [
  | none ↦ none
  | some n ↦ some (if a == p then record n { tail = v } else n)
]

unfoldable pub load : Addr → Code Task
load p tasks = elim (tasks p) [ some found ↦ some (found, tasks) | none ↦ none ]

-- std::get<0>(tail)
unfoldable pub get_link : Tail → Code Addr
get_link (link p) h = some (p, h)
get_link (handler k) h = none

-- std::get<1>(tail)
unfoldable pub get_handler : Tail → Code ℕ
get_handler (link p) h = none
get_handler (handler k) h = some (k, h)

unfoldable pub set_next : Addr → Addr → Code (Unit {0})
set_next p v tasks = elim (tasks p) [ some old ↦ some (tt, with_next tasks p v) | none ↦ none ]

unfoldable pub set_tail : Addr → Tail → Code (Unit {0})
set_tail p v tasks = elim (tasks p) [ some old ↦ some (tt, with_tail tasks p v) | none ↦ none ]

-- The task that `tail` of the task at `p` points to.
unfoldable pub last_link : Addr → Code Addr
unfolding load get_link
last_link p = do n ← load p; get_link n.tail

unfoldable pub is_empty : Addr → Code Bool
unfolding last_link
is_empty q = do l ← last_link q; give (l == q)

unfoldable pub push : Addr → Addr → Code (Unit {0})
unfolding last_link set_next set_tail
push q task = do set_next task q; l ← last_link q; set_next l task; set_tail q (link task)

unfoldable pub move_back : Addr → Addr → Code (Unit {0})
unfolding is_empty last_link load set_next set_tail
move_back q other = do
  empty ← is_empty other
  if empty then give tt else do
    l ← last_link q
    last ← load l
    ol ← last_link other
    set_next ol last.next
    oh ← load other
    l' ← last_link q
    set_next l' oh.next
    oh' ← load other
    set_tail q oh'.tail
    set_tail other (link other)
    set_next other other

-- `std::exchange(head_.next, head_.next->next)` of `pop`.
unfoldable pub exchange_next : Addr → Code Addr
unfolding load set_next
exchange_next q = do head ← load q; first ← load head.next; set_next q first.next; give head.next

unfoldable pub pop : Addr → Code Addr
unfolding last_link exchange_next load set_tail
pop q = do
  l ← last_link q
  head ← load q
  if l == head.next then (do set_tail q (link q); exchange_next q) else exchange_next q

-- The handler that `execute` calls with the task.
unfoldable pub execute : Addr → Code ℕ
unfolding load get_handler
execute task = do n ← load task; get_handler n.tail
