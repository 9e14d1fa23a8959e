-- ===== src/Poll/Arming.antt =====
-- `connect` and `start` keep every waiting task in the interest list, if no dispatch comes between.
use async_berkeley.Base.{
  ℕ, ◌≡◌, ◌-◌, if◌then◌else◌, refl, Bool, true, false, ◌||◌, none, some, List, ℤ, pos, int_eq,
  int_eq_refl, arith, length, get_elem?, set, get_elem?-set, Bool-cases, inl, inr, ◌⊎◌, ◌==◌,
  ==_iff,
}
use async_berkeley.Poll.Flags.{Flags, flags_or}
use async_berkeley.Poll.Interest.{Trigger, read, write, eager, make_poll_event, interest}
use async_berkeley.Poll.Order.{update_or_insert_lem}
use async_berkeley.Poll.Mux.{
  Platform, Op, Demultiplexer, Mux, World, connected, connect, start, enqueue, grow, is_eager,
  is_failing, complete, no_demux, push_task,
}
use async_berkeley.Poll.Submit.{Registered, connect-cases, start-cases, get_elem?-grown}
use async_berkeley.Poll.Wakeups.{ArmedAt, Armed, IsDescriptor, to_size-pos}

-- The mask holds the flag of the trigger.
abbrev pub AsksFor : Trigger → Flags → Type 0
AsksFor read f = f.pollin ≡ true
AsksFor write f = f.pollout ≡ true
AsksFor eager f = Unit {0}

AsksFor-mask :
    (t : Trigger) (x : Flags) (fd : ℤ) → AsksFor t (flags_or x (make_poll_event fd t).events)
unfolding make_poll_event flags_or
AsksFor-mask read x fd = ground arith
AsksFor-mask write x fd = ground arith
AsksFor-mask eager x fd = tt

module _ {W R : Type 0} where
  ArmedAt-or : (a b : Flags) (d : Demultiplexer W R) → ArmedAt a d → ArmedAt (flags_or a b) d
  unfolding flags_or
  ArmedAt-or a b d h = ground arith

  ArmedAt-empty : (a : Flags) → ArmedAt a (no_demux {W = W} {R = R})
  ArmedAt-empty a = record { readers = inl refl; writers = inl refl }

  ArmedAt-push :
      (a : Flags) (t : Trigger) (op : Op W R) (d : Demultiplexer W R)
      → AsksFor t a
      → ArmedAt a d
      → ArmedAt a (record (push_task t op d) { socket = some op.socket })
  ArmedAt-push a read op d asks h = record { readers = inr asks; writers = h.writers }
  ArmedAt-push a write op d asks h = record { readers = h.readers; writers = inr asks }
  ArmedAt-push a eager op d asks h = record { readers = h.readers; writers = h.writers }

  ArmedAt-if :
      (b : Bool) (x y z : Flags) (d : Demultiplexer W R)
      → x ≡ (if b then flags_or y z else y)
      → ArmedAt y d
      → ArmedAt x d
  ArmedAt-if true x y z d e h = rw e (ArmedAt-or y z d h)
  ArmedAt-if false x y z d e h = rw e h

  grown-old :
      (ds ds' : List (Demultiplexer W R)) (i : ℕ) (d : Demultiplexer W R)
      → (ds' ≡ ds) ⊎ ((n : ℕ) × (ds' ≡ grow n ds))
      → get_elem? ds' i ≡ some d
      → (get_elem? ds i ≡ some d) ⊎ (d ≡ no_demux)
  grown-old ds ds' i d (inl same) there = inl (rw same at there)
  grown-old ds ds' i d (inr (n, more)) there =
      get_elem?-grown ds (n - length ds) i no_demux d (rw more at there)

  Registered-Armed :
      (op : Op W R) (fd : ℤ) (m : Mux W R) (op' : Op W R) (m' : Mux W R)
      → Registered op fd m op' m'
      → Armed m
      → Armed m'
  unfolding make_poll_event
  Registered-Armed op fd m op' m' r a = record {
    sorted = rw r.list (update_or_insert_lem m.list (make_poll_event fd op.trigger) fd a.sorted).0;
    at = λ i d there.
        ArmedAt-if (int_eq fd (pos i)) (interest (pos i) m'.list) (interest (pos i) m.list)
          (make_poll_event fd op.trigger).events d
          (rw r.list
            (update_or_insert_lem m.list (make_poll_event fd op.trigger) (pos i) a.sorted).1)
          (armed_old i d (grown-old m.demux m'.demux i d r.grown there));
  }
    where
      armed_old :
          (i : ℕ) (d : Demultiplexer W R)
          → (get_elem? m.demux i ≡ some d) ⊎ (d ≡ no_demux)
          → ArmedAt (interest (pos i) m.list) d
      armed_old i d (inl old) = a.at i d old
      armed_old i d (inr new) = rw new (ArmedAt-empty (interest (pos i) m.list))

  module _ (P : Platform W) where
    start-Armed :
        (op : Op W R) (m : Mux W R) (w : World W R) (m' : Mux W R) (w' : World W R)
        → ((i : ℕ) → op.demux ≡ some i → AsksFor op.trigger (interest (pos i) m.list))
        → start P op m w ≡ some (m', w')
        → Armed m
        → Armed m'
    unfolding enqueue
    start-Armed op m w m' w' asks e a = go (start-cases P op m w m' w' e)
      where
        queued :
            (i : ℕ) (d : Demultiplexer W R)
            → op.demux ≡ some i
            → get_elem? m.demux i ≡ some d
            → (j : ℕ) (x : Demultiplexer W R) → get_elem? (set m.demux i (enqueue op d)) j ≡ some x
            → ArmedAt (interest (pos j) m.list) x
        queued i d at_i there j x at_j = elim (Bool-cases (i == j)) [
          | inl same ↦
              let i-j = (==_iff i j).0 same in
              let here : enqueue op d ≡ x =
                ground (arith, get_elem?-set m.demux i j d (enqueue op d) there) in
              rw (← here, ← i-j)
                (ArmedAt-push (interest (pos i) m.list) op.trigger op d (asks i at_i)
                  (a.at i d there))
          | inr other ↦ a.at j x (ground (arith, get_elem?-set m.demux i j d (enqueue op d) there))
        ]

        go :
            ((m' ≡ m) × (w' ≡ complete P op w))
              ⊎ ((i : ℕ) × (d : Demultiplexer W R) × (op.demux ≡ some i)
                  × (get_elem? m.demux i ≡ some d)
                  × (m' ≡ record m { demux = set m.demux i (enqueue op d) })
                  × (w' ≡ w))
            → Armed m'
        go (inl (same, _)) = rw same a
        go (inr (i, d, at_i, there, state, _)) =
            rw state (record { sorted = a.sorted; at = queued i d at_i there })

    Registered-asks :
        (op : Op W R) (fd : ℤ) (m : Mux W R) (op' : Op W R) (m' : Mux W R) (i : ℕ)
        → IsDescriptor fd
        → Registered op fd m op' m'
        → Armed m
        → op'.demux ≡ some i
        → AsksFor op'.trigger (interest (pos i) m'.list)
    unfolding make_poll_event
    Registered-asks op fd m op' m' i is r a at_i =
        let at_n : is.0 ≡ i = ground (arith, to_size-pos fd is.0 is.1 is.2, r.op_state) in
        let same : int_eq fd (pos i) ≡ true = rw (is.1, ← at_n) (int_eq_refl (pos is.0)) in
        let triggers : op'.trigger ≡ op.trigger = ground (arith, r.op_state) in
        rw
          (
            triggers,
            r.list,
            (update_or_insert_lem m.list (make_poll_event fd op.trigger) (pos i) a.sorted).1,
            same,
          )
          (AsksFor-mask op.trigger (interest (pos i) m.list) fd)

    -- An operation that is connected and at once started keeps every waiting task, itself included, in
    -- the interest list.
    pub submit-Armed :
        (op : Op W R) (m : Mux W R) (w : World W R) (op' : Op W R) (m₁ m₂ : Mux W R)
        (w₂ : World W R)
        → IsDescriptor (w.native op.socket)
        → connect P op m w ≡ connected op' m₁
        → start P op' m₁ w ≡ some (m₂, w₂)
        → Armed m
        → Armed m₂
    submit-Armed op m w op' m₁ m₂ w₂ is c s a = go (connect-cases P op m w op' m₁ c)
      where
        go :
            ((op' ≡ record op { demux = none })
                × (m₁ ≡ m)
                × ((is_eager op.trigger || is_failing P (w.errors op.socket)) ≡ true))
              ⊎ (Registered op (w.native op.socket) m op' m₁
                  × ((is_eager op.trigger || is_failing P (w.errors op.socket)) ≡ false))
            → Armed m₂
        go (inl (same_op, same, _)) =
            start-Armed op' m₁ w m₂ w₂ (λ i at_i. absurd (ground arith)) s (rw same a)
        go (inr (r, _)) =
            start-Armed op' m₁ w m₂ w₂
              (λ i at_i. Registered-asks op (w.native op.socket) m op' m₁ i is r a at_i) s
              (Registered-Armed op (w.native op.socket) m op' m₁ r a)
