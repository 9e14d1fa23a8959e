-- ===== src/Poll/Completion.antt =====
-- Every ready task completes once, in the order of the queue.
use async_berkeley.Base.{
  ℕ, ◌≡◌, refl, ◌∙◌, List, [], ◌∷◌, ◌++◌, map, append_assoc, append-nil, arith, inl, inr,
  Bool-cases, Option-cases,
}
use mathlib.Core.List.{map-append}
use async_berkeley.Poll.Mux.{
  Platform, Op, World, Signal, set_value, set_error, complete, is_failing,
}
use async_berkeley.Poll.Wait.{run_ready}

abbrev pub receiver_of : {R : Type 0} → Signal R → ℕ
receiver_of (set_value k v) = k
receiver_of (set_error k e) = k

module _ {W R : Type 0} where
  module _ (P : Platform W) where
    -- A completion sends one signal, to the task's own receiver.
    complete-signal :
        (op : Op W R) (w : World W R)
        → (x : Signal R) × ((complete P op w).signals ≡ w.signals ++ x ∷ [])
          × (receiver_of x ≡ op.receiver)
    unfolding complete
    complete-signal op w = elim (Bool-cases (is_failing P (w.errors op.socket))) [
      | inl bad ↦ (set_error op.receiver (w.errors op.socket), ground arith, refl)
      | inr fine ↦ elim (Option-cases (op.func w.os).0) [
        | inl nothing ↦ (set_error op.receiver (P.errno (op.func w.os).1), ground arith, refl)
        | inr (v, e) ↦ (set_value op.receiver v, ground arith, refl)
      ]
    ]

    -- Running the ready tasks sends exactly one signal to the receiver of each, in their order, behind
    -- the signals that were there.
    pub run_ready-signals :
        (ready : List (Op W R)) (w : World W R)
        → map receiver_of (run_ready P ready w).signals
          ≡ map receiver_of w.signals ++ map (λ op. op.receiver) ready
    unfolding run_ready
    run_ready-signals [] w = rw append-nil refl
    run_ready-signals (op ∷ ops) w =
        let (x, sent, mine) = complete-signal op w in
        run_ready-signals ops (complete P op w) ∙ rw (sent, map-append, mine, append_assoc) refl
