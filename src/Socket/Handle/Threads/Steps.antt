-- ===== src/Socket/Handle/Threads/Steps.antt =====
-- Every step of every thread keeps the invariant.
use async_berkeley.Base.{
  ℕ, ◌≡◌, refl, sym, ap, ◌∙◌, true, false, ◌||◌, Option, some, subst, some_inj, ℤ, ◌==◌, ◌⊎◌, inl,
  inr, arith, Bool-cases, ==_iff, ==_refl,
}
use async_berkeley.Socket.Handle.Threads.{
  update, Memory, Pc, idle, locked_both, loaded_socket, exchanged_socket, stored_socket,
  loaded_error, exchanged_error, stored_error, Call, swap, set_error, begin, go_on, is_idle,
}
use async_berkeley.Socket.Handle.Threads.Invariant.{
  holds, owes, IsFresh, Inv, exchange_at, view, Inv-Change, Change-run, own-settled,
}

module _ {v : ℕ → ℤ} {m : Memory} {pc : ℕ → Pc} (inv : Inv v m pc) (t : ℕ) where
  -- A step that leaves the descriptors and the mutexes alone, with no store to come.
  still :
      (p p' : Pc) (m' : Memory)
      → pc t ≡ p
      → ((k : ℕ) → holds p' k ≡ true → holds p k ≡ true)
      → ((k : ℕ) → owes p k ≡ false)
      → IsFresh m' v p'
      → m'.sockets ≡ m.sockets
      → ((k : ℕ) → (holds p k ≡ false) ⊎ (holds p' k ≡ true) → m'.locked k ≡ m.locked k)
      → Inv v m' (update pc t p')
  still p p' m' e holding owing now same_sockets same_locked = Inv-Change inv t (
      Change-run inv t p p' e (λ k h. (holding k h, same_locked k (inr h)))
        (λ k h. (same_locked k (inl h), ap (λ (f : ℕ → ℤ). f k) same_sockets, refl)) now
        (λ k h. inr (inr (ap (λ (f : ℕ → ℤ). f k) same_sockets, refl, owing k))))

  exchanged_lem : (i j : ℕ) → (i == j) ≡ false → v (exchange_at i j j) ≡ v i
  exchanged_lem i j differ = ground (arith, ==_refl j)

  stored :
      (i j : ℕ) (a : ℤ) (k : ℕ)
      → ((i == j) ≡ false) × (m.sockets j ≡ a)
      → m.sockets i ≡ v i
      → m.sockets j ≡ v j
      → ((k == i) || (k == j)) ≡ true
      → (update m.sockets i a k ≡ v (exchange_at i j k))
        ⊎ ((owes (exchanged_socket i j (m.sockets i)) k ≡ true)
            ⊎ ((update m.sockets i a k ≡ m.sockets k)
                × (v (exchange_at i j k) ≡ v k)
                × (owes (loaded_socket i j a) k ≡ false)))
  stored i j a k f at_i at_j h = elim (Bool-cases (k == i)) [
    | inl is_i ↦ inl (rw is_i (sym f.1 ∙ at_j))
    | inr other ↦ inr (inl (ground arith))
  ]

  repaid :
      (i j : ℕ) (tmp : ℤ) (k : ℕ)
      → v j ≡ tmp
      → (update m.sockets j tmp k ≡ v k)
        ⊎ ((owes (stored_socket i j) k ≡ true)
            ⊎ ((update m.sockets j tmp k ≡ m.sockets k)
                × (v k ≡ v k)
                × (owes (exchanged_socket i j tmp) k ≡ false)))
  repaid i j tmp k e = elim (Bool-cases (k == j)) [
    | inl is_j ↦ inl (rw (is_j, (==_iff k j).0 is_j) (sym e))
    | inr other ↦ inr (inr (rw other refl, refl, other))
  ]

  unlocked :
      (i j k : ℕ)
      → (holds (stored_error i j) k ≡ false) ⊎ (holds idle k ≡ true)
      → update (update m.locked i false) j false k ≡ m.locked k
  unlocked i j k h = ground arith

  pub go_on-Inv : (p : Pc) → pc t ≡ p → Inv (view p v) (go_on m p).0 (update pc t (go_on m p).1)
  unfolding go_on
  go_on-Inv idle e = still idle idle m e (λ k h. h) (λ k. refl) tt refl (λ k h. refl)
  go_on-Inv (locked_both i j) e =
      still (locked_both i j) (loaded_socket i j (m.sockets j)) m e (λ k h. h) (λ k. refl)
        ((rw e at (inv.fresh t)), refl) refl (λ k h. refl)
  go_on-Inv (loaded_socket i j a) e =
      let f : ((i == j) ≡ false) × (m.sockets j ≡ a) = rw e at (inv.fresh t) in
      let at_i : m.sockets i ≡ v i =
        own-settled inv t i (rw e (ground (arith, ==_refl i))) (rw e refl) in
      let at_j : m.sockets j ≡ v j =
        own-settled inv t j (rw e (ground (arith, ==_refl j))) (rw e refl) in
      Inv-Change inv t (
        Change-run inv t (loaded_socket i j a) (exchanged_socket i j (m.sockets i)) e
          (λ k h. (h, refl)) (λ k h. (refl, ground arith, ground arith))
          (f.0, exchanged_lem i j f.0 ∙ sym at_i) (λ k h. stored i j a k f at_i at_j h))
  go_on-Inv (exchanged_socket i j tmp) e =
      let f : ((i == j) ≡ false) × (v j ≡ tmp) = rw e at (inv.fresh t) in
      Inv-Change inv t (
        Change-run inv t (exchanged_socket i j tmp) (stored_socket i j) e (λ k h. (h, refl))
          (λ k h. (refl, ground arith, refl)) tt (λ k h. repaid i j tmp k f.1))
  go_on-Inv (stored_socket i j) e =
      still (stored_socket i j) (loaded_error i j (m.errors j)) m e (λ k h. h) (λ k. refl) tt refl
        (λ k h. refl)
  go_on-Inv (loaded_error i j a) e =
      still (loaded_error i j a) (exchanged_error i j (m.errors i)) (go_on m (loaded_error i j a)).0
        e (λ k h. h) (λ k. refl) tt refl (λ k h. refl)
  go_on-Inv (exchanged_error i j tmp) e =
      still (exchanged_error i j tmp) (stored_error i j) (go_on m (exchanged_error i j tmp)).0 e
        (λ k h. h) (λ k. refl) tt refl (λ k h. refl)
  go_on-Inv (stored_error i j) e =
      still (stored_error i j) idle (go_on m (stored_error i j)).0 e (λ k h. absurd (ground arith))
        (λ k. refl) tt refl (λ k h. unlocked i j k h)

  -- Taking both mutexes.
  locking-Inv :
      (i j : ℕ)
      → pc t ≡ idle
      → (i == j) ≡ false
      → m.locked i ≡ false
      → m.locked j ≡ false
      → Inv v
          (record m { locked = update (update m.locked i true) j true })
          (update pc t (locked_both i j))
  locking-Inv i j e differ free_i free_j = Inv-Change inv t record {
    mine = λ k h. ground arith;
    alone = λ u k h f. absurd (taken u k h f);
    others = λ u k other f. (unchanged u k f, refl, refl);
    now = differ;
    settles = λ k. inr (inr (refl, refl, rw e refl));
  }
    where
      taken : (u k : ℕ) → holds (locked_both i j) k ≡ true → holds (pc u) k ≡ true → ⊥
      taken u k h f = ground (arith, inv.held u k, ==_iff k i, ==_iff k j)

      unchanged :
          (u k : ℕ) → holds (pc u) k ≡ true → update (update m.locked i true) j true k ≡ m.locked k
      unchanged u k f = ground (arith, inv.held u k, ==_iff k i, ==_iff k j)

  pub idle_lem : (p : Pc) → is_idle p ≡ true → p ≡ idle
  idle_lem p e = ground arith

  pub begin-Inv :
      (c : Call) (m' : Memory) (p' : Pc)
      → pc t ≡ idle
      → begin c m ≡ some (m', p')
      → Inv v m' (update pc t p')
  unfolding begin
  begin-Inv (set_error i e) m' p' at begins =
      subst (λ (r : Memory × Pc). Inv v r.0 (update pc t r.1)) (some_inj begins)
        (still idle idle (record m { errors = update m.errors i e }) at (λ k h. h) (λ k. refl) tt
          refl (λ k h. refl))
  begin-Inv (swap i j) m' p' at begins = elim (Bool-cases (i == j)) [
    | inl same ↦
        let goes : ◌≡◌ {A = Option (Memory × Pc)} (some (m, idle)) (some (m', p')) =
          rw same at begins in
        subst (λ (r : Memory × Pc). Inv v r.0 (update pc t r.1)) (some_inj goes)
          (still idle idle m at (λ k h. h) (λ k. refl) tt refl (λ k h. refl))
    | inr differ ↦ elim (Bool-cases (m.locked i || m.locked j)) [
      | inl taken ↦ absurd (ground arith)
      | inr free ↦
          let next : Memory × Pc =
            (record m { locked = update (update m.locked i true) j true }, locked_both i j) in
          let goes : ◌≡◌ {A = Option (Memory × Pc)} (some next) (some (m', p')) =
            rw (differ, free) at begins in
          subst (λ (r : Memory × Pc). Inv v r.0 (update pc t r.1)) (some_inj goes)
            (locking-Inv i j at differ (ground arith) (ground arith))
    ]
  ]
