-- ===== src/Socket/Handle/Threads/Invariant.antt =====
-- Who holds which mutex, and where the descriptors are while they are swapped.
use async_berkeley.Base.{
  ℕ, ◌≡◌, sym, ◌∙◌, Bool, true, false, ◌||◌, ℤ, ◌==◌, if◌then◌else◌, ◌⊎◌, inl, inr, arith,
  Bool-cases, ==_iff, ==_refl,
}
use async_berkeley.Socket.Handle.Threads.{
  update, Memory, Pc, idle, locked_both, loaded_socket, exchanged_socket, stored_socket,
  loaded_error, exchanged_error, stored_error,
}

abbrev pub holds : Pc → ℕ → Bool
holds idle k = false
holds (locked_both i j) k = (k == i) || (k == j)
holds (loaded_socket i j a) k = (k == i) || (k == j)
holds (exchanged_socket i j tmp) k = (k == i) || (k == j)
holds (stored_socket i j) k = (k == i) || (k == j)
holds (loaded_error i j a) k = (k == i) || (k == j)
holds (exchanged_error i j tmp) k = (k == i) || (k == j)
holds (stored_error i j) k = (k == i) || (k == j)

-- The thread has not yet stored the descriptor of the handle at `k`.
abbrev pub owes : Pc → ℕ → Bool
owes (exchanged_socket i j tmp) k = k == j
owes _ k = false

-- What the locals of a thread say, when `v` has the descriptors of the handles.
abbrev pub IsFresh : Memory → (ℕ → ℤ) → Pc → Type 0
IsFresh m v (locked_both i j) = (i == j) ≡ false
IsFresh m v (loaded_socket i j a) = ((i == j) ≡ false) × (m.sockets j ≡ a)
IsFresh m v (exchanged_socket i j tmp) = ((i == j) ≡ false) × (v j ≡ tmp)
IsFresh m v _ = Unit {0}

pub record Inv (v : ℕ → ℤ) (m : Memory) (pc : ℕ → Pc) : Type 0 where
  pub held : (t k : ℕ) → holds (pc t) k ≡ true → m.locked k ≡ true
  pub unique : (t u k : ℕ) → holds (pc t) k ≡ true → holds (pc u) k ≡ true → t ≡ u
  pub fresh : (t : ℕ) → IsFresh m v (pc t)
  pub settled : (k : ℕ) → (m.sockets k ≡ v k) ⊎ ((t : ℕ) × (owes (pc t) k ≡ true))

-- The descriptors after an exchange.
abbrev pub exchange_at : ℕ → ℕ → ℕ → ℕ
exchange_at i j k = if k == i then j else if k == j then i else k

-- Only the exchange of `socket_` changes which handle has which descriptor.
abbrev pub view : Pc → (ℕ → ℤ) → ℕ → ℤ
view (loaded_socket i j a) v k = v (exchange_at i j k)
view _ v k = v k

pub owes-holds : (p : Pc) (k : ℕ) → owes p k ≡ true → holds p k ≡ true
owes-holds (exchanged_socket i j tmp) k e = ground arith
owes-holds idle k e = absurd (ground arith)
owes-holds (locked_both i j) k e = absurd (ground arith)
owes-holds (loaded_socket i j a) k e = absurd (ground arith)
owes-holds (stored_socket i j) k e = absurd (ground arith)
owes-holds (loaded_error i j a) k e = absurd (ground arith)
owes-holds (exchanged_error i j a) k e = absurd (ground arith)
owes-holds (stored_error i j) k e = absurd (ground arith)

IsFresh-frame :
    (m m' : Memory) (v v' : ℕ → ℤ) (p : Pc)
    → ((k : ℕ) → holds p k ≡ true → (m'.sockets k ≡ m.sockets k) × (v' k ≡ v k))
    → IsFresh m v p
    → IsFresh m' v' p
IsFresh-frame m m' v v' idle same f = tt
IsFresh-frame m m' v v' (locked_both i j) same f = f
IsFresh-frame m m' v v' (loaded_socket i j a) same f =
    (f.0, (same j (ground (arith, ==_refl j))).0 ∙ f.1)
IsFresh-frame m m' v v' (exchanged_socket i j tmp) same f =
    (f.0, (same j (ground (arith, ==_refl j))).1 ∙ f.1)
IsFresh-frame m m' v v' (stored_socket i j) same f = tt
IsFresh-frame m m' v v' (loaded_error i j a) same f = tt
IsFresh-frame m m' v v' (exchanged_error i j a) same f = tt
IsFresh-frame m m' v v' (stored_error i j) same f = tt

-- What the thread `t` does in a step that brings it to `p'`.
pub record Change (v v' : ℕ → ℤ) (m m' : Memory) (pc : ℕ → Pc) (t : ℕ) (p' : Pc) : Type 0 where
  pub mine : (k : ℕ) → holds p' k ≡ true → m'.locked k ≡ true
  pub alone : (u k : ℕ) → holds p' k ≡ true → holds (pc u) k ≡ true → u ≡ t
  pub others :
      (u k : ℕ)
      → (u == t) ≡ false
      → holds (pc u) k ≡ true
      → (m'.locked k ≡ m.locked k) × (m'.sockets k ≡ m.sockets k) × (v' k ≡ v k)
  pub now : IsFresh m' v' p'
  pub settles :
      (k : ℕ)
      → (m'.sockets k ≡ v' k)
        ⊎ ((owes p' k ≡ true)
            ⊎ ((m'.sockets k ≡ m.sockets k) × (v' k ≡ v k) × (owes (pc t) k ≡ false)))

module _ {v : ℕ → ℤ} {m : Memory} {pc : ℕ → Pc} (inv : Inv v m pc) (t : ℕ) where
  pub Inv-Change :
      {v' : ℕ → ℤ} {m' : Memory} {p' : Pc} → Change v v' m m' pc t p' → Inv v' m' (update pc t p')
  Inv-Change {v'} {m'} {p'} c = record {
    held = λ u k e. held u k (Bool-cases (u == t)) e;
    unique = λ u w k e f.
        ground (arith, inv.unique u w k, c.alone u k, c.alone w k, ==_iff u t, ==_iff w t);
    fresh = λ u. fresh u (Bool-cases (u == t));
    settled = λ k. settled k (c.settles k);
  }
    where
      held :
          (u k : ℕ)
          → ((u == t) ≡ true) ⊎ ((u == t) ≡ false)
          → holds (update pc t p' u) k ≡ true
          → m'.locked k ≡ true
      held u k (inl is_t) e = c.mine k (rw is_t at e)
      held u k (inr other) e =
          let before : holds (pc u) k ≡ true = rw other at e in
          (c.others u k other before).0 ∙ inv.held u k before

      fresh : (u : ℕ) → ((u == t) ≡ true) ⊎ ((u == t) ≡ false) → IsFresh m' v' (update pc t p' u)
      fresh u (inl is_t) = rw is_t c.now
      fresh u (inr other) = rw other (
          IsFresh-frame m m' v v' (pc u)
            (λ k e. let (locks, sockets, same) = c.others u k other e in (sockets, same))
            (inv.fresh u))

      settled :
          (k : ℕ)
          → (m'.sockets k ≡ v' k)
            ⊎ ((owes p' k ≡ true)
                ⊎ ((m'.sockets k ≡ m.sockets k) × (v' k ≡ v k) × (owes (pc t) k ≡ false)))
          → (m'.sockets k ≡ v' k) ⊎ ((u : ℕ) × (owes (update pc t p' u) k ≡ true))
      settled k (inl there) = inl there
      settled k (inr (inl owed)) = inr (t, rw (==_refl t) owed)
      settled k (inr (inr (sockets, same, not_owed))) = elim (inv.settled k) [
        | inl there ↦ inl (sockets ∙ there ∙ sym same)
        | inr (u, owed) ↦
            let other : (u == t) ≡ false = ground (arith, ==_iff u t) in inr (u, rw other owed)
      ]

  -- A step of a thread in a call changes only what the thread has locked.
  pub Change-run :
      {v' : ℕ → ℤ} {m' : Memory} (p p' : Pc)
      → pc t ≡ p
      → ((k : ℕ) → holds p' k ≡ true → (holds p k ≡ true) × (m'.locked k ≡ m.locked k))
      → ((k : ℕ)
          → holds p k ≡ false
          → (m'.locked k ≡ m.locked k) × (m'.sockets k ≡ m.sockets k) × (v' k ≡ v k))
      → IsFresh m' v' p'
      → ((k : ℕ)
          → holds p k ≡ true
          → (m'.sockets k ≡ v' k)
            ⊎ ((owes p' k ≡ true)
                ⊎ ((m'.sockets k ≡ m.sockets k) × (v' k ≡ v k) × (owes p k ≡ false))))
      → Change v v' m m' pc t p'
  Change-run {v'} {m'} p p' e keeps outside now inside = record {
    mine = λ k h. (keeps k h).1 ∙ inv.held t k (rw e (keeps k h).0);
    alone = λ u k h f. inv.unique u t k f (rw e (keeps k h).0);
    others = λ u k other f. outside k (free u k other f (Bool-cases (holds p k)));
    now = now;
    settles = λ k. settles k (Bool-cases (holds p k));
  }
    where
      free :
          (u k : ℕ)
          → (u == t) ≡ false
          → holds (pc u) k ≡ true
          → (holds p k ≡ true) ⊎ (holds p k ≡ false)
          → holds p k ≡ false
      free u k other f (inl h) =
          let same : u ≡ t = inv.unique u t k f (rw e h) in absurd (ground (arith, ==_iff u t))
      free u k other f (inr h) = h

      settles :
          (k : ℕ)
          → (holds p k ≡ true) ⊎ (holds p k ≡ false)
          → (m'.sockets k ≡ v' k)
            ⊎ ((owes p' k ≡ true)
                ⊎ ((m'.sockets k ≡ m.sockets k) × (v' k ≡ v k) × (owes (pc t) k ≡ false)))
      settles k (inl h) = rw e (inside k h)
      settles k (inr h) =
          let (locks, sockets, same) = outside k h in
          let not_owed : owes p k ≡ false = ground (arith, owes-holds p k) in
          inr (inr (sockets, same, rw e not_owed))

  -- The descriptors are where `v` says, but for those that the thread itself owes.
  pub own-settled : (k : ℕ) → holds (pc t) k ≡ true → owes (pc t) k ≡ false → m.sockets k ≡ v k
  own-settled k h not_owed = elim (inv.settled k) [
    | inl there ↦ there
    | inr (u, owed) ↦
        let same : u ≡ t = inv.unique u t k (owes-holds (pc u) k owed) h in
        let owed' : owes (pc t) k ≡ true = rw (sym same) owed in absurd (ground arith)
  ]
