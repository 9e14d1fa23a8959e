-- ===== src/Poll/Interest.antt =====
-- The interest list of include/io/execution/impl/poll_multiplexer_impl.hpp: `update_or_insert_event`,
-- `make_poll_event`, `copy_active` and `clear_event`.
use async_berkeley.Base.{
  ℕ, zero, suc, ◌≡◌, refl, true, false, ◌||◌, none, some, List, [], ◌∷◌, arith, ℤ, int_eq, int_lt,
  int_lt_trans, int_lt_cong, if◌then◌else◌, get_elem?, set,
}
use async_berkeley.Poll.Flags.{Flags, Pollfd, no_flags, flags_or, flags_without, any_flag}

pub data Trigger : Type 0 where
  read write eager : Trigger

-- std::ranges::lower_bound by `fd`: the first position whose descriptor is not below.
unfoldable pub lower_bound : List Pollfd → ℤ → ℕ
lower_bound [] fd = 0
lower_bound (p ∷ ps) fd = if int_lt p.fd fd then suc (lower_bound ps fd) else 0

-- std::vector::insert
abbrev pub insert_at : List Pollfd → ℕ → Pollfd → List Pollfd
insert_at ps zero e = e ∷ ps
insert_at [] (suc i) e = e ∷ []
insert_at (p ∷ ps) (suc i) e = p ∷ insert_at ps i e

-- The new list, and the position whose address is returned.
unfoldable pub update_or_insert_event : List Pollfd → Pollfd → List Pollfd × ℕ
unfolding lower_bound flags_or int_lt int_eq
update_or_insert_event list event =
    let i = lower_bound list event.fd in
    let inserted : List Pollfd × ℕ = (insert_at list i event, i) in
    elim (get_elem? list i) [
      | none ↦ inserted
      | some p ↦
          if int_eq p.fd event.fd
          then (set list i (record p { events = flags_or p.events event.events }), i)
          else inserted
    ]

-- The mask of a trigger: POLLIN or POLLOUT.
abbrev pub trigger_mask : Trigger → Flags
trigger_mask read = record no_flags { pollin = true }
trigger_mask write = record no_flags { pollout = true }
trigger_mask eager = no_flags

unfoldable pub make_poll_event : ℤ → Trigger → Pollfd
unfolding flags_or
make_poll_event fd trigger = record {
  fd = fd;
  events = flags_or no_flags (trigger_mask trigger);
  revents = no_flags;
}

unfoldable pub copy_active : List Pollfd → List Pollfd
unfolding any_flag
copy_active [] = []
copy_active (p ∷ ps) = if any_flag p.events then p ∷ copy_active ps else copy_active ps

-- What `clear_event` does to the entry that it finds.
unfoldable pub cleared : Flags → Flags → Flags
unfolding flags_without
cleared revents events =
    flags_without (if revents.pollerr || revents.pollnval then no_flags else events) revents

unfoldable pub clear_event : Pollfd → List Pollfd → List Pollfd
unfolding lower_bound cleared int_lt int_eq
clear_event event list =
    let i = lower_bound list event.fd in
    elim (get_elem? list i) [
      | none ↦ list
      | some p ↦
          if int_eq p.fd event.fd
          then set list i (record p { events = cleared event.revents p.events })
          else list
    ]

-- Descriptors rise strictly.
abbrev pub Ascending : ℤ → List Pollfd → Type 0
Ascending k [] = Unit {0}
Ascending k (p ∷ ps) = (int_lt k p.fd ≡ true) × Ascending p.fd ps

abbrev pub Sorted : List Pollfd → Type 0
Sorted [] = Unit {0}
Sorted (p ∷ ps) = Ascending p.fd ps

-- The events that the list asks for on a descriptor.
abbrev pub interest : ℤ → List Pollfd → Flags
interest fd [] = no_flags
interest fd (p ∷ ps) = if int_eq p.fd fd then p.events else interest fd ps

pub interest-above :
    (fd : ℤ) (k : ℤ) (ps : List Pollfd)
    → Ascending k ps
    → int_lt k fd ≡ false
    → interest fd ps ≡ no_flags
interest-above fd k [] s h = refl
interest-above fd k (p ∷ ps) s h =
    ground (arith, interest-above fd p.fd ps s.1, int_lt_trans k p.fd fd, int_lt_cong k p.fd fd)

-- Both ways to write an entry, as one recursion along the list.
abbrev pub upserted : List Pollfd → Pollfd → List Pollfd
upserted [] e = e ∷ []
upserted (p ∷ ps) e =
    let rest = upserted ps e in
    if int_lt p.fd e.fd
    then p ∷ rest
    else if int_eq p.fd e.fd
    then record p { events = flags_or p.events e.events } ∷ ps
    else e ∷ p ∷ ps

pub upsert_lem : (ps : List Pollfd) (e : Pollfd) → (update_or_insert_event ps e).0 ≡ upserted ps e
unfolding update_or_insert_event
upsert_lem [] e = refl
upsert_lem (p ∷ ps) e = ground (arith, upsert_lem ps e)
