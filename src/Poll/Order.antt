-- ===== src/Poll/Order.antt =====
-- The interest list stays sorted, and what each operation changes of it.
use async_berkeley.Base.{
  suc, ◌≡◌, refl, true, Bool, ◌&&◌, not, ◌∙◌, some, List, [], ◌∷◌, arith, ℤ, int_eq, int_lt,
  int_eq_refl, int_eq_cong, int_lt_ne, int_lt_cong, int_lt_asymm, int_lt_trans, int_lt_total,
  if◌then◌else◌, get_elem?, Bool-cases, inl, inr, ◌⊎◌,
}
use async_berkeley.Poll.Flags.{
  Flags, Pollfd, no_flags, flags_or, flags_without, no_flag, no_flags-or, no_flags-without,
}
use async_berkeley.Poll.Interest.{
  update_or_insert_event, upserted, upsert_lem, copy_active, clear_event, cleared, Ascending,
  Sorted, interest, interest-above,
}

Ascending-Sorted : (k : ℤ) (ps : List Pollfd) → Ascending k ps → Sorted ps
Ascending-Sorted k [] s = tt
Ascending-Sorted k (p ∷ ps) s = s.1

upserted-Ascending :
    (k : ℤ) (ps : List Pollfd) (e : Pollfd)
    → int_lt k e.fd ≡ true
    → Ascending k ps
    → Ascending k (upserted ps e)
upserted-Ascending k [] e h s = (h, tt)
upserted-Ascending k (p ∷ ps) e h s =
    ground (arith, upserted-Ascending p.fd ps e, int_lt_total p.fd e.fd)

upserted-Sorted : (ps : List Pollfd) (e : Pollfd) → Sorted ps → Sorted (upserted ps e)
upserted-Sorted [] e s = tt
upserted-Sorted (p ∷ ps) e s = ground (arith, upserted-Ascending p.fd ps e, int_lt_total p.fd e.fd)

interest-upserted :
    (ps : List Pollfd) (e : Pollfd) (fd : ℤ)
    → Sorted ps
    → interest fd (upserted ps e)
      ≡ (if int_eq e.fd fd then flags_or (interest fd ps) e.events else interest fd ps)
interest-upserted [] e fd s = ground (arith, no_flags-or e.events)
interest-upserted (p ∷ ps) e fd s = ground (
  arith,
  interest-upserted ps e fd (Ascending-Sorted p.fd ps s),
  interest-above fd p.fd ps s,
  int_lt_total p.fd e.fd,
  int_lt_ne p.fd e.fd fd,
  int_lt_ne e.fd p.fd fd,
  int_eq_cong p.fd e.fd fd,
  int_lt_cong p.fd e.fd fd,
  int_lt_asymm e.fd p.fd,
  no_flags-or e.events,
)

-- Adding an event keeps the interest list sorted; it adds the event's flags to those of its
-- descriptor, and leaves the interest in every other descriptor as it was.
pub update_or_insert_lem :
    (list : List Pollfd) (event : Pollfd) (fd : ℤ)
    → Sorted list
    → let new = (update_or_insert_event list event).0 in
      Sorted new
      × (interest fd new ≡ (
          if int_eq event.fd fd
          then flags_or (interest fd list) event.events
          else interest fd list))
update_or_insert_lem list event fd s =
    rw (upsert_lem list event) (upserted-Sorted list event s, interest-upserted list event fd s)

update-above :
    (p : Pollfd) (ps : List Pollfd) (event : Pollfd)
    → int_lt p.fd event.fd ≡ true
    → update_or_insert_event (p ∷ ps) event
      ≡ (p ∷ (update_or_insert_event ps event).0, suc (update_or_insert_event ps event).1)
unfolding update_or_insert_event
update-above p ps event h = ground arith

-- The returned position holds the entry of the event's descriptor.
pub update_or_insert_position :
    (list : List Pollfd) (event : Pollfd)
    → let r = update_or_insert_event list event in
      (p : Pollfd) × (get_elem? r.0 r.1 ≡ some p) × (int_eq p.fd event.fd ≡ true)
unfolding update_or_insert_event
update_or_insert_position [] event = (event, refl, int_eq_refl event.fd)
update_or_insert_position (p ∷ ps) event = elim (Bool-cases (int_lt p.fd event.fd)) [
  | inl below ↦
      let (q, there, same) = update_or_insert_position ps event in
      (q, ground (arith, update-above p ps event below, there), same)
  | inr above ↦ elim (Bool-cases (int_eq p.fd event.fd)) [
    | inl same ↦ (record p { events = flags_or p.events event.events }, ground arith, same)
    | inr new ↦ (event, ground arith, int_eq_refl event.fd)
  ]
]

-- One recursion for `clear_event`.
abbrev pub cleared_list : Pollfd → List Pollfd → List Pollfd
cleared_list e [] = []
cleared_list e (p ∷ ps) =
    let rest = cleared_list e ps in
    if int_lt p.fd e.fd
    then p ∷ rest
    else if int_eq p.fd e.fd
    then record p { events = cleared e.revents p.events } ∷ ps
    else p ∷ ps

pub clear_event_lem : (e : Pollfd) (ps : List Pollfd) → clear_event e ps ≡ cleared_list e ps
unfolding clear_event
clear_event_lem e [] = refl
clear_event_lem e (p ∷ ps) = ground (arith, clear_event_lem e ps)

cleared-Ascending :
    (k : ℤ) (e : Pollfd) (ps : List Pollfd) → Ascending k ps → Ascending k (cleared_list e ps)
cleared-Ascending k e [] s = s
cleared-Ascending k e (p ∷ ps) s = ground (arith, cleared-Ascending p.fd e ps)

cleared-Sorted : (e : Pollfd) (ps : List Pollfd) → Sorted ps → Sorted (cleared_list e ps)
cleared-Sorted e [] s = s
cleared-Sorted e (p ∷ ps) s = ground (arith, cleared-Ascending p.fd e ps)

cleared-none : (r : Flags) → cleared r no_flags ≡ no_flags
unfolding cleared
cleared-none r = ground (arith, no_flags-without r)

interest-cleared :
    (e : Pollfd) (ps : List Pollfd) (fd : ℤ)
    → Sorted ps
    → interest fd (cleared_list e ps)
      ≡ (if int_eq e.fd fd then cleared e.revents (interest fd ps) else interest fd ps)
interest-cleared e [] fd s = ground (arith, cleared-none e.revents)
interest-cleared e (p ∷ ps) fd s = ground (
  arith,
  interest-cleared e ps fd (Ascending-Sorted p.fd ps s),
  interest-above fd p.fd ps s,
  cleared-none e.revents,
  int_lt_total p.fd e.fd,
  int_lt_ne p.fd e.fd fd,
  int_lt_ne e.fd p.fd fd,
  int_eq_cong p.fd e.fd fd,
  int_lt_cong p.fd e.fd fd,
  int_lt_asymm e.fd p.fd,
)

pub clear_event-cleared :
    (event : Pollfd) (list : List Pollfd) (fd : ℤ)
    → Sorted list
    → Sorted (clear_event event list)
      × (interest fd (clear_event event list) ≡ (
          if int_eq event.fd fd
          then cleared event.revents (interest fd list)
          else interest fd list))
clear_event-cleared event list fd s =
    rw (clear_event_lem event list) (cleared-Sorted event list s, interest-cleared event list fd s)

-- A flag is still asked for if it was, and neither it nor an error was returned.
abbrev pub stays : Flags → Bool → Bool → Bool
stays revents returned asked = not revents.pollerr && not revents.pollnval && not returned && asked

-- Clearing an event keeps the list sorted. On the event's descriptor a flag is still asked for exactly
-- if it was asked for and was not returned, and neither POLLERR nor POLLNVAL was; every other
-- descriptor is left alone.
pub clear_event-interest :
    (event : Pollfd) (list : List Pollfd) (fd : ℤ)
    → Sorted list
    → Sorted (clear_event event list)
      × (interest fd (clear_event event list) ≡ (
          if int_eq event.fd fd
          then record {
            pollin = stays event.revents event.revents.pollin (interest fd list).pollin;
            pollout = stays event.revents event.revents.pollout (interest fd list).pollout;
            pollerr = stays event.revents event.revents.pollerr (interest fd list).pollerr;
            pollhup = stays event.revents event.revents.pollhup (interest fd list).pollhup;
            pollnval = stays event.revents event.revents.pollnval (interest fd list).pollnval;
          }
          else interest fd list))
unfolding cleared flags_without
clear_event-interest event list fd s =
    let (sorted, same) = clear_event-cleared event list fd s in (sorted, same ∙ ground arith)

Ascending-copy :
    (k j : ℤ) (ps : List Pollfd)
    → (int_lt k j ≡ true) ⊎ (k ≡ j)
    → Ascending j ps
    → Ascending k (copy_active ps)
unfolding copy_active
Ascending-copy k j [] h s = tt
Ascending-copy k j (p ∷ ps) h s = ground (
  arith,
  Ascending-copy p.fd p.fd ps (inr refl) s.1,
  Ascending-copy k p.fd ps,
  int_lt_trans k j p.fd,
)

copy-Sorted : (ps : List Pollfd) → Sorted ps → Sorted (copy_active ps)
unfolding copy_active
copy-Sorted [] s = s
copy-Sorted (p ∷ ps) s =
    ground
      (arith, Ascending-copy p.fd p.fd ps (inr refl) s, copy-Sorted ps (Ascending-Sorted p.fd ps s))

interest-copy :
    (ps : List Pollfd) (fd : ℤ) → Sorted ps → interest fd (copy_active ps) ≡ interest fd ps
unfolding copy_active
interest-copy [] fd s = refl
interest-copy (p ∷ ps) fd s = ground (
  arith,
  interest-copy ps fd (Ascending-Sorted p.fd ps s),
  no_flag p.events,
  interest-above fd p.fd ps s,
  int_lt_ne p.fd fd fd,
  int_eq_refl fd,
  int_lt_cong p.fd p.fd fd,
  int_eq_cong p.fd fd p.fd,
)

-- The copy that is polled is sorted and asks for the same events on every descriptor.
pub copy_active-interest :
    (list : List Pollfd) (fd : ℤ)
    → Sorted list
    → Sorted (copy_active list) × (interest fd (copy_active list) ≡ interest fd list)
copy_active-interest list fd s = (copy-Sorted list s, interest-copy list fd s)
