-- ===== src/Timer/Slots.antt =====
-- The timer slots of `rivet/src/timer.rs`: registration and cancellation.
use rivet_rtos.Base.{
  ℕ, zero, suc, ◌+◌, ◌≤◌, ◌≡◌, refl, sym, ap, ◌∙◌, true, ◌==◌, if◌then◌else◌, arith, Bool-cases,
  inl, inr, some, none, List, [], ◌∷◌, get_elem?, set, length,
}
use rivet_rtos.Coop.TaskId.{TaskId}
use rivet_rtos.Timer.{
  TimerSlot, TimerHandle, Timers, register_from, register_deadline, cancel_deadline,
}

-- Number of slots in use.
pub used_slots : List TimerSlot → ℕ
used_slots [] = 0
used_slots (slot ∷ slots) = (if slot.deadline == 0 then 0 else 1) + used_slots slots

used_slots-le : (slots : List TimerSlot) → used_slots slots ≤ length slots
unfolding used_slots
used_slots-le [] = omega arith
used_slots-le (slot ∷ slots) = ground (arith, used_slots-le slots)

-- Registration fails exactly when every slot is in use.
pub register_full_queue :
    (i d : ℕ) (task : TaskId) (slots : List TimerSlot)
    → ((register_from i d task slots).0 ≡ none → used_slots slots ≡ length slots)
      × (used_slots slots ≡ length slots → (register_from i d task slots).0 ≡ none)
unfolding register_from used_slots
register_full_queue i d task [] = (λ _. refl, λ _. refl)
register_full_queue i d task (slot ∷ slots) =
    let ih = register_full_queue (i + 1) d task slots in
    let le = used_slots-le slots in
    elim (Bool-cases (slot.deadline == 0)) [
      | inl e ↦ rw e (λ h. cc, λ h. absurd (omega arith))
      | inr e ↦ rw e (λ h. omega (arith, ih.0 h), λ h. ih.1 (omega arith))
    ]

abbrev deadline_at : List TimerSlot → ℕ → ℕ
deadline_at slots i = elim (get_elem? slots i) [ none ↦ 0 | some slot ↦ slot.deadline ]

-- Where a registration went, counted from the first slot of the scan.
record WentTo (i d : ℕ) (task : TaskId) (slots slots' : List TimerSlot) (h : TimerHandle)
    : Type 0 where
  place : ℕ
  slot_is : h.slot ≡ i + place
  deadline_is : h.deadline ≡ d
  old : TimerSlot
  was_free : (get_elem? slots place ≡ some old) × (old.deadline ≡ 0)
  stored : slots' ≡ set slots place (record { deadline = d; task = task })

register_from-WentTo :
    (i d : ℕ) (task : TaskId) (slots : List TimerSlot) (h : TimerHandle)
    → (register_from i d task slots).0 ≡ some h
    → WentTo i d task slots (register_from i d task slots).1 h
unfolding register_from
register_from-WentTo i d task [] h e = cc
register_from-WentTo i d task (slot ∷ slots) h e = elim (Bool-cases (slot.deadline == 0)) [
  | inl free ↦
      let e' : some (record { slot = i; deadline = d }) ≡ some h = rw free at e in
      let at_i : h.slot ≡ i = ap (λ o. elim o [ none ↦ i | some g ↦ g.slot ]) (sym e') in
      let at_d : h.deadline ≡ d = ap (λ o. elim o [ none ↦ d | some g ↦ g.deadline ]) (sym e') in
      rw free (record {
        place = 0;
        slot_is = omega arith;
        deadline_is = at_d;
        old = slot;
        was_free = (refl, ground arith);
        stored = refl;
      })
  | inr busy ↦
      let ih = register_from-WentTo (i + 1) d task slots h (rw busy at e) in
      rw busy (record {
        place = suc ih.place;
        slot_is = omega (arith, ih.slot_is);
        deadline_is = ih.deadline_is;
        old = ih.old;
        was_free = ih.was_free;
        stored = ap (λ r. slot ∷ r) ih.stored;
      })
]

pub deadlines : List TimerSlot → List ℕ
deadlines [] = []
deadlines (slot ∷ slots) = slot.deadline ∷ deadlines slots

deadlines-set :
    (slots : List TimerSlot) (k : ℕ) (old new : TimerSlot)
    → get_elem? slots k ≡ some old
    → old.deadline ≡ new.deadline
    → deadlines (set slots k new) ≡ deadlines slots
unfolding deadlines
deadlines-set [] k old new h e = refl
deadlines-set (slot ∷ slots) zero old new h e =
    let same : slot ≡ old = cc in
    ap (λ d. d ∷ deadlines slots) (sym e ∙ sym (ap (λ (t : TimerSlot). t.deadline) same))
deadlines-set (slot ∷ slots) (suc k) old new h e =
    ap (λ r. slot.deadline ∷ r) (deadlines-set slots k old new h e)

get_elem?-set_found :
    (slots : List TimerSlot) (k : ℕ) (old new : TimerSlot)
    → get_elem? slots k ≡ some old
    → get_elem? (set slots k new) k ≡ some new
get_elem?-set_found [] k old new h = cc
get_elem?-set_found (slot ∷ slots) zero old new h = refl
get_elem?-set_found (slot ∷ slots) (suc k) old new h = get_elem?-set_found slots k old new h

set-set :
    (slots : List TimerSlot) (k : ℕ) (a b : TimerSlot) → set (set slots k a) k b ≡ set slots k b
set-set [] k a b = refl
set-set (slot ∷ slots) zero a b = refl
set-set (slot ∷ slots) (suc k) a b = ap (λ r. slot ∷ r) (set-set slots k a b)

-- A registration that succeeds stores its deadline and task in the slot of its handle, and its
-- cancellation gives every slot its deadline back.
pub cancel-register :
    (d : ℕ) (task : TaskId) (t : Timers) (h : TimerHandle)
    → (register_deadline d task t).0 ≡ some h
    → (get_elem? (register_deadline d task t).1.slots h.slot
        ≡ some (record { deadline = d; task = task }))
      × (deadlines (cancel_deadline h (register_deadline d task t).1).slots ≡ deadlines t.slots)
unfolding register_deadline cancel_deadline
cancel-register d task t h e =
    let went = register_from-WentTo 0 d task t.slots h e in
    let at_place : h.slot ≡ went.place = omega (arith, went.slot_is) in
    let here : get_elem? (register_from 0 d task t.slots).1 h.slot
        ≡ some (record { deadline = d; task = task }) =
      rw (went.stored, at_place)
        (get_elem?-set_found t.slots went.place went.old _ went.was_free.0) in
    let same : (d == h.deadline) ≡ true = ground (arith, went.deadline_is) in
    (
      here,
      rw (here, cancel_deadline, same)
          (rw (went.stored, at_place)
            (rw set-set
              (deadlines-set t.slots went.place went.old _ went.was_free.0 went.was_free.1))),
    )
