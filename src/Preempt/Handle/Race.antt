-- ===== src/Preempt/Handle/Race.antt =====
-- `despawn` of `rivet/src/preempt/mod.rs`: a wakeup between its critical section and its stores.
use rivet_rtos.Base.{
  ℕ, ◌≡◌, refl, sym, ap, ◌∙◌, true, false, update, ◌==◌, ltb, leb, arith, Bool-cases, Option-cases,
  inl, inr, some,
}
use rivet_rtos.Config.{Config}
use rivet_rtos.Word.{bit, set_bit}
use rivet_rtos.Word.Laws.{bit-set_bit}
use rivet_rtos.Preempt.Tcb.{Tcb, stack_info}
use rivet_rtos.Preempt.Sched.{
  Sched, set_task, emit, get, ready_add, ready_remove, wake_other_harts, set_state, unblock,
}
use rivet_rtos.Preempt.Sched.Invariant.{==_refl}
use rivet_rtos.Preempt.Sched.Frame.{ready_remove-tasks, get-used}
use rivet_rtos.Preempt.Sched.Transitions.{get-some}
use rivet_rtos.Preempt.Handle.{
  TaskHandle, find, despawn_remove, despawn_free, vacated, drop_part, free_parts, is_ref,
}
use rivet_rtos.Preempt.Handle.Queues.{find-some}

-- The calls of the drop function and of the pool touch no queue and no task.
free_parts-frame :
    (id : ℕ) (t : Tcb) (s : Sched)
    → ((free_parts id t s).tasks ≡ s.tasks) × ((free_parts id t s).queues ≡ s.queues)
unfolding free_parts drop_part emit
free_parts-frame id t s = elim (Option-cases (stack_info t)) [
  | inl e ↦ elim (Bool-cases (t.result_drop == 0)) [
    | inl f ↦ rw (e, free_parts, f) (refl, refl)
    | inr f ↦ rw (e, free_parts, f) (refl, refl)
  ]
  | inr (x, e) ↦ elim (Bool-cases (t.result_drop == 0)) [
    | inl f ↦ rw (e, free_parts, f) (refl, refl)
    | inr f ↦ rw (e, free_parts, f) (refl, refl)
  ]
]

-- A task that is unblocked is in the queue of its priority.
unblock-queued :
    (cfg : Config) (hart id : ℕ) (s : Sched) {t : Tcb}
    → get cfg id s ≡ some t
    → bit ((unblock cfg hart id s).queues (s.tasks id).effective_priority) id ≡ true
unfolding unblock set_state ready_add wake_other_harts set_task
unblock-queued cfg hart id s {t} e =
    let (hid, _, _) = get-some cfg id s e in
    let below : leb cfg.max_ptasks id ≡ false = ground (arith, hid) in
    let p = (s.tasks id).effective_priority in
    let set : bit (update s.queues p (set_bit (s.queues p) id) p) id ≡ true =
      rw (==_refl p) (bit-set_bit (s.queues p) id id ∙ rw (==_refl id) refl) in
    elim (Bool-cases (ltb 1 cfg.max_harts)) [
      | inl many ↦ rw (e, unblock, below, ==_refl id, many) set
      | inr one ↦ rw (e, unblock, below, ==_refl id, one) set
    ]

-- A task that is despawned, and unblocked before the slot is vacated, stays in its ready queue,
-- although the slot is not in use.
despawned_queued :
    (cfg : Config) (hart waker : ℕ) (h : TaskHandle) (s : Sched) {t : Tcb}
    → find cfg h s ≡ some t
    → is_ref h.id (s.current hart) ≡ false
    → (((despawn_free h.id (unblock cfg waker h.id (despawn_remove cfg hart h s).1)).tasks
          h.id).used
        ≡ false)
      × (bit
            ((despawn_free h.id (unblock cfg waker h.id (despawn_remove cfg hart h s).1)).queues
              (s.tasks h.id).effective_priority)
            h.id
          ≡ true)
unfolding despawn_remove despawn_free vacated set_task
despawned_queued cfg hart waker h s {t} found other =
    let r = ready_remove cfg h.id s in
    let kept : r.tasks ≡ s.tasks = ready_remove-tasks cfg waker h.id s in
    let (hid, live, same) = get-some cfg h.id s (find-some cfg h s found) in
    let here : get cfg h.id r ≡ some (r.tasks h.id) =
      get-used cfg h.id r hid (ap (λ ts. (ts h.id).used) kept ∙ live) in
    let u = unblock cfg waker h.id r in
    let frame = free_parts-frame h.id (u.tasks h.id) (set_task h.id (vacated (u.tasks h.id)) u) in
    rw (found, despawn_remove, other)
      (
        ap (λ ts. (ts h.id).used) frame.0 ∙ rw (==_refl h.id) refl,
        ap (λ q. bit (q (s.tasks h.id).effective_priority) h.id) frame.1
            ∙ ap (λ ts. bit (u.queues (ts h.id).effective_priority) h.id) (sym kept)
            ∙ unblock-queued cfg waker h.id r here,
      )
