-- ===== src/Preempt/Handle/Queues.antt =====
-- `pause`, `resume` and `despawn` of `rivet/src/preempt/mod.rs`, and the ready queues.
use rivet_rtos.Base.{
  ℕ, ◌<◌, ◌≡◌, refl, sym, ap, subst, ◌∙◌, true, false, ◌==◌, leb, arith, Bool-cases, Option-cases,
  inl, inr, some,
}
use rivet_rtos.Config
use rivet_rtos.Config.{Config}
use rivet_rtos.Word.{bit}
use rivet_rtos.Word.Laws.{bit-set_bit}
use rivet_rtos.Preempt.Tcb.{Tcb, RawState, stack_info, state_of}
use rivet_rtos.Preempt.Sched.{
  Sched, Effect, is_ready_state, drop_result, release_stack, set_task, emit, get, ready_remove,
  dequeue, set_effective_priority, on_effective_priority_change, enqueue,
}
use rivet_rtos.Preempt.Sched.Invariant.{
  is_ready, IsConsistent, ==_refl, ready_add-IsConsistent, ready_remove-IsConsistent,
}
use rivet_rtos.Preempt.Sched.Frame.{ready_remove-tasks}
use rivet_rtos.Preempt.Sched.Transitions.{get-some}
use rivet_rtos.Preempt.Handle.{
  TaskHandle, find, pause, resume, despawn, despawn_remove, despawn_free, vacated, drop_part,
  free_parts, is_suspended, is_ref,
}

pub emit-IsConsistent :
    (cfg : Config) (e : Effect) {s : Sched} → IsConsistent cfg s → IsConsistent cfg (emit e s)
unfolding emit
emit-IsConsistent cfg e c = record { queued = c.queued; levels = c.levels }

pub find-some :
    (cfg : Config) (h : TaskHandle) (s : Sched) {t : Tcb}
    → find cfg h s ≡ some t
    → get cfg h.id s ≡ some t
unfolding find
find-some cfg h s e = elim (Option-cases (get cfg h.id s)) [
  | inl n ↦ absurd (ground (arith, e, n))
  | inr (u, f) ↦ ground (arith, e, f)
]

module _ (cfg : Config) (valid : Config.IsValid cfg) where
  module _ (h : TaskHandle) {s : Sched} (c : IsConsistent cfg s) where
    pause-lem : IsConsistent cfg (pause cfg h s).1
    unfolding pause
    pause-lem = elim (Option-cases (find cfg h s)) [
      | inl e ↦ rw (e, pause) c
      | inr (t, e) ↦ elim (Bool-cases (is_ready (s.tasks h.id).state)) [
        | inl f ↦
            let (hid, live, _) = get-some cfg h.id s (find-some cfg h s e) in
            rw (e, pause, f)
              (ready_remove-IsConsistent cfg valid c h.id hid
                (record (s.tasks h.id) { state = RawState.suspended }) (c.levels h.id hid)
                (λ p q. ground arith) (ground arith))
        | inr f ↦ rw (e, pause, f) c
      ]
    ]

    resume-lem : (hart : ℕ) → IsConsistent cfg (resume cfg hart h s).1
    unfolding resume
    resume-lem hart = elim (Option-cases (find cfg h s)) [
      | inl e ↦ rw (e, resume) c
      | inr (t, e) ↦ elim (Bool-cases (is_suspended (s.tasks h.id).state)) [
        | inl f ↦
            let (hid, live, _) = get-some cfg h.id s (find-some cfg h s e) in
            rw (e, resume, f)
              (ready_add-IsConsistent cfg valid c h.id hid
                (record (s.tasks h.id) { state = RawState.ready }) (c.levels h.id hid)
                (λ p q. ground arith) hart (ground arith))
        | inr f ↦ rw (e, resume, f) c
      ]
    ]

    swap_remove :
        h.id < cfg.max_ptasks
        → ready_remove cfg h.id (set_task h.id (vacated (s.tasks h.id)) s)
          ≡ set_task h.id (vacated (s.tasks h.id)) (ready_remove cfg h.id s)
    unfolding ready_remove dequeue set_task vacated
    swap_remove hid =
        let e : leb cfg.max_ptasks h.id ≡ false = ground (arith, hid) in rw (e, ==_refl h.id) refl

    vacate-IsConsistent :
        {t : Tcb}
        → get cfg h.id s ≡ some t
        → IsConsistent cfg (
            set_task h.id
              (vacated ((ready_remove cfg h.id s).tasks h.id))
              (ready_remove cfg h.id s))
    unfolding vacated
    vacate-IsConsistent e =
        let (hid, live, _) = get-some cfg h.id s e in
        let kept : (ready_remove cfg h.id s).tasks h.id ≡ s.tasks h.id =
          ap (λ ts. ts h.id) (ready_remove-tasks cfg 0 h.id s) in
        subst (λ (t : Tcb). IsConsistent cfg (set_task h.id (vacated t) (ready_remove cfg h.id s)))
          (sym kept)
          (rw (sym (swap_remove hid)) (
            ready_remove-IsConsistent cfg valid c h.id hid (vacated (s.tasks h.id))
              (c.levels h.id hid) (λ p q. ground arith) refl))

    drop_part-IsConsistent :
        (id : ℕ) (t : Tcb) {r : Sched} → IsConsistent cfg r → IsConsistent cfg (drop_part id t r)
    unfolding drop_part
    drop_part-IsConsistent id t {r} k = elim (Bool-cases (t.result_drop == 0)) [
      | inl e ↦ rw e k
      | inr e ↦ rw e (emit-IsConsistent cfg (drop_result t.result_drop id) k)
    ]

    free_parts-IsConsistent :
        (id : ℕ) (t : Tcb) {r : Sched} → IsConsistent cfg r → IsConsistent cfg (free_parts id t r)
    unfolding free_parts
    free_parts-IsConsistent id t {r} k = elim (Option-cases (stack_info t)) [
      | inl f ↦ rw (f, free_parts) (drop_part-IsConsistent id t k)
      | inr ((b, z), f) ↦
          rw (f, free_parts)
            (emit-IsConsistent cfg (release_stack b z) (drop_part-IsConsistent id t k))
    ]

    despawn-lem : (hart : ℕ) → IsConsistent cfg (despawn cfg hart h s).1
    unfolding despawn despawn_remove despawn_free
    despawn-lem hart = elim (Option-cases (find cfg h s)) [
      | inl e ↦ rw (e, despawn_remove) c
      | inr (t, e) ↦ elim (Bool-cases (is_ref h.id (s.current hart))) [
        | inl f ↦ rw (e, despawn_remove, f) c
        | inr f ↦
            rw (e, despawn_remove, f)
              (free_parts-IsConsistent h.id ((ready_remove cfg h.id s).tasks h.id)
                (vacate-IsConsistent (find-some cfg h s e)))
      ]
    ]

-- With a valid configuration, pausing, resuming, and despawning with no other call between its
-- critical section and its stores, keep the ready queues in agreement with the states of the
-- tasks, with a stale handle as well as with a good one.
pub handle-IsConsistent :
    (cfg : Config)
    → Config.IsValid cfg
    → (hart : ℕ) (h : TaskHandle) (s : Sched) → IsConsistent cfg s
    → IsConsistent cfg (pause cfg h s).1
      × IsConsistent cfg (resume cfg hart h s).1
      × IsConsistent cfg (despawn cfg hart h s).1
handle-IsConsistent cfg valid hart h s c =
    (pause-lem cfg valid h c, resume-lem cfg valid h c hart, despawn-lem cfg valid h c hart)

-- A paused task whose effective priority is changed is put into a ready queue, although its state
-- stays `suspended`: the queues no longer agree with the states.
pub boosted_paused_queued :
    (cfg : Config) (id new : ℕ) (s : Sched) {t : Tcb}
    → get cfg id s ≡ some t
    → t.state ≡ RawState.suspended
    → (t.effective_priority == new) ≡ false
    → (bit ((set_effective_priority cfg id new s).queues new) id ≡ true)
      × (((set_effective_priority cfg id new s).tasks id).state ≡ RawState.suspended)
unfolding set_effective_priority on_effective_priority_change set_task enqueue dequeue
    is_ready_state state_of
boosted_paused_queued cfg id new s {t} e paused differs =
    let (hid, live, same) = get-some cfg id s e in
    let below : leb cfg.max_ptasks id ≡ false = ground (arith, hid) in
    let was : ((s.tasks id).effective_priority == new) ≡ false = rw same differs in
    let held : (s.tasks id).state ≡ RawState.suspended = rw same paused in
    rw (below, was, ==_refl id, held, ==_refl new)
      (bit-set_bit _ id id ∙ ground arith, ground arith)
