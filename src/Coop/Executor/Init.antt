-- ===== src/Coop/Executor/Init.antt =====
-- `init` of `rivet/src/executor.rs`: the registry it builds, and the tasks it marks ready.
use rivet_rtos.Base.{
  ℕ, zero, suc, ◌+◌, ◌%◌, ◌^◌, ◌≤◌, ◌<◌, ◌≡◌, refl, false, none, some, List, [], ◌∷◌, arith,
  Bool-cases, Option-cases, inl, inr, Table, update, ltb, leb, ◌||◌, ◌&&◌, subst, ◌==◌, length,
}
use native.Mathlib.Decide.{ℕ_discrete}
use rivet_rtos.Config
use rivet_rtos.Config.{Config}
use rivet_rtos.Word.{bits}
use rivet_rtos.Preempt.Sched.Queues.{Members, Queues-ext}
use rivet_rtos.Coop.TaskId
use rivet_rtos.Coop.TaskId.{TaskId, priority-new, index-new}
use rivet_rtos.Coop.Waker.{Waker}
use rivet_rtos.Coop.Waker.Laws.{Holds, IsTask, mark_ready-Holds}
use rivet_rtos.Coop.Executor.{
  Registry, empty_registry, max_priority, add_reg, add_regs, and_then, mark_indices, mark_all, init,
}

-- The registry after `n` registrations.
pub record Filled (cfg : Config) (n : ℕ) (r : Registry) : Type 0 where
  pub live : r.live ≡ n
  pub entries : (p i j : ℕ) → r.tasks p i ≡ some j → (j < n) × (i < r.count_per_priority p)
  pub present : (p i : ℕ) → i < r.count_per_priority p → (j : ℕ) × (r.tasks p i ≡ some j)
  pub room : (p : ℕ) → r.count_per_priority p ≤ cfg.max_coop
  pub top : (p : ℕ) → max_priority cfg < p → r.count_per_priority p ≡ 0

empty-Filled : (cfg : Config) → Filled cfg 0 empty_registry
empty-Filled cfg = record {
  live = refl;
  entries = λ p i j e. cc;
  present = λ p i h. elim h [ ];
  room = λ p. omega arith;
  top = λ p h. refl;
}

module _ (cfg : Config) (k prio : ℕ) (r : Registry) (f : Filled cfg k r)
    (level : prio ≤ max_priority cfg) (fits : r.count_per_priority prio < cfg.max_coop) where
  abbrev added : Registry
  added = record {
    tasks = update r.tasks prio (update (r.tasks prio) (r.count_per_priority prio) (some k));
    count_per_priority = update r.count_per_priority prio (r.count_per_priority prio + 1);
    total = (r.total + 1) % 2 ^ 8;
    live = r.live + 1;
  }

  added-entries :
      (p i j : ℕ) → added.tasks p i ≡ some j → (j < k + 1) × (i < added.count_per_priority p)
  added-entries p i j e = elim (ℕ_discrete prio p) [
    | yes same ↦
        subst (λ q. added.tasks q i ≡ some j → (j < k + 1) × (i < added.count_per_priority q)) same
          (λ h. ground (arith, f.entries prio i j)) e
    | no ne ↦ ground (arith, f.entries p i j)
  ]

  added-present : (p i : ℕ) → i < added.count_per_priority p → (j : ℕ) × (added.tasks p i ≡ some j)
  added-present p i h = elim (ℕ_discrete prio p) [
    | yes same ↦
        subst (λ q. i < added.count_per_priority q → (j : ℕ) × (added.tasks q i ≡ some j)) same
          (λ g. elim (ℕ_discrete (r.count_per_priority prio) i) [
            | yes new ↦ (k, ground arith)
            | no old ↦ let (j, e) = f.present prio i (ground arith) in (j, ground arith)
          ])
          h
    | no ne ↦ let (j, e) = f.present p i (ground arith) in (j, ground arith)
  ]

  added-Filled : Filled cfg (k + 1) added
  added-Filled = record {
    live = omega (arith, f.live);
    entries = added-entries;
    present = added-present;
    room = λ p. ground (arith, f.room p);
    top = λ p h. ground (arith, f.top p h);
  }

module _ (cfg : Config) where
  add_reg-Filled :
      (k prio : ℕ) (r : Registry)
      → Filled cfg k r
      → (r' : Registry) → add_reg cfg k prio r ≡ some r'
      → Filled cfg (k + 1) r'
  unfolding add_reg
  add_reg-Filled k prio r f r' e =
      elim (Bool-cases
        (ltb (max_priority cfg) prio || leb cfg.max_coop (r.count_per_priority prio))) [
          | inl bad ↦ absurd (let no_ : none ≡ some r' = rw bad at e in cc)
          | inr good ↦
              let same : some (added cfg k prio r f (ground arith) (ground arith)) ≡ some r' =
                rw good at e in
              subst (Filled cfg (k + 1)) (cc)
                (added-Filled cfg k prio r f (ground arith) (ground arith))
        ]

  add_regs-Filled :
      (k : ℕ) (regs : List ℕ) (r : Registry)
      → Filled cfg k r
      → (r' : Registry) → add_regs cfg k regs r ≡ some r'
      → Filled cfg (k + length regs) r'
  unfolding add_regs and_then
  add_regs-Filled k [] r f r' e =
      subst (λ n. Filled cfg n r') (omega arith) (subst (Filled cfg k) (cc) f)
  add_regs-Filled k (prio ∷ regs) r f r' e = elim (Option-cases (add_reg cfg k prio r)) [
    | inl bad ↦ absurd (let no_ = rw (bad, and_then) at e in cc)
    | inr (q, good) ↦
        let rest =
          add_regs-Filled (k + 1) regs q (add_reg-Filled k prio r f q good) r'
            (rw (good, and_then) at e) in
        subst (λ n. Filled cfg n r') (omega arith) rest
  ]

-- The tasks of `R`, and those of the priority `p` with an index below `n`.
abbrev with_indices : ℕ → ℕ → Members → Members
with_indices p n R q i = (p == q && ltb i n) || R q i

mark_indices-Holds :
    (p n : ℕ) (w : Waker) (R : Members)
    → p < bits
    → n ≤ bits
    → Holds w R
    → Holds (mark_indices p n w) (with_indices p n R)
unfolding mark_indices
mark_indices-Holds p zero w R hp hn h = Queues-ext h _ (λ q i hq. ground arith)
mark_indices-Holds p (suc n) w R hp hn h =
    let rest = mark_indices-Holds p n w R hp (omega arith) h in
    let level : TaskId.priority (TaskId.new p n) ≡ p = priority-new p n (omega arith) in
    let place : TaskId.index (TaskId.new p n) ≡ n = index-new p n (omega arith) in
    let task : IsTask (TaskId.new p n) = record {
      level = omega (arith, level);
      place = omega (arith, place);
    } in
    Queues-ext (mark_ready-Holds (mark_indices p n w) _ (TaskId.new p n) task rest) _
      (λ q i hq. rw (level, place) (ground arith))

-- The tasks of the priorities below `n`, by their counts.
abbrev pub counted : ℕ → Table ℕ → Members
counted n counts p i = ltb p n && ltb i (counts p)

mark_all-Holds :
    (n : ℕ) (counts : Table ℕ) (w : Waker)
    → n ≤ bits
    → ((p : ℕ) → counts p ≤ bits)
    → Holds w (λ p i. false)
    → Holds (mark_all n counts w) (counted n counts)
unfolding mark_all
mark_all-Holds zero counts w hn hc h = Queues-ext h _ (λ p i hp. ground arith)
mark_all-Holds (suc n) counts w hn hc h =
    let rest = mark_all-Holds n counts w (omega arith) hc h in
    Queues-ext (mark_indices-Holds n (counts n) (mark_all n counts w) _ (omega arith) (hc n) rest) _
      (λ p i hp. elim (ℕ_discrete n p) [
        | yes e ↦
            subst
              (λ q. with_indices n (counts n) (counted n counts) q i ≡ counted (suc n) counts q i) e
              (ground arith)
        | no ne ↦ ground arith
      ])

-- What `init` leaves, for the list of the priorities of the registered tasks.
pub record Started (cfg : Config) (regs : List ℕ) (r : Registry) (w : Waker) : Type 0 where
  pub filled : Filled cfg (length regs) r
  pub ready : Holds w (λ p i. ltb i (r.count_per_priority p))

module _ (cfg : Config) (valid : Config.IsValid cfg) (regs : List ℕ) (w : Waker)
    (idle : Holds w (λ p i. false)) where
  pub init-Started :
      {r : Registry} {w' : Waker}
      → init cfg regs (empty_registry, w) ≡ some (r, w')
      → Started cfg regs r w'
  unfolding init and_then
  init-Started {r} {w'} e = elim (Option-cases (add_regs cfg 0 regs empty_registry)) [
    | inl bad ↦ absurd (let no_ = rw (bad, and_then) at e in cc)
    | inr (q, good) ↦
        let done = rw (good, and_then) at e in
        let same : q ≡ r = cc in
        let marked : mark_all (suc (max_priority cfg)) q.count_per_priority w ≡ w' = cc in
        let f = add_regs-Filled cfg 0 regs empty_registry (empty-Filled cfg) q good in
        let f' : Filled cfg (length regs) q = subst (λ n. Filled cfg n q) (omega arith) f in
        let h =
          mark_all-Holds (suc (max_priority cfg)) q.count_per_priority w
            (omega (arith, valid.levels)) (λ p. omega (arith, f'.room p, valid.coop)) idle in
        subst (λ z. Started cfg regs z w') same
          (subst (Started cfg regs q) marked
            (record { filled = f'; ready = Queues-ext h _ (λ p i hp. ground (arith, f'.top p)) }))
  ]
