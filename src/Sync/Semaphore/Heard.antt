-- ===== src/Sync/Semaphore/Heard.antt =====
-- `rivet/src/sync/semaphore.rs`: a task that is parked is on the list, or a release sees to it.
use rivet_rtos.Base.{
  ℕ, ◌≡◌, ◌≢◌, refl, ap, sym, subst, Bool, true, false, arith, update, ◌⊎◌, inl, inr, update_self,
}
use native.Mathlib.Decide.{ℕ_discrete}
use rivet_rtos.Coop.TaskId.{TaskId}
use rivet_rtos.Sync.Semaphore
use rivet_rtos.Sync.Semaphore.{Semaphore}
use rivet_rtos.Sync.Semaphore.Laws.{AreWords}
use rivet_rtos.Sync.Semaphore.Listed.{
  is_listed, register_waiter-listed, remove_waiter-listed, register_waiter-AreWords,
  remove_waiter-AreWords, claim_bit-AreWords, claim_bit-listed,
}
use rivet_rtos.Sync.Semaphore.Accesses.{
  Acquiring, Releasing, Shared, Acquire, Release, Machine, Reach, IsTask, take_token, mark, set_sem,
  claim_bit, store_token, start, acquire, release, call, attempt, fail, begin, poll, take, empty,
  register, take_again, empty_again, remove, cancel, pass, claim, deliver, wake, bottom, full, add,
}

-- Does the task rely on its registration?
abbrev listens : Acquiring → Bool
listens Acquiring.retrying = true
listens Acquiring.parked = true
listens _ = false

-- Is the release about to wake the task?
abbrev pub Serves : TaskId → Releasing → Type 0
Serves id p = (p ≡ Releasing.claimed id) ⊎ (p ≡ Releasing.waking id)

abbrev pub IsHeard : TaskId → Machine → Type 0
IsHeard id m =
    (is_listed m.shared.sem id ≡ true)
    ⊎ (m.shared.woken id ≡ true)
    ⊎ ((k : ℕ) × Serves id (m.releases k))

module _ {j : TaskId} (tj : IsTask j) {s : Shared} (words : AreWords s.sem) where
  Acquire-AreWords : {p p' : Acquiring} {s' : Shared} → Acquire j s p s' p' → AreWords s'.sem
  unfolding take_token mark set_sem
  Acquire-AreWords call = words
  Acquire-AreWords (attempt e) = words
  Acquire-AreWords (fail e) = words
  Acquire-AreWords begin = words
  Acquire-AreWords poll = words
  Acquire-AreWords (take e) = words
  Acquire-AreWords (empty e) = words
  Acquire-AreWords register = register_waiter-AreWords s.sem words j tj
  Acquire-AreWords (take_again e) = words
  Acquire-AreWords (empty_again e) = words
  Acquire-AreWords remove = remove_waiter-AreWords s.sem words j tj
  Acquire-AreWords cancel = words

  -- Another task stays on the list, and stays woken.
  Acquire-other :
      {p p' : Acquiring} {s' : Shared} (i : TaskId)
      → IsTask i
      → j ≢ i
      → Acquire j s p s' p'
      → (is_listed s.sem i ≡ true → is_listed s'.sem i ≡ true) × (s'.woken i ≡ s.woken i)
  unfolding take_token mark set_sem
  Acquire-other i ti ne call = (λ h. h, refl)
  Acquire-other i ti ne (attempt e) = (λ h. h, refl)
  Acquire-other i ti ne (fail e) = (λ h. h, refl)
  Acquire-other i ti ne begin = (λ h. h, ground arith)
  Acquire-other i ti ne poll = (λ h. h, ground arith)
  Acquire-other i ti ne (take e) = (λ h. h, refl)
  Acquire-other i ti ne (empty e) = (λ h. h, refl)
  Acquire-other i ti ne register = ((register_waiter-listed s.sem words j tj i).1, refl)
  Acquire-other i ti ne (take_again e) = (λ h. h, refl)
  Acquire-other i ti ne (empty_again e) = (λ h. h, refl)
  Acquire-other i ti ne remove = (remove_waiter-listed s.sem words j tj i ti ne, refl)
  Acquire-other i ti ne cancel = (λ h. h, refl)

  -- A task that starts to listen is on the list.
  Acquire-own :
      {p p' : Acquiring} {s' : Shared}
      → Acquire j s p s' p'
      → listens p' ≡ true
      → (is_listed s'.sem j ≡ true) ⊎ ((listens p ≡ true) × (s' ≡ s))
  unfolding set_sem
  Acquire-own call h = cc
  Acquire-own (attempt e) h = cc
  Acquire-own (fail e) h = cc
  Acquire-own begin h = cc
  Acquire-own poll h = cc
  Acquire-own (take {registered = true} e) h = cc
  Acquire-own (take {registered = false} e) h = cc
  Acquire-own (empty e) h = cc
  Acquire-own register h = inl (register_waiter-listed s.sem words j tj j).0
  Acquire-own (take_again e) h = cc
  Acquire-own (empty_again e) h = inr (refl, refl)
  Acquire-own remove h = cc
  Acquire-own cancel h = cc

module _ (max : ℕ) {s : Shared} (words : AreWords s.sem) where
  Release-AreWords : {p p' : Releasing} {s' : Shared} → Release max s p s' p' → AreWords s'.sem
  unfolding mark store_token
  Release-AreWords begin = words
  Release-AreWords (pass e) = words
  Release-AreWords (claim {p} e) = claim_bit-AreWords s words p e
  Release-AreWords deliver = words
  Release-AreWords wake = words
  Release-AreWords bottom = words
  Release-AreWords (full e) = words
  Release-AreWords (add e) = words

  -- A release that takes a task off the list is about to wake it, and does so.
  Release-listed :
      {p p' : Releasing} {s' : Shared} (i : TaskId)
      → IsTask i
      → Release max s p s' p'
      → (is_listed s.sem i ≡ true → (is_listed s'.sem i ≡ true) ⊎ Serves i p')
        × (s.woken i ≡ true → s'.woken i ≡ true)
        × (Serves i p → (s'.woken i ≡ true) ⊎ Serves i p')
  unfolding mark store_token claim_bit
  Release-listed i t begin = (λ h. inl h, λ h. h, λ v. ground arith)
  Release-listed i t (pass e) = (λ h. inl h, λ h. h, λ v. ground arith)
  Release-listed i t (claim {p} e) = (
    λ h. elim (claim_bit-listed s words p e i t h) [
      | inl kept ↦ inl kept
      | inr same ↦ inr (inl (ap Releasing.claimed same))
    ],
    λ h. h,
    λ v. ground arith,
  )
  Release-listed i t deliver = (λ h. inl h, λ h. h, λ v. ground arith)
  Release-listed i t wake = (λ h. inl h, λ h. ground arith, λ v. ground arith)
  Release-listed i t bottom = (λ h. inl h, λ h. h, λ v. ground arith)
  Release-listed i t (full e) = (λ h. inl h, λ h. h, λ v. ground arith)
  Release-listed i t (add e) = (λ h. inl h, λ h. h, λ v. ground arith)

-- The queues are words, and every task that relies on its registration is heard.
record AreHeard (m : Machine) : Type 0 where
  pub words : AreWords m.shared.sem
  pub heard : (id : TaskId) → IsTask id → listens (m.tasks id) ≡ true → IsHeard id m

acquire-AreHeard :
    {m : Machine} {s : Shared} {p' : Acquiring} (j : TaskId)
    → IsTask j
    → AreHeard m
    → Acquire j m.shared (m.tasks j) s p'
    → AreHeard (record m { shared = s; tasks = update m.tasks j p' })
acquire-AreHeard {m} {s} {p'} j tj h a = record {
  words = Acquire-AreWords tj h.words a;
  heard = λ i ti l. elim (ℕ_discrete j i) [
    | yes e ↦
        let l' : listens p' ≡ true =
          rw (update_self m.tasks j p') at
            (subst (λ q. listens (update m.tasks j p' q) ≡ true) (sym e) l) in
        subst (λ q. IsHeard q (record m { shared = s; tasks = update m.tasks j p' })) e
          (elim (Acquire-own tj h.words a l') [
            | inl on ↦ inl on
            | inr (lp, same) ↦
                subst (λ z. IsHeard j (record m { shared = z; tasks = update m.tasks j p' }))
                  (sym same) (h.heard j tj lp)
          ])
    | no ne ↦
        let old = h.heard i ti (ground arith) in
        let (on, same) = Acquire-other tj h.words i ti ne a in ground (arith, old, on, same)
  ];
}

-- The release `k` serves the task.
served :
    (i : TaskId) (m : Machine) (s : Shared) (k : ℕ) (p : Releasing)
    → Serves i p
    → IsHeard i (record m { shared = s; releases = update m.releases k p })
served i m s k p v = inr (inr (k, rw (update_self m.releases k p) v))

release-AreHeard :
    {max : ℕ} {m : Machine} {s : Shared} {p' : Releasing} (k : ℕ)
    → AreHeard m
    → Release max m.shared (m.releases k) s p'
    → AreHeard (record m { shared = s; releases = update m.releases k p' })
release-AreHeard {max} {m} {s} {p'} k h a = record {
  words = Release-AreWords max h.words a;
  heard = λ i ti l.
      let (on, kept, moved) = Release-listed max h.words i ti a in
      elim (h.heard i ti l) [
        | inl listed ↦ elim (on listed) [ inl still ↦ inl still | inr v ↦ served i m s k p' v ]
        | inr (inl w) ↦ inr (inl (kept w))
        | inr (inr (q, v)) ↦ elim (ℕ_discrete k q) [
          | yes e ↦ elim (moved (subst (λ z. Serves i (m.releases z)) (sym e) v)) [
            | inl w ↦ inr (inl w)
            | inr v' ↦ served i m s k p' v'
          ]
          | no ne ↦ inr (inr (q, ground (arith, v)))
        ]
      ];
}

Reach-AreHeard : {max initial : ℕ} {m : Machine} → Reach max initial m → AreHeard m
unfolding Semaphore.new
Reach-AreHeard start = record { words = λ p. omega arith; heard = λ id t l. cc }
Reach-AreHeard {max} {initial} (acquire {m} {s} {p} {p'} j t r e a) =
    acquire-AreHeard j t (Reach-AreHeard r) (subst (λ q. Acquire j m.shared q s p') (sym e) a)
Reach-AreHeard {max} {initial} (release {m} {s} {p} {p'} k r e a) =
    release-AreHeard k (Reach-AreHeard r) (subst (λ q. Release max m.shared q s p') (sym e) a)

-- In every interleaving of any number of tasks and releases: a task that is parked, and whose
-- identity is within the bounds, is on the list of waiters, or was woken, or a release has claimed
-- it and is about to wake it.
pub Reach-IsHeard :
    {max initial : ℕ} {m : Machine} {id : TaskId}
    → Reach max initial m
    → IsTask id
    → m.tasks id ≡ Acquiring.parked
    → IsHeard id m
Reach-IsHeard {max} {initial} {m} {id} r t e = (Reach-AreHeard r).heard id t (ap listens e)
