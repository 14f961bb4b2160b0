-- ===== src/Sync/Channel/Fifo.antt =====
-- The ring of `rivet/src/sync/channel.rs`, and the queue that it stands for.
use rivet_rtos.Base.{
  ℕ, suc, ◌+◌, ◌%◌, ◌<◌, ◌≡◌, ◌≢◌, refl, sym, subst, true, false, Option, none, some, List, [], ◌∷◌,
  ◌++◌, ◌==◌, leb, Table, update, length, arith, length-append, Bool-cases, ◌⊎◌, inl, inr,
}
use native.Mathlib.Nat.{mod-eq_of_lt, mod_self}
use rivet_rtos.Preempt.Sched.Invariant.{==_refl}
use rivet_rtos.Sync.Channel.{Channel, empty, value, read, try_send, try_recv}

-- The place after `i` in a ring of `n`.
abbrev pub next : ℕ → ℕ → ℕ
next n i = (i + 1) % n

pub next-cases :
    (n i : ℕ) → i < n → ((i + 1 < n) × (next n i ≡ i + 1)) ⊎ ((i + 1 ≡ n) × (next n i ≡ 0))
next-cases n i h = elim (Bool-cases (leb n (i + 1))) [
  | inl e ↦
      let full : n ≡ i + 1 = ground (arith, h, e) in
      inr (sym full, subst (λ k. (i + 1) % k ≡ 0) (sym full) (mod_self (i + 1)))
  | inr e ↦ let l : i + 1 < n = ground (arith, e) in inl (l, mod-eq_of_lt l)
]

-- The place `j` is `k` steps after `i`, with at most one turn.
abbrev pub After : ℕ → ℕ → ℕ → ℕ → Type 0
After n i k j = (i + k ≡ j) ⊎ (i + k ≡ j + n)

After-step : (n i k j : ℕ) → i < n → suc k < n → After n (next n i) k j → After n i (suc k) j
After-step n i k j h l a = elim (next-cases n i h) [
  | inl (b, e) ↦ elim a [ inl f ↦ inl (omega (arith, f, e)) | inr f ↦ inr (omega (arith, f, e)) ]
  | inr (b, e) ↦ elim a [
    | inl f ↦ inr (omega (arith, f, e, b))
    | inr f ↦ absurd (omega (arith, f, e, l))
  ]
]

pub next-lt : (n i : ℕ) → i < n → next n i < n
next-lt n i h = elim (next-cases n i h) [
  | inl (b, e) ↦ omega (arith, b, e)
  | inr (b, e) ↦ omega (arith, h, e)
]

module _ {A : Type 0} where
  -- The values from the place `i` on, in order.
  pub data Holds (n : ℕ) (buffer : Table (Option A)) : ℕ → List A → ℕ → Type 0 where
    done : {i : ℕ} → Holds n buffer i [] i
    more :
        {i j : ℕ} {x : A} {xs : List A}
        → buffer i ≡ some x
        → Holds n buffer (next n i) xs j
        → Holds n buffer i (x ∷ xs) j

  -- The abstract queue of a channel.
  pub record Represents (n : ℕ) (c : Channel A) (xs : List A) : Type 0 where
    pub head_lt : c.head < n
    pub fits : length xs < n
    pub holds : Holds n c.buffer c.head xs c.tail

  module _ (n : ℕ) (buffer : Table (Option A)) where
    pub Holds-After :
        (i j : ℕ) (xs : List A)
        → i < n
        → length xs < n
        → Holds n buffer i xs j
        → (j < n) × After n i (length xs) j
    Holds-After i _ _ h l done = (h, inl (omega arith))
    Holds-After i j (x ∷ xs) h l (more e r) =
        let (hj, a) = Holds-After (next n i) j xs (next-lt n i h) (omega (arith, l)) r in
        (hj, After-step n i (length xs) j h l a)

    Holds-send :
        (i j : ℕ) (xs : List A) (v : A)
        → i < n
        → length xs + 1 < n
        → Holds n buffer i xs j
        → Holds n (update buffer j (some v)) i (xs ++ (v ∷ [])) (next n j)
    Holds-send i _ _ v h l done = more (ground arith) done
    Holds-send i j (x ∷ xs) v h l (more e r) =
        let (hj, a) = Holds-After i j (x ∷ xs) h (omega (arith, l)) (more e r) in
        let apart : (j == i) ≡ false = ground (arith, a, l) in
        more (rw apart e) (Holds-send (next n i) j xs v (next-lt n i h) (omega (arith, l)) r)

module _ {A : Type 0} (n : ℕ) (c : Channel A) (xs : List A) (r : Represents n c xs)
    (ht : c.tail < n) (a : After n c.head (length xs) c.tail) where
  pub full_length : next n c.tail ≡ c.head → length xs + 1 ≡ n
  full_length e = elim (next-cases n c.tail ht) [
    | inl (b, f) ↦ ground (arith, a, b, f, e, r.fits, r.head_lt)
    | inr (b, f) ↦ ground (arith, a, b, f, e, r.fits, r.head_lt)
  ]

  pub room_left : next n c.tail ≢ c.head → length xs + 1 < n
  room_left e = elim (next-cases n c.tail ht) [
    | inl (b, f) ↦ ground (arith, a, b, f, e, r.fits, r.head_lt)
    | inr (b, f) ↦ ground (arith, a, b, f, e, r.fits, r.head_lt)
  ]

-- A channel of `n` slots refines a queue of at most `n - 1` values: a send is refused exactly when
-- the queue has `n - 1` values, and then leaves the whole channel as it was and wakes nobody, and
-- else puts the value at the end.
pub try_send-Represents :
    {A : Type 0} (n : ℕ) (v : A) (c : Channel A) (xs : List A)
    → Represents n c xs
    → ((try_send n v c ≡ (false, c, none)) × (length xs + 1 ≡ n))
      ⊎ (((try_send n v c).0 ≡ true)
          × (length xs + 1 < n)
          × Represents n (try_send n v c).1 (xs ++ (v ∷ [])))
unfolding try_send
try_send-Represents n v c xs r =
    let (ht, a) = Holds-After n c.buffer c.head c.tail xs r.head_lt r.fits r.holds in
    elim (Bool-cases (next n c.tail == c.head)) [
      | inl e ↦ inl (rw e (refl, full_length n c xs r ht a (ground (arith, e))))
      | inr e ↦
          let room = room_left n c xs r ht a (ground (arith, e)) in
          inr (
            rw e (
              refl,
              room,
              record {
                head_lt = r.head_lt;
                fits = omega (arith, length-append xs (v ∷ []), room);
                holds = Holds-send n c.buffer c.head c.tail xs v r.head_lt room r.holds;
              },
            ))
    ]

pub Holds-nil :
    {A : Type 0} {n : ℕ} {buffer : Table (Option A)} {i j : ℕ} → Holds n buffer i [] j → i ≡ j
Holds-nil done = refl

pub Holds-cons :
    {A : Type 0} {n : ℕ} {buffer : Table (Option A)} {i j : ℕ} {x : A} {xs : List A}
    → Holds n buffer i (x ∷ xs) j
    → (buffer i ≡ some x) × Holds n buffer (next n i) xs j
Holds-cons (more e r) = (e, r)

pub Holds-full :
    {A : Type 0} (n : ℕ) (buffer : Table (Option A)) (i j : ℕ) (x : A) (xs : List A)
    → i < n
    → length (x ∷ xs) < n
    → Holds n buffer i (x ∷ xs) j
    → (i == j) ≡ false
Holds-full n buffer i j x xs h l r =
    let (hj, a) = Holds-After n buffer i j (x ∷ xs) h l r in ground (arith, a, l)

-- On a channel that represents a queue, a receive finds nothing exactly when the queue is empty,
-- and else takes its first value. It never reads a slot that was not written.
pub try_recv-Represents :
    {A : Type 0} (n : ℕ) (c : Channel A) (xs : List A)
    → Represents n c xs
    → ((xs ≡ []) × ((try_recv n c).0 ≡ empty) × Represents n (try_recv n c).1 xs)
      ⊎ ((x : A) × (ys : List A) × (xs ≡ x ∷ ys)
          × ((try_recv n c).0 ≡ value x)
          × Represents n (try_recv n c).1 ys)
unfolding try_recv read
try_recv-Represents n c [] r =
    let e : (c.head == c.tail) ≡ true = rw (sym (Holds-nil r.holds)) (==_refl c.head) in
    inl (rw e (refl, refl, r))
try_recv-Represents n c (x ∷ xs) r =
    let e = Holds-full n c.buffer c.head c.tail x xs r.head_lt r.fits r.holds in
    let (written, rest) = Holds-cons r.holds in
    inr (
      x,
      xs,
      refl,
      rw (e, written) refl,
      rw e (record {
        head_lt = next-lt n c.head r.head_lt;
        fits = omega (arith, r.fits);
        holds = rest;
      }),
    )
