-- ===== src/Config.antt =====
-- `rivet/build.rs`: the capacities that the kernel is built with, and the range checks on them.
use rivet_rtos.Base.{
  ℕ, ◌≤◌, ◌≡◌, Option, none, some, ◌&&◌, leb, if◌then◌else◌, arith, subst, Option-cases, inl, inr,
}

-- The constants of the generated `config.rs`.
pub record Config : Type 0 where
  pub max_ptasks : ℕ
  pub max_timers : ℕ
  pub max_coop : ℕ
  pub priorities : ℕ
  pub tick_hz : ℕ
  pub max_held : ℕ
  pub max_irqs : ℕ
  pub max_harts : ℕ

-- The parsed environment variables; `none` for one that is not set.
pub record Env : Type 0 where
  pub max_ptasks : Option ℕ
  pub max_timers : Option ℕ
  pub max_coop : Option ℕ
  pub priorities : Option ℕ
  pub tick_hz : Option ℕ
  pub max_held : Option ℕ
  pub max_irqs : Option ℕ
  pub max_harts : Option ℕ

infixl 5 ◌>>=◌
abbrev ◌>>=◌ : {A B : Type 0} → Option A → (A → Option B) → Option B
none >>= f = none
some a >>= f = f a

-- `none` is the panic that stops the build.
unfoldable pub cfg_usize : Option ℕ → ℕ → ℕ → ℕ → Option ℕ
cfg_usize none default min max = if leb min default && leb default max then some default else none
cfg_usize (some v) default min max = if leb min v && leb v max then some v else none

unfoldable pub main : Env → Option Config
main env = do
  max_ptasks ← cfg_usize env.max_ptasks 16 1 32
  max_timers ← cfg_usize env.max_timers 16 1 64
  max_coop ← cfg_usize env.max_coop 16 1 32
  priorities ← cfg_usize env.priorities 32 1 32
  tick_hz ← cfg_usize env.tick_hz 1000 1 1_000_000
  max_held ← cfg_usize env.max_held 4 1 16
  max_irqs ← cfg_usize env.max_irqs 32 1 240
  max_harts ← cfg_usize env.max_harts 1 1 8
  some (record {
    max_ptasks = max_ptasks;
    max_timers = max_timers;
    max_coop = max_coop;
    priorities = priorities;
    tick_hz = tick_hz;
    max_held = max_held;
    max_irqs = max_irqs;
    max_harts = max_harts;
  })

-- What the kernel relies on: task ids and priorities fit a 32-bit word, and no pool is empty.
pub record IsValid (c : Config) : Type 0 where
  pub ptasks : (1 ≤ c.max_ptasks) × (c.max_ptasks ≤ 32)
  pub timers : (1 ≤ c.max_timers) × (c.max_timers ≤ 64)
  pub coop : (1 ≤ c.max_coop) × (c.max_coop ≤ 32)
  pub levels : (1 ≤ c.priorities) × (c.priorities ≤ 32)
  pub ticks : (1 ≤ c.tick_hz) × (c.tick_hz ≤ 1_000_000)
  pub held : (1 ≤ c.max_held) × (c.max_held ≤ 16)
  pub irqs : (1 ≤ c.max_irqs) × (c.max_irqs ≤ 240)
  pub harts : (1 ≤ c.max_harts) × (c.max_harts ≤ 8)

pub cfg_usize-in_range :
    (v : Option ℕ) (default min max : ℕ) {n : ℕ}
    → cfg_usize v default min max ≡ some n
    → (min ≤ n) × (n ≤ max)
unfolding cfg_usize
cfg_usize-in_range none default min max h = ground arith
cfg_usize-in_range (some v) default min max h = ground arith

-- What holds of the result, if there is one.
abbrev Ensures : {A : Type 0} → (A → Type 0) → Option A → Type 0
Ensures P none = Unit
Ensures P (some a) = P a

cfg_usize-Ensures :
    {B : Type 0} (P : B → Type 0) (v : Option ℕ) (default min max : ℕ) (f : ℕ → Option B)
    → ((n : ℕ) → (min ≤ n) × (n ≤ max) → Ensures P (f n))
    → Ensures P (cfg_usize v default min max >>= f)
cfg_usize-Ensures P v default min max f h = elim (Option-cases (cfg_usize v default min max)) [
  | inl e ↦ rw e tt
  | inr (n, e) ↦ rw e (h n (cfg_usize-in_range v default min max e))
]

main-Ensures : (env : Env) → Ensures IsValid (main env)
unfolding main
main-Ensures env = cfg_usize-Ensures IsValid env.max_ptasks 16 1 32 _ λ v0 h0.
    cfg_usize-Ensures IsValid env.max_timers 16 1 64 _ λ v1 h1.
      cfg_usize-Ensures IsValid env.max_coop 16 1 32 _ λ v2 h2.
        cfg_usize-Ensures IsValid env.priorities 32 1 32 _ λ v3 h3.
          cfg_usize-Ensures IsValid env.tick_hz 1000 1 1_000_000 _ λ v4 h4.
            cfg_usize-Ensures IsValid env.max_held 4 1 16 _ λ v5 h5.
              cfg_usize-Ensures IsValid env.max_irqs 32 1 240 _ λ v6 h6.
                cfg_usize-Ensures IsValid env.max_harts 1 1 8 _ λ v7 h7. record {
                  ptasks = h0;
                  timers = h1;
                  coop = h2;
                  levels = h3;
                  ticks = h4;
                  held = h5;
                  irqs = h6;
                  harts = h7;
                }

-- Every configuration that the build accepts is within the bounds on which the kernel relies.
main-IsValid : (env : Env) {c : Config} → main env ≡ some c → IsValid c
main-IsValid env h = subst (Ensures IsValid) h (main-Ensures env)

-- The defaults.
abbrev pub default : Config
default = record {
  max_ptasks = 16;
  max_timers = 16;
  max_coop = 16;
  priorities = 32;
  tick_hz = 1000;
  max_held = 4;
  max_irqs = 32;
  max_harts = 1;
}

pub default-IsValid : IsValid default
default-IsValid = omega arith
