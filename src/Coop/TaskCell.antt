-- ===== src/Coop/TaskCell.antt =====
-- `TaskCell` of `rivet/src/task.rs`: the storage of one task's future.
use rivet_rtos.Base.{
  ℕ, ◌≡◌, Bool, true, false, Option, none, some, ltb, ◌||◌, if◌then◌else◌, arith, refl, Bool-cases,
  inl, inr, ◌∙◌,
}

-- A future, as user code: its size and alignment, its first state, and one poll, which works on the
-- rest of the system and says whether it is ready.
pub record Code (F W : Type 0) : Type 0 where
  pub size_of : ℕ
  pub align_of : ℕ
  pub init : F
  pub poll : F → W → Bool × F × W

-- `SIZE`; the buffer, `none` while it holds no future.
pub record TaskCell (F : Type 0) : Type 0 where
  pub size : ℕ
  pub buf : Option F
  pub initialized : Bool
  pub completed : Bool

abbrev pub task_cell_align : ℕ
task_cell_align = 16

-- `undefined` is a poll of a buffer that holds no future.
pub data Polled : Type 0 where
  ready pending panics undefined : Polled

module _ {F : Type 0} where
  abbrev pub new : ℕ → TaskCell F
  new size = record { size = size; buf = none; initialized = false; completed = false }

  unfoldable pub is_completed : TaskCell F → Bool
  is_completed c = c.completed

  -- A future is in the buffer from the first poll until it is dropped.
  pub record IsSound (c : TaskCell F) : Type 0 where
    pub fresh : c.initialized ≡ false → c.completed ≡ false
    pub filled : c.initialized ≡ true → c.completed ≡ false → (f : F) × (c.buf ≡ some f)

module _ {F W : Type 0} where
  -- The write of the first state.
  unfoldable pub initialize : Code F W → TaskCell F → TaskCell F
  initialize code c =
      if c.initialized then c else record c { buf = some code.init; initialized = true }

  -- What a poll of the future leaves: a ready one is dropped in place.
  unfoldable pub finish : TaskCell F → Bool × F × W → Polled × TaskCell F × W
  finish c (true, fut, w) = (ready, record c { buf = none; completed = true }, w)
  finish c (false, fut, w) = (pending, record c { buf = some fut }, w)

  unfoldable pub poll_buf : Code F W → TaskCell F → W → Option F → Polled × TaskCell F × W
  poll_buf code c w none = (undefined, c, w)
  poll_buf code c w (some fut) = finish c (code.poll fut w)

  unfoldable pub poll : Code F W → TaskCell F → W → Polled × TaskCell F × W
  poll code c w =
      let c' = initialize code c in
      if ltb c.size code.size_of || ltb task_cell_align code.align_of
      then (panics, c, w)
      else (if c'.completed then (ready, c', w) else poll_buf code c' w c'.buf)

  -- A poll of a sound cell keeps it sound, never reads an empty buffer, and completes the cell
  -- exactly when it says that the future is ready.
  pub record Sound (c : TaskCell F) (r : Polled × TaskCell F × W) : Type 0 where
    pub sound : IsSound r.1
    pub defined : r.0 ≡ undefined → ⊥
    pub completes : r.0 ≡ ready → r.1.completed ≡ true
    pub keeps : (r.0 ≡ ready → ⊥) → r.1.completed ≡ c.completed

  initialize-IsSound : (code : Code F W) (c : TaskCell F) → IsSound c → IsSound (initialize code c)
  unfolding initialize
  initialize-IsSound code c s = elim (Bool-cases c.initialized) [
    | inl old ↦ rw old (record { fresh = λ e. cc; filled = λ e f. s.filled old f })
    | inr unset ↦ rw unset (record { fresh = λ e. cc; filled = λ e f. (code.init, refl) })
  ]

  finish-Sound :
      (c : TaskCell F) (r : Bool × F × W)
      → c.completed ≡ false
      → c.initialized ≡ true
      → Sound c (finish c r)
  unfolding finish
  finish-Sound c (true, fut, w) e i = record {
    sound = record { fresh = λ f. cc; filled = λ f g. cc };
    defined = λ f. cc;
    completes = λ f. refl;
    keeps = λ f. absurd (f refl);
  }
  finish-Sound c (false, fut, w) e i = record {
    sound = record { fresh = λ f. e; filled = λ f g. (fut, refl) };
    defined = λ f. cc;
    completes = λ f. cc;
    keeps = λ f. refl;
  }

  initialize-lem :
      (code : Code F W) (c : TaskCell F)
      → ((initialize code c).initialized ≡ true) × ((initialize code c).completed ≡ c.completed)
  unfolding initialize
  initialize-lem code c = ground arith

  -- The part of `poll` behind the size checks.
  poll_inside :
      (code : Code F W) (c : TaskCell F) (w : W)
      → IsSound c
      → Sound c (
          if (initialize code c).completed
          then (ready, initialize code c, w)
          else poll_buf code (initialize code c) w (initialize code c).buf)
  unfolding poll_buf initialize
  poll_inside code c w s =
      let s' = initialize-IsSound code c s in
      let (i, e) = initialize-lem code c in
      elim (Bool-cases (initialize code c).completed) [
        | inl done ↦ rw done (record {
          sound = s';
          defined = λ f. cc;
          completes = λ f. done;
          keeps = λ f. absurd (f refl);
        })
        | inr going ↦
            let (f, full) = s'.filled i going in
            let r = finish-Sound (initialize code c) (code.poll f w) going i in
            rw (going, full)
              (record {
                sound = r.sound;
                defined = r.defined;
                completes = r.completes;
                keeps = λ g. r.keeps g ∙ e;
              })
      ]

  pub poll-Sound : (code : Code F W) (c : TaskCell F) (w : W) → IsSound c → Sound c (poll code c w)
  unfolding poll
  poll-Sound code c w s =
      elim (Bool-cases (ltb c.size code.size_of || ltb task_cell_align code.align_of)) [
        | inl large ↦
            rw large
              (record { sound = s; defined = λ e. cc; completes = λ e. cc; keeps = λ e. refl })
        | inr fits ↦ rw fits (poll_inside code c w s)
      ]
