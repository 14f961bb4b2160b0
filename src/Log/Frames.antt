-- ===== src/Log/Frames.antt =====
-- `push` and `drain_one` of `rivet/src/log.rs`: what becomes of a frame.
use rivet_rtos.Base.{
  ℕ, ◌+◌, ◌%◌, ◌^◌, ◌<◌, ◌≡◌, refl, subst, true, Option, none, some, List, [], ◌∷◌, ◌++◌, length,
  arith, inl, inr, ◌⊎◌,
}
use rivet_rtos.Decimal.{print_dec}
use rivet_rtos.Decimal.Digits.{parse-print_dec}
use rivet_rtos.Sync.Channel.Fifo.{Represents, try_send-Represents, try_recv-Represents}
use rivet_rtos.Log.{
  LogArg, LogFrame, Log, capacity, push_frame, concat, task_text, write_frame, line_of, drain_one,
}
use rivet_rtos.Log.Template.{write_interpolated-render}

-- The ring holds the frames, and is in use.
pub record Queued (l : Log) (frames : List LogFrame) : Type 0 where
  pub ready : l.ready ≡ true
  pub ring : Represents capacity l.channel frames

-- A frame is queued behind the others, or counted as dropped when the ring has 15 frames.
abbrev pub Pushed : LogFrame → Log → List LogFrame → Type 0
Pushed frame l frames =
    ((length frames + 1 < capacity)
      × Queued (push_frame frame l) (frames ++ (frame ∷ []))
      × ((push_frame frame l).dropped ≡ l.dropped))
    ⊎ ((length frames + 1 ≡ capacity)
        × Queued (push_frame frame l) frames
        × ((push_frame frame l).dropped ≡ (l.dropped + 1) % 2 ^ 32))

pub push_frame-Pushed :
    (frame : LogFrame) (l : Log) (frames : List LogFrame) → Queued l frames → Pushed frame l frames
unfolding push_frame
push_frame-Pushed frame l frames k =
    elim (try_send-Represents capacity frame l.channel frames k.ring) [
      | inl (refused, full) ↦ inr (
        full,
        rw (k.ready, refused) (record { ready = refl; ring = k.ring }),
        rw (k.ready, refused) refl,
      )
      | inr (sent, room, r) ↦
          inl (room, rw k.ready (record { ready = refl; ring = r }), rw (k.ready, sent) refl)
    ]

-- The numbers of a frame that was made by `push` are within the buffers.
pub record IsSmall (frame : LogFrame) : Type 0 where
  pub time : frame.timestamp_us < 2 ^ 32
  pub task : (id : ℕ) → frame.task_id ≡ some id → id < 2 ^ 16

-- No piece fails.
abbrev Written : Option (List ℕ) → Type 0
Written p = (t : List ℕ) × (p ≡ some t)

abbrev AllWritten : List (Option (List ℕ)) → Type 0
AllWritten [] = Unit {0}
AllWritten (p ∷ ps) = Written p × AllWritten ps

concat-Written : (ps : List (Option (List ℕ))) → AllWritten ps → Written (concat ps)
unfolding concat
concat-Written [] h = ([], refl)
concat-Written (none ∷ ps) h = absurd (let (t, e) = h.0 in cc)
concat-Written (some t ∷ ps) h =
    let (out, e) = concat-Written ps h.1 in (t ++ out, rw (e, concat) refl)

dec-Written : (n : ℕ) → n < 2 ^ 32 → Written (print_dec 20 n)
dec-Written n h = let (ds, e, _) = parse-print_dec 20 n (omega arith) in (ds, e)

task_text-Written :
    (task : Option ℕ) → ((id : ℕ) → task ≡ some id → id < 2 ^ 16) → Written (task_text task)
unfolding task_text
task_text-Written none h = ([], refl)
task_text-Written (some id) h =
    concat-Written _ ((_, refl), (dec-Written id (omega (arith, h id refl)), tt))

module _ (display : LogArg → List ℕ) where
  write_frame-Written : (frame : LogFrame) → IsSmall frame → Written (write_frame display frame)
  unfolding write_frame
  write_frame-Written frame s = concat-Written _ (
    (_, refl),
    (
      (_, refl),
      (
        (_, refl),
        (
          dec-Written frame.timestamp_us s.time,
          (
            task_text-Written frame.task_id s.task,
            (
              (_, refl),
              (
                (_, write_interpolated-render display frame.msg frame.arg0 frame.arg1),
                ((_, refl), tt),
              ),
            ),
          ),
        ),
      ),
    ),
  )

  -- A drain writes the line of the oldest frame, and nothing when there is no frame.
  pub drain_one-Drained :
      (l : Log) (frame : LogFrame) (frames : List LogFrame)
      → Queued l (frame ∷ frames)
      → IsSmall frame
      → (line : List ℕ) × (write_frame display frame ≡ some line)
        × ((drain_one display l).0 ≡ some (some line))
        × Queued (drain_one display l).1 frames
  unfolding drain_one line_of
  drain_one-Drained l frame frames k s =
      let (line, e) = write_frame-Written frame s in
      elim (try_recv-Represents capacity l.channel (frame ∷ frames) k.ring) [
        | inl (nil, _, _) ↦ cc
        | inr (x, rest, same, got, r) ↦
            let head : x ≡ frame = cc in
            let tail : rest ≡ frames = cc in
            (
              line,
              e,
              rw (k.ready, got, head, line_of, e) refl,
              rw k.ready (record { ready = refl; ring = subst (Represents capacity _) tail r }),
            )
      ]
