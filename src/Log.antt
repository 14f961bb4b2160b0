-- ===== src/Log.antt =====
-- `rivet/src/log.rs`: frames in a ring, formatted when they are drained.
use rivet_rtos.Base.{
  ℕ, zero, suc, ◌+◌, ◌%◌, ◌^◌, Bool, true, false, ◌||◌, Option, none, some, List, [], ◌∷◌, ◌++◌,
  ◌==◌, ◌&&◌, if◌then◌else◌, length,
}
use rivet_rtos.Decimal.{print_dec}
use rivet_rtos.Preempt.Sched.{Sched}
use rivet_rtos.Sync.Channel.{Channel, Received, empty, uninit, value, split, try_send, try_recv}
pub mod Frames
pub mod Template

pub data Level : Type 0 where
  trace debug info warn error : Level

-- Texts are their bytes.
unfoldable pub as_str : Level → List ℕ
as_str trace = b'T' ∷ b'R' ∷ b'A' ∷ b'C' ∷ b'E' ∷ []
as_str debug = b'D' ∷ b'E' ∷ b'B' ∷ b'U' ∷ b'G' ∷ []
as_str info = b'I' ∷ b'N' ∷ b'F' ∷ b'O' ∷ []
as_str warn = b'W' ∷ b'A' ∷ b'R' ∷ b'N' ∷ []
as_str error = b'E' ∷ b'R' ∷ b'R' ∷ b'O' ∷ b'R' ∷ []

-- The bit pattern of a float stands for it.
pub data LogArg : Type 0 where
  no_arg : LogArg
  u32 i32 f32 : ℕ → LogArg
  str : List ℕ → LogArg

pub record LogFrame : Type 0 where
  pub level : Level
  pub task_id : Option ℕ
  pub timestamp_us : ℕ
  pub msg : List ℕ
  pub arg0 : LogArg
  pub arg1 : LogArg

abbrev pub capacity : ℕ
capacity = 16

-- `CHANNEL`, whether its halves are stored, and `DROPPED`.
pub record Log : Type 0 where
  pub channel : Channel LogFrame
  pub ready : Bool
  pub dropped : ℕ

unfoldable pub init : Log → Log
init l = let (fresh, ch) = split l.channel in record l { channel = ch; ready = l.ready || fresh }

unfoldable pub frame_of : ℕ → ℕ → Level → List ℕ → LogArg → LogArg → Sched → LogFrame
frame_of hart now_us level msg arg0 arg1 s = record {
  level = level;
  task_id = elim (s.current hart) [ none ↦ none | some id ↦ some (id % 2 ^ 16) ];
  timestamp_us = now_us % 2 ^ 32;
  msg = msg;
  arg0 = arg0;
  arg1 = arg1;
}

-- The push of a frame; the send stands in a critical section.
unfoldable pub push_frame : LogFrame → Log → Log
push_frame frame l =
    let sent = try_send capacity frame l.channel in
    let kept = if l.ready then sent.1 else l.channel in
    record l {
      channel = kept;
      dropped = if l.ready && sent.0 then l.dropped else (l.dropped + 1) % 2 ^ 32;
    }

unfoldable pub push : ℕ → ℕ → Level → List ℕ → LogArg → LogArg → Sched → Log → Log
push hart now_us level msg arg0 arg1 s l = push_frame (frame_of hart now_us level msg arg0 arg1 s) l

unfoldable pub dropped_frames : Log → ℕ
dropped_frames l = l.dropped

-- The place of the first `{}`.
unfoldable pub find_hole : List ℕ → Option ℕ
find_hole [] = none
find_hole (c ∷ []) = none
find_hole (c ∷ d ∷ rest) =
    let later : Option ℕ = elim (find_hole (d ∷ rest)) [
      | none ↦ none
      | some pos ↦ some (suc pos)
    ] in
    if c == b'{' && d == b'}' then some 0 else later

unfoldable pub take : ℕ → List ℕ → List ℕ
take zero xs = []
take (suc n) [] = []
take (suc n) (x ∷ xs) = x ∷ take n xs

unfoldable pub drop : ℕ → List ℕ → List ℕ
drop zero xs = xs
drop (suc n) [] = []
drop (suc n) (x ∷ xs) = drop n xs

unfoldable pub next_args : List LogArg → List LogArg
next_args [] = []
next_args (arg ∷ args) = args

-- The pieces of a line, or `none` if one of them fails.
unfoldable pub concat : List (Option (List ℕ)) → Option (List ℕ)
concat [] = some []
concat (none ∷ rest) = none
concat (some t ∷ rest) = elim (concat rest) [ none ↦ none | some out ↦ some (t ++ out) ]

-- ` task=` and the number of the task, if there is one.
unfoldable pub task_text : Option ℕ → Option (List ℕ)
task_text none = some []
task_text (some id) =
    concat (some (b' ' ∷ b't' ∷ b'a' ∷ b's' ∷ b'k' ∷ b'=' ∷ []) ∷ print_dec 20 id ∷ [])

-- `display` is the formatting of numbers by `core::fmt`.
module _ (display : LogArg → List ℕ) where
  unfoldable pub write_arg : LogArg → List ℕ
  write_arg no_arg = []
  write_arg (str s) = s
  write_arg (u32 v) = display (u32 v)
  write_arg (i32 v) = display (i32 v)
  write_arg (f32 v) = display (f32 v)

  -- What is written for a hole: `args.get(arg_idx)` of the two arguments.
  unfoldable pub fill_hole : List LogArg → List ℕ
  fill_hole [] = b'{' ∷ b'}' ∷ []
  fill_hole (no_arg ∷ args) = b'{' ∷ b'}' ∷ []
  fill_hole (arg ∷ args) = write_arg arg

  -- The loop over the holes, on the text that is left; each round takes two bytes or more, and
  -- `none` means that the fuel ran out.
  unfoldable pub holes : ℕ → List ℕ → List LogArg → Option (List ℕ)
  holes zero rest args = none
  holes (suc fuel) rest args = elim (find_hole rest) [
    | none ↦ some rest
    | some pos ↦ elim (holes fuel (drop (pos + 2) rest) (next_args args)) [
      | none ↦ none
      | some out ↦ some (take pos rest ++ (fill_hole args ++ out))
    ]
  ]

  unfoldable pub write_interpolated : List ℕ → LogArg → LogArg → Option (List ℕ)
  write_interpolated msg arg0 arg1 = holes (suc (length msg)) msg (arg0 ∷ arg1 ∷ [])

  -- The line that is written for a frame; the buffers of `write_dec` have 20 bytes.
  unfoldable pub write_frame : LogFrame → Option (List ℕ)
  write_frame frame = concat (
      some (b'[' ∷ [])
      ∷ some (as_str frame.level)
      ∷ some (b']' ∷ b' ' ∷ b't' ∷ b'=' ∷ [])
      ∷ print_dec 20 frame.timestamp_us
      ∷ task_text frame.task_id
      ∷ some (b' ' ∷ [])
      ∷ write_interpolated frame.msg frame.arg0 frame.arg1
      ∷ some (0x0a ∷ [])
      ∷ [])

  -- The line, if a frame was there. The outer `none` is a line that fails, or a slot that was never
  -- written.
  unfoldable pub line_of : Received LogFrame → Option (Option (List ℕ))
  line_of empty = some none
  line_of uninit = none
  line_of (value frame) = elim (write_frame frame) [ none ↦ none | some line ↦ some (some line) ]

  unfoldable pub drain_one : Log → Option (Option (List ℕ)) × Log
  drain_one l =
      let r = try_recv capacity l.channel in
      if l.ready then (line_of r.0, record l { channel = r.1 }) else (some none, l)
