-- ===== src/Trace/Roundtrip.antt =====
-- The frames of `rivet/src/trace.rs`, read back by a reader of their layout.
use rivet_rtos.Base.{
  ℕ, zero, suc, ◌+◌, ◌*◌, ◌/◌, ◌%◌, ◌^◌, ◌≤◌, ◌<◌, ◌≡◌, refl, ap, ◌∙◌, sym, Bool, true, false,
  Option, none, some, List, [], ◌∷◌, ◌++◌, ◌==◌, ◌&&◌, leb, if◌then◌else◌, length, length-append,
  arith,
}
use mathlib.Core.List.{append_assoc}
use native.Mathlib.Nat.{pow-suc}
use rivet_rtos.Preempt.Sched.Invariant.{==_refl}
use rivet_rtos.Trace.{
  sync0, sync1, protocol_version, max_payload, crc16, le_bytes, Event, body, encode, crc_bit,
  crc_bits, crc_from,
}
use Prim.Native.Nat.{bit_xor}

infixl 5 ◌>>=◌
abbrev ◌>>=◌ : {A B : Type 0} → Option A → (A → Option B) → Option B
none >>= f = none
some a >>= f = f a

-- A number of `n` bytes, the lowest first, and what follows it.
unfoldable pub read_le : ℕ → List ℕ → Option (ℕ × List ℕ)
read_le zero bs = some (0, bs)
read_le (suc n) [] = none
read_le (suc n) (b ∷ bs) = do r ← read_le n bs; some (b + 2 ^ 8 * r.0, r.1)

unfoldable pub take : ℕ → List ℕ → List ℕ
take zero xs = []
take (suc n) [] = []
take (suc n) (x ∷ xs) = x ∷ take n xs

unfoldable pub drop : ℕ → List ℕ → List ℕ
drop zero xs = xs
drop (suc n) [] = []
drop (suc n) (x ∷ xs) = drop n xs

unfoldable pub read_header : List ℕ → Option (List ℕ)
read_header (a ∷ b ∷ v ∷ rest) =
    if a == sync0 && (b == sync1 && v == protocol_version) then some rest else none
read_header _ = none

-- The fields behind the header; `checksum n` is that of the first `n` bytes of the frame, and it is
-- over the header, the fields and the payload: 21 bytes and the payload.
unfoldable pub accept : Bool → ℕ × Event × List ℕ → Option (ℕ × Event × List ℕ)
accept true r = some r
accept false r = none

unfoldable pub read_fields : (ℕ → ℕ) → List ℕ → Option (ℕ × Event × List ℕ)
read_fields checksum fields = do
  seq ← read_le 2 fields
  kind ← read_le 2 seq.1
  core ← read_le 1 kind.1
  task ← read_le 4 core.1
  time ← read_le 8 task.1
  len ← read_le 1 time.1
  crc ← read_le 2 (drop len.0 len.1)
  accept (crc.0 == checksum (21 + len.0)) (
    seq.0,
    record {
      kind = kind.0;
      core_id = core.0;
      task_id = task.0;
      timestamp = time.0;
      payload = take len.0 len.1;
    },
    crc.1,
  )

unfoldable pub decode : List ℕ → Option (ℕ × Event × List ℕ)
decode bytes = do fields ← read_header bytes; read_fields (λ n. crc16 (take n bytes)) fields

read_le-le_bytes :
    (n v : ℕ) (rest : List ℕ) → v < 256 ^ n → read_le n (le_bytes n v ++ rest) ≡ some (v, rest)
unfolding read_le le_bytes
read_le-le_bytes zero v rest h = let e : 0 ≡ v = omega arith in rw (← e) refl
read_le-le_bytes (suc n) v rest h =
    let ih = read_le-le_bytes n (v / 256) rest (omega (arith, pow-suc 256 n)) in
    let e : v % 2 ^ 8 + 2 ^ 8 * (v / 256) ≡ v = omega arith in rw ih (rw e refl)

-- A byte is a number of one byte.
read_byte : (b : ℕ) (rest : List ℕ) → read_le 1 (b ∷ rest) ≡ some (b, rest)
unfolding read_le
read_byte b rest = let e : b + 2 ^ 8 * 0 ≡ b = omega arith in rw e refl

take-length : (xs ys : List ℕ) → take (length xs) (xs ++ ys) ≡ xs
unfolding take
take-length [] ys = refl
take-length (x ∷ xs) ys = ap (λ r. x ∷ r) (take-length xs ys)

drop-length : (xs ys : List ℕ) → drop (length xs) (xs ++ ys) ≡ ys
unfolding drop
drop-length [] ys = refl
drop-length (x ∷ xs) ys = drop-length xs ys

-- The numbers of an event fit their fields.
pub record IsEvent (e : Event) : Type 0 where
  pub kind : e.kind < 2 ^ 16
  pub task_id : e.task_id < 2 ^ 32
  pub timestamp : e.timestamp < 2 ^ 64
  pub payload : length e.payload ≤ max_payload

module _ (seq : ℕ) (e : Event) (tail : List ℕ) where
  fields : List ℕ
  fields =
      le_bytes 2 seq
      ++ (le_bytes 2 e.kind
          ++ (e.core_id
              ∷ (le_bytes 4 e.task_id
                  ++ (le_bytes 8 e.timestamp ++ (length e.payload ∷ (e.payload ++ tail))))))

  read_fields-fields :
      (checksum : ℕ → ℕ) (rest : List ℕ)
      → IsEvent e
      → seq < 2 ^ 16
      → checksum (21 + length e.payload) < 2 ^ 16
      → tail ≡ le_bytes 2 (checksum (21 + length e.payload)) ++ rest
      → read_fields checksum fields ≡ some (seq, e, rest)
  unfolding read_fields fields accept
  read_fields-fields checksum rest v hs hc et =
      let n = length e.payload in
      let crc = checksum (21 + n) in
      rw
        (
          read_le-le_bytes 2 seq _ hs,
          read_le-le_bytes 2 e.kind _ v.kind,
          read_byte e.core_id,
          read_le-le_bytes 4 e.task_id _ v.task_id,
          read_le-le_bytes 8 e.timestamp _ v.timestamp,
          read_byte n,
          drop-length e.payload tail,
          take-length e.payload tail,
          et,
          read_le-le_bytes 2 crc rest hc,
          ==_refl crc,
        )
        refl

crc_bit-lt : (crc : ℕ) → crc_bit crc < 2 ^ 16
unfolding crc_bit
crc_bit-lt crc = ground arith

crc_bits-lt : (n crc : ℕ) → crc_bits (suc n) crc < 2 ^ 16
unfolding crc_bits
crc_bits-lt zero crc = crc_bit-lt crc
crc_bits-lt (suc n) crc = crc_bits-lt n (crc_bit crc)

crc_from-lt : (crc : ℕ) (bytes : List ℕ) → crc < 2 ^ 16 → crc_from crc bytes < 2 ^ 16
unfolding crc_from
crc_from-lt crc [] h = h
crc_from-lt crc (b ∷ bytes) h =
    crc_from-lt (crc_bits 8 (bit_xor crc (b * 2 ^ 8))) bytes
      (crc_bits-lt 7 (bit_xor crc (b * 2 ^ 8)))

crc16-lt : (bytes : List ℕ) → crc16 bytes < 2 ^ 16
unfolding crc16
crc16-lt bytes = crc_from-lt 0xffff bytes (omega arith)

length-le_bytes : (n v : ℕ) → length (le_bytes n v) ≡ n
unfolding le_bytes
length-le_bytes zero v = refl
length-le_bytes (suc n) v = ap suc (length-le_bytes n (v / 2 ^ 8))

module _ (seq : ℕ) (e : Event) (v : IsEvent e) where
  length-body : length (body seq e) ≡ 21 + length e.payload
  unfolding body
  length-body = omega (
    arith,
    length-append (le_bytes 2 seq) (
        le_bytes 2 e.kind
        ++ (e.core_id
            ∷ (le_bytes 4 e.task_id
                ++ (le_bytes 8 e.timestamp ++ ((length e.payload % 2 ^ 8) ∷ e.payload))))),
    length-append (le_bytes 2 e.kind) (
        e.core_id
        ∷ (le_bytes 4 e.task_id
            ++ (le_bytes 8 e.timestamp ++ ((length e.payload % 2 ^ 8) ∷ e.payload)))),
    length-append (le_bytes 4 e.task_id)
        (le_bytes 8 e.timestamp ++ ((length e.payload % 2 ^ 8) ∷ e.payload)),
    length-append (le_bytes 8 e.timestamp) ((length e.payload % 2 ^ 8) ∷ e.payload),
    length-le_bytes 2 seq,
    length-le_bytes 2 e.kind,
    length-le_bytes 4 e.task_id,
    length-le_bytes 8 e.timestamp,
  )

  body-fields :
      (tail : List ℕ) → body seq e ++ tail ≡ sync0 ∷ sync1 ∷ protocol_version ∷ fields seq e tail
  unfolding body fields
  body-fields tail =
      let small : length e.payload % 2 ^ 8 ≡ length e.payload = omega (arith, v.payload) in
      rw small (simp append_assoc)

  decode-body :
      (rest : List ℕ)
      → seq < 2 ^ 16
      → decode ((body seq e ++ le_bytes 2 (crc16 (body seq e))) ++ rest) ≡ some (seq, e, rest)
  unfolding decode read_header
  decode-body rest hs =
      let b = body seq e in
      let crc = le_bytes 2 (crc16 b) in
      let tail = crc ++ rest in
      let assoc : (b ++ crc) ++ rest ≡ b ++ tail = append_assoc b crc rest in
      let checked : crc16 (take (21 + length e.payload) (b ++ tail)) ≡ crc16 b =
        ap (λ n. crc16 (take n (b ++ tail))) (sym length-body) ∙ ap crc16 (take-length b tail) in
      let read =
        read_fields-fields seq e tail (λ n. crc16 (take n (b ++ tail))) rest v hs
          (crc16-lt (take (21 + length e.payload) (b ++ tail)))
          (ap (λ c. le_bytes 2 c ++ rest) (sym checked)) in
      let header : read_header (b ++ tail) ≡ some (fields seq e tail) =
        ap read_header (body-fields tail) in
      rw assoc (ap (λ o. o >>= read_fields (λ n. crc16 (take n (b ++ tail)))) header ∙ read)

  -- A reader that checks the header, the length and the checksum accepts every frame that is
  -- encoded from an event whose numbers fit their fields and a 16-bit sequence number, and gets
  -- back the sequence number, the event and the bytes that follow.
  pub decode-encode :
      {frame : List ℕ} (rest : List ℕ)
      → seq < 2 ^ 16
      → (encode seq e).0 ≡ some frame
      → decode (frame ++ rest) ≡ some (seq, e, rest)
  unfolding encode decode
  decode-encode {frame} rest hs h =
      let fits : leb (length e.payload) max_payload ≡ true = ground (arith, v.payload) in
      let made : some (body seq e ++ le_bytes 2 (crc16 (body seq e))) ≡ some frame = rw fits at h in
      let same : body seq e ++ le_bytes 2 (crc16 (body seq e)) ≡ frame = cc in
      rw (← same) (decode-body rest hs)
