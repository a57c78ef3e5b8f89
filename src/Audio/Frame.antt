-- ===== src/Audio/Frame.antt =====
-- src/audio/frame.hpp, src/audio/frame.cpp, and `EncodedOpusData` of src/audio/encoder.hpp.
-- An opus frame is the list of the bytes that `ptr` and `length` span.
pub mod Capacity
use globed.Common.{
  ℕ, zero, suc, ◌+◌, ◌-◌, ◌^◌, ◌≤◌, ◌<◌, ◌≡◌, refl, sym, ap, ◌∙◌, Option, none, some, List, [], ◌∷◌,
  ◌++◌, map, arith, ltb, leb, if◌then◌else◌, length, length-append, replicate, All, Result, ok, err,
  length-map, length-replicate, All-append, Bool-cases, inl, inr,
}
use globed.Data.Buffer.Cursor.{full, at}
use globed.Data.Buffer.{
  ByteBuffer, Reader, done, ◌>>=◌, fail, read_bytes_into, raw_write_bytes, data_too_long,
}
use globed.Data.Buffer.Safety.{IsSafe, Forward-refl, >>=-IsSafe, read_bytes_into-IsSafe}
use globed.Data.Serial.{Serial, converted}
use globed.Data.Serial.Numbers.{u32}
use globed.Data.Serial.Text.{prefixed-write, prefixed-read}
use globed.Data.Serial.Choices.{optional, IsFitOptional}
use globed.Data.Serial.Containers.{items}

-- `VOICE_MAX_BYTES_IN_FRAME`, `VOICE_MAX_FRAMES_IN_AUDIO_FRAME`.
abbrev pub max_bytes_in_frame : ℕ
max_bytes_in_frame = 1000

abbrev pub max_frames : ℕ
max_frames = 10

unfoldable read_opus_body : ℕ → Reader (List ℕ)
unfolding read_bytes_into
read_opus_body n = if ltb max_bytes_in_frame n then fail data_too_long else read_bytes_into n

unfoldable pub decode_opus : Reader (List ℕ)
unfolding read_opus_body u32
decode_opus = do n ← u32.read; read_opus_body n

unfoldable pub encode_opus : List ℕ → ByteBuffer → ByteBuffer
unfolding u32 raw_write_bytes
encode_opus data_of b = raw_write_bytes data_of (u32.write (length data_of) b)

opus_body_fits : (n : ℕ) → n ≤ max_bytes_in_frame → read_opus_body n ≡ read_bytes_into n
unfolding read_opus_body
opus_body_fits n h = ground arith

opus_body-IsSafe : (n : ℕ) → IsSafe (read_opus_body n)
unfolding read_opus_body
opus_body-IsSafe n = elim (Bool-cases (ltb max_bytes_in_frame n)) [
  | inl e ↦ rw e λ b v. Forward-refl v
  | inr e ↦ rw e (read_bytes_into-IsSafe n (ground arith))
]

pub opus-write :
    (s bs : List ℕ)
    → length bs + length (u32.wire (length s) ++ s) < 2 ^ 63
    → encode_opus s (full bs) ≡ full (bs ++ (u32.wire (length s) ++ s))
unfolding encode_opus u32
opus-write s bs h = prefixed-write u32 s bs h

pub opus-read :
    (s front rest : List ℕ)
    → length s ≤ max_bytes_in_frame
    → length front + length (u32.wire (length s) ++ s) < 2 ^ 63
    → decode_opus (at front ((u32.wire (length s) ++ s) ++ rest))
      ≡ done s (at (front ++ (u32.wire (length s) ++ s)) rest)
unfolding decode_opus u32
opus-read s front rest f h =
    prefixed-read u32 s read_opus_body front rest (opus_body_fits (length s) f)
      (unfold u32 in omega arith) h

pub opus-IsSafe : IsSafe decode_opus
unfolding decode_opus
opus-IsSafe = >>=-IsSafe u32.read read_opus_body u32.read-safe opus_body-IsSafe

unfoldable pub encoded_opus_data : Serial (List ℕ)
unfolding decode_opus encode_opus u32
encoded_opus_data = record {
  read = decode_opus;
  write = encode_opus;
  wire = λ s. u32.wire (length s) ++ s;
  IsFit = λ s. length s ≤ max_bytes_in_frame;
  write-full = opus-write;
  read-at = opus-read;
  read-safe = opus-IsSafe;
}

pub record EncodedAudioFrame : Type 0 where
  pub frames : List (List ℕ)
  pub capacity : ℕ

unfoldable pub of_capacity : ℕ → EncodedAudioFrame
of_capacity n = record { frames = []; capacity = n }

unfoldable pub push_opus_frame : List ℕ → EncodedAudioFrame → Result ℕ EncodedAudioFrame
push_opus_frame f t =
    if leb t.capacity (length t.frames)
    then err t.capacity
    else ok (record t { frames = t.frames ++ f ∷ [] })

unfoldable pub pop_back : List (List ℕ) → List (List ℕ)
pop_back [] = []
pop_back (f ∷ []) = []
pop_back (f ∷ g ∷ fs) = f ∷ pop_back (g ∷ fs)

-- The loop of `setCapacity`, on fuel: one round for each frame is enough.
unfoldable pub pop_beyond : ℕ → ℕ → List (List ℕ) → List (List ℕ)
unfolding pop_back
pop_beyond zero n fs = fs
pop_beyond (suc fuel) n fs = if ltb n (length fs) then pop_beyond fuel n (pop_back fs) else fs

unfoldable pub set_capacity : ℕ → EncodedAudioFrame → EncodedAudioFrame
unfolding pop_beyond
set_capacity n t = record { frames = pop_beyond (length t.frames) n t.frames; capacity = n }

unfoldable pub clear : EncodedAudioFrame → EncodedAudioFrame
clear t = record t { frames = [] }

-- What the encoder writes: the frames, and nothing for each place up to the tenth that is left.
unfoldable pub slots : EncodedAudioFrame → List (Option (List ℕ))
slots t = map some t.frames ++ replicate (max_frames - length t.frames) none

-- The decoder pushes the frames among the ten optionals that it reads.
unfoldable pub present : List (Option (List ℕ)) → List (List ℕ)
present [] = []
present (none ∷ os) = present os
present (some f ∷ os) = f ∷ present os

unfoldable pub frame_of : List (Option (List ℕ)) → EncodedAudioFrame
unfolding present
frame_of os = record { frames = present os; capacity = max_frames }

-- `GLOBED_REQUIRE` throws where the frame holds more than its capacity.
unfoldable pub encode_audio_frame : EncodedAudioFrame → ByteBuffer → Option ByteBuffer
encode_audio_frame t b =
    if leb (length t.frames) t.capacity
    then some ((items (optional encoded_opus_data) max_frames).write (slots t) b)
    else none

pub record IsSendable (t : EncodedAudioFrame) : Type 0 where
  pub few : length t.frames ≤ max_frames
  pub whole : t.capacity ≡ max_frames
  pub small : All (λ (f : List ℕ). length f ≤ max_bytes_in_frame) t.frames

present-slots : (fs : List (List ℕ)) (k : ℕ) → present (map some fs ++ replicate k none) ≡ fs
unfolding present
present-slots [] zero = refl
present-slots [] (suc k) = present-slots [] k
present-slots (f ∷ fs) k = ap (◌∷◌ f) (present-slots fs k)

somes-fit :
    (fs : List (List ℕ))
    → All (λ (f : List ℕ). length f ≤ max_bytes_in_frame) fs
    → All (IsFitOptional encoded_opus_data) (map some fs)
unfolding encoded_opus_data
somes-fit [] h = tt
somes-fit (f ∷ fs) h = (h.0, somes-fit fs h.1)

nones-fit : (k : ℕ) → All (IsFitOptional encoded_opus_data) (replicate k none)
nones-fit zero = tt
nones-fit (suc k) = (tt, nones-fit k)

pub slots-IsFit :
    (t : EncodedAudioFrame)
    → IsSendable t
    → (items (optional encoded_opus_data) max_frames).IsFit (slots t)
unfolding items slots optional
slots-IsFit t h =
    let left = max_frames - length t.frames in
    let nones : List (Option (List ℕ)) = replicate left none in
    let e : length nones ≡ left = length-replicate left none in
    (
      omega (arith, h.few, length-append (map some t.frames) nones, length-map some t.frames, e),
      All-append (IsFitOptional encoded_opus_data) (map some t.frames) nones
          (somes-fit t.frames h.small) (nones-fit left),
    )

pub frame_of-slots : (t : EncodedAudioFrame) → IsSendable t → frame_of (slots t) ≡ t
unfolding frame_of slots
frame_of-slots t h =
    ap (λ (fs : List (List ℕ)). record { frames = fs; capacity = max_frames })
      (present-slots t.frames (max_frames - length t.frames))
    ∙ ap (λ (c : ℕ). record { frames = t.frames; capacity = c }) (sym h.whole)

unfoldable pub encoded_audio_frame : Serial EncodedAudioFrame
unfolding slots frame_of
encoded_audio_frame =
    converted (items (optional encoded_opus_data) max_frames) slots frame_of IsSendable slots-IsFit
      frame_of-slots
