-- ===== src/Audio/Frame/Capacity.antt =====
-- src/audio/frame.cpp: a frame never holds more than its capacity, so that its encoder never throws.
use globed.Common.{
  ℕ, zero, suc, ◌-◌, ◌^◌, ◌≤◌, ◌<◌, ◌≡◌, refl, sym, ap, ◌∙◌, some, List, [], ◌∷◌, arith, ltb, leb,
  length, length-append, length-take, take, take_all, ok, Bool-cases, All, true, inl, inr,
}
use globed.Data.Buffer.{ByteBuffer, done, of_bytes}
use globed.Data.Buffer.Cursor.{full}
use globed.Data.Serial.{read-wire, converted}
use globed.Data.Serial.Containers.{items}
use globed.Audio.Frame.{
  EncodedAudioFrame, of_capacity, push_opus_frame, pop_back, pop_beyond, set_capacity, clear,
  max_frames, max_bytes_in_frame, encode_audio_frame, IsSendable, encoded_audio_frame,
}

abbrev IsWithin : EncodedAudioFrame → Type 0
IsWithin t = length t.frames ≤ t.capacity

take-pop_back : (n : ℕ) (fs : List (List ℕ)) → n < length fs → take n (pop_back fs) ≡ take n fs
unfolding pop_back
take-pop_back zero fs h = refl
take-pop_back (suc n) [] h = refl
take-pop_back (suc n) (f ∷ []) h = absurd (omega arith)
take-pop_back (suc n) (f ∷ g ∷ fs) h = ap (◌∷◌ f) (take-pop_back n (g ∷ fs) (omega arith))

length-pop_back : (fs : List (List ℕ)) → length (pop_back fs) ≡ length fs - 1
unfolding pop_back
length-pop_back [] = refl
length-pop_back (f ∷ []) = refl
length-pop_back (f ∷ g ∷ fs) = omega (arith, length-pop_back (g ∷ fs))

-- With a round for each frame the loop that pops the last frames ends, and what is left are the
-- first frames, as many as the new capacity allows, in their order.
pop_beyond-take :
    (fuel n : ℕ) (fs : List (List ℕ)) → length fs ≤ fuel → pop_beyond fuel n fs ≡ take n fs
unfolding pop_beyond
pop_beyond-take zero n [] h = sym (take_all n [] (omega arith))
pop_beyond-take zero n (f ∷ fs) h = absurd (omega arith)
pop_beyond-take (suc fuel) n fs h = elim (Bool-cases (ltb n (length fs))) [
  | inl e ↦ rw e (
      pop_beyond-take fuel n (pop_back fs) (omega (arith, length-pop_back fs, h))
      ∙ take-pop_back n fs (ground arith))
  | inr e ↦ rw e (sym (take_all n fs (ground arith)))
]

-- The frames that the operations make.
pub data Built : EncodedAudioFrame → Type 0 where
  fresh : (n : ℕ) → Built (of_capacity n)
  pushed : (f : List ℕ) (t u : EncodedAudioFrame) → Built t → push_opus_frame f t ≡ ok u → Built u
  resized : (n : ℕ) (t : EncodedAudioFrame) → Built t → Built (set_capacity n t)
  cleared : (t : EncodedAudioFrame) → Built t → Built (clear t)

push_opus_frame-IsWithin :
    (f : List ℕ) (t u : EncodedAudioFrame) → push_opus_frame f t ≡ ok u → IsWithin u
unfolding push_opus_frame
push_opus_frame-IsWithin f t u h = ground (arith, length-append t.frames (f ∷ []))

-- A frame that is made by pushes, changes of the capacity and clearings, in any order, holds at most
-- as many opus frames as its capacity.
Built-IsWithin : (t : EncodedAudioFrame) → Built t → IsWithin t
unfolding of_capacity clear set_capacity
Built-IsWithin t (fresh n) = omega arith
Built-IsWithin t (pushed f s u b h) = push_opus_frame-IsWithin f s t h
Built-IsWithin t (resized n s b) = omega (
  arith,
  length-take n s.frames,
  ap length (pop_beyond-take (length s.frames) n s.frames (omega arith)),
)
Built-IsWithin t (cleared s b) = omega arith

-- A frame that the operations made, whose capacity is at most ten and whose opus frames have at most
-- 1000 bytes each, is encoded without an exception; from what is written into an empty buffer the
-- decoder makes a frame with the same opus frames in their order, of the capacity ten.
pub audio_frame_round :
    (t : EncodedAudioFrame)
    → Built t
    → t.capacity ≤ max_frames
    → All (λ (f : List ℕ). length f ≤ max_bytes_in_frame) t.frames
    → length (encoded_audio_frame.wire t) < 2 ^ 63
    → (b : ByteBuffer) × (encode_audio_frame t (of_bytes []) ≡ some b)
      × (encoded_audio_frame.read (of_bytes b.bytes)
          ≡ done (record t { capacity = max_frames }) (full b.bytes))
unfolding encode_audio_frame encoded_audio_frame of_bytes items converted
audio_frame_round t built c small h =
    let ten : EncodedAudioFrame = record t { capacity = max_frames } in
    let w = Built-IsWithin t built in
    let e : leb (length t.frames) t.capacity ≡ true = ground arith in
    let s : IsSendable ten = record { few = omega (arith, w, c); whole = refl; small = small } in
    (
      full (encoded_audio_frame.wire t),
      rw e (ap some (encoded_audio_frame.write-full t [] (omega (arith, h)))),
      read-wire encoded_audio_frame ten s h,
    )
