-- ===== src/Audio/Recording/Room.antt =====
-- src/audio/manager.cpp: the frame that recording fills has room for the next opus frame.
use globed.Common.{
  ℕ, ◌≤◌, ◌<◌, ◌≡◌, refl, Bool, true, false, List, [], ◌∷◌, ◌++◌, some, ok, arith, length,
  length-append, leb, ◌==◌, Bool-cases, inl, inr,
}
use globed.Audio.Frame.{EncodedAudioFrame, push_opus_frame, clear}
use globed.Audio.Stream.{copy_to}
use globed.Audio.Recording.{
  Recording, voice_target_framesize, thread_work, capture, encode_queue, deliver, invoke_callback,
  invoke_raw_callback, delivered_if_ok, use_queue,
}

abbrev pub IsRoomy : Recording → Type 0
IsRoomy r = length r.frame.frames < r.frame.capacity

-- At most full, with room for one frame at all.
abbrev IsFilled : Recording → Type 0
IsFilled r = (length r.frame.frames ≤ r.frame.capacity) × (0 < r.frame.capacity)

push-room :
    (f : List ℕ) (t : EncodedAudioFrame)
    → length t.frames < t.capacity
    → push_opus_frame f t ≡ ok (record t { frames = t.frames ++ f ∷ [] })
unfolding push_opus_frame
push-room f t h = ground arith

deliver-IsRoomy : (r : Recording) → IsFilled r → IsRoomy (deliver r)
unfolding deliver invoke_callback clear
deliver-IsRoomy r h = ground (arith, h)

encode-IsFilled :
    (encode : List ℕ → List ℕ) (r : Recording)
    → IsRoomy r
    → ((encode_queue (λ q. some (encode q)) r).0 ≡ true)
      × IsFilled (encode_queue (λ q. some (encode q)) r).1
unfolding encode_queue
encode-IsFilled encode r h = elim (Bool-cases (leb voice_target_framesize (length r.queue))) [
  | inl e ↦
      let p = push-room (encode (copy_to voice_target_framesize r.queue).0) r.frame h in
      rw (encode_queue, e, p)
        (
          refl,
          (
            omega (
              arith,
              length-append r.frame.frames (encode (copy_to voice_target_framesize r.queue).0 ∷ []),
            ),
            omega arith,
          ),
        )
  | inr e ↦ rw (encode_queue, e) (refl, (omega arith, omega arith))
]

raw-IsRoomy : (r : Recording) → IsRoomy r → IsRoomy (invoke_raw_callback r)
unfolding invoke_raw_callback
raw-IsRoomy r h = ground (arith, h)

encoded-IsRoomy :
    (p : Bool × Recording)
    → p.0 ≡ true
    → IsFilled p.1
    → ((delivered_if_ok p).0 ≡ true) × IsRoomy (delivered_if_ok p).1
encoded-IsRoomy p e h = rw e (refl, deliver-IsRoomy p.1 h)

use_queue-IsRoomy :
    (raw : Bool) (encode : List ℕ → List ℕ) (r : Recording)
    → IsRoomy r
    → ((use_queue raw (λ q. some (encode q)) r).0 ≡ true)
      × IsRoomy (use_queue raw (λ q. some (encode q)) r).1
unfolding use_queue
use_queue-IsRoomy true encode r h = (refl, raw-IsRoomy r h)
use_queue-IsRoomy false encode r h =
    let f = encode-IsFilled encode r h in
    encoded-IsRoomy (encode_queue (λ q. some (encode q)) r) f.0 f.1

-- A round that starts with room in the frame, while FMOD and the encoder answer, succeeds and ends
-- with room in the frame: encoding never meets a full frame, and so never stops the recording.
pub thread_work_lem :
    (pos : ℕ) (pcm : List ℕ) (encode : List ℕ → List ℕ) (r : Recording)
    → IsRoomy r
    → ((thread_work (some pos) (some pcm) true (λ q. some (encode q)) r).0 ≡ true)
      × IsRoomy (thread_work (some pos) (some pcm) true (λ q. some (encode q)) r).1
unfolding thread_work capture
thread_work_lem pos pcm encode r h = elim (Bool-cases (pos == r.last_position)) [
  | inl e ↦ rw (thread_work, e) (refl, h)
  | inr e ↦ rw (thread_work, e) (use_queue-IsRoomy r.raw encode (capture pcm pos r) h)
]
