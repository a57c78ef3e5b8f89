-- ===== src/Audio/Recording.antt =====
-- src/audio/manager.cpp: recording. What FMOD and the encoder answer in a round are arguments; the
-- device is set or not; what the callbacks are handed is kept in order. `none` is an exception.
pub mod Ring
pub mod Room
use globed.Common.{
  ℕ, ◌-◌, ◌*◌, Bool, true, false, not, ◌&&◌, ◌||◌, List, [], ◌∷◌, ◌++◌, Option, none, some, ok, err,
  ltb, leb, ◌==◌, if◌then◌else◌, length, take, drop,
}
use globed.Audio.Frame.{EncodedAudioFrame, push_opus_frame, set_capacity, clear}
use globed.Audio.Stream.{copy_to, write_data, voice_target_samplerate}

-- `VOICE_TARGET_FRAMESIZE`, 24000 * 0.06f.
abbrev pub voice_target_framesize : ℕ
voice_target_framesize = 1440

pub record Recording : Type 0 where
  pub device_set : Bool
  pub active : Bool
  pub queued_stop : Bool
  pub queued_halt : Bool
  pub raw : Bool
  pub passive : Bool
  pub passive_active : Bool
  pub last_position : ℕ
  pub chunk_size : ℕ
  pub queue : List ℕ
  pub frame : EncodedAudioFrame
  pub delivered : List (List (List ℕ))
  pub delivered_raw : List (List ℕ)

unfoldable set_record_buffer_capacity : ℕ → Recording → Recording
unfolding set_capacity
set_record_buffer_capacity n r = record r { frame = set_capacity n r.frame }

-- `isRecording`; `answer` is FMOD's, `none` for an error.
unfoldable is_recording : Option Bool → Recording → Bool × Recording
is_recording answer r =
    if not r.device_set
    then (false, r)
    else (if r.active && r.passive
        then (r.passive_active, r)
        else elim answer [ none ↦ (false, record r { device_set = false }) | some b ↦ (b, r) ])

-- `startRecordingInternal`: whether it succeeds.
unfoldable start_internal : Bool → Option Bool → Bool → Bool → Bool → Recording → Bool × Recording
unfolding is_recording
start_internal permitted answer created started passive r =
    let (recording, r') = is_recording answer r in
    if not permitted || not r.device_set
    then (false, r)
    else (if recording || r'.active
        then (false, r')
        else (if not created || not started
            then (false, record r' { chunk_size = 4 * voice_target_samplerate })
            else (
              true,
              record r' {
                chunk_size = 4 * voice_target_samplerate;
                queued_stop = false;
                queued_halt = false;
                last_position = 0;
                active = true;
                passive = passive;
              },
            )))

-- `recordInvokeCallback`, `recordInvokeRawCallback`.
unfoldable pub invoke_callback : Recording → Recording
unfolding clear
invoke_callback r =
    if length r.frame.frames == 0
    then r
    else record r { delivered = r.delivered ++ r.frame.frames ∷ []; frame = clear r.frame }

unfoldable pub invoke_raw_callback : Recording → Recording
invoke_raw_callback r =
    if length r.queue == 0 then r else record r { delivered_raw = r.delivered_raw ++ r.queue ∷ [] }

-- `internalStopRecording`; `stops` tells whether FMOD stops.
unfoldable internal_stop : Bool → Recording → Option Recording
unfolding invoke_callback clear
internal_stop stops r =
    let r' =
      if r.queued_halt
      then record r { frame = clear r.frame; queued_halt = false }
      else invoke_callback r in
    if stops
    then some (record r' {
      last_position = 0;
      chunk_size = 0;
      raw = false;
      passive = false;
      passive_active = false;
      queue = [];
      active = false;
      queued_stop = false;
    })
    else none

-- The samples between the position of the last round and the new one, in FMOD's circular buffer.
unfoldable pub new_samples : List ℕ → ℕ → ℕ → List ℕ
new_samples pcm last pos =
    if ltb last pos
    then take (pos - last) (drop last pcm)
    else (if ltb pos last then take (length pcm - last) (drop last pcm) ++ take pos pcm else [])

-- The frame of one round, where enough samples wait: whether the encoder and the frame took it.
unfoldable pub encode_queue : (List ℕ → Option (List ℕ)) → Recording → Bool × Recording
unfolding copy_to push_opus_frame
encode_queue encode r =
    if leb voice_target_framesize (length r.queue)
    then (let (pcm, rest) = copy_to voice_target_framesize r.queue in
        elim (encode pcm) [
          | none ↦ (false, record r { queue = rest })
          | some opus ↦ elim (push_opus_frame opus r.frame) [
            | err e ↦ (false, record r { queue = rest })
            | ok t ↦ (true, record r { queue = rest; frame = t })
          ]
        ])
    else (true, r)

-- At capacity, or right after passive recording has paused.
unfoldable pub deliver : Recording → Recording
unfolding invoke_callback
deliver r =
    if leb r.frame.capacity (length r.frame.frames)
      || (ltb 0 (length r.frame.frames) && r.passive && not r.passive_active)
    then invoke_callback r
    else r

unfoldable pub capture : List ℕ → ℕ → Recording → Recording
unfolding write_data new_samples
capture pcm pos r = record r {
  queue =
      if not r.passive || r.passive_active
      then write_data (new_samples pcm r.last_position pos) r.queue
      else r.queue;
  last_position = pos;
}

abbrev pub delivered_if_ok : Bool × Recording → Bool × Recording
delivered_if_ok p = if p.0 then (true, deliver p.1) else p

-- Raw recording, and encoded recording.
unfoldable pub use_queue : Bool → (List ℕ → Option (List ℕ)) → Recording → Bool × Recording
unfolding invoke_raw_callback encode_queue deliver
use_queue true encode r = (true, record (invoke_raw_callback r) { queue = [] })
use_queue false encode r = delivered_if_ok (encode_queue encode r)

-- `audioThreadWork`: whether it succeeds.
unfoldable pub thread_work :
    Option ℕ → Option (List ℕ) → Bool → (List ℕ → Option (List ℕ)) → Recording → Bool × Recording
unfolding capture use_queue
thread_work none memory unlocks encode r = (false, r)
thread_work (some pos) none unlocks encode r = (pos == r.last_position, r)
thread_work (some pos) (some pcm) unlocks encode r =
    let r' = capture pcm pos r in
    if pos == r.last_position
    then (true, r)
    else (if not unlocks then (false, r') else use_queue r.raw encode r')

-- `audioThreadFunc`.
unfoldable thread_round :
    Option ℕ
    → Option (List ℕ)
    → Bool
    → (List ℕ → Option (List ℕ))
    → Bool
    → Recording
    → Option Recording
unfolding thread_work internal_stop
thread_round position memory unlocks encode stops r =
    let (fine, r') = thread_work position memory unlocks encode r in
    if not r.active
    then some r
    else (if r.queued_stop
        then internal_stop stops (record r { queued_stop = false })
        else (if fine then some r' else internal_stop stops r'))

-- `startRecording`, `startRecordingRaw` and `startPassiveRecording`, behind the part they share.
unfoldable begin_recording : Bool → Bool × Recording → Bool × Recording
begin_recording raw (fine, r) = (fine, if fine then record r { raw = raw } else r)

unfoldable queue_stop : Recording → Recording
queue_stop r = record r { queued_stop = true }

unfoldable queue_halt : Recording → Recording
queue_halt r = record r { queued_stop = true; queued_halt = true }

unfoldable resume_passive_recording : Recording → Recording
resume_passive_recording r = record r { passive_active = true }

unfoldable pause_passive_recording : Recording → Recording
pause_passive_recording r = record r { passive_active = false }
