-- ===== src/Audio/Stream.antt =====
-- src/audio/sample_queue.cpp, src/audio/volume_estimator.cpp, src/audio/stream.cpp.
-- A sample is the bit pattern of its `float`, 0 for 0.0f. Products and means of floats, and the
-- opus decoder, are parameters. Sounds and channels of FMOD are kept as flags.
pub mod Playback
use globed.Common.{
  ℕ, ◌-◌, Bool, true, false, List, [], ◌∷◌, ◌++◌, Result, ok, err, ltb, ◌==◌, if◌then◌else◌, length,
  take, drop, replicate,
}
use globed.Audio.Frame.{EncodedAudioFrame}

-- `AudioSampleQueue`.
unfoldable pub write_data : List ℕ → List ℕ → List ℕ
write_data pcm buf = buf ++ pcm

-- `copyTo`: the samples that are copied, and the queue after it.
unfoldable pub copy_to : ℕ → List ℕ → List ℕ × List ℕ
copy_to samples buf =
    if ltb (length buf) samples then (buf, []) else (take samples buf, drop samples buf)

pub record VolumeEstimator : Type 0 where
  pub sample_rate : ℕ
  pub sample_queue : List ℕ
  pub volume : ℕ

-- `feedData`: a second of samples at most is kept.
unfoldable pub feed_data : List ℕ → VolumeEstimator → VolumeEstimator
unfolding write_data
feed_data pcm e =
    let queue = write_data pcm e.sample_queue in
    record e { sample_queue = if ltb e.sample_rate (length queue) then [] else queue }

-- `update`: `needed` samples for the time that has passed, and the volume of these.
unfoldable update : (ℕ → ℕ → ℕ) → (List ℕ → ℕ) → ℕ → VolumeEstimator → VolumeEstimator
unfolding copy_to
update needed pcm_volume dt e =
    let n = needed e.sample_rate dt in
    let (copied, rest) = copy_to n e.sample_queue in
    record e {
      sample_queue = rest;
      volume = pcm_volume (copied ++ replicate (n - length copied) 0);
    }

pub record AudioStream : Type 0 where
  pub has_sound : Bool
  has_channel : Bool
  pub queue : List ℕ
  estimator : VolumeEstimator
  pub starving : Bool
  pub volume : ℕ
  pub last_playback_time : ℕ

-- `VOICE_TARGET_SAMPLERATE`.
abbrev pub voice_target_samplerate : ℕ
voice_target_samplerate = 24000

-- The constructor, once the sound is created. The volume of the estimator is not set before its first
-- `update`; it is 0 here.
abbrev pub new_stream : AudioStream
new_stream = record {
  has_sound = true;
  has_channel = false;
  queue = [];
  estimator = record { sample_rate = voice_target_samplerate; sample_queue = []; volume = 0 };
  starving = false;
  volume = 0;
  last_playback_time = 0;
}

-- The callback that FMOD reads samples by: what it fills `data` with, and the stream after it.
unfoldable pub pcm_read : ℕ → ℕ → AudioStream → List ℕ × AudioStream
unfolding copy_to feed_data
pcm_read now needed_samples s =
    let (copied, rest) = copy_to needed_samples s.queue in
    let short = if length copied == needed_samples then false else true in
    (
      copied ++ replicate (needed_samples - length copied) 0,
      record s {
        queue = rest;
        estimator = feed_data copied s.estimator;
        starving = short;
        last_playback_time = if short then s.last_playback_time else now;
      },
    )

-- `start`: a channel that plays already is kept.
unfoldable pub start : Bool → AudioStream → AudioStream
start plays s = if s.has_channel then s else record s { has_channel = plays }

-- `writeData` of samples.
unfoldable pub write_samples : List ℕ → AudioStream → AudioStream
unfolding write_data
write_samples pcm s = record s { queue = write_data pcm s.queue }

-- `writeData` of a frame. The decoder keeps a state; an opus frame that it refuses ends the call,
-- behind the samples of the frames before it.
module _ {State : Type 0} (decode : List ℕ → State → Result ℕ (List ℕ × State)) where
  unfoldable write_frames :
      List (List ℕ) → AudioStream → State → Result ℕ (Unit {0}) × (AudioStream × State)
  unfolding write_samples
  write_frames [] s d = (ok tt, (s, d))
  write_frames (f ∷ fs) s d = elim (decode f d) [
    | err e ↦ (err e, (s, d))
    | ok r ↦ write_frames fs (write_samples r.0 s) r.1
  ]

  unfoldable pub write_frame :
      EncodedAudioFrame → AudioStream → State → Result ℕ (Unit {0}) × (AudioStream × State)
  unfolding write_frames
  write_frame t s d = write_frames t.frames s d

unfoldable pub set_volume : ℕ → AudioStream → AudioStream
set_volume v s = record s { volume = v }

unfoldable pub update_estimator : (ℕ → ℕ → ℕ) → (List ℕ → ℕ) → ℕ → AudioStream → AudioStream
unfolding update
update_estimator needed pcm_volume dt s = record s {
  estimator = update needed pcm_volume dt s.estimator;
}

unfoldable pub get_loudness : (ℕ → ℕ → ℕ) → AudioStream → ℕ
get_loudness times s = times s.estimator.volume s.volume

-- The move: the target takes everything but the volume and the time of the last playback.
unfoldable move_from : AudioStream → AudioStream → AudioStream × AudioStream
move_from source target = (
  record target {
    has_sound = source.has_sound;
    has_channel = source.has_channel;
    queue = source.queue;
    estimator = source.estimator;
  },
  record source { has_sound = false; has_channel = false; queue = [] },
)
