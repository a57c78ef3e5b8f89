-- ===== src/Audio/Voices.antt =====
-- src/audio/voice_playback_manager.cpp, src/audio/voice_record_manager.cpp.
use globed.Common.{
  ℕ, Bool, true, false, not, ◌&&◌, ◌≡◌, List, [], Option, none, some, Result, ok, map,
  if◌then◌else◌, arith,
}
use globed.Common.Int.{ℤ}
use globed.Common.Keys.{int_key}
use globed.Common.Maps.{Map, lookup, assign, erase, emplace}
use globed.Audio.Frame.{EncodedAudioFrame}
use globed.Audio.Stream.{
  AudioStream, new_stream, start, write_frame, write_samples, set_volume, update_estimator,
  get_loudness,
}

abbrev Streams : Type 0
Streams = Map ℤ AudioStream

-- `prepareStream`; `plays` tells whether FMOD hands out a channel.
unfoldable prepare_stream : Bool → ℤ → Streams → Streams
unfolding emplace start
prepare_stream plays id m = emplace id (start plays new_stream) m

-- On the stream that is there; the callers ask first.
abbrev change : ℤ → (AudioStream → AudioStream) → Streams → Streams
change id f m = elim (lookup id m) [ none ↦ m | some s ↦ assign id (f s) m ]

-- `playRawDataStreamed`.
unfoldable play_raw_data_streamed : Bool → ℤ → List ℕ → Streams → Streams
unfolding prepare_stream write_samples lookup assign
play_raw_data_streamed plays id pcm m = change id (write_samples pcm) (prepare_stream plays id m)

-- `playFrameStreamed`. `decode` is the decoder of the stream, which keeps its state between frames.
module _ {State : Type 0} (decode : ℤ → List ℕ → State → Result ℕ (List ℕ × State)) where
  unfoldable play_on :
      ℤ
      → EncodedAudioFrame
      → Option AudioStream
      → Streams
      → State
      → Result ℕ (Unit {0}) × (Streams × State)
  unfolding write_frame assign
  play_on id t none m d = (ok tt, (m, d))
  play_on id t (some s) m d =
      let r = write_frame (decode id) t s d in (r.0, (assign id r.1.0 m, r.1.1))

  unfoldable play_frame_streamed :
      Bool → ℤ → EncodedAudioFrame → Streams → State → Result ℕ (Unit {0}) × (Streams × State)
  unfolding play_on prepare_stream lookup
  play_frame_streamed plays id t m d =
      let m' = prepare_stream plays id m in play_on id t (lookup id m') m' d

unfoldable stop_all_streams : Streams → Streams
stop_all_streams m = []

unfoldable remove_stream : ℤ → Streams → Streams
unfolding erase
remove_stream id m = erase id m

unfoldable is_speaking : ℤ → Streams → Bool
unfolding lookup
is_speaking id m = elim (lookup id m) [ none ↦ false | some s ↦ not s.starving ]

unfoldable set_player_volume : ℤ → ℕ → Streams → Streams
unfolding set_volume lookup assign
set_player_volume id v m = change id (set_volume v) m

unfoldable get_player_volume : ℤ → Streams → ℕ
unfolding lookup
get_player_volume id m = elim (lookup id m) [ none ↦ 0 | some s ↦ s.volume ]

-- `setVolumeAll`, `muteEveryone`.
unfoldable set_volume_all : ℕ → Streams → Streams
unfolding set_volume
set_volume_all v m = map (λ p. (p.0, set_volume v p.1)) m

unfoldable mute_everyone : Streams → Streams
unfolding set_volume_all
mute_everyone m = set_volume_all 0 m

-- `updateEstimator`, `updateAllEstimators`, `getLoudness`.
module _ (needed : ℕ → ℕ → ℕ) (pcm_volume : List ℕ → ℕ) (times : ℕ → ℕ → ℕ) where
  unfoldable update_player_estimator : ℤ → ℕ → Streams → Streams
  unfolding update_estimator lookup assign
  update_player_estimator id dt m = change id (update_estimator needed pcm_volume dt) m

  unfoldable update_all_estimators : ℕ → Streams → Streams
  unfolding update_estimator
  update_all_estimators dt m = map (λ p. (p.0, update_estimator needed pcm_volume dt p.1)) m

  unfoldable get_player_loudness : ℤ → Streams → ℕ
  unfolding get_loudness lookup
  get_player_loudness id m = elim (lookup id m) [ none ↦ 0 | some s ↦ get_loudness times s ]

-- `getLastPlaybackTime`.
unfoldable get_last_playback_time : ℤ → Streams → ℕ
unfolding lookup
get_last_playback_time id m = elim (lookup id m) [ none ↦ 0 | some s ↦ s.last_playback_time ]

-- `VoiceRecordingManager`, with whether the audio manager records.
pub record Recorder : Type 0 where
  pub recording : Bool
  pub queued_start : Bool
  pub queued_stop : Bool
  pub device_records : Bool

unfoldable start_recording : Recorder → Recorder
start_recording r = record r { queued_start = true }

unfoldable stop_recording : Recorder → Recorder
stop_recording r = record r { queued_stop = true }

unfoldable reset_bools : Bool → Recorder → Recorder
reset_bools b r = record r { recording = b; queued_start = false; queued_stop = false }

-- One round of `threadFunc`; `device_set` and `starts` are what the audio manager answers.
unfoldable pub record_round : Bool → Bool → Recorder → Recorder
unfolding reset_bools
record_round device_set starts r =
    if r.queued_stop
    then reset_bools false (record r { device_records = false })
    else if r.queued_start && not r.device_records
    then (if not device_set
        then reset_bools false r
        else if not starts
        then reset_bools false r
        else reset_bools true (record r { device_records = true }))
    else reset_bools r.device_records r

-- Whatever the flags are, after a round no request is left, and what the manager reports is what
-- the device does; a request to stop, even beside one to start, leaves it stopped.
pub record_round_lem :
    (device_set starts : Bool) (r : Recorder)
    → ((record_round device_set starts r).recording
        ≡ (record_round device_set starts r).device_records)
      × ((record_round device_set starts r).queued_start ≡ false)
      × ((record_round device_set starts r).queued_stop ≡ false)
      × (r.queued_stop ≡ true → (record_round device_set starts r).device_records ≡ false)
unfolding record_round reset_bools
record_round_lem device_set starts r = ground arith
