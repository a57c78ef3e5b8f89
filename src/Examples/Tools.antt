-- ===== src/Examples/Tools.antt =====
-- Runs of the utilities and of the audio streams.
use globed.Common.{
  ℕ, ◌+◌, ◌*◌, ◌%◌, ◌^◌, ◌≡◌, refl, some, List, [], ◌∷◌, ◌++◌, arith, true, All, replicate,
  length-replicate,
}
use globed.Data.Buffer.{ByteBuffer, done, of_bytes}
use globed.Data.Buffer.Cursor.{full}
use globed.Data.Types.Misc.{Color3}
use globed.Util.Adler32.{adler32, adler_mod, sums, adler32-sums}
use globed.Util.SmallVector.Slots.{stack_storage}
use globed.Util.SmallVector.{
  SmallVector, pointed, iterated, push_back, IsBacked, IsPushed, push_back-IsBacked,
}
use globed.Util.Format.Color.{parse_color, color_to_hex, parse_color-color_to_hex}
use globed.Util.Format.Split.{IsSplit, split, split-IsSplit}
use globed.Audio.Frame.{
  EncodedAudioFrame, encoded_audio_frame, encode_audio_frame, max_frames, of_capacity,
  push_opus_frame,
}
use globed.Audio.Frame.Capacity.{Built, fresh, pushed, audio_frame_round}
use globed.Audio.Stream.{new_stream}
use globed.Audio.Stream.Playback.{Event, writes, reads, written, play, played-written}

abbrev word : List ℕ
word = 97 ∷ 32 ∷ 98 ∷ []

adler32-sums_example :
    adler32 word ≡ (sums word 1 0).1 % adler_mod * 2 ^ 16 + (sums word 1 0).0 % adler_mod
adler32-sums_example = adler32-sums word (omega arith, (omega arith, (omega arith, tt)))

-- A new array of zeros.
abbrev zeros : ℕ → List ℕ
zeros c = replicate c 0

abbrev two_slots : SmallVector ℕ
two_slots = record { size = 2; capacity = 2; storage = stack_storage (7 ∷ 8 ∷ []) }

two_slots-IsBacked : IsBacked 2 zeros two_slots
unfolding pointed
two_slots-IsBacked = record {
  slots = 7 ∷ 8 ∷ [];
  member = refl;
  full = refl;
  room = omega arith;
  at_least = omega arith;
}

push_back-IsBacked_example : IsPushed 2 zeros 9 (7 ∷ 8 ∷ []) (push_back 2 zeros 9 two_slots)
unfolding iterated
push_back-IsBacked_example =
    push_back-IsBacked 2 zeros (λ c. length-replicate c 0) 9 two_slots (7 ∷ 8 ∷ []) (omega arith)
      (omega arith) two_slots-IsBacked refl

abbrev red : Color3
red = record { r = 255; g = 16; b = 0 }

parse_color-color_to_hex_example : parse_color (color_to_hex red true) ≡ some red
parse_color-color_to_hex_example =
    parse_color-color_to_hex red true
      (record { r_byte = omega arith; g_byte = omega arith; b_byte = omega arith })

split-IsSplit_example : IsSplit (32 ∷ []) word (split word (32 ∷ []))
split-IsSplit_example = split-IsSplit 32 [] word

abbrev one_frame : EncodedAudioFrame
one_frame = record { capacity = 5; frames = word ∷ [] }

one_frame-Built : Built one_frame
unfolding push_opus_frame of_capacity
one_frame-Built = pushed word (of_capacity 5) one_frame (fresh 5) refl

audio_frame_round_example :
    (b : ByteBuffer) × (encode_audio_frame one_frame (of_bytes []) ≡ some b)
    × (encoded_audio_frame.read (of_bytes b.bytes)
        ≡ done (record one_frame { capacity = max_frames }) (full b.bytes))
unfolding encoded_audio_frame globed.Data.Serial.converted globed.Data.Serial.Containers.items
    globed.Data.Serial.Choices.optional globed.Data.Serial.Numbers.boolean
    globed.Data.Words.bytes_be globed.Audio.Frame.encoded_opus_data
audio_frame_round_example =
    audio_frame_round one_frame one_frame-Built (omega arith) (omega arith, tt) (omega arith)

abbrev run : List Event
run = writes (1 ∷ 2 ∷ 3 ∷ []) ∷ reads 5 2 ∷ writes (4 ∷ []) ∷ reads 6 4 ∷ []

played-written_example :
    ((play run new_stream).played ++ (play run new_stream).last.queue ≡ [] ++ written run)
    × All (λ (x : ℕ). x ≡ 0) (play run new_stream).filler
played-written_example = played-written run new_stream
