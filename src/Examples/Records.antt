-- ===== src/Examples/Records.antt =====
-- Runs of the recording.
use globed.Common.{
  ℕ, ◌+◌, ◌%◌, ◌≡◌, ◌<◌, zero, suc, get_elem?, refl, true, false, some, List, [], ◌∷◌, arith,
  length,
}
use globed.Audio.Recording.{Recording, new_samples, thread_work}
use globed.Audio.Recording.Ring.{new_samples_lem}
use globed.Audio.Recording.Room.{IsRoomy, thread_work_lem}

-- Eight places; the samples 1, 2, 3, 4 begin at place 6 and go on at place 0.
abbrev memory : List ℕ
memory = 3 ∷ 4 ∷ 0 ∷ 0 ∷ 0 ∷ 0 ∷ 1 ∷ 2 ∷ []

abbrev samples : List ℕ
samples = 1 ∷ 2 ∷ 3 ∷ 4 ∷ []

in_memory :
    (k : ℕ) → k < length samples → get_elem? memory ((6 + k) % length memory) ≡ get_elem? samples k
in_memory zero h = refl
in_memory (suc zero) h = refl
in_memory (suc (suc zero)) h = refl
in_memory (suc (suc (suc zero))) h = refl
in_memory (suc (suc (suc (suc k)))) h = absurd (omega (arith, h))

new_samples_lem_example : new_samples memory 6 ((6 + length samples) % length memory) ≡ samples
new_samples_lem_example = new_samples_lem memory samples 6 (omega arith) (omega arith) in_memory

abbrev recording : Recording
recording = record {
  device_set = true;
  active = true;
  queued_stop = false;
  queued_halt = false;
  raw = false;
  passive = false;
  passive_active = false;
  last_position = 6;
  chunk_size = 96000;
  queue = [];
  frame = record { frames = (9 ∷ []) ∷ []; capacity = 2 };
  delivered = [];
  delivered_raw = [];
}

abbrev same_bytes : List ℕ → List ℕ
same_bytes q = q

thread_work_lem_example :
    ((thread_work (some 2) (some memory) true (λ q. some (same_bytes q)) recording).0 ≡ true)
    × IsRoomy (thread_work (some 2) (some memory) true (λ q. some (same_bytes q)) recording).1
thread_work_lem_example = thread_work_lem 2 memory same_bytes recording (omega arith)
