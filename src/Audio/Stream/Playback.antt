-- ===== src/Audio/Stream/Playback.antt =====
-- src/audio/stream.cpp: what a stream plays of what is written into it.
use globed.Common.{
  ℕ, ◌-◌, ◌≤◌, ◌≡◌, sym, ap, ◌∙◌, false, List, [], ◌∷◌, ◌++◌, arith, ltb, length, length-append,
  length-take, length-replicate, replicate, take, drop, take_all, drop_all, take-append-drop,
  take-append_length, drop-append_length, append_assoc, append-nil, min, All, All-append,
  Bool-cases, inl, inr, refl, zero, suc,
}
use globed.Audio.Stream.{AudioStream, copy_to, write_data, write_samples, pcm_read, feed_data}

-- A write of some samples, or a request for some at some time.
pub data Event : Type 0 where
  writes : List ℕ → Event
  reads : ℕ → ℕ → Event

-- The samples that a run of events writes.
abbrev pub written : List Event → List ℕ
written [] = []
written (writes pcm ∷ es) = pcm ++ written es
written (reads now n ∷ es) = written es

-- What a run fills `data` with: of each request as many samples as were waiting, then the others.
pub record Output : Type 0 where
  pub played : List ℕ
  pub filler : List ℕ
  pub last : AudioStream

unfoldable pub play : List Event → AudioStream → Output
unfolding write_samples pcm_read
play [] s = record { played = []; filler = []; last = s }
play (writes pcm ∷ es) s = play es (write_samples pcm s)
play (reads now n ∷ es) s =
    let (out, s') = pcm_read now n s in
    let rest = play es s' in
    record rest {
      played = take (length s.queue) out ++ rest.played;
      filler = drop (length s.queue) out ++ rest.filler;
    }

copied-rest : (n : ℕ) (buf : List ℕ) → (copy_to n buf).0 ++ (copy_to n buf).1 ≡ buf
unfolding copy_to
copied-rest n buf = elim (Bool-cases (ltb (length buf) n)) [
  | inl e ↦ rw (copy_to, e) (append-nil buf)
  | inr e ↦ rw (copy_to, e) (take-append-drop n buf)
]

copied-length : (n : ℕ) (buf : List ℕ) → length (copy_to n buf).0 ≡ min n (length buf)
unfolding copy_to
copied-length n buf = elim (Bool-cases (ltb (length buf) n)) [
  | inl e ↦ rw (copy_to, e) (ground arith)
  | inr e ↦ rw (copy_to, e) (length-take n buf)
]

silence : (n : ℕ) → All (λ (x : ℕ). x ≡ 0) (replicate n 0)
silence zero = tt
silence (suc n) = (refl, silence n)

enough : (bs : List ℕ) (n : ℕ) → ltb (length bs) n ≡ false → n - length (take n bs) ≡ 0
enough bs n e = let h : n ≤ length bs = ground (arith, e) in omega (arith, length-take n bs, h)

-- The first samples of what the callback writes are those that it takes out of the queue.
read-taken :
    (now n : ℕ) (s : AudioStream)
    → take (length s.queue) (pcm_read now n s).0 ≡ (copy_to n s.queue).0
unfolding pcm_read copy_to
read-taken now n s = elim (Bool-cases (ltb (length s.queue) n)) [
  | inl e ↦ rw e (take-append_length s.queue (replicate (n - length s.queue) 0))
  | inr e ↦
      let k = enough s.queue n e in
      rw (e, k, append-nil (take n s.queue))
        (take_all (length s.queue) (take n s.queue) (omega (arith, length-take n s.queue)))
]

read-silent :
    (now n : ℕ) (s : AudioStream)
    → All (λ (x : ℕ). x ≡ 0) (drop (length s.queue) (pcm_read now n s).0)
unfolding pcm_read copy_to
read-silent now n s = elim (Bool-cases (ltb (length s.queue) n)) [
  | inl e ↦
      rw (e, drop-append_length s.queue (replicate (n - length s.queue) 0))
        (silence (n - length s.queue))
  | inr e ↦
      let k = enough s.queue n e in
      rw
        (
          e,
          k,
          append-nil (take n s.queue),
          drop_all (length s.queue) (take n s.queue) (omega (arith, length-take n s.queue)),
        )
        tt
]

-- Whatever is written and read in between, the samples that the callback fills in for those that
-- wait, and then those that still wait at the end, are the ones that waited at first and then the
-- ones that were written: none is lost, doubled or out of order. Whatever else it fills in is zeros.
pub played-written :
    (es : List Event) (s : AudioStream)
    → ((play es s).played ++ (play es s).last.queue ≡ s.queue ++ written es)
      × All (λ (x : ℕ). x ≡ 0) (play es s).filler
unfolding play write_samples write_data pcm_read
played-written [] s = (sym (append-nil s.queue), tt)
played-written (writes pcm ∷ es) s =
    let r = played-written es (write_samples pcm s) in
    (r.0 ∙ append_assoc s.queue pcm (written es), r.1)
played-written (reads now n ∷ es) s =
    let s' = (pcm_read now n s).1 in
    let r = played-written es s' in
    let rest = play es s' in
    (
      append_assoc (take (length s.queue) (pcm_read now n s).0) rest.played rest.last.queue
          ∙ ap (λ bs. bs ++ (rest.played ++ rest.last.queue)) (read-taken now n s)
          ∙ ap (◌++◌ (copy_to n s.queue).0) r.0
          ∙ sym (append_assoc (copy_to n s.queue).0 (copy_to n s.queue).1 (written es))
          ∙ ap (λ bs. bs ++ written es) (copied-rest n s.queue),
      All-append (λ (x : ℕ). x ≡ 0) _ _ (read-silent now n s) r.1,
    )

-- The callback fills exactly the samples that it is asked for, the stream starves exactly if fewer
-- were waiting, and the estimator keeps at most a second of samples.
pcm_read-length :
    (now n : ℕ) (s : AudioStream)
    → length s.estimator.sample_queue ≤ s.estimator.sample_rate
    → (length (pcm_read now n s).0 ≡ n)
      × ((pcm_read now n s).1.starving ≡ ltb (length s.queue) n)
      × (length (pcm_read now n s).1.estimator.sample_queue ≤ s.estimator.sample_rate)
unfolding pcm_read feed_data
pcm_read-length now n s h =
    let copied = (copy_to n s.queue).0 in
    let l = copied-length n s.queue in
    (
      omega (
        arith,
        l,
        length-append copied (replicate (n - length copied) 0),
        length-replicate {A = ℕ} (n - length copied) 0,
      ),
      ground (arith, l),
      ground arith,
    )
