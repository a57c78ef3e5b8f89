-- ===== src/Util/Format/Trim.antt =====
-- src/util/format.cpp: `rtrim`, `ltrim`, `trim`.
use globed.Common.{
  ℕ, zero, suc, ◌+◌, ◌≤◌, ◌<◌, ◌≡◌, refl, sym, ◌∙◌, none, some, Bool, true, false, List, [], ◌∷◌,
  arith, length, length-take, take, drop, ltb, get_elem?, Bool-cases, inl, inr, if◌then◌else◌,
}
use globed.Util.Format.Find.{contains}

-- `filter.find(str[i]) != npos`; the loops read below the length only.
unfoldable pub filtered : List ℕ → List ℕ → ℕ → Bool
unfolding contains
filtered filter str i = elim (get_elem? str i) [ none ↦ false | some c ↦ contains filter c ]

unfoldable rtrim_end : List ℕ → List ℕ → ℕ → ℕ
unfolding filtered
rtrim_end filter str zero = 0
rtrim_end filter str (suc end) =
    let rest = rtrim_end filter str end in if filtered filter str end then rest else suc end

unfoldable rtrim : List ℕ → List ℕ → List ℕ
unfolding rtrim_end
rtrim str filter = take (rtrim_end filter str (length str)) str

-- On fuel: a round for each byte is enough.
unfoldable ltrim_start : ℕ → List ℕ → List ℕ → ℕ → ℕ
unfolding filtered
ltrim_start zero filter str start = start
ltrim_start (suc fuel) filter str start =
    let rest = ltrim_start fuel filter str (suc start) in
    if ltb start (length str) then (if filtered filter str start then rest else start) else start

unfoldable ltrim : List ℕ → List ℕ → List ℕ
unfolding ltrim_start
ltrim str filter = drop (ltrim_start (length str) filter str 0) str

unfoldable pub trim : List ℕ → List ℕ → List ℕ
unfolding rtrim ltrim
trim str filter = ltrim (rtrim str filter) filter

module _ (filter str : List ℕ) where
  -- From `end` on every byte is filtered, and the one before it is not.
  pub record IsEnd (n end : ℕ) : Type 0 where
    pub within : end ≤ n
    pub gone : (i : ℕ) → end ≤ i → i < n → filtered filter str i ≡ true
    pub kept : (i : ℕ) → suc i ≡ end → filtered filter str i ≡ false

  rtrim_end-IsEnd : (n : ℕ) → IsEnd n (rtrim_end filter str n)
  unfolding rtrim_end
  rtrim_end-IsEnd zero = record {
    within = omega arith;
    gone = λ i h k. absurd (omega arith);
    kept = λ i h. absurd (omega arith);
  }
  rtrim_end-IsEnd (suc n) = elim (Bool-cases (filtered filter str n)) [
    | inl e ↦
        let r = rtrim_end-IsEnd n in
        rw e record {
          within = omega (arith, r.within);
          gone = λ i h k. elim (Bool-cases (ltb i n)) [
            | inl t ↦ r.gone i h (ground arith)
            | inr t ↦ let same : i ≡ n = ground arith in rw same e
          ];
          kept = r.kept;
        }
    | inr e ↦ rw e record {
      within = omega arith;
      gone = λ i h k. absurd (omega arith);
      kept = λ i h. let same : i ≡ n = omega (arith, h) in rw same e;
    }
  ]

  -- Up to `start` every byte is filtered, and the one there is not.
  pub record IsStart (from start : ℕ) : Type 0 where
    pub onward : from ≤ start
    below : from ≤ length str → start ≤ length str
    pub gone : (i : ℕ) → from ≤ i → i < start → filtered filter str i ≡ true
    pub kept : start < length str → filtered filter str start ≡ false

  ltrim_start-IsStart :
      (fuel from : ℕ) → length str ≤ from + fuel → IsStart from (ltrim_start fuel filter str from)
  unfolding ltrim_start
  ltrim_start-IsStart zero from h = record {
    onward = omega arith;
    below = λ k. k;
    gone = λ i h k. absurd (omega arith);
    kept = λ k. absurd (omega arith);
  }
  ltrim_start-IsStart (suc fuel) from h = elim (Bool-cases (ltb from (length str))) [
    | inl t ↦ elim (Bool-cases (filtered filter str from)) [
      | inl e ↦
          let r = ltrim_start-IsStart fuel (suc from) (omega arith) in
          rw (t, e)
            record {
              onward = omega (arith, r.onward);
              below = λ k. r.below (ground arith);
              gone = λ i h k. elim (Bool-cases (ltb from i)) [
                | inl l ↦ r.gone i (ground arith) k
                | inr l ↦ let same : i ≡ from = ground arith in rw same e
              ];
              kept = r.kept;
            }
      | inr e ↦
          rw (t, e)
            record {
              onward = omega arith;
              below = λ k. k;
              gone = λ i h k. absurd (omega arith);
              kept = λ k. e;
            }
    ]
    | inr t ↦ rw t record {
      onward = omega arith;
      below = λ k. k;
      gone = λ i h k. absurd (omega arith);
      kept = λ k. absurd (ground arith);
    }
  ]

-- The two places of the string that a trimmed string stands between.
pub record IsTrimmed (filter str out : List ℕ) : Type 0 where
  pub start : ℕ
  pub end : ℕ
  ordered : start ≤ end
  pub within : end ≤ length str
  out_is : out ≡ drop start (take end str)
  pub ahead : (i : ℕ) → i < start → filtered filter str i ≡ true
  pub behind : (i : ℕ) → end ≤ i → i < length str → filtered filter str i ≡ true
  pub first : start < end → filtered filter str start ≡ false
  pub last : (i : ℕ) → start < end → suc i ≡ end → filtered filter str i ≡ false

get-take : (str : List ℕ) (n i : ℕ) → i < n → get_elem? (take n str) i ≡ get_elem? str i
get-take str zero i h = absurd (omega arith)
get-take [] (suc n) i h = refl
get-take (c ∷ cs) (suc n) zero h = refl
get-take (c ∷ cs) (suc n) (suc i) h = get-take cs n i (omega arith)

filtered-take :
    (filter str : List ℕ) (n i : ℕ) → i < n → filtered filter (take n str) i ≡ filtered filter str i
unfolding filtered
filtered-take filter str n i h = rw (filtered, get-take str n i h) refl

-- What `trim` returns stands between two places of the string: everything outside is among the
-- filtered bytes, and where anything is left neither its first byte nor its last is.
trim-IsTrimmed : (filter str : List ℕ) → IsTrimmed filter str (trim str filter)
unfolding trim
trim-IsTrimmed filter str =
    let n = rtrim_end filter str (length str) in
    let kept = take n str in
    let r = rtrim_end-IsEnd filter str (length str) in
    let size : length kept ≡ n = omega (arith, length-take n str, r.within) in
    let l = ltrim_start-IsStart filter kept (length kept) 0 (omega arith) in
    let same = filtered-take filter str n in
    let ordered : ltrim_start (length kept) filter kept 0 ≤ n =
      omega (arith, l.below (omega arith), size) in
    record {
      start = ltrim_start (length kept) filter kept 0;
      end = n;
      ordered = ordered;
      within = r.within;
      out_is = unfold ltrim rtrim in refl;
      ahead = λ i h. sym (same i (omega (arith, ordered, h))) ∙ l.gone i (omega arith) h;
      behind = r.gone;
      first = λ h. sym (same _ h) ∙ l.kept (omega (arith, size, h));
      last = λ i h e. r.kept i e;
    }
