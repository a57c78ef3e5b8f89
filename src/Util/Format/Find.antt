-- ===== src/Util/Format/Find.antt =====
-- `std::string_view::find`, as src/util/format.cpp uses it.
use globed.Common.{
  ℕ, suc, ◌+◌, ◌≡◌, refl, sym, ap, ◌∙◌, Bool, true, false, Option, none, some, List, [], ◌∷◌, ◌++◌,
  arith, ◌==◌, leb, if◌then◌else◌, length, drop, Bool-cases, inl, inr,
}

-- `filter.find(c) != npos`.
unfoldable pub contains : List ℕ → ℕ → Bool
contains [] c = false
contains (x ∷ xs) c = if x == c then true else contains xs c

unfoldable pub starts_with : List ℕ → List ℕ → Bool
starts_with [] s = true
starts_with (x ∷ xs) [] = false
starts_with (x ∷ xs) (c ∷ cs) = if x == c then starts_with xs cs else false

-- The first place of `sep` in the rest of the string, which begins at the place i.
unfoldable pub find_in : List ℕ → List ℕ → ℕ → Option ℕ
unfolding starts_with
find_in sep [] i = if starts_with sep [] then some i else none
find_in sep (c ∷ cs) i =
    let rest = find_in sep cs (suc i) in if starts_with sep (c ∷ cs) then some i else rest

-- `s.find(sep, start)`.
unfoldable pub find : List ℕ → List ℕ → ℕ → Option ℕ
unfolding find_in
find s sep start = if leb start (length s) then find_in sep (drop start s) start else none

starts_with-append : (sep s : List ℕ) → starts_with sep s ≡ true → s ≡ sep ++ drop (length sep) s
unfolding starts_with
starts_with-append [] s h = refl
starts_with-append (x ∷ xs) [] h = ground arith
starts_with-append (x ∷ xs) (c ∷ cs) h = ground (arith, starts_with-append xs cs)

starts_with-extended :
    (sep s rest : List ℕ) → starts_with sep s ≡ true → starts_with sep (s ++ rest) ≡ true
unfolding starts_with
starts_with-extended [] s rest h = refl
starts_with-extended (x ∷ xs) [] rest h = ground arith
starts_with-extended (x ∷ xs) (c ∷ cs) rest h = ground (arith, starts_with-extended xs cs rest)

starts_with-short :
    (sep s rest : List ℕ) → starts_with sep (s ++ rest) ≡ false → starts_with sep s ≡ false
starts_with-short sep s rest h = ground (arith, starts_with-extended sep s rest)

-- The first place: `sep` stands behind the part `before`, which does not hold it.
pub record Found (sep s : List ℕ) (i e : ℕ) : Type 0 where
  pub before : List ℕ
  pub behind : List ℕ
  pub place : e ≡ i + length before
  pub whole : s ≡ before ++ (sep ++ behind)
  pub first : (j : ℕ) → find_in sep before j ≡ none

pub find_in-some :
    (x : ℕ) (xs s : List ℕ) (i e : ℕ) → find_in (x ∷ xs) s i ≡ some e → Found (x ∷ xs) s i e
unfolding find_in
find_in-some x xs [] i e h = absurd (ground (arith, starts_with))
find_in-some x xs (c ∷ cs) i e h = elim (Bool-cases (starts_with (x ∷ xs) (c ∷ cs))) [
  | inl t ↦ record {
    before = [];
    behind = drop (length (x ∷ xs)) (c ∷ cs);
    place = ground arith;
    whole = starts_with-append (x ∷ xs) (c ∷ cs) t;
    first = λ j. refl;
  }
  | inr t ↦
      let next : find_in (x ∷ xs) cs (suc i) ≡ some e = ground arith in
      let f = find_in-some x xs cs (suc i) e next in
      let short : starts_with (x ∷ xs) (c ∷ f.before) ≡ false =
        starts_with-short (x ∷ xs) (c ∷ f.before) (x ∷ xs ++ f.behind)
          (ap (λ r. starts_with (x ∷ xs) (c ∷ r)) (sym f.whole) ∙ t) in
      record {
        before = c ∷ f.before;
        behind = f.behind;
        place = omega (arith, f.place);
        whole = ap (◌∷◌ c) f.whole;
        first = λ j. rw short (f.first (suc j));
      }
]

pub find_in-none :
    (x : ℕ) (xs s : List ℕ) (i j : ℕ) → find_in (x ∷ xs) s i ≡ none → find_in (x ∷ xs) s j ≡ none
unfolding find_in
find_in-none x xs [] i j h = ground (arith)
find_in-none x xs (c ∷ cs) i j h = ground (arith, find_in-none x xs cs (suc i) (suc j))
