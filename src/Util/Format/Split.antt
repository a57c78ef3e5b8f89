-- ===== src/Util/Format/Split.antt =====
-- src/util/format.cpp: `split`.
use globed.Common.{
  ℕ, zero, suc, ◌+◌, ◌-◌, ◌≤◌, ◌<◌, ◌≡◌, refl, sym, ap, ◌∙◌, Option, none, some, List, [], ◌∷◌,
  ◌++◌, arith, length, length-append, length-drop, take, drop, All, take-append_length,
  drop-append_length, Option-cases, inl, inr,
}
use globed.Util.Format.Find.{find, find_in, find_in-some, find_in-none}

abbrev consed : List ℕ → Option (List (List ℕ)) → Option (List (List ℕ))
consed p none = none
consed p (some ps) = some (p ∷ ps)

-- The loop on fuel; `none` is a loop that has not ended.
unfoldable split_from : ℕ → List ℕ → List ℕ → ℕ → Option (List (List ℕ))
unfolding find
split_from zero s sep start = none
split_from (suc fuel) s sep start = elim (find s sep start) [
  | none ↦ some (drop start s ∷ [])
  | some e ↦ consed (take (e - start) (drop start s)) (split_from fuel s sep (e + length sep))
]

unfoldable pub split : List ℕ → List ℕ → Option (List (List ℕ))
unfolding split_from
split s sep = split_from (suc (length s)) s sep 0

-- The pieces, with the separator between each and the next.
abbrev pub joined : List ℕ → List ℕ → List (List ℕ) → List ℕ
joined sep p [] = p
joined sep p (q ∷ qs) = p ++ (sep ++ joined sep q qs)

pub record IsSplit (sep s : List ℕ) (o : Option (List (List ℕ))) : Type 0 where
  pub head : List ℕ
  pub tail : List (List ℕ)
  ended : o ≡ some (head ∷ tail)
  pub whole : joined sep head tail ≡ s
  clean : All (λ (p : List ℕ). find_in sep p 0 ≡ none) (head ∷ tail)

abbrev the_empty : List ℕ
the_empty = []

drop_nil : (n : ℕ) → drop n the_empty ≡ the_empty
drop_nil zero = refl
drop_nil (suc n) = refl

drop-drop : (a b : ℕ) (s : List ℕ) → drop (a + b) s ≡ drop b (drop a s)
drop-drop zero b s = let e : 0 + b ≡ b = omega arith in ap (λ (n : ℕ). drop n s) e
drop-drop (suc a) b [] = drop_nil (suc a + b) ∙ sym (drop_nil b)
drop-drop (suc a) b (c ∷ cs) =
    let e : suc a + b ≡ suc (a + b) = omega arith in
    ap (λ (n : ℕ). drop n (c ∷ cs)) e ∙ drop-drop a b cs

module _ (x : ℕ) (xs : List ℕ) where
  find-start :
      (s : List ℕ) (start : ℕ)
      → start ≤ length s
      → find s (x ∷ xs) start ≡ find_in (x ∷ xs) (drop start s) start
  unfolding find
  find-start s start h = ground arith

  split_from-IsSplit :
      (fuel : ℕ) (s : List ℕ) (start : ℕ)
      → start ≤ length s
      → length s - start < fuel
      → IsSplit (x ∷ xs) (drop start s) (split_from fuel s (x ∷ xs) start)
  unfolding split_from
  split_from-IsSplit zero s start h k = absurd (omega arith)
  split_from-IsSplit (suc fuel) s start h k =
      elim (Option-cases (find_in (x ∷ xs) (drop start s) start)) [
        | inl e ↦
            rw (split_from, find-start s start h ∙ e)
              record {
                head = drop start s;
                tail = [];
                ended = refl;
                whole = refl;
                clean = (find_in-none x xs (drop start s) start 0 e, tt);
              }
        | inr p ↦
            let f = find_in-some x xs (drop start s) start p.0 p.1 in
            let next = p.0 + length (x ∷ xs) in
            let n = length f.before in
            let tail_of : length (x ∷ xs ++ f.behind) ≡ length (x ∷ xs) + length f.behind =
              length-append (x ∷ xs) f.behind in
            let all : length s - start ≡ n + length (x ∷ xs ++ f.behind) =
              sym (length-drop start s)
              ∙ ap length f.whole
              ∙ length-append f.before (x ∷ xs ++ f.behind) in
            let rest : drop next s ≡ f.behind =
              ap (λ (m : ℕ). drop m s) (omega (arith, f.place))
              ∙ drop-drop start (n + length (x ∷ xs)) s
              ∙ drop-drop n (length (x ∷ xs)) (drop start s)
              ∙ ap (λ t. drop (length (x ∷ xs)) (drop n t)) f.whole
              ∙ ap (drop (length (x ∷ xs))) (drop-append_length f.before (x ∷ xs ++ f.behind))
              ∙ drop-append_length (x ∷ xs) f.behind in
            let piece : take (p.0 - start) (drop start s) ≡ f.before =
              ap (λ (m : ℕ). take m (drop start s)) (omega (arith, f.place))
              ∙ ap (take n) f.whole
              ∙ take-append_length f.before (x ∷ xs ++ f.behind) in
            let r =
              split_from-IsSplit fuel s next (omega (arith, f.place, all, tail_of))
                (omega (arith, f.place, all, tail_of)) in
            rw (split_from, find-start s start h ∙ p.1)
              record {
                head = f.before;
                tail = r.head ∷ r.tail;
                ended = rw (piece, r.ended) refl;
                whole = ap (λ t. f.before ++ (x ∷ xs ++ t)) (r.whole ∙ rest) ∙ sym f.whole;
                clean = (f.first 0, r.clean);
              }
      ]

-- Splitting ends for every separator but the empty one, in at most as many rounds as the string has
-- bytes and one more. The pieces, with the separator put back between each and the next, make the
-- string again, and no piece holds the separator.
pub split-IsSplit : (x : ℕ) (xs s : List ℕ) → IsSplit (x ∷ xs) s (split s (x ∷ xs))
unfolding split
split-IsSplit x xs s = split_from-IsSplit x xs (suc (length s)) s 0 (omega arith) (omega arith)

find_in_empty : (s : List ℕ) (i : ℕ) → find_in [] s i ≡ some i
unfolding find_in
find_in_empty [] i = refl
find_in_empty (c ∷ cs) i = refl

-- With the empty separator the loop finds it where it stands, and goes on from there for ever.
split_from-empty :
    (fuel : ℕ) (s : List ℕ) (start : ℕ) → start ≤ length s → split_from fuel s [] start ≡ none
unfolding split_from
split_from-empty zero s start h = refl
split_from-empty (suc fuel) s start h =
    let e : find s [] start ≡ some start =
      ground (arith, find, find_in_empty (drop start s) start) in
    rw (split_from, e)
      (ap (consed _) (ap (split_from fuel s []) (omega arith) ∙ split_from-empty fuel s start h))
