-- ===== src/Audio/Recording/Ring.antt =====
-- src/audio/manager.cpp: what `audioThreadWork` takes out of the circular buffer.
use mathlib.Core.Option.{some-injective}
use native.Mathlib.Nat.{mod-eq_of_lt, mod-eq-sub-mod}
use globed.Common.{
  ℕ, zero, suc, ◌+◌, ◌-◌, ◌%◌, ◌≤◌, ◌<◌, ◌≡◌, refl, sym, ap, ◌∙◌, List, [], ◌∷◌, ◌++◌, arith,
  length, take, drop, get_elem?, length-take, length-drop, ltb, take_all, true, false, Bool-cases,
  inl, inr,
}
use globed.Audio.Recording.{new_samples}

zero_plus : (i : ℕ) → 0 + i ≡ i
zero_plus i = omega arith

suc_plus : (n i : ℕ) → suc (n + i) ≡ suc n + i
suc_plus n i = omega arith

get-drop : (xs : List ℕ) (n i : ℕ) → get_elem? (drop n xs) i ≡ get_elem? xs (n + i)
get-drop xs zero i = ap (get_elem? xs) (sym (zero_plus i))
get-drop [] (suc n) i = refl
get-drop (x ∷ xs) (suc n) i = get-drop xs n i ∙ ap (get_elem? (x ∷ xs)) (suc_plus n i)

get-take : (xs : List ℕ) (n i : ℕ) → i < n → get_elem? (take n xs) i ≡ get_elem? xs i
get-take xs zero i h = absurd (omega arith)
get-take [] (suc n) i h = refl
get-take (x ∷ xs) (suc n) zero h = refl
get-take (x ∷ xs) (suc n) (suc i) h = get-take xs n i (omega arith)

-- Two lists of one length with the same elements.
same_elements :
    (xs ys : List ℕ)
    → length xs ≡ length ys
    → ((i : ℕ) → i < length ys → get_elem? xs i ≡ get_elem? ys i)
    → xs ≡ ys
same_elements [] [] h e = refl
same_elements [] (y ∷ ys) h e = absurd (omega (arith, h))
same_elements (x ∷ xs) [] h e = absurd (omega (arith, h))
same_elements (x ∷ xs) (y ∷ ys) h e =
    let first : x ≡ y = some-injective x y (e 0 (omega arith)) in
    let rest : xs ≡ ys =
      same_elements xs ys (omega (arith, h)) λ i k. e (suc i) (omega (arith, k)) in
    ap (λ z. z ∷ xs) first ∙ ap (λ zs. y ∷ zs) rest

split_at : (n : ℕ) (xs : List ℕ) → take n xs ++ drop n xs ≡ xs
split_at zero xs = refl
split_at (suc n) [] = refl
split_at (suc n) (x ∷ xs) = ap (λ zs. x ∷ zs) (split_at n xs)

-- A piece of the memory that holds a piece of the samples.
piece :
    (pcm samples : List ℕ) (at from n : ℕ)
    → at + n ≤ length pcm
    → from + n ≤ length samples
    → ((k : ℕ) → k < n → get_elem? pcm (at + k) ≡ get_elem? samples (from + k))
    → take n (drop at pcm) ≡ take n (drop from samples)
piece pcm samples at from n h k e =
    same_elements (take n (drop at pcm)) (take n (drop from samples))
      (omega (
        arith,
        length-take n (drop at pcm),
        length-take n (drop from samples),
        length-drop at pcm,
        length-drop from samples,
      ))
      λ i l.
        let small : i < n = omega (arith, l, length-take n (drop from samples)) in
        get-take (drop at pcm) n i small
        ∙ get-drop pcm at i
        ∙ e i small
        ∙ sym (get-drop samples from i)
        ∙ sym (get-take (drop from samples) n i small)

whole : (n : ℕ) (xs : List ℕ) → n ≡ length xs → take n xs ≡ xs
whole n xs h = take_all n xs (omega (arith, h))

wrapped : (a m : ℕ) → m ≤ a → a < m + m → a % m ≡ a - m
wrapped a m h k = mod-eq-sub-mod h ∙ mod-eq_of_lt (omega arith)

onward :
    (pcm samples : List ℕ) (last n : ℕ)
    → n ≡ length samples
    → last + n ≤ length pcm
    → ((k : ℕ) → k < n → get_elem? pcm (last + k) ≡ get_elem? samples k)
    → new_samples pcm last (last + n) ≡ samples
unfolding new_samples
onward pcm [] last n h l e = ground (arith, h)
onward pcm (x ∷ xs) last n h l e =
    let pos : ltb last (last + n) ≡ true = ground (arith, h) in
    let size : last + n - last ≡ n = omega arith in
    rw (new_samples, pos, size)
      (piece pcm (x ∷ xs) last 0 n l (omega (arith, h))
          (λ k i. e k i ∙ ap (get_elem? (x ∷ xs)) (sym (zero_plus k)))
        ∙ whole n (x ∷ xs) h)

around :
    (pcm samples : List ℕ) (last a b : ℕ)
    → length samples ≡ a + b
    → last + a ≡ length pcm
    → b < last
    → ((k : ℕ) → k < a → get_elem? pcm (last + k) ≡ get_elem? samples k)
    → ((k : ℕ) → k < b → get_elem? pcm k ≡ get_elem? samples (a + k))
    → new_samples pcm last b ≡ samples
unfolding new_samples
around pcm samples last a b h l less e g =
    let behind : ltb last b ≡ false = ground arith in
    let ahead : ltb b last ≡ true = ground arith in
    let size : length pcm - last ≡ a = omega (arith, l) in
    let first : take a (drop last pcm) ≡ take a samples =
      piece pcm samples last 0 a (omega (arith, l)) (omega (arith, h))
        (λ k i. e k i ∙ ap (get_elem? samples) (sym (zero_plus k))) in
    let second : take b pcm ≡ drop a samples =
      piece pcm samples 0 a b (omega (arith, l)) (omega (arith, h))
        (λ k i. ap (get_elem? pcm) (zero_plus k) ∙ g k i)
      ∙ whole b (drop a samples) (omega (arith, h, length-drop a samples)) in
    rw (new_samples, behind, ahead, size, first, second) (split_at a samples)

fits_below : (last k n m : ℕ) → k < n → last + n < m → last + k < m
fits_below last k n m h l = omega arith

below_end : (last k m : ℕ) → k < m - last → last + k < m
below_end last k m h = omega arith

place :
    (last k n m : ℕ)
    → last < m
    → m ≤ last + n
    → k < last + n - m
    → n < m
    → k ≡ (last + (m - last + k)) % m
place last k n m h l i j =
    sym (wrapped (last + (m - last + k)) m (omega arith) (omega arith) ∙ omega arith)

-- The memory is circular: the samples since the last round stand in it from the position of that
-- round on, around its end. While fewer samples came than the memory holds, a round takes exactly
-- these, in their order.
pub new_samples_lem :
    (pcm samples : List ℕ) (last : ℕ)
    → last < length pcm
    → length samples < length pcm
    → ((k : ℕ) → k < length samples → get_elem? pcm ((last + k) % length pcm) ≡ get_elem? samples k)
    → new_samples pcm last ((last + length samples) % length pcm) ≡ samples
unfolding new_samples
new_samples_lem pcm samples last hl hs e =
    elim (Bool-cases (ltb (last + length samples) (length pcm))) [
      | inl t ↦
          let fits : last + length samples < length pcm = ground arith in
          rw (mod-eq_of_lt fits) (
            onward pcm samples last (length samples) refl (omega arith) λ k i.
              ap (get_elem? pcm)
                (sym (mod-eq_of_lt (fits_below last k (length samples) (length pcm) i fits)))
              ∙ e k i)
      | inr t ↦
          let over : length pcm ≤ last + length samples = ground arith in
          rw (wrapped (last + length samples) (length pcm) over (omega arith)) (
            around pcm samples last (length pcm - last) (last + length samples - length pcm)
              (omega arith) (omega arith) (omega arith)
              (λ k i.
                ap (get_elem? pcm) (sym (mod-eq_of_lt (below_end last k (length pcm) i)))
                ∙ e k (omega arith))
              λ k i.
                ap (get_elem? pcm) (place last k (length samples) (length pcm) hl over i hs)
                ∙ e (length pcm - last + k) (omega arith))
    ]
