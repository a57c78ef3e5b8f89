-- ===== src/Util/CappedQueue.antt =====
-- src/util/collections.hpp, `CappedQueue`: a `std::queue` is the list of its elements, the oldest in
-- front.
use globed.Common.{
  ℕ, suc, ◌+◌, ◌-◌, ◌<◌, ◌≤◌, ◌≡◌, refl, sym, ap, ◌∙◌, true, false, List, [], ◌∷◌, ◌++◌, leb,
  if◌then◌else◌, length, drop, arith, length-append, append_assoc, append-nil, Bool-cases, inl, inr,
}

module _ {ℓ} {A : Type ℓ} where
  -- `queue.pop()`.
  unfoldable pop : List A → List A
  pop [] = []
  pop (x ∷ q) = q

  -- `push`.
  unfoldable pub push : ℕ → A → List A → List A
  unfolding pop
  push max_size x q = (if leb max_size (length q) then pop q else q) ++ (x ∷ [])

  -- The loop of `extract`, with the vector as far as it is filled.
  unfoldable extract_into : List A → List A → List A
  extract_into [] out = out
  extract_into (x ∷ q) out = extract_into q (out ++ (x ∷ []))

  unfoldable pub extract : List A → List A
  unfolding extract_into
  extract q = extract_into q []

  -- Elements that are pushed one after the other.
  abbrev pub push_all : ℕ → List A → List A → List A
  push_all n [] q = q
  push_all n (x ∷ xs) q = push_all n xs (push n x q)

  extract_into_lem : (q out : List A) → extract_into q out ≡ out ++ q
  unfolding extract_into
  extract_into_lem [] out = sym (append-nil out)
  extract_into_lem (x ∷ q) out = extract_into_lem q (out ++ (x ∷ [])) ∙ append_assoc out (x ∷ []) q

  push-room : (n : ℕ) (x : A) (q : List A) → length q < n → push n x q ≡ q ++ (x ∷ [])
  unfolding push
  push-room n x q h =
      let room : leb n (length q) ≡ false = ground (arith, h) in
      ap (λ t. (if t then pop q else q) ++ (x ∷ [])) room

  push-full : (n : ℕ) (x y : A) (q : List A) → suc (length q) ≡ n → push n x (y ∷ q) ≡ q ++ (x ∷ [])
  unfolding push pop
  push-full n x y q h =
      let full : leb n (suc (length q)) ≡ true = ground (arith, h) in
      ap (λ t. (if t then q else y ∷ q) ++ (x ∷ [])) full

  -- A push onto a full queue, with the pushes that follow it.
  push_all-full :
      (n : ℕ) (x : A) (xs q : List A)
      → 1 ≤ n
      → length q ≡ n
      → ((q' : List A)
          → length q' ≤ n
          → push_all n xs q' ≡ drop (length q' + length xs - n) (q' ++ xs))
      → push_all n xs (push n x q) ≡ drop (length q + suc (length xs) - n) (q ++ (x ∷ xs))
  push_all-full n x xs [] h s ih = absurd (omega arith)
  push_all-full n x xs (y ∷ q) h s ih =
      let l = length-append q (x ∷ []) in
      let over : length (q ++ (x ∷ [])) + length xs - n ≡ length xs = omega (arith, l, s) in
      let over' : suc (length q) + suc (length xs) - n ≡ suc (length xs) = omega (arith, s) in
      ap (push_all n xs) (push-full n x y q s)
      ∙ ih (q ++ (x ∷ [])) (omega (arith, l, s))
      ∙ ap (λ k. drop k ((q ++ (x ∷ [])) ++ xs)) over
      ∙ ap (drop (length xs)) (append_assoc q (x ∷ []) xs)
      ∙ ap (λ k. drop k (y ∷ (q ++ (x ∷ xs)))) (sym over')

  push_all_lem :
      (n : ℕ) (xs q : List A)
      → 1 ≤ n
      → length q ≤ n
      → push_all n xs q ≡ drop (length q + length xs - n) (q ++ xs)
  push_all_lem n [] q h s =
      let none_over : length q + 0 - n ≡ 0 = omega arith in rw (none_over, append-nil q) refl
  push_all_lem n (x ∷ xs) q h s = elim (Bool-cases (leb n (length q))) [
    | inr more ↦
        let room : length q < n = ground (arith, more) in
        let over : length (q ++ (x ∷ [])) + length xs - n ≡ length q + suc (length xs) - n =
          omega (arith, length-append q (x ∷ [])) in
        ap (push_all n xs) (push-room n x q room)
        ∙ push_all_lem n xs (q ++ (x ∷ [])) h (omega (arith, length-append q (x ∷ [])))
        ∙ ap (λ k. drop k ((q ++ (x ∷ [])) ++ xs)) over
        ∙ ap (drop (length q + suc (length xs) - n)) (append_assoc q (x ∷ []) xs)
    | inl full ↦
        let same : length q ≡ n = ground (arith, full, s) in
        push_all-full n x xs q h same (λ q' s'. push_all_lem n xs q' h s')
  ]

  -- After any pushes onto an empty queue that may hold at least one element, `extract` hands out
  -- the newest elements in their order, as many as the queue may hold.
  pub extract-push_all :
      (n : ℕ) (xs : List A) → 1 ≤ n → extract (push_all n xs []) ≡ drop (length xs - n) xs
  unfolding extract
  extract-push_all n xs h =
      let plain : 0 + length xs - n ≡ length xs - n = omega arith in
      extract_into_lem (push_all n xs []) []
      ∙ push_all_lem n xs [] h (omega arith)
      ∙ ap (λ k. drop k xs) plain
