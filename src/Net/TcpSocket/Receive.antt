-- ===== src/Net/TcpSocket/Receive.antt =====
-- src/net/tcp_socket.cpp, `recvExact`: the bytes it gathers.
use globed.Common.{
  ℕ, zero, suc, ◌+◌, ◌-◌, ◌≤◌, ◌≡◌, refl, sym, ap, ◌∙◌, true, List, [], ◌∷◌, ◌++◌, arith, ltb,
  if◌then◌else◌, length, take, drop, drop_all, ◌<◌, length-append, length-drop, take-append-drop,
  drop-append_length, append_assoc, append-nil, take-append_le, take-append_length, Bool-cases, inl,
  inr,
}
use globed.Net.TcpSocket.{
  Stream, returned, data_read, connected_after, receive, received, recv_loop, recv_exact,
}

drop-append_le : (n : ℕ) (xs ys : List ℕ) → n ≤ length xs → drop n (xs ++ ys) ≡ drop n xs ++ ys
drop-append_le zero xs ys h = refl
drop-append_le (suc n) [] ys h = absurd (omega arith)
drop-append_le (suc n) (x ∷ xs) ys h = drop-append_le n xs ys (omega arith)

-- Two ways to cut the same stream.
cut_again :
    (bs later xs ys : List ℕ)
    → bs ++ later ≡ xs ++ ys
    → length bs ≤ length xs
    → (bs ++ drop (length bs) xs ≡ xs) × (later ≡ drop (length bs) xs ++ ys)
cut_again bs later xs ys e h =
    let n = length bs in
    let t : bs ≡ take n xs =
      sym (take-append_length bs later) ∙ ap (take n) e ∙ take-append_le n xs ys h in
    (
      ap (λ y. y ++ drop n xs) t ∙ take-append-drop n xs,
      sym (drop-append_length bs later) ∙ ap (drop n) e ∙ drop-append_le n xs ys h,
    )

module _ {World : Type 0} (tcp : Stream World) where
  open tcp use {recv, incoming, delivers}

  -- One round in which the system answers with bytes.
  recv_round :
      (fuel n : ℕ) (filled bs : List ℕ) (w w' : World)
      → recv (n - length filled) w ≡ (data_read bs, w')
      → recv_loop recv (suc fuel) n filled true w ≡ (
          if ltb (length (filled ++ bs)) n
          then recv_loop recv fuel n (filled ++ bs) true w'
          else returned (filled ++ bs) true w')
  unfolding recv_loop receive received connected_after
  recv_round fuel n filled bs w w' e =
      ap (λ r. received recv (recv_loop recv fuel n) n filled r.0 (connected_after r.0) r.1) e

  recv_loop_lem :
      (fuel n : ℕ) (filled xs ys : List ℕ) (w : World)
      → incoming w ≡ xs ++ ys
      → 1 ≤ length xs
      → length xs ≤ fuel
      → n ≡ length filled + length xs
      → (w' : World) × (recv_loop recv fuel n filled true w ≡ returned (filled ++ xs) true w')
        × (incoming w' ≡ ys)
  recv_loop_lem zero n filled xs ys w e pos f en = absurd (omega arith)
  recv_loop_lem (suc fuel) n filled xs ys w e pos f en =
      let xs_long : 1 ≤ length (incoming w) = omega (arith, ap length e, length-append xs ys) in
      let (bs, w', run, split, some_read, fits) =
        delivers (n - length filled) w (omega arith) xs_long in
      let round = recv_round fuel n filled bs w w' run in
      let cut = cut_again bs (incoming w') xs ys (sym split ∙ e) (omega arith) in
      let rest = drop (length bs) xs in
      let lr = length-drop (length bs) xs in
      let lf = length-append filled bs in
      let joined : (filled ++ bs) ++ rest ≡ filled ++ xs =
        append_assoc filled bs rest ∙ ap (λ y. filled ++ y) cut.0 in
      elim (Bool-cases (ltb (length (filled ++ bs)) n)) [
        | inl more ↦
            let longer : length (filled ++ bs) < n = ground (arith, more) in
            let (w'', again, left) =
              recv_loop_lem fuel n (filled ++ bs) rest ys w' cut.1 (omega arith) (omega arith)
                (omega arith) in
            (w'', round ∙ rw more again ∙ ap (λ y. returned y true w'') joined, left)
        | inr whole ↦
            let full : n ≤ length (filled ++ bs) = ground (arith, whole) in
            let none_left = drop_all (length bs) xs (omega arith) in
            (
              w',
              round
                  ∙ rw whole refl
                  ∙ ap (λ y. returned y true w')
                      (sym (append-nil (filled ++ bs))
                        ∙ ap (λ y. (filled ++ bs) ++ y) (sym none_left)
                        ∙ joined),
              cut.1 ∙ ap (λ y. y ++ ys) none_left,
            )
      ]

  -- While the peer's bytes come, `recvExact` for n of them, at least one, returns exactly the next
  -- n, however the system splits them up, and leaves those behind them.
  pub recv_exact_lem :
      (xs ys : List ℕ) (w : World)
      → incoming w ≡ xs ++ ys
      → 1 ≤ length xs
      → (w' : World) × (recv_exact recv (length xs) true w ≡ returned xs true w')
        × (incoming w' ≡ ys)
  unfolding recv_exact
  recv_exact_lem xs ys w e pos =
      recv_loop_lem (suc (length xs)) (length xs) [] xs ys w e pos (omega arith) (omega arith)
