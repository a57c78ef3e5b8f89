-- ===== src/Net/TcpSocket/Send.antt =====
-- src/net/tcp_socket.cpp, `sendAll`: the bytes that go out.
use globed.Common.{
  ℕ, zero, suc, ◌≤◌, ◌<◌, ◌≡◌, ap, ◌∙◌, Bool, List, ◌++◌, arith, ltb, if◌then◌else◌, length, take,
  drop, length-drop, take-append-drop, append_assoc, take_all, Bool-cases, inl, inr,
}
use globed.Net.TcpSocket.{Sink, returned, taken, sent, send_all}

module _ {World : Type 0} (tcp : Sink World) where
  open tcp use {send, outgoing, takes}

  -- One round in which the system takes some bytes.
  send_round :
      (fuel n : ℕ) (bs : List ℕ) (c : Bool) (w w' : World)
      → send bs w ≡ (taken n, w')
      → send_all send (suc fuel) bs c w
        ≡ (if ltb n (length bs) then send_all send fuel (drop n bs) c w' else returned tt c w')
  unfolding send_all sent
  send_round fuel n bs c w w' e = ap (λ r. sent send (send_all send fuel) bs r.0 c r.1) e

  -- While the system takes bytes, `sendAll` of at least one byte returns with all of them sent,
  -- once and in order, however few are taken at a time; as many rounds as there are bytes are
  -- enough.
  pub send_all_lem :
      (fuel : ℕ) (bs : List ℕ) (c : Bool) (w : World)
      → 1 ≤ length bs
      → length bs ≤ fuel
      → (w' : World) × (send_all send fuel bs c w ≡ returned tt c w')
        × (outgoing w' ≡ outgoing w ++ bs)
  send_all_lem zero bs c w pos f = absurd (omega arith)
  send_all_lem (suc fuel) bs c w pos f =
      let (n, w', run, out, some_taken, fits) = takes bs w pos in
      let round = send_round fuel n bs c w w' run in
      let rest = drop n bs in
      let lr = length-drop n bs in
      elim (Bool-cases (ltb n (length bs))) [
        | inl more ↦
            let fewer : n < length bs = ground (arith, more) in
            let (w'', again, out') = send_all_lem fuel rest c w' (omega arith) (omega arith) in
            (
              w'',
              round
                  ∙ ap (λ t. if t then send_all send fuel rest c w' else returned tt c w') more
                  ∙ again,
              out'
                  ∙ ap (λ o. o ++ rest) out
                  ∙ append_assoc (outgoing w) (take n bs) rest
                  ∙ ap (λ xs. outgoing w ++ xs) (take-append-drop n bs),
            )
        | inr whole ↦
            let all : length bs ≤ n = ground (arith, whole) in
            (
              w',
              round ∙ ap (λ t. if t then send_all send fuel rest c w' else returned tt c w') whole,
              out ∙ ap (λ xs. outgoing w ++ xs) (take_all n bs all),
            )
      ]
