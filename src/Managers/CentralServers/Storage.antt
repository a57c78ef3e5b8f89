-- ===== src/Managers/CentralServers/Storage.antt =====
-- src/managers/central_server.cpp: the list of servers after `save` and `reload`.
use globed.Common.{
  ℕ, suc, ◌+◌, ◌%◌, ◌^◌, ◌<◌, ◌≤◌, ◌≡◌, refl, sym, ap, ◌∙◌, drop, List, [], ◌∷◌, ◌++◌, arith, All,
  length, length-append, append-nil,
}
use globed.Data.Words.{bytes_be, length-bytes_be}
use globed.Data.Buffer.{ByteBuffer, of_bytes, sub_size, write_length}
use globed.Data.Buffer.Cursor.{full, at}
use globed.Data.Serial.Containers.{
  length_prefix, wire_items, encode_items, encode_vector, decode_vector, vector-write, vector-read,
}
use globed.Managers.CentralServers.{
  CentralServer, CentralServers, central_server, save, parsed, reload_bytes, reload,
}

-- What is saved behind the main server.
saved_bytes : List CentralServer → List ℕ
saved_bytes others = length_prefix.wire (length others) ++ wire_items central_server others

save_lem :
    (main : CentralServer) (others : List CentralServer) (m : CentralServers)
    → m.servers ≡ main ∷ others
    → length others < 2 ^ 16
    → length (saved_bytes others) < 2 ^ 63
    → (save m).saved_servers ≡ saved_bytes others
unfolding save of_bytes saved_bytes encode_vector
save_lem main others m e h s =
    let n = length others in
    let count : sub_size (suc n) 1 ≡ n = omega (arith, h) in
    let stored = λ (xs : List CentralServer).
      (encode_items central_server (drop 1 xs)
        (write_length (sub_size (length xs) 1) (full []))).bytes in
    ap stored e
    ∙ ap (λ k. (encode_items central_server others (write_length k (full []))).bytes) count
    ∙ ap (λ (b : ByteBuffer). b.bytes) (vector-write central_server others [] (omega (arith, s)))

length-saved_bytes :
    (others : List CentralServer)
    → length (saved_bytes others) ≡ 2 + length (wire_items central_server others)
unfolding saved_bytes length_prefix
length-saved_bytes others =
    let n = length others % 65536 in
    omega
      (arith, length-append (bytes_be 2 n) (wire_items central_server others), length-bytes_be 2 n)

reload_bytes-some :
    (main : CentralServer) (bs : List ℕ)
    → 1 ≤ length bs
    → reload_bytes main bs ≡ parsed main (decode_vector central_server (of_bytes bs))
unfolding reload_bytes
reload_bytes-some main [] h = absurd (omega arith)
reload_bytes-some main (b ∷ bs) h = refl

reload_bytes_lem :
    (main : CentralServer) (others : List CentralServer)
    → length others < 2 ^ 16
    → All central_server.IsFit others
    → length (saved_bytes others) < 2 ^ 63
    → reload_bytes main (saved_bytes others) ≡ main ∷ others
unfolding saved_bytes of_bytes parsed
reload_bytes_lem main others h f s =
    let bs = saved_bytes others in
    reload_bytes-some main bs (omega (arith, length-saved_bytes others))
    ∙ ap (λ xs. parsed main (decode_vector central_server (at [] xs))) (sym (append-nil bs))
    ∙ ap (parsed main) (vector-read central_server others [] [] (h, f) (omega (arith, s)))

-- A list of at most 65535 servers behind the main one, with names that fit the wire, is loaded
-- again as it was saved, whatever else the manager holds.
pub reload-save :
    (main : CentralServer) (others : List CentralServer) (m : CentralServers)
    → m.servers ≡ main ∷ others
    → length others < 2 ^ 16
    → All central_server.IsFit others
    → 2 + length (wire_items central_server others) < 2 ^ 63
    → (reload main (save m)).servers ≡ m.servers
unfolding reload
reload-save main others m e h f s =
    let short : length (saved_bytes others) < 2 ^ 63 =
      omega (arith, s, length-saved_bytes others) in
    ap (reload_bytes main) (save_lem main others m e h short)
    ∙ reload_bytes_lem main others h f short
    ∙ sym e
