-- ===== src/Examples/Toys.antt =====
-- Stand-ins for libsodium and for the operating system, and some packets.
use globed.Common.{
  ℕ, ◌≤◌, ◌≡◌, refl, true, List, [], ◌∷◌, ◌++◌, Option, none, some, arith, ◌==◌, if◌then◌else◌,
  length, length-append, replicate, drop, take,
}
use globed.Common.Int.{pos, negsuc}
use globed.Crypto.Box.{Sodium}
use globed.Net.TcpSocket.{Stream, RecvAnswer, data_read, end_of_stream, Sink, SendAnswer, taken}
use globed.Net.GameSocket.{Packet}
use globed.Data.Types.Gd.{PlayerIconData}
use globed.Packets.Client.{LoginPacket, login_packet_class}

-- The tag is the key, sixteen times over, in front of the text.
abbrev toy_open : ℕ → List ℕ → Option (List ℕ)
toy_open k [] = none
toy_open k (t ∷ ts) = if t == k then some (drop 15 ts) else none

abbrev pub toy_box : Sodium
toy_box = record {
  Key = ℕ;
  seal = λ k n m. replicate 16 k ++ m;
  open_sealed = λ k n m. toy_open k m;
  length-seal = λ k n m. omega (arith, length-append (replicate 16 k) m);
  open-seal = λ k n m. ground arith;
}

-- A connection that hands out one byte at a time.
abbrev pub next_byte : ℕ → List ℕ → RecvAnswer × List ℕ
next_byte n [] = (end_of_stream, [])
next_byte n (b ∷ bs) = (data_read (b ∷ []), bs)

pub next_byte_delivers :
    (n : ℕ) (w : List ℕ)
    → 1 ≤ n
    → 1 ≤ length w
    → (bs : List ℕ) × (w' : List ℕ) × (next_byte n w ≡ (data_read bs, w'))
      × (w ≡ bs ++ w')
      × (1 ≤ length bs)
      × (length bs ≤ n)
next_byte_delivers n [] h h' = absurd (omega arith)
next_byte_delivers n (b ∷ bs) h h' = (b ∷ [], bs, refl, refl, omega arith, omega arith)

abbrev pub slow_connection : Stream (List ℕ)
slow_connection = record { recv = next_byte; incoming = λ w. w; delivers = next_byte_delivers }

-- A connection that takes one byte at a time, and keeps them in order.
abbrev pub take_byte : List ℕ → List ℕ → SendAnswer × List ℕ
take_byte [] w = (taken 0, w)
take_byte (b ∷ bs) w = (taken 1, w ++ (b ∷ []))

pub take_byte_takes :
    (bs w : List ℕ)
    → 1 ≤ length bs
    → (n : ℕ) × (w' : List ℕ) × (take_byte bs w ≡ (taken n, w'))
      × (w' ≡ w ++ take n bs)
      × (1 ≤ n)
      × (n ≤ length bs)
take_byte_takes [] w h = absurd (omega arith)
take_byte_takes (b ∷ bs) w h = (1, w ++ (b ∷ []), refl, refl, omega arith, omega arith)

abbrev pub slow_sink : Sink (List ℕ)
slow_sink = record { send = take_byte; outgoing = λ w. w; takes = take_byte_takes }

abbrev some_icons : PlayerIconData
some_icons = record {
  cube = pos 4;
  ship = pos 169;
  ball = pos 3;
  ufo = pos 2;
  wave = pos 1;
  robot = negsuc 0;
  spider = pos 9;
  swing = pos 43;
  jetpack = pos 5;
  death_effect = 1;
  color1 = 12;
  color2 = 3;
  glow_color = 255;
  streak = 2;
  ship_streak = 0;
}

abbrev pub some_login : LoginPacket
some_login = record {
  account_id = pos 71;
  user_id = negsuc 4;
  name = 97 ∷ 98 ∷ [];
  token = 99 ∷ [];
  icons = some_icons;
  fragmentation_limit = 1400;
  platform = [];
  is_invisible = true;
}

abbrev pub login : Packet
login = record { class = login_packet_class; members = some_login }

abbrev pub some_nonce : List ℕ
some_nonce = replicate 24 6
