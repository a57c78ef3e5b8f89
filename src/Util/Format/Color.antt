-- ===== src/Util/Format/Color.antt =====
-- src/util/format.hpp, src/util/format.cpp: `parse` in base 16, `parseColor`, `colorToHex`.
use globed.Common.{
  ℕ, suc, ◌+◌, ◌-◌, ◌*◌, ◌/◌, ◌%◌, ◌^◌, ◌<◌, ◌≡◌, refl, ap, ◌∙◌, Option, none, some, Bool, true,
  false, List, [], ◌∷◌, ◌++◌, arith, drop, ltb, leb, ◌&&◌, ◌==◌, if◌then◌else◌,
}
use globed.Data.Types.Misc.{Color3}
use globed.Util.Format.Find.{find, find_in, starts_with}

-- The digit that a character stands for, of either case.
unfoldable pub hex_value : ℕ → Option ℕ
hex_value c =
    if leb 48 c && leb c 57
    then some (c - 48)
    else (if leb 65 c && leb c 70
        then some (c - 55)
        else (if leb 97 c && leb c 102 then some (c - 87) else none))

-- `std::from_chars` in base 16 into `unsigned int`: the longest run of digits, if there is one and
-- its value fits.
unfoldable hex_run : List ℕ → List ℕ
hex_run [] = []
hex_run (c ∷ cs) = let rest = hex_run cs in elim (hex_value c) [ none ↦ [] | some d ↦ d ∷ rest ]

unfoldable run_value : List ℕ → ℕ → ℕ
run_value [] v = v
run_value (d ∷ ds) v = run_value ds (v * 16 + d)

unfoldable parse_run : List ℕ → Option ℕ
unfolding run_value
parse_run [] = none
parse_run (d ∷ ds) = let v = run_value ds d in if ltb v (2 ^ 32) then some v else none

unfoldable pub parse_hex : List ℕ → Option ℕ
unfolding hex_run parse_run
parse_hex cs = parse_run (hex_run cs)

abbrev color_of : ℕ → Color3
color_of rgb = record { r = rgb / 2 ^ 16 % 256; g = rgb / 2 ^ 8 % 256; b = rgb % 256 }

-- What stands behind the first `#`, if there is one.
unfoldable pub behind_hash : List ℕ → List ℕ
behind_hash hex = elim (find hex (35 ∷ []) 0) [ none ↦ hex | some i ↦ drop (i + 1) hex ]

-- `none` is the error "failed to parse the hex color".
unfoldable pub parse_color : List ℕ → Option Color3
parse_color hex = elim (parse_hex (behind_hash hex)) [
  | none ↦ none
  | some rgb ↦ some (color_of rgb)
]

unfoldable pub hex_digit : ℕ → ℕ
hex_digit d = if ltb d 10 then 48 + d else 55 + d

-- `{:02X}` of a `uint8_t`.
unfoldable pub hex_byte : ℕ → List ℕ → List ℕ
unfolding hex_digit
hex_byte n rest = hex_digit (n / 16) ∷ hex_digit (n % 16) ∷ rest

unfoldable pub color_to_hex : Color3 → Bool → List ℕ
unfolding hex_byte
color_to_hex c with_hash =
    (if with_hash then 35 ∷ [] else []) ++ hex_byte c.r (hex_byte c.g (hex_byte c.b []))

pub record IsColor (c : Color3) : Type 0 where
  pub r_byte : c.r < 256
  pub g_byte : c.g < 256
  pub b_byte : c.b < 256

pub hex_value-hex_digit : (d : ℕ) → d < 16 → hex_value (hex_digit d) ≡ some d
unfolding hex_value hex_digit
hex_value-hex_digit d h = ground arith

hex_digit-hash : (d : ℕ) → (35 == hex_digit d) ≡ false
unfolding hex_digit
hex_digit-hash d = ground arith

run-byte :
    (n : ℕ) (rest : List ℕ) → n < 256 → hex_run (hex_byte n rest) ≡ n / 16 ∷ n % 16 ∷ hex_run rest
unfolding hex_byte hex_run
run-byte n rest h =
    rw
      (
        hex_run,
        hex_value-hex_digit (n / 16) (omega arith),
        hex_run,
        hex_value-hex_digit (n % 16) (omega arith),
      )
      refl

no_hash :
    (n : ℕ) (rest : List ℕ) (i : ℕ)
    → find_in (35 ∷ []) (hex_byte n rest) i ≡ find_in (35 ∷ []) rest (suc (suc i))
unfolding hex_byte find_in starts_with
no_hash n rest i = rw (hex_digit-hash (n / 16), hex_digit-hash (n % 16)) refl

abbrev bytes_of : Color3 → List ℕ
bytes_of c = hex_byte c.r (hex_byte c.g (hex_byte c.b []))

abbrev rgb_of : Color3 → ℕ
rgb_of c = c.r * 2 ^ 16 + (c.g * 2 ^ 8 + c.b)

parse-bytes : (c : Color3) → IsColor c → parse_hex (bytes_of c) ≡ some (rgb_of c)
unfolding parse_hex parse_run run_value hex_run
parse-bytes c h =
    let e : hex_run (bytes_of c)
        ≡ c.r / 16 ∷ c.r % 16 ∷ c.g / 16 ∷ c.g % 16 ∷ c.b / 16 ∷ c.b % 16 ∷ [] =
      run-byte c.r _ h.r_byte
      ∙ ap (λ t. c.r / 16 ∷ c.r % 16 ∷ t)
          (run-byte c.g _ h.g_byte
            ∙ ap (λ t. c.g / 16 ∷ c.g % 16 ∷ t) (run-byte c.b [] h.b_byte)) in
    ap parse_run e ∙ ground arith

color_of-rgb : (c : Color3) → IsColor c → color_of (rgb_of c) ≡ c
color_of-rgb c h = ground arith

found_none : (c : Color3) → find_in (35 ∷ []) (bytes_of c) 0 ≡ none
unfolding find_in starts_with
found_none c =
    no_hash c.r (hex_byte c.g (hex_byte c.b [])) 0
    ∙ no_hash c.g (hex_byte c.b []) 2
    ∙ no_hash c.b [] 4

no_hash_in : (c : Color3) → find (bytes_of c) (35 ∷ []) 0 ≡ none
unfolding find
no_hash_in c = ground (arith, found_none c)

all_behind : (c : Color3) → behind_hash (bytes_of c) ≡ bytes_of c
unfolding behind_hash
all_behind c = rw (behind_hash, no_hash_in c) refl

hash_behind : (cs : List ℕ) → behind_hash (35 ∷ cs) ≡ cs
unfolding behind_hash find find_in starts_with
hash_behind cs =
    let e : find (35 ∷ cs) (35 ∷ []) 0 ≡ some 0 = ground arith in rw (behind_hash, e) refl

-- A colour written in hex, with the leading `#` or without it, is parsed back.
pub parse_color-color_to_hex :
    (c : Color3) (with_hash : Bool) → IsColor c → parse_color (color_to_hex c with_hash) ≡ some c
unfolding parse_color color_to_hex
parse_color-color_to_hex c true h =
    rw (parse_color, hash_behind (bytes_of c), parse-bytes c h) (ap some (color_of-rgb c h))
parse_color-color_to_hex c false h =
    rw (parse_color, all_behind c, parse-bytes c h) (ap some (color_of-rgb c h))
