-- ===== src/Util/Format/Url.antt =====
-- src/util/format.cpp: `urlEncode`, with the decoding of RFC 3986 that it is meant for.
use globed.Common.{
  ℕ, ◌+◌, ◌*◌, ◌/◌, ◌%◌, ◌<◌, ◌≡◌, ◌≢◌, refl, ap, ◌∙◌, Option, none, some, Bool, true, List, [],
  ◌∷◌, arith, leb, ◌&&◌, ◌||◌, ◌==◌, All, Bool-cases, inl, inr, if◌then◌else◌,
}
use globed.Data.Words.{IsByte}
use globed.Util.Format.Color.{hex_byte, hex_value, hex_value-hex_digit}

-- `std::isalnum(c) || c == '-' || c == '_' || c == '.' || c == '~'` in the C locale.
unfoldable is_unreserved : ℕ → Bool
is_unreserved c =
    (leb 48 c && leb c 57)
    || (leb 65 c && leb c 90)
    || (leb 97 c && leb c 122)
    || (c == 45)
    || (c == 95)
    || (c == 46)
    || (c == 126)

unfoldable url_encode : List ℕ → List ℕ
unfolding is_unreserved
url_encode [] = []
url_encode (c ∷ cs) =
    let rest = url_encode cs in if is_unreserved c then c ∷ rest else 37 ∷ hex_byte c rest

abbrev pub consed : Option ℕ → Option (List ℕ) → Option (List ℕ)
consed (some c) (some cs) = some (c ∷ cs)
consed _ _ = none

abbrev byte_of : Option ℕ → Option ℕ → Option ℕ
byte_of (some d) (some e) = some (d * 16 + e)
byte_of _ _ = none

abbrev pub plain : ℕ → Option ℕ
plain c = if c == 37 then none else some c

-- A `%` and two hex digits are a byte, any other character is itself.
abbrev url_decode : List ℕ → Option (List ℕ)
unfolding hex_value
url_decode [] = some []
url_decode (c ∷ []) = consed (plain c) (some [])
url_decode (c ∷ d ∷ []) = let rest = url_decode (d ∷ []) in consed (plain c) rest
url_decode (c ∷ d ∷ e ∷ cs) =
    let coded = url_decode cs in
    let rest = url_decode (d ∷ e ∷ cs) in
    if c == 37 then consed (byte_of (hex_value d) (hex_value e)) coded else consed (some c) rest

decode-plain :
    (c : ℕ) (cs : List ℕ) → c ≢ 37 → url_decode (c ∷ cs) ≡ consed (some c) (url_decode cs)
unfolding url_decode
decode-plain c [] h = ground arith
decode-plain c (d ∷ []) h = ground arith
decode-plain c (d ∷ e ∷ cs) h = ground arith

decode-coded :
    (c : ℕ) (cs : List ℕ)
    → c < 256
    → url_decode (37 ∷ hex_byte c cs) ≡ consed (some c) (url_decode cs)
unfolding url_decode hex_byte
decode-coded c cs h =
    let e : c / 16 * 16 + c % 16 ≡ c = omega arith in
    rw
      (
        url_decode,
        hex_value-hex_digit (c / 16) (omega arith),
        hex_value-hex_digit (c % 16) (omega arith),
      )
      (ap (λ (b : ℕ). consed (some b) (url_decode cs)) e)

unreserved-plain : (c : ℕ) → is_unreserved c ≡ true → c ≢ 37
unfolding is_unreserved
unreserved-plain c h e = ground arith

-- Any text comes back from its encoding by the decoding of the standard: what stands in a query is
-- the text itself, the characters that are escaped and the `%` included.
url_decode-url_encode : (cs : List ℕ) → All IsByte cs → url_decode (url_encode cs) ≡ some cs
unfolding url_encode url_decode
url_decode-url_encode [] h = refl
url_decode-url_encode (c ∷ cs) h = elim (Bool-cases (is_unreserved c)) [
  | inl e ↦
      rw (url_encode, e)
        (decode-plain c (url_encode cs) (unreserved-plain c e)
          ∙ ap (consed (some c)) (url_decode-url_encode cs h.1))
  | inr e ↦
      rw (url_encode, e)
        (decode-coded c (url_encode cs) h.0 ∙ ap (consed (some c)) (url_decode-url_encode cs h.1))
]
