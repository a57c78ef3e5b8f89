-- ===== src/Data/Serial/Members.antt =====
-- src/data/bytebuffer.hpp, `reflectionDecode` and `reflectionEncode`: a struct is its described
-- members, one after the other. `Members R` lists how each member is read and written, for the row
-- R of their types.
use globed.Common.{ℕ, ◌+◌, ◌^◌, ◌<◌, ◌≡◌, List, [], ◌++◌, arith, length, length-append, append-nil}
use globed.Data.Buffer.{ByteBuffer, Reader, done, ◌>>=◌, pure, and_then}
use globed.Data.Buffer.Cursor.{full, at}
use globed.Data.Buffer.Safety.{IsSafe, Forward-refl, >>=-IsSafe}
use globed.Data.Serial.{Serial, read-at_then, write-full_then, converted}

infixr 66 ◌&◌
pub data Members : Type 0 → Type 1 where
  none_left : Members (Unit {0})
  ◌&◌ : {A R : Type 0} → Serial A → Members R → Members (A × R)

-- A row of values.
infixr 66 ◌⊗◌
abbrev pub ◌⊗◌ : {A R : Type 0} → A → R → A × R
a ⊗ r = (a, r)

-- `mp_for_each` over the members; after the first error the rest are skipped.
unfoldable pub reflection_decode : {R : Type 0} → Members R → Reader R
reflection_decode none_left = pure tt
reflection_decode (s & ms) = do a ← s.read; r ← reflection_decode ms; pure (a, r)

unfoldable pub reflection_encode : {R : Type 0} → Members R → R → ByteBuffer → ByteBuffer
reflection_encode none_left r b = b
reflection_encode (s & ms) r b = reflection_encode ms r.1 (s.write r.0 b)

unfoldable pub wire_members : {R : Type 0} → Members R → R → List ℕ
wire_members none_left r = []
wire_members (s & ms) r = s.wire r.0 ++ wire_members ms r.1

unfoldable pub IsFitMembers : {R : Type 0} → Members R → R → Type 0
IsFitMembers none_left r = Unit
IsFitMembers (s & ms) r = s.IsFit r.0 × IsFitMembers ms r.1

pub members-write :
    {R : Type 0} (ms : Members R) (r : R) (bs : List ℕ)
    → length bs + length (wire_members ms r) < 2 ^ 63
    → reflection_encode ms r (full bs) ≡ full (bs ++ wire_members ms r)
unfolding reflection_encode wire_members
members-write none_left r bs h = rw (append-nil bs)
members-write (s & ms) r bs h =
    write-full_then s r.0 (reflection_encode ms r.1) bs (wire_members ms r.1)
      (omega (arith, length-append (s.wire r.0) (wire_members ms r.1)))
      (members-write ms r.1 (bs ++ s.wire r.0) (
        omega
          (arith, length-append (s.wire r.0) (wire_members ms r.1), length-append bs (s.wire r.0))))

pub members-read :
    {R : Type 0} (ms : Members R) (r : R) (front rest : List ℕ)
    → IsFitMembers ms r
    → length front + length (wire_members ms r) < 2 ^ 63
    → reflection_decode ms (at front (wire_members ms r ++ rest))
      ≡ done r (at (front ++ wire_members ms r) rest)
unfolding reflection_decode wire_members IsFitMembers
members-read none_left r front rest f h = rw (append-nil front)
members-read (s & ms) r front rest f h =
    read-at_then s r.0 _ r front (wire_members ms r.1) rest f.0
      (omega (arith, length-append (s.wire r.0) (wire_members ms r.1)))
      (rw (
        members-read ms r.1 (front ++ s.wire r.0) rest f.1 (
            omega (
              arith,
              length-append (s.wire r.0) (wire_members ms r.1),
              length-append front (s.wire r.0),
            )),
        and_then,
      ))

pub members-IsSafe : {R : Type 0} (ms : Members R) → IsSafe (reflection_decode ms)
unfolding reflection_decode
members-IsSafe none_left = λ b v. Forward-refl v
members-IsSafe (s & ms) =
    >>=-IsSafe s.read _ s.read-safe
      (λ a. >>=-IsSafe (reflection_decode ms) _ (members-IsSafe ms) (λ r b v. Forward-refl v))

unfoldable row : {R : Type 0} → Members R → Serial R
unfolding reflection_decode reflection_encode wire_members IsFitMembers
row ms = record {
  read = reflection_decode ms;
  write = reflection_encode ms;
  wire = wire_members ms;
  IsFit = IsFitMembers ms;
  write-full = members-write ms;
  read-at = members-read ms;
  read-safe = members-IsSafe ms;
}

-- A described struct T: its row of members, and back.
unfoldable pub struct :
    {R T : Type 0} (ms : Members R) (to : T → R) (from : R → T)
    → ((t : T) → from (to t) ≡ t)
    → Serial T
unfolding row converted
struct ms to from back =
    converted (row ms) to from (λ t. IsFitMembers ms (to t)) (λ t f. f) (λ t f. back t)
