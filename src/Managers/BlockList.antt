-- ===== src/Managers/BlockList.antt =====
-- src/managers/block_list.cpp, src/managers/block_list.hpp.
-- A `std::set<int>` is the list of its members in order. The value that the mod saves is the
-- Base64 text of some bytes, and stands here as these bytes, none for an empty text.
pub mod Sets
pub mod Storage
use globed.Common.{
  ℕ, ◌%◌, ◌^◌, Bool, false, not, ◌&&◌, ◌||◌, List, [], ◌∷◌, Option, none, some, if◌then◌else◌,
  length,
}
use globed.Common.Int.{ℤ, ltb_ℤ}
use globed.Data.Buffer.{ByteBuffer, Outcome, done, failed, thrown, DecodeError, of_bytes}
use globed.Data.Buffer.Safety.{after}
use globed.Data.Serial.Numbers.{i32, u32}
use globed.Data.Serial.Containers.{encode_items, decode_vector}

abbrev pub eq_ℤ : ℤ → ℤ → Bool
eq_ℤ x y = not (ltb_ℤ x y) && not (ltb_ℤ y x)

-- `std::set::contains`, `insert`, `erase`.
unfoldable pub contains : ℤ → List ℤ → Bool
contains x [] = false
contains x (y ∷ ys) = eq_ℤ x y || contains x ys

unfoldable pub insert : ℤ → List ℤ → List ℤ
insert x [] = x ∷ []
insert x (y ∷ ys) =
    let rest = insert x ys in
    if ltb_ℤ x y then x ∷ y ∷ ys else if ltb_ℤ y x then y ∷ rest else y ∷ ys

unfoldable pub erase : ℤ → List ℤ → List ℤ
erase x [] = []
erase x (y ∷ ys) = let rest = erase x ys in if eq_ℤ x y then rest else y ∷ rest

-- The loops `for (int elem : …) _bl.insert(elem)`.
unfoldable pub insert_all : List ℤ → List ℤ → List ℤ
unfolding insert
insert_all [] s = s
insert_all (x ∷ xs) s = insert_all xs (insert x s)

pub record BlockList : Type 0 where
  pub blocked : List ℤ
  pub allowed : List ℤ
  pub hidden : List ℤ
  pub saved : List ℕ

-- `isExplicitlyBlocked`, `isExplicitlyAllowed`, `isHidden`.
unfoldable pub is_explicitly_blocked : ℤ → BlockList → Bool
is_explicitly_blocked id m = contains id m.blocked

unfoldable pub is_explicitly_allowed : ℤ → BlockList → Bool
is_explicitly_allowed id m = contains id m.allowed

unfoldable pub is_hidden : ℤ → BlockList → Bool
is_hidden id m = contains id m.hidden

-- `setHidden`.
unfoldable set_hidden : ℤ → Bool → BlockList → BlockList
unfolding insert erase
set_hidden id state m = record m {
  hidden = if state then insert id m.hidden else erase id m.hidden;
}

unfoldable pub write_set : List ℤ → ByteBuffer → ByteBuffer
unfolding u32 i32
write_set s b = encode_items i32 s (u32.write (length s % 2 ^ 32) b)

unfoldable pub save : BlockList → BlockList
unfolding write_set of_bytes
save m = record m { saved = (write_set m.allowed (write_set m.blocked (of_bytes []))).bytes }

-- What `load` makes of its two reads: the error it returns, if it does, beside the lists.
unfoldable pub loaded :
    BlockList → Outcome (List ℤ) → Outcome (List ℤ) → BlockList × Option DecodeError
unfolding insert_all
loaded m (done bs b) (done ws b') =
    (record m { blocked = insert_all bs []; allowed = insert_all ws [] }, none)
loaded m (failed e b) r = (m, some e)
loaded m (thrown b) r = (m, none)
loaded m (done bs b) (failed e b') = (m, some e)
loaded m (done bs b) (thrown b') = (m, none)

unfoldable pub load_bytes : BlockList → List ℕ → BlockList × Option DecodeError
unfolding loaded i32 of_bytes
load_bytes m [] = (m, none)
load_bytes m (x ∷ xs) =
    let first = decode_vector i32 (of_bytes (x ∷ xs)) in
    loaded m first (decode_vector i32 (after first))

unfoldable pub load : BlockList → BlockList × Option DecodeError
unfolding load_bytes
load m = load_bytes (record m { blocked = []; allowed = [] }) m.saved

-- `blacklist` and `whitelist`.
unfoldable pub blacklist : ℤ → BlockList → BlockList
unfolding save insert erase
blacklist id m = save (record m {
  blocked = insert id m.blocked;
  allowed = if contains id m.allowed then erase id m.allowed else m.allowed;
})

unfoldable pub whitelist : ℤ → BlockList → BlockList
unfolding save insert erase
whitelist id m = save (record m {
  blocked = if contains id m.blocked then erase id m.blocked else m.blocked;
  allowed = insert id m.allowed;
})
