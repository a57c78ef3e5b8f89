-- ===== src/Managers/Roles.antt =====
-- src/managers/role.cpp, src/managers/room.cpp, and `RichColor::parse` of src/data/types/misc.cpp.
-- `cc3bFromHexString` is a parameter.
pub mod Priority
use globed.Common.{
  ℕ, Bool, true, false, not, ◌&&◌, ◌||◌, List, [], ◌∷◌, Option, none, some, ◌==◌, if◌then◌else◌,
}
use globed.Common.Int.{ℤ, negsuc, ltb_ℤ}
use globed.Common.Keys.{same_text}
use globed.Data.Serial.Choices.{first, second}
use globed.Data.Types.Misc.{Color3, RichColor}
use globed.Data.Types.User.{ServerRole, GameServerRole, ComputedRole}
use globed.Util.Format.Find.{contains}
use globed.Util.Format.Split.{split}
use globed.Util.Format.Trim.{trim}
use globed.Util.Format.Color.{parse_color}

-- `STRING_WHITESPACE`.
abbrev string_whitespace : List ℕ
string_whitespace = 32 ∷ 9 ∷ 10 ∷ 13 ∷ 11 ∷ 12 ∷ []

unfoldable without_hash : List ℕ → List ℕ
without_hash [] = []
without_hash (c ∷ cs) = if c == 35 then cs else c ∷ cs

unfoldable parse_pieces : List (List ℕ) → Option (List Color3)
unfolding parse_color trim
parse_pieces [] = some []
parse_pieces (p ∷ ps) =
    let rest = parse_pieces ps in
    elim (parse_color (trim p string_whitespace)) [
      | none ↦ none
      | some c ↦ elim rest [ none ↦ none | some cs ↦ some (c ∷ cs) ]
    ]

abbrev many : Option (List Color3) → Option RichColor
many none = none
many (some cs) = some (record { inner = second cs })

abbrev pub one : Option Color3 → Option RichColor
one none = none
one (some c) = some (record { inner = first c })

-- `RichColor::parse`; splitting at the byte `>` ends.
unfoldable parse_rich_color : List ℕ → Option RichColor
unfolding without_hash split parse_pieces parse_color contains
parse_rich_color k =
    if not (contains k 62)
    then one (parse_color k)
    else elim (split (without_hash k) (62 ∷ [])) [ none ↦ none | some ps ↦ many (parse_pieces ps) ]

abbrev is_blank : List ℕ → Bool
is_blank [] = true
is_blank (c ∷ cs) = false

abbrev is_none {ℓ} : {A : Type ℓ} → Option A → Bool
is_none none = true
is_none (some a) = false

-- `INT_MIN`.
abbrev pub int_min : ℤ
int_min = negsuc 2147483647

abbrev pub no_role : ComputedRole
no_role = record {
  priority = int_min;
  badge_icon = [];
  name_color = none;
  chat_color = none;
  notices = false;
  notices_to_everyone = false;
  kick = false;
  kick_everyone = false;
  mute = false;
  ban = false;
  edit_role = false;
  admin = false;
}

-- The first role with the id.
unfoldable pub find_role : ℕ → List GameServerRole → Option ServerRole
find_role id [] = none
find_role id (r ∷ rs) = let rest = find_role id rs in if r.int_id == id then some r.role else rest

module _ (from_hex : List ℕ → Option Color3) where
  -- One round of the loop, for a role that is found.
  unfoldable pub merge_role : ServerRole → ComputedRole → ComputedRole
  unfolding parse_rich_color
  merge_role r c =
      let higher = ltb_ℤ c.priority r.priority in
      record c {
        badge_icon =
            if not (is_blank r.badge_icon) && (higher || is_blank c.badge_icon)
            then r.badge_icon
            else c.badge_icon;
        name_color =
            if not (is_blank r.name_color) && (higher || is_none c.name_color)
            then parse_rich_color r.name_color
            else c.name_color;
        chat_color =
            if not (is_blank r.chat_color) && (higher || is_none c.chat_color)
            then from_hex r.chat_color
            else c.chat_color;
        priority = if higher then r.priority else c.priority;
      }

  unfoldable pub merge_found : Option ServerRole → ComputedRole → ComputedRole
  unfolding merge_role
  merge_found none c = c
  merge_found (some r) c = merge_role r c

  unfoldable pub compute_from : List GameServerRole → List ℕ → ComputedRole → ComputedRole
  unfolding merge_found find_role
  compute_from all [] c = c
  compute_from all (id ∷ ids) c = compute_from all ids (merge_found (find_role id all) c)

  -- `compute` of the numbers of the roles.
  unfoldable pub compute : List GameServerRole → List ℕ → ComputedRole
  unfolding compute_from
  compute all ids = compute_from all ids no_role

  unfoldable find_number : List ℕ → List GameServerRole → Option ℕ
  find_number key [] = none
  find_number key (r ∷ rs) =
      let rest = find_number key rs in if same_text r.role.id key then some r.int_id else rest

  unfoldable pub numbers : List GameServerRole → List (List ℕ) → List ℕ
  unfolding find_number
  numbers all [] = []
  numbers all (k ∷ ks) =
      let rest = numbers all ks in elim (find_number k all) [ none ↦ rest | some n ↦ n ∷ rest ]

  -- `compute` of the names of the roles.
  unfoldable compute_named : List GameServerRole → List (List ℕ) → ComputedRole
  unfolding numbers compute
  compute_named all keys = compute all (numbers all keys)
