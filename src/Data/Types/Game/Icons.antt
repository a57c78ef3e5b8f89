-- ===== src/Data/Types/Game/Icons.antt =====
-- src/data/types/game.hpp, src/data/types/game.cpp: one icon of a player in a level.
use globed.Common.{ℕ, ◌^◌, ◌<◌, ◌≡◌, refl, Bool, false, List, [], ◌∷◌, Option, some, arith}
use globed.Data.Bits.Bitfield.{flags}
use globed.Data.Serial.{Serial}
use globed.Data.Serial.Numbers.{f32}
use globed.Data.Serial.Choices.{optional}
use globed.Data.Serial.Enums.{enum, find_enumerator}
use globed.Data.Serial.Members.{none_left, ◌&◌, ◌⊗◌, struct}
use globed.Data.Types.Misc.{Point, point}

pub data PlayerIconType : Type 0 where
  unknown cube ship ball ufo wave robot spider swing jetpack : PlayerIconType

unfoldable pub icon_type_value : PlayerIconType → ℕ
icon_type_value unknown = 0
icon_type_value cube = 1
icon_type_value ship = 2
icon_type_value ball = 3
icon_type_value ufo = 4
icon_type_value wave = 5
icon_type_value robot = 6
icon_type_value spider = 7
icon_type_value swing = 8
icon_type_value jetpack = 9

abbrev pub icon_types : List PlayerIconType
icon_types = unknown ∷ cube ∷ ship ∷ ball ∷ ufo ∷ wave ∷ robot ∷ spider ∷ swing ∷ jetpack ∷ []

pub icon_type-fits : (t : PlayerIconType) → icon_type_value t < 256 ^ 1
unfolding icon_type_value
icon_type-fits unknown = omega arith
icon_type-fits cube = omega arith
icon_type-fits ship = omega arith
icon_type-fits ball = omega arith
icon_type-fits ufo = omega arith
icon_type-fits wave = omega arith
icon_type-fits robot = omega arith
icon_type-fits spider = omega arith
icon_type-fits swing = omega arith
icon_type-fits jetpack = omega arith

pub icon_type-found :
    (t : PlayerIconType)
    → find_enumerator 1 icon_types icon_type_value (icon_type_value t) icon_types ≡ some t
unfolding find_enumerator icon_type_value
icon_type-found unknown = refl
icon_type-found cube = refl
icon_type-found ship = refl
icon_type-found ball = refl
icon_type-found ufo = refl
icon_type-found wave = refl
icon_type-found robot = refl
icon_type-found spider = refl
icon_type-found swing = refl
icon_type-found jetpack = refl

unfoldable pub player_icon_type : Serial PlayerIconType
player_icon_type = enum 1 icon_types icon_type_value (omega arith) icon_type-fits icon_type-found

pub record SpiderTeleportData : Type 0 where
  pub from : Point
  pub to : Point

unfoldable pub spider_teleport_data : Serial SpiderTeleportData
spider_teleport_data =
    struct (point & point & none_left) (λ t. t.from ⊗ t.to ⊗ tt)
      (λ r. record { from = r.0; to = r.1.0 }) (λ t. refl)

pub record SpecificIconData : Type 0 where
  pub position : Point
  pub rotation : ℕ
  pub icon_type : PlayerIconType
  pub is_visible : Bool
  pub is_looking_left : Bool
  pub is_upside_down : Bool
  pub is_dashing : Bool
  pub is_mini : Bool
  pub is_grounded : Bool
  pub is_stationary : Bool
  pub is_falling : Bool
  pub did_just_jump : Bool
  pub is_rotating : Bool
  pub is_sideways : Bool
  pub spider_teleport_data : Option SpiderTeleportData

unfoldable pub icon_flag_list : SpecificIconData → List Bool
icon_flag_list d =
    d.is_visible ∷ d.is_looking_left ∷ d.is_upside_down ∷ d.is_dashing ∷ d.is_mini ∷ d.is_grounded
    ∷ d.is_stationary ∷ d.is_falling ∷ d.did_just_jump ∷ d.is_rotating ∷ d.is_sideways ∷ []

-- `readBitsInto` sets eleven flags; the reader never yields another number of them.
unfoldable pub icon_of :
    Point → ℕ → PlayerIconType → List Bool → Option SpiderTeleportData → SpecificIconData
icon_of p r t (a ∷ b ∷ c ∷ d ∷ e ∷ f ∷ g ∷ h ∷ i ∷ j ∷ k ∷ []) s = record {
  position = p;
  rotation = r;
  icon_type = t;
  is_visible = a;
  is_looking_left = b;
  is_upside_down = c;
  is_dashing = d;
  is_mini = e;
  is_grounded = f;
  is_stationary = g;
  is_falling = h;
  did_just_jump = i;
  is_rotating = j;
  is_sideways = k;
  spider_teleport_data = s;
}
icon_of p r t _ s = record {
  position = p;
  rotation = r;
  icon_type = t;
  is_visible = false;
  is_looking_left = false;
  is_upside_down = false;
  is_dashing = false;
  is_mini = false;
  is_grounded = false;
  is_stationary = false;
  is_falling = false;
  did_just_jump = false;
  is_rotating = false;
  is_sideways = false;
  spider_teleport_data = s;
}

-- `copyFlagsFrom`.
unfoldable pub copy_flags_from : SpecificIconData → SpecificIconData → SpecificIconData
copy_flags_from other d = record d {
  icon_type = other.icon_type;
  is_visible = other.is_visible;
  is_looking_left = other.is_looking_left;
  is_upside_down = other.is_upside_down;
  is_dashing = other.is_dashing;
  is_mini = other.is_mini;
  is_grounded = other.is_grounded;
  is_stationary = other.is_stationary;
  is_falling = other.is_falling;
  did_just_jump = other.did_just_jump;
  is_rotating = other.is_rotating;
  is_sideways = other.is_sideways;
}

pub icon_back :
    (d : SpecificIconData)
    → icon_of d.position d.rotation d.icon_type (icon_flag_list d) d.spider_teleport_data ≡ d
unfolding icon_of icon_flag_list
icon_back d = refl

-- The eleven flags go into `BitBuffer<16>`.
unfoldable pub icon_flags : Serial (List Bool)
icon_flags = flags 5 11 (omega arith)

-- `customEncode` and `customDecode` go through the parts in this order.
unfoldable pub specific_icon_data : Serial SpecificIconData
specific_icon_data =
    struct (point & f32 & player_icon_type & icon_flags & optional spider_teleport_data & none_left)
      (λ d. d.position ⊗ d.rotation ⊗ d.icon_type ⊗ icon_flag_list d ⊗ d.spider_teleport_data ⊗ tt)
      (λ r. icon_of r.0 r.1.0 r.1.1.0 r.1.1.1.0 r.1.1.1.1.0) icon_back
