-- ===== src/Examples/Wire.antt =====
-- Runs of the readers and writers.
use globed.Common.{
  ◌<◌, ◌≡◌, Bool, true, false, List, [], ◌∷◌, ◌++◌, none, some, arith, length, take, drop,
}
use globed.Common.Int.{pos}
use globed.Data.Words.{bytes_be}
use globed.Data.Buffer.{ByteBuffer, done, of_bytes, raw_write_bytes, read_bytes_into, set_position}
use globed.Data.Buffer.Cursor.{IsValid, full}
use globed.Data.Buffer.Safety.{Forward, after}
use globed.Data.Buffer.Writes.{kept_from, raw_write_bytes_lem, read_bytes_into-raw_write_bytes}
use globed.Data.Serial.Numbers.{i16, i32, u8, u16, boolean, f32}
use globed.Data.Serial.Text.{string}
use globed.Data.Serial.Members.{struct}
use globed.Data.Types.Gd.{player_icon_data}
use globed.Packets.Client.{login_packet}
use globed.Data.Types.Game.{
  PlayerData, SpecificIconData, player_data, swing, ball, specific_icon_data, player_flags,
  player_icon_type, icon_flags, icon_flag_list, spider_teleport_data, player_flag_list,
}
use globed.Data.Types.Misc.{point}
use globed.Data.Serial.Choices.{optional}
use globed.Data.Serial.Enums.{enum}
use globed.Data.Bits.{write_bit}
use globed.Data.Bits.Bitfield.{flags, underlying_size}
use globed.Data.Types.Room.{RoomInfo}
use globed.Packets.RoundTrip.{player_data_safe, player_data_round}
use globed.Examples.Toys.{some_login}

-- `some_login` can be sent.
pub some_login-IsFit : login_packet.IsFit some_login
unfolding login_packet struct i32 string player_icon_data u16 boolean i16 u8
some_login-IsFit = omega arith

pub some_login-short : length (login_packet.wire some_login) < 200
unfolding login_packet struct i32 string player_icon_data u16 boolean i16 u8 bytes_be
some_login-short = omega arith

abbrev icon : SpecificIconData
icon = record {
  position = record { x = 7; y = 1065353216 };
  rotation = 3;
  icon_type = swing;
  is_visible = true;
  is_looking_left = false;
  is_upside_down = false;
  is_dashing = true;
  is_mini = false;
  is_grounded = false;
  is_stationary = false;
  is_falling = true;
  did_just_jump = false;
  is_rotating = false;
  is_sideways = true;
  spider_teleport_data =
      some (record { from = record { x = 1; y = 2 }; to = record { x = 3; y = 4 } });
}

abbrev player : PlayerData
player = record {
  timestamp = 12;
  player1 = icon;
  player2 = record icon { icon_type = ball; spider_teleport_data = none };
  last_death_timestamp = 5;
  current_percentage = 99;
  is_dead = false;
  is_paused = true;
  is_practicing = false;
  is_dual_mode = true;
  is_in_editor = false;
  is_editor_building = false;
}

player_data_round_example :
    player_data.read (of_bytes (player_data.write player (of_bytes [])).bytes)
    ≡ done player (full (player_data.wire player))
unfolding player_data struct f32 specific_icon_data player_flags point player_icon_type icon_flags
    optional flags enum icon_flag_list spider_teleport_data player_flag_list bytes_be write_bit
    underlying_size boolean
player_data_round_example = player_data_round player (omega arith) (omega arith)

-- Two bytes at the fourth place of five, and one that runs over the end of two.
abbrev five : ByteBuffer
five = record { bytes = 1 ∷ 2 ∷ 3 ∷ 4 ∷ 5 ∷ []; position = 3 }

abbrev five_IsValid : IsValid five
five_IsValid = record { within = omega arith; small = omega arith }

raw_write_bytes_lem_example : raw_write_bytes (8 ∷ 9 ∷ []) five ≡ record {
  bytes = take 3 five.bytes ++ ((8 ∷ 9 ∷ []) ++ drop (kept_from five 2) five.bytes);
  position = 5;
}
raw_write_bytes_lem_example = raw_write_bytes_lem (8 ∷ 9 ∷ []) five five_IsValid (omega arith)

read_bytes_into-raw_write_bytes_example :
    read_bytes_into 3 (set_position 3 (raw_write_bytes (7 ∷ 8 ∷ 9 ∷ []) five))
    ≡ done (7 ∷ 8 ∷ 9 ∷ []) (raw_write_bytes (7 ∷ 8 ∷ 9 ∷ []) five)
read_bytes_into-raw_write_bytes_example =
    read_bytes_into-raw_write_bytes (7 ∷ 8 ∷ 9 ∷ []) five five_IsValid (omega arith)

player_data_safe_example : Forward five (after (player_data.read five))
player_data_safe_example = player_data_safe five five_IsValid

abbrev six : List Bool
six = true ∷ false ∷ true ∷ true ∷ false ∷ true ∷ []

abbrev a_room : RoomInfo
a_room = record {
  id = 777001;
  owner = record {
    account_id = pos 71;
    user_id = pos 3;
    name = 97 ∷ [];
    icons = record { cube = pos 4; color1 = 1; color2 = 2; glow_color = 3 };
    special_user_data = record { roles = some (1 ∷ []) };
  };
  name = 98 ∷ 99 ∷ [];
  password = [];
  settings = record {
    flags = record {
      is_hidden = true;
      public_invites = false;
      collision = true;
      two_player_mode = false;
    };
    player_limit = 100;
  };
}
