-- ===== src/Managers/Session.antt =====
-- src/managers/room.cpp, src/managers/admin.cpp, src/managers/friend_list.cpp: what is known of the
-- session. The game's own lists and requests are arguments.
use globed.Common.{ℕ, suc, Bool, true, false, not, ◌&&◌, List, [], ◌==◌, if◌then◌else◌}
use globed.Common.Int.{ℤ}
use globed.Common.Keys.{same_ℤ}
use globed.Data.Types.Room.{RoomInfo}
use globed.Data.Types.User.{ComputedRole}
use globed.Managers.BlockList.{contains, insert_all}

unfoldable is_in_global : RoomInfo → Bool
is_in_global r = r.id == 0

unfoldable is_in_room : RoomInfo → Bool
unfolding is_in_global
is_in_room r = not (is_in_global r)

-- `isOwner`, of the game's account.
unfoldable is_owner : ℤ → RoomInfo → Bool
unfolding is_in_room
is_owner account_id r = is_in_room r && same_ℤ r.owner.account_id account_id

-- `AdminManager`.
pub record Admin : Type 0 where
  pub authorized : Bool
  pub role : ComputedRole

unfoldable set_authorized : ComputedRole → Admin → Admin
set_authorized role a = record { authorized = true; role = role }

-- `no_role` is the role that `{}` makes.
unfoldable deauthorize : ComputedRole → Admin → Admin
deauthorize no_role a = record { authorized = false; role = no_role }

pub record FriendList : Type 0 where
  pub friends : List ℤ
  pub loaded : Bool
  pub requests : ℕ

unfoldable load_friends : FriendList → FriendList
load_friends f = record f { requests = suc f.requests }

unfoldable maybe_load : FriendList → FriendList
unfolding load_friends
maybe_load f = if f.loaded then f else load_friends f

unfoldable invalidate : FriendList → FriendList
invalidate f = record f { friends = []; loaded = false }

unfoldable is_friend : ℤ → FriendList → Bool
unfolding contains
is_friend id f = contains id f.friends

-- `insertPlayers`, of the accounts of the users in the game's list.
unfoldable insert_players : List ℤ → FriendList → FriendList
unfolding insert_all
insert_players ids f = record f { friends = insert_all ids f.friends; loaded = true }
