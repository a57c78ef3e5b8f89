-- ===== src/Packets/Server.antt =====
-- src/data/packets/server/connection.hpp, src/data/packets/all.cpp.
mod Session
mod Notices
unfoldable pub use Session.*
unfoldable pub use Notices.*
mod General
unfoldable pub use General.*
mod Game
unfoldable pub use Game.*
mod Room
unfoldable pub use Room.*
mod Admin
unfoldable pub use Admin.*
use globed.Common.{List, [], ◌∷◌, ◌++◌}
use globed.Packets.Base.{PacketClass}

-- The cases of `matchPacket` for these classes.
abbrev pub connection_packets : List PacketClass
connection_packets =
    ping_response_packet_class ∷ crypto_handshake_response_packet_class
    ∷ keepalive_response_packet_class ∷ server_disconnect_packet_class ∷ logged_in_packet_class
    ∷ login_failed_packet_class ∷ protocol_mismatch_packet_class
    ∷ keepalive_tcp_response_packet_class ∷ claim_thread_failed_packet_class
    ∷ login_recovery_failec_packet_class ∷ server_notice_packet_class ∷ server_banned_packet_class
    ∷ server_muted_packet_class ∷ connection_test_response_packet_class ∷ []

abbrev pub game_packets : List PacketClass
game_packets =
    global_player_list_packet_class ∷ level_list_packet_class ∷ level_player_count_packet_class
    ∷ roles_updated_packet_class ∷ player_profiles_packet_class ∷ level_data_packet_class
    ∷ level_player_metadata_packet_class ∷ voice_broadcast_packet_class
    ∷ chat_message_broadcast_packet_class ∷ room_created_packet_class ∷ room_joined_packet_class
    ∷ room_join_failed_packet_class ∷ room_player_list_packet_class ∷ room_info_packet_class
    ∷ room_invite_packet_class ∷ room_list_packet_class ∷ room_create_failed_packet_class ∷ []

abbrev pub admin_packets : List PacketClass
admin_packets =
    admin_auth_success_packet_class ∷ admin_error_packet_class ∷ admin_user_data_packet_class
    ∷ admin_success_message_packet_class ∷ admin_auth_failed_packet_class ∷ []

-- All the cases of `matchPacket`.
abbrev pub server_packets : List PacketClass
server_packets = connection_packets ++ (game_packets ++ admin_packets)
