-- ===== src/Managers/CentralServers.antt =====
-- src/managers/central_server.cpp, src/managers/central_server.hpp.
-- The saved Base64 text stands as the bytes that it encodes, none for an empty text. What
-- `switchRoutine` does to other managers (the token, the game servers, the connection) is counted.
pub mod Removal
pub mod Storage
use globed.Common.{
  ℕ, zero, suc, ◌+◌, ◌-◌, refl, Bool, true, false, ◌&&◌, List, [], ◌∷◌, ◌++◌, Option, none, some,
  ltb, leb, ◌==◌, if◌then◌else◌, length, get_elem?, set, drop,
}
use globed.Common.Int.{ℤ, pos, negsuc, sub_ℕ}
use globed.Data.Buffer.{Outcome, done, failed, thrown, of_bytes, sub_size, write_length}
use globed.Data.Serial.{Serial}
use globed.Data.Serial.Text.{string}
use globed.Data.Serial.Members.{none_left, ◌&◌, ◌⊗◌, struct}
use globed.Data.Serial.Containers.{decode_vector, encode_items}

pub record CentralServer : Type 0 where
  pub name : List ℕ
  pub url : List ℕ

unfoldable pub central_server : Serial CentralServer
central_server =
    struct (string & string & none_left) (λ t. t.name ⊗ t.url ⊗ tt)
      (λ r. record { name = r.0; url = r.1.0 }) (λ t. refl)

pub record CentralServers : Type 0 where
  pub servers : List CentralServer
  pub active_idx : ℤ
  pub recently_switched : Bool
  pub session_resets : ℕ
  pub saved_servers : List ℕ
  pub saved_active : ℤ

-- `STANDALONE_IDX`, and the server that stands for it.
abbrev standalone_idx : ℤ
standalone_idx = negsuc 1

-- `getActive`: `emulated` is the server of a standalone connection.
unfoldable pub at_index : CentralServer → List CentralServer → ℤ → Option CentralServer
at_index emulated servers (pos i) = get_elem? servers i
at_index emulated servers (negsuc zero) = none
at_index emulated servers (negsuc (suc zero)) = some emulated
at_index emulated servers (negsuc (suc (suc i))) = none

unfoldable pub get_active : CentralServer → CentralServers → Option CentralServer
unfolding at_index
get_active emulated m = at_index emulated m.servers m.active_idx

-- `setActive`, `setStandalone`.
unfoldable pub set_active : ℤ → CentralServers → CentralServers
set_active index m = record m { active_idx = index; saved_active = index }

unfoldable set_standalone : Bool → CentralServers → CentralServers
unfolding set_active
set_standalone status m = set_active (if status then standalone_idx else pos 0) m

-- `save`. The first server is always the main one and is not saved.
unfoldable pub save : CentralServers → CentralServers
save m = record m {
  saved_servers =
      (encode_items central_server (drop 1 m.servers)
        (write_length (sub_size (length m.servers) 1) (of_bytes []))).bytes;
  saved_active = m.active_idx;
}

unfoldable pub parsed : CentralServer → Outcome (List CentralServer) → List CentralServer
parsed main (done servers b) = main ∷ servers
parsed main (failed e b) = main ∷ []
parsed main (thrown b) = main ∷ []

unfoldable pub reload_bytes : CentralServer → List ℕ → List CentralServer
unfolding parsed of_bytes
reload_bytes main [] = main ∷ []
reload_bytes main (x ∷ xs) = parsed main (decode_vector central_server (of_bytes (x ∷ xs)))

-- `reload`, with the main server.
unfoldable pub reload : CentralServer → CentralServers → CentralServers
unfolding reload_bytes
reload main m = record m { servers = reload_bytes main m.saved_servers }

-- `switchRoutine` when it is forced.
unfoldable pub force_switch : ℤ → CentralServers → CentralServers
unfolding set_active
force_switch index m = record (set_active index m) {
  recently_switched = true;
  session_resets = m.session_resets + 1;
}

-- `addServer`, `modifyServer`.
unfoldable pub add_server : CentralServer → CentralServers → CentralServers
unfolding save
add_server data_of m = save (record m { servers = m.servers ++ (data_of ∷ []) })

unfoldable pub modify_server : ℤ → CentralServer → CentralServers → CentralServers
unfolding save
modify_server (negsuc i) data_of m = m
modify_server (pos i) data_of m =
    if ltb i (length m.servers) then save (record m { servers = set m.servers i data_of }) else m

-- `servers->erase(servers->begin() + index)`.
unfoldable pub remove_at : List CentralServer → ℕ → List CentralServer
remove_at [] i = []
remove_at (x ∷ xs) zero = xs
remove_at (x ∷ xs) (suc i) = x ∷ remove_at xs i

-- The active index once the server at an index of n is gone.
unfoldable pub active_after : ℕ → ℕ → ℤ → ℤ
active_after n i (negsuc a) = negsuc a
active_after n i (pos a) =
    if i == a
    then (if i == n - 1 then sub_ℕ a 1 else pos a)
    else if ltb a n && leb i a
    then pos (a - 1)
    else pos a

unfoldable pub is_active : ℕ → ℤ → Bool
is_active i (pos a) = i == a
is_active i (negsuc a) = false

-- `removeServer`.
unfoldable pub remove_server : ℤ → CentralServers → CentralServers
unfolding save force_switch
remove_server (negsuc i) m = m
remove_server (pos i) m =
    let after : CentralServers = record m {
      servers = remove_at m.servers i;
      active_idx = active_after (length m.servers) i m.active_idx;
    } in
    if ltb i (length m.servers)
    then save (if is_active i m.active_idx then force_switch after.active_idx after else after)
    else m
