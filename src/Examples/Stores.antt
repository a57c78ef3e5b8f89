-- ===== src/Examples/Stores.antt =====
-- Runs of the central servers' list, the capped queue and the store of players.
use globed.Common.{ℕ, ◌≡◌, refl, false, List, [], ◌∷◌, none, arith, drop}
use globed.Common.Int.{pos}
use globed.Data.Serial.Text.{string}
use globed.Data.Serial.Members.{struct}
use globed.Data.Serial.Containers.{wire_items}
use globed.Data.Words.{bytes_be}
use globed.Managers.CentralServers.{
  CentralServer, CentralServers, central_server, get_active, remove_server, reload, save,
}
use globed.Managers.CentralServers.Removal.{get_active-remove_server}
use globed.Managers.CentralServers.Storage.{reload-save}
use globed.Util.CappedQueue.{extract, push_all, extract-push_all}
use globed.Game.PlayerStore.{get, got, threw, insert_or_update, remove_player, get_lem}

abbrev server : ℕ → CentralServer
server n = record { name = n ∷ []; url = n ∷ n ∷ [] }

abbrev three : CentralServers
three = record {
  servers = server 1 ∷ server 2 ∷ server 3 ∷ [];
  active_idx = pos 2;
  recently_switched = false;
  session_resets = 0;
  saved_servers = [];
  saved_active = pos 0;
}

get_active-remove_server_example :
    get_active (server 9) (remove_server (pos 1) three) ≡ get_active (server 9) three
get_active-remove_server_example =
    get_active-remove_server (server 9) three 1 2 refl (omega arith) (omega arith) (omega arith)

reload-save_example : (reload (server 1) (save three)).servers ≡ three.servers
unfolding central_server struct string wire_items bytes_be
reload-save_example =
    reload-save (server 1) (server 2 ∷ server 3 ∷ []) three refl (omega arith) (omega arith)
      (omega arith)

abbrev numbers : List ℕ
numbers = 5 ∷ 6 ∷ 7 ∷ []

extract-push_all_example : extract (push_all 2 numbers []) ≡ drop 1 numbers
extract-push_all_example = extract-push_all 2 numbers (omega arith)

get_lem_example :
    (get (pos 4) (insert_or_update (pos 4) (pos 10) 99 (λ k. none)) ≡ got none)
    × (get (pos 4) (remove_player (pos 4) (λ k. none)) ≡ threw)
get_lem_example = get_lem (pos 4) (pos 10) 99 (λ k. none)
