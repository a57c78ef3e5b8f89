-- ===== src/Managers/GameServers/Cache.antt =====
-- src/managers/game_server.cpp: `loadFromCache`. `base64Decode` is a parameter: the bytes, or the
-- message of the exception.
use globed.Common.{
  ℕ, ◌^◌, ◌%◌, none, ◌<◌, ◌≡◌, ◌≢◌, refl, sym, ap, ◌∙◌, Bool, true, false, List, [], ◌∷◌, ◌++◌,
  Option, some, arith, ltb, if◌then◌else◌, length, length-append, append-nil, All, Bool-cases, inl,
  inr, Result, ok, err,
}
use globed.Common.Int.{ℤ, negsuc}
use globed.Common.Keys.{same_text, same_text_iff, text_key}
use globed.Common.Maps.{lookup, lookup-assign, same_refl}
use globed.Data.Words.{IsByte}
use globed.Data.Buffer.{Outcome, done, failed, thrown, DecodeError, of_bytes}
use globed.Data.Buffer.Cursor.{at}
use globed.Data.Serial.Text.{bytearray}
use globed.Data.Serial.Containers.{vector}
use globed.Data.Types.Misc.{GameServerEntry, game_server_entry}
use globed.Managers.GameServers.{
  GameServerData, GameServers, add_or_update_server, kept_ping, kept_players,
}

-- `SERVER_MAGIC`, and its size.
abbrev pub server_magic : List ℕ
server_magic = 221 ∷ 238 ∷ 103 ∷ 108 ∷ 111 ∷ 98 ∷ 101 ∷ 100 ∷ 218 ∷ 238 ∷ []

abbrev magic_len : ℕ
magic_len = 10

pub data LoadError : Type 0 where
  not_base64 : List ℕ → LoadError
  missing_magic invalid_magic exception : LoadError
  undecodable : DecodeError → LoadError

-- `addOrUpdateServer` never fails.
unfoldable pub add_all : List GameServerEntry → GameServers → GameServers
unfolding add_or_update_server
add_all [] m = m
add_all (s ∷ ss) m = add_all ss (add_or_update_server s.id s.name s.address s.region m)

unfoldable pub load_entries :
    Outcome (List GameServerEntry) → GameServers → Result LoadError GameServers
load_entries (done ss b) m = ok (add_all ss m)
load_entries (failed e b) m = err (undecodable e)
load_entries (thrown b) m = err exception

unfoldable pub load_magic : Outcome (List ℕ) → GameServers → Result LoadError GameServers
load_magic (done magic b) m =
    if same_text magic server_magic
    then load_entries ((vector game_server_entry).read b) m
    else err invalid_magic
load_magic (failed e b) m = err (undecodable e)
load_magic (thrown b) m = err exception

unfoldable pub load_decoded : Result (List ℕ) (List ℕ) → GameServers → Result LoadError GameServers
load_decoded (err e) m = err (not_base64 e)
load_decoded (ok decoded) m =
    if ltb (length decoded) magic_len
    then err missing_magic
    else load_magic ((bytearray magic_len).read (of_bytes decoded)) m

unfoldable pub load_from_cache :
    (List ℕ → Result (List ℕ) (List ℕ)) → GameServers → Result LoadError GameServers
load_from_cache base64_decode m = load_decoded (base64_decode m.cached_server_response) m

-- The wire form of the listed servers.
abbrev pub listing : List GameServerEntry → List ℕ
listing = (vector game_server_entry).wire

-- The ping and the number of players of a server that is known, the latter as 16 bits, and those of one
-- that is not.
abbrev pub ping_before : Option GameServerData → ℤ
ping_before none = negsuc 0
ping_before (some d) = d.server.ping

abbrev pub players_before : Option GameServerData → ℕ
players_before none = 0
players_before (some d) = d.server.player_count % 2 ^ 16

-- What is held for a listed id, of which something may have been known before: the entry's texts, the
-- ping and the players as they were, and no ping that is under way.
pub record IsListed (s : GameServerEntry) (known o : Option GameServerData) : Type 0 where
  pub stored :
      o
      ≡ some (record {
        server = record {
          id = s.id;
          name = s.name;
          region = s.region;
          address = s.address;
          ping = ping_before known;
          player_count = players_before known;
        };
        pending_pings = [];
      })

kept_ping_lem : (o : Option GameServerData) → kept_ping o ≡ ping_before o
unfolding kept_ping
kept_ping_lem none = refl
kept_ping_lem (some d) = refl

kept_players_lem : (o : Option GameServerData) → kept_players o ≡ players_before o
unfolding kept_players
kept_players_lem none = refl
kept_players_lem (some d) = refl

players_bounded : (o : Option GameServerData) → players_before o % 2 ^ 16 ≡ players_before o
players_bounded none = refl
players_bounded (some d) = omega arith

pick : (b : Bool) (x y : Option GameServerData) → b ≡ true → (if b then x else y) ≡ x
pick b x y e = rw e refl

pass : (b : Bool) (x y : Option GameServerData) → b ≡ false → (if b then x else y) ≡ y
pass b x y e = rw e refl

-- An update, of this id or another, leaves the ping and the players as they were.
update-before :
    (t : GameServerEntry) (id : List ℕ) (m : GameServers)
    → (ping_before (lookup id (add_or_update_server t.id t.name t.address t.region m).servers)
        ≡ ping_before (lookup id m.servers))
      × (players_before (lookup id (add_or_update_server t.id t.name t.address t.region m).servers)
          ≡ players_before (lookup id m.servers))
unfolding add_or_update_server
update-before t id m =
    let new : GameServerData = record {
      server = record {
        id = t.id;
        name = t.name;
        region = t.region;
        address = t.address;
        ping = kept_ping (lookup t.id m.servers);
        player_count = kept_players (lookup t.id m.servers);
      };
      pending_pings = [];
    } in
    let found = lookup-assign t.id id new m.servers in
    elim (Bool-cases (same_text t.id id)) [
      | inl e ↦
          let i : t.id ≡ id = (same_text_iff t.id id).0 e in
          let here = ap (λ k. lookup k m.servers) i in
          (
            ap ping_before (found ∙ pick _ _ _ e)
                ∙ kept_ping_lem (lookup t.id m.servers)
                ∙ ap ping_before here,
            ap players_before (found ∙ pick _ _ _ e)
                ∙ ap (λ n. n % 2 ^ 16) (kept_players_lem (lookup t.id m.servers))
                ∙ players_bounded (lookup t.id m.servers)
                ∙ ap players_before here,
          )
      | inr e ↦ (ap ping_before (found ∙ pass _ _ _ e), ap players_before (found ∙ pass _ _ _ e))
    ]

lookup-add_all :
    (ss : List GameServerEntry) (id : List ℕ) (m : GameServers)
    → All (λ (t : GameServerEntry). same_text t.id id ≡ false) ss
    → lookup id (add_all ss m).servers ≡ lookup id m.servers
unfolding add_all
lookup-add_all [] id m h = refl
lookup-add_all (t ∷ ss) id m h =
    lookup-add_all ss id (add_or_update_server t.id t.name t.address t.region m) h.1
    ∙ unfold add_or_update_server in lookup-assign t.id id _ m.servers ∙ rw h.0 refl

add_all-IsListed :
    (front : List GameServerEntry) (s : GameServerEntry) (back : List GameServerEntry)
    (m : GameServers)
    → All (λ (t : GameServerEntry). same_text t.id s.id ≡ false) back
    → IsListed s (lookup s.id m.servers) (lookup s.id (add_all (front ++ s ∷ back) m).servers)
unfolding add_all
add_all-IsListed [] s back m h =
    let known = lookup s.id m.servers in
    record {
      stored =
          lookup-add_all back s.id (add_or_update_server s.id s.name s.address s.region m) h
          ∙ (unfold add_or_update_server in
              lookup-assign s.id s.id _ m.servers
              ∙ rw (same_refl s.id, kept_ping_lem known, kept_players_lem known) refl);
    }
add_all-IsListed (t ∷ front) s back m h =
    let m' = add_or_update_server t.id t.name t.address t.region m in
    let (p, n) = update-before t s.id m in
    record { stored = rw (← p, ← n) (add_all-IsListed front s back m' h).stored }

magic_bytes : All IsByte server_magic
magic_bytes = ground arith

behind_magic :
    (base64_decode : List ℕ → Result (List ℕ) (List ℕ)) (magic rest : List ℕ) (m : GameServers)
    → base64_decode m.cached_server_response ≡ ok (magic ++ rest)
    → (bytearray magic_len).IsFit magic
    → length magic ≡ magic_len
    → load_from_cache base64_decode m ≡ load_magic (done magic (at magic rest)) m
unfolding load_from_cache load_decoded of_bytes bytearray
behind_magic base64_decode magic rest m e f l =
    let enough : ltb (length (magic ++ rest)) magic_len ≡ false =
      ground (arith, length-append magic rest) in
    rw (load_from_cache, e, load_decoded, enough)
      (ap (λ o. load_magic o m)
        ((bytearray magic_len).read-at magic [] rest f (unfold bytearray in omega (arith, l))))

load_from_cache-all :
    (base64_decode : List ℕ → Result (List ℕ) (List ℕ)) (ss : List GameServerEntry)
    (m : GameServers)
    → base64_decode m.cached_server_response ≡ ok (server_magic ++ listing ss)
    → (vector game_server_entry).IsFit ss
    → length (listing ss) < 2 ^ 62
    → load_from_cache base64_decode m ≡ ok (add_all ss m)
unfolding load_magic load_entries
load_from_cache-all base64_decode ss m e f h =
    let bytes : (bytearray magic_len).IsFit server_magic =
      unfold bytearray in (refl, magic_bytes) in
    let rest : (vector game_server_entry).read (at server_magic (listing ss))
        ≡ done ss (at (server_magic ++ listing ss) []) =
      ap (λ bs. (vector game_server_entry).read (at server_magic bs))
        (sym (append-nil (listing ss)))
      ∙ (vector game_server_entry).read-at ss server_magic [] f (omega (arith, h)) in
    behind_magic base64_decode server_magic (listing ss) m e bytes refl
    ∙ ap (λ o. load_entries o m) rest

-- A cached response that decodes to the magic and a list of servers that fit the wire is loaded. An
-- entry that none of the same id follows in the list is then found under its id, with its texts and
-- the ping and the players, as 16 bits, that were known before; a server that the list does not name is left as it
-- was.
pub load_from_cache-listing :
    (base64_decode : List ℕ → Result (List ℕ) (List ℕ)) (front : List GameServerEntry)
    (s : GameServerEntry) (back : List GameServerEntry) (other : List ℕ) (m : GameServers)
    → base64_decode m.cached_server_response ≡ ok (server_magic ++ listing (front ++ s ∷ back))
    → (vector game_server_entry).IsFit (front ++ s ∷ back)
    → length (listing (front ++ s ∷ back)) < 2 ^ 62
    → All (λ (t : GameServerEntry). same_text t.id s.id ≡ false) back
    → All (λ (t : GameServerEntry). same_text t.id other ≡ false) (front ++ s ∷ back)
    → (m' : GameServers) × (load_from_cache base64_decode m ≡ ok m')
      × IsListed s (lookup s.id m.servers) (lookup s.id m'.servers)
      × (lookup other m'.servers ≡ lookup other m.servers)
load_from_cache-listing base64_decode front s back other m e f h n o = (
  add_all (front ++ s ∷ back) m,
  load_from_cache-all base64_decode (front ++ s ∷ back) m e f h,
  add_all-IsListed front s back m n,
  lookup-add_all (front ++ s ∷ back) other m o,
)

-- A cached response that decodes to other first ten bytes is refused, and no server is changed.
load_from_cache-other_magic :
    (base64_decode : List ℕ → Result (List ℕ) (List ℕ)) (magic rest : List ℕ) (m : GameServers)
    → base64_decode m.cached_server_response ≡ ok (magic ++ rest)
    → length magic ≡ magic_len
    → All IsByte magic
    → magic ≢ server_magic
    → load_from_cache base64_decode m ≡ err invalid_magic
unfolding load_magic
load_from_cache-other_magic base64_decode magic rest m e l f n =
    let fit : (bytearray magic_len).IsFit magic = unfold bytearray in (l, f) in
    let other : same_text magic server_magic ≡ false =
      elim (Bool-cases (same_text magic server_magic)) [
        | inl t ↦ absurd (n ((same_text_iff magic server_magic).0 t))
        | inr t ↦ t
      ] in
    behind_magic base64_decode magic rest m e fit l ∙ rw (load_magic, other) refl
