-- ===== src/Managers/CentralServers/Removal.antt =====
-- src/managers/central_server.cpp, `removeServer`: which server is active afterwards.
use globed.Common.{
  ◌+◌, ℕ, zero, suc, ◌-◌, ◌<◌, ◌≤◌, ◌≡◌, ◌≢◌, refl, ap, ◌∙◌, true, false, ◌&&◌, List, [], ◌∷◌, ltb,
  leb, ◌==◌, if◌then◌else◌, length, get_elem?, arith, Bool-cases, inl, inr, sym,
}
use globed.Common.Int.{pos, negsuc, sub_ℕ}
use globed.Managers.CentralServers.{
  CentralServer, CentralServers, at_index, get_active, save, force_switch, remove_at, active_after,
  is_active, remove_server, set_active,
}

get_elem?-remove_at_before :
    (xs : List CentralServer) (i a : ℕ) → a < i → get_elem? (remove_at xs i) a ≡ get_elem? xs a
unfolding remove_at
get_elem?-remove_at_before [] i a h = refl
get_elem?-remove_at_before (x ∷ xs) zero a h = absurd (omega arith)
get_elem?-remove_at_before (x ∷ xs) (suc i) zero h = refl
get_elem?-remove_at_before (x ∷ xs) (suc i) (suc a) h =
    get_elem?-remove_at_before xs i a (omega arith)

get_elem?-remove_at_behind :
    (xs : List CentralServer) (i a : ℕ)
    → i ≤ a
    → get_elem? (remove_at xs i) a ≡ get_elem? xs (suc a)
unfolding remove_at
get_elem?-remove_at_behind [] i a h = refl
get_elem?-remove_at_behind (x ∷ xs) zero a h = refl
get_elem?-remove_at_behind (x ∷ xs) (suc i) zero h = absurd (omega arith)
get_elem?-remove_at_behind (x ∷ xs) (suc i) (suc a) h =
    get_elem?-remove_at_behind xs i a (omega arith)

is_active_pos : (i a : ℕ) → is_active i (pos a) ≡ (i == a)
unfolding is_active
is_active_pos i a = refl

at_index_pos :
    (emulated : CentralServer) (xs : List CentralServer) (a : ℕ)
    → get_elem? xs a ≡ at_index emulated xs (pos a)
unfolding at_index
at_index_pos emulated xs a = refl

at_index-active_after :
    (emulated : CentralServer) (xs : List CentralServer) (i a : ℕ)
    → a < length xs
    → i ≢ a
    → at_index emulated (remove_at xs i) (active_after (length xs) i (pos a)) ≡ get_elem? xs a
unfolding at_index active_after
at_index-active_after emulated xs i a ha ne =
    let apart : (i == a) ≡ false = ground (arith, ne) in
    let there : ltb a (length xs) ≡ true = ground (arith, ha) in
    let n = length xs in
    let gone = if i == n - 1 then sub_ℕ a 1 else pos a in
    let first =
      ap
        (λ t.
          at_index emulated (remove_at xs i)
            (if t then gone else if ltb a n && leb i a then pos (a - 1) else pos a))
        apart
      ∙ ap (λ t. at_index emulated (remove_at xs i) (if t && leb i a then pos (a - 1) else pos a))
          there in
    elim (Bool-cases (leb i a)) [
      | inl l ↦
          let le : i ≤ a - 1 = ground (arith, l, ne) in
          let back : suc (a - 1) ≡ a = ground (arith, l, ne) in
          first
          ∙ ap (λ t. at_index emulated (remove_at xs i) (if t then pos (a - 1) else pos a)) l
          ∙ get_elem?-remove_at_behind xs i (a - 1) le
          ∙ ap (get_elem? xs) back
      | inr g ↦
          let lt : a < i = ground (arith, g) in
          first
          ∙ ap (λ t. at_index emulated (remove_at xs i) (if t then pos (a - 1) else pos a)) g
          ∙ get_elem?-remove_at_before xs i a lt
    ]

-- Where the active index is in the list, removing another server of the list leaves the same
-- server active.
pub get_active-remove_server :
    (emulated : CentralServer) (m : CentralServers) (i a : ℕ)
    → m.active_idx ≡ pos a
    → a < length m.servers
    → i < length m.servers
    → i ≢ a
    → get_active emulated (remove_server (pos i) m) ≡ get_active emulated m
unfolding get_active remove_server save
get_active-remove_server emulated m i a e ha hi ne =
    let n = length m.servers in
    let here : ltb i n ≡ true = ground (arith, hi) in
    let apart : (i == a) ≡ false = ground (arith, ne) in
    let after : CentralServers = record m {
      servers = remove_at m.servers i;
      active_idx = active_after n i m.active_idx;
    } in
    let switched = force_switch after.active_idx after in
    ap
      (λ t.
        get_active emulated
          (if t then save (if is_active i m.active_idx then switched else after) else m))
      here
    ∙ ap (λ x. get_active emulated (save (if is_active i x then switched else after))) e
    ∙ ap (λ t. get_active emulated (save (if t then switched else after)))
        (is_active_pos i a ∙ apart)
    ∙ ap (λ x. at_index emulated (remove_at m.servers i) (active_after n i x)) e
    ∙ at_index-active_after emulated m.servers i a ha ne
    ∙ at_index_pos emulated m.servers a
    ∙ ap (at_index emulated m.servers) (sym e)

at_index-active_after_self :
    (emulated : CentralServer) (xs : List CentralServer) (i : ℕ)
    → i < length xs
    → 2 ≤ length xs
    → at_index emulated (remove_at xs i) (active_after (length xs) i (pos i))
      ≡ (if i == length xs - 1 then get_elem? xs (i - 1) else get_elem? xs (suc i))
unfolding at_index active_after
at_index-active_after_self emulated xs i h two =
    let n = length xs in
    let self : (i == i) ≡ true = ground arith in
    let other = if ltb i n && leb i i then pos (i - 1) else pos i in
    let at = at_index emulated (remove_at xs i) in
    let first =
      ap (λ t. at (if t then (if i == n - 1 then sub_ℕ i 1 else pos i) else other)) self in
    elim (Bool-cases (i == n - 1)) [
      | inl l ↦
          let some_before : leb 1 i ≡ true = ground (arith, l, two) in
          let lt : i - 1 < i = ground (arith, l, two) in
          first
          ∙ ap (λ t. at (if t then sub_ℕ i 1 else pos i)) l
          ∙ ap (λ t. at (if t then pos (i - 1) else negsuc (1 - i - 1))) some_before
          ∙ get_elem?-remove_at_before xs i (i - 1) lt
          ∙ ap (λ t. if t then get_elem? xs (i - 1) else get_elem? xs (suc i)) (sym l)
      | inr l ↦
          first
          ∙ ap (λ t. at (if t then sub_ℕ i 1 else pos i)) l
          ∙ get_elem?-remove_at_behind xs i i (omega arith)
          ∙ ap (λ t. if t then get_elem? xs (i - 1) else get_elem? xs (suc i)) (sym l)
    ]

-- Removing the active server of at least two makes the next one active, or the one before it where
-- it was the last, and resets the session.
get_active-remove_server_self :
    (emulated : CentralServer) (m : CentralServers) (i : ℕ)
    → m.active_idx ≡ pos i
    → i < length m.servers
    → 2 ≤ length m.servers
    → (get_active emulated (remove_server (pos i) m) ≡ (
        if i == length m.servers - 1
        then get_elem? m.servers (i - 1)
        else get_elem? m.servers (suc i)))
      × ((remove_server (pos i) m).session_resets ≡ m.session_resets + 1)
unfolding get_active remove_server save force_switch set_active
get_active-remove_server_self emulated m i e h two =
    let n = length m.servers in
    let here : ltb i n ≡ true = ground (arith, h) in
    let self : (i == i) ≡ true = ground arith in
    let after : CentralServers = record m {
      servers = remove_at m.servers i;
      active_idx = active_after n i m.active_idx;
    } in
    let switched = force_switch after.active_idx after in
    let run =
      ap (λ t. if t then save (if is_active i m.active_idx then switched else after) else m) here
      ∙ ap (λ x. save (if is_active i x then switched else after)) e
      ∙ ap (λ t. save (if t then switched else after)) (is_active_pos i i ∙ self) in
    (
      ap (get_active emulated) run
          ∙ ap (λ x. at_index emulated (remove_at m.servers i) (active_after n i x)) e
          ∙ at_index-active_after_self emulated m.servers i h two,
      ap (λ (x : CentralServers). x.session_resets) run,
    )
