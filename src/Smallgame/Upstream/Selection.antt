-- ===== src/Smallgame/Upstream/Selection.antt =====
-- Which hall a new client gets. (framework/smallgame/gateway/server/upstream.go)
use gira.Prelude.{
  ℕ, ◌<◌, ◌≤◌, ◌≡◌, ◌⊎◌, inl, inr, refl, sym, ap, ◌∙◌, subst, Bool, true, false, Option, none, some,
  List, [], ◌∷◌, arith, eqb_iff, if◌then◌else◌,
}
use gira.Smallgame.Upstream.{
  Upstream, UpstreamMap, HallStatus, ok, unavailable, other, is_ok, answered, checked, select_peer,
  newer, max_build_time, min_player_count, is_better, better, min_player,
}

-- An entry of a list.
abbrev pub IsIn : ℕ → Upstream → List (ℕ × Upstream) → Type 0
IsIn k u [] = ⊥
IsIn k u ((j, v) ∷ es) = (u ≡ v) ⊎ IsIn k u es

-- A hall that a client can get, given the newest build.
abbrev pub IsEligible : ℕ → Upstream → Type 0
IsEligible newest u = (u.has_client ≡ true) × (u.build_time ≡ newest) × (u.cancelled ≡ false)

newer-most : (most : ℕ) (u : Upstream) → most ≤ newer most u
newer-most most u = ground arith

newer-own : (most : ℕ) (u : Upstream) → u.has_client ≡ true → u.build_time ≤ newer most u
newer-own most u h = ground arith

max_build_time-most : (most : ℕ) (es : List (ℕ × Upstream)) → most ≤ max_build_time most es
unfolding max_build_time
max_build_time-most most [] = omega arith
max_build_time-most most ((k, u) ∷ es) =
    omega (arith, newer-most most u, max_build_time-most (newer most u) es)

max_build_time-all :
    (most : ℕ) (es : List (ℕ × Upstream)) (k : ℕ) (u : Upstream)
    → IsIn k u es
    → u.has_client ≡ true
    → u.build_time ≤ max_build_time most es
unfolding max_build_time
max_build_time-all most [] k u i h = elim i [ ]
max_build_time-all most ((j, v) ∷ es) k u (inl e) h =
    subst (λ x. x.build_time ≤ max_build_time (newer most v) es) (sym e)
      (omega (
        arith,
        newer-own most v (ap (λ (x : Upstream). x.has_client) (sym e) ∙ h),
        max_build_time-most (newer most v) es,
      ))
max_build_time-all most ((j, v) ∷ es) k u (inr i) h = max_build_time-all (newer most v) es k u i h

newer_bounded :
    (most limit : ℕ) (u : Upstream)
    → most ≤ limit
    → (u.has_client ≡ true → u.build_time ≤ limit)
    → newer most u ≤ limit
newer_bounded most limit u l h = ground arith

-- The first pass finds no build that is newer than those of the connected halls.
max_build_time-bounded :
    (most limit : ℕ) (es : List (ℕ × Upstream))
    → most ≤ limit
    → ((k : ℕ) (u : Upstream) → IsIn k u es → u.has_client ≡ true → u.build_time ≤ limit)
    → max_build_time most es ≤ limit
unfolding max_build_time
max_build_time-bounded most limit [] l h = l
max_build_time-bounded most limit ((j, v) ∷ es) l h =
    max_build_time-bounded (newer most v) limit es (newer_bounded most limit v l (h j v (inl refl)))
      (λ k u i. h k u (inr i))

-- What is selected is eligible, and no eligible hall of the list has fewer players.
abbrev IsBest : ℕ → List (ℕ × Upstream) → Option Upstream → Option Upstream → Type 0
IsBest newest es before none =
    (before ≡ none)
    × ((k : ℕ) (v : Upstream) → IsIn k v es → IsEligible newest v → 4294967295 ≤ v.player_count)
IsBest newest es before (some u) =
    ((before ≡ some u) ⊎ ((k : ℕ) × IsIn k u es × IsEligible newest u))
    × (u.player_count ≤ min_player_count before)
    × ((k : ℕ) (v : Upstream) → IsIn k v es → IsEligible newest v → u.player_count ≤ v.player_count)

module _ (newest : ℕ) (before : Option Upstream) (v : Upstream) where
  is_better-IsEligible :
      is_better newest before v ≡ true
      → IsEligible newest v × (v.player_count < min_player_count before)
  is_better-IsEligible h = ground (arith, eqb_iff v.build_time newest)

  is_better-refused :
      is_better newest before v ≡ false
      → IsEligible newest v
      → min_player_count before ≤ v.player_count
  is_better-refused h e = ground (arith, eqb_iff v.build_time newest)

  better-IsBest :
      (j : ℕ) (es : List (ℕ × Upstream)) (b : Bool)
      → is_better newest before v ≡ b
      → (r : Option Upstream) → IsBest newest es (if b then some v else before) r
      → IsBest newest ((j, v) ∷ es) before r
  better-IsBest j es true e none best = cc
  better-IsBest j es false e none best = (best.0, among)
    where
      among :
          (k : ℕ) (u : Upstream)
          → IsIn k u ((j, v) ∷ es)
          → IsEligible newest u
          → 4294967295 ≤ u.player_count
      among k u (inl same) el = omega (
        arith,
        is_better-refused e (subst (IsEligible newest) same el),
        ap min_player_count best.0,
        ap (λ (x : Upstream). x.player_count) same,
      )
      among k u (inr i) el = best.1 k u i el
  better-IsBest j es true e (some u) best =
      let (el, fewer) = is_better-IsEligible e in
      (
        elim best.0 [
          | inl same ↦
              let own : u ≡ v = cc in inr (j, inl own, subst (IsEligible newest) (sym own) el)
          | inr (k, i, el') ↦ inr (k, inr i, el')
        ],
        omega (arith, best.1, fewer),
        (λ k w i el'. elim i [
          | inl same ↦ omega (arith, best.1, ap (λ (x : Upstream). x.player_count) same)
          | inr i' ↦ best.2 k w i' el'
        ]),
      )
  better-IsBest j es false e (some u) best = (
    elim best.0 [ inl same ↦ inl same | inr (k, i, el) ↦ inr (k, inr i, el) ],
    best.1,
    (λ k w i el. elim i [
      | inl same ↦ omega (
        arith,
        best.1,
        is_better-refused e (subst (IsEligible newest) same el),
        ap (λ (x : Upstream). x.player_count) same,
      )
      | inr i' ↦ best.2 k w i' el
    ]),
  )

min_player-IsBest :
    (newest : ℕ) (before : Option Upstream) (es : List (ℕ × Upstream))
    → IsBest newest es before (min_player newest before es)
unfolding min_player
min_player-IsBest newest none [] = (refl, (λ k v i. elim i [ ]))
min_player-IsBest newest (some u) [] = (inl refl, omega arith, (λ k v i. elim i [ ]))
min_player-IsBest newest before ((j, v) ∷ es) =
    better-IsBest newest before v j es (is_better newest before v) refl
      (min_player newest (better newest before v) es)
      (min_player-IsBest newest (better newest before v) es)

-- The hall with what it answered, if that is that it is well.
abbrev pub approved : (Upstream → Option HallStatus) → Option Upstream → Option Upstream
approved answer none = none
approved answer (some u) = if is_ok (answer u) then some (record u { status = ok }) else none

-- A hall of the map is connected and runs, none that is connected has a newer build, and none that
-- runs with the same build has fewer players; or every hall that could be it, since it is connected
-- and runs and none that is connected has a newer build, has too many.
abbrev pub IsSelection : UpstreamMap → Option Upstream → Type 0
IsSelection servers none =
    (k : ℕ) (v : Upstream)
    → IsIn k v servers.entries
    → v.has_client ≡ true
    → v.cancelled ≡ false
    → ((j : ℕ) (u : Upstream)
        → IsIn j u servers.entries
        → u.has_client ≡ true
        → u.build_time ≤ v.build_time)
    → 4294967295 ≤ v.player_count
IsSelection servers (some u) =
    ((k : ℕ) × IsIn k u servers.entries)
    × (u.has_client ≡ true)
    × (u.cancelled ≡ false)
    × ((k : ℕ) (v : Upstream)
        → IsIn k v servers.entries
        → v.has_client ≡ true
        → (v.build_time ≤ u.build_time)
          × (v.cancelled ≡ false → v.build_time ≡ u.build_time → u.player_count ≤ v.player_count))

min_player-IsSelection :
    (servers : UpstreamMap)
    → IsSelection servers (min_player (max_build_time 0 servers.entries) none servers.entries)
min_player-IsSelection servers =
    go (min_player newest none servers.entries) (min_player-IsBest newest none servers.entries)
  where
    newest : ℕ
    newest = max_build_time 0 servers.entries

    go : (r : Option Upstream) → IsBest newest servers.entries none r → IsSelection servers r
    go none best = λ k v i connected alive newest_build.
        let own : v.build_time ≤ newest = max_build_time-all 0 servers.entries k v i connected in
        let most : newest ≤ v.build_time =
          max_build_time-bounded 0 v.build_time servers.entries (omega arith) newest_build in
        best.1 k v i (connected, omega arith, alive)
    go (some u) best = elim best.0 [
      | inl absurd ↦ cc
      | inr (k, i, el) ↦ (
        (k, i),
        el.0,
        el.2,
        (λ j v i' h. (
          omega (arith, max_build_time-all 0 servers.entries j v i' h, el.1),
          (λ alive same. best.2 j v i' (h, same ∙ el.1, alive)),
        )),
      )
    ]

answered-approved :
    (u : Upstream) (a : Option HallStatus)
    → (if (answered u a).1 then some (answered u a).0 else none)
      ≡ (if is_ok a then some (record u { status = ok }) else none)
answered-approved u none = refl
answered-approved u (some unavailable) = refl
answered-approved u (some ok) = refl
answered-approved u (some other) = refl

checked-approved :
    (answer : Upstream → Option HallStatus) (servers : UpstreamMap) (r : Option Upstream)
    → IsSelection servers r
    → (checked answer servers r).1 ≡ approved answer r
checked-approved answer servers none h = refl
checked-approved answer servers (some u) h =
    ap
      (λ b.
        let x : Upstream × Bool = if b then answered u (answer u) else (u, false) in
        if x.1 then some x.0 else none)
      h.1
    ∙ answered-approved u (answer u)

-- The hall that `SelectPeer` chooses stands in the map, is connected and runs; no connected hall
-- has a newer build, and none that runs with the same build has fewer players. It is given out,
-- with its new status, exactly if it answers the health check with OK. If none is chosen, every
-- hall that is connected and runs, and than which no connected one has a newer build, has at least
-- 0xffffffff players.
pub select_peer-IsSelection :
    (answer : Upstream → Option HallStatus) (servers : UpstreamMap)
    → (selected : Option Upstream) × IsSelection servers selected
      × ((select_peer answer servers).1 ≡ approved answer selected)
unfolding select_peer
select_peer-IsSelection answer servers =
    let selected = min_player (max_build_time 0 servers.entries) none servers.entries in
    let right = min_player-IsSelection servers in
    (selected, right, checked-approved answer servers selected right)
