-- ===== src/App/Screens/Registration.antt =====
-- src/app/server_screens.cpp, registerScreens: what a client announces is registered.
use mksync.Prelude.{
  ℕ, ◌+◌, ◌<◌, ◌≤◌, suc, List, [], ◌∷◌, map, Result-cases, ==_iff, ◌≡◌, refl, ◌∙◌, inl, inr, pos,
  Bool, false, String, none, some, ok, arith, Bool-cases, Option-cases, length, All,
}
use mksync.StdMap.{StdMap, find, emplace, insert_sorted}
use mksync.Core.Events.{ScreenInfo}
use mksync.Core.Grid.{
  GridPosition, position_key, ScreenKey, screen_key, screen_key_eq, screen_key_eq_iff,
  TopologyScreen,
}
use mksync.Core.Topology
use mksync.Core.Topology.{ScreenTopology}
use mksync.Core.Topology.Invariant.{IsSized, add_screen-Added, find-added_screens}
use mksync.App.Screens.{Endpoint, ScreenStore, is_occupied, next_free_cell, configured_cell}
use mksync.App.Screens.FreeCell.{next_free_cell-IsFirstFree, find_of_free}
use mksync.App.Screens.Invariant.{
  IsValid, new_screen, add_screen_accepted, add_screen_refused, register_one-IsValid,
}
use mksync.App.Screens.Register.{place, repair, register_one, register_from, register_screens}

pub accepts :
    (t : ScreenTopology) (screen : TopologyScreen)
    → IsSized screen.info
    → find screen.key t.screens ≡ none
    → find screen.cell t.cells ≡ none
    → (u : ScreenTopology) × (Topology.add_screen t screen ≡ ok u)
unfolding Topology.add_screen
accepts t screen z k c = (
  record {
    screens = emplace screen.key screen t.screens;
    cells = emplace screen.cell screen.key t.cells;
  },
  ground (arith, z, k, c),
)

module _ (store : ScreenStore)
    (few : 1 + length (Topology.screens store.topology) < 2147483647) where
  free_cell : is_occupied store.topology (next_free_cell store (pos 1)) ≡ false
  free_cell = (next_free_cell-IsFirstFree store 1 few).free

  -- The cell of a remote screen is free, remembered or not.
  placed_free :
      (k : ScreenKey) (info : ScreenInfo) (i p : ℕ) (r : Bool)
      → is_occupied store.topology
          (repair store (place store k info i p false r).1 (place store k info i p false r).0)
        ≡ false
  unfolding place repair
  placed_free k info i p r = elim (Option-cases (configured_cell store k)) [
    | inl e ↦ rw (e, place) free_cell
    | inr (c, e) ↦ elim (Bool-cases (is_occupied store.topology c)) [
      | inl o ↦ ground (arith, e, o, free_cell)
      | inr o ↦ ground (arith, e, o, free_cell)
    ]
  ]

  -- On a well-formed store with fewer screens than `int32_t` has columns, a remote screen of a
  -- positive 32-bit size under a key that the topology does not have is registered, whatever the
  -- remembered layout says.
  register_one_registers :
      (e : Endpoint) (o : String) (i : ℕ) (info : ScreenInfo) (p : ℕ) (r : Bool)
      → IsValid store
      → IsSized info
      → find (record { owner_id = o; screen_index = i }) store.topology.screens ≡ none
      → (c : GridPosition) × (find
            (record { owner_id = o; screen_index = i })
            (register_one store e o i info p false r).0.topology.screens
          ≡ some (new_screen (record { owner_id = o; screen_index = i }) c info false))
        × (is_occupied store.topology c ≡ false)
  unfolding register_one
  register_one_registers e o i info p r v z fresh =
      let k : ScreenKey = record { owner_id = o; screen_index = i } in
      let c = repair store (place store k info i p false r).1 (place store k info i p false r).0 in
      let free = placed_free k info i p r in
      let screen = new_screen k c info false in
      let (u, added) =
        accepts store.topology screen z fresh (find_of_free store.topology c v.topology free) in
      let (topology, nodes, next) = add_screen_accepted store e k c info false u added in
      (
        c,
        rw topology (
            find-added_screens store.topology screen u
              (add_screen-Added store.topology screen u added) k
            ∙ ground (arith, screen_key_eq_iff k k)),
        free,
      )

-- The screens of a list, registered one by one from an index on.
abbrev pub AreRegistered : ScreenTopology → String → ℕ → List ScreenInfo → Type 0
AreRegistered t o i [] = Unit
AreRegistered t o i (info ∷ rest) =
    ((c : GridPosition) × (find (record { owner_id = o; screen_index = i }) t.screens
        ≡ some (new_screen (record { owner_id = o; screen_index = i }) c info false)))
    × AreRegistered t o (suc i) rest

-- No screen of the owner from an index on is in the topology.
abbrev pub IsFresh : ScreenTopology → String → ℕ → Type 0
IsFresh t o i = (j : ℕ) → i ≤ j → find (record { owner_id = o; screen_index = j }) t.screens ≡ none

length-insert_sorted :
    (k : ScreenKey) (s : TopologyScreen) (m : StdMap ScreenKey TopologyScreen)
    → length (map (λ e. e.1) (insert_sorted k s m)) ≡ suc (length (map (λ e. e.1) m))
unfolding insert_sorted
length-insert_sorted k s [] = refl
length-insert_sorted k s ((j, r) ∷ m) = ground (arith, length-insert_sorted k s m)

-- What one registration leaves of the other keys, and how many screens there are then.
module _ (store : ScreenStore) (e : Endpoint) (o : String) (i : ℕ) (info : ScreenInfo) (p : ℕ)
    (r : Bool) where
  register_one_others :
      (j : ScreenKey)
      → screen_key_eq (record { owner_id = o; screen_index = i }) j ≡ false
      → find j (register_one store e o i info p false r).0.topology.screens
        ≡ find j store.topology.screens
  unfolding register_one
  register_one_others j h =
      let k : ScreenKey = record { owner_id = o; screen_index = i } in
      let c = repair store (place store k info i p false r).1 (place store k info i p false r).0 in
      let screen = new_screen k c info false in
      elim (Result-cases (Topology.add_screen store.topology screen)) [
        | inr (x, n) ↦ rw (add_screen_refused store e k c info false x n) refl
        | inl (u, n) ↦
            let (topology, nodes, next) = add_screen_accepted store e k c info false u n in
            rw topology (
              find-added_screens store.topology screen u
                (add_screen-Added store.topology screen u n) j
              ∙ rw h)
      ]

  length-register_one :
      length (Topology.screens (register_one store e o i info p false r).0.topology)
      ≤ suc (length (Topology.screens store.topology))
  unfolding register_one Topology.screens
  length-register_one =
      let k : ScreenKey = record { owner_id = o; screen_index = i } in
      let c = repair store (place store k info i p false r).1 (place store k info i p false r).0 in
      let screen = new_screen k c info false in
      elim (Result-cases (Topology.add_screen store.topology screen)) [
        | inr (x, n) ↦ rw (add_screen_refused store e k c info false x n) (omega arith)
        | inl (u, n) ↦
            let (topology, nodes, next) = add_screen_accepted store e k c info false u n in
            let a = add_screen-Added store.topology screen u n in
            rw (topology, a.screens, length-insert_sorted k screen store.topology.screens)
              (omega arith)
      ]

register_from_others :
    (store : ScreenStore) (e : Endpoint) (o : String) (i : ℕ) (infos : List ScreenInfo) (p : ℕ)
    (r : Bool) (j : ScreenKey)
    → ((m : ℕ) → i ≤ m → screen_key_eq (record { owner_id = o; screen_index = m }) j ≡ false)
    → find j (register_from store e o i infos p false r).topology.screens
      ≡ find j store.topology.screens
unfolding register_from
register_from_others store e o i [] p r j h = refl
register_from_others store e o i (info ∷ rest) p r j h =
    let one = register_one store e o i info p false r in
    register_from_others one.0 e o (suc i) rest p one.1 j (λ m le. h m (omega arith))
    ∙ register_one_others store e o i info p r j (h i (omega arith))

other_index :
    (o : String) (i j : ℕ)
    → (i ≡ j → ⊥)
    → screen_key_eq
        (record { owner_id = o; screen_index = i })
        (record { owner_id = o; screen_index = j })
      ≡ false
other_index o i j h = ground (arith, ==_iff i j)

register_from_registers :
    (store : ScreenStore) (e : Endpoint) (o : String) (i : ℕ) (infos : List ScreenInfo) (p : ℕ)
    (r : Bool)
    → IsValid store
    → All IsSized infos
    → IsFresh store.topology o i
    → 1 + length (Topology.screens store.topology) + length infos < 2147483647
    → AreRegistered (register_from store e o i infos p false r).topology o i infos
unfolding register_from
register_from_registers store e o i [] p r v z fresh few = tt
register_from_registers store e o i (info ∷ rest) p r v z fresh few =
    let one = register_one store e o i info p false r in
    let (c, there, free) =
      register_one_registers store (omega arith) e o i info p r v z.0 (fresh i (omega arith)) in
    (
      (
        c,
        register_from_others one.0 e o (suc i) rest p one.1 _
              (λ m le. other_index o m i (λ same. absurd (omega arith)))
            ∙ there,
      ),
      register_from_registers one.0 e o (suc i) rest p one.1
          (register_one-IsValid store e o i info p false r v (z.0.2, z.0.3)) z.1
          (λ j le.
            register_one_others store e o i info p r _
              (other_index o i j (λ same. absurd (omega arith)))
            ∙ fresh j (omega arith))
          (omega (arith, length-register_one store e o i info p r)),
    )

-- On a well-formed store whose topology has no screen of the owner, every screen that a client
-- announces, of a positive 32-bit size, is registered under its index, whatever the remembered layout
-- says, as long as there are fewer screens than `int32_t` has columns.
pub register_screens_registers :
    (store : ScreenStore) (e : Endpoint) (o : String) (infos : List ScreenInfo)
    → IsValid store
    → All IsSized infos
    → IsFresh store.topology o 0
    → 1 + length (Topology.screens store.topology) + length infos < 2147483647
    → AreRegistered (register_screens store e o infos false).topology o 0 infos
unfolding register_screens
register_screens_registers store e o infos v z fresh few =
    register_from_registers store e o 0 infos _ false v z fresh few
