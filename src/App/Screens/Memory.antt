-- ===== src/App/Screens/Memory.antt =====
-- src/app/server_screens.cpp: the remembered layout brings a screen back to its cell.
use mksync.Prelude.{
  ℕ, ◌≡◌, refl, ◌∙◌, Bool, false, String, Option, none, some, ok, arith, str_eq_iff, ==_iff,
}
use mksync.StdMap.{find}
use mksync.Core.Events.{ScreenInfo}
use mksync.Core.Grid.{GridPosition, position_key, ScreenKey, screen_key, screen_key_eq_iff}
use mksync.Core.Topology
use mksync.Core.Topology.{ScreenTopology}
use mksync.Core.Topology.Invariant.{IsSized, add_screen-Added, find-added_screens}
use mksync.Config.AppConfig.{upsert_screen_layout}
use mksync.Config.AppConfig.Layout.{find_screen_layout-upsert_screen_layout}
use mksync.App.Screens.{
  Endpoint, ScreenStore, is_occupied, configured_cell, remember_screen_layout, add_screen,
  save_config_if_needed, remove_screen,
}
use mksync.App.Screens.FreeCell.{find_of_free}
use mksync.App.Screens.Invariant.{IsValid, new_screen, add_screen_accepted}
use mksync.App.Screens.Register.{place, repair, register_one}
use mksync.App.Screens.Registration.{accepts}

saved_config : (store : ScreenStore) → (save_config_if_needed store).config ≡ store.config
unfolding save_config_if_needed
saved_config store = ground arith

remembered :
    (store : ScreenStore) (k : ScreenKey) (c : GridPosition)
    → configured_cell (remember_screen_layout store k c) k ≡ some c
unfolding configured_cell remember_screen_layout
remembered store k c =
    rw
      (saved_config (record store {
        config =
            upsert_screen_layout store.config
              (record { owner_id = k.owner_id; screen_index = k.screen_index; cell = c });
      }))
      (find_screen_layout-upsert_screen_layout store.config
          (record { owner_id = k.owner_id; screen_index = k.screen_index; cell = c }) k.owner_id
          k.screen_index
        ∙ ground (arith, str_eq_iff k.owner_id k.owner_id, ==_iff k.screen_index k.screen_index))

-- Losing the screens of an endpoint loses no remembered cell.
removed_remembers :
    (store : ScreenStore) (e : Endpoint) (active : Option ℕ) (k : ScreenKey)
    → configured_cell (remove_screen store e active).0 k ≡ configured_cell store k
unfolding configured_cell remove_screen
removed_remembers store e active k = refl

added_remembers :
    (store : ScreenStore) (e : Endpoint) (k : ScreenKey) (c : GridPosition) (info : ScreenInfo)
    (local : Bool) (u : ScreenTopology)
    → Topology.add_screen store.topology (new_screen k c info local) ≡ ok u
    → configured_cell (add_screen store e k c info local).0 k ≡ some c
unfolding add_screen
added_remembers store e k c info local u h = rw (h, add_screen) (remembered _ k c)

module _ (store : ScreenStore) (e : Endpoint) (o : String) (i : ℕ) (info : ScreenInfo) (p : ℕ)
    (local r : Bool) where
  abbrev key : ScreenKey
  key = record { owner_id = o; screen_index = i }

  placed_back :
      (c : GridPosition)
      → configured_cell store key ≡ some c
      → is_occupied store.topology c ≡ false
      → repair store (place store key info i p local r).1 (place store key info i p local r).0 ≡ c
  unfolding place repair
  placed_back c h free = ground (arith, h, free)

  -- On a well-formed store, a screen of a positive 32-bit size, of the host or of a client, that is not
  -- in the topology and whose remembered cell no other screen has, is registered at that cell, and the
  -- cell stays remembered, also after the screens of its endpoint have been removed again.
  pub register_one_restores :
      (c : GridPosition) (active : Option ℕ)
      → IsValid store
      → IsSized info
      → find key store.topology.screens ≡ none
      → configured_cell store key ≡ some c
      → is_occupied store.topology c ≡ false
      → (find key (register_one store e o i info p local r).0.topology.screens
          ≡ some (new_screen key c info local))
        × (configured_cell
              (remove_screen (register_one store e o i info p local r).0 e active).0
              key
            ≡ some c)
  unfolding register_one
  register_one_restores c active v z fresh h free =
      let screen = new_screen key c info local in
      let (u, added) =
        accepts store.topology screen z fresh (find_of_free store.topology c v.topology free) in
      let (topology, nodes, next) = add_screen_accepted store e key c info local u added in
      rw (placed_back c h free) (
        rw topology (
            find-added_screens store.topology screen u
              (add_screen-Added store.topology screen u added) key
            ∙ ground (arith, screen_key_eq_iff key key)),
        removed_remembers (add_screen store e key c info local).0 e active key
            ∙ added_remembers store e key c info local u added,
      )
