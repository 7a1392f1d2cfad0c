-- ===== src/Config/AppConfig/Layout.antt =====
-- src/config/app_config.cpp, findScreenLayout and upsertScreenLayout.
use mksync.Prelude.{ℕ, ◌≡◌, refl, str_eq_iff, String, List, [], ◌∷◌, some, if◌then◌else◌, arith}
use mksync.Config.AppConfig.{
  AppConfig, ScreenLayoutConfig, find_layout, find_screen_layout, upsert_layout,
  upsert_screen_layout, is_layout_of,
}

find_layout-upsert_layout :
    (o : String) (i : ℕ) (layout : ScreenLayoutConfig) (l : List ScreenLayoutConfig)
    → find_layout o i (upsert_layout layout l)
      ≡ (if is_layout_of o i layout then some layout.cell else find_layout o i l)
unfolding find_layout upsert_layout
find_layout-upsert_layout o i layout [] = refl
find_layout-upsert_layout o i layout (x ∷ l) = ground (
  arith,
  str_eq_iff x.owner_id layout.owner_id,
  str_eq_iff layout.owner_id o,
  str_eq_iff x.owner_id o,
  find_layout-upsert_layout o i layout l,
)

-- After an upsert the screen of the layout is found at its cell, and every other screen where it
-- was before.
pub find_screen_layout-upsert_screen_layout :
    (config : AppConfig) (layout : ScreenLayoutConfig) (o : String) (i : ℕ)
    → find_screen_layout (upsert_screen_layout config layout) o i
      ≡ (if is_layout_of o i layout then some layout.cell else find_screen_layout config o i)
unfolding find_screen_layout upsert_screen_layout
find_screen_layout-upsert_screen_layout config layout o i =
    find_layout-upsert_layout o i layout config.screens
