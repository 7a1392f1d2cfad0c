-- ===== src/Config/AppConfig.antt =====
-- src/config/app_config.hpp and src/config/app_config.cpp: machine id, remembered layout, trust.
pub mod Layout
pub mod Trust
use Prim.Native.Char.{Char}
use Prim.Native.String
use mksync.Prelude.{
  ℕ, ◌/◌, ◌%◌, ◌==◌, str_eq, Bool, true, false, not, ◌&&◌, ◌||◌, String, List, [], ◌∷◌, ◌++◌,
  Option, none, some, if◌then◌else◌, any, get_or,
}
use mksync.Core.Grid.{GridPosition}

pub data ConfigError : Type 0 where
  no_error invalid_config serialize_failed deserialize_failed io_error : ConfigError

pub record ScreenLayoutConfig : Type 0 where
  pub owner_id : String
  pub screen_index : ℕ
  pub cell : GridPosition

pub record TrustedClientConfig : Type 0 where
  pub machine_id : String
  pub name : String

pub record AppConfig : Type 0 where
  pub version : ℕ
  pub machine_id : String
  pub screens : List ScreenLayoutConfig
  pub trusted_clients : List TrustedClientConfig

abbrev pub default_config : AppConfig
default_config = record { version = 1; machine_id = ""; screens = []; trusted_clients = [] }

abbrev digits : List Char
digits =
    "0" ∷ "1" ∷ "2" ∷ "3" ∷ "4" ∷ "5" ∷ "6" ∷ "7" ∷ "8" ∷ "9" ∷ "a" ∷ "b" ∷ "c" ∷ "d" ∷ "e" ∷ "f"
    ∷ []

hex_digits : List ℕ → String
hex_digits [] = ""
hex_digits (byte ∷ bytes) =
    String.◌∷◌ (get_or digits (byte / 16 % 16) "0")
      (String.◌∷◌ (get_or digits (byte % 16) "0") (hex_digits bytes))

-- `bytes` are the sixteen that `std::random_device` gives.
unfoldable pub generate_machine_id : List ℕ → String
unfolding hex_digits
generate_machine_id bytes =
    String.◌∷◌ "m" (String.◌∷◌ "k" (String.◌∷◌ "s" (String.◌∷◌ "-" (hex_digits bytes))))

unfoldable pub ensure_machine_id : List ℕ → AppConfig → AppConfig
ensure_machine_id bytes config =
    if str_eq config.machine_id ""
    then record config { machine_id = generate_machine_id bytes }
    else config

abbrev pub is_layout_of : String → ℕ → ScreenLayoutConfig → Bool
is_layout_of owner_id screen_index layout =
    str_eq layout.owner_id owner_id && layout.screen_index == screen_index

find_layout : String → ℕ → List ScreenLayoutConfig → Option GridPosition
find_layout owner_id screen_index [] = none
find_layout owner_id screen_index (layout ∷ rest) =
    if is_layout_of owner_id screen_index layout
    then some layout.cell
    else find_layout owner_id screen_index rest

unfoldable pub find_screen_layout : AppConfig → String → ℕ → Option GridPosition
unfolding find_layout
find_screen_layout config owner_id screen_index = find_layout owner_id screen_index config.screens

upsert_layout : ScreenLayoutConfig → List ScreenLayoutConfig → List ScreenLayoutConfig
upsert_layout layout [] = layout ∷ []
upsert_layout layout (current ∷ rest) =
    if is_layout_of layout.owner_id layout.screen_index current
    then layout ∷ rest
    else current ∷ upsert_layout layout rest

unfoldable pub upsert_screen_layout : AppConfig → ScreenLayoutConfig → AppConfig
unfolding upsert_layout
upsert_screen_layout config layout = record config { screens = upsert_layout layout config.screens }

abbrev pub matches : String → String → TrustedClientConfig → Bool
matches machine_id name client =
    (not (str_eq machine_id "") && str_eq client.machine_id machine_id)
    || (not (str_eq name "") && str_eq client.name name)

abbrev pub is_empty {ℓ} : {A : Type ℓ} → List A → Bool
is_empty [] = true
is_empty (x ∷ xs) = false

unfoldable pub is_trusted_client : AppConfig → String → String → Bool
is_trusted_client config machine_id name =
    if is_empty config.trusted_clients
    then true
    else any (matches machine_id name) config.trusted_clients
