-- ===== src/Tests/Config.antt =====
-- A host whose configuration text is the machine id of an otherwise plain configuration.
use mksync.Prelude.{
  pos, ℕ, ◌≡◌, ◌==◌, ==_iff, refl, String, List, [], ◌∷◌, Option, none, some, ok, arith,
  if◌then◌else◌, nat_key, text_key,
}
use mksync.StdMap.{find, assign, insert_sorted}
use mksync.Config.AppConfig.{
  AppConfig, ScreenLayoutConfig, TrustedClientConfig, default_config, ensure_machine_id,
}
use mksync.Config.Files.{Host, IsFaithful, Files, load_config, save_config, load_or_create_config}
use mksync.Config.Files.Laws.{load_config-save_config}

plain : ℕ → String → List ScreenLayoutConfig → List TrustedClientConfig → Option String
plain version id [] [] = if version == 1 then some id else none
plain version id [] (t ∷ ts) = none
plain version id (s ∷ ss) ts = none

abbrev plain_config : String → AppConfig
plain_config id = record default_config { machine_id = id }

abbrev plain_host : Host
plain_host = record {
  encode = λ c. plain c.version c.machine_id c.screens c.trusted_clients;
  decode = λ text. some (plain_config text);
  exists_error = λ p. none;
  directory_error = λ p. none;
  read_error = λ p. none;
  open_error = λ p. none;
  write_error = λ p t. none;
  lost_at_close = λ p t. none;
}

plain_back :
    (version : ℕ) (id : String) (ss : List ScreenLayoutConfig) (ts : List TrustedClientConfig)
    (text : String)
    → plain version id ss ts ≡ some text
    → some (plain_config text)
      ≡ some (record { version = version; machine_id = id; screens = ss; trusted_clients = ts })
unfolding plain
plain_back version id [] [] text h = ground (arith, h, ==_iff version 1)
plain_back version id [] (t ∷ ts) text h = cc
plain_back version id (s ∷ ss) ts text h = cc

plain_host-IsFaithful : IsFaithful plain_host
plain_host-IsFaithful = record {
  decode-encode = λ c text h. plain_back c.version c.machine_id c.screens c.trusted_clients text h;
}

-- A full disk that the stream notices only at the close: success, and no text.
full_disk : Host
full_disk = record plain_host { lost_at_close = λ p t. some "" }

torn : save_config full_disk [] "/c" (plain_config "mks-a") ≡ (("/c", "") ∷ [], ok tt)
unfolding save_config full_disk plain assign find insert_sorted
torn = refl

saves : (save_config plain_host [] "/c" (plain_config "mks-a")).1 ≡ ok tt
unfolding save_config plain
saves = refl

load_config-save_config_example :
    load_config plain_host (save_config plain_host [] "/c" (plain_config "mks-a")).0 "/c"
    ≡ ok (plain_config "mks-a")
load_config-save_config_example =
    load_config-save_config plain_host plain_host-IsFaithful [] "/c" (plain_config "mks-a")
      (λ text. refl) saves (omega arith) refl

abbrev sixteen : List ℕ
sixteen = 0 ∷ 1 ∷ 2 ∷ 3 ∷ 4 ∷ 5 ∷ 6 ∷ 7 ∷ 8 ∷ 9 ∷ 10 ∷ 11 ∷ 12 ∷ 13 ∷ 14 ∷ 15 ∷ []

abbrev first_config : AppConfig
first_config = ensure_machine_id sixteen default_config

abbrev first_files : Files
first_files = (load_or_create_config plain_host [] "/c" sixteen).0

-- The first start makes an id out of the random bytes and saves it.
first_start : load_or_create_config plain_host [] "/c" sixteen ≡ (first_files, ok first_config)
unfolding load_or_create_config plain ensure_machine_id find
first_start = refl

abbrev one_client : TrustedClientConfig
one_client = record { machine_id = "mks-b"; name = "laptop" }

abbrev guarded : AppConfig
guarded = record default_config { trusted_clients = one_client ∷ [] }

abbrev moved_laptop : ScreenLayoutConfig
moved_laptop = record {
  owner_id = "mks-b";
  screen_index = 0;
  cell = record { x = pos 0; y = pos 1 };
}
