-- ===== src/Config/Files.antt =====
-- src/config/app_config.cpp, serializeConfig to saveConfig: the configuration file. The JSON library
-- and the file system are parameters.
pub mod Laws
use mksync.Prelude.{
  ℕ, ◌==◌, ◌≡◌, refl, str_eq, Bool, true, false, String, List, [], ◌∷◌, Option, none, some, Result,
  ok, err, ◌>>=◌, ◌>>◌, if◌then◌else◌, Key, text_key,
}
use mksync.StdMap.{StdMap, find, assign, contains}
use mksync.Config.AppConfig.{
  ConfigError, invalid_config, serialize_failed, deserialize_failed, io_error, AppConfig,
  default_config, ensure_machine_id,
}

-- An error of this program or of the system.
pub data FileError : Type 0 where
  config_error : ConfigError → FileError
  system_error : ℕ → FileError

-- What the host does. `open_error` and `write_error` are the `errno` of a failing call; a failing
-- write leaves some text behind. `lost_at_close` is the text that a file is left with when the buffer
-- cannot be written out at its close, which the stream does not report. `exists_error` and `directory_error` are the errors of
-- `std::filesystem::exists` and, where the path has a parent, of `create_directories`.
pub record Host : Type 0 where
  pub encode : AppConfig → Option String
  pub decode : String → Option AppConfig
  pub exists_error : String → Option ℕ
  pub directory_error : String → Option ℕ
  pub read_error : String → Option ℕ
  pub open_error : String → Option ℕ
  pub write_error : String → String → Option (ℕ × String)
  pub lost_at_close : String → String → Option String

-- The JSON library parses back what it has printed.
pub record IsFaithful (h : Host) : Type 0 where
  pub decode-encode :
      (c : AppConfig) (text : String) → h.encode c ≡ some text → h.decode text ≡ some c

-- The files by their path.
abbrev pub Files : Type 0
Files = StdMap String String

abbrev stream_error : ℕ → FileError
stream_error code = if code == 0 then config_error io_error else system_error code

abbrev fail_on {ℓ} :
    {A : Type ℓ} → Option ℕ → (ℕ → FileError) → Result FileError A → Result FileError A
fail_on none e next = next
fail_on (some code) e next = err (e code)

module _ (h : Host) where
  serialize_config : AppConfig → Result FileError String
  serialize_config config = elim (h.encode config) [
    | none ↦ err (config_error serialize_failed)
    | some text ↦ ok text
  ]

  unfoldable pub deserialize_config : String → Result FileError AppConfig
  deserialize_config text = elim (h.decode text) [
    | none ↦ err (config_error deserialize_failed)
    | some config ↦ if config.version == 0 then err (config_error invalid_config) else ok config
  ]

  unfoldable pub load_config : Files → String → Result FileError AppConfig
  unfolding deserialize_config
  load_config files path = elim (find path files) [
    | none ↦ err (stream_error 2)
    | some text ↦ fail_on (h.read_error path) stream_error (deserialize_config text)
  ]

  -- What the close of the file leaves of a text that `output.write` has taken.
  closed_text : String → String → String
  closed_text path text = elim (h.lost_at_close path text) [ none ↦ text | some torn ↦ torn ]

  -- The text that `output.write` and the close leave, and what `saveConfig` reports: it does not ask
  -- whether the close succeeds.
  write_text : Files → String → String → Files × Result FileError (Unit {0})
  unfolding closed_text
  write_text files path text = elim (h.write_error path text) [
    | none ↦ (assign path (closed_text path text) files, ok tt)
    | some (code, torn) ↦ (assign path torn files, err (stream_error code))
  ]

  -- Opening for writing truncates the file, so a failure after that has lost the old text.
  unfoldable pub save_config : Files → String → AppConfig → Files × Result FileError (Unit {0})
  unfolding write_text serialize_config
  save_config files path config = elim (h.directory_error path) [
    | some code ↦ (files, err (system_error code))
    | none ↦ elim (serialize_config config) [
      | err e ↦ (files, err e)
      | ok text ↦ elim (h.open_error path) [
        | some code ↦ (files, err (stream_error code))
        | none ↦ write_text files path text
      ]
    ]
  ]

  -- `saveConfig` and then `return config`.
  save_and_return : Files → String → AppConfig → Files × Result FileError AppConfig
  unfolding save_config
  save_and_return files path config =
      let (files', saved) = save_config files path config in (files', saved >> ok config)

  unfoldable pub load_or_create_config :
      Files → String → List ℕ → Files × Result FileError AppConfig
  unfolding load_config save_and_return
  load_or_create_config files path bytes = elim (h.exists_error path) [
    | some code ↦ (files, err (system_error code))
    | none ↦
        if contains path files
        then elim (load_config files path) [
          | err e ↦ (files, err e)
          | ok config ↦
              let filled = ensure_machine_id bytes config in
              if str_eq filled.machine_id config.machine_id
              then (files, ok filled)
              else save_and_return files path filled
        ]
        else save_and_return files path (ensure_machine_id bytes default_config)
  ]
