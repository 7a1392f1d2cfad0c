-- ===== src/Config/Files/Laws.antt =====
-- src/config/app_config.cpp: what a restart finds.

use mksync.Prelude.{
  ℕ, ◌≡◌, ◌≢◌, inl, inr, str_eq, str_eq_iff, true, String, List, none, some, ok, arith, Bool-cases,
  Option-cases, Result-cases, text_key,
}
use mksync.StdMap.{find, assign, contains}
use mksync.StdMap.Laws.{find-assign, beq_refl}
use mksync.Config.AppConfig.{AppConfig, default_config, ensure_machine_id, generate_machine_id}
use mksync.Config.Files.{
  Host, IsFaithful, Files, load_config, save_config, save_and_return, load_or_create_config,
}

generate_machine_id-ne-empty : (bytes : List ℕ) → generate_machine_id bytes ≢ ""
unfolding generate_machine_id
generate_machine_id-ne-empty bytes e = cc

-- `ensureMachineId` leaves an id that is not empty, and keeps one that is there.
pub ensure_machine_id_lem :
    (bytes : List ℕ) (config : AppConfig)
    → ((ensure_machine_id bytes config).machine_id ≢ "")
      × (config.machine_id ≢ "" → ensure_machine_id bytes config ≡ config)
unfolding ensure_machine_id
ensure_machine_id_lem bytes config =
    ground (arith, str_eq_iff config.machine_id "", generate_machine_id-ne-empty bytes)

save_config_ok :
    (h : Host) (files : Files) (path : String) (config : AppConfig)
    → ((text : String) → h.lost_at_close path text ≡ none)
    → (save_config h files path config).1 ≡ ok tt
    → (text : String) × (h.encode config ≡ some text)
      × ((save_config h files path config).0 ≡ assign path text files)
unfolding save_config
save_config_ok h files path config closes saved = elim (Option-cases (h.encode config)) [
  | inl e ↦ absurd (ground (arith, e, saved))
  | inr (text, e) ↦ (text, e, ground (arith, e, saved, closes text))
]

load_config_found :
    (h : Host) (files : Files) (path text : String) (config : AppConfig)
    → find path files ≡ some text
    → h.read_error path ≡ none
    → h.decode text ≡ some config
    → config.version ≢ 0
    → load_config h files path ≡ ok config
unfolding load_config
load_config_found h files path text config there readable d v = ground arith

find-assign_self :
    (path text : String) (files : Files) → find path (assign path text files) ≡ some text
find-assign_self path text files = rw (find-assign path path text files, beq_refl path)

module _ (h : Host) (faithful : IsFaithful h) where
  -- If the JSON library parses back what it prints, a configuration that was saved is the one that
  -- the next load reads, provided the close of the file loses nothing, the version is not 0 and the
  -- file can be read.
  pub load_config-save_config :
      (files : Files) (path : String) (config : AppConfig)
      → ((text : String) → h.lost_at_close path text ≡ none)
      → (save_config h files path config).1 ≡ ok tt
      → config.version ≢ 0
      → h.read_error path ≡ none
      → load_config h (save_config h files path config).0 path ≡ ok config
  load_config-save_config files path config closes saved v readable =
      let (text, e, left) = save_config_ok h files path config closes saved in
      rw left (
        load_config_found h (assign path text files) path text config
          (find-assign_self path text files) readable (faithful.decode-encode config text e) v)

-- A load gives a version that is not 0.
load_config_version :
    (h : Host) (files : Files) (path : String) (config : AppConfig)
    → load_config h files path ≡ ok config
    → config.version ≢ 0
unfolding load_config
load_config_version h files path config e z = ground (arith, e, z)

version-ensure_machine_id :
    (bytes : List ℕ) (config : AppConfig)
    → (ensure_machine_id bytes config).version ≡ config.version
unfolding ensure_machine_id
version-ensure_machine_id bytes config = ground arith

-- What `loadOrCreateConfig` leaves when it succeeds.
record Settled (h : Host) (files : Files) (path : String) (config : AppConfig) : Type 0 where
  named : config.machine_id ≢ ""
  exists : h.exists_error path ≡ none
  there : contains path files ≡ true
  loads : load_config h files path ≡ ok config

module _ (h : Host) (faithful : IsFaithful h) (path : String) (readable : h.read_error path ≡ none)
    (exists : h.exists_error path ≡ none)
    (closes : (text : String) → h.lost_at_close path text ≡ none) where
  save_and_return-Settled :
      (files files' : Files) (config config' : AppConfig)
      → config.version ≢ 0
      → config.machine_id ≢ ""
      → save_and_return h files path config ≡ (files', ok config')
      → Settled h files' path config'
  unfolding save_and_return
  save_and_return-Settled files files' config config' v named e =
      let saved : (save_config h files path config).1 ≡ ok tt = ground (arith, e) in
      let same : config' ≡ config = ground (arith, e, saved) in
      let left : files' ≡ (save_config h files path config).0 = ground (arith, e) in
      let (text, encoded, written) = save_config_ok h files path config closes saved in
      rw (same, left)
        (record {
          named = named;
          exists = exists;
          there = rw (written, find-assign_self path text files);
          loads = load_config-save_config h faithful files path config closes saved v readable;
        })

  load_or_create-Settled :
      (files files' : Files) (bytes : List ℕ) (config : AppConfig)
      → load_or_create_config h files path bytes ≡ (files', ok config)
      → Settled h files' path config
  unfolding load_or_create_config
  load_or_create-Settled files files' bytes config e = elim (Bool-cases (contains path files)) [
    | inr new ↦
        save_and_return-Settled files files' (ensure_machine_id bytes default_config) config
          (rw (version-ensure_machine_id bytes default_config) (λ z. omega (arith, z)))
          (ensure_machine_id_lem bytes default_config).0 (ground (arith, exists, new, e))
    | inl old ↦ elim (Result-cases (load_config h files path)) [
      | inr (x, l) ↦ absurd (ground (arith, exists, old, l, e))
      | inl (read, l) ↦
          let filled = ensure_machine_id bytes read in
          let named : filled.machine_id ≢ "" = (ensure_machine_id_lem bytes read).0 in
          elim (Bool-cases (str_eq filled.machine_id read.machine_id)) [
            | inl same ↦
                let kept : read.machine_id ≢ "" =
                  rw ((str_eq_iff filled.machine_id read.machine_id).0 same) at named in
                let whole : filled ≡ read = (ensure_machine_id_lem bytes read).1 kept in
                let stay : files' ≡ files = ground (arith, exists, old, l, same, e) in
                let result : config ≡ read = ground (arith, exists, old, l, same, e, whole) in
                rw (stay, result) (record { named = kept; exists = exists; there = old; loads = l })
            | inr changed ↦
                save_and_return-Settled files files' filled config
                  (rw (version-ensure_machine_id bytes read)
                    (load_config_version h files path read l))
                  named (ground (arith, exists, old, l, changed, e))
          ]
    ]
  ]

  -- If the JSON library parses back what it prints, the path can be looked up and read, and a close
  -- loses nothing, a
  -- restart after a successful `loadOrCreateConfig` finds the same configuration, whatever random
  -- bytes it draws, and changes no file; the machine id in it is not empty.
  load_or_create_config_again :
      (files files' : Files) (bytes bytes' : List ℕ) (config : AppConfig)
      → load_or_create_config h files path bytes ≡ (files', ok config)
      → (load_or_create_config h files' path bytes' ≡ (files', ok config))
        × (config.machine_id ≢ "")
  unfolding load_or_create_config
  load_or_create_config_again files files' bytes bytes' config e =
      let s = load_or_create-Settled files files' bytes config e in
      let whole : ensure_machine_id bytes' config ≡ config =
        (ensure_machine_id_lem bytes' config).1 s.named in
      (
        ground (
          arith,
          exists,
          s.there,
          s.loads,
          whole,
          str_eq_iff config.machine_id config.machine_id,
        ),
        s.named,
      )
