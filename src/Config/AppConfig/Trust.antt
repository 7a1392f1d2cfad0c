-- ===== src/Config/AppConfig/Trust.antt =====
-- src/config/app_config.cpp, isTrustedClient.
use mksync.Prelude.{
  ◌≡◌, ◌≢◌, refl, ◌↔◌, ◌⊎◌, inl, inr, str_eq_iff, true, String, List, [], ◌∷◌, arith, any,
  Bool-cases, subst, if◌then◌else◌,
}
use mathlib.Core.List.{Memᴰ}
use mksync.Config.AppConfig.{AppConfig, TrustedClientConfig, matches, is_trusted_client, is_empty}

-- A trusted entry that names the client by a machine id or a name that is not empty.
abbrev pub Names : String → String → TrustedClientConfig → Type 0
Names machine_id name client =
    ((machine_id ≢ "") × (client.machine_id ≡ machine_id)) ⊎ ((name ≢ "") × (client.name ≡ name))

matches_iff :
    (m n : String) (client : TrustedClientConfig) → (matches m n client ≡ true) ↔ Names m n client
matches_iff m n client = ground (
  arith,
  str_eq_iff m "",
  str_eq_iff n "",
  str_eq_iff client.machine_id m,
  str_eq_iff client.name n,
)

any_sound :
    (m n : String) (l : List TrustedClientConfig)
    → any (matches m n) l ≡ true
    → (client : TrustedClientConfig) × Memᴰ client l × Names m n client
any_sound m n [] h = cc
any_sound m n (x ∷ l) h = elim (Bool-cases (matches m n x)) [
  | inl e ↦ (x, Memᴰ.head refl, (matches_iff m n x).0 e)
  | inr e ↦ let (client, at, named) = any_sound m n l (rw e at h) in (client, Memᴰ.tail at, named)
]

any_complete :
    (m n : String) (client : TrustedClientConfig) (l : List TrustedClientConfig)
    → Memᴰ client l
    → Names m n client
    → any (matches m n) l ≡ true
any_complete m n client [] h k = elim h [ ]
any_complete m n client (x ∷ l) (Memᴰ.head e) k = rw ((matches_iff m n x).1 (subst (Names m n) e k))
any_complete m n client (x ∷ l) (Memᴰ.tail h) k = ground (arith, any_complete m n client l h k)

-- A client is trusted exactly if the allow-list is empty, or an entry of it has the client's
-- machine id or name, the shared text not being empty.
pub is_trusted_client_iff :
    (config : AppConfig) (m n : String)
    → (is_trusted_client config m n ≡ true) ↔ (
        (config.trusted_clients ≡ [])
        ⊎ ((client : TrustedClientConfig) × Memᴰ client config.trusted_clients × Names m n client))
unfolding is_trusted_client
is_trusted_client_iff config m n = by_list config.trusted_clients
  where
    by_list :
        (l : List TrustedClientConfig)
        → ((if is_empty l then true else any (matches m n) l) ≡ true)
          ↔ ((l ≡ []) ⊎ ((client : TrustedClientConfig) × Memᴰ client l × Names m n client))
    by_list [] = (λ h. inl refl, λ h. refl)
    by_list (x ∷ l) = (
      λ h. inr (any_sound m n (x ∷ l) h),
      elim [ inl e ↦ cc | inr (client, at, named) ↦ any_complete m n client (x ∷ l) at named ],
    )
