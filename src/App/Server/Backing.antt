-- ===== src/App/Server/Backing.antt =====
-- src/app/server.cpp: the screens and the remembered owners of an endpoint as its session comes and
-- goes.
use mksync.Prelude.{
  ℕ, suc, ◌≡◌, refl, subst, sym, ◌∙◌, inl, inr, ◌⊎◌, ◌==◌, ==_iff, Bool, true, String, List, [],
  ◌∷◌, none, some, arith, All, Bool-cases, Result-cases, nat_key,
}
use mksync.StdMap.{StdMap, find, assign, erase}
use mksync.StdMap.Laws.{find-assign, find-erase}
use mksync.Core.Topology
use mksync.Core.Events.{ScreenInfo}
use mksync.Core.Grid.{ScreenKey, GridPosition}
use mksync.App.Screens.{
  Endpoint, Node, ScreenStore, insert_node, erase_endpoint, add_screen, remember_screen_layout,
}
use mksync.App.Screens.Register.{register_one, register_from}
use mksync.App.Screens.Invariant.{new_node, new_screen, add_screen_accepted, add_screen_refused}
use mksync.App.Server.{Phase, running}

-- A session for the endpoint is in its loops.
abbrev pub IsRunning : StdMap Endpoint Phase → Endpoint → Type 0
IsRunning sessions e = (o : String) × (find e sessions ≡ some (running o))

-- A screen is one of the host, or that of a client in session.
abbrev pub IsBacked : StdMap Endpoint Phase → Node → Type 0
IsBacked sessions n = (n.local ≡ true) ⊎ IsRunning sessions n.endpoint

abbrev pub AreBacked : StdMap Endpoint Phase → List Node → Type 0
AreBacked sessions = All (IsBacked sessions)

-- A remembered owner is the owner of a session.
abbrev pub IsOwned : StdMap Endpoint Phase → StdMap Endpoint String → Type 0
IsOwned sessions owners =
    (e : Endpoint) (o : String) → find e owners ≡ some o → find e sessions ≡ some (running o)

insert_node-AreBacked :
    (ss : StdMap Endpoint Phase) (n : Node) (l : List Node)
    → IsBacked ss n
    → AreBacked ss l
    → AreBacked ss (insert_node n l)
unfolding insert_node
insert_node-AreBacked ss n [] h b = (h, tt)
insert_node-AreBacked ss n (m ∷ l) h b = ground (arith, insert_node-AreBacked ss n l h b.1)

pub erase_endpoint-AreBacked :
    (ss : StdMap Endpoint Phase) (e : Endpoint) (l : List Node)
    → AreBacked ss l
    → AreBacked ss (erase_endpoint e l)
unfolding erase_endpoint
erase_endpoint-AreBacked ss e [] b = tt
erase_endpoint-AreBacked ss e (m ∷ l) b = ground (arith, erase_endpoint-AreBacked ss e l b.1)

-- What is left of an endpoint's screens belongs to other endpoints.
pub erased-AreOther :
    (e : Endpoint) (l : List Node) → All (λ n. n.endpoint ≡ e → ⊥) (erase_endpoint e l)
unfolding erase_endpoint
erased-AreOther e [] = tt
erased-AreOther e (m ∷ l) = ground (arith, ==_iff m.endpoint e, erased-AreOther e l)

pub find_erased {ℓ} :
    {V : Type ℓ} (e : Endpoint) (m : StdMap Endpoint V) → find e (erase e m) ≡ none
find_erased e m = ground (arith, find-erase e e m, ==_iff e e)

-- The sessions may change as long as the running ones of these nodes go on.
pub moved-AreBacked :
    (ss ss' : StdMap Endpoint Phase) (l : List Node)
    → All (λ n. IsRunning ss n.endpoint → IsRunning ss' n.endpoint) l
    → AreBacked ss l
    → AreBacked ss' l
moved-AreBacked ss ss' [] k b = tt
moved-AreBacked ss ss' (n ∷ l) k (inl h, b) = (inl h, moved-AreBacked ss ss' l k.1 b)
moved-AreBacked ss ss' (n ∷ l) k (inr h, b) = (inr (k.0 h), moved-AreBacked ss ss' l k.1 b)

pub All-map {ℓ ℓ' ℓ''} :
    {A : Type ℓ} (P : A → Type ℓ') (Q : A → Type ℓ'') (l : List A)
    → ((a : A) → P a → Q a)
    → All P l
    → All Q l
All-map P Q [] f h = tt
All-map P Q (a ∷ l) f h = (f a h.0, All-map P Q l f h.1)

pub All-All {ℓ ℓ'} : {A : Type ℓ} (Q : A → Type ℓ') (l : List A) → ((a : A) → Q a) → All Q l
All-All Q [] f = tt
All-All Q (a ∷ l) f = (f a, All-All Q l f)

-- A session that is over, or starts, leaves the other ones running.
pub erase-IsRunning :
    (ss : StdMap Endpoint Phase) (e d : Endpoint)
    → (d ≡ e → ⊥)
    → IsRunning ss d
    → IsRunning (erase e ss) d
erase-IsRunning ss e d h (o, r) = (o, ground (arith, find-erase e d ss, ==_iff e d))

pub assign-IsRunning :
    (ss : StdMap Endpoint Phase) (e d : Endpoint) (p : Phase)
    → (IsRunning ss e → ⊥)
    → IsRunning ss d
    → IsRunning (assign e p ss) d
assign-IsRunning ss e d p h (o, r) = elim (Bool-cases (e == d)) [
  | inl q ↦ absurd (h (o, subst (λ x. find x ss ≡ some (running o)) (sym ((==_iff e d).0 q)) r))
  | inr q ↦ (o, find-assign e d p ss ∙ rw q r)
]

-- Screens of the host, or of a session that runs, may be added.
module _ (ss : StdMap Endpoint Phase) (e : Endpoint) (local : Bool)
    (h : (local ≡ true) ⊎ IsRunning ss e) where
  add_screen-AreBacked :
      (store : ScreenStore) (k : ScreenKey) (c : GridPosition) (info : ScreenInfo)
      → AreBacked ss store.screens
      → AreBacked ss (add_screen store e k c info local).0.screens
  add_screen-AreBacked store k c info b =
      elim (Result-cases (Topology.add_screen store.topology (new_screen k c info local))) [
        | inr (x, r) ↦ rw (add_screen_refused store e k c info local x r) b
        | inl (u, r) ↦
            let (topology, nodes, next) = add_screen_accepted store e k c info local u r in
            rw nodes (insert_node-AreBacked ss (new_node store e k c info local) store.screens h b)
      ]

  pub register_from-AreBacked :
      (store : ScreenStore) (o : String) (i : ℕ) (infos : List ScreenInfo) (p : ℕ) (r : Bool)
      → AreBacked ss store.screens
      → AreBacked ss (register_from store e o i infos p local r).screens
  unfolding register_from register_one
  register_from-AreBacked store o i [] p r b = b
  register_from-AreBacked store o i (info ∷ rest) p r b =
      let one = register_one store e o i info p local r in
      register_from-AreBacked one.0 o (suc i) rest p one.1
        (add_screen-AreBacked store (record { owner_id = o; screen_index = i }) _ info b)

-- Adding screens keeps the remembered owners.
add_screen_owners :
    (store : ScreenStore) (e : Endpoint) (k : ScreenKey) (c : GridPosition) (info : ScreenInfo)
    (local : Bool)
    → (add_screen store e k c info local).0.endpoint_owners ≡ store.endpoint_owners
unfolding add_screen remember_screen_layout
add_screen_owners store e k c info local = ground arith

pub register_from_owners :
    (store : ScreenStore) (e : Endpoint) (o : String) (i : ℕ) (infos : List ScreenInfo) (p : ℕ)
    (local r : Bool)
    → (register_from store e o i infos p local r).endpoint_owners ≡ store.endpoint_owners
unfolding register_from register_one
register_from_owners store e o i [] p local r = refl
register_from_owners store e o i (info ∷ rest) p local r =
    let one = register_one store e o i info p local r in
    register_from_owners one.0 e o (suc i) rest p local one.1
    ∙ add_screen_owners store e (record { owner_id = o; screen_index = i }) _ info local
