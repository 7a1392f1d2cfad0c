-- ===== src/App/Server/Removal.antt =====
-- src/app/server.cpp, registerScreens and removeEndpointScreens: the pointer to the active screen
-- while the nodes of an endpoint are erased and added.
use mksync.Prelude.{
  ℕ, suc, ◌≡◌, sym, subst, ◌∙◌, inl, inr, ◌==◌, Bool, false, ◌&&◌, String, List, [], ◌∷◌, some,
  Result-cases, arith, any, Option-cases,
}
use mksync.Core.Events.{ScreenInfo}
use mksync.Core.Grid.{ScreenKey, GridPosition}
use mksync.Core.Topology
use mksync.App.Screens.{Endpoint, Node, ScreenStore, node_at, is_at, remove_screen, add_screen}
use mksync.App.Screens.Nodes.{IsDistinct, node_at-erase_endpoint, node_at-insert_node, node_at_next}
use mksync.App.Screens.Invariant.{
  IsValid, AreTyped, new_node, new_screen, add_screen_accepted, add_screen_refused,
  register_one-IsValid,
}
use mksync.App.Screens.Register.{register_one, register_from, register_screens}
use mksync.App.Input.{Router, active_node}
use mksync.App.Input.Safety.{IsSafe, PointsInto}

-- Every pointer into the one store points to the same screen of the other.
abbrev pub Extends : ScreenStore → ScreenStore → Type 0
Extends store store' =
    (a : ℕ) (n : Node) → node_at a store.screens ≡ some n → node_at a store'.screens ≡ some n

node_not_erased :
    (e : Endpoint) (a : ℕ) (n : Node) (l : List Node)
    → any (λ m. m.endpoint == e && is_at (some a) m) l ≡ false
    → node_at a l ≡ some n
    → (n.endpoint == e) ≡ false
unfolding node_at
node_not_erased e a n [] h p = cc
node_not_erased e a n (m ∷ l) h p = ground (arith, node_not_erased e a n l)

-- A screen that `removeScreen` did not report stays where it was.
pub remove_screen_kept :
    (store : ScreenStore) (e : Endpoint) (a : ℕ) (n : Node)
    → IsDistinct store.screens
    → (remove_screen store e (some a)).1 ≡ false
    → node_at a store.screens ≡ some n
    → node_at a (remove_screen store e (some a)).0.screens ≡ some n
unfolding remove_screen
remove_screen_kept store e a n d h p =
    node_at-erase_endpoint a e store.screens d ∙ rw (p, node_not_erased e a n store.screens h p)

add_screen-Extends :
    (store : ScreenStore) (e : Endpoint) (k : ScreenKey) (c : GridPosition) (info : ScreenInfo)
    (local : Bool)
    → IsValid store
    → Extends store (add_screen store e k c info local).0
add_screen-Extends store e k c info local v a n h =
    elim (Result-cases (Topology.add_screen store.topology (new_screen k c info local))) [
      | inr (x, r) ↦ rw (add_screen_refused store e k c info local x r) h
      | inl (u, r) ↦
          let fresh = node_at_next store.next_address store.screens v.below in
          let (topology, screens, next) = add_screen_accepted store e k c info local u r in
          rw screens (
            ground
              (arith, node_at-insert_node a (new_node store e k c info local) store.screens fresh))
    ]

register_from-Extends :
    (store : ScreenStore) (e : Endpoint) (o : String) (i : ℕ) (infos : List ScreenInfo) (p : ℕ)
    (local r : Bool)
    → IsValid store
    → AreTyped infos
    → Extends store (register_from store e o i infos p local r)
unfolding register_from register_one
register_from-Extends store e o i [] p local r v t a n h = h
register_from-Extends store e o i (info ∷ rest) p local r v t a n h =
    let one = register_one store e o i info p local r in
    register_from-Extends one.0 e o (suc i) rest p local one.1
      (register_one-IsValid store e o i info p local r v t.0) t.1 a n
      (add_screen-Extends store e (record { owner_id = o; screen_index = i }) _ info local v a n h)

pub register_screens-Extends :
    (store : ScreenStore) (e : Endpoint) (o : String) (infos : List ScreenInfo) (local : Bool)
    → IsValid store
    → AreTyped infos
    → Extends store (register_screens store e o infos local)
unfolding register_screens
register_screens-Extends store e o infos local v t =
    register_from-Extends store e o 0 infos _ local false v t

-- A router that points to screens that are still there is as safe on the new store.
pub moved-IsSafe :
    {Sender : Type 0} (store store' : ScreenStore) (r : Router Sender)
    → ((a : ℕ) (n : Node)
        → r.active_screen ≡ some a
        → node_at a store.screens ≡ some n
        → node_at a store'.screens ≡ some n)
    → IsSafe store r
    → IsSafe store' r
unfolding active_node
moved-IsSafe store store' r keeps s = elim (Option-cases r.active_screen) [
  | inl e ↦ record { live = rw e tt; mode = λ c. s.mode c ∙ rw e }
  | inr (a, e) ↦
      let (n, p) : PointsInto store (some a) = subst (PointsInto store) e s.live in
      let q = keeps a n e p in
      record {
        live = subst (PointsInto store') (sym e) (n, q);
        mode = λ c. s.mode c ∙ rw (e, p, q);
      }
]
