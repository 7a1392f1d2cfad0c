-- ===== src/App/Screens/Invariant.antt =====
-- src/app/server_screens.cpp: every operation keeps the store well formed.
use mksync.Prelude.{
  ℕ, suc, ◌≡◌, inl, inr, Bool, false, String, List, [], ◌∷◌, Option, none, ok, err, Result-cases,
  arith, All,
}
use mksync.Core.Events.{ScreenInfo}
use mksync.Core.Grid.{GridPosition, ScreenKey, TopologyScreen}
use mksync.Core.Topology
use mksync.Core.Topology.{ScreenTopology, remove_owner}
use mksync.Core.Topology.Invariant.{IsConsistent, IsTyped}
use mksync.Core.Topology.Add.{add_screen-IsConsistent}
use mksync.Core.Topology.Remove.{remove_owner-IsConsistent}
use mksync.App.Screens.{
  Endpoint, Node, ScreenStore, add_screen, remember_screen_layout, remove_screen, remove_owners,
  owner_ids, insert_node,
}
use mksync.App.Screens.Nodes.{
  IsDistinct, AreBelow, node_at_next, AreBelow-suc, insert_node-AreBelow, insert_node-IsDistinct,
  erase_endpoint-AreBelow, erase_endpoint-IsDistinct,
}
use mksync.App.Screens.Register.{register_one, register_from, register_screens}

pub record IsValid (store : ScreenStore) : Type 0 where
  pub topology : IsConsistent store.topology
  pub distinct : IsDistinct store.screens
  pub below : AreBelow store.next_address store.screens

-- Remembering a layout touches the configuration only.
pub remember_screen_layout_frame :
    (store : ScreenStore) (k : ScreenKey) (c : GridPosition)
    → ((remember_screen_layout store k c).topology ≡ store.topology)
      × ((remember_screen_layout store k c).screens ≡ store.screens)
      × ((remember_screen_layout store k c).next_address ≡ store.next_address)
unfolding remember_screen_layout
remember_screen_layout_frame store k c = ground arith

-- The node that a successful `addScreen` makes.
abbrev pub new_node : ScreenStore → Endpoint → ScreenKey → GridPosition → ScreenInfo → Bool → Node
new_node store e k c info local = record {
  address = store.next_address;
  endpoint = e;
  screen = record { endpoint = e; key = k; cell = c; local = local; info = info };
}

abbrev pub new_screen : ScreenKey → GridPosition → ScreenInfo → Bool → TopologyScreen
new_screen k c info local = record { key = k; cell = c; info = info; local = local }

module _ (store : ScreenStore) (e : Endpoint) (k : ScreenKey) (c : GridPosition) (info : ScreenInfo)
    (local : Bool) where
  -- What `addScreen` does when the topology accepts the screen.
  pub add_screen_accepted :
      (u : ScreenTopology)
      → Topology.add_screen store.topology (new_screen k c info local) ≡ ok u
      → ((add_screen store e k c info local).0.topology ≡ u)
        × ((add_screen store e k c info local).0.screens
            ≡ insert_node (new_node store e k c info local) store.screens)
        × ((add_screen store e k c info local).0.next_address ≡ suc store.next_address)
  unfolding add_screen
  add_screen_accepted u h = rw (h, add_screen) (remember_screen_layout_frame _ k c)

  pub add_screen_refused :
      (x : Topology.TopologyError)
      → Topology.add_screen store.topology (new_screen k c info local) ≡ err x
      → add_screen store e k c info local ≡ (store, none)
  unfolding add_screen
  add_screen_refused x h = rw (h, add_screen)

  pub add_screen-IsValid :
      IsValid store → IsTyped info → IsValid (add_screen store e k c info local).0
  add_screen-IsValid v typed =
      elim (Result-cases (Topology.add_screen store.topology (new_screen k c info local))) [
        | inr (x, h) ↦ rw (add_screen_refused x h) v
        | inl (u, h) ↦
            let (topology, screens, next) = add_screen_accepted u h in
            record {
              topology = rw topology (
                  add_screen-IsConsistent store.topology (new_screen k c info local) u v.topology
                    typed h);
              distinct = rw screens (
                  insert_node-IsDistinct (new_node store e k c info local) store.screens
                    (node_at_next store.next_address store.screens v.below) v.distinct);
              below =
                  rw (screens, next)
                    (insert_node-AreBelow (suc store.next_address) (new_node store e k c info local)
                      store.screens (omega arith)
                      (AreBelow-suc store.next_address store.screens v.below));
            }
      ]

abbrev pub AreTyped : List ScreenInfo → Type 0
AreTyped = All IsTyped

pub register_one-IsValid :
    (store : ScreenStore) (e : Endpoint) (o : String) (i : ℕ) (info : ScreenInfo) (p : ℕ)
    (local r : Bool)
    → IsValid store
    → IsTyped info
    → IsValid (register_one store e o i info p local r).0
unfolding register_one
register_one-IsValid store e o i info p local r v typed =
    add_screen-IsValid store e (record { owner_id = o; screen_index = i }) _ info local v typed

register_from-IsValid :
    (store : ScreenStore) (e : Endpoint) (o : String) (i : ℕ) (infos : List ScreenInfo) (p : ℕ)
    (local r : Bool)
    → IsValid store
    → AreTyped infos
    → IsValid (register_from store e o i infos p local r)
unfolding register_from
register_from-IsValid store e o i [] p local r v t = v
register_from-IsValid store e o i (info ∷ rest) p local r v t =
    let one = register_one store e o i info p local r in
    register_from-IsValid one.0 e o (suc i) rest p local one.1
      (register_one-IsValid store e o i info p local r v t.0) t.1

pub register_screens-IsValid :
    (store : ScreenStore) (e : Endpoint) (o : String) (infos : List ScreenInfo) (local : Bool)
    → IsValid store
    → AreTyped infos
    → IsValid (register_screens store e o infos local)
unfolding register_screens
register_screens-IsValid store e o infos local v t =
    register_from-IsValid store e o 0 infos _ local false v t

pub remove_owners-IsConsistent :
    (t : ScreenTopology) (ids : List String) → IsConsistent t → IsConsistent (remove_owners t ids)
unfolding remove_owners
remove_owners-IsConsistent t [] v = v
remove_owners-IsConsistent t (id ∷ ids) v =
    remove_owners-IsConsistent (remove_owner t id) ids (remove_owner-IsConsistent t id v)

pub remove_screen-IsValid :
    (store : ScreenStore) (e : Endpoint) (active : Option ℕ)
    → IsValid store
    → IsValid (remove_screen store e active).0
unfolding remove_screen
remove_screen-IsValid store e active v = record {
  topology = remove_owners-IsConsistent store.topology (owner_ids e [] store.screens) v.topology;
  distinct = erase_endpoint-IsDistinct e store.screens v.distinct;
  below = erase_endpoint-AreBelow store.next_address e store.screens v.below;
}
