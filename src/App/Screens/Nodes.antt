-- ===== src/App/Screens/Nodes.antt =====
-- src/app/server_screens.cpp: the multimap of screens, looked up by key and by address.
use mksync.Prelude.{
  ℕ, suc, ◌<◌, ◌≡◌, refl, inl, ◌==◌, ◌⊎◌, true, false, List, [], ◌∷◌, Option, none, some,
  if◌then◌else◌, arith, ◌⊎◌,
}
use mksync.Core.Grid.{ScreenKey, screen_key_eq, screen_key_eq_iff}
use mksync.App.Screens.{
  Endpoint, Node, insert_node, erase_endpoint, find_node, node_at, ScreenStore, find_screen,
  first_local, first_local_screen,
}

-- No two nodes share an address, and all are below the next one.
abbrev pub IsDistinct : List Node → Type 0
IsDistinct [] = Unit
IsDistinct (n ∷ rest) = (node_at n.address rest ≡ none) × IsDistinct rest

abbrev pub AreBelow : ℕ → List Node → Type 0
AreBelow next [] = Unit
AreBelow next (n ∷ rest) = (n.address < next) × AreBelow next rest

pub node_at_next : (next : ℕ) (l : List Node) → AreBelow next l → node_at next l ≡ none
unfolding node_at
node_at_next next [] b = refl
node_at_next next (n ∷ l) b = ground (arith, node_at_next next l b.1)

pub AreBelow-suc : (next : ℕ) (l : List Node) → AreBelow next l → AreBelow (suc next) l
AreBelow-suc next [] b = tt
AreBelow-suc next (n ∷ l) b = (omega arith, AreBelow-suc next l b.1)

pub insert_node-AreBelow :
    (next : ℕ) (n : Node) (l : List Node)
    → n.address < next
    → AreBelow next l
    → AreBelow next (insert_node n l)
unfolding insert_node
insert_node-AreBelow next n [] h b = (h, tt)
insert_node-AreBelow next n (m ∷ l) h b = ground (arith, insert_node-AreBelow next n l h b.1)

pub node_at-insert_node :
    (a : ℕ) (n : Node) (l : List Node)
    → node_at n.address l ≡ none
    → node_at a (insert_node n l) ≡ (if n.address == a then some n else node_at a l)
unfolding node_at insert_node
node_at-insert_node a n [] h = refl
node_at-insert_node a n (m ∷ l) h = ground (arith, node_at-insert_node a n l)

pub insert_node-IsDistinct :
    (n : Node) (l : List Node)
    → node_at n.address l ≡ none
    → IsDistinct l
    → IsDistinct (insert_node n l)
unfolding node_at insert_node
insert_node-IsDistinct n [] h d = (refl, tt)
insert_node-IsDistinct n (m ∷ l) h d =
    ground (arith, node_at-insert_node m.address n l, insert_node-IsDistinct n l)

pub erase_endpoint-AreBelow :
    (next : ℕ) (e : Endpoint) (l : List Node) → AreBelow next l → AreBelow next (erase_endpoint e l)
unfolding erase_endpoint
erase_endpoint-AreBelow next e [] b = tt
erase_endpoint-AreBelow next e (m ∷ l) b = ground (arith, erase_endpoint-AreBelow next e l b.1)

abbrev pub at_other : Endpoint → Option Node → Option Node
at_other e none = none
at_other e (some n) = if n.endpoint == e then none else some n

pub node_at-erase_endpoint :
    (a : ℕ) (e : Endpoint) (l : List Node)
    → IsDistinct l
    → node_at a (erase_endpoint e l) ≡ at_other e (node_at a l)
unfolding node_at erase_endpoint
node_at-erase_endpoint a e [] d = refl
node_at-erase_endpoint a e (m ∷ l) d = ground (arith, node_at-erase_endpoint a e l d.1)

pub erase_endpoint-IsDistinct :
    (e : Endpoint) (l : List Node) → IsDistinct l → IsDistinct (erase_endpoint e l)
unfolding erase_endpoint
erase_endpoint-IsDistinct e [] d = tt
erase_endpoint-IsDistinct e (m ∷ l) d =
    ground (arith, node_at-erase_endpoint m.address e l d.1, erase_endpoint-IsDistinct e l d.1)

-- The nodes by key.
pub find_node-insert_node :
    (k : ScreenKey) (n : Node) (l : List Node)
    → find_node n.key l ≡ none
    → find_node k (insert_node n l) ≡ (if screen_key_eq n.key k then some n else find_node k l)
unfolding find_node insert_node
find_node-insert_node k n [] h = refl
find_node-insert_node k n (m ∷ l) h = ground (
  arith,
  screen_key_eq_iff n.key k,
  screen_key_eq_iff m.key k,
  screen_key_eq_iff m.key n.key,
  find_node-insert_node k n l,
)

-- A node that was there stays the first of its key, or its key is that of the new node.
pub find_node-insert_node_other :
    (k : ScreenKey) (n : Node) (l : List Node)
    → screen_key_eq n.key k ≡ false
    → find_node k (insert_node n l) ≡ find_node k l
unfolding find_node insert_node
find_node-insert_node_other k n [] h = rw h
find_node-insert_node_other k n (m ∷ l) h = ground (arith, find_node-insert_node_other k n l h)

pub find_node-erase_endpoint :
    (k : ScreenKey) (e : Endpoint) (n : Node) (l : List Node)
    → find_node k l ≡ some n
    → (n.endpoint == e) ≡ false
    → find_node k (erase_endpoint e l) ≡ some n
unfolding find_node erase_endpoint
find_node-erase_endpoint k e n [] h o = cc
find_node-erase_endpoint k e n (m ∷ l) h o = ground (arith, find_node-erase_endpoint k e n l)

pub key_of_find_node :
    (k : ScreenKey) (n : Node) (l : List Node) → find_node k l ≡ some n → n.key ≡ k
unfolding find_node
key_of_find_node k n [] h = cc
key_of_find_node k n (m ∷ l) h = ground (arith, screen_key_eq_iff m.key k, key_of_find_node k n l)

-- What `find_screen` and `first_local_screen` return is a node of the store.
node_at-find_node :
    (k : ScreenKey) (n : Node) (l : List Node)
    → IsDistinct l
    → find_node k l ≡ some n
    → node_at n.address l ≡ some n
unfolding node_at find_node
node_at-find_node k n [] d h = cc
node_at-find_node k n (m ∷ l) d h = ground (arith, node_at-find_node k n l d.1)

pub node_at-find_screen :
    (store : ScreenStore) (k : ScreenKey) (n : Node)
    → IsDistinct store.screens
    → find_screen store k ≡ some n
    → node_at n.address store.screens ≡ some n
unfolding find_screen
node_at-find_screen store k n d h = node_at-find_node k n store.screens d h

pub node_at-first_local :
    (selected : Option Node) (n : Node) (l : List Node)
    → IsDistinct l
    → first_local selected l ≡ some n
    → (selected ≡ some n) ⊎ ((node_at n.address l ≡ some n) × (n.local ≡ true))
unfolding node_at first_local
node_at-first_local selected n [] d h = inl h
node_at-first_local selected n (m ∷ l) d h =
    ground (arith, node_at-first_local selected n l d.1, node_at-first_local (some m) n l d.1)

pub node_at-first_local_screen :
    (store : ScreenStore) (n : Node)
    → IsDistinct store.screens
    → first_local_screen store ≡ some n
    → node_at n.address store.screens ≡ some n
unfolding first_local_screen
node_at-first_local_screen store n d h =
    ground (arith, node_at-first_local none n store.screens d h)

pub first_local_screen_local :
    (store : ScreenStore) (n : Node)
    → IsDistinct store.screens
    → first_local_screen store ≡ some n
    → n.local ≡ true
unfolding first_local_screen
first_local_screen_local store n d h = ground (arith, node_at-first_local none n store.screens d h)
