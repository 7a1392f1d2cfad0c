-- ===== src/App/Server/Ending.antt =====
-- src/app/server_session.cpp and src/app/server.cpp: what a session leaves behind when it ends.
use mksync.Prelude.{
  ◌≡◌, ◌≢◌, refl, inl, inr, ==_iff, ◌==◌, Bool, true, not, ◌&&◌, ◌++◌, String, str_eq, str_eq_iff,
  List, [], ◌∷◌, none, some, arith, All, any, Bool-cases, nat_key, if_rule, if◌then◌else◌,
}
use mksync.StdMap.{find}
use mksync.Core.Grid.{GridPosition, ScreenKey, position_key, screen_key}
use mksync.Core.Topology.{ScreenTopology, remove_owner}
use mksync.Core.Topology.Invariant.{IsConsistent}
use mksync.Core.Topology.Remove.{find_screen-remove_owner}
use mksync.App.Screens.{Endpoint, Node, owner_ids, remove_owners, remove_screen, forget_owner}
use mksync.App.Screens.Invariant.{remove_owners-IsConsistent}
use mksync.App.Input.{Services}
use mksync.App.Server.{Server, remove_endpoint_screens, on_closed}
use mksync.App.Server.Backing.{erased-AreOther, find_erased}

-- No screen and no cell of an owner is in the topology.
abbrev pub IsGone : String → ScreenTopology → Type 0
IsGone owner t =
    ((k : ScreenKey) → k.owner_id ≡ owner → find k t.screens ≡ none)
    × ((c : GridPosition) (k : ScreenKey) → find c t.cells ≡ some k → k.owner_id ≢ owner)

any-snoc :
    (p : String → Bool) (ids : List String) (id : String)
    → any p ids ≡ true
    → any p (ids ++ id ∷ []) ≡ true
any-snoc p [] id h = absurd (cc h)
any-snoc p (i ∷ ids) id h = ground (arith, h, any-snoc p ids id)

any-last :
    (p : String → Bool) (ids : List String) (id : String)
    → p id ≡ true
    → any p (ids ++ id ∷ []) ≡ true
any-last p [] id h = ground (arith, h)
any-last p (i ∷ ids) id h = ground (arith, any-last p ids id h)

-- The ids once a node has been seen.
abbrev next_ids : Endpoint → List String → Node → List String
next_ids e ids n =
    if n.endpoint == e && not (any (str_eq n.key.owner_id) ids)
    then ids ++ n.key.owner_id ∷ []
    else ids

owner_ids-keeps :
    (e : Endpoint) (o : String) (l : List Node) (ids : List String)
    → any (str_eq o) ids ≡ true
    → any (str_eq o) (owner_ids e ids l) ≡ true
unfolding owner_ids
owner_ids-keeps e o [] ids h = h
owner_ids-keeps e o (n ∷ l) ids h = owner_ids-keeps e o l (next_ids e ids n) (
    if_rule (λ (i : List String). any (str_eq o) i ≡ true)
      (n.endpoint == e && not (any (str_eq n.key.owner_id) ids)) _ _
      (λ b. any-snoc (str_eq o) ids n.key.owner_id h) (λ b. h))

owner_ids-All :
    (e : Endpoint) (l : List Node) (ids : List String)
    → All (λ n. n.endpoint ≡ e → any (str_eq n.key.owner_id) (owner_ids e ids l) ≡ true) l
unfolding owner_ids
owner_ids-All e [] ids = tt
owner_ids-All e (n ∷ l) ids = (
  λ h. owner_ids-keeps e n.key.owner_id l (next_ids e ids n) (
      if_rule (λ (i : List String). any (str_eq n.key.owner_id) i ≡ true)
        (n.endpoint == e && not (any (str_eq n.key.owner_id) ids)) _ _
        (λ b.
          any-last (str_eq n.key.owner_id) ids n.key.owner_id
            ((str_eq_iff n.key.owner_id n.key.owner_id).1 refl))
        (λ b. ground (arith, b, ==_iff n.endpoint e, h))),
  owner_ids-All e l (next_ids e ids n),
)

gone_stays :
    (k : ScreenKey) (t : ScreenTopology) (ids : List String)
    → find k t.screens ≡ none
    → find k (remove_owners t ids).screens ≡ none
unfolding remove_owners
gone_stays k t [] h = h
gone_stays k t (id ∷ ids) h =
    gone_stays k (remove_owner t id) ids (ground (arith, h, find_screen-remove_owner t id k))

remove_owners_gone :
    (k : ScreenKey) (t : ScreenTopology) (ids : List String)
    → any (str_eq k.owner_id) ids ≡ true
    → find k (remove_owners t ids).screens ≡ none
unfolding remove_owners
remove_owners_gone k t [] h = absurd (cc h)
remove_owners_gone k t (id ∷ ids) h = elim (Bool-cases (str_eq k.owner_id id)) [
  | inl b ↦
      gone_stays k (remove_owner t id) ids (ground (arith, b, find_screen-remove_owner t id k))
  | inr b ↦ remove_owners_gone k (remove_owner t id) ids (ground (arith, h, b))
]

remove_owners-IsGone :
    (t : ScreenTopology) (o : String) (ids : List String)
    → IsConsistent t
    → any (str_eq o) ids ≡ true
    → IsGone o (remove_owners t ids)
remove_owners-IsGone t o ids v h = (
  λ k e. remove_owners_gone k t ids (rw e h),
  λ c k p e.
      let (s, there, at) = (remove_owners-IsConsistent t ids v).owned c k p in
      absurd (cc (there, remove_owners_gone k t ids (rw e h))),
)

All-IsGone :
    (e : Endpoint) (t : ScreenTopology) (ids : List String) (l : List Node)
    → IsConsistent t
    → All (λ n. n.endpoint ≡ e → any (str_eq n.key.owner_id) ids ≡ true) l
    → All (λ n. n.endpoint ≡ e → IsGone n.key.owner_id (remove_owners t ids)) l
All-IsGone e t ids [] v a = tt
All-IsGone e t ids (n ∷ l) v a =
    (λ h. remove_owners-IsGone t n.key.owner_id ids v (a.0 h), All-IsGone e t ids l v a.1)

-- After a session has ended, in whatever phase, no screen, sender, owner id or session of its
-- endpoint is left; and where the topology was consistent, no screen and no cell in it has an owner
-- that a screen of the endpoint had.
pub on_closed_leaves_nothing :
    {Sender : Type 0} (services : Services Sender) (format : Endpoint → String) (s : Server Sender)
    (e : Endpoint)
    → IsConsistent s.store.topology
    → All
        (λ n. n.endpoint ≡ e → IsGone n.key.owner_id (on_closed services format s e).store.topology)
        s.store.screens
      × All (λ n. n.endpoint ≡ e → ⊥) (on_closed services format s e).store.screens
      × (find e (on_closed services format s e).router.senders ≡ none)
      × (find e (on_closed services format s e).store.endpoint_owners ≡ none)
      × (find e (on_closed services format s e).sessions ≡ none)
unfolding on_closed remove_endpoint_screens remove_screen forget_owner
on_closed_leaves_nothing services format s e v = (
  All-IsGone e s.store.topology (owner_ids e [] s.store.screens) s.store.screens v
      (owner_ids-All e s.store.screens []),
  erased-AreOther e s.store.screens,
  find_erased e _,
  find_erased e _,
  find_erased e _,
)
