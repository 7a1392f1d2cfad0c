-- ===== src/App/Server/Invariant.antt =====
-- src/app/server.cpp: every step of the server keeps the screens well formed and the pointer to the
-- active screen, and with it the mode of the capture, right.
use mksync.Prelude.{
  ◌≡◌, refl, subst, sym, inl, inr, Bool, true, false, String, List, some, if◌then◌else◌, arith,
  Bool-cases, Result-cases, if_rule, nat_key,
}
use mksync.Config.AppConfig.{AppConfig}
use mksync.Core.Events.{ScreenInfo}
use mksync.Rpc.Message.{RpcMessage, hello, screens, input, ping, pong, error}
use mksync.StdMap.{StdMap, assign}
use mksync.App.Screens.{Endpoint, ScreenStore, remove_screen, node_at, forget_owner, remember_owner}
use mksync.App.Screens.Invariant.{
  IsValid, AreTyped, register_screens-IsValid, remove_screen-IsValid,
}
use mksync.App.Screens.Register
use mksync.App.Input.{Services, Router, active_node, clear_active_state, set_capture}
use mksync.App.Input.Safety.{IsSafe, clear-IsSafe, set_capture-IsSafe, ensure-IsSafe}
use mksync.App.Input.Routing.{input-IsSafe}
use mksync.Core.Topology.Invariant.{empty-IsConsistent}
use mksync.App.Session.{owner_id_of, handshake}
use mksync.App.Server.{
  Server, Phase, initial, accepted, said_hello, wrote, drained, read, ended, captured, stopped,
  started, stepped, register_screens_as, register_screens, remove_endpoint_screens, on_closed,
  start, stop, accept, receive_hello, publish_sender, receive, capture_event, Step, Reach,
  IsTypedMessage,
}
use mksync.App.Server.Removal.{moved-IsSafe, remove_screen_kept, register_screens-Extends}

-- The store is well formed, and the router's pointer and capture fit it.
pub record IsSound {Sender : Type 0} (s : Server Sender) : Type 0 where
  pub valid : IsValid s.store
  pub safe : IsSafe s.store s.router

module _ {Sender : Type 0} (services : Services Sender) (format : Endpoint → String) where
  -- The router after `removeScreen`, cleared if that erased the active screen.
  after_removal-IsSafe :
      (store : ScreenStore) (r : Router Sender) (e : Endpoint)
      → IsValid store
      → IsSafe store r
      → IsSafe (remove_screen store e r.active_screen).0 (
          if (remove_screen store e r.active_screen).1
          then clear_active_state (remove_screen store e r.active_screen).0 r
          else r)
  after_removal-IsSafe store r e v s =
      if_rule (IsSafe (remove_screen store e r.active_screen).0)
        (remove_screen store e r.active_screen).1 _ _ (λ h. clear-IsSafe _ r)
        (λ h.
          moved-IsSafe store _ r
            (λ a n p q.
              subst (λ active. node_at a (remove_screen store e active).0.screens ≡ some n) (sym p)
                (remove_screen_kept store e a n v.distinct
                  (subst (λ active. (remove_screen store e active).1 ≡ false) p h) q))
            s)

  register_as-IsSound :
      (s : Server Sender) (e : Endpoint) (o : String) (infos : List ScreenInfo) (local : Bool)
      → AreTyped infos
      → IsSound s
      → IsSound (register_screens_as services format s e o infos local)
  unfolding register_screens_as
  register_as-IsSound s e o infos local t i =
      let store = (remove_screen s.store e s.router.active_screen).0 in
      let v = remove_screen-IsValid s.store e s.router.active_screen i.valid in
      let v' = register_screens-IsValid store e o infos local v t in
      record {
        valid = v';
        safe =
            ensure-IsSafe (Register.register_screens store e o infos local) v'.distinct services _
              local
              (moved-IsSafe store _ _
                (λ a n p q. register_screens-Extends store e o infos local v t a n q)
                (after_removal-IsSafe s.store s.router e i.valid i.safe));
      }

  remove-IsSound :
      (s : Server Sender) (e : Endpoint)
      → IsSound s
      → IsSound (remove_endpoint_screens services format s e)
  unfolding remove_endpoint_screens
  remove-IsSound s e i =
      let active = s.router.active_screen in
      let v = remove_screen-IsValid s.store e active i.valid in
      let safe = after_removal-IsSafe s.store s.router e i.valid i.safe in
      record {
        valid = v;
        safe = elim (Bool-cases (remove_screen s.store e active).1) [
          | inl h ↦ rw h (ensure-IsSafe _ v.distinct services _ false (clear-IsSafe _ s.router))
          | inr h ↦ rw h (
              subst
                (λ b. IsSafe (remove_screen s.store e active).0 (
                  if b
                  then clear_active_state (remove_screen s.store e active).0 s.router
                  else s.router))
                h safe)
        ];
      }

  -- What touches neither the nodes nor the grid keeps the server sound.
  owners-IsSound :
      (s : Server Sender) (owners : StdMap Endpoint String)
      → IsSound s
      → IsSound (record s { store = record (s.store) { endpoint_owners = owners } })
  owners-IsSound s owners i = record {
    valid = record {
      topology = i.valid.topology;
      distinct = i.valid.distinct;
      below = i.valid.below;
    };
    safe =
        moved-IsSafe s.store (record (s.store) { endpoint_owners = owners }) s.router (λ a n p q. q)
          i.safe;
  }

  senders-IsSound :
      (s : Server Sender) (senders : StdMap Endpoint Sender)
      → IsSound s
      → IsSound (record s { router = record (s.router) { senders = senders } })
  unfolding active_node
  senders-IsSound s senders i = record {
    valid = i.valid;
    safe = record { live = i.safe.live; mode = i.safe.mode };
  }

  sessions-IsSound :
      (s : Server Sender) (sessions : StdMap Endpoint Phase)
      → IsSound s
      → IsSound (record s { sessions = sessions })
  sessions-IsSound s sessions i = record { valid = i.valid; safe = i.safe }

  closed-IsSound :
      (s : Server Sender) (e : Endpoint) → IsSound s → IsSound (on_closed services format s e)
  unfolding on_closed forget_owner
  closed-IsSound s e i =
      sessions-IsSound _ _ (senders-IsSound _ _ (owners-IsSound _ _ (remove-IsSound s e i)))

  -- The handshake touches the remembered owners only.
  handshake_frame :
      (store : ScreenStore) (e : Endpoint) (m : RpcMessage)
      → (owners : StdMap Endpoint String) × ((handshake format store e m).0
          ≡ record store { endpoint_owners = owners })
  unfolding handshake remember_owner
  handshake_frame store e (hello m) =
      (assign e (owner_id_of format e m) store.endpoint_owners, ground arith)
  handshake_frame store e (screens l) = (store.endpoint_owners, refl)
  handshake_frame store e (input v) = (store.endpoint_owners, refl)
  handshake_frame store e (ping p) = (store.endpoint_owners, refl)
  handshake_frame store e (pong p) = (store.endpoint_owners, refl)
  handshake_frame store e (error t) = (store.endpoint_owners, refl)

  handshake-IsSound :
      (s : Server Sender) (e : Endpoint) (m : RpcMessage)
      → IsSound s
      → IsSound (record s { store = (handshake format s.store e m).0 })
  handshake-IsSound s e m i =
      let (owners, frame) = handshake_frame s.store e m in
      subst (λ store. IsSound (record s { store = store })) (sym frame) (owners-IsSound s owners i)

  hello-IsSound :
      (s : Server Sender) (e : Endpoint) (m : RpcMessage)
      → IsSound s
      → IsSound (receive_hello services format s e m)
  unfolding receive_hello
  hello-IsSound s e m i =
      let greeted = handshake-IsSound s e m i in
      elim (Result-cases (handshake format s.store e m).1) [
        | inl (o, h) ↦ rw (h, receive_hello) (sessions-IsSound _ _ greeted)
        | inr (x, h) ↦ rw (h, receive_hello) (closed-IsSound _ e greeted)
      ]

  receive-IsSound :
      (s : Server Sender) (e : Endpoint) (o : String) (m : RpcMessage)
      → IsTypedMessage m
      → IsSound s
      → IsSound (receive services format s e o m)
  unfolding receive
  receive-IsSound s e o (screens l) t i = register_as-IsSound s e o l false t i
  receive-IsSound s e o (hello m) t i = i
  receive-IsSound s e o (input v) t i = i
  receive-IsSound s e o (ping p) t i = i
  receive-IsSound s e o (pong p) t i = i
  receive-IsSound s e o (error x) t i = i

  capture-IsSound :
      (s : Server Sender) (capture : Bool)
      → IsSound s
      → IsSound (record s { router = set_capture s.store s.router capture })
  capture-IsSound s capture i = record {
    valid = i.valid;
    safe = set_capture-IsSafe s.store s.router capture i.safe;
  }

  -- Every step keeps the server sound: the store stays well formed, the pointer to the active
  -- screen never dangles, and the capture was last put in the mode that fits the active screen.
  pub Step-IsSound : (s t : Server Sender) → Step services format s t → IsSound s → IsSound t
  unfolding accept publish_sender capture_event stop
  Step-IsSound s _ (accepted e h) i = sessions-IsSound s _ i
  Step-IsSound s _ (said_hello e m h) i = hello-IsSound s e m i
  Step-IsSound s _ (wrote e o sender h) i = senders-IsSound s _ i
  Step-IsSound s _ (drained e sender later h) i = senders-IsSound s _ i
  Step-IsSound s _ (read e o m h t) i = receive-IsSound s e o m t i
  Step-IsSound s _ (ended e p h) i = closed-IsSound s e i
  Step-IsSound s _ (captured event) i = record {
    valid = i.valid;
    safe = input-IsSafe s.store i.valid.distinct services s.router event i.safe;
  }
  Step-IsSound s _ stopped i = capture-IsSound s false i

  initial-IsSound :
      (config : AppConfig) (path : String) → IsSound (initial {Sender = Sender} config path)
  initial-IsSound config path = record {
    valid = record { topology = empty-IsConsistent; distinct = tt; below = tt };
    safe = record { live = tt; mode = λ c. cc };
  }

  -- In every state that a server reaches, whatever the order of its steps, the store is well formed,
  -- the pointer to the active screen is null or points to a screen of the store, and a capture that is
  -- attached was last asked for remote control exactly if the active screen is remote.
  pub Reach-IsSound :
      (config : AppConfig) (path : String) (s : Server Sender)
      → Reach services format config path s
      → IsSound s
  unfolding start register_screens
  Reach-IsSound config path _ (started e l t) =
      register_as-IsSound _ e _ l true t
        (capture-IsSound (initial config path) true (initial-IsSound config path))
  Reach-IsSound config path t (stepped r step) =
      Step-IsSound _ t step (Reach-IsSound config path _ r)
