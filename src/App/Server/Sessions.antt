-- ===== src/App/Server/Sessions.antt =====
-- src/app/server.cpp and src/app/server_session.cpp: nothing in the store belongs to a client whose
-- session is over.
use mksync.Prelude.{
  ◌≡◌, refl, sym, ◌∙◌, inl, inr, ◌⊎◌, ==_iff, Bool, true, false, String, List, none, some, ok,
  arith, Result-cases, nat_key,
}
use mksync.StdMap.{find, erase}
use mksync.StdMap.Laws.{find-assign, find-erase}
use mksync.Core.Events.{ScreenInfo}
use mksync.Config.AppConfig.{AppConfig}
use mksync.Rpc.Message.{RpcMessage, hello, screens, input, ping, pong, error}
use mksync.App.Screens.{
  Endpoint, ScreenStore, erase_endpoint, remove_screen, forget_owner, remember_owner,
}
use mksync.App.Screens.Register
use mksync.App.Screens.Register.{register_one, register_from}
use mksync.App.Session.{owner_id_of, handshake}
use mksync.App.Input.{Services, set_capture}
use mksync.App.Server.{
  Server, awaiting_hello, running, initial, accepted, said_hello, wrote, drained, read, ended,
  captured, stopped, started, stepped, register_screens_as, register_screens,
  remove_endpoint_screens, on_closed, start, stop, accept, receive_hello, publish_sender, receive,
  capture_event, Step, Reach,
}
use mksync.App.Server.Backing.{
  All-All, All-map, AreBacked, IsOwned, IsRunning, assign-IsRunning, erase-IsRunning,
  erase_endpoint-AreBacked, erased-AreOther, moved-AreBacked, register_from-AreBacked,
  register_from_owners,
}

-- The screens and the remembered owners of clients belong to sessions in their loops.
pub record IsTracked {Sender : Type 0} (s : Server Sender) : Type 0 where
  pub backed : AreBacked s.sessions s.store.screens
  pub owned : IsOwned s.sessions s.store.endpoint_owners

module _ {Sender : Type 0} (services : Services Sender) (format : Endpoint → String) where
  register_as-IsTracked :
      (s : Server Sender) (e : Endpoint) (o : String) (infos : List ScreenInfo) (local : Bool)
      → (local ≡ true) ⊎ IsRunning s.sessions e
      → IsTracked s
      → IsTracked (register_screens_as services format s e o infos local)
  unfolding register_screens_as Register.register_screens remove_screen
  register_as-IsTracked s e o infos local h t = record {
    backed =
        register_from-AreBacked s.sessions e local h _ o 0 infos _ false
          (erase_endpoint-AreBacked s.sessions e s.store.screens t.backed);
    owned =
        rw
          (register_from_owners (remove_screen s.store e s.router.active_screen).0 e o 0 infos _
            local false)
          t.owned;
  }

  -- The end of a session that was never running, or is running now.
  closed-IsTracked :
      (s : Server Sender) (e : Endpoint)
      → AreBacked s.sessions s.store.screens
      → ((d : Endpoint) (o : String)
          → (d ≡ e → ⊥)
          → find d s.store.endpoint_owners ≡ some o
          → find d s.sessions ≡ some (running o))
      → IsTracked (on_closed services format s e)
  unfolding on_closed remove_endpoint_screens remove_screen forget_owner
  closed-IsTracked s e b owned = record {
    backed =
        moved-AreBacked s.sessions (erase e s.sessions) (erase_endpoint e s.store.screens)
          (All-map _ _ _ (λ n. erase-IsRunning s.sessions e n.endpoint)
            (erased-AreOther e s.store.screens))
          (erase_endpoint-AreBacked s.sessions e s.store.screens b);
    owned = λ d o h. ground (
      arith,
      find-erase e d s.store.endpoint_owners,
      find-erase e d s.sessions,
      ==_iff e d,
      owned d o,
    );
  }

  -- The handshake remembers the owner of its session, and that only.
  handshake_owners :
      (store : ScreenStore) (e : Endpoint) (m : RpcMessage)
      → ((handshake format store e m).0.screens ≡ store.screens)
        × ((d : Endpoint)
            → (d ≡ e → ⊥)
            → find d (handshake format store e m).0.endpoint_owners ≡ find d store.endpoint_owners)
        × ((o : String)
            → (handshake format store e m).1 ≡ ok o
            → find e (handshake format store e m).0.endpoint_owners ≡ some o)
  unfolding handshake remember_owner
  handshake_owners store e (hello m) =
      let o = owner_id_of format e m in
      (
        ground arith,
        (λ d h. ground (arith, find-assign e d o store.endpoint_owners, ==_iff e d)),
        (λ p h. ground (arith, find-assign e e o store.endpoint_owners, ==_iff e e)),
      )
  handshake_owners store e (screens l) = (refl, (λ d h. refl), (λ o h. cc))
  handshake_owners store e (input v) = (refl, (λ d h. refl), (λ o h. cc))
  handshake_owners store e (ping p) = (refl, (λ d h. refl), (λ o h. cc))
  handshake_owners store e (pong p) = (refl, (λ d h. refl), (λ o h. cc))
  handshake_owners store e (error t) = (refl, (λ d h. refl), (λ o h. cc))

  -- A session in its handshake becomes one in its loops, or is over.
  hello-IsTracked :
      (s : Server Sender) (e : Endpoint) (m : RpcMessage)
      → find e s.sessions ≡ some awaiting_hello
      → IsTracked s
      → IsTracked (receive_hello services format s e m)
  unfolding receive_hello
  hello-IsTracked s e m h t =
      let (nodes, others, mine) = handshake_owners s.store e m in
      let waits : IsRunning s.sessions e → ⊥ = λ (o, r). ground (arith, h, r) in
      elim (Result-cases (handshake format s.store e m).1) [
        | inl (o, ok_o) ↦
            rw (ok_o, receive_hello)
              (record {
                backed = rw nodes (
                    moved-AreBacked s.sessions _ s.store.screens
                      (All-All _ s.store.screens
                        (λ n. assign-IsRunning s.sessions e n.endpoint (running o) waits))
                      t.backed);
                owned = λ d p q. ground (
                  arith,
                  find-assign e d (running o) s.sessions,
                  ==_iff e d,
                  others d,
                  mine o ok_o,
                  t.owned d p,
                  q,
                );
              })
        | inr (x, err_x) ↦
            rw (err_x, receive_hello)
              (closed-IsTracked (record s { store = (handshake format s.store e m).0 }) e
                (rw nodes t.backed) (λ d o ne q. t.owned d o (sym (others d ne) ∙ q)))
      ]

  receive-IsTracked :
      (s : Server Sender) (e : Endpoint) (o : String) (m : RpcMessage)
      → IsRunning s.sessions e
      → IsTracked s
      → IsTracked (receive services format s e o m)
  unfolding receive
  receive-IsTracked s e o (screens l) h t = register_as-IsTracked s e o l false (inr h) t
  receive-IsTracked s e o (hello m) h t = t
  receive-IsTracked s e o (input v) h t = t
  receive-IsTracked s e o (ping p) h t = t
  receive-IsTracked s e o (pong p) h t = t
  receive-IsTracked s e o (error x) h t = t

  accept-IsTracked :
      (s : Server Sender) (e : Endpoint)
      → find e s.sessions ≡ none
      → IsTracked s
      → IsTracked (accept services format s e)
  unfolding accept
  accept-IsTracked s e h t =
      let rests : IsRunning s.sessions e → ⊥ = λ (o, r). ground (arith, h, r) in
      record {
        backed =
            moved-AreBacked s.sessions _ s.store.screens
              (All-All _ s.store.screens
                (λ n. assign-IsRunning s.sessions e n.endpoint awaiting_hello rests))
              t.backed;
        owned = λ d p q.
            ground (arith, find-assign e d awaiting_hello s.sessions, ==_iff e d, t.owned d p q, h);
      }

  Step-IsTracked : (s t : Server Sender) → Step services format s t → IsTracked s → IsTracked t
  unfolding publish_sender capture_event stop
  Step-IsTracked s _ (accepted e h) t = accept-IsTracked s e h t
  Step-IsTracked s _ (said_hello e m h) t = hello-IsTracked s e m h t
  Step-IsTracked s _ (wrote e o sender h) t = record { backed = t.backed; owned = t.owned }
  Step-IsTracked s _ (drained e sender later h) t = record { backed = t.backed; owned = t.owned }
  Step-IsTracked s _ (read e o m h typed) t = receive-IsTracked s e o m (o, h) t
  Step-IsTracked s _ (ended e p h) t = closed-IsTracked s e t.backed (λ d o ne q. t.owned d o q)
  Step-IsTracked s _ (captured event) t = record { backed = t.backed; owned = t.owned }
  Step-IsTracked s _ stopped t = record { backed = t.backed; owned = t.owned }

  -- In every state that a server reaches, each screen is one of the host or belongs to a client whose
  -- session is in its loops, and each remembered owner id is that of such a session.
  pub Reach-IsTracked :
      (config : AppConfig) (path : String) (s : Server Sender)
      → Reach services format config path s
      → IsTracked s
  unfolding start register_screens find
  Reach-IsTracked config path _ (started e l typed) =
      register_as-IsTracked
        (record (initial config path) {
          router =
              set_capture (initial {Sender = Sender} config path).store (initial config path).router
                true;
        })
        e _ l true (inl refl) (record { backed = tt; owned = λ d o q. absurd (ground (arith, q)) })
  Reach-IsTracked config path t (stepped r step) =
      Step-IsTracked _ t step (Reach-IsTracked config path _ r)
