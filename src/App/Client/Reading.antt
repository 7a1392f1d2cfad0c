-- ===== src/App/Client/Reading.antt =====
-- src/app/client.cpp, handleRead and handleMessage: what is injected, and in which order.
use mksync.Prelude.{◌≡◌, refl, Bool, true, false, List, [], ◌∷◌, if◌then◌else◌, arith}
use mksync.Core.Events.{InputEvent}
use mksync.Rpc.Message.{RpcMessage, hello, screens, input, ping, pong, error}
use mksync.App.Client.{Client, handle_message, handle_read, read_failed, inject_failed}

-- The input events of some messages, in order.
abbrev pub inputs : List RpcMessage → List InputEvent
inputs [] = []
inputs (input e ∷ l) = e ∷ inputs l
inputs (hello m ∷ l) = inputs l
inputs (screens s ∷ l) = inputs l
inputs (ping p ∷ l) = inputs l
inputs (pong p ∷ l) = inputs l
inputs (error t ∷ l) = inputs l

-- An injector fed with the events, one after the other, up to the first that it does not take.
abbrev pub feed :
    (List InputEvent → InputEvent → Bool)
    → List InputEvent
    → List InputEvent
    → List InputEvent × Bool
feed takes done [] = (done, true)
feed takes done (e ∷ l) =
    let later = feed takes (e ∷ done) l in if takes done e then later else (done, false)

-- Whatever messages arrive, the client injects their input events and nothing else, in order, up to
-- the first that the injector does not take; there it stops with that error, and with the read's
-- error otherwise.
pub handle_read-feed :
    (takes : List InputEvent → InputEvent → Bool) (c : Client) (l : List RpcMessage)
    → ((handle_read takes c l).0.injected ≡ (feed takes c.injected (inputs l)).0)
      × ((handle_read takes c l).1
          ≡ (if (feed takes c.injected (inputs l)).1 then read_failed else inject_failed))
unfolding handle_read handle_message
handle_read-feed takes c [] = (refl, refl)
handle_read-feed takes c (input e ∷ l) =
    let (c', r) = handle_message takes c (input e) in
    let (sent, stop) = handle_read-feed takes c' l in ground (arith, sent, stop)
handle_read-feed takes c (hello m ∷ l) = handle_read-feed takes c l
handle_read-feed takes c (screens s ∷ l) = handle_read-feed takes c l
handle_read-feed takes c (ping p ∷ l) = handle_read-feed takes c l
handle_read-feed takes c (pong p ∷ l) = handle_read-feed takes c l
handle_read-feed takes c (error t ∷ l) = handle_read-feed takes c l
