-- ===== src/App/Client.antt =====
-- src/app/client.hpp and src/app/client.cpp: connecting, announcing the screens, and injecting the
-- input that the server sends.
pub mod Reading
pub mod Connecting
use mksync.Prelude.{
  ℕ, ◌≡◌, Bool, true, false, String, List, [], ◌∷◌, ◌++◌, Option, none, some, Result, ok, err,
  if◌then◌else◌,
}
use mksync.Core.Events.{ScreenInfo, InputEvent, move_event, key_event, button_event, wheel_event}
use mksync.Config.AppConfig.{AppConfig, ensure_machine_id}
use mksync.Rpc.Message.{RpcMessage, hello, screens, input, ping, pong, error, HelloMessage}

-- What stops a client.
pub data ClientError : Type 0 where
  operation_not_supported connect_failed host_name_failed write_failed initialize_failed
        inject_failed read_failed :
      ClientError

-- `injected` are the events that the injector took, newest first.
pub record Client : Type 0 where
  pub config : AppConfig
  pub last_injected_mouse_screen : Option ℕ
  pub injected : List InputEvent

-- The constructor, with the bytes of `std::random_device`.
unfoldable pub construct : List ℕ → AppConfig → Client
construct bytes config = record {
  config = ensure_machine_id bytes config;
  last_injected_mouse_screen = none;
  injected = [];
}

abbrev pub mouse_screen : Option ℕ → InputEvent → Option ℕ
mouse_screen last (move_event m) = some m.screen_index
mouse_screen last (key_event k) = last
mouse_screen last (button_event b) = last
mouse_screen last (wheel_event w) = last

-- `takes` tells whether the injector takes an event after those it took before, newest first.
unfoldable pub handle_message :
    (List InputEvent → InputEvent → Bool)
    → Client
    → RpcMessage
    → Client × Result ClientError (Unit {0})
handle_message takes c (input event) =
    if takes c.injected event
    then (
      record c {
        last_injected_mouse_screen = mouse_screen c.last_injected_mouse_screen event;
        injected = event ∷ c.injected;
      },
      ok tt,
    )
    else (c, err inject_failed)
handle_message takes c (hello m) = (c, ok tt)
handle_message takes c (screens s) = (c, ok tt)
handle_message takes c (ping p) = (c, ok tt)
handle_message takes c (pong p) = (c, ok tt)
handle_message takes c (error t) = (c, ok tt)

-- `handleRead` on the messages that arrive before the read fails.
unfoldable pub handle_read :
    (List InputEvent → InputEvent → Bool) → Client → List RpcMessage → Client × ClientError
handle_read takes c [] = (c, read_failed)
handle_read takes c (m ∷ rest) =
    let (c', result) = handle_message takes c m in
    let later = handle_read takes c' rest in elim result [ ok u ↦ later | err e ↦ (c', e) ]

-- What the client does to the world.
pub data Action : Type 0 where
  connected initialized : Action
  wrote : RpcMessage → Action
  injected : InputEvent → Action

-- How the outside answers: `host_name` is that of `gethostname`, and `writes` tells whether a write
-- succeeds.
pub record Outside : Type 0 where
  pub has_injector : Bool
  pub connects : Bool
  pub host_name : Option String
  pub writes : RpcMessage → Bool
  pub initializes : Bool
  pub platform_screens : List ScreenInfo

abbrev pub hello_of : Client → String → RpcMessage
hello_of c name = hello (record { version = 0; machine_id = c.config.machine_id; name = name })

-- The actions so far, the newest first, and how it went.
abbrev pub Outcome : Type 0
Outcome = List Action × Result ClientError (Unit {0})

-- `ILIAS_CO_TRYV`: an action that may fail, and what follows it.
abbrev pub attempt : Bool → Action → ClientError → (List Action → Outcome) → List Action → Outcome
attempt true action e next log = next (action ∷ log)
attempt false action e next log = (log, err e)

-- `run` up to the start of the reader and the writer. No answer to the hello is awaited.
unfoldable pub connect : Outside → Client → Outcome
connect o c =
    if o.has_injector
    then attempt o.connects connected connect_failed
        (λ log. elim o.host_name [
          | none ↦ (log, err host_name_failed)
          | some name ↦
              attempt (o.writes (hello_of c name)) (wrote (hello_of c name)) write_failed
                (attempt o.initializes initialized initialize_failed (λ done. (done, ok tt))) log
        ])
        []
    else ([], err operation_not_supported)

-- While the reader and the writer run: the client, the actions, the newest first, and whether the
-- writer has announced the screens.
pub record Running : Type 0 where
  pub client : Client
  pub log : List Action
  pub announced : Bool

-- What happens next: the first write of the writer, a message for the reader, or its failure.
pub data Turn : Type 0 where
  announces read_fails : Turn
  reads : RpcMessage → Turn

abbrev pub logged : RpcMessage → Result ClientError (Unit {0}) → List Action → List Action
logged (input event) (ok u) log = injected event ∷ log
logged m r log = log

module _ (takes : List InputEvent → InputEvent → Bool) (o : Outside) where
  unfoldable pub turn : Turn → Running → Running × Result ClientError (Unit {0})
  unfolding handle_message
  turn announces r =
      if r.announced
      then (r, ok tt)
      else if o.writes (screens o.platform_screens)
      then (record r { announced = true; log = wrote (screens o.platform_screens) ∷ r.log }, ok tt)
      else (r, err write_failed)
  turn (reads m) r =
      let (c, result) = handle_message takes r.client m in
      (record r { client = c; log = logged m result r.log }, result)
  turn read_fails r = (r, err read_failed)

  abbrev pub continue :
      Running × Result ClientError (Unit {0})
      → (Running → Running × Result ClientError (Unit {0}))
      → Running × Result ClientError (Unit {0})
  continue (r, ok u) next = next r
  continue (r, err e) next = (r, err e)

  -- `whenAny`: the first of the two that ends, ends both.
  unfoldable pub run_turns : List Turn → Running → Running × Result ClientError (Unit {0})
  unfolding turn
  run_turns [] r = (r, ok tt)
  run_turns (t ∷ turns) r = continue (turn t r) (run_turns turns)

  abbrev after_connect : Outcome → (List Action → Outcome) → Outcome
  after_connect (log, ok u) next = next log
  after_connect (log, err e) next = (log, err e)

  unfoldable pub run : List Turn → Client → Outcome
  unfolding connect run_turns
  run turns c = after_connect (connect o c) (λ log.
      let (r, result) = run_turns turns (record { client = c; log = log; announced = false }) in
      (r.log, result))
