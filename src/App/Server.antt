-- ===== src/App/Server.antt =====
-- src/app/server.cpp: the server's run, its sessions, and what each of their steps does to the
-- screens and the router.
pub mod Removal
pub mod Invariant
pub mod Backing
pub mod Sessions
pub mod Ending
use mksync.Prelude.{
  ℕ, ◌≡◌, Bool, true, false, String, List, [], Option, none, some, Result, ok, err, if◌then◌else◌,
  nat_key,
}
use mksync.Core.Topology
use mksync.Config.AppConfig.{AppConfig}
use mksync.StdMap.{StdMap, find, assign, erase}
use mksync.Core.Events.{ScreenInfo, InputEvent}
use mksync.Rpc.Message.{RpcMessage}
use mksync.App.Screens.{Endpoint, ScreenStore, remove_screen, default_owner_id, forget_owner}
use mksync.App.Screens.Register
use mksync.App.Screens.Invariant.{AreTyped}
use mksync.App.Input.{Services, Router, clear_active_state, set_capture}
use mksync.App.Input.Motion.{ensure_active_local_screen, handle_input_event}
use mksync.App.Session.{handshake, reported_screens}

-- Where the coroutine of a session stands: before its hello, or in its loops under an owner id.
pub data Phase : Type 0 where
  awaiting_hello : Phase
  running : String → Phase

pub record Server (Sender : Type 0) : Type 0 where
  pub store : ScreenStore
  pub router : Router Sender
  pub sessions : StdMap Endpoint Phase

-- A server as it is constructed.
abbrev pub initial : {Sender : Type 0} → AppConfig → String → Server Sender
initial config path = record {
  store = record {
    config = config;
    config_path = path;
    saves = [];
    screens = [];
    topology = Topology.empty;
    endpoint_owners = [];
    next_address = 0;
  };
  router = record {
    senders = [];
    has_capture = false;
    calls = [];
    active_screen = none;
    active_point = none;
    last_local_mouse = none;
    pending_local_warp = none;
  };
  sessions = [];
}

module _ {Sender : Type 0} (services : Services Sender) (format : Endpoint → String) where
  unfoldable pub register_screens_as :
      Server Sender → Endpoint → String → List ScreenInfo → Bool → Server Sender
  register_screens_as s endpoint owner_id screens local =
      let (store, removed) = remove_screen s.store endpoint s.router.active_screen in
      let router = if removed then clear_active_state store s.router else s.router in
      let store' = Register.register_screens store endpoint owner_id screens local in
      record s { store = store'; router = ensure_active_local_screen services store' router local }

  unfoldable pub register_screens :
      Server Sender → Endpoint → List ScreenInfo → Bool → Server Sender
  register_screens s endpoint screens local =
      register_screens_as s endpoint (default_owner_id format s.store endpoint local) screens local

  unfoldable pub remove_endpoint_screens : Server Sender → Endpoint → Server Sender
  remove_endpoint_screens s endpoint =
      let (store, removed) = remove_screen s.store endpoint s.router.active_screen in
      record s {
        store = store;
        router =
            if removed
            then ensure_active_local_screen services store (clear_active_state store s.router) false
            else s.router;
      }

  -- The guard of `ServerSession::run`, on every way out of it.
  unfoldable pub on_closed : Server Sender → Endpoint → Server Sender
  unfolding remove_endpoint_screens
  on_closed s endpoint =
      let s' = remove_endpoint_screens s endpoint in
      record {
        store = forget_owner s'.store endpoint;
        router = record (s'.router) { senders = erase endpoint s'.router.senders };
        sessions = erase endpoint s'.sessions;
      }

  -- `run` up to its loops: the capture, then the screens of the host.
  unfoldable pub start : Server Sender → Endpoint → List ScreenInfo → Server Sender
  start s endpoint screens =
      register_screens (record s { router = set_capture s.store s.router true }) endpoint screens
        true

  unfoldable pub stop : Server Sender → Server Sender
  stop s = record s { router = set_capture s.store s.router false }

  unfoldable pub accept : Server Sender → Endpoint → Server Sender
  accept s endpoint = record s { sessions = assign endpoint awaiting_hello s.sessions }

  -- The handshake of a session ends it or starts its loops.
  unfoldable pub receive_hello : Server Sender → Endpoint → RpcMessage → Server Sender
  receive_hello s endpoint message =
      let (store, result) = handshake format s.store endpoint message in
      let s' = record s { store = store } in
      elim result [
        | err e ↦ on_closed s' endpoint
        | ok owner ↦ record s' { sessions = assign endpoint (running owner) s'.sessions }
      ]

  -- The first part of `writeLoop`.
  unfoldable pub publish_sender : Server Sender → Endpoint → Sender → Server Sender
  publish_sender s endpoint sender = record s {
    router = record (s.router) { senders = assign endpoint sender s.router.senders };
  }

  -- One turn of `readLoop`.
  unfoldable pub receive : Server Sender → Endpoint → String → RpcMessage → Server Sender
  receive s endpoint owner message = elim (reported_screens message) [
    | none ↦ s
    | some screens ↦ register_screens_as s endpoint owner screens false
  ]

  unfoldable pub capture_event : Server Sender → InputEvent → Server Sender
  capture_event s event = record s { router = handle_input_event services s.store s.router event }

-- The screens in a message have coordinates of 32 bits.
abbrev pub IsTypedMessage : RpcMessage → Type 0
IsTypedMessage message = elim (reported_screens message) [ none ↦ Unit | some s ↦ AreTyped s ]

-- The steps of a running server. Between two of them the coroutines may interleave in any order.
pub data Step {Sender : Type 0} (services : Services Sender) (format : Endpoint → String)
    : Server Sender → Server Sender → Type 0 where
  accepted :
      {s : Server Sender} (e : Endpoint)
      → find e s.sessions ≡ none
      → Step services format s (accept services format s e)
  said_hello :
      {s : Server Sender} (e : Endpoint) (m : RpcMessage)
      → find e s.sessions ≡ some awaiting_hello
      → Step services format s (receive_hello services format s e m)
  wrote :
      {s : Server Sender} (e : Endpoint) (owner : String) (sender : Sender)
      → find e s.sessions ≡ some (running owner)
      → Step services format s (publish_sender services format s e sender)
  -- The write loop takes messages out of the channel, or drops it.
  drained :
      {s : Server Sender} (e : Endpoint) (sender later : Sender)
      → find e s.router.senders ≡ some sender
      → Step services format s (publish_sender services format s e later)
  read :
      {s : Server Sender} (e : Endpoint) (owner : String) (m : RpcMessage)
      → find e s.sessions ≡ some (running owner)
      → IsTypedMessage m
      → Step services format s (receive services format s e owner m)
  ended :
      {s : Server Sender} (e : Endpoint) (p : Phase)
      → find e s.sessions ≡ some p
      → Step services format s (on_closed services format s e)
  captured :
      {s : Server Sender} (event : InputEvent)
      → Step services format s (capture_event services format s event)
  stopped : {s : Server Sender} → Step services format s (stop services format s)

-- The states that a server with this configuration reaches once it has started.
pub data Reach {Sender : Type 0} (services : Services Sender) (format : Endpoint → String)
    (config : AppConfig) (path : String) : Server Sender → Type 0 where
  started :
      (e : Endpoint) (screens : List ScreenInfo)
      → AreTyped screens
      → Reach services format config path (start services format (initial config path) e screens)
  stepped :
      {s t : Server Sender}
      → Reach services format config path s
      → Step services format s t
      → Reach services format config path t
