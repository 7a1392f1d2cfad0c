-- ===== src/App/Client/Connecting.antt =====
-- src/app/client.cpp, run: the order of what a client does.
use mksync.Prelude.{
  ◌≡◌, refl, subst, ◌⊎◌, inl, inr, ◌||◌, Bool, true, false, String, List, [], ◌∷◌, none, some,
  Result, ok, err, Bool-cases,
}
use mksync.Core.Events.{InputEvent}
use mksync.Rpc.Message.{RpcMessage, hello, screens, input, ping, pong, error}
use mksync.App.Client.{
  Client, ClientError, operation_not_supported, connect_failed, host_name_failed, write_failed,
  initialize_failed, Outside, Outcome, Action, connected, initialized, wrote, injected, hello_of,
  connect, Running, Turn, continue, announces, read_fails, reads, logged, handle_message, turn,
  run_turns, run,
}

-- The actions of a client that serves, the newest first, and whether it has announced its screens:
-- it is connected, has said hello and initialized its injector, in this order, and since then has
-- injected events and announced its screens at most once.
pub data Serves (o : Outside) (c : Client) (name : String) : Bool → List Action → Type 0 where
  readied : Serves o c name false (initialized ∷ wrote (hello_of c name) ∷ connected ∷ [])
  announced :
      {log : List Action}
      → Serves o c name false log
      → Serves o c name true (wrote (screens o.platform_screens) ∷ log)
  injects :
      {b : Bool} {log : List Action} {event : InputEvent}
      → Serves o c name b log
      → Serves o c name b (injected event ∷ log)

-- The actions of a client up to some point, the newest first.
pub data InOrder (o : Outside) (c : Client) (name : String) : List Action → Type 0 where
  begins : InOrder o c name []
  connects : InOrder o c name (connected ∷ [])
  greets : InOrder o c name (wrote (hello_of c name) ∷ connected ∷ [])
  serves : {b : Bool} {log : List Action} → Serves o c name b log → InOrder o c name log

-- Whether the writer has its turn.
abbrev pub has_announced : List Turn → Bool
has_announced [] = false
has_announced (announces ∷ turns) = true
has_announced (read_fails ∷ turns) = has_announced turns
has_announced (reads m ∷ turns) = has_announced turns

-- All actions are in order, and a client that has not given up serves.
abbrev pub GoesWell : Outside → Client → String → Bool → Outcome → Type 0
GoesWell o c name b (log, ok u) = Serves o c name b log
GoesWell o c name b (log, err e) = InOrder o c name log

module _ (takes : List InputEvent → InputEvent → Bool) (o : Outside) (c : Client)
    (name : String) where
  Outcomes : Bool → Running × Result ClientError (Unit {0}) → Type 0
  Outcomes b (r, result) = GoesWell o c name b (r.log, result)

  logged-Serves :
      (b : Bool) (m : RpcMessage) (result : Result ClientError (Unit {0})) (log : List Action)
      → Serves o c name b log
      → Serves o c name b (logged m result log)
  logged-Serves b (input event) (ok u) log s = injects s
  logged-Serves b (input event) (err e) log s = s
  logged-Serves b (hello m) result log s = s
  logged-Serves b (screens m) result log s = s
  logged-Serves b (ping m) result log s = s
  logged-Serves b (pong m) result log s = s
  logged-Serves b (error m) result log s = s

  announces-Serves :
      (turns : List Turn)
      → ((r : Running)
          → Serves o c name r.announced r.log
          → Outcomes (r.announced || has_announced turns) (run_turns takes o turns r))
      → (client : Client) (log : List Action) (b : Bool) → Serves o c name b log
      → Outcomes true (
          run_turns takes o
            (announces ∷ turns)
            (record { client = client; log = log; announced = b }))
  unfolding run_turns turn Outcomes
  announces-Serves turns later client log true s =
      later (record { client = client; log = log; announced = true }) s
  announces-Serves turns later client log false s =
      let r : Running = record { client = client; log = log; announced = false } in
      let next : Running = record {
        client = client;
        log = wrote (screens o.platform_screens) ∷ log;
        announced = true;
      } in
      elim (Bool-cases (o.writes (screens o.platform_screens))) [
        | inl w ↦
            let e : turn takes o announces r ≡ (next, ok tt) = rw (w) refl in
            rw e (later next (announced s))
        | inr w ↦
            let e : turn takes o announces r ≡ (r, err write_failed) = rw (w) refl in
            rw e (serves s)
      ]

  read-Serves :
      (turns : List Turn) (b : Bool) (next : Running) (result : Result ClientError (Unit {0}))
      → Serves o c name next.announced next.log
      → Outcomes b (run_turns takes o turns next)
      → Outcomes b (continue takes o (next, result) (run_turns takes o turns))
  unfolding Outcomes
  read-Serves turns b next (ok u) s later = later
  read-Serves turns b next (err e) s later = serves s

  run_turns-Serves :
      (turns : List Turn) (r : Running)
      → Serves o c name r.announced r.log
      → Outcomes (r.announced || has_announced turns) (run_turns takes o turns r)
  unfolding run_turns turn Outcomes
  run_turns-Serves [] r s = subst (λ b. Serves o c name b r.log) (same r.announced) s
    where
      same : (b : Bool) → b ≡ (b || false)
      same true = refl
      same false = refl
  run_turns-Serves (read_fails ∷ turns) r s = serves s
  run_turns-Serves (reads m ∷ turns) r s =
      let handled = handle_message takes r.client m in
      let next : Running = record r { client = handled.0; log = logged m handled.1 r.log } in
      let s' = logged-Serves r.announced m handled.1 r.log s in
      let later = run_turns-Serves turns next s' in
      read-Serves turns (r.announced || has_announced turns) next handled.1 s' later
  run_turns-Serves (announces ∷ turns) r s =
      subst (λ b. Outcomes b (run_turns takes o (announces ∷ turns) r)) (same r.announced)
        (announces-Serves turns (run_turns-Serves turns) r.client r.log r.announced s)
    where
      same : (b : Bool) → true ≡ (b || true)
      same true = refl
      same false = refl

  started :
      (turns : List Turn)
      → Outcomes (has_announced turns) (
          run_turns takes o turns (record {
            client = c;
            log = initialized ∷ wrote (hello_of c name) ∷ connected ∷ [];
            announced = false;
          }))
  started turns = run_turns-Serves turns _ readied

  -- The handshake gives up with its actions in order, or ends with all of them.
  connect-cases :
      (o.host_name ≡ none) ⊎ (o.host_name ≡ some name)
      → ((log : List Action) × (e : ClientError) × (connect o c ≡ (log, err e))
          × InOrder o c name log)
        ⊎ (connect o c ≡ (initialized ∷ wrote (hello_of c name) ∷ connected ∷ [], ok tt))
  unfolding connect
  connect-cases h = elim (Bool-cases o.has_injector) [
    | inr a ↦ inl ([], operation_not_supported, rw (a, connect) refl, begins)
    | inl a ↦ elim (Bool-cases o.connects) [
      | inr b ↦ inl ([], connect_failed, rw (a, connect, b) refl, begins)
      | inl b ↦ elim h [
        | inl n ↦ inl (connected ∷ [], host_name_failed, rw (a, connect, b, n) refl, connects)
        | inr n ↦ elim (Bool-cases (o.writes (hello_of c name))) [
          | inr d ↦ inl (connected ∷ [], write_failed, rw (a, connect, b, n, d) refl, connects)
          | inl d ↦ elim (Bool-cases o.initializes) [
            | inr e ↦ inl (
              wrote (hello_of c name) ∷ connected ∷ [],
              initialize_failed,
              rw (a, connect, b, n, d, e) refl,
              greets,
            )
            | inl e ↦ inr (rw (a, connect, b, n, d, e) refl)
          ]
        ]
      ]
    ]
  ]

  -- Whatever the outside answers and whatever the reader and the writer do in turn: a client connects,
  -- says hello, initializes its injector, and only then injects events and announces its screens,
  -- once at most. A client that has given up has done a start of this, and one that has not serves,
  -- and has announced its screens if the writer had its turn.
  pub run-GoesWell :
      (turns : List Turn)
      → (o.host_name ≡ none) ⊎ (o.host_name ≡ some name)
      → GoesWell o c name (has_announced turns) (run takes o turns c)
  unfolding run Outcomes
  run-GoesWell turns h = elim (connect-cases h) [
    | inl (log, e, q, i) ↦ rw q i
    | inr q ↦ rw q (started turns)
  ]
