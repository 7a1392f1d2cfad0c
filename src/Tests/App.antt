-- ===== src/Tests/App.antt =====
-- A server with one screen, a client that joins it, and the cursor that crosses over.
use mksync.Prelude.{◌≡◌, refl, pos, true, String, List, [], ◌∷◌, none, some, nat_key, All}
use mksync.StdMap.{find, assign, insert_sorted, emplace}
use mksync.Core.Events.{InputEvent, move_event}
use mksync.Core.Topology
use mksync.Config.AppConfig.{
  AppConfig, default_config, is_trusted_client, find_screen_layout, upsert_screen_layout,
}
use mksync.Rpc.Message.{RpcMessage, hello, screens}
use mksync.App.Screens
use mksync.App.Screens.{
  Endpoint, ScreenStore, configured_cell, remember_screen_layout, remove_screen, remember_owner,
}
use mksync.App.Screens.Register
use mksync.App.Session.{handshake}
use mksync.App.Input.{Services}
use mksync.App.Server.{
  Server, Reach, started, stepped, accepted, said_hello, wrote, read, captured, initial, start,
  accept, receive_hello, publish_sender, receive, capture_event, awaiting_hello, running, on_closed,
  register_screens, register_screens_as,
}
use mksync.App.Server.Invariant.{IsSound, Reach-IsSound}
use mksync.App.Server.Sessions.{IsTracked, Reach-IsTracked}
use mksync.App.Server.Ending.{IsGone, on_closed_leaves_nothing}
use mksync.Tests.Data.{desk_info, laptop_info, desk-IsTyped, laptop-IsTyped}

-- A channel that is never full keeps the messages sent, newest first.
abbrev Channel : Type 0
Channel = List RpcMessage

abbrev services : Services Channel
services = record { succeeds = λ calls. true; is_live = λ c. true; try_send = λ c m. some (m ∷ c) }

abbrev format : Endpoint → String
format e = "endpoint"

abbrev config : AppConfig
config = record default_config { machine_id = "mks-a" }

abbrev join : RpcMessage
join = hello (record { version = 0; machine_id = "mks-b"; name = "laptop" })

abbrev move_right : InputEvent
move_right =
    move_event
      (record { x = pos 1919; y = pos 540; screen_index = 0; delta_x = pos 5; delta_y = pos 0 })

abbrev s0 : Server Channel
s0 = start services format (initial config "") 1 (desk_info ∷ [])

abbrev s1 : Server Channel
s1 = accept services format s0 7

abbrev s2 : Server Channel
s2 = receive_hello services format s1 7 join

abbrev s3 : Server Channel
s3 = publish_sender services format s2 7 []

abbrev s4 : Server Channel
s4 = receive services format s3 7 "mks-b" (screens (laptop_info ∷ []))

abbrev s5 : Server Channel
s5 = capture_event services format s4 move_right

quiet : find 7 s0.sessions ≡ none
unfolding start register_screens register_screens_as find
quiet = refl

waits : find 7 s1.sessions ≡ some awaiting_hello
unfolding accept start register_screens register_screens_as find assign insert_sorted
waits = refl

runs : find 7 s2.sessions ≡ some (running "mks-b")
unfolding receive_hello accept start register_screens register_screens_as handshake remember_owner
    is_trusted_client Register.register_screens Register.register_from Register.register_one
    Register.place Register.repair configured_cell find_screen_layout Screens.add_screen
    Topology.add_screen remember_screen_layout remove_screen emplace find assign insert_sorted
    upsert_screen_layout
runs = refl

still_runs : find 7 s3.sessions ≡ some (running "mks-b")
unfolding publish_sender
still_runs = runs

s3_reached : Reach services format config "" s3
s3_reached =
    stepped
      (stepped (stepped (started 1 (desk_info ∷ []) (desk-IsTyped, tt)) (accepted 7 quiet))
        (said_hello 7 join waits))
      (wrote 7 "mks-b" [] runs)

s5_reached : Reach services format config "" s5
s5_reached =
    stepped
      (stepped s3_reached
        (read 7 "mks-b" (screens (laptop_info ∷ [])) still_runs (laptop-IsTyped, tt)))
      (captured move_right)

Reach-IsSound_example : IsSound s5
Reach-IsSound_example = Reach-IsSound services format config "" s5 s5_reached

Reach-IsTracked_example : IsTracked s5
Reach-IsTracked_example = Reach-IsTracked services format config "" s5 s5_reached

on_closed_leaves_nothing_example :
    All
      (λ n. n.endpoint ≡ 7 → IsGone n.key.owner_id (on_closed services format s5 7).store.topology)
      s5.store.screens
    × All (λ n. n.endpoint ≡ 7 → ⊥) (on_closed services format s5 7).store.screens
    × (find 7 (on_closed services format s5 7).router.senders ≡ none)
    × (find 7 (on_closed services format s5 7).store.endpoint_owners ≡ none)
    × (find 7 (on_closed services format s5 7).sessions ≡ none)
on_closed_leaves_nothing_example =
    on_closed_leaves_nothing services format s5 7
      (Reach-IsSound services format config "" s5 s5_reached).valid.topology
