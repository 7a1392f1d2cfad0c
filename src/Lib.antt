-- ===== src/Lib.antt =====
-- A model of mksync, which shares one keyboard and mouse between several machines. The host runs the
-- server; each client connects to it, announces its screens and injects the input it is sent.
--
-- The parts of the program, and the files that model them:
--   src/core/topology.{hpp,cpp}: Core/Grid.antt (cells, keys, points) and Core/Topology.antt, the two
--     maps of `ScreenTopology` and its operations; `addScreen` is add_screen, `mapEntryPoint` is
--     map_entry_point, and so on for the other names.
--   src/core/events.hpp, mouse.hpp, key.hpp: Core/Events.antt; Core/Key.antt and its children for the
--     usages, Core/KeyModifier.antt for the modifiers.
--   src/config/app_config.{hpp,cpp}: Config/AppConfig.antt for the values, Config/Files.antt for the
--     configuration file.
--   src/rpc/message.hpp and transport.{hpp,cpp}: Rpc/Message.antt and Rpc/Transport.antt.
--   src/app/server_screens.{hpp,cpp}: App/Screens.antt, whose record ScreenStore is the state of
--     `ServerScreenStore`, and App/Screens/Register.antt for `registerScreens`.
--   src/app/server_input.{hpp,cpp}: App/Input.antt, whose record Router is the state of
--     `ServerInputRouter`, and App/Input/Motion.antt for the handlers of an event.
--   src/app/server_session.{hpp,cpp} and server.{hpp,cpp}: App/Session.antt and App/Server.antt. A
--     server is its store, its router and the phase of each session; Step has one constructor for each
--     stretch of a coroutine between two suspension points, and Reach the states they lead to.
--   src/app/client.{hpp,cpp}: App/Client.antt; Turn is what the reader or the writer does next.
--   src/platform/backend.{hpp,cpp}: Platform/Backend.antt, and Platform/Backend/Probe.antt for the checks.
--   src/platform/wayland_keymap.hpp: Platform/Wayland/Keymap.antt, a table from usages to the names of
--     the Linux macros; Platform/KeyTable.antt has the switch on such a table.
--   src/platform/wayland.cpp: Platform/Wayland/Outputs.antt has the events of an output and the screen
--     that it makes, Position.antt the place of a pixel in the extent of all screens, Injector.antt the
--     start of the injector's objects, and Requests.antt the requests that it makes.
--   src/platform/win32_key.hpp: Platform/Win32/Keys.antt and its child Modifiers.antt.
--   src/platform/win32.cpp: Platform/Win32. Desktop.antt is the Windows API as a parameter, Monitors.antt
--     the screens, Startup.antt the constructor with its thread, Capture.antt the state of the capture
--     with the handles of its hooks, Hooks.antt the hooks and the events that they make, Injector.antt
--     the inputs of `SendInput`. Capture/Cursor.antt and Calls.antt have the operations of the capture,
--     and Capture/Runs.antt any sequence of calls and hook events.
--   src/platform/wayland_portal.cpp: Platform/Portal. Errors.antt has the error codes, Screens.antt the
--     screens of zones and regions, Points.antt the way from the pointer to a screen, Injector.antt the
--     devices and the requests of events, Injector/Session.antt the start of its session and its loop,
--     Capture.antt the signals and events of a capture whose session runs, Capture/Activation.antt any
--     sequence of them, and Probe.antt the check of the interfaces.
--   src/platform/xcb.cpp, xcb_connection.cpp: Platform/Xcb. Monitors.antt enumerates the screens,
--     Screens.antt maps points of the display to points of screens and back, Capture.antt is the state
--     of a capture with what the X server holds for it, Events.antt translates X events,
--     Keysyms.antt holds the two key tables, and Injector.antt makes XTest requests of input events.
--     Capture/Resources.antt, Grab.antt and Calls.antt have the operations of the capture, and
--     Capture/Runs.antt any sequence of calls.
-- Prelude holds what they share (tests, lists, integers of 32 bits, results), StdMap the model of
-- `std::map` as a list of entries in the order of its keys. Tests holds runs on small inputs.
--
-- The router points into the store: a node of the multimap has an address, the active screen is such
-- an address, and erasing a node takes its address out, so a dangling pointer can be told from a live
-- one. Configuration, screens and topology live in the store, which every session shares with the
-- router; the channels to the clients live in the router.
--
-- Bounds: coordinates are integers with the wrap-around of `int32_t` written out; the entry pixel is
-- computed by exact division where the source uses doubles, which agree below a product of 2 ^ 52. The
-- scan for a free cell runs on fuel, one more than there are screens, which is enough since each
-- step leaves an occupied cell behind. Endpoints are their ranks in the library's order. What a
-- checked 32-bit field may hold is a hypothesis where a theorem needs it.
--
-- The X11 capture runs in sequences of calls, each with the X server's answers as an argument, so that
-- any request may fail at any point. What the server holds is a record
-- beside the flags of the source, changed by the same calls. The macros of system headers are a
-- function of their names; a theorem that needs their values says which it takes.
--
-- The Windows API is a record of functions on a state of its own. What is documented of it, for the
-- display count of the cursor and for the hooks, is the hypothesis IsDocumented. The loops over
-- `ShowCursor` have as many rounds as their first answer asks for, and end by their tests.
--
-- Parameters: the answers of the X server and its libraries, of the capture, the injector, the
-- channels, the JSON library, the serializer, the file system, the random device and the checks of
-- the backends; of the portal its answers, what libei says of a device, and the arithmetic of doubles.
-- The loop that waits for devices runs over a list of turns, and waits on where the list ends.
--
-- Not modelled: of wayland_portal.cpp the GLib thread with its replies, the pointer barriers
-- and the start of the session of the capture, which are calls of libportal;
-- of win32.cpp the loop that dispatches messages and the window class;
-- of wayland.cpp the binding of globals, the file of the key map and the flush loop;
-- of xcb.cpp the sum of the valuators in doubles, the log of the environment and the start of the
-- injector; the formatting and serialization templates of src/refl, the command line, the user
-- interface, and logging.
pub mod Prelude
pub mod StdMap
pub mod Core
pub mod Config
pub mod Rpc
pub mod App
pub mod Platform
pub mod Tests
