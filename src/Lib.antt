-- ===== src/Lib.antt =====
-- LeanTTY is an SSH terminal for HarmonyOS. A window has tabs of one or two panes; a pane runs an
-- SSH session, or the local prompt while it has none; its screen is xterm in a web view. This
-- library models the program's own decisions, those that run without the platform: the policies of
-- the page in the web view, the workspace, the input and output of a pane, the messages between the
-- native side and the page, the format of what is stored, and the policies of keys, panels and the
-- guide. It also models the JavaScript around the program: the build that copies xterm into the
-- application, the checks of what is packaged, the tests of the page's functions, and the drawing
-- of the icons.
--
-- A text is a list of UTF-16 code units (`Text`), a byte array a list of numbers, and an index that
-- may be -1 an integer. A method is a function from the state to its result and the next state;
-- `null` is `none`, and an exception is a value of an error type. Operations on strings and arrays
-- (`indexOf`, `substring`, `trim`, `split`, `splice`, `parseInt`) are written out in Prelude. Where
-- the program computes with fractions, the numbers are a parameter (Prelude/Number): any ordered
-- type with the operations and the laws that finite doubles have.
--
-- The files, and the sources that they follow (paths from the root of the repository; `ets` is
-- entry/src/main/ets):
--   TerminalPolicy: entry/src/main/resources/rawfile/terminal-policy.js. Osc52 is `decodeOsc52`,
--     with `atob` and its inverse in Base64; Bell is `createBellAttentionGate`; Wheel is
--     `enqueueWheel` and `consumeWheelFrame`; Pointer is `shouldActivateLink`; Search is
--     `searchResultLabel` and `wrappedControlIndex`; Metrics is `countPerfPayloadBytes` and
--     `centerGridLeadingPadding`.
--   Workspace: ets/viewmodel/AppViewModel.ets and ets/common/types/TerminalTypes.ets. State has the
--     records and the lookups, Tabs and Panes the operations, Valid the invariant, Keeps that each
--     operation keeps it, and Session the sequences of operations.
--   Terminal: ets/model/terminal. InputParser is `TerminalInputParser.parse`, InputMachine the same
--     as an automaton, InputActions what its actions may be; OutputBuffer and Delivery are
--     `TerminalOutputBuffer`; CommandLine and LineEditing are `LocalCommandLine`.
--   Bridge: ets/model/bridge/BridgeProtocol.ets. Protocol reads and writes a message, Messages
--     makes one, RoundTrip and Accepted relate the two.
--   Transport: ets/model/bridge/TerminalBridge.ets, and `parseTerminalPacket` with the answer to a
--     packet of entry/src/main/resources/rawfile/terminal.html. Packets is a packet of output and
--     its reader, State the queue of output, Handle the other methods and the messages of the page,
--     Operations the sequences of calls, Answers what the page answers; Sound, Counts, Pressure,
--     Pump, Delivers, Runs, Flights, Turns and Drains are about these.
--   Durable: ets/model/persistence/DurableAssetFormat.ets. Utf8 is `encodeText` and `decodeText`,
--     Chunks is `split` and `combine`.
--   Interaction: ets/model/ui/InteractionPolicy.ets.
--   Prompt: ets/viewmodel/CommandBarViewModel.ets, history and completion of the local prompt.
--   Session: ets/model/ssh/SshSession.ets, ConnectionControl.ets, and `formatTarget` of
--     KnownHostsManager.ets.
--   Guide: ets/model/guide/UserGuidePolicy.ets.
--   Command: ets/model/command/CommandParser.ets. Ssh is `parseCommand`, Loop is about its loop,
--     Outcome about its result; what `SshConfig.findHost` finds is an argument.
--   Surface: ets/model/terminal/TerminalSurfaceController.ets. State and Controller are the state
--     and the operations; Completions, Calls, Handlers and Once are about the requests of
--     snapshots, Carried, Attached and Reaches about the output that the bridge is given.
--   Config: ets/model/ssh/SshConfig.ets. Glob is `globMatches`, GlobMeaning what a pattern means
--     and GlobMatches that the two agree, GlobEnds that the loop ends for every name; Source is
--     `resolveSourceHost` with what it calls, Names the names and the managed region, Hosts the
--     state and the operations; Patterns, Resolved, Lists, Edits, Keeps, Loads and Valid are about
--     these.
--   Browser: `normalizeHttpUrl` of ets/model/browser/BrowserLauncher.ets.
--   Fonts: tools/web-terminal/test-font-cell-width.mjs. Buffer reads bytes, Tables the directory of
--     the tables, Glyphs the cmap and the measures of a glyph, Check is the loop over the fonts;
--     Reads, Directory, Segments and Fits are about these.
--   Assets: tools/web-terminal/build.mjs (Build) and the first part of
--     tools/web-terminal/test-terminal-policy.mjs (Check), which checks what the build wrote;
--     Files, Published and Versions are about these.
--   Script: the other scripts that test the terminal. Policies has the assertions of
--     test-terminal-policy.mjs on the functions of TerminalPolicy; Waiting, Harness and SearchTests
--     are tools/web-terminal/test-terminal-search.mjs; Holds and Restart are about these.
--   Icons: tools/generate_icons.cjs.
--   Tests: runs on concrete inputs.
--
-- How the parts meet: the keys that a pane receives go through Terminal.InputParser to
-- Terminal.CommandLine and Prompt; what a session outputs goes through Surface to
-- Terminal.OutputBuffer until the page is attached, and then through Transport, in packets that the
-- page reads; the page and Transport send each other messages of Bridge; the page asks
-- TerminalPolicy; Workspace keeps the panes whose states and titles the sessions set. A command
-- `ssh` asks Config for a host. What Assets.Build writes is what Assets.Check tests, and
-- Script.Policies runs TerminalPolicy.
--
-- Fuel: a loop over an index runs on the length of its input, and a turn takes at least one unit or
-- byte of it; `Terminal.InputMachine.loop-feed`, `Durable.Utf8Texts.decode_loop-bytes_of`,
-- `Durable.Chunks.combine-split_loop` and `Command.Loop.scan_args-IsTurned` show that this is
-- enough. The wait of the search tests looks 151 times, since a sleep takes ten of its 1500
-- milliseconds (`Script.Waiting.wait_loop-ends`); `globMatches` takes at most as many turns as the
-- length of the name times one more than that of the pattern, the length of the pattern, and one
-- (`Config.GlobEnds.loop_ends`); the loop over the segments of a cmap runs on their count.
--
-- Parameters: `decode_utf8` is the `TextDecoder` of the browser, and `encode_utf8` a `Buffer` of
-- Node; the aliases that a completion offers, and the host that a name of the configuration finds,
-- are arguments; `lower` of Config is `toLowerCase`. The scripts have as arguments the files that
-- they read, SHA-256 and UTF-8, what `npm` installed, xterm with its search addon
-- (`Script.Harness.SearchLibrary`), and the libraries that read an SVG and draw it. `posts` of
-- Transport tells which calls of `postMessageEvent` come back; the handler of backpressure does not
-- call the bridge; what is posted arrives in order. A number in a payload of a message is exact, as
-- doubles are below 2 ^ 53.
--
-- Not modelled: views and pages, timers and logging, the native SSH library (Rust), files, the web
-- view and its page terminal.html but for the packets that it reads and answers, vendored xterm,
-- the packaging scripts, and the tests that compare the text of the sources and of the guide with
-- regular expressions. Of the core, the SSH client, SessionViewModel, the commands of keys and
-- hosts, the durable stores, the preferences and the manager of the guide are not modelled.
--
pub mod Prelude
pub mod TerminalPolicy
pub mod Workspace
pub mod Terminal
pub mod Tests
pub mod Bridge
pub mod Transport
pub mod Surface
pub mod Config
pub mod Durable
pub mod Interaction
pub mod Prompt
pub mod Session
pub mod Guide
pub mod Command
pub mod Browser
pub mod Fonts
pub mod Assets
pub mod Script
pub mod Icons
