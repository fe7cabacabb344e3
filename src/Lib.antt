-- ===== src/Lib.antt =====
-- F4MP: the wire protocol, the dedicated server and the client.
--
-- F4MP lets several players of one game see each other. A plugin in each client (client/src) sends
-- the state of its player over ENet to a dedicated server (server/src) and draws the others as
-- actors of the game; the server gives out ids, relays states, chat and names, and can run bots
-- that follow a player. Both sides share the message formats in shared/include/f4mp. This library
-- models the shared parts, the server and the client; the game's engine answers through parameters,
-- and what the client asks of it is recorded.
--
-- - Types.antt: shared/include/f4mp/Types.hpp, the ids and the state of a player. A `float` is its
--   32-bit pattern, an unsigned integer is a number below the bound of its type.
-- - Packet.antt: `Writer` and `Reader` of shared/include/f4mp/Packet.hpp. A read is a function from
--   a reader to a value and the reader behind it, with the sticky flag `ok`. Packet/Writing.antt,
--   Reading.antt, Exactness.antt and Safety.antt hold what a write appends, what a read takes from
--   bytes that were written, what it has read when it succeeds, and that it stays in the buffer.
-- - Protocol.antt: the messages, `Encode`, `ReadHeader` and `SanitizeName` of
--   shared/include/f4mp/Protocol.hpp (Protocol/Messages.antt, Protocol/Names.antt). `checked` is
--   the `return r.Ok()` of each `Read`: `none` where it is false. Protocol/Layout gives every
--   message its bytes, and treats the eleven messages as one family (Protocol/Layout/Kinds.antt).
-- - Server.antt: the class `Server` of server/src/Server.cpp. Server/State.antt holds its fields
--   and those of `Player`, `Bot` and `Config`; Sending.antt is `Send`, `Broadcast`, `ServerChat`
--   and `Kick`; Connections.antt is `HandleConnect` and `HandleDisconnect`; Joining.antt is
--   `HandleHello`; Chatting.antt is `HandleChat`; Handlers.antt is `HandlePlayerState`,
--   `HandleSetName` and `HandlePacket`; Bots.antt is `AddBot`, `RemoveBot` and `UpdateBots`;
--   Commands.antt is `ExecuteCommand`; Service.antt is `Start`, `Stop`, `Service` and the loop of
--   server/src/main.cpp; Launch.antt is `main` in front of the loop, and the queue of
--   server/src/Console.cpp.
-- - Ini.antt: shared/include/f4mp/Ini.hpp, on the bytes of a file; Server/Settings.antt and
--   Client/Config.antt: `Config::Load` of server/src/Config.cpp and client/src/Config.cpp.
-- - Client/Clock.antt: `ServerClock` of shared/include/f4mp/Interp.hpp; Client/Interpolation.antt:
--   its `Lerp`, `LerpAngle`, `Blend` and `SampleAt`, over any arithmetic of floats.
-- - Client/Net.antt: client/src/Net/NetClient.cpp, with the callbacks of its owner as a parameter.
-- - Client/Session.antt: client/src/Session.cpp, which owns the connection and the list of players;
--   Client/Session/Incoming.antt is `HandlePacket`, `Connect`, `Disconnect` and `Tick`, and
--   Client/Session/Commands.antt the console helpers. All readings of the clock in one call are
--   taken to be the same.
-- - Client/Remotes.antt: the list of the other players of client/src/Sync/RemotePlayers.cpp, with its
--   fields and those of a player in Client/RemoteState.antt.
--   Client/Remotes/Drawing.antt is `Update` and `UpdateOne`, which spawn, move and remove the
--   actors of a frame. The calls of client/src/Game/GameUtil.cpp are recorded in `calls`.
-- - Client/Game.antt: client/src/Game/GameUtil.cpp, with the engine as a record of its answers
--   (`Engine`): where a reference is, the player, and `SpawnPlayerClone`. Client/Game/Effects.antt
--   says what each recorded call does to references of the engine, Forms.antt what it does to
--   forms, and Restore.antt is `RestorePlayerControl`.
-- - Client/LocalPlayer.antt: client/src/Sync/LocalPlayer.cpp.
-- - Client/Prologue.antt: client/src/Game/PrologueSkip.cpp, with its state in Prologue/Phases.antt.
--   `Sight` is what one call sees of the game; the callback of the message box is the operation
--   `answer`.
-- - Client/Console.antt: client/src/Game/ConsoleCommands.cpp, `Execute` and its words;
--   Client/Console/Registration.antt is `Register` and the handler that it installs.
--   Client/Session/Printing.antt, Debug.antt (on Debug/Reading.antt) and Graph.antt are what
--   client/src/Session.cpp prints for it.
-- - Client/Plugin.antt: client/src/Main.cpp, the loading of the plugin, and the messages and frames
--   that reach the session.
-- - Roster.antt: the server and a client together, from a handshake to the list of players.
--
-- The other files hold the proofs and are named for what they prove: Server/Frame.antt (what
-- sending leaves alone), Server/Changes (the changes that can happen to the server, as a
-- relation, and the whole loop as a series of them), Server/Ids.antt and Server/Invariant (the
-- tables over such a series), Server/Everyone.antt (what every player keeps over it),
-- Server/Plausible.antt, Server/Named.antt, Server/Isolation.antt, Server/Handshake.antt,
-- Server/Joined.antt, Server/Leaving.antt, Server/Recipients.antt, Server/Flood (what the chat
-- limit lets through to another client), Server/ChatText.antt (what is passed on of a text),
-- Server/Clearing.antt, Server/Leading.antt, Client/Clock/Exact.antt,
-- Client/Interpolation/Sampling.antt, Client/Net/Soundness.antt and Kept.antt,
-- Client/Remotes/History.antt, Late.antt, Forgetting.antt, Snapshots.antt, Turns.antt,
-- Directory.antt (the list against a directory of names) and Reached.antt (the lists that
-- operations and frames lead to), Client/Session/Careful.antt, Delivery.antt and Fit (the
-- session's list is such a list), Client/Game/Spared, Client/LocalPlayer/Fits.antt,
-- Client/Prologue/Moves.antt, Progress.antt, Ending.antt and Batch.antt,
-- Client/Console/Optional.antt and Words.antt, Client/Plugin/Lifetime.antt and Fitness.antt, and
-- Roster/Introduced.antt and Mutual.antt. The tests apply the theorems to concrete packets,
-- files, servers and sessions.
--
-- A player is known by its ENet peer, a number, and the map of players is a list of players in the
-- order of its iteration. C++ leaves that order open; here a new entry comes last. A handler that
-- holds a reference into the map writes the new value of the player back to its entry
-- (`put_player`). The calls of ENet that send or close are recorded, in their order, in the field
-- `sent`; the readings of the steady clock are counted in `reads`, and the reading with a given
-- number is a parameter. The other parameters (`Env` in Server/State.antt) are the text that
-- `fmt::format` makes, whether `enet_packet_create` returns a packet, the arithmetic of `float`,
-- and the width of `unsigned long`. Log lines are left out.
--
-- The loops of the code are structural recursion. `bot remove all` runs on fuel, as many steps as
-- there are bots: each step takes one bot away. `Service` handles a list of events, the ones that
-- ENet reports during the call, and the loop of `main` runs over the list of its passes so far. The
-- counter `_nextId` has 32 bits and wraps around; the invariant of the ids is stated for fewer than
-- 2 ^ 32 - 1 events and console lines. The loops over the commands of the prologue's skip and over
-- the names behind "graph" run on fuel: one step more than there are commands left, and as many
-- steps as the text has bytes, which is enough, since each step takes a command or a byte away.
--
-- Not modelled: the registration of the plugin's listener and task; the thread that reads the
-- console of the server and the signals that end its loop; logging; ENet, fmt and spdlog, which are
-- libraries, and the engine of the game.
pub mod Base
pub mod Types
pub mod Packet
pub mod Protocol
pub mod Ini
pub mod Server
pub mod Client
pub mod Roster
mod Tests
