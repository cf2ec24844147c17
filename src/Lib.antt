-- ===== src/Lib.antt =====
-- Verification of the BnB game server (TeamOFYServer): its output queue, its file commits, its
-- rooms, its users, its shop, its price tables, its maps, and the messages of its clients.
--
-- The server reads lines from its clients; the client handler calls the room manager for what
-- happens in rooms and the user manager for accounts. The room manager answers through QueueSend,
-- which hands the bytes to the output queue of a connection. The user manager saves its tables
-- through the CSV store, which replaces several files together.
--
-- Prelude: strings as lists of bytes, numbers in decimal, maps as association lists, lists.
--   Trim (TeamOFYServer/Utils.h) is in Prelude/Text.antt.
-- CsvStore: TeamOFYServer/CsvStore.h. `encode` and `decode` are Encode and Decode, `commit` and
--   `recover` are Commit and Recover, with the number of file calls that still succeed, and
--   CsvStore/Staging.antt has Replace with the answers of its calls one by one. A file is
--   replaced at once (MoveFileExA). The fuel of `decode_entries` is the number of bytes and one
--   more: each round reads a byte.
-- Output: TeamOFYServer/SocketOutput.cpp. Output.antt has the parts that run under the mutex,
--   Output/Connection.antt the events of a connection: Enqueue, Stop, Begin, Submit and Complete,
--   and what the kernel confirms. size_t has 64 bits and wraps. Complete calls itself once when a
--   Post fails; the second call has nothing to post, so no fuel is needed.
-- Rooms: TeamOFYServer/RoomManager.cpp. Rooms/Lobby.antt has CreateRoom, EnterRoom, ExitRoom and
--   ForceExitRoomByUserId, Rooms/Match.antt the start, the deaths and the end of a match, the
--   choice of a character and of a team, Rooms/Relay.antt the chat, Rooms/Messages.antt the lists
--   that are sent. The lookups of TeamOFYServer/ClientHandler.cpp that it calls are in
--   Rooms/Clients.antt. Each operation runs under `roomsMutex` and is one step.
-- Store: TeamOFYServer/StoreData.cpp. The four loaders and lookups of the prices. The fuel of
--   `load_rows` is the number of bytes and one more: each line takes a byte.
-- Reader: the loop of HandleClient in TeamOFYServer/ClientHandler.cpp, which cuts the received bytes
--   into lines, with what a line does as a parameter. The fuel of `take_lines` is the number of
--   pending bytes and one more: each line takes a byte.
-- Maps: TeamOFYServer/MapManager.cpp, the loader of a map. The fuel of `pieces` is the number of bytes
--   and one more.
-- Users: TeamOFYServer/UserManager.cpp and UserAccount.h. Users.antt has the tables, their files and the
--   Transaction; Users/Rows.antt reads and writes a row, Users/Load.antt a file, Users/Save.antt has the
--   Save functions, Users/Register.antt RegisterUser, Users/Query.antt the login, the lookups and the
--   counts, Users/Lookup.antt what is looked up in files. A row of int fields is a list of ints, float texts are parameters (`FloatText`), and an
--   int that passes its limits goes on. A commit takes the number of file calls that succeed.
-- Sessions: LOGIN and the end of a connection in TeamOFYServer/ClientHandler.cpp, LogoutUser in
--   UserManager.cpp, AcceptClients and RemoveClient in Server.cpp, as steps of threads.
-- Shop: the lists of the shop in TeamOFYServer/ClientHandler.cpp, over the users and the prices. `Stock` is
--   what the four kinds of things differ in. Shop/Buy.antt has the BUY handlers, Shop/Equip.antt has the
--   changes of emotes, balloons and icons.
-- Play: messages inside a match in TeamOFYServer/ClientHandler.cpp, from EMO_CLICK to WATER_HIT. MOVE and the two
--   messages of balloons are in Play/Positions.antt, with floats of any type whose reading, printing and
--   arithmetic are parameters.
-- Reward: DEAD in TeamOFYServer/ClientHandler.cpp: who has won, what each user of the room gets, and the death
--   that is taken back. The float of a profile is of any type with `+=`, `-=` and `>=` as parameters, and
--   the fuel of `level_up` counts the rounds of the loop over the levels. Nobody else changes the rooms while
--   the rewards are given.
-- Dispatch: ProcessMessages in TeamOFYServer/ClientHandler.cpp, which cuts a text into messages and finds the
--   handler of each, and what HandleClient does with an exception. The handlers are a parameter. The fuel of
--   `process_messages` is the number of bytes and one more: each round takes a byte.
-- Requests: the handlers of TeamOFYServer/ClientHandler.cpp about rooms, and GET_MAP, whose shuffled indices and
--   files are arguments. Between two calls of the room manager nobody else changes the rooms.
-- Info: the requests of TeamOFYServer/ClientHandler.cpp that look something up and send it, LOBBY_MESSAGE and
--   REGISTER. The order that std::sort gives to equal totals is a parameter.
-- Characters: TeamOFYServer/CharacterStatsManager.cpp and TeamOFYServer/Player.cpp.
--
-- Not modelled: sockets, threads and the accept loop (TeamOFYServer/Server.cpp, main.cpp), log
-- output, and the composition of the handlers behind the dispatch into one function. Windows calls
-- are answers that the models take as arguments. Files are read as they are stored: without
-- carriage returns.
pub mod Prelude
pub mod CsvStore
pub mod Output
pub mod Rooms
pub mod Store
pub mod Reader
pub mod Maps
pub mod Users
pub mod Sessions
pub mod Shop
pub mod Play
pub mod Reward
pub mod Dispatch
pub mod Characters
pub mod Requests
pub mod Info
