-- ===== src/Lib.antt =====
-- server-game: the server of a game in which robots capture flags for their teams. Players and
-- robots talk to it over ZeroMQ sockets; it keeps the game and tells all of them its state.
--
-- How the parts interact: src/orwell/Server.cpp takes turns at two sockets (Server.antt) and hands
-- each message (src/orwell/com, Com.antt) to ProcessDecider, which calls a handler of
-- src/orwell/callbacks (Callbacks.antt). A handler reads and changes the one Game of
-- src/orwell/game (Game.antt) and sends messages. Between messages the loop steps the game, publishes
-- its state and gives the agent's commands to src/orwell/proxy (Proxy.antt), which reads and changes
-- the game through src/orwell/Application.cpp (Application.antt). The application reads the
-- configuration and starts the server and src/orwell/BroadcastServer.cpp (Broadcast.antt), which tells
-- clients where the sockets are.
--
-- Files:
-- - Base: the shared names and helpers. Key, StdMap and StdMap/Order are std::map with its order of
--   the keys, Text is std::string, Int the signed integers, Pointers the maps from names to objects.
-- - Game/Types: the members of the classes under include/orwell/game. A pointer is the place of its
--   object in the list of all objects of its class that were made, so that aliasing is as in the
--   source; a weak pointer to a player has expired when no entry of the map of the players has it. A
--   Team & of a robot can be read as long as the map of the teams has the entry.
-- - Game/Team, Game/Item, Game/Contact, Game/Roster, Game/Rules, Game/Clock, Game/Detector: the
--   operations of Team.cpp, Item.cpp and Flag.cpp, Contact.cpp, Robot.cpp and Player.cpp,
--   Clock.cpp, FlagDectector.cpp, and those of Game.cpp beside what they are about: teams in Team,
--   contacts in Contact, robots and players in Roster, start, stop and time in Rules. The names are
--   those of the source in another spelling (getNewRobotId is get_new_robot_id).
-- - Game/Sound: the invariant of the maps of Game under all its operations.
-- - Com/RawMessage, Com/Socket, Com/Url: the text of a message in Socket::send and Socket::receive; these
--   two and receiveString and sendString around ZeroMQ, of which Com/Socket.Zmq is what they call; and
--   Url.cpp. Com/Socket/Exchange.Ordered is what is taken for granted of
--   a pair of its sockets, which may be one that drops texts.
-- - Callbacks/Messages, Encode, Pings, Players, Reports, Decider: the messages, the handlers and
--   ProcessDecider::process. Callbacks/Messages.World is the game with what was sent. Callbacks/Players
--   has the robot and the video that a player is told, and whether the game starts then, described
--   apart from the code.
-- - Application/State, Options, Config, GameConfig, Consistency, Launch, Run: class Application with stop
--   and popPort; the options and defaults; the technical and the game configuration with Tokenize and
--   the ParseConfig functions; CheckParametersConsistency and ReadParameters; initServer and
--   initBroadcastServer; run. Application/State.Host is what the application reaches of its Server.
-- - Proxy/Stream: std::istringstream with its bits, as far as the proxies read from one, and ReadName
--   of Tokens.cpp. Proxy/Reply, Describe, Listing, Getting: Reply.cpp, the texts and json values of
--   the objects, List.cpp and View.cpp, Get.cpp. Proxy/Agent: the member functions of AgentProxy.
--   Proxy/Step: AgentProxy::step, and below it the commands apart from their texts. Proxy/Safe: what
--   holds of every command. Proxy/Unregistered: unregisterRobot together with ProcessRegister.
-- - Server/Loop: Server::loop around loopUntilOneMessageIsProcessed, with feedAgentProxy. The clock and
--   what arrives are given turn by turn. Server/Loop/Safe and Application/Launch/Safe follow the
--   soundness of the game through all of the program.
-- - Broadcast, Broadcast/Receiver: the answer to a client, and BroadcastServer::runBroadcastReceiver with
--   its buffer and atoi. What recvfrom comes back with is given call by call.
-- - Application/Compare, Application/Printing: operator== and operator<< on parameters, where the text
--   that boost prints for an optional value is a parameter. Application/Life: the calls that an application
--   goes through, as a relation.
-- - Callbacks/Kept: which changes the handlers of messages make, as an interface that a property of
--   games has to fill, and what is obtained by it.
-- - Tests: a small game and the theorems at it.
--
-- Results of calls: an exception that the program does not catch, a read through a pointer that leads
-- nowhere and a loop without end are errors of Base/Tests.Result. Nothing else stops a model. Three
-- loops run on fuel: search_id of Game/Roster gets one round more than there are robots, enough by
-- get_new_robot_id_total; fragments of Proxy/Stream gets two rounds more than there are bytes left,
-- enough by read_name-ends; video_range of Application/Config gets one round more
-- than its index has values, after which the index has been the same before.
--
-- Numbers: uint8_t, uint16_t, uint32_t and uint64_t are natural numbers, cut where the source lets
-- them wrap. Times and durations are signed counts of microseconds without bounds. The local time is
-- an argument of what reads the clock.
--
-- Parameters: the protobuf classes are made from a file of another repository, so the messages are
-- records of the fields that the handlers use, and the parsing of a payload is a parameter
-- (Callbacks/Decider.Externals); so are boost::lexical_cast and the order of the addresses of items.
-- Proxy/Step.Surroundings holds what a command depends on beside the source: the order in which a
-- compiler evaluates two arguments, the value of a variable that nothing was assigned to, the clock, the
-- dump of the json library and lexical_cast. Application/Options.Variables is what
-- boost::program_options stored, and Application/Config.Tree what boost::property_tree finds at a path.
--
-- Not modelled: the signals between the two processes of Application::run; logging and
-- support; the calls of ZeroMQ and of UDP sockets; main and the empty destructors of interfaces.
pub mod Base
pub mod Game
pub mod Com
pub mod Broadcast
pub mod Callbacks
pub mod Application
pub mod Proxy
pub mod Server
pub mod Tests
