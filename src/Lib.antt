-- ===== src/Lib.antt =====
-- A model of the flint daemon (flingd-cc): what it is made of, and what is proved of it.
--
-- The daemon lets senders launch applications on a receiver over HTTP, keeps sessions for both
-- sides, and announces itself on the network. Modelled are
--   App       flint/src/flint/application: Application and ApplicationManager, and what the
--             handlers and timers do to them. Objects live at addresses of an explicit heap
--             (App/Store); a use of a deleted object is a fault. The two classes call each other
--             through signals, which are calls here (App/Manager); App/Events has the entry
--             points, App/Phase an abstract machine of the manager, and App/Refine the proof that
--             the code implements it. A launch that is made inside another one, by a signal, takes
--             one unit of fuel: two are enough. App/Platform has Platform::launchApplication.
--   Sessions  flint/src/flint/session: Session and SessionManager. Time and the tokens of the UUID
--             generator are arguments.
--   Control   flint/src/flint/handler/ApplicationControlHandler.cpp: the HTTP requests of senders,
--             over App and Sessions. A request gives its body parsed.
--   Receiver  flint/src/flint/handler/ReceiverApplicationHandler.cpp: the messages and the timers of
--             a receiver's connection, over App and Sessions.
--   Dial      flint/src/flint/handler/DialHandler.cpp and flint/src/flint/application/DialConfig.cpp: the
--             requests for the applications that are known by name, over App. Dial/Phases has
--             them in the terms of the abstract machine.
--   System    flint/src/flint/handler/SystemControlHandler.cpp and
--             flint/src/flint/handler/DeviceDescHandler.cpp, over the fields of Platform
--             (System/Device).
--   Http      flint/src/flint/FlintServer.cpp and flint/src/handler/HttpHandler.cpp: which handler has a
--             request, over the applications, the sessions and the device together.
--   Ssdp      flint/src/discovery/ssdp/SSDPServer.cpp: the packets that are read and sent.
--   Net       flint/src/net/NetworkManager.cpp: the choice of the address among the interfaces.
--   Relay     flint/src/ws/WebsocketServer.cpp: the channel objects of senders and receivers, which
--             live at the numbers of their sessions, and the messages between them.
--   Peers     flint/src/peer/PeerServer.cpp: the peers, the messages that are kept for them, and what the
--             sessions' signals do (Peers/Server); Peers/Steps has them as events, and Peers/Resources
--             the connection for the resource of a session. Url has flint/src/http/UrlParser.cpp.
--   Mdns      flint/src/discovery/mdns: Reader, Writer, Composer, the packets of MDNS.cpp and the
--             answer of MDNSServer. vos::Buffer is a record of calls with their laws (Mdns/Buffer).
--             A name is read with fuel for the rounds of the loop of getLabel: one more than the
--             packet has bytes is enough where no byte has the mark of a pointer.
--   Media     sdk/receiver/src/media of the receiver SDK: MediaInfo (Media/Info), what MediaManager
--             writes (Media/Writer) and does (Media/Manager), and the requests it answers
--             (Media/Requests, Media/Answers).
--   Sdk       sdk/receiver/src: FlintReceiverManager (Sdk/Manager), its channels (Sdk/Channel), and the bus
--             manager with its buses (Sdk/Bus). What is posted to the io_service is a list of tasks in
--             the state. Sdk/Daemon puts it together with Receiver, whose messages it gives as JSON
--             by Receiver/Texts.
--   StdMap    std::map with text keys.
-- Base has what these share.
--
-- Third-party code (boost, rapidjson, websocketpp) is a parameter; the builds are Release ones,
-- without the assertions of rapidjson: a member that is missing is read as null, and to read of a value
-- what it is not is undefined, and a fault. The close of websocketpp may throw; it is taken not to.
-- boost::iequals is an equivalence that is given. The slots of an application are
-- connected once, when it is launched; Peers counts how often a slot is connected.
--
-- Not modelled: sockets, threads, timers' time, logging and the platforms (the io_service runs
-- handlers one at a time); the sweep of PeerServer's timer, which depends on the capacity of
-- vectors; the copy of vos::Buffer; the start and the end of the servers.
mod Base
pub mod App
pub mod StdMap
pub mod Url
pub mod Sessions
pub mod Mdns
pub mod Control
pub mod Media
pub mod Receiver
pub mod Dial
pub mod Ssdp
pub mod System
pub mod Http
pub mod Net
pub mod Sdk
pub mod Relay
pub mod Peers
