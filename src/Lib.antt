-- ===== src/Lib.antt =====
-- A verification library of the lessons: small C programs, most of them one process or a few that
-- talk over pipes and sockets. Each program is modelled by itself; they share no code.
--
-- Files. Base holds shared names, Boolean tests, list lemmas and integers; Text the calls of
-- string.h and stdio.h that the programs make (strcmp, strncmp, strcspn, "%d" of printf and
-- scanf).
--
-- Taxi: TaxiManagement/taxi.c. Taxi/Driver is `driver_main`: `prepare` and `react` are the two
-- halves of a round of its loop, `run` the loop. Taxi/Dispatcher is the other process:
-- `send_command`, `create_driver`, `send_task`, `get_status`, `get_drivers` and
-- `cleanup_zombies` on the table `drivers`, and `handle_line`, a round of the loop of `main`.
-- Taxi/Driver/Answers, Taxi/Driver/Schedule, Taxi/Dispatcher/Table and Taxi/Dispatcher/Commands
-- hold the proofs, the last of them for both processes together.
--
-- Echo/Server: SocketsEcho/server.c. `handle` is a round of the loop of `main`, on the table
-- `cl_history`; `serve` the loop. The proofs are in Echo/Server/History and Echo/Server/Numbers.
-- Echo/Client: SocketsEcho/client1.c. `chat` is the loop of its `main`, with the network as an
-- argument; Echo/Client/Session puts it and the server together.
--
-- Services/Pool: SocketsSS/TaskThree/server.c. `enqueue_client` and `dequeue_client` on the ring
-- of clients; Services/Pool/System has the steps of `main` and of the threads as a relation on
-- the whole state, Services/Pool/System/Invariant its invariant.
--
-- Services/Lending: SocketsSS/TaskTwo/server.c. `look` is an iteration of `find_free_server`, `serve`
-- a round of a serving thread; the step relation assumes that clients connect only to the port they
-- were sent. Services/Lending/Guests has its invariant.
--
-- Services/Trio: SocketsSS/TaskOne/server.c. `serve_visit` is a round of the loop of `main`, for a
-- client that comes; Services/Trio/Visits is about the loop.
--
-- Services/Clock: SocketsSS/TaskFour/server.c, the two handlers and a round of the loop of `main`.
-- Services/Clock/Replies is about the replies.
--
-- Services/Visitor: the clients of the four, with the connections as arguments. Services/Visitor/Told
-- and Services/Visitor/Agreement put the client of TaskTwo and its servers together, from the search
-- for a free server to the time that is shown; Services/Visitor/Times the other clients and theirs.
--
-- AbonentList: the directory on the heap. AbonentList/Strings is `my_strncpy` of add.c and
-- `my_strcmp` of search.c, AbonentList/Memory the heap, AbonentList/Directory add.c, remove.c,
-- search.c, displayPrint.c and clear.c. AbonentList/Directory/Chain says when a heap holds the
-- list, and a file for each operation what becomes of it. AbonentList/Menu is the loop of main.c;
-- AbonentList/Menu/Promise says without a heap what the program does for its user, and
-- AbonentList/Menu/Refinement that it does so.
--
-- Struct: Struct/abonents.c, the directory in a static array. `scan_text` is scanf("%s"), and is
-- undefined where the text does not fit; a slot outside of the array is undefined too. Struct/Slots is about a field and a slot,
-- Struct/Operations about adding and deleting, Struct/Menu about the search and a whole round of
-- `Interface`.
--
-- Streams: creat_shop.c, creat_shoppers.c, pthread_shopper.c and pthread_loader.c of Streams: a
-- step relation on the shops, their mutexes and the threads. Streams/Balance has the invariant,
-- Streams/Steps that each step keeps it, Streams/Runs what follows for every run.
--
-- Packet: `ip_checksum` and `udp_checksum` of SocketsRawPacket/Client/client.c. Packet/Fold is about
-- folding a sum, Packet/Check about a packet with its checksum in place. Three rounds of the loop of
-- `udp_checksum` are enough for the buffer. Packet/Frame is the rest of that client, and the raw clients
-- SocketsRawIPUDP/client.c and SoketsRawUDP/client.c and SocketsRawSniffer/sniffer.c:
-- Packet/Frame/Build is about the frame that is sent, Packet/Frame/Receive about waiting for the
-- reply.
--
-- FileManager: File_manager, the file manager with two panels. `scan_directory`, `move_selection`
-- and `change_directory` work on a panel, `press` is a round of the loop of `main` and `key_loop`
-- the loop. FileManager/Panels is about the selection, FileManager/Paths about going down and up,
-- FileManager/Keys about the loop and the rows that are drawn.
--
-- Shell: Pipe/BushFix, with `read_line` for a round of its `main`, `execute_simple_command` and
-- `execute_pipe_command`; and the smaller Processes/MyBash/MyBash.c and
-- Processes/New_bash/new_bash.c. Shell/Words is about trimming and words, Shell/Lines about a typed
-- line with '|', Shell/Pipes about open files, Shell/Rounds compares the three.
--
-- SharedMemory: SharedMemory/Vsistem and SharedMemory/Posix, a server and a client of each as a step
-- relation from where both are attached; the two servers make the same steps. SharedMemory/Phases lists the places that the two come to together,
-- SharedMemory/Handshake says what holds at each.
--
-- LocalSockets: Sockets/TCP_local, server and client, and the server of Sockets/UDP_local, on what
-- their calls return. LocalSockets/Cleanup is about what they leave behind. LocalSockets/Internet:
-- the programs of Sockets/TCP_afinet and Sockets/UDP_afinet and the client of Sockets/UDP_local; the
-- UDP servers of the raw clients are the program Sockets/UDP_afinet/Server/server.c once more.
-- LocalSockets/Internet/Closing and Datagrams beside it are about what they leave behind, and
-- LocalSockets/Internet/Programs about all of them.
--
-- Messages/Posix: Messages/Posix, its server and its client as a step relation in which any call may
-- fail. Messages/Posix/Invariant says what holds in every state, ServerSteps and ClientSteps beside
-- it that the steps keep it, and Messages/Posix/Exchange what follows. Messages/SystemV: the same for
-- Messages/Vsistem, where one queue carries both messages.
--
-- DataTransfer: the clients of DataTransfer/Multicast and DataTransfer/Broadcast and the loop of their
-- servers. DataTransfer/Receipts says which datagrams a client shows, and when it ends;
-- DataTransfer/Programs is about whole clients with what their servers send.
--
-- PipeChild: Pipe/MyPipe/myPipe.c, a parent and a child at the two ends of a pipe as a step relation.
-- PipeChild/Steps is about the steps, PipeChild/Copying about every run.
--
-- Calculator: Calculator, its operations and the loop of main.c; Calculator/Division is about div.c.
--
-- Exercises: Exercises/Substring is the search of Pointer/point4.c, Exercises/MemoryBytes the byte
-- that Pointer/point.c overwrites, Exercises/Bits the digits of Bits/bits.c and Bits/bits3.c.
--
-- What comes from outside is an argument: the time, what select, read, waitpid, pipe, fork and
-- recvfrom return, the addresses that malloc returns, and the typed text. What goes outside is a
-- value: the bytes written, the descriptors closed, the signals sent and the lines printed, less
-- log output, prompts and table frames. An undefined read or write of C is `none`.
--
-- Bounds. The table of drivers has 100 slots, the table of clients 100 entries, the ring 10 slots,
-- as in the source. Times and pids are integers without overflow, and so are the counters. A
-- message fits into the buffer it is read into, unless a file says otherwise. Walks over the heap
-- list run on fuel, `count + 1` rounds, which the results on them show to be enough. `my_strcmp`
-- counts in a `char`, so the model ends after 128 rounds with an undefined read.
--
-- Not modelled: the set-up of sockets, threads and signals where a program is not about it; Array
-- and the other files of Bits and Pointer, exercises of a few lines; Signals, Output and ScanPass and
-- the rest of Pipe, Processes and SharedMemory, which are little more than calls of the system in
-- sequence.
pub mod Base
pub mod Text
pub mod Taxi
pub mod Echo
pub mod Services
pub mod AbonentList
pub mod Struct
pub mod Streams
pub mod Packet
pub mod FileManager
pub mod Shell
pub mod SharedMemory
pub mod LocalSockets
pub mod Messages
pub mod DataTransfer
pub mod Exercises
pub mod Calculator
pub mod PipeChild
