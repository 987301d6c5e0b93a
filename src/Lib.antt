-- ===== src/Lib.antt =====
-- multicat-supervisor: tools that store, spread, reorder and supervise multicast MPEG transport
-- streams. Numbers are natural numbers; a machine integer has its wrap-around written out, and a
-- signed one is the pattern of its bits. Bytes are lists of numbers.
--
-- The parts, and the files that model them:
--  * util.h, the dates of auxiliary files and the header of a retransmission request: Stc. FromSTC and
--    ToSTC are from_stc and to_stc.
--  * util.c, the auxiliary file that goes with a stream file, and the files of a rotated directory:
--    AuxFile. GetAuxFile, LookupAuxFile, CheckFileSizes, GetDirFile and LookupDirAuxFile have
--    the same names in snake case. A file is its bytes; the loop of LookupAuxFile has the number of
--    dates as its fuel, and every step halves an interval of at most that length. Which of the calls of
--    truncate succeed is an argument of check_file_sizes.
--  * aggregartp.c, which spreads packets over outputs by weight and keeps them for a while to answer
--    requests for retransmission: Aggregartp. NextOutput is next_output, SendBlock is send_block,
--    RetxQueue is retx_queue; the child Input has the program's state, RetxHandle and the reading of the
--    input in main, which Forwarding repeats. A list of blocks stands for the chain of p_next.
--  * reordertp.c, the other side: it orders packets by their sequence numbers, recovers the clock, sends
--    each packet at its date, and asks for what is missing with the header that aggregartp.c reads:
--    Reordertp. A block has an address, and the cursors of pp_retx are addresses. PacketRecv and
--    PacketSend are packet_recv and packet_send, clock_NewRef is clock_new_ref; the child Retx has
--    RetxCheck, whose inner loop has one more than the length of the list as its fuel: every turn leaves
--    one block less in front of its cursor. The child Round has the loop that sends what is due and
--    the reading of an input.
--  * multicat-supervisor.c, which compares the running streamings with the rows of the database, and
--    starts, stops and updates them: Supervisor. What it does outside is a trace of effects, the latest
--    first: commands, statuses set in the database, and tables put in the shared memory
--    (sharedMemoryLib.c).
--
--  * sharedMemoryLib.c, the slots that the supervisor writes and the streaming programs read: SharedMemory.
--    Each operation is a function from the memory before to that after, on the assumption that all
--    programs hold the same semaphore in it.
--  * ingests.c, which dates the payloads of a stream file by its PCR: Ingests; OutputAux, Output,
--    OutputFirst, OutputLast and TSHandle have the same names in snake case.
--  * utf8_to_latin9 of util.c: Latin9; its fuel is the length of the text, and every turn takes a byte.
--  * multicat_validate.c: Validate, with HandleSTC and the position to begin at, and its child Following
--    with the loop over the files and OpenDirFile for reading. How often HandleSTC reads the clock depends on the clock, so its fuel
--    is an argument, and that of the loop is its turns.
--  * multicat.c, which copies a stream between sockets, files and directories: Multicat, with the files
--    (file_Read is file_read, and so on) in its child Files and the rotated directories in Directories.
--    Loop has one turn of the loop of main, and Sockets what reads and writes sockets. The loop of a read
--    under -l has its calls as its fuel, and that of dir_Read the files it opens.
--  * eit.c, which puts tables of events into the stream: Eit. A table is the calls that build it, and its
--    child Packets has output_psi_section, add_eit and the functions of biTStream, with the laws that
--    are relied on. The room of the buffer bounds the loop of output_psi_section. Its child Loading has
--    load_eit of util.c, with the conversions in Numbers; the fuel of its loops is the size of the array.
--  * lib_ini.c, the configuration files of multicat and the supervisor: Ini. ChargerFichierIni is
--    charger_fichier_ini, rechercherValeur is rechercher_valeur, and the other functions have their
--    names in snake case; a file is its bytes, and its length is the fuel, as each line takes a byte.
--    The child Config has the contents apart from how they are stored, Text their text.
--  * eit_mysql.c, the rows of the database and the status of a streaming: Database. What the MySQL client
--    answers is an argument.
--  * json_parsing.c, a section as a JSON object and back: Json, with json_parse and its descriptors in
--    Parsing and convert_eit_struct_to_json in Building. json-c is a record of functions with laws.
--  * eit_xml.c, the events of a stream out of the XML that dvb_print_si prints of it: EitXml, with the
--    program and the events' ids, and its child Sections with the rest. A document is what libxml2 finds for a path.
--  * util.c, OpenSocket: Socket, with ParseNodeService; its child Options reads the argument, and Opening
--    makes the calls of the system, which are a trace. What the system knows of names and addresses is a
--    record of functions; which calls end well, and how often a signal breaks off accept, are arguments.
--  * multicat.c up to the opening of its input, and multicat-viewer.c: Startup, with start_multicat and
--    view. The files, what is mapped of one, and how a section lies in memory are a record of functions.
--  * lasts.c, offsets.c, ingests_debug.c and logs.c: Tools.
--
-- Base has the shared helpers, Io the results of system calls, and Rtp the accessors of biTStream, which
-- are not part of the repository: a record of functions with the laws that the program relies on. The
-- results of system, json-c and the converters of sections are a record of functions as well.
--
-- Not modelled: the clocks, the options of the programs and printing, which are calls of the system; the
-- release of memory, as values are not shared here; the print tools of VideoLAN.
pub mod Aggregartp
pub mod AuxFile
pub mod Base
pub mod Database
pub mod Eit
pub mod EitXml
pub mod Examples
pub mod Ingests
pub mod Ini
pub mod Io
pub mod Json
pub mod Latin9
pub mod Multicat
pub mod Reordertp
pub mod Rtp
pub mod SharedMemory
pub mod Socket
pub mod Startup
pub mod Stc
pub mod Supervisor
pub mod Tools
pub mod Validate
