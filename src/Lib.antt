-- ===== src/Lib.antt =====
-- m3sec: the programs that keep RDF triples in Berkeley DB or SQLite tables and show them as a file
-- system, and the database examples beside them.
--
-- The programs. bdb_vfs (sib_fs_mapping/berkeley/bdb_vfs under src) has a menu whose entries create
-- three tables, put nine records in them, read them side by side into three vectors, close them, and
-- build directories and files from the vectors with fusekit. testfs does the same in one run that
-- its options steer, and keeps multimaps too; berkeley_test only prints the tables. The SQLite
-- mapping fills the vectors from the tables triple and node of a file. bdb_read prints one database.
-- triple_db loads text files into an inventory database through marshalled records, and
-- AccessExample stores lines of input with their reversals; another program shows the inventory.
-- test_fs is a file system of constant files. l-fuse is a file system whose client sends its calls
-- to a server, and hip_example compares what it sends with what a server echoes.
--
-- The files.
--   Common/*: numbers, lists, bytes, C strings, chains of undefined steps, and `Exec`, the actions
--     that return, throw, or are still running when fuel is used up, with rules for invariants
--     (Keeps), total correctness (Ensures) and how actions end (Ends).
--   Console: the operands of << that went to cout and cerr.
--   Bdb, BdbLaws, Fusekit: the two libraries as interfaces. `Lawful` states what Berkeley DB
--     documents of flags, open, put, cursors, get and close on tables with one key, with a view of
--     the library's world as tables; `Responds` and `Answers` state that calls come back.
--   Rows: the loop test on three cursors, `next_row`, and the line printed for a record.
--   BdbVfs: src/sib_fs_mapping/berkeley/bdb_vfs/src/bdb_vfs.cpp. createDb, closeDb, insertDbData and
--     printDbData are create_db, close_db, insert_db_data and print_db_data over `State`, the globals
--     of the program; Vfs has createDbVfs, Menu has main. `Builds` in Vfs/Calls states that fusekit
--     makes the directories and files that it is asked for, in order.
--   Sqlite: src/sib_fs_mapping/sqlite/db.cpp, and main.cpp in Program.
--   Testfs: src/sib_fs_mapping/berkeley/testfs/test.cpp.
--   BerkeleyTest: src/berkeley/tests/berkeley_test/test.cpp.
--   BdbRead: src/berkeley/tests/bdb_read/src/bdb_read.cpp.
--   TripleDb: src/berkeley/examples/triple_db. Inventory has InventoryData and get_item_name of
--     gettingStartedCommon.hpp, Database has MyDb.cpp, Load has getNextPound and loadInventoryDB of
--     excxx_example_database_load.cpp, Vendor has its loadVendorDB and the struct VENDOR, Read has
--     the functions of excxx_example_database_read.cpp, Options the options of both programs, and
--     Programs both mains with the lifetimes of the MyDb objects. Programs/Laws states what Berkeley
--     DB documents of the three databases: the phases of a handle, a put with and without DB_DUPSORT,
--     the index that is kept once it is associated, cursors, and what another process finds in the
--     files. Programs/Composed runs one program after the other under these laws.
--   AccessExample: src/berkeley/examples/AccessExample.cpp; Run has main and all of run but its input
--     loop.
--   CExample, CppExample: src/berkeley/examples/c_example.c and c++_example.cpp.
--   FuseTestFs: src/fuse/examples/test_fs/test_fs.c.
--   LFuse: src/fuse/examples/l-fuse. Host is what the server calls, Server has the handlers of
--     afsfuse_server.c that send a call on, Server/Transfer those that move data, Remote is what the
--     client calls, Client has the operations of afsfuse_client.c that are one call, Client/Streams
--     the others, Client/Composed puts the two sides together, Link states what is documented
--     of a split call, under which Client/Streams/Silent and Delivered do so for a read and a write,
--     Bulk has bulk_io.c, and Start has main of both sides with GetIpAddress.
--   Hip: src/hip/tests_old/hip_example.c. HipTests: the other programs beside it.
--   Tests: an in-memory Berkeley DB, a fusekit that lists its calls, and the theorems at inputs.
--
-- Conventions. A pointer is the bytes that can be read from it on, so that a C string ends at the
-- first NUL or is read past its object. A `double` and a `long` are 64 bits, the low byte first, as
-- on x86-64. A step that is undefined in C++ is `none`, or an action with no outcome. Loops that a
-- library's answers end take fuel; the theorems on them give one round more than there are records,
-- or hold for every fuel. The menu, which has no exit, is run on the list of keys that are entered.
--
-- Only the host of the l-fuse server has its size of a `long` as a parameter: the number of bytes of
-- a write is stored as a `long` at the address of an `int`, which is undefined where a `long` has more
-- than 4 bytes, as on x86-64. Where an `int` is sent in this way, its value is taken for what is sent,
-- though as many bytes as a `long` has are read at its address.
--
-- The semaphore and Rx in the client, the kernel in the server, and the sockets are interfaces whose
-- laws are hypotheses; each has an instance in Tests.
--
-- Not modelled: the destructors of Db, the text of what(), main of test_fs, which only calls
-- fuse_main, what hip_example and the server's handlers print, the examples of libfuse
-- helloworld_opt.c and test_fs/example/example.c, which does not compile, and the Python scripts.
pub mod Common
pub mod Console
pub mod Bdb
pub mod BdbLaws
pub mod Rows
pub mod Fusekit
pub mod BdbVfs
pub mod Sqlite
pub mod Testfs
pub mod BerkeleyTest
pub mod BdbRead
pub mod FuseTestFs
pub mod AccessExample
pub mod TripleDb
pub mod Tests
pub mod LFuse
pub mod CExample
pub mod Hip
pub mod HipTests
pub mod CppExample
