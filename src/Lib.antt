-- ===== src/Lib.antt =====
-- OServer, an HTTP server in C: a model of its parts and what holds of them.
--
-- The program. `server.c` accepts connections with `select` and hands each to a pool of threads
-- (`thread_pool.c`) through a queue (`sync_queue.c`); the connections' records come from an object
-- pool (`object_pool.c`). A thread reads bytes into the connection's buffer and gives them to
-- `http_request_parse` (`http_request.c`), which goes through the method, the URL, the version and
-- the header with one parser for each (`http_method.c`, `http_url.c`, `http_version.c`,
-- `http_header.c`), each of which answers how many bytes it has used, 0 when more are needed, or an
-- error. Headers are stored by the number of their field in an AVL tree (`btree.c`); a field's name
-- is found by a binary search on 16-bit hashes. The response (`http_response.c`) holds a status, a
-- collection of headers and a file. Connections, the segments of a path and the items of a query
-- hang in circular lists (`list.c`, `stack.c`).
--
-- Which file models what. Definitions have the names of the C functions.
-- - Btree: btree.c and btree.h. A tree is a value of `Tree V`, with the payload `V` of a node. A
--   `bt_key_t` is only compared, so it is a number; a `balance_factor` is the bit pattern of its
--   `int8_t`. `none` is a fault or a failed assertion. Btree/Avl has the balance, Btree/Entries the
--   dictionary that a tree stands for, Btree/Contents and Btree/Insert the refinement,
--   Btree/Traversal the lookup and the traversals, Btree/Thread the threads and the walk along them.
--   The two pointers of a walk are the subtree below a node, and for a thread the key that it leads to.
-- - LinkedList: list.c and stack.c on a store of links (`Store`), with LinkedList/Links,
--   LinkedList/Ring and LinkedList/Traverse for a ring of distinct nodes as a sequence.
-- - Chain, SyncQueue, ObjectPool: sync_queue.c and object_pool.c with the `next` fields as functions
--   on addresses. What a thread does between locking and unlocking the queue is one step; a call
--   that waits gives the lock away and starts again. `malloc` succeeds, and the address that it
--   returns is a parameter.
-- - ThreadPool: thread_pool.c on that queue. ThreadPool/Steps has the relation of steps: a task is
--   added, a thread goes on, or the destruction begins; it keeps the lists of what was accepted, taken
--   and run. A waiting thread may wake at any step, as POSIX allows.
--   ThreadPool/Signals has a second relation, of the runs in which a thread wakes only by
--   `pthread_cond_signal` or `pthread_cond_broadcast`, where the broadcast, which is sent without the lock,
--   may miss any thread.
--   `malloc` returns an address that no queued and no held task has.
-- - Bytes: a buffer is a function from offsets to bytes, also past the size that is passed along with
--   it, so that a read past the size is visible. The loop that two parsers share is `match_loop`.
-- - HttpMethod, HttpVersion: http_method.c and http_version.c. An answer is the returned code with
--   what is written through the pointers; what stood there before is an argument.
-- - HttpHeader: http_header.c. Fields has the table of names and Fields/Ids the enumeration of
--   http_header.h, Hash the hash, Sort the sort of the index, Search the two binary searches,
--   Collection the headers of a message, Parse the parser of the header, ToStr the printing of
--   headers with the buffers of the two logs. The 16-bit hash is its bit pattern. A `NULL` pointer is
--   `none`; `snprintf` cuts a text that leaves no room for its final 0.
-- - HttpUrl: http_url.c, with the classes of characters and the conversions; HttpUrl/Path has the
--   parser of paths, HttpUrl/Query that of queries, HttpUrl/Parse that of whole URLs. A `char` is its bit
--   pattern, and it is signed. A pointer into the array `url` is an offset; the stack of segments and
--   the list of items are the sequences of their nodes.
-- - HttpRequest: http_request.c. `http_request_parse` is a loop with fuel over `request_step`, one
--   round of its `switch`; the variable `parsed_len` keeps its value from round to round.
-- - HttpResponse: http_response.c. Codes has the numbers of the codes, Gen the loop of
--   `http_response_gen` over one round of its `switch`, Log the log.
-- - Server: the answer to a request and the sending of a response in server.c. `stat`, `open`,
--   `close`, `read` and `write` are the fields of `Os`, on a state of the files that the theorems
--   leave open. Files has the path, the type and the numerals, Process `server_process_request` with
--   its methods, Process/Replies and Process/Refines a table of replies and the refinement of it,
--   Client `server_serv_client` with `recv` as a parameter, Send its loop that sends a response. A text
--   that goes past the end of the array for the path or the type is a fault.
-- - ServerConfig: server_config.c on what `getopt_long` finds. Logger: logger.c, with the time and the
--   formatted text of a message as arguments.
-- - Prelude: Boolean tests, lists and integers over native numbers. Examples: runs at concrete inputs.
--
-- Loops. Those over a buffer or a list are structural recursion. `search_loop` has fuel for one round
-- more than the index has entries, since each round leaves a smaller range; `free_blocks` for one
-- round more than there are blocks; `request_loop` for five rounds and `gen_loop` for four, since a
-- round that does not end the loop raises the status; `visit_from` for as many rounds as the tree has
-- entries; `send_loop` for two rounds more than the file has bytes; `serve_loop`, which goes on as long as
-- the peer sends, for any number of rounds. The functions of ctype.h, string.h and strings.h that the
-- code uses (`tolower`, `strncmp`, `strcasecmp`, `strncasecmp`, `strstr`, `strchr`, `strrchr`,
-- `strcmp`) are written out for the C locale.
--
-- Not modelled: `server_entry` and the calls around it that mostly reach the system (sockets, `select`,
-- the pipe, the set of descriptors); the line that `http_request_log` prints; the help of
-- server_config.c; main.c, which makes three calls. mime.cc is a file that the build does not name.
pub mod Prelude
pub mod Bytes
pub mod Btree
pub mod LinkedList
pub mod Chain
pub mod Server
pub mod ServerConfig
pub mod Logger
pub mod SyncQueue
pub mod ThreadPool
pub mod ObjectPool
pub mod HttpMethod
pub mod HttpVersion
pub mod HttpHeader
pub mod HttpUrl
pub mod HttpRequest
pub mod HttpResponse
mod Examples
