-- ===== src/Lib.antt =====
-- cloud_storage: a personal cloud storage server: its network library in the style of muduo, its HTTP
-- parser, and the application that keeps users, files and shares.
--
-- The program. An event loop reads a socket into a connection's Buffer and calls the message callback,
-- HttpServer::onMessage, which hands the buffer to the connection's HttpContext. HttpContext cuts the
-- request line, the headers and the body off the buffer into an HttpRequest. The server hands it to
-- HttpUploadHandler::onRequest, which looks the path up in a table of regular expressions and calls one
-- of its handlers. They ask a MySQL database who the user is and what files and shares there are, read
-- and write files, and fill in the response; an upload goes on over several requests and a download
-- over several write complete callbacks, with an object that the HttpContext keeps in between. The
-- server sends the HttpResponse back by TcpConnection::send, which keeps in the output Buffer what the
-- socket does not take at once, for handleWrite. A loop calls the functions that other threads queue at
-- the end of each round, and has a TimerQueue. EventLoopThreadPool spreads connections over loops, and
-- Connector makes connections on a client's side.
--
-- The files.
--   Common: shared names; tests on numbers, lists, results, and what the code uses of the C and C++
--     libraries on text (std::find, isspace, strcasecmp, atoi).
--   Buffer: inc/network/Buffer.hpp and src/network/Buffer.cpp. The record has the vector, readIndex_
--     and writeIndex_; a pointer into the buffer is an offset. Buffer/Layout is the invariant,
--     Buffer/Space is about makeSpace, Buffer/Writes and Buffer/Reads about the other operations,
--     Buffer/Search about findCRLF, and Buffer/Queue about histories of calls.
--   Http/Headers, Http/Request, Http/Query: inc/network/http/HttpRequest.hpp. Headers is the std::map,
--     Query is getQuery and urlDecode.
--   Http/Context: inc/network/http/HttpContext.hpp and src/network/http/HttpContext.cpp.
--   Http/Response: inc/network/http/HttpResponse.hpp.
--   Http/Server: src/network/http/HttpServer.cpp, for one connection: its context and input buffer, and
--     the list of calls of the connection (send, shutdown) that an event leads to. Http/Server/Answers
--     is what the peer is sent.
--   TcpConnection: inc/network/TcpConnection.hpp and src/network/TcpConnection.cpp. The record has the
--     members, the two events of the channel, the functions queued in the loop, and what the socket was
--     given. TcpConnection/Streams is the invariant, Sending and Messages are handleWrite and
--     sendInLoop, Draining is what repeated calls of handleWrite come to.
--   EventLoopThreadPool: inc/network/EventLoopThreadPool.hpp and src/network/EventLoopThreadPool.cpp.
--     EventLoopThreadPool/Rounds is about getNextLoop, Restart about stop and start.
--   EventLoop: inc/network/EventLoop.hpp and src/network/EventLoop.cpp, the queue of pending functors and
--     the counter of the eventfd. EventLoop/Pending is about one call of doPendingFunctors and about
--     rounds of the loop.
--   Date: inc/utils/date/Date.hpp and src/utils/date/Date.cpp. Date/Calendar has the Gregorian calendar.
--   TimeStamp: inc/utils/date/TimeStamp.hpp and src/utils/date/TimeStamp.cpp, in microseconds.
--   TimerQueue: inc/network/Timer.hpp, inc/network/TimerQueue.hpp and src/network/TimerQueue.cpp. The
--     sets are lists in their order, and a pointer to a timer is the timer with its address.
--     TimerQueue/Silence is about the queue with the time stamps as they are.
--   BoundedBlockingQueue: inc/utils/datastructures/BoundedBlockingQueue.hpp, as a step relation of
--     threads with the sleeping and the woken threads counted. BoundedBlockingQueue/Steps is the
--     invariant.
--   LinkedBuffer: inc/network/LinkedBuffer.hpp, which nothing in the program uses yet. LinkedBuffer/Contents
--     is the text that the blocks hold, Loops and Shrinking are the loops, and Queue has the queue of bytes.
--   Connector: inc/network/Connector.hpp and src/network/Connector.cpp. The record has the members, the
--     sockets created, closed and handed over, the timers' delays and the functions queued in the loop.
--     Connector/Events is a sequence of calls and events, Accounts and History are what it does with
--     the sockets, Backoff is about the delays.
--   App: app/HttpUploader.hpp, app/FileUploadContext.hpp and app/FileDownloadContext.hpp. App/Platform
--     is the world outside, App/Effects the state of a handler and the monad of its statements: a
--     handler reads and changes the Exchange (request, response, the connection's context and callback)
--     and returns, throws, or is undefined. App/Text, App/Json and App/Decode are numbers, JSON values
--     and urlDecode. App/Sessions has accounts and sessions, App/Upload the pieces of an upload,
--     App/Transfer the ranges and chunks of a download, App/Access the permission checks of the two
--     downloads, App/Files the list and the removal, App/Names the map of original names, App/Shares
--     the shares, App/Pages the pages, App/Pattern the regular expressions of routes, and App/Routes
--     the table, onRequest and onConnection. Sessions/Accounts has the handlers of accounts,
--     Upload/Requests, Access/Downloads, Shares/Visits and Files/Removal the other handlers of these
--     parts. Upload/Chunks, Transfer/Ranges, Transfer/Chunks,
--     Access/Permission, Access/Refusal, Routes/Protected, Names/Ordered, Names/Lookup, Shares/Columns, Pattern/Exact and Routes/Dispatch
--     have the proofs.
--
-- Conventions. A byte is a number. A failed assert is the result failed_assert. Subtraction on size_t
-- wraps (size_sub); sums of sizes are sizes of bytes in memory and are taken not to reach 2 ^ 64. The
-- reserve of Buffer::shrink is no such size: its sum with the readable bytes wraps, and what comes out
-- is taken to leave room for the eight bytes that makeSpace adds, as the reserve of LinkedBuffer::shrink
-- is taken to fit with a block's capacity. Memory is there when it is asked for. A year is a number,
-- with no 16 bits to it. queueInLoop with its wakeup is one step of the thread that calls it. The
-- loop of processHeaders is given one more round than there are readable bytes, and each round but the
-- last takes at least two of them. The loop of parseRequest takes its fuel as an argument; a message
-- with its headers complete needs three rounds. A regular expression of std::regex that stands in the
-- source is written out as the search that it means.
--
-- Parameters. What readv delivers is an argument of read_fd. What sscanf with "%x" leaves in its
-- variable is the field scan_hex of a Scanner, which is known for hexadecimal digits only. What write
-- answers is a list: each call takes up to the number given, or fails with an errno. The callbacks of a
-- connection and the handler of the server are functions. The errors that connect leaves are a list.
-- What starting a thread returns is a function of the thread's number. MySQL, the file system, JSON,
-- the hash, the clock and random numbers of the handlers are the fields of a Platform over a world; the
-- properties that need something of it name it in App/Storage: a file keeps what is written to it
-- (KeepsFile), and the JSON text of a map in the order of its keys, of texts in UTF-8, parses to the
-- map (KeepsMaps). What the callbacks of timers do is a function.
--
-- Not modelled: the pollers and channels, the server and client around the connections, the
-- searches, retrieveUntil and readFd of LinkedBuffer, the wrappers of system calls and threads, and logging, which only reads the
-- state. The thread pool of the handler runs nothing. custom_context of HttpContext is a handle; the
-- object is the field custom of an Exchange.
mod Common
pub mod Buffer
pub mod TcpConnection
pub mod EventLoopThreadPool
pub mod Connector
pub mod EventLoop
pub mod Date
pub mod TimeStamp
pub mod TimerQueue
pub mod BoundedBlockingQueue
pub mod LinkedBuffer
pub mod App
pub mod Http
