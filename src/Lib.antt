-- ===== src/Lib.antt =====
-- LiveBroadcastServer: a live broadcast server in C++ takes RTMP streams from publishers and sends
-- them to viewers as FLV over HTTP. This library models the path of a stream from the bytes that a
-- publisher sends to the bytes that each viewer is sent, and proves what it does.
--
-- The parts of the program and how they interact. A publisher's TCP connection reads into a buffer
-- (utils/Buffer) and calls RtmpPushConnection::OnConnectionShakeHand, which runs
-- RtmpManager::ParseShakeHand until the handshake is over and then binds the stream's path in
-- RtmpPushServer. From then on OnBodyData gives the buffer to RtmpManager::ParseData and
-- RtmpCodec::DecodeData; the packet that finished last becomes an FLV tag (Rtmp2FlvCodec::Transform), and each
-- viewer's HttpPullConnection::AddFlvTag sends it as an HTTP chunk. A viewer comes by a request line
-- that HttpPullServer::OnClientMessage looks up in the publishers' map.
--
-- Files, and the code each one models:
--   Buffer: utils/Buffer, a vector with a read and a write index. Fifo is its specification, a queue
--     of bytes, over which all the rest is modelled; Buffer.Inv, Buffer.Refine and Buffer.Run show
--     that the buffer keeps to it, and Buffer.Sums what its totals count.
--   Text and Format: std::string as utils/Format and utils/codec/RtmpManager use it, and utils/Format.
--     Format.Hex, Format.Url and Format.Path hold the proofs. Text.Decimal is std::to_string.
--   Rtmp.Pack: utils/codec/RtmpPack. Rtmp.Pack.Header has the chunk header of the RTMP specification.
--   Rtmp.Codec: utils/codec/RtmpCodec, DecodePack, DecodeBody and ParseFirstHeader; Rtmp.Codec.Data
--     is DecodeData. Rtmp.Codec.Stream says what a message looks like on the wire, in chunks.
--   Rtmp.Manager: utils/codec/RtmpManager. Rtmp.Manager.Handshake has its state machine.
--   Flv, Flv.Transform and Flv.Manager: utils/codec/FlvCodec, Rtmp2FlvCodec and FlvManager; Flv.Reader
--     is the loop of ParseFile, and Flv.Reader.Misread what it makes of a real file.
--   Live.Replies: the constants of the handshake in utils/codec/RtmpPack.h.
--   Live.Pull, Live.Push: live/connection, the viewer's and the publisher's connection.
--   Live.Publish, Live.Watch: live/RtmpPushServer and live/HttpPullServer. Live.Publish.Bound follows
--     the paths over the publishers' coming and going. Live.Watch.Viewing follows a
--     viewer through both of them, from its request to the stream it reads, and Live.Publish.Streaming
--     a publisher's data to its viewers.
--   Net.Channel, Net.Tcp: network/Channel and network/TcpConnection. A live/ function's call of Send
--     is a result there; Net.Tcp.Output and Net.Tcp.Stall say what becomes of data sent.
--   Net.Epoll, Net.Epoll.Wait, Net.Select: network/multiplexing, with the kernel as an interface.
--   Net.EventLoop: network/EventLoop; Net.EventLoop.Order has the queue that it promises, and
--     Net.Sending a loop whose functions are TcpConnection's SendInLoop.
--   Net.LoopThread, Net.Loops: network/EventLoopThread and EventLoopThreadPool.
--   Net.Server, Net.Address: network/TcpServer, Acceptor and InetAddress::ToIpPort; Net.Server.Names
--     is about the name of a connection, Net.Server.Fresh shows that it is used once, and
--     Net.Server.Closing has a connection's close callback.
--   Net.Connector, Net.Client: network/Connector and TcpClient.
--   Thread.Pool: thread/ThreadPool.
--   Live.Log: the log statements of live/ with text from the network or the command line, over Logger;
--     those that hold names of connections and numbers only are left out.
--   Live.Pages: live/HttpServer, the pages for the browser, over File: utils/File.
--   Logger: utils/Logger and LoggerStream; Logger.Lines compares it with a log without variables.
--   Mysql.Result, Mysql.Db, Mysql.Users: mysql/ and mapper/UserMapper.
--   Tests: the theorems at concrete inputs. Common: shared helpers; Common.Names is std::map.
--
-- How the code is represented. Bytes are numbers below 256, and a size_t or uint32_t result that can
-- wrap is taken modulo 2 ^ 64 or 2 ^ 32. A ssize_t that can be -1 is an Option whose none is -1; a
-- read past a string, a null pointer or an exception is none too. What the code leaves uninitialised
-- (the top byte of a time stamp, the scalars of a new codec) is an argument. The build is the one
-- without MONITOR_MODE. A shared_ptr to a publisher is the name of its connection.
--
-- Fuel. DecodeData runs on one more round than there are bytes, and ParseFirstHeader on as many as it
-- has bytes to look at, since every round but the last takes a byte; the handshake loop runs on nine
-- rounds, since eight packets bring it to its end. The theorems on totality show that this is enough.
-- ParseFile's loop ends after as many rounds as there are bytes in the file and tags, if it ends at all;
-- ReadFileAsString takes a round at most for every byte of the size that stat tells. Hexadecimal numbers
-- have sixteen digits at most, decimal ones twenty.
--
-- Concurrency. The functions of other threads come to a loop only through RunInLoop, whose lock makes
-- it one step; Net.EventLoop.Order has a step of any thread at any time between those of the loop's
-- own. A thread with its loop and its owner (Net.LoopThread) takes steps in any order, and so do the
-- callers and threads of a pool (Thread.Pool).
--
-- Not modelled: the wrappers of one system call each in network/Socket, SocketOps, thread/Thread, Mutex,
-- Condition and utils/Timestamp; main.cpp, which builds the servers and links them as Live.Watch does;
-- the page and the player in live/WebData.h, which are data.
pub mod Common
pub mod Fifo
pub mod Buffer
pub mod Text
pub mod Format
pub mod Rtmp
pub mod Flv
pub mod Live
pub mod Net
pub mod Tests
pub mod Thread
pub mod File
pub mod Mysql
pub mod Logger
